-- ===== src/Robot.antt =====
-- src/robot_impl.h and src/robot_impl.cpp: `Robot::Impl`, the library's side of a connection.
mod State
mod Responses
mod Channel
mod Commands
mod Motions
pub mod Construct
pub mod Receive
pub mod Newest
pub mod Guards
pub mod Finish
pub mod Errors
pub mod Start
pub mod Stream
pub mod Returns
pub mod Finishes
unfoldable pub use State.*
unfoldable pub use Responses.*
unfoldable pub use Channel.*
unfoldable pub use Commands.*
unfoldable pub use Motions.*
