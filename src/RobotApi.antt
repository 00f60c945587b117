-- ===== src/RobotApi.antt =====
-- src/robot.cpp and include/franka/robot.h: the class `Robot`, which its user calls, with the control
-- mutex that its control and read operations try to lock.
mod Lock
mod Calls
mod Settings
mod Steps
mod Owners
pub mod Counts
mod Starts
pub mod Exclusive
pub mod Leaves
unfoldable pub use Lock.*
unfoldable pub use Calls.*
unfoldable pub use Settings.*
unfoldable pub use Steps.*
