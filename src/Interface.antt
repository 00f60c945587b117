-- ===== src/Interface.antt =====
-- common/include/research_interface/robot: what travels between the library and the robot.
mod Rbk
mod Service
pub mod Modes
pub use Rbk.*
pub mod Status
pub use Service.*
