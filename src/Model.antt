-- ===== src/Model.antt =====
-- The class `Model` of src/model.cpp: poses, Jacobians and the dynamics, by the functions of the
-- library that the robot sends.
mod Kinematics
mod Dynamics
mod Loader
pub mod Frames
pub mod Raises
pub mod Addresses
pub mod Exceptions
unfoldable pub use Kinematics.*
unfoldable pub use Dynamics.*
unfoldable pub use Loader.*
