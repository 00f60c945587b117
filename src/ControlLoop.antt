-- ===== src/ControlLoop.antt =====
-- src/control_loop.h, src/control_loop.cpp, src/motion_generator_traits.h and src/robot_control.h: the
-- loop that calls the user's callbacks once for each state of the robot and sends what they return.
mod Convert
mod Loop
mod Construct
pub mod Checked
pub mod Direct
pub mod Cancels
mod Ending
mod Total
pub mod Yields
pub mod Ends
unfoldable pub use Convert.*
unfoldable pub use Loop.*
unfoldable pub use Construct.*
