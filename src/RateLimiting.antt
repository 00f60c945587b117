-- ===== src/RateLimiting.antt =====
-- src/rate_limiting.cpp and include/franka/rate_limiting.h: the limiters of commands. The overloads of
-- `limitRate` have a name each.
mod Limits
mod Joints
mod Cartesian
pub mod Bounds
pub mod Velocities
unfoldable pub use Limits.*
unfoldable pub use Joints.*
unfoldable pub use Cartesian.*
