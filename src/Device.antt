-- ===== src/Device.antt =====
-- What src/gripper.cpp and src/vacuum_gripper.cpp have in common: the handshake, a command with its
-- response, and the read of a state, over a connection that is a parameter.
mod Link
pub mod Fresh
unfoldable pub use Link.*
