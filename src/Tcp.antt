-- ===== src/Tcp.antt =====
-- The TCP channel of src/network.h: requests, and the responses that arrive in pieces.
mod Bytes
mod Channel
mod Responses
pub mod Frames
mod Headers
pub mod Reads
pub mod Steady
pub mod Messages
pub mod Arrival
pub mod Ids
unfoldable pub use Bytes.*
unfoldable pub use Channel.*
unfoldable pub use Responses.*
