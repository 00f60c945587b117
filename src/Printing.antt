-- ===== src/Printing.antt =====
-- The text that the library prints: `Errors` as text, and the log as comma-separated values.
mod Codes
mod ErrorNames
mod Flags
mod Csv
mod States
unfoldable pub use Codes.*
unfoldable pub use ErrorNames.*
unfoldable pub use Flags.*
unfoldable pub use States.*
unfoldable pub use Csv.*
pub mod Joined
pub mod Lines
pub mod Objects
