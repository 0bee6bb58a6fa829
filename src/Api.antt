-- ===== src/Api.antt =====
-- The custom resources of api/v1, as far as the modelled code reads them. A Go pointer is an
-- `Option`; a Go string type with constants is a data type whose last constructor takes any other
-- text; a slice that the code compares with nil is an `Option` of a list.
mod Hub
mod Replay
mod Collector
mod Payloads
pub use Hub.*
pub use Replay.*
pub use Collector.*
pub use Payloads.*
