-- ===== src/Naming.antt =====
-- The names of objects, of internal/naming. A Go string is the list of its bytes in `Truncate` and
-- `PortName`, and the list of its code points in `DNSName`; both are the same for ASCII texts, as the
-- names of Kubernetes objects are.
pub mod Truncate
pub mod Dns
pub mod Port
pub mod Names
pub mod Labels
pub mod Services
pub mod PortNames
pub mod Decimal
