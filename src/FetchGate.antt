-- ===== src/FetchGate.antt =====
-- src/fetch_gate.rs
pub mod Address
pub mod Ranges
pub mod Masks
pub mod Mapped
pub mod IpText
pub mod Gate
pub mod Origin
pub mod Permit
