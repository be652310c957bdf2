-- ===== src/WasiGuests.antt =====
-- src/wasi_guests.rs: the gated `wasi:http@0.2` hooks, which put the fetch gate and the header policy in
-- front of a sender.
pub mod Headers
pub mod Hooks
pub mod Retained
pub mod Safe
