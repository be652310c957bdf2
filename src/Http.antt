-- ===== src/Http.antt =====
-- src/wasi_http.rs: the `wasi:http@0.3` host. `Table` holds resources, `Data` their backing state and
-- the host; `Fields`, `Message` and `Options` are the host's methods on each kind of resource.
pub mod Table
pub mod Entries
pub mod Data
pub mod Fields
pub mod Message
pub mod Options
pub mod Head
pub mod Lines
pub mod Trailers
pub mod Hex
pub mod RoundTrip
pub mod View
pub mod Multimap
pub mod Handler
