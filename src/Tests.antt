-- ===== src/Tests.antt =====
-- Runs of the definitions on small inputs, and the theorems at concrete inputs.
mod Base64
mod Fetch
mod Http
mod Limits
mod Policy
mod Session
mod Storage
mod Stream
mod Wire
mod Capstone
mod Guests
mod Handler
mod Inference
mod Jit
mod Plugins
