-- ===== src/Tests.antt =====
-- Runs of the model on concrete inputs, and the theorems at such inputs.
mod Stores
mod Numbers
mod Codec
mod Allocators
mod Lookups
mod Logs
mod Chunks
mod Collections
mod Openings
mod Devices
