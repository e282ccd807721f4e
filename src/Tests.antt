-- ===== src/Tests.antt =====
-- Concrete runs of the model, and the theorems applied at them.
mod Heads
mod Routes
mod Rules
mod Requests
mod Connections
mod Settings
mod Configs
mod Caches
mod Watching
mod Signatures
mod Scanning
mod Handshakes
