-- ===== src/Apps.antt =====
-- The programs of examples/: what their handlers do with the library, and the messages they exchange.
-- What they print is kept as a list of lines; a reading of the clock is an argument.
pub mod Handlers
pub mod Chat
pub mod Benchmark
pub mod Echo
pub mod Sync
pub mod Fields
pub mod Programs
pub mod Suite
pub mod Unheard
