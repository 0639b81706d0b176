-- ===== src/Stream.antt =====
-- crates/stream/src: streaming of stored audio. `Range` is the HTTP byte range, `Pipe` the task that
-- sends the chunks of a range, and `Breaker` the health of the workers.
pub mod Range
pub mod Pipe
pub mod Breaker
pub mod Pool
