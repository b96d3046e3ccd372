-- ===== src/Memory.antt =====
-- memory/: the in-memory limiters.
pub mod Numeric
pub mod Limiter
pub mod TokenBucket
pub mod LeakyBucket
pub mod Window
pub mod Options
pub mod Hash
pub mod Shard
pub mod Store
pub mod SlidingWindow
mod Tests
