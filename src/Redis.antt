-- ===== src/Redis.antt =====
-- packages/redis/src: the service that queues conversion requests and hands them to workers.
pub mod Request
pub mod Formats
pub mod Paths
pub mod Worker
pub mod Wrapper
pub mod Config
pub mod Service
pub mod Http
pub mod Rest
pub mod Tests
