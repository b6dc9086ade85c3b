-- ===== src/Cache.antt =====
-- backend/app/cache: the stores, the layers over them, and the embedding provider that uses one.
pub mod Store
pub mod Memory
pub mod Layers
pub mod Embedding
mod Tests
