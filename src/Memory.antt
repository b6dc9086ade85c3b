-- ===== src/Memory.antt =====
-- backend/app/memory: what agents remember of conversations, projects, channels and knowledge.
pub mod Stores
pub mod Manager
mod Tests
