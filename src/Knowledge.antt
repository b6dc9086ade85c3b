-- ===== src/Knowledge.antt =====
-- backend/app/knowledge: the splitting of documents.
pub mod Splitter
mod Tests
