-- ===== src/Document.antt =====
-- internal/storage/document/store.go: documents, queries and the sentinel errors of the document
-- storage boundary. The in-memory backend, memory.go, is the child module.
--
-- The payloads are JSON texts, which package encoding/json reads and writes: the type of its values
-- and the two functions that the store calls are the parameter `Json`.
pub mod Memory
pub mod Types
