-- ===== src/Acl.antt =====
-- Access control: the Qdrant payload filter that `build_qdrant_acl_filter` makes
-- (rag_core/services/acl_builder.py) and how it is evaluated (rag_core/clients/in_memory.py).
pub mod Filter
pub mod Builder
pub mod Terms
pub mod Admission
pub mod Fields
