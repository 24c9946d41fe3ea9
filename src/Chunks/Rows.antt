-- ===== src/Chunks/Rows.antt =====
-- `ChunkRecord` (rag_core/interfaces/chunk_repository.py), and how a dict of new values changes a row
-- (`update_metadata` in rag_core/clients/in_memory.py).
use domainrag_ops.Prelude.{ℕ, String, Option, List, [], ◌∷◌, string_eq, nat_eq, pair_eq}
use domainrag_ops.Payload.{Finding}

pub record ChunkRecord : Type 0 where
  pub domain_id : String
  pub chunk_id : String
  pub doc_id : String
  pub doc_version : String
  pub parser_version : String
  pub chunk_strategy : String
  pub chunk_index : ℕ
  pub content : String
  pub title : Option String
  pub page_number : Option ℕ
  pub section_title : Option String
  pub heading_path : List String
  pub content_hash : Option String
  pub start_char : Option ℕ
  pub end_char : Option ℕ
  pub token_count : Option ℕ
  pub department : Option String
  pub doc_type : Option String
  pub security_level : Option String
  pub acl : List String
  pub approval_status : String
  pub tags : List String
  pub valid_from : Option String
  pub valid_until : Option String
  pub embedding_model : Option String
  pub embedding_version : Option String
  pub vector_id : Option String
  pub pii_warnings : List Finding

-- An item of the dict `metadata`: the attribute with its new value. `other` is a key that
-- names no attribute.
pub data Item : Type 0 where
  other : String → Item
  to_domain_id : String → Item
  to_chunk_id : String → Item
  to_doc_id : String → Item
  to_doc_version : String → Item
  to_parser_version : String → Item
  to_chunk_strategy : String → Item
  to_chunk_index : ℕ → Item
  to_content : String → Item
  to_title : Option String → Item
  to_page_number : Option ℕ → Item
  to_section_title : Option String → Item
  to_heading_path : List String → Item
  to_content_hash : Option String → Item
  to_start_char : Option ℕ → Item
  to_end_char : Option ℕ → Item
  to_token_count : Option ℕ → Item
  to_department : Option String → Item
  to_doc_type : Option String → Item
  to_security_level : Option String → Item
  to_acl : List String → Item
  to_approval_status : String → Item
  to_tags : List String → Item
  to_valid_from : Option String → Item
  to_valid_until : Option String → Item
  to_embedding_model : Option String → Item
  to_embedding_version : Option String → Item
  to_vector_id : Option String → Item
  to_pii_warnings : List Finding → Item

-- `if hasattr(row, k): setattr(row, k, v)`
unfoldable pub set_attribute : Item → ChunkRecord → ChunkRecord
set_attribute (other k) row = row
set_attribute (to_domain_id v) row = record row { domain_id = v }
set_attribute (to_chunk_id v) row = record row { chunk_id = v }
set_attribute (to_doc_id v) row = record row { doc_id = v }
set_attribute (to_doc_version v) row = record row { doc_version = v }
set_attribute (to_parser_version v) row = record row { parser_version = v }
set_attribute (to_chunk_strategy v) row = record row { chunk_strategy = v }
set_attribute (to_chunk_index v) row = record row { chunk_index = v }
set_attribute (to_content v) row = record row { content = v }
set_attribute (to_title v) row = record row { title = v }
set_attribute (to_page_number v) row = record row { page_number = v }
set_attribute (to_section_title v) row = record row { section_title = v }
set_attribute (to_heading_path v) row = record row { heading_path = v }
set_attribute (to_content_hash v) row = record row { content_hash = v }
set_attribute (to_start_char v) row = record row { start_char = v }
set_attribute (to_end_char v) row = record row { end_char = v }
set_attribute (to_token_count v) row = record row { token_count = v }
set_attribute (to_department v) row = record row { department = v }
set_attribute (to_doc_type v) row = record row { doc_type = v }
set_attribute (to_security_level v) row = record row { security_level = v }
set_attribute (to_acl v) row = record row { acl = v }
set_attribute (to_approval_status v) row = record row { approval_status = v }
set_attribute (to_tags v) row = record row { tags = v }
set_attribute (to_valid_from v) row = record row { valid_from = v }
set_attribute (to_valid_until v) row = record row { valid_until = v }
set_attribute (to_embedding_model v) row = record row { embedding_model = v }
set_attribute (to_embedding_version v) row = record row { embedding_version = v }
set_attribute (to_vector_id v) row = record row { vector_id = v }
set_attribute (to_pii_warnings v) row = record row { pii_warnings = v }

unfoldable pub set_attributes : List Item → ChunkRecord → ChunkRecord
set_attributes [] row = row
set_attributes (item ∷ metadata) row = set_attributes metadata (set_attribute item row)
