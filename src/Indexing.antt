-- ===== src/Indexing.antt =====
-- `IndexingService` (rag_core/services/indexing_service.py): the scan for personal data, the
-- embedding, and the rows and points that the chunks become. Child modules hold the steps and the
-- modes of a run, and the proofs.
pub mod Requests
pub mod Steps
pub mod Storing
pub mod Modes
pub mod Waiting
pub mod Outcome
pub mod Keeps
pub mod Access
pub mod Agree
pub mod Flag
pub mod Others
use domainrag_ops.Indexing.Requests.{
  IndexingRequest, Exception, Vectors, Service, EmbedResult, Warnings, no_warning, text_value,
  num_value, failed_entry,
}
use domainrag_ops.Prelude.{
  ℕ, ◌-◌, String, Bool, true, false, not, Option, none, some, List, [], ◌∷◌, ◌==◌, string_eq,
  nat_eq, map, any, count_if, or_else, is_some, if◌then◌else◌,
}
use domainrag_ops.Prelude.Float.{FloatOps}
use domainrag_ops.Prelude.Result.{Result, ok, err}
use domainrag_ops.Dict.{Dict, get, set_item, values}
use domainrag_ops.Payload.{Payload, Value, atom, items, Atom, null, text, num, finding}
use domainrag_ops.Pii.{PiiConfig, PiiDetector, ChunkPiiWarning, check_chunk_pii}
use domainrag_ops.Chunker.{Chunk, ParsedPage}
use domainrag_ops.Chunks.Rows.{ChunkRecord}
use domainrag_ops.Documents.{DocumentRecord}
use domainrag_ops.Jobs
use domainrag_ops.VectorStore.{Point, Fault}

module _ (fl : FloatOps) (svc : Service fl) where
  unfoldable pub scan_from : List Chunk → PiiConfig → Warnings → Warnings
  scan_from [] cfg warnings = warnings
  scan_from (c ∷ cs) cfg warnings =
      scan_from cs cfg (set_item warnings c.chunk_id (check_chunk_pii svc.detector c.content cfg))

  -- `_scan_pii`
  unfoldable pub scan_pii : List Chunk → PiiConfig → Warnings
  unfolding scan_from
  scan_pii chunks cfg = scan_from chunks cfg []

  -- `for chunk, pair in zip(chunks, embed_pairs)`
  unfoldable pub pair_up :
      List Chunk → List (Vectors fl) → Dict String (Vectors fl) → Dict String (Vectors fl)
  pair_up (c ∷ cs) (v ∷ vs) vectors = pair_up cs vs (set_item vectors c.chunk_id v)
  pair_up _ _ vectors = vectors

  abbrev embedded : List Chunk → Result Exception (List (Vectors fl)) → EmbedResult fl
  embedded chunks (ok vs) = record { vectors = pair_up chunks vs []; failed = [] }
  embedded chunks (err e) = record {
    vectors = [];
    failed = map (failed_entry (svc.error_text e)) chunks;
  }

  -- `_embed_safely`
  unfoldable pub embed_safely : List Chunk → EmbedResult fl
  unfolding pair_up
  embed_safely [] = record { vectors = []; failed = [] }
  embed_safely (c ∷ cs) = embedded (c ∷ cs) (svc.embed_batch (map (λ x. x.content) (c ∷ cs)))

  abbrev pub to_record : IndexingRequest → Warnings → Chunk → ChunkRecord
  to_record request warnings c =
      let warning = or_else (get warnings c.chunk_id) no_warning in
      record {
        domain_id = request.domain_id;
        chunk_id = c.chunk_id;
        doc_id = request.doc_id;
        doc_version = request.doc_version;
        parser_version = svc.parser_version;
        chunk_strategy = svc.chunk_strategy;
        chunk_index = c.chunk_index;
        content = c.content;
        title = some request.title;
        page_number = c.page_number;
        section_title = c.section_title;
        heading_path = c.heading_path;
        content_hash = some (svc.sha256 c.content);
        start_char = some c.start_char;
        end_char = some c.end_char;
        token_count = some c.token_count;
        department = request.department;
        doc_type = request.doc_type;
        security_level = some request.security_level;
        acl = request.acl;
        approval_status = request.approval_status;
        tags = request.tags;
        valid_from = request.valid_from;
        valid_until = request.valid_until;
        embedding_model = some svc.model_name;
        embedding_version = some svc.model_name;
        vector_id = some c.chunk_id;
        pii_warnings = warning.pii_warnings;
      }

  -- `if c.chunk_id not in vectors: continue`
  abbrev pub add_record :
      IndexingRequest → Warnings → Chunk → Option (Vectors fl) → List ChunkRecord → List ChunkRecord
  add_record request warnings c none rest = rest
  add_record request warnings c (some v) rest = to_record request warnings c ∷ rest

  -- `_build_records`
  unfoldable pub build_records :
      IndexingRequest → List Chunk → Dict String (Vectors fl) → Warnings → List ChunkRecord
  build_records request [] vectors warnings = []
  build_records request (c ∷ cs) vectors warnings =
      add_record request warnings c (get vectors c.chunk_id)
        (build_records request cs vectors warnings)

  abbrev pub payload_of : IndexingRequest → Warnings → Chunk → Payload
  payload_of request warnings c =
      let warning = or_else (get warnings c.chunk_id) no_warning in
      ("domain_id", atom (text request.domain_id))
      ∷ ("doc_id", atom (text request.doc_id))
      ∷ ("doc_version", atom (text request.doc_version))
      ∷ ("parser_version", atom (text svc.parser_version))
      ∷ ("chunk_strategy", atom (text svc.chunk_strategy))
      ∷ ("chunk_index", atom (num c.chunk_index))
      ∷ ("content", atom (text c.content))
      ∷ ("title", atom (text request.title))
      ∷ ("page_number", num_value c.page_number)
      ∷ ("section_title", text_value c.section_title)
      ∷ ("heading_path", items (map text c.heading_path))
      ∷ ("department", text_value request.department)
      ∷ ("doc_type", text_value request.doc_type)
      ∷ ("security_level", atom (text request.security_level))
      ∷ ("acl", items (map text request.acl))
      ∷ ("approval_status", atom (text request.approval_status))
      ∷ ("tags", items (map text request.tags))
      ∷ ("valid_from", text_value request.valid_from)
      ∷ ("valid_until", text_value request.valid_until)
      ∷ ("pii_warnings", items (map finding warning.pii_warnings))
      ∷ []

  abbrev pub add_point :
      IndexingRequest → Warnings → Chunk → Option (Vectors fl) → List (Point fl) → List (Point fl)
  add_point request warnings c none rest = rest
  add_point request warnings c (some (dense, sparse)) rest =
      record {
        id = c.chunk_id;
        dense = dense;
        sparse = sparse;
        payload = payload_of request warnings c;
      }
      ∷ rest

  -- The loop of `_upsert_to_qdrant` that fills `points`.
  unfoldable pub build_points :
      IndexingRequest → List Chunk → Dict String (Vectors fl) → Warnings → List (Point fl)
  build_points request [] vectors warnings = []
  build_points request (c ∷ cs) vectors warnings =
      add_point request warnings c (get vectors c.chunk_id)
        (build_points request cs vectors warnings)

  -- The document that `_write_chunks_and_document` writes.
  abbrev pub to_document : IndexingRequest → DocumentRecord
  to_document request = record {
    domain_id = request.domain_id;
    doc_id = request.doc_id;
    title = request.title;
    version = request.doc_version;
    input_type = request.input_type;
    source_type = none;
    source_path = some request.file_path;
    object_storage_path = request.object_storage_path;
    department = request.department;
    doc_type = request.doc_type;
    security_level = request.security_level;
    owner = request.owner;
    tags = request.tags;
    language = "ko";
    valid_from = request.valid_from;
    valid_until = request.valid_until;
    approval_status = request.approval_status;
    file_hash = none;
    parser_version = svc.parser_version;
    metadata = request.metadata;
  }
