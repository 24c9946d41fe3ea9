-- ===== src/Indexing/Agree.antt =====
-- The rows and the points that `IndexingService` (rag_core/services/indexing_service.py) makes of the
-- chunks agree.
use domainrag_ops.Prelude.{String, ◌≡◌, refl, ap, Option, none, some, List, [], ◌∷◌, string_eq, map}
use domainrag_ops.Prelude.Float.{FloatOps}
use domainrag_ops.Dict.{Dict, get}
use domainrag_ops.Payload.{Payload, atom, items, text, num, finding}
use domainrag_ops.Chunker.{Chunk}
use domainrag_ops.Chunks.Rows.{ChunkRecord}
use domainrag_ops.VectorStore.{Point}
use domainrag_ops.Indexing.{to_record, add_point, add_record, build_points, build_records}
use domainrag_ops.Indexing.Requests.{
  IndexingRequest, Service, Vectors, Warnings, text_value, num_value,
}

-- What the payload of a row's point holds, by the names of the payload's keys.
abbrev pub payload_of_row : ChunkRecord → Payload
payload_of_row r =
    ("domain_id", atom (text r.domain_id))
    ∷ ("doc_id", atom (text r.doc_id))
    ∷ ("doc_version", atom (text r.doc_version))
    ∷ ("parser_version", atom (text r.parser_version))
    ∷ ("chunk_strategy", atom (text r.chunk_strategy))
    ∷ ("chunk_index", atom (num r.chunk_index))
    ∷ ("content", atom (text r.content))
    ∷ ("title", text_value r.title)
    ∷ ("page_number", num_value r.page_number)
    ∷ ("section_title", text_value r.section_title)
    ∷ ("heading_path", items (map text r.heading_path))
    ∷ ("department", text_value r.department)
    ∷ ("doc_type", text_value r.doc_type)
    ∷ ("security_level", text_value r.security_level)
    ∷ ("acl", items (map text r.acl))
    ∷ ("approval_status", atom (text r.approval_status))
    ∷ ("tags", items (map text r.tags))
    ∷ ("valid_from", text_value r.valid_from)
    ∷ ("valid_until", text_value r.valid_until)
    ∷ ("pii_warnings", items (map finding r.pii_warnings))
    ∷ []

module _ (fl : FloatOps) (svc : Service fl) (request : IndexingRequest) where
  -- The id and the payload of a point, and what they are by the row.
  abbrev pub point_view : Point fl → String × Payload
  point_view p = (p.id, p.payload)

  abbrev pub row_view : ChunkRecord → String × Payload
  row_view r = (r.chunk_id, payload_of_row r)

  -- Chunk by chunk, the points that are upserted have the ids of the rows that are written, and
  -- their payloads hold the fields of those rows.
  pub build_points_lem :
      (chunks : List Chunk) (vectors : Dict String (Vectors fl)) (warnings : Warnings)
      → map point_view (build_points fl svc request chunks vectors warnings)
        ≡ map row_view (build_records fl svc request chunks vectors warnings)
  unfolding build_points build_records
  build_points_lem [] vectors warnings = refl
  build_points_lem (c ∷ cs) vectors warnings =
      added (get vectors c.chunk_id) _ _ (build_points_lem cs vectors warnings)
    where
      added :
          (v : Option (Vectors fl)) (ps : List (Point fl)) (rs : List ChunkRecord)
          → map point_view ps ≡ map row_view rs
          → map point_view (add_point fl svc request warnings c v ps)
            ≡ map row_view (add_record fl svc request warnings c v rs)
      added none ps rs e = e
      added (some v) ps rs e = ap (λ l. row_view (to_record fl svc request warnings c) ∷ l) e
