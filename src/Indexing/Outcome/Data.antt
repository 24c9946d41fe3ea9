-- ===== src/Indexing/Outcome/Data.antt =====
-- What a run of `IndexingService` (rag_core/services/indexing_service.py) leaves in the document table,
-- the rows and the collection when it stores.
use domainrag_ops.Prelude.{
  String, ◌≡◌, ◌∙◌, ap, sym, none, some, List, [], ◌∷◌, map, keep, string_eq,
}
use domainrag_ops.Prelude.Float.{FloatOps}
use domainrag_ops.Prelude.Result.{ok}
use domainrag_ops.Pii.{PiiConfig}
use domainrag_ops.Chunker.{Chunk, ParsedPage}
use domainrag_ops.Chunks
use domainrag_ops.Chunks.Rows.{ChunkRecord, to_embedding_model, to_embedding_version}
use domainrag_ops.Documents
use domainrag_ops.Indexing.{build_points, build_records, embed_safely, scan_pii, to_document}
use domainrag_ops.Indexing.Requests.{
  IndexingRequest, Service, embedding_only, parser_only, EmbedResult,
}
use domainrag_ops.Indexing.Steps.{State}
use domainrag_ops.Indexing.Modes.{to_chunk, row_warnings, is_embedded, page_map, update_from_pages}
use domainrag_ops.Indexing.Waiting.{SameData, IsOfData, with_points}

module _ (fl : FloatOps) (svc : Service fl) (job_id : String) (request : IndexingRequest)
    (cfg : PiiConfig) where
  abbrev embed_of : List ChunkRecord → EmbedResult fl
  embed_of rows = embed_safely fl svc (map to_chunk rows)

  -- The ids of the rows whose chunks could be embedded.
  abbrev pub embedded_ids : List ChunkRecord → List String
  embedded_ids rows =
      keep (is_embedded (embed_of rows).failed)
        (map (λ (c : Chunk). c.chunk_id) (map to_chunk rows))

  -- From `s` to `t`: the document was divided anew, its points are upserted, its rows replaced and
  -- its document written; or, in these modes only, the rows it had are embedded again, or their
  -- sections are set anew.
  pub data Stored (s t : State fl) : Type 0 where
    new_chunks :
        (pages : List ParsedPage) (chunks : List Chunk)
        → svc.parse request.file_path ≡ ok pages
        → svc.chunk request.doc_id request.doc_version svc.parser_version pages ≡ ok chunks
        → with_points fl svc job_id request.domain_id
            (build_points fl svc request chunks
              (embed_safely fl svc chunks).vectors
              (scan_pii fl svc chunks cfg))
            s.store
          ≡ ok t.store
        → t.chunks
          ≡ Chunks.replace_chunks request.domain_id request.doc_id request.doc_version
              svc.parser_version
              (build_records fl svc request chunks
                (embed_safely fl svc chunks).vectors
                (scan_pii fl svc chunks cfg))
              s.chunks
        → t.docs ≡ Documents.upsert (to_document fl svc request) s.docs
        → Stored s t
    new_vectors :
        request.mode ≡ embedding_only
        → (rows : List ChunkRecord)
        → rows
          ≡ Chunks.list_by_doc request.domain_id request.doc_id request.doc_version none s.chunks
        → with_points fl svc job_id request.domain_id
            (build_points fl svc request
              (map to_chunk rows)
              (embed_of rows).vectors
              (row_warnings [] rows))
            s.store
          ≡ ok t.store
        → t.chunks
          ≡ Chunks.update_metadata request.domain_id
              (embedded_ids rows)
              (to_embedding_model (some svc.model_name)
                ∷ to_embedding_version (some svc.model_name)
                ∷ [])
              s.chunks
        → t.docs ≡ s.docs
        → Stored s t
    new_sections :
        request.mode ≡ parser_only
        → (pages : List ParsedPage) (rows : List ChunkRecord)
        → svc.parse request.file_path ≡ ok pages
        → rows
          ≡ Chunks.list_by_doc request.domain_id request.doc_id request.doc_version
              (some svc.parser_version)
              s.chunks
        → (u : State fl) → SameData fl svc job_id s u
        → SameData fl svc job_id (update_from_pages fl svc request (page_map [] pages) rows u) t
        → Stored s t

  pub Stored-IsOfData : (s : State fl) → IsOfData fl svc job_id (Stored s)
  Stored-IsOfData s t t' d (new_chunks pages chunks p c points rows doc) =
      new_chunks pages chunks p c (points ∙ ap ok (sym d.store)) (d.chunks ∙ rows) (d.docs ∙ doc)
  Stored-IsOfData s t t' d (new_vectors m rows l points meta doc) =
      new_vectors m rows l (points ∙ ap ok (sym d.store)) (d.chunks ∙ meta) (d.docs ∙ doc)
  Stored-IsOfData s t t' d (new_sections m pages rows p l u same now) =
      new_sections m pages rows p l u same (record {
        docs = d.docs ∙ now.docs;
        chunks = d.chunks ∙ now.chunks;
        store = d.store ∙ now.store;
      })
