-- ===== src/Indexing/Modes.antt =====
-- `IndexingService` (rag_core/services/indexing_service.py): the runs of the modes, and the entry
-- points `run` and `run_with_existing_job`.
use domainrag_ops.Prelude.{
  ℕ, String, Bool, false, not, Option, none, some, List, [], ◌∷◌, ◌==◌, string_eq, nat_eq, map, any,
  keep, or_else, length, if◌then◌else◌,
}
use domainrag_ops.Prelude.Float.{FloatOps}
use domainrag_ops.Prelude.Effect.{◌>>=◌, ◌>>◌, pure, call, modify}
use domainrag_ops.Dict.{Dict, get, set_item}
use domainrag_ops.Payload.{Payload, Value, lookup, value_eq, items, atom, text, Finding}
use domainrag_ops.Pii.{PiiConfig}
use domainrag_ops.Chunker.{Chunk, ParsedPage}
use domainrag_ops.Chunks.Rows.{
  ChunkRecord, Item, to_section_title, to_heading_path, to_embedding_model, to_embedding_version,
}
use domainrag_ops.Jobs.{IndexingJobRecord}
use domainrag_ops.Indexing.{embed_safely, build_points}
use domainrag_ops.Indexing.Requests.{
  ReindexMode, parser_only, chunk_re_split, embedding_only, full, IndexingRequest, IndexingResult,
  Service, text_value, Warnings,
}
use domainrag_ops.Indexing.Steps.{
  Run, State, no_change, create_job, update_job, list_chunks, update_chunks, try_set_payload,
  reraise_after,
}
use domainrag_ops.Indexing.Storing.{rate, result, at_step, at_embedding, store_or_fail, index_full}

abbrev pub page_map : Dict ℕ ParsedPage → List ParsedPage → Dict ℕ ParsedPage
page_map pages [] = pages
page_map pages (p ∷ ps) = page_map (set_item pages p.page_number p) ps

-- `c.page_number or 1`
abbrev page_of : Option ℕ → ℕ
page_of none = 1
page_of (some n) = if n == 0 then 1 else n

-- The dict `meta` of `_reindex_parser_only`, for the rows and for the points.
abbrev pub row_meta : ParsedPage → List Item
row_meta page = to_section_title page.section_title ∷ to_heading_path page.heading_path ∷ []

abbrev pub point_meta : ParsedPage → Dict String Value
point_meta page =
    ("section_title", text_value page.section_title)
    ∷ ("heading_path", items (map text page.heading_path))
    ∷ []

-- The chunk that a row is embedded as.
abbrev pub to_chunk : ChunkRecord → Chunk
to_chunk r = record {
  chunk_id = r.chunk_id;
  chunk_index = r.chunk_index;
  content = r.content;
  page_number = r.page_number;
  section_title = r.section_title;
  heading_path = r.heading_path;
  start_char = or_else r.start_char 0;
  end_char = or_else r.end_char 0;
  token_count = or_else r.token_count 0;
}

abbrev is_high : Finding → Bool
is_high w = w.severity == "high"

-- `warnings_by_chunk` of `_reindex_embedding_only`
abbrev pub row_warnings : Warnings → List ChunkRecord → Warnings
row_warnings warnings [] = warnings
row_warnings warnings (r ∷ rs) =
    row_warnings
      (set_item warnings r.chunk_id (record {
        pii_warnings = r.pii_warnings;
        has_high_severity = any is_high r.pii_warnings;
        block_indexing = false;
      }))
      rs

-- `c.chunk_id not in {f["chunk_id"] for f in embed_result.failed}`
abbrev pub is_embedded : List Payload → String → Bool
is_embedded failed cid = not (any (λ f. value_eq (lookup f "chunk_id") (atom (text cid))) failed)

module _ (fl : FloatOps) (svc : Service fl) where
  -- `if not existing: return await self._index_full(...)`
  abbrev pub or_index_full :
      IndexingRequest
      → String
      → PiiConfig
      → (List ChunkRecord → Run fl (IndexingResult fl))
      → List ChunkRecord
      → Run fl (IndexingResult fl)
  or_index_full request job_id cfg k [] = index_full fl svc request job_id cfg
  or_index_full request job_id cfg k (c ∷ cs) = k (c ∷ cs)

  abbrev pub update_from_page : IndexingRequest → String → Option ParsedPage → State fl → State fl
  update_from_page request cid none s = s
  update_from_page request cid (some page) s =
      try_set_payload fl request.domain_id (cid ∷ []) (point_meta page)
        (update_chunks fl request.domain_id (cid ∷ []) (row_meta page) s)

  -- `for c in existing`
  unfoldable pub update_from_pages :
      IndexingRequest → Dict ℕ ParsedPage → List ChunkRecord → State fl → State fl
  update_from_pages request pages [] s = s
  update_from_pages request pages (c ∷ cs) s =
      update_from_pages request pages cs
        (update_from_page request c.chunk_id (get pages (page_of c.page_number)) s)

  -- The part of `_reindex_parser_only` for a document that has chunks.
  unfoldable pub update_sections :
      IndexingRequest → String → List ParsedPage → List ChunkRecord → Run fl (IndexingResult fl)
  update_sections request job_id pages existing =
      let total = length existing in
      update_job fl job_id (at_step fl svc "indexing" "metadata_update" 70)
      >> modify (update_from_pages request (page_map [] pages) existing)
      >> update_job fl job_id (record (at_step fl svc "completed" "done" 100) {
        total_chunks = some total;
        indexed_chunks = some total;
        failure_rate = some (fl.of_ℕ 0);
      })
      >> pure (result fl svc job_id "completed" total total [] 0 (fl.of_ℕ 0))

  -- `_reindex_parser_only`
  unfoldable pub reindex_parser_only :
      IndexingRequest → String → PiiConfig → Run fl (IndexingResult fl)
  reindex_parser_only request job_id cfg = do
    update_job fl job_id (at_step fl svc "parsing" "parse" 20)
    pages ← call (svc.parse request.file_path)
    existing ← list_chunks fl request (some svc.parser_version)
    or_index_full request job_id cfg (update_sections request job_id pages) existing

  -- The part of `_reindex_embedding_only` for a document that has chunks.
  unfoldable pub embed_again :
      IndexingRequest → String → List ChunkRecord → Run fl (IndexingResult fl)
  embed_again request job_id existing =
      let chunks = map to_chunk existing in
      let warnings = row_warnings [] existing in
      let embed = embed_safely fl svc chunks in
      let r = rate fl svc (length embed.failed) (length existing) in
      update_job fl job_id (at_embedding fl svc 40 (length existing))
      >> store_or_fail fl svc job_id request.domain_id
          (build_points fl svc request chunks embed.vectors warnings)
          (update_chunks fl request.domain_id
            (keep (is_embedded embed.failed) (map (λ c. c.chunk_id) chunks))
            (to_embedding_model (some svc.model_name)
              ∷ to_embedding_version (some svc.model_name)
              ∷ []))
          (length existing) embed warnings r (svc.short_rate_text r)

  -- `_reindex_embedding_only`
  unfoldable pub reindex_embedding_only :
      IndexingRequest → String → PiiConfig → Run fl (IndexingResult fl)
  reindex_embedding_only request job_id cfg = do
    existing ← list_chunks fl request none
    or_index_full request job_id cfg (embed_again request job_id) existing

  -- The tests on the mode.
  abbrev pub dispatch_on :
      ReindexMode → IndexingRequest → String → PiiConfig → Run fl (IndexingResult fl)
  dispatch_on embedding_only request job_id cfg = reindex_embedding_only request job_id cfg
  dispatch_on parser_only request job_id cfg = reindex_parser_only request job_id cfg
  dispatch_on chunk_re_split request job_id cfg = index_full fl svc request job_id cfg
  dispatch_on full request job_id cfg = index_full fl svc request job_id cfg

  unfoldable pub dispatch : IndexingRequest → String → PiiConfig → Run fl (IndexingResult fl)
  dispatch request job_id cfg = dispatch_on request.mode request job_id cfg

  unfoldable pub run_with_existing_job :
      IndexingRequest → String → PiiConfig → Run fl (IndexingResult fl)
  run_with_existing_job request job_id cfg = reraise_after fl (dispatch request job_id cfg) (λ e.
      update_job fl job_id
        (record (no_change fl) { status = some "failed"; error_message = some (svc.error_text e) }))

  -- The job that `run` creates.
  abbrev pub new_job : IndexingRequest → String → IndexingJobRecord fl.Float
  new_job request job_id = record {
    job_id = job_id;
    domain_id = request.domain_id;
    doc_id = request.doc_id;
    doc_version = request.doc_version;
    status = "pending";
    step = none;
    progress = 0;
    total_chunks = 0;
    indexed_chunks = 0;
    failed_chunks = [];
    error_message = none;
    failure_rate = none;
    retry_count = 0;
    filename = some request.file_path;
  }

  unfoldable pub run : IndexingRequest → String → PiiConfig → Run fl (IndexingResult fl)
  run request job_id cfg =
      create_job fl (new_job request job_id) >> run_with_existing_job request job_id cfg
