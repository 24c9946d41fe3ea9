-- ===== src/Indexing/Storing.antt =====
-- `IndexingService` (rag_core/services/indexing_service.py): the parts that store or fail, and the
-- mode that indexes a document as a whole.
use domainrag_ops.Prelude.{
  ℕ, ◌-◌, String, some, List, [], ◌∷◌, ◌==◌, string_eq, nat_eq, length, if◌then◌else◌,
}
use domainrag_ops.Prelude.Float.{FloatOps}
use domainrag_ops.Prelude.Effect.{◌>>=◌, ◌>>◌, pure, call, modify}
use domainrag_ops.Payload.{Payload}
use domainrag_ops.Pii.{PiiConfig}
use domainrag_ops.Chunker.{Chunk}
use domainrag_ops.Jobs.{Patch}
use domainrag_ops.VectorStore.{Point}
use domainrag_ops.Indexing.{scan_pii, embed_safely, build_records, build_points}
use domainrag_ops.Indexing.Requests.{
  IndexingRequest, IndexingResult, Service, EmbedResult, Warnings, high_pii_count,
}
use domainrag_ops.Indexing.Steps.{
  Run, State, no_change, update_job, upsert_points, write_chunks_and_document,
}

module _ (fl : FloatOps) (svc : Service fl) where
  -- `n / max(1, m)`
  abbrev pub rate : ℕ → ℕ → fl.Float
  rate n m = fl.ratio n (if m == 0 then 1 else m)

  abbrev pub failure_rate : List Payload → List Chunk → fl.Float
  failure_rate failed [] = fl.of_ℕ 0
  failure_rate failed (c ∷ cs) = rate (length failed) (length (c ∷ cs))

  -- The result of a run, from the number of chunks.
  abbrev pub result : String → String → ℕ → ℕ → List Payload → ℕ → fl.Float → IndexingResult fl
  result job_id status total indexed failed high r = record {
    job_id = job_id;
    status = status;
    total_chunks = total;
    indexed_chunks = indexed;
    failed_chunks = failed;
    high_pii_chunks = high;
    failure_rate = r;
  }

  -- Too many chunks failed: the job is failed, and nothing is stored.
  unfoldable pub fail_fast :
      String → ℕ → EmbedResult fl → Warnings → fl.Float → String → Run fl (IndexingResult fl)
  fail_fast job_id total embed warnings r message =
      update_job fl job_id (record (no_change fl) {
        status = some "failed";
        failed_chunks = some embed.failed;
        failure_rate = some r;
        error_message = some message;
      })
      >> pure (result job_id "failed" total 0 embed.failed (high_pii_count warnings) r)

  -- The last update of a run that stored its chunks, and its result.
  unfoldable pub complete :
      String → ℕ → EmbedResult fl → Warnings → fl.Float → Run fl (IndexingResult fl)
  complete job_id total embed warnings r =
      let indexed = total - length embed.failed in
      let status = if length embed.failed == 0 then "completed" else "partial" in
      update_job fl job_id (record (no_change fl) {
        status = some status;
        step = some "done";
        progress = some 100;
        indexed_chunks = some indexed;
        failed_chunks = some embed.failed;
        failure_rate = some r;
      })
      >> pure (result job_id status total indexed embed.failed (high_pii_count warnings) r)

  abbrev pub at_step : String → String → ℕ → Patch fl.Float
  at_step status step progress = record (no_change fl) {
    status = some status;
    step = some step;
    progress = some progress;
  }

  abbrev pub at_embedding : ℕ → ℕ → Patch fl.Float
  at_embedding progress total = record (at_step "embedding" "embed" progress) {
    total_chunks = some total;
  }

  -- Above the threshold the run fails; else the points are upserted, the tables are written, and
  -- the run is complete.
  unfoldable pub store_or_fail :
      String
      → String
      → List (Point fl)
      → (State fl → State fl)
      → ℕ
      → EmbedResult fl
      → Warnings
      → fl.Float
      → String
      → Run fl (IndexingResult fl)
  store_or_fail job_id domain_id points write total embed warnings r message =
      if fl.lt svc.failure_threshold r
      then fail_fast job_id total embed warnings r message
      else (upsert_points fl domain_id points
          >> modify write
          >> complete job_id total embed warnings r)

  -- The part of `_index_full` that follows the embedding.
  unfoldable pub store_chunks :
      IndexingRequest → String → List Chunk → Warnings → EmbedResult fl → Run fl (IndexingResult fl)
  store_chunks request job_id chunks warnings embed =
      let records = build_records fl svc request chunks embed.vectors warnings in
      let r = failure_rate embed.failed chunks in
      update_job fl job_id (at_step "indexing" "upsert" 80)
      >> store_or_fail job_id request.domain_id
          (build_points fl svc request chunks embed.vectors warnings)
          (write_chunks_and_document fl svc request records) (length chunks) embed warnings r
          (svc.rate_text r svc.failure_threshold)

  -- `_index_full`
  unfoldable pub index_full : IndexingRequest → String → PiiConfig → Run fl (IndexingResult fl)
  index_full request job_id cfg = do
    update_job fl job_id (at_step "parsing" "parse" 10)
    pages ← call (svc.parse request.file_path)
    update_job fl job_id (at_step "chunking" "chunk" 30)
    chunks ← call (svc.chunk request.doc_id request.doc_version svc.parser_version pages)
    update_job fl job_id (at_embedding 60 (length chunks))
    store_chunks request job_id chunks (scan_pii fl svc chunks cfg) (embed_safely fl svc chunks)
