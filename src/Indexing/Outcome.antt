-- ===== src/Indexing/Outcome.antt =====
-- How a run of `IndexingService` (rag_core/services/indexing_service.py) ends: the status of its
-- job, what a run stores that succeeds, and what an unsuccessful one leaves as it was.
pub mod Data
pub mod Modes
use domainrag_ops.Prelude.{
  ℕ, String, ◌≡◌, inl, refl, Option, none, some, List, [], ◌∷◌, string_eq, length, nat_eq,
}
use domainrag_ops.Prelude.Float.{FloatOps}
use domainrag_ops.Prelude.Result.{Result, ok, err}
use domainrag_ops.Prelude.Effect.{
  Ends, Ends->>=, Ends->>, Ends-pure, Ends-modify, Ends-raise, Ends-map, raise,
}
use domainrag_ops.Dict.{Dict}
use domainrag_ops.Payload.{Value}
use domainrag_ops.Pii.{PiiConfig}
use domainrag_ops.Chunker.{Chunk, ParsedPage}
use domainrag_ops.Chunks.Rows.{ChunkRecord}
use domainrag_ops.VectorStore.{Store, Fault}
use domainrag_ops.Indexing.Requests.{
  ReindexMode, parser_only, chunk_re_split, embedding_only, full, IndexingRequest, IndexingResult,
  Service, EmbedResult, Warnings, Exception,
}
use domainrag_ops.Indexing.Steps.{
  Run, State, no_change, update_job, list_chunks, reraise_after, recover_with,
  write_chunks_and_document, update_chunks, try_set_payload, kept_store,
}
use domainrag_ops.Indexing.Storing.{store_chunks, index_full}
use domainrag_ops.Indexing.Modes.{
  update_sections, or_index_full, dispatch_on, reindex_parser_only, embed_again,
  reindex_embedding_only, dispatch, run_with_existing_job, row_meta, update_from_page,
  update_from_pages,
}
use domainrag_ops.Indexing.Waiting.{
  HasJob, HasStatus, SameData, Waits, Outcome, waits, Undone, Ends-update_job, has_status,
  HasJob-update_chunks, Answers-call, store_or_fail-Outcome, stored,
}
use domainrag_ops.Indexing.Outcome.Data.{Stored}
use domainrag_ops.Indexing.Outcome.Modes.{
  index_full-Outcome, embed_again-Outcome, Lists-list_chunks, Ended, update_sections-Outcome,
}

module _ (fl : FloatOps) (svc : Service fl) (job_id : String) where
  or_index_full-Outcome :
      (request : IndexingRequest) (cfg : PiiConfig) (s0 : State fl)
      (k : List ChunkRecord → Run fl (IndexingResult fl)) (existing : List ChunkRecord)
      (t : State fl)
      → Ended fl svc job_id request cfg s0 (k existing t)
      → Waits fl svc job_id s0 t
      → Ended fl svc job_id request cfg s0 (or_index_full fl svc request job_id cfg k existing t)
  or_index_full-Outcome request cfg s0 k [] t h w =
      index_full-Outcome fl svc job_id request cfg s0 t w
  or_index_full-Outcome request cfg s0 k (c ∷ cs) t h w = h

  reindex_parser_only-Outcome :
      (request : IndexingRequest) (cfg : PiiConfig) (s0 s : State fl)
      → request.mode ≡ parser_only
      → Waits fl svc job_id s0 s
      → Ended fl svc job_id request cfg s0 (reindex_parser_only fl svc request job_id cfg s)
  unfolding reindex_parser_only
  reindex_parser_only-Outcome request cfg s0 s mode w =
      Ends->> _ _ s (Ends-update_job fl svc job_id _ s0 s w) (λ _ t1 u1.
        Ends->>= _ _ t1 (Answers-call fl svc job_id s0 t1 _ (waits fl svc job_id _ s0 t1 u1))
          (λ pages t2 (parsed, w2).
            Ends->>= _ _ t2
              (Lists-list_chunks fl svc job_id request cfg s0 (some svc.parser_version) t2 w2)
              (λ rows t3 (listed, w3).
                or_index_full-Outcome request cfg s0 (update_sections fl svc request job_id pages)
                  rows t3
                  (update_sections-Outcome fl svc job_id request cfg pages rows s0 t3 mode parsed
                    listed w3)
                  w3)))

  reindex_embedding_only-Outcome :
      (request : IndexingRequest) (cfg : PiiConfig) (s0 s : State fl)
      → request.mode ≡ embedding_only
      → Waits fl svc job_id s0 s
      → Ended fl svc job_id request cfg s0 (reindex_embedding_only fl svc request job_id cfg s)
  unfolding reindex_embedding_only
  reindex_embedding_only-Outcome request cfg s0 s mode w =
      Ends->>= _ _ s (Lists-list_chunks fl svc job_id request cfg s0 none s w)
        (λ rows t (listed, w1).
          or_index_full-Outcome request cfg s0 (embed_again fl svc request job_id) rows t
            (embed_again-Outcome fl svc job_id request cfg s0 rows t mode listed w1) w1)

  dispatch-Outcome :
      (request : IndexingRequest) (cfg : PiiConfig) (s : State fl)
      → HasJob fl svc job_id s
      → Ended fl svc job_id request cfg s (dispatch fl svc request job_id cfg s)
  unfolding dispatch
  dispatch-Outcome request cfg s h =
      by_mode request.mode refl (h, record { docs = refl; chunks = refl; store = refl })
    where
      by_mode :
          (mode : ReindexMode)
          → request.mode ≡ mode
          → Waits fl svc job_id s s
          → Ended fl svc job_id request cfg s (dispatch_on fl svc mode request job_id cfg s)
      by_mode embedding_only e w = reindex_embedding_only-Outcome request cfg s s e w
      by_mode parser_only e w = reindex_parser_only-Outcome request cfg s s e w
      by_mode chunk_re_split e w = index_full-Outcome fl svc job_id request cfg s s w
      by_mode full e w = index_full-Outcome fl svc job_id request cfg s s w

  Ends-recover_with :
      {Q : IndexingResult fl → State fl → Type 0} {N M : Exception → State fl → Type 0}
      (handler : Exception → Run fl (Unit {0}))
      (r : Result Exception (IndexingResult fl) × State fl)
      → Ends Q N r
      → ((e : Exception) (t : State fl) → N e t → Ends (λ _ t'. M e t') M (handler e t))
      → Ends Q M (recover_with fl handler r)
  Ends-recover_with handler (ok a, t) h k = record { ended = h.ended }
  Ends-recover_with {M = M} handler (err e, t) h k =
      Ends->> {Q = λ _ t'. M e t'} (handler e) (raise e) t (k e t h.ended)
        (λ _ t' m. Ends-raise e t' m)

  -- The run raised: the job is failed and the data are as before.
  abbrev pub Failed : State fl → Exception → State fl → Type 0
  Failed s e t = HasStatus fl svc job_id "failed" t × SameData fl svc job_id s t

  -- Where the job is there, a run of any mode either stores and leaves the job completed or partial,
  -- as its result says: the points and rows of the chunks that the document is divided into, and the
  -- document; or, in the mode embedding_only alone, the points of the rows it had, with the embedding
  -- noted in the rows; or, in parser_only alone, the sections of those rows and their points. Or it reports or raises a failure, and then the job
  -- is failed and the documents, the chunks and the points are as before.
  pub run_with_existing_job-Outcome :
      (request : IndexingRequest) (cfg : PiiConfig) (s : State fl)
      → HasJob fl svc job_id s
      → Ends
          (Outcome fl svc job_id (Stored fl svc job_id request cfg s) s)
          (Failed s)
          (run_with_existing_job fl svc request job_id cfg s)
  unfolding run_with_existing_job reraise_after
  run_with_existing_job-Outcome request cfg s h =
      Ends-recover_with {M = Failed s} _ _ (dispatch-Outcome request cfg s h) failed
    where
      failed :
          (e : Exception) (t : State fl)
          → Waits fl svc job_id s t
          → Ends
              (λ _ t'. Failed s e t')
              (Failed s)
              (update_job fl job_id
                (record (no_change fl) {
                  status = some "failed";
                  error_message = some (svc.error_text e);
                })
                t)
      failed e t w =
          Ends-map _ (λ _ t' u. (has_status fl svc job_id _ s t' "failed" u refl, u.same))
            (Ends-update_job fl svc job_id _ s t w)
