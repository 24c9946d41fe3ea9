-- ===== src/Indexing/Keeps.antt =====
-- A property that the calls of one `IndexingService` run keep is kept by the run, whatever its mode
-- and also when it raises (rag_core/services/indexing_service.py).
pub mod Calls
use domainrag_ops.Prelude.{
  ℕ, String, ◌≡◌, refl, Option, none, some, List, [], ◌∷◌, string_eq, length,
}
use domainrag_ops.Prelude.Float.{FloatOps}
use domainrag_ops.Prelude.Result.{Result, ok, err}
use domainrag_ops.Prelude.Effect.{
  Ends, Ends->>=, Ends->>, Ends-pure, Ends-call, Ends-modify, Ends-if, Ends-raise, ◌>>◌, call,
  modify,
}
use domainrag_ops.Dict.{Dict}
use domainrag_ops.Pii.{PiiConfig}
use domainrag_ops.Chunker.{Chunk, ParsedPage}
use domainrag_ops.Chunks.Rows.{ChunkRecord, Item}
use domainrag_ops.VectorStore.{Point, Store, Fault, upsert_chunks, set_payload}
use domainrag_ops.Jobs
use domainrag_ops.Jobs.{IndexingJobRecord, Patch, Jobs}
use domainrag_ops.Indexing.{build_points, build_records}
use domainrag_ops.Indexing.Requests.{
  ReindexMode, parser_only, chunk_re_split, embedding_only, full, IndexingRequest, IndexingResult,
  Service, EmbedResult, Warnings, Exception, Vectors,
}
use domainrag_ops.Indexing.Steps.{
  Run, State, create_job, update_job, with_jobs, list_chunks, upsert_points, with_store, kept_store,
  try_set_payload, update_chunks, write_chunks_and_document, reraise_after, recover_with,
}
use domainrag_ops.Indexing.Storing.{fail_fast, complete, store_or_fail, store_chunks, index_full}
use domainrag_ops.Indexing.Modes.{
  point_meta, row_meta, update_from_page, update_from_pages, update_sections, or_index_full,
  reindex_parser_only, embed_again, reindex_embedding_only, dispatch_on, dispatch,
  run_with_existing_job, run,
}
use domainrag_ops.Indexing.Keeps.Calls.{
  Keeps, Kept, update_job-Kept, create_job-Kept, call-Kept, list_chunks-Kept, upsert_points-Kept,
  fail_fast-Kept, complete-Kept,
}

module _ (fl : FloatOps) (svc : Service fl) (request : IndexingRequest)
    (I : State fl → Type 0) where
  module _ (k : Keeps fl svc request I) (job_id : String) where
    store_or_fail-Kept :
        (chunks : List Chunk) (embed : EmbedResult fl) (warnings : Warnings)
        (write : State fl → State fl) (total : ℕ) (r : fl.Float) (message : String) (s : State fl)
        → ((t : State fl) → I t → I (write t))
        → I s
        → Kept fl svc request I (
            store_or_fail fl svc job_id request.domain_id
              (build_points fl svc request chunks embed.vectors warnings)
              write
              total
              embed
              warnings
              r
              message
              s)
    unfolding store_or_fail
    store_or_fail-Kept chunks embed warnings write total r message s keeps i =
        let points = build_points fl svc request chunks embed.vectors warnings in
        Ends-if (fl.lt svc.failure_threshold r)
          (fail_fast fl svc job_id total embed warnings r message)
          (upsert_points fl request.domain_id points
            >> modify write
            >> complete fl svc job_id total embed warnings r)
          s (fail_fast-Kept fl svc request I k job_id total embed warnings r message s i)
          (Ends->> _ _ s
            (Ends->> _ _ s
              (upsert_points-Kept fl svc request I k job_id points s
                (λ store e. k.points chunks embed.vectors warnings s store e i) i)
              (λ _ t j. Ends-modify {Q = λ _ t. I t} write t (keeps t j)))
            (λ _ t j. complete-Kept fl svc request I k job_id total embed warnings r t j))

    store_chunks-Kept :
        (chunks : List Chunk) (warnings : Warnings) (embed : EmbedResult fl) (s : State fl)
        → I s
        → Kept fl svc request I (store_chunks fl svc request job_id chunks warnings embed s)
    unfolding store_chunks
    store_chunks-Kept chunks warnings embed s i =
        Ends->> _ _ s (update_job-Kept fl svc request I k job_id _ s i) (λ _ t j.
          store_or_fail-Kept chunks embed warnings _ (length chunks) _ _ t
            (k.write chunks embed.vectors warnings) j)

    index_full-Kept :
        (cfg : PiiConfig) (s : State fl)
        → I s
        → Kept fl svc request I (index_full fl svc request job_id cfg s)
    unfolding index_full
    index_full-Kept cfg s i =
        Ends->> _ _ s (update_job-Kept fl svc request I k job_id _ s i) (λ _ t1 i1.
          Ends->>= _ _ t1 (call-Kept fl svc request I k job_id _ t1 i1) (λ pages t2 i2.
            Ends->> _ _ t2 (update_job-Kept fl svc request I k job_id _ t2 i2) (λ _ t3 i3.
              Ends->>= _ _ t3 (call-Kept fl svc request I k job_id _ t3 i3) (λ chunks t4 i4.
                Ends->> _ _ t4 (update_job-Kept fl svc request I k job_id _ t4 i4)
                  (λ _ t5 i5. store_chunks-Kept chunks _ _ t5 i5)))))

    embed_again-Kept :
        (existing : List ChunkRecord) (s : State fl)
        → I s
        → Kept fl svc request I (embed_again fl svc request job_id existing s)
    unfolding embed_again
    embed_again-Kept existing s i =
        Ends->> _ _ s (update_job-Kept fl svc request I k job_id _ s i) (λ _ t j.
          store_or_fail-Kept _ _ _ (update_chunks fl request.domain_id _ _) (length existing) _ _ t
            (λ u. k.rows _ _ u) j)

    kept_store-Kept :
        (s : State fl) (r : Result Fault (Store fl))
        → ((store : Store fl) → r ≡ ok store → I (record s { store = store }))
        → I s
        → I (kept_store fl s r)
    kept_store-Kept s (ok store) h i = h store refl
    kept_store-Kept s (err e) h i = i

    update_from_page-Kept :
        (cid : String) (page : Option ParsedPage) (s : State fl)
        → I s
        → I (update_from_page fl svc request cid page s)
    unfolding try_set_payload
    update_from_page-Kept cid none s i = i
    update_from_page-Kept cid (some page) s i =
        let t = update_chunks fl request.domain_id (cid ∷ []) (row_meta page) s in
        let j : I t = k.rows (cid ∷ []) (row_meta page) s i in
        kept_store-Kept t _ (λ store e. k.sections cid page t store e j) j

    update_from_pages-Kept :
        (pages : Dict ℕ ParsedPage) (cs : List ChunkRecord) (s : State fl)
        → I s
        → I (update_from_pages fl svc request pages cs s)
    unfolding update_from_pages
    update_from_pages-Kept pages [] s i = i
    update_from_pages-Kept pages (c ∷ cs) s i =
        update_from_pages-Kept pages cs _ (update_from_page-Kept c.chunk_id _ s i)

    update_sections-Kept :
        (pages : List ParsedPage) (existing : List ChunkRecord) (s : State fl)
        → I s
        → Kept fl svc request I (update_sections fl svc request job_id pages existing s)
    unfolding update_sections
    update_sections-Kept pages existing s i =
        Ends->> _ _ s
          (Ends->> _ _ s
            (Ends->> _ _ s (update_job-Kept fl svc request I k job_id _ s i)
              (λ _ t j. Ends-modify {Q = λ _ t. I t} _ t (update_from_pages-Kept _ existing t j)))
            (λ _ t j. update_job-Kept fl svc request I k job_id _ t j))
          (λ _ t j. Ends-pure _ t j)

    or_index_full-Kept :
        (cfg : PiiConfig) (f : List ChunkRecord → Run fl (IndexingResult fl))
        (existing : List ChunkRecord) (s : State fl)
        → ((cs : List ChunkRecord) (t : State fl) → I t → Kept fl svc request I (f cs t))
        → I s
        → Kept fl svc request I (or_index_full fl svc request job_id cfg f existing s)
    or_index_full-Kept cfg f [] s h i = index_full-Kept cfg s i
    or_index_full-Kept cfg f (c ∷ cs) s h i = h (c ∷ cs) s i

    reindex_parser_only-Kept :
        (cfg : PiiConfig) (s : State fl)
        → I s
        → Kept fl svc request I (reindex_parser_only fl svc request job_id cfg s)
    unfolding reindex_parser_only
    reindex_parser_only-Kept cfg s i =
        Ends->> _ _ s (update_job-Kept fl svc request I k job_id _ s i) (λ _ t1 i1.
          Ends->>= _ _ t1 (call-Kept fl svc request I k job_id _ t1 i1) (λ pages t2 i2.
            Ends->>= _ _ t2 (list_chunks-Kept fl svc request I k job_id _ t2 i2) (λ existing t3 i3.
              or_index_full-Kept cfg _ existing t3 (update_sections-Kept pages) i3)))

    reindex_embedding_only-Kept :
        (cfg : PiiConfig) (s : State fl)
        → I s
        → Kept fl svc request I (reindex_embedding_only fl svc request job_id cfg s)
    unfolding reindex_embedding_only
    reindex_embedding_only-Kept cfg s i =
        Ends->>= _ _ s (list_chunks-Kept fl svc request I k job_id _ s i)
          (λ existing t j. or_index_full-Kept cfg _ existing t embed_again-Kept j)

    dispatch_on-Kept :
        (mode : ReindexMode) (cfg : PiiConfig) (s : State fl)
        → I s
        → Kept fl svc request I (dispatch_on fl svc mode request job_id cfg s)
    dispatch_on-Kept embedding_only cfg s i = reindex_embedding_only-Kept cfg s i
    dispatch_on-Kept parser_only cfg s i = reindex_parser_only-Kept cfg s i
    dispatch_on-Kept chunk_re_split cfg s i = index_full-Kept cfg s i
    dispatch_on-Kept full cfg s i = index_full-Kept cfg s i

    recover_with-Kept :
        (p : Exception → Patch fl.Float) (r : Result Exception (IndexingResult fl) × State fl)
        → Kept fl svc request I r
        → Kept fl svc request I (recover_with fl (λ e. update_job fl job_id (p e)) r)
    recover_with-Kept p (ok a, t) h = record { ended = h.ended }
    recover_with-Kept p (err e, t) h =
        Ends->> _ _ t (update_job-Kept fl svc request I k job_id (p e) t h.ended)
          (λ _ t j. Ends-raise e t j)

    pub run_with_existing_job-Kept :
        (cfg : PiiConfig) (s : State fl)
        → I s
        → Kept fl svc request I (run_with_existing_job fl svc request job_id cfg s)
    unfolding run_with_existing_job reraise_after dispatch
    run_with_existing_job-Kept cfg s i =
        recover_with-Kept _ _ (dispatch_on-Kept request.mode cfg s i)

    pub run-Kept :
        (cfg : PiiConfig) (s : State fl)
        → I s
        → Kept fl svc request I (run fl svc request job_id cfg s)
    unfolding run
    run-Kept cfg s i =
        Ends->> _ _ s (create_job-Kept fl svc request I k job_id _ s i)
          (λ _ t j. run_with_existing_job-Kept cfg t j)
