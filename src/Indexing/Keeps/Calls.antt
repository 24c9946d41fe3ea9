-- ===== src/Indexing/Keeps/Calls.antt =====
-- What the calls of an `IndexingService` run must keep, and that each call of the repositories and the
-- store keeps it (rag_core/services/indexing_service.py).
use domainrag_ops.Prelude.{ℕ, String, ◌≡◌, refl, Option, List, [], ◌∷◌, string_eq}
use domainrag_ops.Prelude.Float.{FloatOps}
use domainrag_ops.Prelude.Result.{Result, ok, err}
use domainrag_ops.Prelude.Effect.{Ends, Ends->>, Ends-pure, Ends-call, call}
use domainrag_ops.Dict.{Dict}
use domainrag_ops.Chunker.{Chunk, ParsedPage}
use domainrag_ops.Chunks.Rows.{Item}
use domainrag_ops.VectorStore.{Point, Store, Fault, upsert_chunks, set_payload}
use domainrag_ops.Jobs
use domainrag_ops.Jobs.{IndexingJobRecord, Patch, Jobs}
use domainrag_ops.Indexing.{build_points, build_records}
use domainrag_ops.Indexing.Requests.{
  IndexingRequest, Service, EmbedResult, Warnings, Exception, Vectors,
}
use domainrag_ops.Indexing.Steps.{
  State, create_job, update_job, with_jobs, list_chunks, upsert_points, with_store, update_chunks,
  write_chunks_and_document,
}
use domainrag_ops.Indexing.Storing.{fail_fast, complete}
use domainrag_ops.Indexing.Modes.{point_meta}

module _ (fl : FloatOps) (svc : Service fl) (request : IndexingRequest)
    (I : State fl → Type 0) where
  -- Each call that a run makes keeps `I`.
  pub record Keeps : Type 0 where
    pub jobs : (s : State fl) (jobs : Jobs fl.Float) → I s → I (record s { jobs = jobs })
    pub points :
        (chunks : List Chunk) (vectors : Dict String (Vectors fl)) (warnings : Warnings)
        (s : State fl) (store : Store fl)
        → upsert_chunks fl request.domain_id
            (build_points fl svc request chunks vectors warnings)
            s.store
          ≡ ok store
        → I s
        → I (record s { store = store })
    pub write :
        (chunks : List Chunk) (vectors : Dict String (Vectors fl)) (warnings : Warnings)
        (s : State fl)
        → I s
        → I (
            write_chunks_and_document fl svc request
              (build_records fl svc request chunks vectors warnings)
              s)
    pub rows :
        (cids : List String) (metadata : List Item) (s : State fl)
        → I s
        → I (update_chunks fl request.domain_id cids metadata s)
    pub sections :
        (cid : String) (page : ParsedPage) (s : State fl) (store : Store fl)
        → set_payload fl request.domain_id (cid ∷ []) (point_meta page) s.store ≡ ok store
        → I s
        → I (record s { store = store })

  -- However the run ends, `I` holds of the state.
  abbrev pub Kept {ℓ} : {A : Type ℓ} → Result Exception A × State fl → Type 0
  Kept r = Ends (λ _ t. I t) (λ _ t. I t) r

  module _ (k : Keeps) (job_id : String) where
    with_jobs-Kept :
        (s : State fl) (r : Result Jobs.Error (Jobs fl.Float)) → I s → Kept (with_jobs fl s r)
    with_jobs-Kept s (ok jobs) i = record { ended = k.jobs s jobs i }
    with_jobs-Kept s (err e) i = record { ended = i }

    pub update_job-Kept :
        (p : Patch fl.Float) (s : State fl) → I s → Kept (update_job fl job_id p s)
    unfolding update_job
    update_job-Kept p s i = with_jobs-Kept s _ i

    pub create_job-Kept :
        (job : IndexingJobRecord fl.Float) (s : State fl) → I s → Kept (create_job fl job s)
    unfolding create_job
    create_job-Kept job s i = with_jobs-Kept s _ i

    pub call-Kept {ℓ} : {A : Type ℓ} (r : Result Exception A) (s : State fl) → I s → Kept (call r s)
    call-Kept r s i = Ends-call r s (λ _ _. i) (λ _ _. i)

    pub list_chunks-Kept :
        (parser_version : Option String) (s : State fl)
        → I s
        → Kept (list_chunks fl request parser_version s)
    unfolding list_chunks
    list_chunks-Kept parser_version s i = record { ended = i }

    upserted-Kept :
        (s : State fl) (r : Result Fault (Store fl))
        → ((store : Store fl) → r ≡ ok store → I (record s { store = store }))
        → I s
        → Kept (with_store fl s r)
    upserted-Kept s (ok store) h i = record { ended = h store refl }
    upserted-Kept s (err e) h i = record { ended = i }

    pub upsert_points-Kept :
        (points : List (Point fl)) (s : State fl)
        → ((store : Store fl)
            → upsert_chunks fl request.domain_id points s.store ≡ ok store
            → I (record s { store = store }))
        → I s
        → Kept (upsert_points fl request.domain_id points s)
    unfolding upsert_points
    upsert_points-Kept [] s h i = record { ended = i }
    upsert_points-Kept (p ∷ ps) s h i = upserted-Kept s _ h i

    pub fail_fast-Kept :
        (total : ℕ) (embed : EmbedResult fl) (warnings : Warnings) (r : fl.Float) (message : String)
        (s : State fl)
        → I s
        → Kept (fail_fast fl svc job_id total embed warnings r message s)
    unfolding fail_fast
    fail_fast-Kept total embed warnings r message s i =
        Ends->> _ _ s (update_job-Kept _ s i) (λ _ t j. Ends-pure _ t j)

    pub complete-Kept :
        (total : ℕ) (embed : EmbedResult fl) (warnings : Warnings) (r : fl.Float) (s : State fl)
        → I s
        → Kept (complete fl svc job_id total embed warnings r s)
    unfolding complete
    complete-Kept total embed warnings r s i =
        Ends->> _ _ s (update_job-Kept _ s i) (λ _ t j. Ends-pure _ t j)
