-- ===== src/Orchestrator/Unseen.antt =====
-- Who sees a document whose indexing was retried (backend/app/services/indexing_orchestrator.py): the
-- request of a retry has no `acl`.
use domainrag_ops.Prelude.{
  ℕ, String, ◌≡◌, refl, sym, subst, Bool, true, false, Option, some, List, [], arith, string_eq,
  Option-cases, inl, inr, All,
}
use domainrag_ops.Prelude.Float.{FloatOps}
use domainrag_ops.Prelude.Result.{Result, ok, err}
use domainrag_ops.Prelude.Effect.{Ends-ok}
use domainrag_ops.Dict.{Dict, get, values, get-set_item_self}
use domainrag_ops.Acl.Builder.{Principal, build_qdrant_acl_filter}
use domainrag_ops.Acl.Admission.{admits}
use domainrag_ops.Pii.{PiiConfig}
use domainrag_ops.VectorStore.{Store, Fault, Hit, hybrid_query, create_collection}
use domainrag_ops.VectorStore.Changed.{points_in}
use domainrag_ops.Indexing.Requests.{Exception, IndexingRequest, Service}
use domainrag_ops.Indexing.Steps.{State}
use domainrag_ops.Indexing.Access.{
  meta_of, HidesDocument, shows, is_of_document, hidden_unseen, run_with_existing_job_hides,
}
use domainrag_ops.Orchestrator.{
  kept_collections, ensure_collection_exists, execute_request, run_loaded, execute, retry_job,
}
use domainrag_ops.Orchestrator.Requests.{OrchestratorState, PreparedIndexing, retry_request}
use domainrag_ops.Orchestrator.Retry.{IsRetried, retry_job-Ends, retry_request-admits}

module _ (fl : FloatOps) (svc : Service fl) (u : Principal) (today : Option String)
    (exclude_archived : Bool) where
  module _ (request : IndexingRequest) where
    abbrev Hides : State fl → Type 0
    Hides = HidesDocument fl svc request u today exclude_archived

    points_in-create_collection :
        (dense_dim : ℕ) (s store : Store fl)
        → create_collection fl request.domain_id dense_dim true s ≡ ok store
        → points_in fl request.domain_id store ≡ []
    unfolding create_collection points_in values
    points_in-create_collection dense_dim s store e =
        elim (Option-cases (get s request.domain_id)) [
          | inl none_there ↦ ground (
            arith,
            e,
            none_there,
            get-set_item_self s request.domain_id
                (record { dense_dim = dense_dim; with_sparse = true; points = [] }),
          )
          | inr (c, there) ↦ absurd (ground (arith, e, there))
        ]

    kept_collections-Hides :
        (s : State fl) (r : Result Fault (Store fl))
        → ((store : Store fl) → r ≡ ok store → points_in fl request.domain_id store ≡ [])
        → Hides s
        → Hides (kept_collections fl svc s r)
    kept_collections-Hides s (ok store) empty h = rw (empty store refl) tt
    kept_collections-Hides s (err e) empty h = h

    ensure-Hides :
        (dense_dim : ℕ) (s : State fl)
        → Hides s
        → Hides (ensure_collection_exists fl svc dense_dim request.domain_id s)
    unfolding ensure_collection_exists
    ensure-Hides dense_dim s h =
        kept_collections-Hides s _ (points_in-create_collection dense_dim s.store) h

    run_loaded-Hides :
        (job_id : String) (cfg : Result Exception PiiConfig) (s : State fl)
        → admits u today exclude_archived (meta_of request) ≡ false
        → Hides s
        → Hides (run_loaded fl svc request job_id cfg s).1
    run_loaded-Hides job_id (ok cfg) s no_access h =
        run_with_existing_job_hides fl svc request u today exclude_archived job_id cfg s no_access h
    run_loaded-Hides job_id (err e) s no_access h = h

    execute-Hides :
        (dense_dim : ℕ) (load_pii_config : String → Result Exception PiiConfig) (job_id : String)
        (t : OrchestratorState fl)
        → admits u today exclude_archived (meta_of request) ≡ false
        → get t.pending job_id ≡ some request
        → Hides t.service
        → Hides (execute fl svc dense_dim load_pii_config job_id t).1.service
    unfolding execute
    execute-Hides dense_dim load_pii_config job_id t no_access waiting h =
        subst (λ x. Hides (execute_request fl svc dense_dim load_pii_config job_id x t.service).1)
          (sym waiting)
          (run_loaded-Hides job_id (load_pii_config request.domain_id)
            (ensure_collection_exists fl svc dense_dim request.domain_id t.service) no_access
            (ensure-Hides dense_dim t.service h))

  -- The request of a retry admits nobody: where no point showed the document to a user before, no
  -- query with the user's filter returns a chunk of it after an accepted retry is executed,
  -- whoever the user is.
  pub retry_unseen :
      (domain_id job_id no_job no_document : String) (s t : OrchestratorState fl)
      (prepared : PreparedIndexing) (request : IndexingRequest)
      → retry_job fl svc no_job no_document domain_id job_id s ≡ (ok prepared, t)
      → get t.pending job_id ≡ some request
      → HidesDocument fl svc request u today exclude_archived s.service
      → (dense_dim : ℕ) (load_pii_config : String → Result Exception PiiConfig)
        (dense : List fl.Float) (sparse : Dict ℕ fl.Float) (top_k : ℕ) (hits : List (Hit fl))
      → hybrid_query fl request.domain_id dense sparse
          (some (build_qdrant_acl_filter u today exclude_archived))
          top_k
          (execute fl svc dense_dim load_pii_config job_id t).1.service.store
        ≡ ok hits
      → All (λ h. is_of_document fl svc request u today exclude_archived h.payload ≡ false) hits
  retry_unseen domain_id job_id no_job no_document s t prepared request e waiting h dense_dim
        load_pii_config =
      let r : IsRetried fl svc domain_id job_id s t =
        Ends-ok {Q = λ _ t. IsRetried fl svc domain_id job_id s t} _ prepared t
          (retry_job-Ends fl svc domain_id job_id no_job no_document s) e in
      let made = retry_request r.doc domain_id r.job.doc_id r.job.doc_version in
      let same : made ≡ request = ground (arith, waiting, r.waiting) in
      let no_access : admits u today exclude_archived (meta_of request) ≡ false =
        subst (λ x. admits u today exclude_archived (meta_of x) ≡ false) same
          (retry_request-admits r.doc domain_id r.job.doc_id r.job.doc_version u today
            exclude_archived) in
      let before : Hides request t.service =
        subst
          (λ x.
            All (λ p. shows fl svc request u today exclude_archived p.payload ≡ false)
              (points_in fl request.domain_id x))
          (sym r.store) h in
      hidden_unseen fl svc request u today exclude_archived
        (execute fl svc dense_dim load_pii_config job_id t).1.service
        (execute-Hides request dense_dim load_pii_config job_id t no_access waiting before)
