-- ===== src/Orchestrator/Finishes.antt =====
-- An upload or a reindexing that is registered comes to an end when it is executed
-- (backend/app/services/indexing_orchestrator.py with rag_core/services/indexing_service.py).
use domainrag_ops.Prelude.{
  ℕ, String, ◌≡◌, inl, inr, refl, sym, subst, Bool, true, Option, none, some, ap, ◌==◌, ◌||◌, arith,
  eq_iff, string_eq, pair_eq, Option-cases,
}
use domainrag_ops.Prelude.Float.{FloatOps}
use domainrag_ops.Prelude.Result.{Result, ok, err}
use domainrag_ops.Prelude.Effect.{
  Ends, Ends->>=, Ends->>, Ends-pure, Ends-call, Ends-modify, Ends-ok,
}
use domainrag_ops.Dict.{Dict, get, pop, get-set_item_self, get-pop_self, get-set_item, values}
use domainrag_ops.Pii.{PiiConfig}
use domainrag_ops.Jobs
use domainrag_ops.Jobs.{IndexingJobRecord, create, first_blocking}
use domainrag_ops.VectorStore.{Store, Fault}
use domainrag_ops.Indexing.Requests.{IndexingRequest, Exception, Service, IndexingResult}
use domainrag_ops.Indexing.Steps.{State, create_job, with_jobs}
use domainrag_ops.Indexing.Waiting.{HasJob, HasStatus, Outcome, stored, refused, SameData}
use domainrag_ops.Indexing.Outcome.{run_with_existing_job-Outcome}
use domainrag_ops.Orchestrator.{
  in_service, register_job, put_pending, prepare_upload, execute, run_loaded,
  ensure_collection_exists, kept_collections, with_service, registered_job,
}
use domainrag_ops.Orchestrator.Requests.{
  OrchestratorState, PreparedIndexing, StoredDocument, Metadata,
}

abbrev pub is_final : String → Bool
is_final status = status == "completed" || status == "partial" || status == "failed"

module _ (fl : FloatOps) (svc : Service fl) (dense_dim : ℕ)
    (load_pii_config : String → Result Exception PiiConfig) (job_id : String) where
  -- The job's status says that it has ended.
  abbrev pub IsOver : State fl → Type 0
  IsOver s =
      (job : IndexingJobRecord fl.Float) × (get s.jobs job_id ≡ some job)
      × (is_final job.status ≡ true)

  over :
      (status : String) (s : State fl)
      → is_final status ≡ true
      → HasStatus fl svc job_id status s
      → IsOver s
  over status s f (job, e, h) = (job, e, subst (λ x. is_final x ≡ true) (sym h) f)

  Outcome-IsOver :
      (P : State fl → Type 0) (s : State fl) (r : IndexingResult fl) (t : State fl)
      → Outcome fl svc job_id P s r t
      → IsOver t
  Outcome-IsOver P s r t (stored (inl e) h held) =
      over r.status t (subst (λ x. is_final x ≡ true) (sym e) refl) h
  Outcome-IsOver P s r t (stored (inr e) h held) =
      over r.status t (subst (λ x. is_final x ≡ true) (sym e) refl) h
  Outcome-IsOver P s r t (refused e h d) = over "failed" t refl h

  ended-IsOver :
      (P : State fl → Type 0) (s : State fl) (r : Result Exception (IndexingResult fl) × State fl)
      → Ends
          (Outcome fl svc job_id P s)
          (λ _ t. HasStatus fl svc job_id "failed" t × SameData fl svc job_id s t)
          r
      → IsOver r.1
  ended-IsOver P s (ok a, t) h = Outcome-IsOver P s a t h.ended
  ended-IsOver P s (err e, t) h = over "failed" t refl h.ended.0

  HasJob-kept :
      (s : State fl) (r : Result Fault (Store fl))
      → HasStatus fl svc job_id "pending" s
      → HasStatus fl svc job_id "pending" (kept_collections fl svc s r)
  HasJob-kept s (ok store) h = h
  HasJob-kept s (err e) h = h

  HasJob-ensure :
      (domain_id : String) (s : State fl)
      → HasStatus fl svc job_id "pending" s
      → HasStatus fl svc job_id "pending" (ensure_collection_exists fl svc dense_dim domain_id s)
  unfolding ensure_collection_exists
  HasJob-ensure domain_id s h = HasJob-kept s _ h

  -- The job is pending, and has a request for the domain that waits for its execution.
  pub record IsRegistered (domain_id : String) (s : OrchestratorState fl) : Type 0 where
    pub request : IndexingRequest
    pub domain : request.domain_id ≡ domain_id
    pub waiting : get s.pending job_id ≡ some request
    pub job : HasStatus fl svc job_id "pending" s.service

  -- The loader raised the exception: the job is still pending, and it has no request any more.
  abbrev pub IsStuck : String → Exception → OrchestratorState fl → Type 0
  IsStuck domain_id e s =
      (load_pii_config domain_id ≡ err e)
      × HasStatus fl svc job_id "pending" s.service
      × (get s.pending job_id ≡ none)

  HasJob-of_status : (s : State fl) → HasStatus fl svc job_id "pending" s → HasJob fl svc job_id s
  HasJob-of_status s (job, there, e) = (job, there)

  abbrev with_pending :
      Dict String IndexingRequest
      → Result Exception (Unit {0}) × State fl
      → Result Exception (Unit {0}) × OrchestratorState fl
  with_pending pending (r, t) = (r, record { pending = pending; service = t })

  -- The two ends, by what the loader of the policy answers.
  ends_loaded :
      (domain_id : String) (request : IndexingRequest) (pending : Dict String IndexingRequest)
      (s : State fl) (loaded : Result Exception PiiConfig)
      → load_pii_config domain_id ≡ loaded
      → get pending job_id ≡ none
      → HasStatus fl svc job_id "pending" s
      → Ends
          (λ _ t. IsOver t.service)
          (IsStuck domain_id)
          (with_pending pending (run_loaded fl svc request job_id loaded s))
  ends_loaded domain_id request pending s (ok cfg) l gone h = record {
    ended =
        ended-IsOver _ s _
          (run_with_existing_job-Outcome fl svc job_id request cfg s (HasJob-of_status s h));
  }
  ends_loaded domain_id request pending s (err e) l gone h = record { ended = (l, h, gone) }

  pub execute-Ends :
      (domain_id : String) (s : OrchestratorState fl)
      → IsRegistered domain_id s
      → Ends
          (λ _ t. IsOver t.service)
          (IsStuck domain_id)
          (execute fl svc dense_dim load_pii_config job_id s)
  unfolding execute
  execute-Ends domain_id s r =
      let loads : load_pii_config domain_id ≡ load_pii_config r.request.domain_id =
        ap load_pii_config (sym r.domain) in
      rw r.waiting (
        ends_loaded domain_id r.request (pop s.pending job_id)
          (ensure_collection_exists fl svc dense_dim r.request.domain_id s.service)
          (load_pii_config r.request.domain_id) loads (get-pop_self s.pending job_id)
          (HasJob-ensure r.request.domain_id s.service r.job))

  created_lem :
      (job : IndexingJobRecord fl.Float) (jobs jobs' : Jobs.Jobs fl.Float)
      → job.job_id ≡ job_id
      → create fl.Float job jobs ≡ ok jobs'
      → get jobs' job_id ≡ some job
  unfolding create
  created_lem job jobs jobs' same e =
      elim (Option-cases (first_blocking fl.Float job (values jobs))) [
        | inl none_blocks ↦ ground (
          arith,
          e,
          none_blocks,
          get-set_item jobs job.job_id job_id job,
          eq_iff job.job_id job_id,
        )
        | inr (b, blocked) ↦ absurd (ground (arith, e, blocked))
      ]

  registers :
      (domain_id doc_id version filename : String) (s : OrchestratorState fl)
      → Ends
          (λ _ t. HasStatus fl svc job_id "pending" t.service)
          (λ _ t. Unit)
          (register_job fl svc job_id domain_id doc_id version filename s)
  unfolding register_job in_service create_job
  registers domain_id doc_id version filename s = by_result _ (created_lem _ s.service.jobs)
    where
      by_result :
          (r : Result Jobs.Error (Jobs.Jobs fl.Float))
          → ((jobs' : Jobs.Jobs fl.Float)
              → job_id ≡ job_id
              → r ≡ ok jobs'
              → get jobs' job_id
                ≡ some (registered_job fl svc job_id domain_id doc_id version filename))
          → Ends
              (λ _ t. HasStatus fl svc job_id "pending" t.service)
              (λ _ t. Unit)
              (with_service fl svc s (with_jobs fl s.service r))
      by_result (ok jobs) h = record {
        ended = (
          registered_job fl svc job_id domain_id doc_id version filename,
          h jobs refl refl,
          refl,
        );
      }
      by_result (err e) h = record { ended = tt }

  IsRegistered-put_pending :
      (domain_id : String) (request : IndexingRequest) (s : OrchestratorState fl)
      → request.domain_id ≡ domain_id
      → HasStatus fl svc job_id "pending" s.service
      → IsRegistered domain_id (put_pending fl svc job_id request s)
  unfolding put_pending
  IsRegistered-put_pending domain_id request s e h = record {
    request = request;
    domain = e;
    waiting = get-set_item_self s.pending job_id request;
    job = h;
  }

  prepare_upload-IsRegistered :
      (save : String → Result Exception StoredDocument) (new_doc_id domain_id : String)
      (doc_id : Option String) (version title : String) (input_type : Option String)
      (meta : Metadata) (s : OrchestratorState fl)
      → Ends
          (λ _ t. IsRegistered domain_id t)
          (λ _ _. Unit)
          (prepare_upload fl svc save new_doc_id job_id domain_id doc_id version title input_type
            meta s)
  unfolding prepare_upload
  prepare_upload-IsRegistered save new_doc_id domain_id doc_id version title input_type meta s =
      Ends->>= {Q = λ _ _. Unit} _ _ s (Ends-call _ s (λ _ _. tt) (λ _ _. tt)) (λ stored t1 _.
        Ends->> _ _ t1 (registers domain_id _ version stored.local_path t1) (λ _ t2 h.
          Ends->> _ _ t2
            (Ends-modify {Q = λ _ t. IsRegistered domain_id t} _ t2
              (IsRegistered-put_pending domain_id _ t2 refl h))
            (λ _ t3 h. Ends-pure _ t3 h)))

  -- An upload that is accepted has ended once its job is executed: completed, partial or failed;
  -- unless the loader of the domain's policy raises: then so does the execution, and the job stays
  -- pending with no request left.
  pub prepare_upload-Ends :
      (save : String → Result Exception StoredDocument) (new_doc_id domain_id : String)
      (doc_id : Option String) (version title : String) (input_type : Option String)
      (meta : Metadata) (s t : OrchestratorState fl) (prepared : PreparedIndexing)
      → prepare_upload fl svc save new_doc_id job_id domain_id doc_id version title input_type meta
          s
        ≡ (ok prepared, t)
      → Ends
          (λ _ t'. IsOver t'.service)
          (IsStuck domain_id)
          (execute fl svc dense_dim load_pii_config job_id t)
  prepare_upload-Ends save new_doc_id domain_id doc_id version title input_type meta s t p e =
      execute-Ends domain_id t (
        Ends-ok {Q = λ _ t. IsRegistered domain_id t} _ p t
          (prepare_upload-IsRegistered save new_doc_id domain_id doc_id version title input_type
            meta s)
          e)
