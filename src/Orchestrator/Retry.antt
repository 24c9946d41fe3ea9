-- ===== src/Orchestrator/Retry.antt =====
-- `retry_job` (backend/app/services/indexing_orchestrator.py): what the job and the request of a
-- retry are, and who sees the document after it is executed.
use domainrag_ops.Prelude.{
  String, ◌≡◌, ◌∙◌, refl, sym, ap, subst, Bool, true, false, Option, none, some, [], ◌==◌, arith,
  eq_iff, string_eq, pair_eq, Bool-cases, inl, inr,
}
use domainrag_ops.Prelude.Float.{FloatOps}
use domainrag_ops.Prelude.Result.{ok, or_raise}
use domainrag_ops.Prelude.Effect.{
  Ends, Ends->>=, Ends->>, Ends-pure, Ends-read, Ends-call, Ends-modify, Ends-ok,
}
use domainrag_ops.Dict.{get, set_item, get-set_item_self}
use domainrag_ops.Acl.Builder.{Principal}
use domainrag_ops.Acl.Admission.{admits}
use domainrag_ops.Acl.Terms.{clears}
use domainrag_ops.Documents.{DocumentRecord}
use domainrag_ops.Jobs.{IndexingJobRecord, patched}
use domainrag_ops.Indexing.Requests.{IndexingRequest, Exception, Service}
use domainrag_ops.Indexing.Steps.{update_job}
use domainrag_ops.Indexing.Waiting.{update_lem}
use domainrag_ops.Indexing.Access.{meta_of}
use domainrag_ops.Orchestrator.{
  in_service, with_service, put_pending, find_document, find_retried_job, retried_job, is_retried,
  reset, retry_job,
}
use domainrag_ops.Orchestrator.Requests.{OrchestratorState, PreparedIndexing, retry_request}

-- A request without `acl` admits nobody.
pub retry_request-admits :
    (doc : DocumentRecord) (domain_id doc_id version : String) (u : Principal)
    (today : Option String) (exclude_archived : Bool)
    → admits u today exclude_archived (meta_of (retry_request doc domain_id doc_id version)) ≡ false
unfolding admits
retry_request-admits doc domain_id doc_id version u today exclude_archived =
    elim (Bool-cases (doc.approval_status == "approved")) [
      | inl e ↦ elim (Bool-cases (clears u.clearance doc.security_level)) [
        | inl f ↦ rw (e, f) refl
        | inr f ↦ rw (e, f) refl
      ]
      | inr e ↦ rw e refl
    ]

module _ (fl : FloatOps) (svc : Service fl) (domain_id job_id : String) where
  -- What an accepted retry makes of the state `s`: the job was failed or partial, it and its
  -- document were there, and now it is pending, with the message and the step that it had.
  pub record IsRetried (s t : OrchestratorState fl) : Type 0 where
    pub job : IndexingJobRecord fl.Float
    pub doc : DocumentRecord
    pub found : get s.service.jobs job_id ≡ some job
    pub own : job.domain_id ≡ domain_id
    pub retriable : is_retried fl svc job.status ≡ true
    pub document : get s.service.docs (domain_id, (job.doc_id, job.doc_version)) ≡ some doc
    pub now : get t.service.jobs job_id ≡ some (patched fl.Float job (reset fl svc))
    pub waiting :
        get t.pending job_id ≡ some (retry_request doc domain_id job.doc_id job.doc_version)
    pub store : t.service.store ≡ s.service.store

  retried_job-ok :
      (no_job : String) (found : Option (IndexingJobRecord fl.Float))
      (job : IndexingJobRecord fl.Float)
      → retried_job fl svc no_job domain_id found ≡ ok job
      → (found ≡ some job) × (job.domain_id ≡ domain_id) × (is_retried fl svc job.status ≡ true)
  unfolding retried_job
  retried_job-ok no_job none job e = absurd (ground (arith, e))
  retried_job-ok no_job (some j) job e = ground (arith, e, eq_iff j.domain_id domain_id)

  or_raise-ok :
      (found : Option DocumentRecord) (e : Exception) (doc : DocumentRecord)
      → or_raise found e ≡ ok doc
      → found ≡ some doc
  or_raise-ok none e doc h = absurd (ground (arith, h))
  or_raise-ok (some d) e doc h = ground (arith, h)

  -- The job that is found may be retried, and the state is as before.
  abbrev Found : OrchestratorState fl → IndexingJobRecord fl.Float → OrchestratorState fl → Type 0
  Found s job t =
      (t ≡ s)
      × (get s.service.jobs job_id ≡ some job)
      × (job.domain_id ≡ domain_id)
      × (is_retried fl svc job.status ≡ true)

  find_retried_job-Found :
      (no_job : String) (s : OrchestratorState fl)
      → Ends (Found s) (λ _ _. Unit) (find_retried_job fl svc no_job domain_id job_id s)
  unfolding find_retried_job
  find_retried_job-Found no_job s =
      Ends->>= {Q = λ r t. (r ≡ s) × (t ≡ s)} _ _ s (Ends-read s (refl, refl)) (λ r t same.
        Ends-call _ t
          (λ job e.
            let (found, own, retriable) = retried_job-ok no_job (get r.service.jobs job_id) job e in
            (
              same.1,
              subst (λ x. get x.service.jobs job_id ≡ some job) same.0 found,
              own,
              retriable,
            ))
          (λ _ _. tt))

  find_document-Ends :
      (doc_id version message : String) (s : OrchestratorState fl)
      → Ends
          (λ doc t. (t ≡ s) × (get s.service.docs (domain_id, (doc_id, version)) ≡ some doc))
          (λ _ _. Unit)
          (find_document fl svc domain_id doc_id version message s)
  unfolding find_document
  find_document-Ends doc_id version message s =
      Ends->>= {Q = λ r t. (r ≡ s) × (t ≡ s)} _ _ s (Ends-read s (refl, refl)) (λ r t same.
        Ends-call _ t
          (λ doc e. (
            same.1,
            subst (λ x. get x.service.docs (domain_id, (doc_id, version)) ≡ some doc) same.0
                (or_raise-ok (get r.service.docs (domain_id, (doc_id, version))) _ doc e),
          ))
          (λ _ _. tt))

  abbrev was_reset :
      IndexingRequest → IndexingJobRecord fl.Float → OrchestratorState fl → OrchestratorState fl
  was_reset request job s = record s {
    pending = set_item s.pending job_id request;
    service = record s.service {
      jobs = set_item s.service.jobs job_id (patched fl.Float job (reset fl svc));
    };
  }

  reset_lem :
      (request : IndexingRequest) (job : IndexingJobRecord fl.Float) (s : OrchestratorState fl)
      → get s.service.jobs job_id ≡ some job
      → in_service fl svc
          (update_job fl job_id (reset fl svc))
          (put_pending fl svc job_id request s)
        ≡ (ok tt, was_reset request job s)
  unfolding in_service put_pending
  reset_lem request job s e =
      ap (with_service fl svc (record s { pending = set_item s.pending job_id request }))
        (update_lem fl svc job_id (reset fl svc) s.service job e)

  retried :
      (job : IndexingJobRecord fl.Float) (doc : DocumentRecord) (s : OrchestratorState fl)
      → Found s job s
      → get s.service.docs (domain_id, (job.doc_id, job.doc_version)) ≡ some doc
      → IsRetried s (was_reset (retry_request doc domain_id job.doc_id job.doc_version) job s)
  retried job doc s (_, found, own, retriable) document = record {
    job = job;
    doc = doc;
    found = found;
    own = own;
    retriable = retriable;
    document = document;
    now = get-set_item_self s.service.jobs job_id (patched fl.Float job (reset fl svc));
    waiting =
        get-set_item_self s.pending job_id (retry_request doc domain_id job.doc_id job.doc_version);
    store = refl;
  }

  pub retry_job-Ends :
      (no_job no_document : String) (s : OrchestratorState fl)
      → Ends
          (λ _ t. IsRetried s t)
          (λ _ _. Unit)
          (retry_job fl svc no_job no_document domain_id job_id s)
  unfolding retry_job
  retry_job-Ends no_job no_document s =
      Ends->>= {Q = Found s} _ _ s (find_retried_job-Found no_job s) (λ job t1 f.
        Ends->>=
          {Q = λ doc t.
            (t ≡ s) × (get s.service.docs (domain_id, (job.doc_id, job.doc_version)) ≡ some doc)}
          _ _ t1 (document_of job t1 f)
          (λ doc t2 (same, document).
            Ends->>
              {Q = λ _ t.
                t
                ≡ put_pending fl svc job_id (retry_request doc domain_id job.doc_id job.doc_version)
                    s}
              _ _ t2 (Ends-modify _ t2 (ap (put_pending fl svc job_id _) same))
              (λ _ t3 put.
                Ends->> {Q = λ _ t. IsRetried s t} _ _ t3 (last job doc t1 t3 f document put)
                  (λ _ t4 done. Ends-pure _ t4 done))))
    where
      document_of :
          (job : IndexingJobRecord fl.Float) (t : OrchestratorState fl)
          → Found s job t
          → Ends
              (λ doc t'.
                (t' ≡ s)
                × (get s.service.docs (domain_id, (job.doc_id, job.doc_version)) ≡ some doc))
              (λ _ _. Unit)
              (find_document fl svc domain_id job.doc_id job.doc_version no_document t)
      document_of job t f =
          subst
            (λ x.
              Ends
                (λ doc t'.
                  (t' ≡ s)
                  × (get s.service.docs (domain_id, (job.doc_id, job.doc_version)) ≡ some doc))
                (λ _ _. Unit)
                (find_document fl svc domain_id job.doc_id job.doc_version no_document x))
            (sym f.0) (find_document-Ends job.doc_id job.doc_version no_document s)

      last :
          (job : IndexingJobRecord fl.Float) (doc : DocumentRecord) (t1 t : OrchestratorState fl)
          → Found s job t1
          → get s.service.docs (domain_id, (job.doc_id, job.doc_version)) ≡ some doc
          → t ≡ put_pending fl svc job_id (retry_request doc domain_id job.doc_id job.doc_version) s
          → Ends
              (λ _ t'. IsRetried s t')
              (λ _ _. Unit)
              (in_service fl svc (update_job fl job_id (reset fl svc)) t)
      last job doc t1 t (_, found, own, retriable) document put =
          let request = retry_request doc domain_id job.doc_id job.doc_version in
          subst (λ r. Ends (λ _ t'. IsRetried s t') (λ _ _. Unit) r)
            (sym (reset_lem request job s found)
              ∙ ap (in_service fl svc (update_job fl job_id (reset fl svc))) (sym put))
            (record { ended = retried job doc s (refl, found, own, retriable) document })

  -- Where a retry is accepted, the job was failed or partial and of the domain, and its document is
  -- there; now it is pending with no progress, no indexed and no failed chunks. Its error message
  -- and its step are as they were, although `retry_job` passes `None` for them.
  pub retry_job_lem :
      (no_job no_document : String) (s t : OrchestratorState fl) (prepared : PreparedIndexing)
      → retry_job fl svc no_job no_document domain_id job_id s ≡ (ok prepared, t)
      → (job : IndexingJobRecord fl.Float) × (get s.service.jobs job_id ≡ some job)
        × (job.domain_id ≡ domain_id)
        × (is_retried fl svc job.status ≡ true)
        × (get t.service.jobs job_id
            ≡ some (record job {
              status = "pending";
              progress = 0;
              indexed_chunks = 0;
              failed_chunks = [];
            }))
  retry_job_lem no_job no_document s t prepared e =
      let r : IsRetried s t =
        Ends-ok {Q = λ _ t. IsRetried s t} _ prepared t (retry_job-Ends no_job no_document s) e in
      (r.job, r.found, r.own, r.retriable, r.now)
