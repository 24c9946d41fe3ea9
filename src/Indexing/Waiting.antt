-- ===== src/Indexing/Waiting.antt =====
-- How the steps of `IndexingService` (rag_core/services/indexing_service.py) leave the job of a run
-- and the tables.
use domainrag_ops.Prelude.{
  ℕ, String, ◌≡◌, ◌⊎◌, inl, inr, refl, sym, ap, subst, ◌∙◌, Bool, true, false, some, List, [], ◌∷◌,
  ◌==◌, string_eq, arith, length, or_else, if◌then◌else◌, nat_eq,
}
use domainrag_ops.Prelude.Float.{FloatOps}
use domainrag_ops.Prelude.Result.{Result, ok, err}
use domainrag_ops.Prelude.Effect.{
  Ends, Ends->>, Ends-pure, Ends-call, Ends-modify, Ends-if, ◌>>◌, pure, call, modify,
}
use domainrag_ops.Dict.{get, set_item, get-set_item_self}
use domainrag_ops.Chunks.Rows.{Item}
use domainrag_ops.VectorStore.{Point, Store, Fault, upsert_chunks}
use domainrag_ops.Jobs.{Jobs, IndexingJobRecord, Patch, update, patched}
use domainrag_ops.Indexing.Requests.{IndexingResult, Service, EmbedResult, Warnings, Exception}
use domainrag_ops.Indexing.Steps.{
  State, with_jobs, update_job, upsert_points, with_store, update_chunks,
}
use domainrag_ops.Indexing.Storing.{fail_fast, complete, store_or_fail}

module _ (fl : FloatOps) (svc : Service fl) (job_id : String) where
  abbrev pub HasJob : State fl → Type 0
  HasJob s = (job : IndexingJobRecord fl.Float) × (get s.jobs job_id ≡ some job)

  -- The job's status.
  abbrev pub HasStatus : String → State fl → Type 0
  HasStatus status s =
      (job : IndexingJobRecord fl.Float) × (get s.jobs job_id ≡ some job) × (job.status ≡ status)

  -- The documents, chunks and points of the one state are those of the other.
  pub record SameData (s t : State fl) : Type 0 where
    pub docs : t.docs ≡ s.docs
    pub chunks : t.chunks ≡ s.chunks
    pub store : t.store ≡ s.store

  -- The job is there, and only jobs have changed.
  abbrev pub Waits : State fl → State fl → Type 0
  Waits s t = HasJob t × SameData s t

  -- Either the run stored what `P` says, and the job has the result's status, or it stored nothing
  -- and both are failed.
  pub data Outcome (P : State fl → Type 0) (s : State fl) (r : IndexingResult fl) (t : State fl)
      : Type 0 where
    stored :
        (r.status ≡ "completed") ⊎ (r.status ≡ "partial")
        → HasStatus r.status t
        → P t
        → Outcome P s r t
    refused : r.status ≡ "failed" → HasStatus "failed" t → SameData s t → Outcome P s r t

  -- The property is one of the documents, the chunks and the points.
  abbrev pub IsOfData : (State fl → Type 0) → Type 0
  IsOfData P = (s t : State fl) → SameData s t → P s → P t

  -- The store with the points in the domain's collection; no call is made for no points.
  abbrev pub with_points : String → List (Point fl) → Store fl → Result Fault (Store fl)
  with_points domain_id [] store = ok store
  with_points domain_id (p ∷ ps) store = upsert_chunks fl domain_id (p ∷ ps) store

  -- The points were upserted, and the documents and chunks are as before.
  pub record HasPoints (domain_id : String) (points : List (Point fl)) (s t : State fl)
      : Type 0 where
    pub docs : t.docs ≡ s.docs
    pub chunks : t.chunks ≡ s.chunks
    pub upserted : with_points domain_id points s.store ≡ ok t.store

  -- An update of a job that is there.
  pub record Updated (p : Patch fl.Float) (s t : State fl) : Type 0 where
    pub job : IndexingJobRecord fl.Float
    pub now : get t.jobs job_id ≡ some (patched fl.Float job p)
    pub same : SameData s t

  update_found :
      (p : Patch fl.Float) (jobs : Jobs fl.Float) (job : IndexingJobRecord fl.Float)
      → get jobs job_id ≡ some job
      → update fl.Float job_id p jobs ≡ ok (set_item jobs job_id (patched fl.Float job p))
  unfolding update
  update_found p jobs job h = ground (arith, h)

  pub update_lem :
      (p : Patch fl.Float) (s : State fl) (job : IndexingJobRecord fl.Float)
      → get s.jobs job_id ≡ some job
      → update_job fl job_id p s
        ≡ (ok tt, record s { jobs = set_item s.jobs job_id (patched fl.Float job p) })
  unfolding update_job
  update_lem p s job h = ap (with_jobs fl s) (update_found p s.jobs job h)

  finished {ℓ κ} :
      {A : Type ℓ} {Q : A → State fl → Type κ} {N : Exception → State fl → Type κ} (a : A)
      (t : State fl) (r : Result Exception A × State fl)
      → r ≡ (ok a, t)
      → Q a t
      → Ends Q N r
  finished {Q = Q} {N = N} a t r e q = subst (Ends Q N) (sym e) (record { ended = q })

  pub Ends-update_job :
      {N : Exception → State fl → Type 0} (p : Patch fl.Float) (s0 s : State fl)
      → Waits s0 s
      → Ends (λ _ t. Updated p s0 t) N (update_job fl job_id p s)
  Ends-update_job p s0 s ((job, h), same) =
      let jobs = set_item s.jobs job_id (patched fl.Float job p) in
      finished tt (record s { jobs = jobs }) (update_job fl job_id p s) (update_lem p s job h)
        (record {
          job = job;
          now = get-set_item_self s.jobs job_id (patched fl.Float job p);
          same = record { docs = same.docs; chunks = same.chunks; store = same.store };
        })

  pub waits : (p : Patch fl.Float) (s t : State fl) → Updated p s t → Waits s t
  waits p s t u = ((patched fl.Float u.job p, u.now), u.same)

  pub has_status :
      (p : Patch fl.Float) (s t : State fl) (status : String)
      → Updated p s t
      → p.status ≡ some status
      → HasStatus status t
  has_status p s t status u e =
      (patched fl.Float u.job p, u.now, ap (λ x. or_else x u.job.status) e)

  abbrev pub Undone : State fl → Exception → State fl → Type 0
  Undone s e t = Waits s t

  abbrev final_status : Bool → String
  final_status b = if b then "completed" else "partial"

  final_status_cases : (b : Bool) → (final_status b ≡ "completed") ⊎ (final_status b ≡ "partial")
  final_status_cases true = inl refl
  final_status_cases false = inr refl

  fail_fast-Outcome :
      (P : State fl → Type 0) (total : ℕ) (embed : EmbedResult fl) (warnings : Warnings)
      (r : fl.Float) (message : String) (s0 s : State fl)
      → Waits s0 s
      → Ends (Outcome P s0) (Undone s0) (fail_fast fl svc job_id total embed warnings r message s)
  unfolding fail_fast
  fail_fast-Outcome P total embed warnings r message s0 s w =
      Ends->> (update_job fl job_id _) (pure _) s (Ends-update_job _ s0 s w)
        (λ _ t u. Ends-pure _ t (refused refl (has_status _ s0 t "failed" u refl) u.same))

  complete-Outcome :
      (P : State fl → Type 0) (total : ℕ) (embed : EmbedResult fl) (warnings : Warnings)
      (r : fl.Float) (s0 s : State fl)
      → IsOfData P
      → HasJob s
      → P s
      → Ends (Outcome P s0) (Undone s0) (complete fl svc job_id total embed warnings r s)
  unfolding complete
  complete-Outcome P total embed warnings r s0 s of_data h held =
      Ends->> (update_job fl job_id _) (pure _) s
        (Ends-update_job _ s s (h, record { docs = refl; chunks = refl; store = refl }))
        (λ _ t u. Ends-pure _ t (
          stored (final_status_cases (length embed.failed == 0)) (has_status _ s t _ u refl)
            (of_data s t u.same held)))

  pub HasJob-update_chunks :
      (domain_id : String) (cids : List String) (metadata : List Item) (s : State fl)
      → HasJob s
      → HasJob (update_chunks fl domain_id cids metadata s)
  unfolding update_chunks
  HasJob-update_chunks domain_id cids metadata s h = h

  stored_or_raised :
      (domain_id : String) (p : Point fl) (ps : List (Point fl)) (s0 s : State fl)
      (r : Result Fault (Store fl))
      → upsert_chunks fl domain_id (p ∷ ps) s.store ≡ r
      → Waits s0 s
      → Ends (λ _ t. HasJob t × HasPoints domain_id (p ∷ ps) s0 t) (Undone s0) (with_store fl s r)
  stored_or_raised domain_id p ps s0 s (ok store) e (h, same) = record {
    ended = (
      h,
      record {
        docs = same.docs;
        chunks = same.chunks;
        upserted = ap (upsert_chunks fl domain_id (p ∷ ps)) (sym same.store) ∙ e;
      },
    );
  }
  stored_or_raised domain_id p ps s0 s (err e) _ w = record { ended = w }

  Ends-upsert_points :
      (domain_id : String) (points : List (Point fl)) (s0 s : State fl)
      → Waits s0 s
      → Ends
          (λ _ t. HasJob t × HasPoints domain_id points s0 t)
          (Undone s0)
          (upsert_points fl domain_id points s)
  unfolding upsert_points
  Ends-upsert_points domain_id [] s0 s (h, same) = record {
    ended =
        (h, record { docs = same.docs; chunks = same.chunks; upserted = ap ok (sym same.store) });
  }
  Ends-upsert_points domain_id (p ∷ ps) s0 s w = stored_or_raised domain_id p ps s0 s _ refl w

  -- The answer is that of the call, and the job still waits.
  pub Answers-call :
      {A : Type 0} (s0 t : State fl) (r : Result Exception A)
      → Waits s0 t
      → Ends (λ a t. (r ≡ ok a) × Waits s0 t) (Undone s0) (call r t)
  Answers-call s0 t r w = Ends-call r t (λ a e. (e, w)) (λ _ _. w)

  module _ (P : State fl → Type 0) (of_data : IsOfData P) where
    -- After the embedding: the points are upserted, then the tables are written.
    store_then_complete :
        (domain_id : String) (points : List (Point fl)) (write : State fl → State fl) (total : ℕ)
        (embed : EmbedResult fl) (warnings : Warnings) (r : fl.Float) (s0 s : State fl)
        → ((t : State fl)
            → HasJob t
            → HasPoints domain_id points s0 t
            → HasJob (write t) × P (write t))
        → Waits s0 s
        → Ends (Outcome P s0) (Undone s0) (
            (upsert_points fl domain_id points
                >> modify write
                >> complete fl svc job_id total embed warnings r)
              s)
    store_then_complete domain_id points write total embed warnings r s0 s writes w =
        Ends->> _ _ s
          (Ends->> {Q = λ _ t. HasJob t × HasPoints domain_id points s0 t}
            (upsert_points fl domain_id points) (modify write) s
            (Ends-upsert_points domain_id points s0 s w)
            (λ _ t (h, there). Ends-modify {Q = λ _ t. HasJob t × P t} write t (writes t h there)))
          (λ _ t (h, held). complete-Outcome P total embed warnings r s0 t of_data h held)

    pub store_or_fail-Outcome :
        (domain_id : String) (points : List (Point fl)) (write : State fl → State fl) (total : ℕ)
        (embed : EmbedResult fl) (warnings : Warnings) (r : fl.Float) (message : String)
        (s0 s : State fl)
        → ((t : State fl)
            → HasJob t
            → HasPoints domain_id points s0 t
            → HasJob (write t) × P (write t))
        → Waits s0 s
        → Ends
            (Outcome P s0)
            (Undone s0)
            (store_or_fail fl svc job_id domain_id points write total embed warnings r message s)
    unfolding store_or_fail
    store_or_fail-Outcome domain_id points write total embed warnings r message s0 s writes w =
        Ends-if (fl.lt svc.failure_threshold r)
          (fail_fast fl svc job_id total embed warnings r message)
          (upsert_points fl domain_id points
            >> modify write
            >> complete fl svc job_id total embed warnings r)
          s (fail_fast-Outcome P total embed warnings r message s0 s w)
          (store_then_complete domain_id points write total embed warnings r s0 s writes w)
