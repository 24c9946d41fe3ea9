-- ===== src/Jobs/Exclusive.antt =====
-- One version of a document has one active job (rag_core/clients/in_memory.py).
use domainrag_ops.Prelude.{
  String, ◌≡◌, ◌≢◌, sym, ◌∙◌, subst, true, false, none, some, List, [], ◌∷◌, arith, eq_iff, ◌==◌,
  string_eq, ◌⊎◌, All, Bool-cases, Option-cases, inl, inr, or_else,
}
use domainrag_ops.Prelude.Result.{ok}
use domainrag_ops.Dict.{get, set_item, values, All-values_get, get-set_item}
use domainrag_ops.Jobs.{
  IndexingJobRecord, Patch, Jobs, is_active, same_version, blocks, first_blocking, create, update,
  patched,
}

module _ (Rate : Type 0) where
  -- Two active jobs of one version of a document are one job.
  abbrev pub IsExclusive : Jobs Rate → Type 0
  IsExclusive jobs =
      (i j : String) (a b : IndexingJobRecord Rate)
      → get jobs i ≡ some a
      → get jobs j ≡ some b
      → same_version Rate a b ≡ true
      → is_active a.status ≡ true
      → is_active b.status ≡ true
      → i ≡ j

  -- What the repository can hold: jobs are created, and updated without making a job active that
  -- was not.
  pub data Reachable : Jobs Rate → Type 0 where
    start : Reachable []
    created :
        (job : IndexingJobRecord Rate) (jobs jobs' : Jobs Rate)
        → Reachable jobs
        → create Rate job jobs ≡ ok jobs'
        → Reachable jobs'
    updated :
        (job_id : String) (p : Patch Rate) (jobs jobs' : Jobs Rate) (old : IndexingJobRecord Rate)
        → Reachable jobs
        → get jobs job_id ≡ some old
        → (is_active (or_else p.status old.status) ≡ true → is_active old.status ≡ true)
        → update Rate job_id p jobs ≡ ok jobs'
        → Reachable jobs'

  none_blocking :
      (job : IndexingJobRecord Rate) (js : List (IndexingJobRecord Rate))
      → first_blocking Rate job js ≡ none
      → All (λ e. blocks Rate job e ≡ false) js
  unfolding first_blocking
  none_blocking job [] h = tt
  none_blocking job (e ∷ js) h = (ground arith, none_blocking job js (ground arith))

  same_version_sym :
      (a b : IndexingJobRecord Rate) → same_version Rate a b ≡ true → same_version Rate b a ≡ true
  same_version_sym a b h = ground (
    arith,
    eq_iff a.domain_id b.domain_id,
    eq_iff a.doc_id b.doc_id,
    eq_iff a.doc_version b.doc_version,
    eq_iff b.domain_id a.domain_id,
    eq_iff b.doc_id a.doc_id,
    eq_iff b.doc_version a.doc_version,
  )

  -- What stands under a key once one was set.
  set_cases :
      (jobs : Jobs Rate) (k i : String) (v a : IndexingJobRecord Rate)
      → get (set_item jobs k v) i ≡ some a
      → ((k ≡ i) × (v ≡ a)) ⊎ ((k ≢ i) × (get jobs i ≡ some a))
  set_cases jobs k i v a e = elim (Bool-cases (k == i)) [
    | inl same ↦ inl ((eq_iff k i).0 same, ground (arith, same, e, get-set_item jobs k i v))
    | inr other ↦ inr (
      (λ p. ground (arith, other, p, eq_iff k i)),
      ground (arith, other, e, get-set_item jobs k i v),
    )
  ]

  create-IsExclusive :
      (job : IndexingJobRecord Rate) (jobs : Jobs Rate)
      → first_blocking Rate job (values jobs) ≡ none
      → IsExclusive jobs
      → IsExclusive (set_item jobs job.job_id job)
  create-IsExclusive job jobs free h i j a b e f same act_a act_b =
      elim (set_cases jobs job.job_id i job a e) [
        | inl (p, x) ↦ elim (set_cases jobs job.job_id j job b f) [
          | inl (q, _) ↦ sym p ∙ q
          | inr (_, q) ↦ absurd (
              clash j b q act_b
                (same_version_sym job b (subst (λ y. same_version Rate y b ≡ true) (sym x) same)))
        ]
        | inr (_, p) ↦ elim (set_cases jobs job.job_id j job b f) [
          | inl (q, x) ↦
              absurd (clash i a p act_a (subst (λ y. same_version Rate a y ≡ true) (sym x) same))
          | inr (_, q) ↦ h i j a b p q same act_a act_b
        ]
      ]
    where
      clash :
          (k : String) (c : IndexingJobRecord Rate)
          → get jobs k ≡ some c
          → is_active c.status ≡ true
          → same_version Rate c job ≡ true
          → ⊥
      clash k c found act version =
          let free_c =
            All-values_get (λ x. blocks Rate job x ≡ false) jobs k c
              (none_blocking job (values jobs) free) found in
          ground (arith, free_c, act, version)

  update-IsExclusive :
      (job_id : String) (p : Patch Rate) (jobs : Jobs Rate) (old : IndexingJobRecord Rate)
      → get jobs job_id ≡ some old
      → (is_active (or_else p.status old.status) ≡ true → is_active old.status ≡ true)
      → IsExclusive jobs
      → IsExclusive (set_item jobs job_id (patched Rate old p))
  update-IsExclusive job_id p jobs old there keeps h i j a b e f same act_a act_b =
      let new = patched Rate old p in
      elim (set_cases jobs job_id i new a e) [
        | inl (q, x) ↦ elim (set_cases jobs job_id j new b f) [
          | inl (r, _) ↦ sym q ∙ r
          | inr (_, r) ↦
              sym q
              ∙ h job_id j old b there r (subst (λ y. same_version Rate y b ≡ true) (sym x) same)
                  (keeps (
                    subst (λ (y : IndexingJobRecord Rate). is_active y.status ≡ true) (sym x)
                      act_a))
                  act_b
        ]
        | inr (_, q) ↦ elim (set_cases jobs job_id j new b f) [
          | inl (r, x) ↦
              h i job_id a old q there (subst (λ y. same_version Rate a y ≡ true) (sym x) same)
                act_a
                (keeps
                  (subst (λ (y : IndexingJobRecord Rate). is_active y.status ≡ true) (sym x) act_b))
              ∙ r
          | inr (_, r) ↦ h i j a b q r same act_a act_b
        ]
      ]

  -- However jobs are created and updated, without an update that makes an ended job active again,
  -- one version of a document never has two active jobs.
  pub Reachable-IsExclusive : (jobs : Jobs Rate) → Reachable jobs → IsExclusive jobs
  unfolding create update
  Reachable-IsExclusive _ start = unfold get in (λ i j a b e f same x y. absurd (ground (arith, e)))
  Reachable-IsExclusive _ (created job jobs jobs' r e) =
      elim (Option-cases (first_blocking Rate job (values jobs))) [
        | inl free ↦
            let shape : set_item jobs job.job_id job ≡ jobs' = ground (arith, free, e) in
            subst IsExclusive shape
              (create-IsExclusive job jobs free (Reachable-IsExclusive jobs r))
        | inr (b, there) ↦ absurd (ground (arith, there, e))
      ]
  Reachable-IsExclusive _ (updated job_id p jobs jobs' old r there keeps e) =
      let shape : set_item jobs job_id (patched Rate old p) ≡ jobs' = ground (arith, there, e) in
      subst IsExclusive shape
        (update-IsExclusive job_id p jobs old there keeps (Reachable-IsExclusive jobs r))
