-- ===== src/Tenant/Status.antt =====
-- The status of a tenant over the calls of the service
-- (backend/app/services/tenant_lifecycle_service.py).
use domainrag_ops.Prelude.{
  ℕ, String, ◌≡◌, refl, ◌∙◌, sym, subst, true, Option, some, List, [], ◌∷◌, arith, eq_iff, ◌==◌,
  string_eq, ◌⊎◌, inl, inr, Bool-cases, Option-cases,
}
use domainrag_ops.Prelude.Result.{err}
use domainrag_ops.Dict.{Dict, get, set_item, get-set_item_self, get-set_item_ne}
use domainrag_ops.Tenant.{
  publish, register, set_enrollment_policy, update_status, hard_delete, fresh, deleted_record,
}
use domainrag_ops.Tenant.Records.{TenantRecord, tenant_conflict, Environment, Service, allowed}

pub data Call : Type 0 where
  register_call : String → String → Option String → List String → String → String → ℕ → ℕ → Call
  policy_call : String → String → String → Call
  status_call : String → String → String → Option String → ℕ → Call
  delete_call : String → String → String → ℕ → (String → ℕ) → Call

-- How a call may change a status: not at all, along the table, or from archived to deleted.
abbrev pub StatusStep : String → String → Type 0
StatusStep a b = (a ≡ b) ⊎ (allowed a b ≡ true) ⊎ (a ≡ "archived") × (b ≡ "deleted")

-- The tenant `d`, whose record was `r`, is still there, and its status took a step.
abbrev pub Follows : String → TenantRecord → Dict String TenantRecord → Type 0
Follows d r t = (r' : TenantRecord) × (get t d ≡ some r') × StatusStep r.status r'.status

same-Follows :
    (d : String) (r : TenantRecord) (t : Dict String TenantRecord)
    → get t d ≡ some r
    → Follows d r t
same-Follows d r t e = (r, e, inl refl)

stored-Follows :
    (t : Dict String TenantRecord) (dom d : String) (r rec rec' : TenantRecord)
    → get t dom ≡ some rec
    → get t d ≡ some r
    → StatusStep rec.status rec'.status
    → Follows d r (set_item t dom rec')
stored-Follows t dom d r rec rec' e f st = elim (Bool-cases (dom == d)) [
  | inl same ↦
      let p : dom ≡ d = (eq_iff dom d).0 same in
      let q : rec ≡ r = ground (arith, e, f, p) in
      (
        rec',
        subst (λ x. get (set_item t dom rec') x ≡ some rec') p (get-set_item_self t dom rec'),
        subst (λ x. StatusStep x.status rec'.status) q st,
      )
  | inr other ↦
      same-Follows d r (set_item t dom rec')
        (get-set_item_ne t dom d rec' (λ p. ground (arith, other, p, eq_iff dom d)) ∙ f)
]

deleted_step : (a b : String) → a ≡ "deleted" → StatusStep a b → b ≡ "deleted"
unfolding allowed
deleted_step a b e (inl same) = sym same ∙ e
deleted_step a b e (inr (inl fine)) =
    let no : allowed "deleted" b ≡ true = subst (λ x. allowed x b ≡ true) e fine in absurd (cc no)
deleted_step a b e (inr (inr (_, q))) = q

module _ (W : Type 0) (env : Environment W) where
  unfoldable pub perform : Call → Service W → Service W
  perform (register_call d name type modules policy actor c u) s =
      (register W env d name type modules policy actor c u s).1
  perform (policy_call d policy actor) s = (set_enrollment_policy W env d policy actor s).1
  perform (status_call d to actor reason now) s = (update_status W env d to actor reason now s).1
  perform (delete_call d actor reason now logged) s =
      (hard_delete W env d actor reason now logged s).1

  unfoldable pub run : List Call → Service W → Service W
  run [] s = s
  run (c ∷ cs) s = run cs (perform c s)

  -- One call changes the status of a tenant along the table, or from archived to deleted, and
  -- never removes the tenant.
  pub perform-Follows :
      (c : Call) (s : Service W) (d : String) (r : TenantRecord)
      → get s.tenants d ≡ some r
      → Follows d r (perform c s).tenants
  unfolding perform register set_enrollment_policy update_status hard_delete publish
  perform-Follows (register_call dom name type modules policy actor c u) s d r e =
      elim (Option-cases (get s.tenants dom)) [
        | inl new ↦
            let t' = set_item s.tenants dom (fresh W env dom name type modules policy c u) in
            let eq : t'
                ≡ (perform (register_call dom name type modules policy actor c u) s).tenants =
              ground (arith, new) in
            subst (Follows d r) eq (
              same-Follows d r t' (
                get-set_item_ne s.tenants dom d (fresh W env dom name type modules policy c u)
                  (λ p. ground (arith, new, e, p))
                ∙ e))
        | inr (rec, old) ↦
            let eq : s.tenants
                ≡ (perform (register_call dom name type modules policy actor c u) s).tenants =
              ground (arith, old) in
            subst (Follows d r) eq (same-Follows d r s.tenants e)
      ]
  perform-Follows (policy_call dom policy actor) s d r e = elim (Option-cases (get s.tenants dom)) [
    | inl new ↦
        let eq : s.tenants ≡ (perform (policy_call dom policy actor) s).tenants =
          ground (arith, new) in
        subst (Follows d r) eq (same-Follows d r s.tenants e)
    | inr (rec, old) ↦
        let rec' : TenantRecord = record rec { enrollment_policy = policy } in
        let eq : set_item s.tenants dom rec' ≡ (perform (policy_call dom policy actor) s).tenants =
          ground (arith, old) in
        subst (Follows d r) eq (stored-Follows s.tenants dom d r rec rec' old e (inl refl))
  ]
  perform-Follows (status_call dom to actor reason now) s d r e =
      elim (Option-cases (get s.tenants dom)) [
        | inl new ↦ unchanged (ground (arith, new))
        | inr (rec, old) ↦ elim (Bool-cases (rec.status == to)) [
          | inl same ↦ unchanged (ground (arith, old, same))
          | inr other ↦ elim (Bool-cases (allowed rec.status to)) [
            | inr refused ↦ unchanged (ground (arith, old, other, refused))
            | inl fine ↦
                let rec' : TenantRecord = record rec { status = to; updated_at = now } in
                let eq : set_item s.tenants dom rec'
                    ≡ (perform (status_call dom to actor reason now) s).tenants =
                  ground (arith, old, other, fine) in
                subst (Follows d r) eq
                  (stored-Follows s.tenants dom d r rec rec' old e (inr (inl fine)))
          ]
        ]
      ]
    where
      unchanged :
          s.tenants ≡ (perform (status_call dom to actor reason now) s).tenants
          → Follows d r (perform (status_call dom to actor reason now) s).tenants
      unchanged eq = subst (Follows d r) eq (same-Follows d r s.tenants e)
  perform-Follows (delete_call dom actor reason now logged) s d r e =
      elim (Option-cases (get s.tenants dom)) [
        | inl new ↦ unchanged (ground (arith, new))
        | inr (rec, old) ↦ elim (Bool-cases (rec.status == "archived")) [
          | inr other ↦ unchanged (ground (arith, old, other))
          | inl archived ↦
              let rec' : TenantRecord = deleted_record W env dom s.world now rec in
              let eq : set_item s.tenants dom rec'
                  ≡ (perform (delete_call dom actor reason now logged) s).tenants =
                ground (arith, old, archived) in
              subst (Follows d r) eq (
                stored-Follows s.tenants dom d r rec rec' old e
                  (inr (inr ((eq_iff rec.status "archived").0 archived, refl))))
        ]
      ]
    where
      unchanged :
          s.tenants ≡ (perform (delete_call dom actor reason now logged) s).tenants
          → Follows d r (perform (delete_call dom actor reason now logged) s).tenants
      unchanged eq = subst (Follows d r) eq (same-Follows d r s.tenants e)

  -- A deleted tenant stays deleted.
  run_deleted :
      (cs : List Call) (s : Service W) (d : String) (r : TenantRecord)
      → get s.tenants d ≡ some r
      → r.status ≡ "deleted"
      → (r' : TenantRecord) × (get (run cs s).tenants d ≡ some r') × (r'.status ≡ "deleted")
  unfolding run
  run_deleted [] s d r e h = (r, e, h)
  run_deleted (c ∷ cs) s d r e h =
      let (r', e', st) = perform-Follows c s d r e in
      run_deleted cs (perform c s) d r' e' (deleted_step r.status r'.status h st)

  -- A deleted tenant stays deleted whatever calls are made, and its id cannot be registered again.
  pub deleted_is_final :
      (cs : List Call) (s : Service W) (d : String) (r : TenantRecord)
      → get s.tenants d ≡ some r
      → r.status ≡ "deleted"
      → ((r' : TenantRecord) × (get (run cs s).tenants d ≡ some r') × (r'.status ≡ "deleted"))
        × ((name : String) (type : Option String) (modules : List String) (policy actor : String)
              (c u : ℕ)
            → register W env d name type modules policy actor c u (run cs s)
              ≡ (err (tenant_conflict d), run cs s))
  unfolding register
  deleted_is_final cs s d r e h =
      let (r', e', h') = run_deleted cs s d r e h in
      ((r', e', h'), λ name type modules policy actor c u. ground (arith, e'))
