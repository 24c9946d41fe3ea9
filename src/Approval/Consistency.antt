-- ===== src/Approval/Consistency.antt =====
-- The active approval of a domain and its history agree
-- (backend/app/services/pii_storage_approval_service.py).
use domainrag_ops.Prelude.{
  ℕ, String, ◌≡◌, ◌≢◌, refl, sym, ap, subst, Option, none, some, List, [], ◌∷◌, ◌++◌, arith, eq_iff,
  ◌==◌, string_eq, or_else, All, Bool-cases, Option-cases, inl, inr,
}
use domainrag_ops.Dict.{
  Dict, get, set_item, pop, get-set_item_self, get-set_item_ne, get-pop_self, get-pop_ne,
}
use domainrag_ops.Approval.{
  PiiApprovalRecord, Ledger, Service, history_of, replace_last, approve_plain, revoke_active,
  new_approval, revoked_record, replaced,
}

pub data Call : Type 0 where
  approve : String → String → String → Option ℕ → String → ℕ → Call
  revoke : String → String → String → ℕ → Call

abbrev pub IsRevoked : PiiApprovalRecord → Type 0
IsRevoked r = r.status ≡ "revoked"

-- With no active approval all of the history is revoked; an active one is the last of the history,
-- with the others revoked.
abbrev pub Agree : Option PiiApprovalRecord → List PiiApprovalRecord → Type 0
Agree none rs = All IsRevoked rs
Agree (some r) rs =
    (r.status ≡ "active")
    × ((before : List PiiApprovalRecord) × (rs ≡ before ++ r ∷ []) × All IsRevoked before)

pub record IsConsistent (W : Type 0) (s : Service W) : Type 0 where
  pub agree : (d : String) → Agree (get s.active d) (history_of s.history d)

replace_last-append :
    (revoked r : PiiApprovalRecord) (before : List PiiApprovalRecord)
    → r.approval_id ≡ revoked.approval_id
    → replace_last revoked (before ++ r ∷ []) ≡ before ++ revoked ∷ []
unfolding replace_last
replace_last-append revoked r [] e = ground (arith, e, eq_iff r.approval_id revoked.approval_id)
replace_last-append revoked r (b ∷ []) e = ap (λ l. b ∷ l) (replace_last-append revoked r [] e)
replace_last-append revoked r (b ∷ b' ∷ bs) e =
    ap (λ l. b ∷ l) (replace_last-append revoked r (b' ∷ bs) e)

All-append_one :
    (xs : List PiiApprovalRecord) (x : PiiApprovalRecord)
    → All IsRevoked xs
    → IsRevoked x
    → All IsRevoked (xs ++ x ∷ [])
All-append_one [] x h k = (k, tt)
All-append_one (y ∷ ys) x h k = (h.0, All-append_one ys x h.1 k)

revoked-Agree :
    (revoked r : PiiApprovalRecord) (rs : List PiiApprovalRecord)
    → r.approval_id ≡ revoked.approval_id
    → IsRevoked revoked
    → Agree (some r) rs
    → Agree none (replace_last revoked rs)
revoked-Agree revoked r rs e k (_, (before, shape, h)) =
    rw shape (rw (replace_last-append revoked r before e) (All-append_one before revoked h k))

-- The active approvals and the histories agree on every domain.
abbrev pub AllAgree : Dict String PiiApprovalRecord → Dict String (List PiiApprovalRecord) → Type 0
AllAgree active history = (d : String) → Agree (get active d) (history_of history d)

approved-AllAgree :
    (active : Dict String PiiApprovalRecord) (history : Dict String (List PiiApprovalRecord))
    (dom : String) (new : PiiApprovalRecord)
    → AllAgree active history
    → get active dom ≡ none
    → new.status ≡ "active"
    → AllAgree (set_item active dom new) (set_item history dom (history_of history dom ++ new ∷ []))
approved-AllAgree active history dom new h e st d = elim (Bool-cases (dom == d)) [
  | inl same ↦
      subst
        (λ x.
          Agree (get (set_item active dom new) x)
            (history_of (set_item history dom (history_of history dom ++ new ∷ [])) x))
        ((eq_iff dom d).0 same)
        (rw (get-set_item_self active dom new) (
          rw (get-set_item_self history dom (history_of history dom ++ new ∷ [])) (
            st,
            (history_of history dom, refl, subst (λ x. Agree x (history_of history dom)) e (h dom)),
          )))
  | inr other ↦
      let ne : dom ≢ d = (λ p. ground (arith, other, p, eq_iff dom d)) in
      rw (get-set_item_ne active dom d new ne)
        (rw (get-set_item_ne history dom d (history_of history dom ++ new ∷ []) ne) (h d))
]

impossible-Agree :
    (r : PiiApprovalRecord) (rs : List PiiApprovalRecord) → rs ≡ [] → ¬ Agree (some r) rs
impossible-Agree r rs e (_, ([], shape, _)) = cc
impossible-Agree r rs e (_, (b ∷ bs, shape, _)) = cc

module _ (W : Type 0) (ledger : Ledger W) where
  unfoldable pub perform : Call → Service W → Service W
  perform (approve d reason by until fresh now) s =
      (approve_plain W ledger d reason by until fresh now s).1
  perform (revoke d by reason now) s = (revoke_active W ledger d by reason now s).1

  unfoldable pub run : List Call → Service W → Service W
  run [] s = s
  run (c ∷ cs) s = run cs (perform c s)

  revoked-AllAgree :
      (active : Dict String PiiApprovalRecord) (history : Dict String (List PiiApprovalRecord))
      (dom : String) (r revoked : PiiApprovalRecord)
      → AllAgree active history
      → get active dom ≡ some r
      → r.approval_id ≡ revoked.approval_id
      → IsRevoked revoked
      → AllAgree (pop active dom) (replaced W ledger history dom revoked)
  revoked-AllAgree active history dom r revoked h e q k d = elim (Option-cases (get history dom)) [
    | inl none_yet ↦ absurd (
        impossible-Agree r (history_of history dom) (ap (λ o. or_else o []) none_yet)
          (subst (λ x. Agree x (history_of history dom)) e (h dom)))
    | inr (rs, kept) ↦
        let here : Agree (some r) rs =
          subst (λ x. Agree x rs) e
            (subst (λ o. Agree (get active dom) (or_else o [])) kept (h dom)) in
        subst
          (λ o. Agree (get (pop active dom) d) (
            history_of
              (elim o [ none ↦ history | some l ↦ set_item history dom (replace_last revoked l) ])
              d))
          (sym kept)
          (elim (Bool-cases (dom == d)) [
            | inl same ↦
                subst
                  (λ x.
                    Agree (get (pop active dom) x)
                      (history_of (set_item history dom (replace_last revoked rs)) x))
                  ((eq_iff dom d).0 same)
                  (rw (get-pop_self active dom) (
                    rw (get-set_item_self history dom (replace_last revoked rs))
                      (revoked-Agree revoked r rs q k here)))
            | inr other ↦
                let ne : dom ≢ d = (λ p. ground (arith, other, p, eq_iff dom d)) in
                rw (get-pop_ne active dom d ne)
                  (rw (get-set_item_ne history dom d (replace_last revoked rs) ne) (h d))
          ])
  ]

  perform-IsConsistent :
      (c : Call) (s : Service W) → IsConsistent W s → IsConsistent W (perform c s)
  unfolding perform approve_plain revoke_active
  perform-IsConsistent (approve dom reason by until fresh now) s h =
      elim (Option-cases (get s.active dom)) [
        | inr (r, old) ↦
            let eq : s ≡ perform (approve dom reason by until fresh now) s = ground (arith, old) in
            subst (IsConsistent W) eq h
        | inl new ↦
            let r = new_approval W ledger dom reason by until fresh now in
            let eq_active : set_item s.active dom r
                ≡ (perform (approve dom reason by until fresh now) s).active =
              ground (arith, new) in
            let eq_history : set_item s.history dom (history_of s.history dom ++ r ∷ [])
                ≡ (perform (approve dom reason by until fresh now) s).history =
              ground (arith, new) in
            record {
              agree =
                  subst
                    (λ a. AllAgree a (perform (approve dom reason by until fresh now) s).history)
                    eq_active
                    (subst (λ a. AllAgree (set_item s.active dom r) a) eq_history
                      (approved-AllAgree s.active s.history dom r h.agree new refl));
            }
      ]
  perform-IsConsistent (revoke dom by reason now) s h = elim (Option-cases (get s.active dom)) [
    | inl gone ↦
        let eq : s ≡ perform (revoke dom by reason now) s = ground (arith, gone) in
        subst (IsConsistent W) eq h
    | inr (r, old) ↦
        let r' = revoked_record W ledger r dom by reason now in
        let eq_active : pop s.active dom ≡ (perform (revoke dom by reason now) s).active =
          ground (arith, old) in
        let eq_history : replaced W ledger s.history dom r'
            ≡ (perform (revoke dom by reason now) s).history =
          ground (arith, old) in
        record {
          agree =
              subst (λ a. AllAgree a (perform (revoke dom by reason now) s).history) eq_active
                (subst (λ a. AllAgree (pop s.active dom) a) eq_history
                  (revoked-AllAgree s.active s.history dom r r' h.agree old refl refl));
        }
  ]

  run_keeps : (cs : List Call) (s : Service W) → IsConsistent W s → IsConsistent W (run cs s)
  unfolding run
  run_keeps [] s h = h
  run_keeps (c ∷ cs) s h = run_keeps cs (perform c s) (perform-IsConsistent c s h)

  -- Whatever calls are made from an empty service on, a domain with an active approval has it as
  -- the last of its history, with all the earlier ones revoked, and a domain without one has only
  -- revoked approvals.
  pub run-IsConsistent :
      (cs : List Call) (w : W)
      → IsConsistent W (run cs (record { active = []; history = []; audit_events = []; world = w }))
  unfolding get
  run-IsConsistent cs w =
      run_keeps cs (record { active = []; history = []; audit_events = []; world = w })
        (record { agree = λ d. tt })
