-- ===== src/Approval/Lookup.antt =====
-- What `is_plain_approved` answers after an approval or a revocation
-- (backend/app/services/pii_storage_approval_service.py).
use domainrag_ops.Prelude.{
  ℕ, String, ◌≡◌, ◌≢◌, false, not, Option, none, some, arith, string_eq, inl, inr, Option-cases,
}
use domainrag_ops.Prelude.Result.{ok, err}
use domainrag_ops.Dict.{get, get-set_item_self, get-set_item_ne, get-pop_self, get-pop_ne}
use domainrag_ops.Approval.{
  PiiApprovalRecord, pii_approval_conflict, Ledger, Service, approve_plain, revoke_active,
  new_approval, expired, is_plain_approved,
}

module _ (W : Type 0) (ledger : Ledger W) where
  active_approved :
      (s : Service W) (d : String) (r : PiiApprovalRecord) (later : ℕ)
      → get s.active d ≡ some r
      → is_plain_approved W ledger d later s ≡ not (expired W ledger r.valid_until later)
  unfolding is_plain_approved
  active_approved s d r later e = ground (arith, e)

  same_approved :
      (s s' : Service W) (d : String) (later : ℕ)
      → get s.active d ≡ get s'.active d
      → is_plain_approved W ledger d later s ≡ is_plain_approved W ledger d later s'
  unfolding is_plain_approved
  same_approved s s' d later e = ground (arith, e)

  active_conflict :
      (s : Service W) (d : String) (r : PiiApprovalRecord) (reason by : String) (until : Option ℕ)
      (fresh : String) (now : ℕ)
      → get s.active d ≡ some r
      → approve_plain W ledger d reason by until fresh now s
        ≡ (err (pii_approval_conflict r.approval_id), s)
  unfolding approve_plain
  active_conflict s d r reason by until fresh now e = ground (arith, e)

  now_active :
      (s : Service W) (d reason by : String) (until : Option ℕ) (fresh : String) (now : ℕ)
      → get s.active d ≡ none
      → get (approve_plain W ledger d reason by until fresh now s).1.active d
        ≡ some (new_approval W ledger d reason by until fresh now)
  unfolding approve_plain
  now_active s d reason by until fresh now e =
      ground
        (arith, e, get-set_item_self s.active d (new_approval W ledger d reason by until fresh now))

  -- In a domain without an active approval, `approve_plain` succeeds, the domain is approved until
  -- the approval expires, and a second `approve_plain` at any time, also after the expiry, is a
  -- conflict that changes nothing.
  pub approve_plain_lem :
      (s : Service W) (d reason by : String) (until : Option ℕ) (fresh : String) (now later : ℕ)
      → get s.active d ≡ none
      → let s' = (approve_plain W ledger d reason by until fresh now s).1 in
        ((approve_plain W ledger d reason by until fresh now s).0
          ≡ ok (new_approval W ledger d reason by until fresh now))
        × (is_plain_approved W ledger d later s' ≡ not (expired W ledger until later))
        × ((reason' by' : String) (until' : Option ℕ) (fresh' : String)
            → approve_plain W ledger d reason' by' until' fresh' later s'
              ≡ (err (pii_approval_conflict fresh), s'))
  unfolding approve_plain
  approve_plain_lem s d reason by until fresh now later e =
      let new = new_approval W ledger d reason by until fresh now in
      let s' = (approve_plain W ledger d reason by until fresh now s).1 in
      let stored = now_active s d reason by until fresh now e in
      (
        ground (arith, e),
        active_approved s' d new later stored,
        λ reason' by' until' fresh'.
            active_conflict s' d new reason' by' until' fresh' later stored,
      )

  -- After `revoke_active` of a domain, whether it succeeds or not, the domain is not approved.
  pub revoke_active_lem :
      (s : Service W) (d by reason : String) (now later : ℕ)
      → is_plain_approved W ledger d later (revoke_active W ledger d by reason now s).1 ≡ false
  unfolding revoke_active is_plain_approved
  revoke_active_lem s d by reason now later = elim (Option-cases (get s.active d)) [
    | inl gone ↦ ground (arith, gone)
    | inr (r, old) ↦ ground (arith, old, get-pop_self s.active d)
  ]

  -- Neither operation changes the answer for another domain.
  pub is_plain_approved-others :
      (s : Service W) (d d' reason by : String) (until : Option ℕ) (fresh : String) (now later : ℕ)
      → d ≢ d'
      → (is_plain_approved W ledger d' later
            (approve_plain W ledger d reason by until fresh now s).1
          ≡ is_plain_approved W ledger d' later s)
        × (is_plain_approved W ledger d' later (revoke_active W ledger d by reason now s).1
            ≡ is_plain_approved W ledger d' later s)
  unfolding revoke_active approve_plain
  is_plain_approved-others s d d' reason by until fresh now later ne =
      let new = new_approval W ledger d reason by until fresh now in
      (
        same_approved (approve_plain W ledger d reason by until fresh now s).1 s d' later
            (elim (Option-cases (get s.active d)) [
              | inl gone ↦ ground (arith, gone, get-set_item_ne s.active d d' new ne)
              | inr (r, old) ↦ ground (arith, old)
            ]),
        same_approved (revoke_active W ledger d by reason now s).1 s d' later
            (elim (Option-cases (get s.active d)) [
              | inl gone ↦ ground (arith, gone)
              | inr (r, old) ↦ ground (arith, old, get-pop_ne s.active d d' ne)
            ]),
      )
