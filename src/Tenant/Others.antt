-- ===== src/Tenant/Others.antt =====
-- A call for one tenant and the other tenants; a call that raises
-- (backend/app/services/tenant_lifecycle_service.py).
use domainrag_ops.Prelude.{
  ℕ, String, ◌≡◌, ◌≢◌, refl, Bool, List, [], ◌∷◌, ◌++◌, arith, eq_iff, ◌==◌, string_eq, keep,
  append-nil,
}
use domainrag_ops.Prelude.Result.{Result, err}
use domainrag_ops.Dict.{get, get-set_item_ne}
use domainrag_ops.Tenant.{
  publish, register, set_enrollment_policy, update_status, hard_delete, dead_letters, delete_steps,
  list_delete_failures,
}
use domainrag_ops.Tenant.Records.{TenantRecord, Error, DeleteFailure, Environment, Service}
use domainrag_ops.Tenant.Status.{
  Call, register_call, policy_call, status_call, delete_call, perform,
}

abbrev pub target : Call → String
target (register_call d _ _ _ _ _ _ _) = d
target (policy_call d _ _) = d
target (status_call d _ _ _ _) = d
target (delete_call d _ _ _ _) = d

keep-append :
    (p : DeleteFailure → Bool) (xs ys : List DeleteFailure)
    → keep p (xs ++ ys) ≡ keep p xs ++ keep p ys
keep-append p [] ys = refl
keep-append p (x ∷ xs) ys = ground (arith, keep-append p xs ys)

module _ (W : Type 0) (env : Environment W) where
  dead_letters_other :
      (dom d : String) (now : String → ℕ) (fs : List (String × String))
      → dom ≢ d
      → keep (λ f. f.domain_id == d) (dead_letters W env dom now fs) ≡ []
  dead_letters_other dom d now [] h = refl
  dead_letters_other dom d now ((step, e) ∷ fs) h =
      ground (arith, eq_iff dom d, dead_letters_other dom d now fs h)

  pub dead_letters_self :
      (d : String) (now : String → ℕ) (fs : List (String × String))
      → keep (λ f. f.domain_id == d) (dead_letters W env d now fs) ≡ dead_letters W env d now fs
  dead_letters_self d now [] = refl
  dead_letters_self d now ((step, e) ∷ fs) = ground (arith, eq_iff d d, dead_letters_self d now fs)

  pub failures-append :
      (d : String) (xs ys : List DeleteFailure)
      → keep (λ f. f.domain_id == d) (xs ++ ys)
        ≡ keep (λ f. f.domain_id == d) xs ++ keep (λ f. f.domain_id == d) ys
  failures-append d xs ys = keep-append (λ f. f.domain_id == d) xs ys

  -- A call for one tenant leaves the record and the delete failures of every other tenant alone.
  pub perform_other :
      (c : Call) (s : Service W) (d : String)
      → target c ≢ d
      → (get (perform W env c s).tenants d ≡ get s.tenants d)
        × (list_delete_failures W env d (perform W env c s) ≡ list_delete_failures W env d s)
  unfolding perform register set_enrollment_policy update_status hard_delete publish
      list_delete_failures
  perform_other (register_call dom name type modules policy actor c u) s d h =
      (grind (arith, get-set_item_ne), ground arith)
  perform_other (policy_call dom policy actor) s d h =
      (grind (arith, get-set_item_ne), ground arith)
  perform_other (status_call dom to actor reason now) s d h =
      (grind (arith, get-set_item_ne), ground arith)
  perform_other (delete_call dom actor reason now logged) s d h = (
    grind (arith, get-set_item_ne),
    ground (
      arith,
      failures-append d s.delete_failures
          (dead_letters W env dom logged (delete_steps W env dom s.world).0),
      dead_letters_other dom d logged (delete_steps W env dom s.world).0 h,
      append-nil (list_delete_failures W env d s),
    ),
  )

  abbrev pub reply : Call → Service W → Result Error TenantRecord
  reply (register_call d name type modules policy actor c u) s =
      (register W env d name type modules policy actor c u s).0
  reply (policy_call d policy actor) s = (set_enrollment_policy W env d policy actor s).0
  reply (status_call d to actor reason now) s = (update_status W env d to actor reason now s).0
  reply (delete_call d actor reason now logged) s =
      (hard_delete W env d actor reason now logged s).0

  -- A call that raises changes nothing: no record, no failure list, no collaborator.
  pub error_changes_nothing :
      (c : Call) (s : Service W) (e : Error) → reply c s ≡ err e → perform W env c s ≡ s
  unfolding perform register set_enrollment_policy update_status hard_delete publish
  error_changes_nothing (register_call d name type modules policy actor c u) s e h = ground arith
  error_changes_nothing (policy_call d policy actor) s e h = ground arith
  error_changes_nothing (status_call d to actor reason now) s e h = ground arith
  error_changes_nothing (delete_call d actor reason now logged) s e h = ground arith
