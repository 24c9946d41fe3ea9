-- ===== src/Tenant/Deletion.antt =====
-- `hard_delete` and its dead letters (backend/app/services/tenant_lifecycle_service.py).
use domainrag_ops.Prelude.{
  ℕ, String, ◌≡◌, ◌≢◌, Option, none, some, List, ◌++◌, arith, eq_iff, string_eq, ◌↔◌,
}
use domainrag_ops.Prelude.Result.{ok, err}
use domainrag_ops.Dict.{get, get-set_item_self}
use domainrag_ops.Tenant.{
  publish, hard_delete, dead_letters, delete_steps, deleted_record, list_delete_failures, outcome,
}
use domainrag_ops.Tenant.Records.{
  TenantRecord, tenant_not_archived, Environment, Service, VectorStore,
}
use domainrag_ops.Tenant.Others.{dead_letters_self, failures-append}

module _ (W : Type 0) (env : Environment W) (d actor reason : String) (now : ℕ)
    (logged : String → ℕ) (s : Service W) (rec : TenantRecord) where
  abbrev pub after_delete : Service W
  after_delete = (hard_delete W env d actor reason now logged s).1

  abbrev pub failed_steps : List (String × String)
  failed_steps = (delete_steps W env d s.world).0

  -- Deleting an archived tenant answers with the deleted record, which the service keeps, and adds
  -- exactly the failed steps to the tenant's dead letters.
  pub hard_delete-archived :
      get s.tenants d ≡ some rec
      → rec.status ≡ "archived"
      → ((hard_delete W env d actor reason now logged s).0
          ≡ ok (deleted_record W env d s.world now rec))
        × (get after_delete.tenants d ≡ some (deleted_record W env d s.world now rec))
        × (list_delete_failures W env d after_delete
            ≡ list_delete_failures W env d s ++ dead_letters W env d logged failed_steps)
  unfolding hard_delete publish list_delete_failures
  hard_delete-archived e a = (
    ground (arith, e, a, eq_iff rec.status "archived"),
    ground (
      arith,
      e,
      a,
      eq_iff rec.status "archived",
      get-set_item_self s.tenants d (deleted_record W env d s.world now rec),
    ),
    ground (
      arith,
      e,
      a,
      eq_iff rec.status "archived",
      failures-append W env d s.delete_failures (dead_letters W env d logged failed_steps),
      dead_letters_self W env d logged failed_steps,
    ),
  )

  -- A tenant that is not archived is not deleted: the call raises, and nothing has changed.
  pub hard_delete_refused :
      get s.tenants d ≡ some rec
      → rec.status ≢ "archived"
      → hard_delete W env d actor reason now logged s ≡ (err (tenant_not_archived d rec.status), s)
  unfolding hard_delete
  hard_delete_refused e a = ground (arith, e, a, eq_iff rec.status "archived")

-- The deletion is "completed" exactly if neither the vector store nor the storage raised.
module _ (W : Type 0) (env : Environment W) (d : String) where
  pub outcome_completed :
      (vs : VectorStore W) (delete : String → String → W → Option String × W)
      → env.vector_store ≡ some vs
      → env.storage ≡ some delete
      → (w : W)
      → (outcome W env (delete_steps W env d w).0 ≡ "completed") ↔ (
          ((vs.delete_collection d w).0 ≡ none)
          × ((delete d "" (vs.delete_collection d w).1).0 ≡ none))
  unfolding delete_steps
  outcome_completed vs delete ev es w = (
    λ h. (
      ground (arith, ev, es, h, eq_iff "partial" "completed"),
      ground (arith, ev, es, h, eq_iff "partial" "completed"),
    ),
    λ h. ground (arith, ev, es, h),
  )
