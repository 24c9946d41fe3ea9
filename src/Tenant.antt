-- ===== src/Tenant.antt =====
-- `InMemoryTenantLifecycleService` (backend/app/services/tenant_lifecycle_service.py): registration,
-- status changes and hard deletion of tenants. The vector store, the object storage and the audit
-- ledger are collaborators that act on a world `W` and may raise; a time is what
-- `datetime.now` returned, as an argument.
pub mod Records
pub mod Status
pub mod Deletion
pub mod Others
use domainrag_ops.Tenant.Records.{
  TenantRecord, Error, DeleteFailure, AdminAction, Environment, Service, allowed, tenant_not_found,
  tenant_conflict, invalid_transition, tenant_not_archived, registered, policy_changed,
  status_changed, hard_deleted,
}
use domainrag_ops.Prelude.{
  ℕ, ◌+◌, String, Bool, true, false, not, Option, none, some, List, [], ◌∷◌, ◌++◌, ◌==◌, string_eq,
  any, map, keep, take, drop, sort_by, if◌then◌else◌,
}
use domainrag_ops.Prelude.Result.{Result, ok, err}
use domainrag_ops.Dict.{Dict, get, set_item, values}
use domainrag_ops.Payload.{text_lt}

module _ (W : Type 0) (env : Environment W) where
  abbrev pub Action : Type 0 → Type 0
  Action A = Service W → Result Error A × Service W

  publish_world : AdminAction → W → W
  publish_world a w = elim env.ledger [ none ↦ w | some call ↦ (call a w).1 ]

  -- `_publish`: an exception of the ledger is swallowed.
  unfoldable pub publish : AdminAction → Service W → Service W
  unfolding publish_world
  publish a s = record s { world = publish_world a s.world }

  abbrev pub or_default : List String → List String
  or_default [] = "rag" ∷ []
  or_default (m ∷ ms) = m ∷ ms

  create_step : String → W → W
  create_step domain_id w = elim env.vector_store [
    | none ↦ w
    | some vs ↦ (vs.create_collection domain_id env.dim_provider w).1
  ]

  -- The record with the defaults of the dataclass; `created` and `updated` are the times read.
  abbrev pub fresh : String → String → Option String → List String → String → ℕ → ℕ → TenantRecord
  fresh domain_id display_name domain_type modules enrollment_policy created updated = record {
    domain_id = domain_id;
    display_name = display_name;
    domain_type = domain_type;
    embedding_model = "bge-m3";
    embedding_migration_state = "idle";
    status = "active";
    enrollment_policy = enrollment_policy;
    modules = or_default modules;
    created_at = created;
    updated_at = updated;
    delete_status = none;
    deleted_at = none;
  }

  unfoldable pub register :
      String → String → Option String → List String → String → String → ℕ → ℕ → Action TenantRecord
  unfolding create_step
  register domain_id display_name domain_type modules enrollment_policy actor created updated s =
      let new =
        fresh domain_id display_name domain_type modules enrollment_policy created updated in
      elim (get s.tenants domain_id) [
        | some _ ↦ (err (tenant_conflict domain_id), s)
        | none ↦ (
          ok new,
          publish
              (record {
                actor = actor;
                action = "tenant_registered";
                domain_id = domain_id;
                details = registered display_name;
              })
              (record s {
                tenants = set_item s.tenants domain_id new;
                world = create_step domain_id s.world;
              }),
        )
      ]

  -- `get`
  abbrev pub get_tenant : String → Service W → Result Error TenantRecord
  get_tenant domain_id s = elim (get s.tenants domain_id) [
    | none ↦ err (tenant_not_found domain_id)
    | some rec ↦ ok rec
  ]

  abbrev pub with_tenant : String → (TenantRecord → Action TenantRecord) → Action TenantRecord
  with_tenant domain_id f s = elim (get_tenant domain_id s) [
    | ok rec ↦ f rec s
    | err e ↦ (err e, s)
  ]

  -- The record is the object that the dict holds, so an assignment to a field changes both.
  abbrev pub store : String → TenantRecord → Service W → Service W
  store domain_id rec s = record s { tenants = set_item s.tenants domain_id rec }

  unfoldable pub set_enrollment_policy : String → String → String → Action TenantRecord
  set_enrollment_policy domain_id enrollment_policy actor = with_tenant domain_id λ rec s.
      let rec' : TenantRecord = record rec { enrollment_policy = enrollment_policy } in
      (
        ok rec',
        publish
            (record {
              actor = actor;
              action = "tenant_enrollment_policy_changed";
              domain_id = domain_id;
              details = policy_changed enrollment_policy;
            })
            (store domain_id rec' s),
      )

  unfoldable pub update_status : String → String → String → Option String → ℕ → Action TenantRecord
  update_status domain_id to_status actor reason now = with_tenant domain_id λ rec s.
      let rec' : TenantRecord = record rec { status = to_status; updated_at = now } in
      if rec.status == to_status
      then (ok rec, s)
      else if not (allowed rec.status to_status)
      then (err (invalid_transition rec.status to_status), s)
      else (
        ok rec',
        publish
            (record {
              actor = actor;
              action = "tenant_status_changed";
              domain_id = domain_id;
              details = status_changed rec.status to_status reason;
            })
            (store domain_id rec' s),
      )

  abbrev failed : String → Option String → List (String × String)
  failed step none = []
  failed step (some e) = (step, e) ∷ []

  -- The two `try` blocks of `hard_delete`: the failed steps with their errors, and the world.
  unfoldable pub drop_collection_step : String → W → List (String × String) × W
  drop_collection_step domain_id w = elim env.vector_store [
    | none ↦ ([], w)
    | some vs ↦ let (e, w') = vs.delete_collection domain_id w in (failed "qdrant" e, w')
  ]

  unfoldable pub storage_step : String → W → List (String × String) × W
  storage_step domain_id w = elim env.storage [
    | none ↦ ([], w)
    | some delete ↦ let (e, w') = delete domain_id "" w in (failed "storage" e, w')
  ]

  unfoldable pub delete_steps : String → W → List (String × String) × W
  unfolding drop_collection_step storage_step
  delete_steps domain_id w =
      let (dropped, w') = drop_collection_step domain_id w in
      let (removed, w'') = storage_step domain_id w' in (dropped ++ removed, w'')

  abbrev pub outcome : List (String × String) → String
  outcome [] = "completed"
  outcome (f ∷ fs) = "partial"

  abbrev pub dead_letters : String → (String → ℕ) → List (String × String) → List DeleteFailure
  dead_letters domain_id now [] = []
  dead_letters domain_id now ((step, e) ∷ fs) =
      record { domain_id = domain_id; failed_step = step; error_message = e; created_at = now step }
      ∷ dead_letters domain_id now fs

  abbrev pub deleted_record : String → W → ℕ → TenantRecord → TenantRecord
  deleted_record domain_id w now rec = record rec {
    status = "deleted";
    delete_status = some (outcome (delete_steps domain_id w).0);
    deleted_at = some now;
    updated_at = now;
  }

  -- `now` is when the record was deleted, `logged step` when the failure of a step was written down.
  unfoldable pub hard_delete : String → String → String → ℕ → (String → ℕ) → Action TenantRecord
  hard_delete domain_id actor reason now logged = with_tenant domain_id λ rec s.
      let (fs, w) = delete_steps domain_id s.world in
      let rec' = deleted_record domain_id s.world now rec in
      if not (rec.status == "archived")
      then (err (tenant_not_archived domain_id rec.status), s)
      else (
        ok rec',
        publish
            (record {
              actor = actor;
              action = "tenant_hard_deleted";
              domain_id = domain_id;
              details = hard_deleted reason rec'.delete_status (map (λ f. f.0) fs);
            })
            (record s {
              tenants = set_item s.tenants domain_id rec';
              delete_failures = s.delete_failures ++ dead_letters domain_id logged fs;
              world = w;
            }),
      )

  unfoldable pub list_delete_failures : String → Service W → List DeleteFailure
  list_delete_failures domain_id s = keep (λ f. f.domain_id == domain_id) s.delete_failures

  by_domain : TenantRecord → TenantRecord → Bool
  by_domain y x = text_lt y.domain_id x.domain_id

  abbrev with_status : Option String → List TenantRecord → List TenantRecord
  with_status none ts = ts
  with_status (some st) ts = if st == "" then ts else keep (λ t. t.status == st) ts

  -- `list_`
  unfoldable pub list_tenants : Option String → ℕ → ℕ → Service W → List TenantRecord
  unfolding by_domain
  list_tenants status limit offset s =
      take limit (drop offset (sort_by by_domain (with_status status (values s.tenants))))
