-- ===== src/Tenant/Records.antt =====
-- What `InMemoryTenantLifecycleService` (backend/app/services/tenant_lifecycle_service.py) keeps and is
-- given: tenants, errors, the ledger's entries, the collaborators, and the transitions of a status.
use domainrag_ops.Prelude.{
  ℕ, String, Bool, false, Option, none, some, List, [], ◌∷◌, ◌==◌, string_eq, any,
}
use domainrag_ops.Dict.{Dict, get}

pub record TenantRecord : Type 0 where
  pub domain_id : String
  pub display_name : String
  pub domain_type : Option String
  pub embedding_model : String
  pub embedding_migration_state : String
  pub status : String
  pub enrollment_policy : String
  pub modules : List String
  pub created_at : ℕ
  pub updated_at : ℕ
  pub delete_status : Option String
  pub deleted_at : Option ℕ

pub data Error : Type 0 where
  tenant_not_found : String → Error
  tenant_conflict : String → Error
  invalid_transition : String → String → Error
  tenant_not_archived : String → String → Error

pub record DeleteFailure : Type 0 where
  pub domain_id : String
  pub failed_step : String
  pub error_message : String
  pub created_at : ℕ

-- The `details` that each action publishes to the ledger.
pub data Details : Type 0 where
  registered : String → Details
  policy_changed : String → Details
  status_changed : String → String → Option String → Details
  hard_deleted : String → Option String → List String → Details

pub record AdminAction : Type 0 where
  pub actor : String
  pub action : String
  pub domain_id : String
  pub details : Details

-- A call of a collaborator: `some e` where it raises an exception with the text `e`.
abbrev pub Effect : Type 0 → Type 0
Effect W = W → Option String × W

pub record VectorStore (W : Type 0) : Type 0 where
  pub create_collection : String → ℕ → Effect W
  pub delete_collection : String → Effect W

-- What the constructor is given; `none` where an argument is `None`.
pub record Environment (W : Type 0) : Type 0 where
  pub vector_store : Option (VectorStore W)
  pub storage : Option (String → String → Effect W)
  pub dim_provider : ℕ
  pub ledger : Option (AdminAction → Effect W)

pub record Service (W : Type 0) : Type 0 where
  pub tenants : Dict String TenantRecord
  pub delete_failures : List DeleteFailure
  pub world : W

-- ADR-012 §2
abbrev pub transitions : Dict String (List String)
transitions =
    ("active", "suspended" ∷ "archived" ∷ [])
    ∷ ("suspended", "active" ∷ "archived" ∷ [])
    ∷ ("archived", "active" ∷ [])
    ∷ ("deleted", [])
    ∷ []

-- `to_status in _TRANSITIONS.get(rec.status, set())`
unfoldable pub allowed : String → String → Bool
unfolding get
allowed frm to = elim (get transitions frm) [ none ↦ false | some tos ↦ any (λ s. s == to) tos ]
