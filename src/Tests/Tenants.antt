-- ===== src/Tests/Tenants.antt =====
-- An archived and a deleted tenant, and collaborators of which the storage fails.
use domainrag_ops.Prelude.{ℕ, ◌+◌, String, ◌≡◌, refl, Option, none, some, List, [], ◌∷◌, string_eq}
use domainrag_ops.Prelude.Result.{err}
use domainrag_ops.Dict.{get}
use domainrag_ops.Tenant.{register, delete_steps}
use domainrag_ops.Tenant.Records.{TenantRecord, tenant_conflict, Environment, Service, VectorStore}
use domainrag_ops.Tenant.Status.{Call, status_call, delete_call, run, deleted_is_final}

-- The world counts the calls.
abbrev collections : VectorStore ℕ
collections = record {
  create_collection = λ d dim w. (none, w + 1);
  delete_collection = λ d w. (none, w + 1);
}

abbrev storage : String → String → ℕ → Option String × ℕ
storage d prefix w = (some "down", w + 1)

abbrev env : Environment ℕ
env = record {
  vector_store = some collections;
  storage = some storage;
  dim_provider = 1024;
  ledger = some (λ a w. (none, w + 1));
}

abbrev tenant : String → String → TenantRecord
tenant d status = record {
  domain_id = d;
  display_name = d;
  domain_type = none;
  embedding_model = "bge-m3";
  embedding_migration_state = "idle";
  status = status;
  enrollment_policy = "open";
  modules = "rag" ∷ [];
  created_at = 1;
  updated_at = 1;
  delete_status = none;
  deleted_at = none;
}

abbrev service : Service ℕ
service = record {
  tenants =
      ("law", tenant "law" "archived")
      ∷ ("hr", tenant "hr" "active")
      ∷ ("old", tenant "old" "deleted")
      ∷ [];
  delete_failures = [];
  world = 0;
}

one_step_failed : (delete_steps ℕ env "law" 0).0 ≡ ("storage", "down") ∷ []
unfolding delete_steps
one_step_failed = refl

abbrev logged : String → ℕ
logged step = 6

abbrev revival : List Call
revival = status_call "old" "active" "kim" none 8 ∷ delete_call "old" "kim" "again" 9 logged ∷ []

deleted_is_final_example :
    ((r' : TenantRecord) × (get (run ℕ env revival service).tenants "old" ≡ some r')
      × (r'.status ≡ "deleted"))
    × ((name : String) (type : _) (modules : List String) (policy actor : String) (c u : ℕ)
        → register ℕ env "old" name type modules policy actor c u (run ℕ env revival service)
          ≡ (err (tenant_conflict "old"), run ℕ env revival service))
deleted_is_final_example =
    deleted_is_final ℕ env revival service "old" (tenant "old" "deleted") (unfold get in refl) refl
