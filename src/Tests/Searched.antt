-- ===== src/Tests/Searched.antt =====
-- A question of a user of the domain "law", over the store of the tests.
use domainrag_ops.Prelude.{String, ◌≡◌, refl, false, none, some, [], ◌∷◌, All, arith}
use domainrag_ops.Payload.{Value}
use domainrag_ops.VectorStore.{Fault}
use domainrag_ops.Retrieval.{rerank}
use domainrag_ops.Retrieval.Contexts.{retrieve_from, rerank-Selects, some-Selects}
use domainrag_ops.Workflow.{RagState, UserContext, TenantConfig, Raised}
use domainrag_ops.Workflow.Searching.{build_acl_filter_node, load_tenant_config_node, search_node}
use domainrag_ops.Workflow.Graph.{
  Node, tenant_resolver, load_tenant_config, build_acl_filter, retrieve_context, run_from,
}
use domainrag_ops.Workflow.Ends.{Finally}
use domainrag_ops.Workflow.Admitted.{IsReadable, scope_of, is_setter, run_from-IsReadable}
use domainrag_ops.Tests.Floats.{thousandths}
use domainrag_ops.Tests.Stores.{store}
use domainrag_ops.Tests.Asked.{asked}

abbrev kim_of_law : UserContext
kim_of_law = record {
  user_id = some "kim";
  clearance = some "confidential";
  department = some "security";
  domain_groups = none;
}

abbrev asks_law : RagState thousandths
asks_law = record asked { domain_id = "law"; user_context = some kim_of_law }

abbrev loader : String → TenantConfig thousandths
loader domain_id = asked.tenant_config

abbrev show : Value → String
show v = "value"

abbrev raised : Fault → Raised
raised f = record { name = "KeyError"; detail = "" }

abbrev search : RagState thousandths → RagState thousandths
search =
    search_node thousandths raised
      (retrieve_from thousandths show (λ q. (1000 ∷ [], [])) (some (rerank thousandths)) store)

abbrev effect : Node → RagState thousandths → RagState thousandths
effect load_tenant_config s = load_tenant_config_node thousandths loader s
effect build_acl_filter s = build_acl_filter_node thousandths (some "2026-03-01") s
effect retrieve_context s = search s
effect _ s = s

keeps :
    (n : Node) (s : RagState thousandths)
    → is_setter n ≡ false
    → scope_of thousandths (effect n s) ≡ scope_of thousandths s
keeps load_tenant_config s e = absurd (ground (arith, e))
keeps build_acl_filter s e = absurd (ground (arith, e))
keeps retrieve_context s e = absurd (ground (arith, e))
keeps _ s e = refl

run_from-IsReadable_example :
    Finally thousandths
      (λ last.
        All
          (IsReadable thousandths show
            (λ q. (1000 ∷ [], []))
            (some (rerank thousandths))
            store
            (some "2026-03-01")
            loader
            "law"
            (some kim_of_law))
          last.final_contexts)
      (run_from thousandths effect 22 tenant_resolver asks_law)
run_from-IsReadable_example =
    run_from-IsReadable thousandths show (λ q. (1000 ∷ [], [])) (some (rerank thousandths)) store
      (some "2026-03-01") loader "law" (some kim_of_law)
      (some-Selects thousandths (rerank thousandths) (rerank-Selects thousandths)) raised effect
      (λ s. refl) (λ s. refl) (λ s. refl) keeps asks_law refl refl refl
