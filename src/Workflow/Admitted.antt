-- ===== src/Workflow/Admitted.antt =====
-- What a run of the graph gives to the model (rag_core/workflows/rag_graph.py with the nodes of
-- rag_core/workflows/nodes.py): chunks of the domain that pass the filter of the user, and no other.
use domainrag_ops.Prelude.{
  ℕ, String, ◌≡◌, refl, sym, ◌∙◌, ap, subst, Bool, true, false, Option, some, List, [], All,
  All-map, if◌then◌else◌, string_eq, arith,
}
use domainrag_ops.Prelude.Float.{FloatOps}
use domainrag_ops.Prelude.Result.{Result, ok, err}
use domainrag_ops.Dict.{Dict, get}
use domainrag_ops.Payload.{Value}
use domainrag_ops.Acl.Filter.{Filter}
use domainrag_ops.VectorStore.{Fault, Collection, Store}
use domainrag_ops.Retrieval.{RetrievedChunk, RetrievalResult, Reranker}
use domainrag_ops.Retrieval.Contexts.{Selects, IsAllowed, retrieve_from, retrieve_sound}
use domainrag_ops.Workflow.{RagState, UserContext, TenantConfig, Raised, retrieve_context_node}
use domainrag_ops.Workflow.Searching.{
  acl_filter_for, build_acl_filter_node, load_tenant_config_node, search_node, searched_text,
  retrieval_config_from_tenant, as_raised,
}
use domainrag_ops.Workflow.Graph.{
  Node, tenant_resolver, load_tenant_config, check_input_pii, build_acl_filter, classify_query,
  model_router, query_rewrite, retrieve_context, gate_1, assessment, generate_answer,
  generate_ungrounded, parse_response, verify_tier1, detect_conflict_heuristic, verify_tier2,
  judge_inference, detect_unsupported, assemble_response, mask_response_pii, compute_confidence,
  gate_2, fallback, save_chat_log, end, next_node, is_end, run_from, check_input_pii_router,
  assessment_intent_router, gate_1_full_router, post_mask_grounding_router, gate_2_router,
}
use domainrag_ops.Workflow.Ends.{Finally, run_from-Finally}

-- What the search depends on, and what it finds.
pub record Scope (fl : FloatOps) : Type 0 where
  pub domain_id : String
  pub user_context : Option UserContext
  pub tenant_config : TenantConfig fl
  pub acl_filter : Option Filter
  pub final_contexts : List (RetrievedChunk fl)

-- Before the configuration is loaded, before the filter is built, before the search, and after it.
pub data Phase : Type 0 where
  early loaded searching late : Phase

abbrev phase : Node → Phase
phase tenant_resolver = early
phase load_tenant_config = early
phase check_input_pii = loaded
phase build_acl_filter = loaded
phase classify_query = searching
phase model_router = searching
phase query_rewrite = searching
phase retrieve_context = searching
phase _ = late

-- The nodes that set one of the fields of the scope.
abbrev pub is_setter : Node → Bool
is_setter load_tenant_config = true
is_setter build_acl_filter = true
is_setter retrieve_context = true
is_setter _ = false

module _ (fl : FloatOps) where
  abbrev pub scope_of : RagState fl → Scope fl
  scope_of s = record {
    domain_id = s.domain_id;
    user_context = s.user_context;
    tenant_config = s.tenant_config;
    acl_filter = s.acl_filter;
    final_contexts = s.final_contexts;
  }

module _ (fl : FloatOps) (repr : Value → String)
    (embed_query : String → List fl.Float × Dict ℕ fl.Float) (rr : Option (Reranker fl))
    (store : Store fl) (today : Option String) (loader : String → TenantConfig fl)
    (domain_id : String) (user : Option UserContext) where
  -- The filter of the user in the domain.
  abbrev pub users_filter : Filter
  users_filter = acl_filter_for fl today user (loader domain_id)

  -- The chunk is a point of the domain's collection that passes the filter of the user.
  abbrev pub IsReadable : RetrievedChunk fl → Type 0
  IsReadable r =
      (coll : Collection fl) × (get store domain_id ≡ some coll)
      × IsAllowed fl repr embed_query rr coll (some users_filter) r

  abbrev Asks : Scope fl → Type 0
  Asks c = (c.domain_id ≡ domain_id) × (c.user_context ≡ user)

  abbrev Loaded : Scope fl → Type 0
  Loaded c = Asks c × (c.tenant_config ≡ loader domain_id)

  abbrev Holds : Phase → Scope fl → Type 0
  Holds early c = Asks c × (c.final_contexts ≡ [])
  Holds loaded c = Loaded c × (c.final_contexts ≡ [])
  Holds searching c = Loaded c × (c.acl_filter ≡ some users_filter) × (c.final_contexts ≡ [])
  Holds late c = All IsReadable c.final_contexts

  abbrev Stands : Node → RagState fl → Type 0
  Stands n s = Holds (phase n) (scope_of fl s)

  either :
      (b : Bool) (m k : Node) (s : RagState fl)
      → Stands m s
      → Stands k s
      → Stands (if b then m else k) s
  either true m k s h h' = h
  either false m k s h h' = h'

  none-IsReadable : (cs : List (RetrievedChunk fl)) → cs ≡ [] → All IsReadable cs
  none-IsReadable cs e = rw e tt

  found :
      ((f : Reranker fl) → rr ≡ some f → Selects fl f)
      → (raised : Fault → Raised) (s : RagState fl) → Holds searching (scope_of fl s)
      → (r : Result Fault (RetrievalResult fl))
      → retrieve_from fl repr embed_query rr store s.domain_id
          (searched_text fl s)
          s.acl_filter
          (retrieval_config_from_tenant fl s.tenant_config)
        ≡ r
      → Holds late (scope_of fl (retrieve_context_node fl (as_raised fl raised r) s))
  unfolding retrieve_context_node
  found sel raised s h (err e) q = tt
  found sel raised s (((here, _), _), built, _) (ok r) q =
      let (coll, there, allowed, _) =
        retrieve_sound fl repr embed_query rr sel store s.domain_id (searched_text fl s)
          s.acl_filter (retrieval_config_from_tenant fl s.tenant_config) r q in
      All-map
        (λ c a. (
          coll,
          ap (get store) (sym here) ∙ there,
          subst (λ f. IsAllowed fl repr embed_query rr coll f c) built a,
        ))
        r.contexts allowed

  module _ (sel : (f : Reranker fl) → rr ≡ some f → Selects fl f) (raised : Fault → Raised)
      (effect : Node → RagState fl → RagState fl)
      (loads : (s : RagState fl)
        → effect load_tenant_config s ≡ load_tenant_config_node fl loader s)
      (builds : (s : RagState fl) → effect build_acl_filter s ≡ build_acl_filter_node fl today s)
      (searches : (s : RagState fl)
        → effect retrieve_context s
          ≡ search_node fl raised (retrieve_from fl repr embed_query rr store) s)
      (keeps : (n : Node) (s : RagState fl)
        → is_setter n ≡ false
        → scope_of fl (effect n s) ≡ scope_of fl s) where
    kept :
        (p : Phase) (n : Node) (s : RagState fl)
        → is_setter n ≡ false
        → Holds p (scope_of fl s)
        → Holds p (scope_of fl (effect n s))
    kept p n s e h = subst (Holds p) (sym (keeps n s e)) h

    stands :
        (n : Node) (s : RagState fl)
        → is_end fl n ≡ false
        → Stands n s
        → Stands (next_node fl n (effect n s)) (effect n s)
    unfolding next_node load_tenant_config_node build_acl_filter_node search_node
        check_input_pii_router assessment_intent_router gate_1_full_router
        post_mask_grounding_router gate_2_router
    stands tenant_resolver s e h = kept early tenant_resolver s refl h
    stands load_tenant_config s e ((here, who), empty) =
        subst (λ t. Holds loaded (scope_of fl t)) (sym (loads s))
          (((here, who), ap loader here), empty)
    stands check_input_pii s e h =
        let k = kept loaded check_input_pii s refl h in
        either _ fallback build_acl_filter (effect check_input_pii s) (none-IsReadable _ k.1) k
    stands build_acl_filter s e (((here, who), config), empty) =
        subst (λ t. Holds searching (scope_of fl t)) (sym (builds s))
          (((here, who), config), rw (who, config) refl, empty)
    stands classify_query s e h = kept searching classify_query s refl h
    stands model_router s e h =
        let k = kept searching model_router s refl h in
        either _ assessment query_rewrite (effect model_router s) (none-IsReadable _ k.2) k
    stands query_rewrite s e h = kept searching query_rewrite s refl h
    stands retrieve_context s e h =
        subst (λ t. Holds late (scope_of fl t)) (sym (searches s)) (found sel raised s h _ refl)
    stands gate_1 s e h =
        let k = kept late gate_1 s refl h in
        either _ generate_answer generate_ungrounded (effect gate_1 s) k k
    stands mask_response_pii s e h =
        let k = kept late mask_response_pii s refl h in
        either _ compute_confidence save_chat_log (effect mask_response_pii s) k k
    stands gate_2 s e h =
        let k = kept late gate_2 s refl h in either _ save_chat_log fallback (effect gate_2 s) k k
    stands assessment s e h = kept late assessment s refl h
    stands generate_answer s e h = kept late generate_answer s refl h
    stands generate_ungrounded s e h = kept late generate_ungrounded s refl h
    stands parse_response s e h = kept late parse_response s refl h
    stands verify_tier1 s e h = kept late verify_tier1 s refl h
    stands detect_conflict_heuristic s e h = kept late detect_conflict_heuristic s refl h
    stands verify_tier2 s e h = kept late verify_tier2 s refl h
    stands judge_inference s e h = kept late judge_inference s refl h
    stands detect_unsupported s e h = kept late detect_unsupported s refl h
    stands assemble_response s e h = kept late assemble_response s refl h
    stands compute_confidence s e h = kept late compute_confidence s refl h
    stands fallback s e h = kept late fallback s refl h
    stands save_chat_log s e h = kept late save_chat_log s refl h
    stands end s e h = absurd (ground (arith, e))

    -- Where the nodes that set the tenant's configuration, the filter and the contexts are those of
    -- the code, and no other node sets them, a run for a user that starts without contexts ends, and
    -- then every context is a point of the domain's collection whose payload passes the filter that
    -- is built for the user, with the configuration that the loader gives for the domain. The
    -- reranker, if any, answers with candidates.
    pub run_from-IsReadable :
        (s : RagState fl)
        → s.domain_id ≡ domain_id
        → s.user_context ≡ user
        → s.final_contexts ≡ []
        → Finally fl
            (λ last. All IsReadable last.final_contexts)
            (run_from fl effect 22 tenant_resolver s)
    run_from-IsReadable s here who empty =
        run_from-Finally fl effect Stands stands 22 tenant_resolver s (omega arith)
          ((here, who), empty)
