-- ===== src/Workflow/Blocked.antt =====
-- A question whose personal data is blocked: the run of the graph
-- (rag_core/workflows/rag_graph.py) with `check_input_pii_node` and `fallback_node`
-- (rag_core/workflows/nodes.py).
use domainrag_ops.Prelude.{String, ◌≡◌, refl, ap, subst, ◌∙◌, Bool, true, some, [], ◌∷◌, string_eq}
use domainrag_ops.Prelude.Float.{FloatOps}
use domainrag_ops.Pii.{PiiConfig, PiiDetector, check_input}
use domainrag_ops.Workflow.{RagState}
use domainrag_ops.Workflow.Graph.{
  Node, tenant_resolver, load_tenant_config, check_input_pii, fallback, save_chat_log, run_from,
  next_node, check_input_pii_router,
}
use domainrag_ops.Workflow.Response.{
  fallback_response, build_chat_response, check_input_pii_node, fallback_node, input_pii_text,
}

module _ (fl : FloatOps) where
  run_from-input_blocked :
      (effect : Node → RagState fl → RagState fl) (s : RagState fl)
      → (effect check_input_pii
          (effect load_tenant_config (effect tenant_resolver s))).input_blocked
        ≡ true
      → run_from fl effect 22 tenant_resolver s
        ≡ some (
          tenant_resolver ∷ load_tenant_config ∷ check_input_pii ∷ fallback ∷ save_chat_log ∷ [],
          effect save_chat_log (
              effect fallback
                (effect check_input_pii (effect load_tenant_config (effect tenant_resolver s)))),
        )
  unfolding run_from next_node check_input_pii_router
  run_from-input_blocked effect s blocked = rw blocked refl

module _ (fl : FloatOps) (detector : PiiDetector) (cfg : PiiConfig) (mode : String)
    (approved : Bool) where
  -- What check_input_pii and then fallback make of a state.
  abbrev pub blocked_state : RagState fl → RagState fl
  blocked_state s = fallback_node fl (check_input_pii_node fl (some detector) cfg mode approved s)

  input_blocked-node :
      (s : RagState fl)
      → (check_input detector s.question cfg).blocked ≡ true
      → (check_input_pii_node fl (some detector) cfg mode approved s).input_blocked ≡ true
  unfolding check_input_pii_node
  input_blocked-node s blocked = rw blocked refl

  blocked_state-response :
      (s : RagState fl)
      → (check_input detector s.question cfg).blocked ≡ true
      → build_chat_response fl (blocked_state s)
        ≡ fallback_response input_pii_text (record {
          reason = "input_pii_blocked";
          blocked_categories = (check_input detector s.question cfg).blocked_categories;
          near_misses = [];
        })
  unfolding check_input_pii_node fallback_node build_chat_response
  blocked_state-response s blocked = rw blocked refl

  module _ (effect : Node → RagState fl → RagState fl)
      (checks : (s : RagState fl)
        → effect check_input_pii s ≡ check_input_pii_node fl (some detector) cfg mode approved s)
      (falls_back : (s : RagState fl) → effect fallback s ≡ fallback_node fl s) where
    -- Where the node check_input_pii has a detector, and its check of the question blocks it, a run
    -- goes to the fallback at once: no retrieval and no model runs. The state that the chat log
    -- gets makes the response that asks for the data to be removed, with the blocked categories of
    -- the check and no near misses.
    pub run_from-blocked :
        (s : RagState fl)
        → (check_input detector
            (effect load_tenant_config (effect tenant_resolver s)).question
            cfg).blocked
          ≡ true
        → (run_from fl effect 22 tenant_resolver s
            ≡ some (
              tenant_resolver ∷ load_tenant_config ∷ check_input_pii ∷ fallback ∷ save_chat_log
                  ∷ [],
              effect save_chat_log
                  (blocked_state (effect load_tenant_config (effect tenant_resolver s))),
            ))
          × (build_chat_response fl
                (blocked_state (effect load_tenant_config (effect tenant_resolver s)))
              ≡ fallback_response input_pii_text (record {
                reason = "input_pii_blocked";
                blocked_categories =
                    (check_input detector
                      (effect load_tenant_config (effect tenant_resolver s)).question
                      cfg).blocked_categories;
                near_misses = [];
              }))
    run_from-blocked s blocked =
        let t = effect load_tenant_config (effect tenant_resolver s) in
        (
          subst
              (λ u.
                run_from fl effect 22 tenant_resolver s
                ≡ some (
                  tenant_resolver ∷ load_tenant_config ∷ check_input_pii ∷ fallback ∷ save_chat_log
                      ∷ [],
                  effect save_chat_log u,
                ))
              (ap (effect fallback) (checks t) ∙ falls_back _)
              (run_from-input_blocked fl effect s
                (ap (λ u. u.input_blocked) (checks t) ∙ input_blocked-node t blocked)),
          blocked_state-response t blocked,
        )
