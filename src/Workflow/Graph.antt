-- ===== src/Workflow/Graph.antt =====
-- The graph of `build_chat_structured_full` (rag_core/workflows/rag_graph.py) with its routers
-- (rag_core/workflows/nodes.py), over any effects of the nodes on the state.
use domainrag_ops.Prelude.{
  ℕ, zero, suc, String, Bool, true, false, Option, none, some, List, [], ◌∷◌, ◌==◌, string_eq,
  if◌then◌else◌,
}
use domainrag_ops.Prelude.Float.{FloatOps}
use domainrag_ops.Workflow.{RagState}

pub data Node : Type 0 where
  tenant_resolver load_tenant_config check_input_pii build_acl_filter classify_query : Node
  model_router query_rewrite retrieve_context gate_1 assessment generate_answer : Node
  generate_ungrounded parse_response verify_tier1 detect_conflict_heuristic verify_tier2 : Node
  judge_inference detect_unsupported assemble_response mask_response_pii : Node
  compute_confidence gate_2 fallback save_chat_log end : Node

module _ (fl : FloatOps) where
  unfoldable pub check_input_pii_router : RagState fl → Node
  check_input_pii_router s = if s.input_blocked then fallback else build_acl_filter

  abbrev is_assessment : Option String → Bool
  is_assessment none = false
  is_assessment (some t) = t == "assessment_generation"

  unfoldable pub assessment_intent_router : RagState fl → Node
  assessment_intent_router s = if is_assessment s.query_type then assessment else query_rewrite

  unfoldable pub gate_1_full_router : RagState fl → Node
  gate_1_full_router s = if s.gate1_passed then generate_answer else generate_ungrounded

  unfoldable pub post_mask_grounding_router : RagState fl → Node
  post_mask_grounding_router s =
      if s.grounding == "grounded" then compute_confidence else save_chat_log

  -- "success" leads to save_chat_log.
  unfoldable pub gate_2_router : RagState fl → Node
  gate_2_router s = if s.gate2_passed then save_chat_log else fallback

  -- The edges; `end` is `END`.
  unfoldable pub next_node : Node → RagState fl → Node
  unfolding check_input_pii_router assessment_intent_router gate_1_full_router
      post_mask_grounding_router gate_2_router
  next_node tenant_resolver s = load_tenant_config
  next_node load_tenant_config s = check_input_pii
  next_node check_input_pii s = check_input_pii_router s
  next_node build_acl_filter s = classify_query
  next_node classify_query s = model_router
  next_node model_router s = assessment_intent_router s
  next_node assessment s = mask_response_pii
  next_node query_rewrite s = retrieve_context
  next_node retrieve_context s = gate_1
  next_node gate_1 s = gate_1_full_router s
  next_node generate_ungrounded s = mask_response_pii
  next_node generate_answer s = parse_response
  next_node parse_response s = verify_tier1
  next_node verify_tier1 s = detect_conflict_heuristic
  next_node detect_conflict_heuristic s = verify_tier2
  next_node verify_tier2 s = judge_inference
  next_node judge_inference s = detect_unsupported
  next_node detect_unsupported s = assemble_response
  next_node assemble_response s = mask_response_pii
  next_node mask_response_pii s = post_mask_grounding_router s
  next_node compute_confidence s = gate_2
  next_node gate_2 s = gate_2_router s
  next_node fallback s = save_chat_log
  next_node save_chat_log s = end
  next_node end s = end

  abbrev pub is_end : Node → Bool
  is_end end = true
  is_end _ = false

  abbrev pub prepend : Node → Option (List Node × RagState fl) → Option (List Node × RagState fl)
  prepend node none = none
  prepend node (some (nodes, last)) = some (node ∷ nodes, last)

  -- A run of the compiled graph from a node, with what each node does to the state: the nodes that
  -- run, and the final state; `none` where the fuel does not reach the end. These are the runs in
  -- which every node returns; `run_raising` has those in which a node raises.
  module _ (effect : Node → RagState fl → RagState fl) where
    unfoldable pub run_from : ℕ → Node → RagState fl → Option (List Node × RagState fl)
    run_from zero node s = if is_end node then some ([], s) else none
    run_from (suc fuel) node s =
        let t = effect node s in
        let rest = run_from fuel (next_node node t) t in
        if is_end node then some ([], s) else prepend node rest
