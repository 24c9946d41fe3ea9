-- ===== src/Workflow/Logged/Question.antt =====
-- The question that the chat log keeps after a run (rag_core/workflows/rag_graph.py with the nodes of
-- rag_core/workflows/nodes.py and rag_core/services/pii_service.py).
use domainrag_ops.Prelude.{
  String, ◌≡◌, refl, sym, subst, Bool, true, false, not, ◌&&◌, ◌==◌, string_eq, some, if◌then◌else◌,
  Bool-cases, inl, inr, arith,
}
use domainrag_ops.Prelude.Float.{FloatOps}
use domainrag_ops.Pii.{PiiConfig, PiiDetector, StoragePiiDecision, mask_for_storage}
use domainrag_ops.Workflow.{RagState}
use domainrag_ops.Workflow.Response.{check_input_pii_node}
use domainrag_ops.Workflow.Graph.{
  Node, tenant_resolver, load_tenant_config, check_input_pii, build_acl_filter, classify_query,
  model_router, query_rewrite, retrieve_context, gate_1, assessment, generate_answer,
  generate_ungrounded, parse_response, verify_tier1, detect_conflict_heuristic, verify_tier2,
  judge_inference, detect_unsupported, assemble_response, mask_response_pii, compute_confidence,
  gate_2, fallback, save_chat_log, end, next_node, is_end, run_from, check_input_pii_router,
  assessment_intent_router, gate_1_full_router, post_mask_grounding_router, gate_2_router,
}
use domainrag_ops.Workflow.Ends.{Finally, Finally-map, run_from-Finally}
use domainrag_ops.Workflow.Logged.{chat_log, nonempty_or}

abbrev is_before_check : Node → Bool
is_before_check tenant_resolver = true
is_before_check load_tenant_config = true
is_before_check check_input_pii = true
is_before_check _ = false

abbrev pub is_check : Node → Bool
is_check check_input_pii = true
is_check _ = false

-- The question, and what is kept of it.
pub record Kept : Type 0 where
  pub question : String
  pub question_for_storage : String
  pub policy : String

module _ (fl : FloatOps) where
  abbrev pub kept_of : RagState fl → Kept
  kept_of s = record {
    question = s.question;
    question_for_storage = s.question_for_storage;
    policy = s.pii_storage_policy;
  }

-- What the decision for storage leaves of the question.
abbrev pub question_kept : StoragePiiDecision → String → String
question_kept d question = if d.policy == "mask" && not (d.text == "") then d.text else question

abbrev unless_masked : StoragePiiDecision → String
unless_masked d = if d.policy == "mask" then d.text else ""

unless_masked_lem :
    (d : StoragePiiDecision) (question : String)
    → nonempty_or (unless_masked d) question ≡ question_kept d question
unless_masked_lem d question = elim (Bool-cases (d.policy == "mask")) [
  | inl masks ↦ elim (Bool-cases (d.text == "")) [
    | inl empty ↦ rw (masks, empty) refl
    | inr text ↦ rw (masks, text) refl
  ]
  | inr plain ↦ rw plain refl
]

module _ (fl : FloatOps) (detector : PiiDetector) (cfg : PiiConfig) (mode : String)
    (approved : Bool) (question : String) where
  -- The decision that check_input_pii takes.
  abbrev pub decision : StoragePiiDecision
  decision = mask_for_storage detector question cfg (some mode) approved

  abbrev Holds : Bool → Kept → Type 0
  Holds true k = (k.question ≡ question) × (k.question_for_storage ≡ "")
  Holds false k =
      (k.question ≡ question)
      × (k.question_for_storage ≡ unless_masked decision)
      × (k.policy ≡ decision.policy)

  abbrev Stands : Node → RagState fl → Type 0
  Stands n s = Holds (is_before_check n) (kept_of fl s)

  either :
      (b : Bool) (m k : Node) (s : RagState fl)
      → Stands m s
      → Stands k s
      → Stands (if b then m else k) s
  either true m k s h h' = h
  either false m k s h h' = h'

  checked :
      (s : RagState fl)
      → Holds true (kept_of fl s)
      → Holds false (kept_of fl (check_input_pii_node fl (some detector) cfg mode approved s))
  unfolding check_input_pii_node
  checked s (asked, empty) = (asked, rw (asked, empty) refl, rw asked refl)

  module _ (effect : Node → RagState fl → RagState fl)
      (checks : (s : RagState fl)
        → effect check_input_pii s ≡ check_input_pii_node fl (some detector) cfg mode approved s)
      (keeps : (n : Node) (s : RagState fl)
        → is_check n ≡ false
        → kept_of fl (effect n s) ≡ kept_of fl s) where
    kept :
        (b : Bool) (n : Node) (s : RagState fl)
        → is_check n ≡ false
        → Holds b (kept_of fl s)
        → Holds b (kept_of fl (effect n s))
    kept b n s e h = subst (Holds b) (sym (keeps n s e)) h

    stands :
        (n : Node) (s : RagState fl)
        → is_end fl n ≡ false
        → Stands n s
        → Stands (next_node fl n (effect n s)) (effect n s)
    unfolding next_node check_input_pii_router assessment_intent_router gate_1_full_router
        post_mask_grounding_router gate_2_router
    stands tenant_resolver s e h = kept true tenant_resolver s refl h
    stands load_tenant_config s e h = kept true load_tenant_config s refl h
    stands check_input_pii s e h =
        let k = subst (λ t. Holds false (kept_of fl t)) (sym (checks s)) (checked s h) in
        either _ fallback build_acl_filter (effect check_input_pii s) k k
    stands model_router s e h =
        let k = kept false model_router s refl h in
        either _ assessment query_rewrite (effect model_router s) k k
    stands gate_1 s e h =
        let k = kept false gate_1 s refl h in
        either _ generate_answer generate_ungrounded (effect gate_1 s) k k
    stands mask_response_pii s e h =
        let k = kept false mask_response_pii s refl h in
        either _ compute_confidence save_chat_log (effect mask_response_pii s) k k
    stands gate_2 s e h =
        let k = kept false gate_2 s refl h in either _ save_chat_log fallback (effect gate_2 s) k k
    stands build_acl_filter s e h = kept false build_acl_filter s refl h
    stands classify_query s e h = kept false classify_query s refl h
    stands query_rewrite s e h = kept false query_rewrite s refl h
    stands retrieve_context s e h = kept false retrieve_context s refl h
    stands assessment s e h = kept false assessment s refl h
    stands generate_answer s e h = kept false generate_answer s refl h
    stands generate_ungrounded s e h = kept false generate_ungrounded s refl h
    stands parse_response s e h = kept false parse_response s refl h
    stands verify_tier1 s e h = kept false verify_tier1 s refl h
    stands detect_conflict_heuristic s e h = kept false detect_conflict_heuristic s refl h
    stands verify_tier2 s e h = kept false verify_tier2 s refl h
    stands judge_inference s e h = kept false judge_inference s refl h
    stands detect_unsupported s e h = kept false detect_unsupported s refl h
    stands assemble_response s e h = kept false assemble_response s refl h
    stands compute_confidence s e h = kept false compute_confidence s refl h
    stands fallback s e h = kept false fallback s refl h
    stands save_chat_log s e h = kept false save_chat_log s refl h
    stands end s e h = absurd (ground (arith, e))

    -- Where check_input_pii has a detector, and no other node sets the question or what is kept of
    -- it, every run on a question ends, and the chat log of the final state keeps the masked text
    -- where the policy for storage comes out as "mask" and the masked text is not empty, and the
    -- question itself otherwise.
    pub run_from-question_kept :
        (s : RagState fl)
        → s.question ≡ question
        → s.question_for_storage ≡ ""
        → Finally fl
            (λ last. (chat_log fl last).question ≡ question_kept decision question)
            (run_from fl effect 22 tenant_resolver s)
    run_from-question_kept s asked empty =
        Finally-map fl (Stands end) _
          (λ last h. rw (h.0, h.1) (unless_masked_lem decision question))
          (run_from fl effect 22 tenant_resolver s)
          (run_from-Finally fl effect Stands stands 22 tenant_resolver s (omega arith)
            (asked, empty))
