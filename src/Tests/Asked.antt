-- ===== src/Tests/Asked.antt =====
-- Questions asked of the workflow, and what its nodes do with them.
use domainrag_ops.Prelude.{
  ℕ, String, if◌then◌else◌, ◌==◌, string_eq, ◌≡◌, refl, true, false, Option, none, some, [], ◌∷◌,
  arith,
}
use domainrag_ops.Prelude.Result.{Result, ok, err}
use domainrag_ops.Dict.{get}
use domainrag_ops.Payload.{atom, null}
use domainrag_ops.Pii.{
  PiiDetector, PiiFinding, PiiConfig, check_input, resolve_severity, resolve_action, input_finding,
}
use domainrag_ops.Retrieval.{RetrievedChunk}
use domainrag_ops.Workflow.{RagState, Gate1Thresholds, Raised, gate_1_node}
use domainrag_ops.Workflow.Generation.{StructuredAnswer, generate_answer_node, model_steps}
use domainrag_ops.Workflow.Graph.{
  Node, tenant_resolver, load_tenant_config, check_input_pii, fallback, save_chat_log, verify_tier2,
  run_from,
}
use domainrag_ops.Workflow.Response.{
  fallback_response, build_chat_response, check_input_pii_node, fallback_node, input_pii_text,
}
use domainrag_ops.Workflow.Ends.{Finally}
use domainrag_ops.Workflow.Logged.{chat_log, ChatLogPayload}
use domainrag_ops.Workflow.Logged.Question.{
  is_check, kept_of, question_kept, decision, run_from-question_kept,
}
use domainrag_ops.Workflow.Gate.{suffices, gate_1_node-suffices}
use domainrag_ops.Workflow.Chain.{
  Outcome, failures_before, first_answer, generate_answer_node-Outcome,
}
use domainrag_ops.Workflow.Blocked.{blocked_state, run_from-blocked}
use domainrag_ops.Tests.Floats.{thousandths, thousandths-laws}

abbrev card : PiiFinding
card = record {
  category = "card";
  severity = "high";
  position = (0, 4);
  matched_text = "4111";
  masked_form = "****";
}

abbrev pub cards : PiiDetector
cards = record { scan = λ t. card ∷ []; mask = λ t. ("****", card ∷ []) }

abbrev pub strict : PiiConfig
strict = record {
  severity_map = [];
  input = record { enable = some true; on_pii_found = ("high_severity", "block") ∷ [] };
  pii_storage_policy = none;
  indexing = record { enable = none; severity_threshold = none; block_indexing = none };
  response_enable = none;
}

abbrev passage : Option ℕ → RetrievedChunk thousandths
passage score = record {
  chunk_id = "c1";
  doc_id = "d1";
  title = "Leave";
  content = "Leave is granted.";
  page_number = atom null;
  section_title = atom null;
  dense_score = 500;
  sparse_score = 0;
  fused_score = 400;
  payload = [];
  rerank_score = score;
}

abbrev pub asked : RagState thousandths
asked = record {
  domain_id = "hr";
  user_context = none;
  tenant_config = record {
    exclude_archived = none;
    fused_k = none;
    rerank_k = none;
    context_k = none;
    bypass = none;
    routing_rules = [];
    routing_default = record { model = none; use_lora = none; use_rag = none; ui_mode = none };
    model = [];
  };
  acl_filter = none;
  rewritten_query = "";
  support_type = none;
  complexity = none;
  matched_rule = none;
  use_rag = true;
  ui_mode = "chat_structured";
  question = "4111: how long is leave?";
  query_type = none;
  selected_model = some "tenant_slm";
  selected_lora = some "hr-lora";
  retrieved_chunks = [];
  reranked_chunks = passage (some 700) ∷ passage none ∷ [];
  final_contexts = [];
  retrieval_error = none;
  gate1_passed = false;
  near_misses = [];
  grounding = "grounded";
  raw_response = "";
  answer_segments = record { text = "Card 4111."; citations = 1 ∷ []; support_type = none } ∷ [];
  final_answer = "Card 4111.";
  citations = [];
  citation_types = [];
  limitations = none;
  confidence = 0;
  gate2_passed = false;
  fallback_reason = none;
  error = none;
  model_failure_chain = [];
  input_blocked = false;
  blocked_categories = [];
  input_pii_found = [];
  output_pii_masked = [];
  pii_storage_policy = "mask";
  question_for_storage = "";
}

abbrev effect : Node → RagState thousandths → RagState thousandths
effect check_input_pii s = check_input_pii_node thousandths (some cards) strict "standard" false s
effect fallback s = fallback_node thousandths s
effect _ s = s

-- The embedder of tier 2 cannot be reached.
abbrev effect_or_raise : Node → RagState thousandths → Result String (RagState thousandths)
effect_or_raise verify_tier2 s = err "no embedder"
effect_or_raise n s = ok (effect n s)

abbrev write_log : ChatLogPayload thousandths → Result String String
write_log log = if log.question == "" then err "no question" else ok "conversation"

abbrev answered : RagState thousandths
answered = blocked_state thousandths cards strict "standard" false asked

run_from-blocked_example :
    (run_from thousandths effect 22 tenant_resolver asked
      ≡ some (
        tenant_resolver ∷ load_tenant_config ∷ check_input_pii ∷ fallback ∷ save_chat_log ∷ [],
        answered,
      ))
    × (build_chat_response thousandths answered
        ≡ fallback_response input_pii_text (record {
          reason = "input_pii_blocked";
          blocked_categories =
              (check_input cards "4111: how long is leave?" strict).blocked_categories;
          near_misses = [];
        }))
run_from-blocked_example =
    run_from-blocked thousandths cards strict "standard" false effect (λ s. refl) (λ s. refl) asked
      (unfold check_input get input_finding resolve_severity resolve_action in refl)

abbrev thresholds : Gate1Thresholds thousandths
thresholds = record { min_top1 = 600; min_strong = 1; strong_thr = 450 }

gate_1_node-suffices_example :
    (gate_1_node thousandths thresholds asked).gate1_passed
    ≡ suffices thousandths thousandths-laws thresholds (700 ∷ 400 ∷ [])
gate_1_node-suffices_example =
    gate_1_node-suffices thousandths thousandths-laws thresholds asked
      (ground arith, (ground arith, tt))

abbrev generate : String → Option String → Result Raised StructuredAnswer
generate model (some lora) = err (record { name = "TimeoutError"; detail = "vllm" })
generate model none = ok (record {
  raw_response = "{}";
  answer_segments = record { text = "Ten days."; citations = 1 ∷ []; support_type = none } ∷ [];
  limitations = none;
  parse_ok = true;
  parse_error = "";
})

generate_answer_node-Outcome_example :
    Outcome thousandths generate []
      (failures_before thousandths generate (model_steps thousandths "tenant_slm" (some "hr-lora")))
      (first_answer thousandths generate (model_steps thousandths "tenant_slm" (some "hr-lora")))
      (generate_answer_node thousandths generate asked)
generate_answer_node-Outcome_example = generate_answer_node-Outcome thousandths generate asked

keeps :
    (n : Node) (s : RagState thousandths)
    → is_check n ≡ false
    → kept_of thousandths (effect n s) ≡ kept_of thousandths s
unfolding fallback_node
keeps check_input_pii s e = absurd (ground (arith, e))
keeps fallback s e = refl
keeps _ s e = refl

run_from-question_kept_example :
    Finally thousandths
      (λ last.
        (chat_log thousandths last).question
        ≡ question_kept
            (decision thousandths cards strict "standard" false "4111: how long is leave?")
            "4111: how long is leave?")
      (run_from thousandths effect 22 tenant_resolver asked)
run_from-question_kept_example =
    run_from-question_kept thousandths cards strict "standard" false "4111: how long is leave?"
      effect (λ s. refl) keeps asked refl refl
