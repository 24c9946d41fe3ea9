-- ===== src/Workflow/Generation.antt =====
-- The generation of an answer with its chain of models, and of an answer without sources
-- (rag_core/workflows/nodes.py).
use domainrag_ops.Prelude.{
  String, Bool, true, false, not, ◌&&◌, Option, none, some, List, [], ◌∷◌, ◌++◌, ◌==◌, string_eq,
  if◌then◌else◌,
}
use domainrag_ops.Prelude.Float.{FloatOps}
use domainrag_ops.Prelude.Text.{strip}
use domainrag_ops.Prelude.Result.{Result, ok, err}
use domainrag_ops.Workflow.{RagState, AnswerSegment, Failure, Raised}

-- What `generate_structured` returns.
pub record StructuredAnswer : Type 0 where
  pub raw_response : String
  pub answer_segments : List AnswerSegment
  pub limitations : Option String
  pub parse_ok : Bool
  pub parse_error : String

-- A step of the chain of models.
pub record ModelStep : Type 0 where
  pub model : String
  pub lora : Option String
  pub label : String

module _ (fl : FloatOps) where
  -- `steps` of `generate_answer_node`
  abbrev no_lora_step : String → Option String → List ModelStep
  no_lora_step model none = []
  no_lora_step model (some lora) =
      if model == "tenant_slm" && not (lora == "")
      then record { model = "tenant_slm"; lora = none; label = "tenant_slm_no_lora" } ∷ []
      else []

  abbrev shared_step : String → List ModelStep
  shared_step model =
      if model == "shared_llm"
      then []
      else record { model = "shared_llm"; lora = none; label = "shared_llm" } ∷ []

  abbrev pub model_or_default : Option String → String
  model_or_default none = "tenant_slm"
  model_or_default (some m) = if m == "" then "tenant_slm" else m

  unfoldable pub model_steps : String → Option String → List ModelStep
  model_steps model lora =
      record { model = model; lora = lora; label = "primary" }
      ∷ (no_lora_step model lora ++ shared_step model)

  abbrev pub is_nonempty : List AnswerSegment → Bool
  is_nonempty [] = false
  is_nonempty (_ ∷ _) = true

  abbrev pub failure_at : ModelStep → String → String → Failure
  failure_at step reason detail = record {
    model = step.model;
    lora = step.lora;
    label = step.label;
    reason = reason;
    detail = detail;
  }

  abbrev generated : ModelStep → StructuredAnswer → List Failure → RagState fl → RagState fl
  generated step a chain s = record s {
    raw_response = a.raw_response;
    answer_segments = a.answer_segments;
    limitations = a.limitations;
    selected_model = some step.model;
    selected_lora = step.lora;
    model_failure_chain = chain;
  }

  abbrev all_failed : String → List Failure → RagState fl → RagState fl
  all_failed last_raw chain s = record s {
    raw_response = last_raw;
    answer_segments = [];
    limitations = none;
    fallback_reason = some "low_generation_quality";
    error = some "all_models_failed";
    model_failure_chain = chain;
  }

  -- One round of the loop, with what follows after a failure.
  abbrev pub attempt :
      ModelStep
      → Result Raised StructuredAnswer
      → (String → Failure → RagState fl)
      → String
      → List Failure
      → RagState fl
      → RagState fl
  attempt step (err e) continue last_raw chain s =
      continue last_raw (failure_at step e.name e.detail)
  attempt step (ok a) continue last_raw chain s =
      if a.parse_ok && is_nonempty a.answer_segments
      then generated step a chain s
      else continue a.raw_response (failure_at step "parse_error" a.parse_error)

  -- The loop over the steps; `generate` is `generate_structured` of the model and the adapter.
  module _ (generate : String → Option String → Result Raised StructuredAnswer) where
    unfoldable pub try_steps : List ModelStep → String → List Failure → RagState fl → RagState fl
    try_steps [] last_raw chain s = all_failed last_raw chain s
    try_steps (step ∷ steps) last_raw chain s =
        attempt step (generate step.model step.lora)
          (λ raw failure. try_steps steps raw (chain ++ (failure ∷ [])) s) last_raw chain s

    unfoldable pub generate_answer_node : RagState fl → RagState fl
    generate_answer_node s =
        try_steps (model_steps (model_or_default s.selected_model) s.selected_lora) ""
          s.model_failure_chain s

  -- `generate_ungrounded_node`, by what `generate_conversational` returns or raises.
  unfoldable pub generate_ungrounded_node : Result Raised String → RagState fl → RagState fl
  generate_ungrounded_node (err e) s = record s {
    grounding = "ungrounded";
    answer_segments = [];
    final_answer = "";
    citations = [];
    citation_types = [];
    confidence = fl.of_ℕ 0;
    fallback_reason = some "low_generation_quality";
    error = some "ungrounded_generation_failed";
    model_failure_chain =
        s.model_failure_chain
        ++ (record {
          model = model_or_default s.selected_model;
          lora = s.selected_lora;
          label = "ungrounded";
          reason = e.name;
          detail = e.detail;
        }
            ∷ []);
  }
  generate_ungrounded_node (ok text) s = record s {
    grounding = "ungrounded";
    raw_response = text;
    answer_segments = record { text = strip text; citations = []; support_type = none } ∷ [];
    final_answer = strip text;
    citations = [];
    citation_types = [];
    confidence = fl.of_ℕ 0;
    fallback_reason = none;
  }
