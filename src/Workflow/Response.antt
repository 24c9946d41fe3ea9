-- ===== src/Workflow/Response.antt =====
-- The nodes of the workflow that treat personal data, and the fallback
-- (rag_core/workflows/nodes.py), the routers, and the response that `_build_chat_response`
-- (backend/app/services/rag_service.py) makes of the final state.
use domainrag_ops.Prelude.{
  String, Bool, true, Option, none, some, List, [], ◌∷◌, ◌==◌, string_eq, map, if◌then◌else◌,
}
use Prim.Native.String.{◌++◌ as concat}
use domainrag_ops.Prelude.Float.{FloatOps}
use domainrag_ops.Prelude.Text.{join}
use domainrag_ops.Payload.{Payload, Finding}
use domainrag_ops.Pii.{
  PiiConfig, PiiDetector, InputPiiCheck, StoragePiiDecision, check_input, mask_for_storage,
  mask_output,
}
use domainrag_ops.Retrieval.{RetrievedChunk}
use domainrag_ops.Workflow.{RagState, AnswerSegment}

-- `_FALLBACK_DEFAULT_TEXT` and `_FALLBACK_INPUT_PII_TEXT`
abbrev pub default_text : String
default_text = "현재 등록된 문서에서 충분한 근거를 찾지 못했습니다."

abbrev pub input_pii_text : String
input_pii_text = "개인정보로 보이는 정보가 포함되어 있습니다. 민감한 정보를 제거하고 다시 시도해 주세요."

abbrev text_or_default : Option String → String → String
text_or_default none t = t
text_or_default (some s) t = if s == "" then t else s

-- What a fallback response says besides the answer.
pub record FallbackBlock (fl : FloatOps) : Type 0 where
  pub reason : String
  pub blocked_categories : List String
  pub near_misses : List (RetrievedChunk fl)

-- `_build_chat_response` without its ids, times and metadata.
pub data ChatResponse (fl : FloatOps) : Type 0 where
  fallback_response : String → FallbackBlock fl → ChatResponse fl
  success_response : String → List AnswerSegment → List Payload → Option String → ChatResponse fl

module _ (fl : FloatOps) where
  abbrev pub fallback_text : String → String
  fallback_text reason = if reason == "input_pii_blocked" then input_pii_text else default_text

  abbrev pub fallback_support : String → String
  fallback_support reason =
      if reason == "input_pii_blocked" then "input_pii_blocked" else "fallback"

  unfoldable pub fallback_node : RagState fl → RagState fl
  fallback_node s =
      let reason = text_or_default s.fallback_reason "unknown" in
      record s {
        answer_segments =
            record {
              text = fallback_text reason;
              citations = [];
              support_type = some (fallback_support reason);
            }
            ∷ [];
        limitations = some (concat "fallback_reason=" reason);
        final_answer = fallback_text reason;
        confidence = fl.of_ℕ 0;
      }

  -- The update of `check_input_pii_node`, by the check of the question and the decision for storage.
  abbrev checked_input : InputPiiCheck → StoragePiiDecision → RagState fl → RagState fl
  checked_input check storage s = record s {
    input_pii_found = check.findings;
    pii_storage_policy = storage.policy;
    question_for_storage =
        if storage.policy == "mask" then storage.text else s.question_for_storage;
    input_blocked = if check.blocked then true else s.input_blocked;
    fallback_reason = if check.blocked then some "input_pii_blocked" else s.fallback_reason;
    blocked_categories = if check.blocked then check.blocked_categories else s.blocked_categories;
  }

  -- `none` where there is no `pii_service`.
  unfoldable pub check_input_pii_node :
      Option PiiDetector → PiiConfig → String → Bool → RagState fl → RagState fl
  check_input_pii_node none cfg compliance_mode plain_approved s = s
  check_input_pii_node (some detector) cfg compliance_mode plain_approved s =
      checked_input (check_input detector s.question cfg)
        (mask_for_storage detector s.question cfg (some compliance_mode) plain_approved) s

  abbrev pub masked : List Finding → String → RagState fl → RagState fl
  masked [] text s = s
  masked (f ∷ fs) text s = record s { final_answer = text; output_pii_masked = f ∷ fs }

  unfoldable pub mask_response_pii_node : Option PiiDetector → PiiConfig → RagState fl → RagState fl
  mask_response_pii_node none cfg s = s
  mask_response_pii_node (some detector) cfg s =
      let result = mask_output detector s.final_answer cfg in
      if s.final_answer == "" then s else masked result.findings result.masked_text s

  abbrev segment_texts : List AnswerSegment → List String
  segment_texts segments = map (λ a. a.text) segments

  -- `state.get("final_answer") or "".join(...)`
  abbrev pub answer_text : RagState fl → String
  answer_text s =
      if s.final_answer == "" then join "" (segment_texts s.answer_segments) else s.final_answer

  abbrev fallback_block : String → RagState fl → FallbackBlock fl
  fallback_block reason s =
      if reason == "input_pii_blocked"
      then record { reason = reason; blocked_categories = s.blocked_categories; near_misses = [] }
      else record { reason = reason; blocked_categories = []; near_misses = s.near_misses }

  abbrev successful : RagState fl → ChatResponse fl
  successful s = success_response (answer_text s) s.answer_segments s.citations s.limitations

  abbrev pub response_for : Option String → RagState fl → ChatResponse fl
  response_for none s = successful s
  response_for (some reason) s =
      if reason == ""
      then successful s
      else fallback_response (text_or_default (some (answer_text s)) default_text)
          (fallback_block reason s)

  unfoldable pub build_chat_response : RagState fl → ChatResponse fl
  build_chat_response s = response_for s.fallback_reason s
