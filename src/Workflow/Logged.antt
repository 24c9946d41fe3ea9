-- ===== src/Workflow/Logged.antt =====
-- The chat log of a run (`save_chat_log_node` of rag_core/workflows/nodes.py): what is kept of the
-- question.
pub mod Question
use domainrag_ops.Prelude.{
  ℕ, String, ◌≡◌, refl, sym, subst, Bool, true, false, not, ◌&&◌, ◌==◌, string_eq, Option, none,
  some, List, [], ◌∷◌, map, if◌then◌else◌, Bool-cases, inl, inr, arith,
}
use domainrag_ops.Prelude.Float.{FloatOps}
use domainrag_ops.Payload.{Payload, Value, Finding}
use domainrag_ops.Pii.{PiiConfig, PiiDetector, StoragePiiDecision, mask_for_storage}
use domainrag_ops.Retrieval.{RetrievedChunk}
use domainrag_ops.Workflow.{RagState, Failure}

-- An entry of `retrieved_excerpts`.
pub record Excerpt (fl : FloatOps) : Type 0 where
  pub chunk_id : String
  pub doc_id : String
  pub title : String
  pub page_number : Value
  pub section_title : Value
  pub fused_score : fl.Float
  pub rerank_score : Option fl.Float
  pub content : String

-- `routing_decision`
pub record RoutingLog : Type 0 where
  pub matched_rule : Option String
  pub selected_model : Option String
  pub selected_lora : Option String
  pub use_rag : Bool
  pub ui_mode : String
  pub grounding : String
  pub retrieval_error : Option String

-- `ChatLogPayload`, by the fields that stand in the modelled state.
pub record ChatLogPayload (fl : FloatOps) : Type 0 where
  pub domain_id : String
  pub question : String
  pub answer : String
  pub retrieved_chunks : List (Excerpt fl)
  pub citations : List Payload
  pub citation_types : List String
  pub rewritten_query : Option String
  pub llm_model : Option String
  pub lora_adapter : Option String
  pub ui_mode : String
  pub confidence : fl.Float
  pub fallback_reason : Option String
  pub routing_decision : RoutingLog
  pub model_failure_chain : List Failure
  pub input_pii_found : List Finding
  pub output_pii_masked : List Finding
  pub pii_storage_policy : String

-- `x or d`
abbrev pub nonempty_or : String → String → String
nonempty_or x d = if x == "" then d else x

abbrev none_if_empty : String → Option String
none_if_empty x = if x == "" then none else some x

module _ (fl : FloatOps) where
  abbrev pub excerpt_of : RetrievedChunk fl → Excerpt fl
  excerpt_of c = record {
    chunk_id = c.chunk_id;
    doc_id = c.doc_id;
    title = c.title;
    page_number = c.page_number;
    section_title = c.section_title;
    fused_score = c.fused_score;
    rerank_score = c.rerank_score;
    content = c.content;
  }

  abbrev pub chat_log : RagState fl → ChatLogPayload fl
  chat_log s = record {
    domain_id = s.domain_id;
    question = nonempty_or s.question_for_storage s.question;
    answer = s.final_answer;
    retrieved_chunks = map excerpt_of s.final_contexts;
    citations = s.citations;
    citation_types = s.citation_types;
    rewritten_query = none_if_empty s.rewritten_query;
    llm_model = s.selected_model;
    lora_adapter = s.selected_lora;
    ui_mode = s.ui_mode;
    confidence = s.confidence;
    fallback_reason = s.fallback_reason;
    routing_decision = record {
      matched_rule = s.matched_rule;
      selected_model = s.selected_model;
      selected_lora = s.selected_lora;
      use_rag = s.use_rag;
      ui_mode = s.ui_mode;
      grounding = s.grounding;
      retrieval_error = s.retrieval_error;
    };
    model_failure_chain = s.model_failure_chain;
    input_pii_found = s.input_pii_found;
    output_pii_masked = s.output_pii_masked;
    pii_storage_policy = nonempty_or s.pii_storage_policy "mask";
  }

  -- The logs after the node; there may be no writer.
  unfoldable pub save_chat_log_node :
      Bool → RagState fl → List (ChatLogPayload fl) → List (ChatLogPayload fl)
  save_chat_log_node false s logs = logs
  save_chat_log_node true s logs = chat_log s ∷ logs
