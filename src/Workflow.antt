-- ===== src/Workflow.antt =====
-- The nodes of the workflow of a question (rag_core/workflows/nodes.py on `RAGState` of
-- rag_core/workflows/rag_graph.py): the first check, the retrieval and gate 1.
-- A node's update is written into the state.
pub mod Generation
pub mod Response
pub mod Graph
pub mod Ends
pub mod Raising
pub mod Gate
pub mod Chain
pub mod Blocked
pub mod Searching
pub mod Admitted
pub mod Logged
pub mod Verification
use domainrag_ops.Prelude.{
  ℕ, String, Bool, true, false, not, ◌&&◌, ◌||◌, Option, none, some, List, [], ◌∷◌, ◌++◌, ◌==◌,
  string_eq, length, is_some, or_else, count_if, take, leb, map, if◌then◌else◌,
}
use Prim.Native.String.{◌++◌ as concat}
use domainrag_ops.Prelude.Float.{FloatOps}
use domainrag_ops.Prelude.Text.{strip, join}
use domainrag_ops.Prelude.Result.{Result, ok, err}
use domainrag_ops.Payload.{Payload, Finding}
use domainrag_ops.Retrieval.{RetrievedChunk, RetrievalResult}
use domainrag_ops.Dict.{Dict}
use domainrag_ops.Acl.Filter.{Filter}
use domainrag_ops.Routing.{Rule, Defaults}

-- A segment of an answer, by what these nodes read and write of it.
pub record AnswerSegment : Type 0 where
  pub text : String
  pub citations : List ℕ
  pub support_type : Option String

-- An entry of `model_failure_chain`.
pub record Failure : Type 0 where
  pub model : String
  pub lora : Option String
  pub label : String
  pub reason : String
  pub detail : String

-- The dict `user_context`; `none` where a key is missing.
pub record UserContext : Type 0 where
  pub user_id : Option String
  pub clearance : Option String
  pub department : Option String
  pub domain_groups : Option (List String)

-- The values of the tenant's configuration that these nodes read; `none` where a key is missing.
pub record TenantConfig (fl : FloatOps) : Type 0 where
  pub exclude_archived : Option Bool
  pub fused_k : Option ℕ
  pub rerank_k : Option ℕ
  pub context_k : Option ℕ
  pub bypass : Option Bool
  pub routing_rules : List (Rule fl)
  pub routing_default : Defaults fl
  pub model : Dict String (Option String)

-- The fields of `RAGState` that these nodes read or write. The dict of a chunk stands as the chunk: it
-- lacks the dense and the sparse score, which no node reads.
pub record RagState (fl : FloatOps) : Type 0 where
  pub domain_id : String
  pub user_context : Option UserContext
  pub tenant_config : TenantConfig fl
  pub acl_filter : Option Filter
  pub question : String
  pub rewritten_query : String
  pub query_type : Option String
  pub support_type : Option String
  pub complexity : Option String
  pub matched_rule : Option String
  pub use_rag : Bool
  pub ui_mode : String
  pub selected_model : Option String
  pub selected_lora : Option String
  pub retrieved_chunks : List (RetrievedChunk fl)
  pub reranked_chunks : List (RetrievedChunk fl)
  pub final_contexts : List (RetrievedChunk fl)
  pub retrieval_error : Option String
  pub gate1_passed : Bool
  pub near_misses : List (RetrievedChunk fl)
  pub grounding : String
  pub raw_response : String
  pub answer_segments : List AnswerSegment
  pub final_answer : String
  pub citations : List Payload
  pub citation_types : List String
  pub limitations : Option String
  pub confidence : fl.Float
  pub gate2_passed : Bool
  pub fallback_reason : Option String
  pub error : Option String
  pub model_failure_chain : List Failure
  pub input_blocked : Bool
  pub blocked_categories : List String
  pub input_pii_found : List Finding
  pub output_pii_masked : List Finding
  pub pii_storage_policy : String
  pub question_for_storage : String

-- An exception, by the name of its type and its text.
pub record Raised : Type 0 where
  pub name : String
  pub detail : String

-- `min_top1_rerank`, `min_strong_chunks` and `strong_chunk_threshold`
pub record Gate1Thresholds (fl : FloatOps) : Type 0 where
  pub min_top1 : fl.Float
  pub min_strong : ℕ
  pub strong_thr : fl.Float

module _ (fl : FloatOps) where
  unfoldable pub tenant_resolver_node : RagState fl → RagState fl
  tenant_resolver_node s =
      if s.domain_id == ""
      then record s {
        error = some "domain_id missing in state";
        fallback_reason = some "auth_error";
      }
      else if not (is_some s.user_context)
      then record s {
        error = some "user_context missing in state";
        fallback_reason = some "auth_error";
      }
      else s

  -- `retrieve_context_node`, by what the retrieval returns or raises.
  unfoldable pub retrieve_context_node :
      Result Raised (RetrievalResult fl) → RagState fl → RagState fl
  retrieve_context_node (ok result) s = record s {
    retrieved_chunks = result.fused;
    reranked_chunks = result.reranked;
    final_contexts = result.contexts;
  }
  retrieve_context_node (err e) s = record s {
    retrieved_chunks = [];
    reranked_chunks = [];
    final_contexts = [];
    retrieval_error = some (concat e.name (concat ": " e.detail));
  }

  -- `_score`
  abbrev pub gate_score : RetrievedChunk fl → fl.Float
  gate_score c = or_else c.rerank_score c.fused_score

  -- `max(scores)` of the first score and the others
  abbrev pub highest : fl.Float → List fl.Float → fl.Float
  highest top [] = top
  highest top (x ∷ xs) = highest (if fl.lt top x then x else top) xs

  abbrev pub strong_count : fl.Float → List fl.Float → ℕ
  strong_count thr scores = count_if (λ x. fl.le thr x) scores

  abbrev pub passes_gate1 : Gate1Thresholds fl → List fl.Float → Bool
  passes_gate1 t [] = false
  passes_gate1 t (x ∷ xs) =
      fl.le t.min_top1 (highest x xs) && leb t.min_strong (strong_count t.strong_thr (x ∷ xs))

  -- `state.reranked_chunks or state.final_contexts or []`
  abbrev pub gate1_chunks : RagState fl → List (RetrievedChunk fl) → List (RetrievedChunk fl)
  gate1_chunks s [] = s.final_contexts
  gate1_chunks s (c ∷ cs) = c ∷ cs

  abbrev pub gate1_on : Gate1Thresholds fl → List (RetrievedChunk fl) → RagState fl → RagState fl
  gate1_on t [] s = record s {
    gate1_passed = false;
    fallback_reason = some "retrieval_unavailable";
    near_misses = [];
  }
  gate1_on t (c ∷ cs) s =
      if passes_gate1 t (map gate_score (c ∷ cs))
      then record s { gate1_passed = true }
      else record s {
        gate1_passed = false;
        fallback_reason = some "gate1_failed";
        near_misses = take 3 (c ∷ cs);
      }

  unfoldable pub gate_1_node : Gate1Thresholds fl → RagState fl → RagState fl
  gate_1_node t s = gate1_on t (gate1_chunks s s.reranked_chunks) s
