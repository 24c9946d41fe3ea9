-- ===== src/HardDelete.antt =====
-- The results of `HardDeleteService` (backend/app/services/hard_delete_service.py), and
-- `InMemoryChatLogsActionHandler`, which masks or drops the chat logs that cite a document.
pub mod Steps
pub mod InMemory
pub mod ChatLogs
pub mod Outcome
pub mod Removed
use domainrag_ops.Prelude.{
  ℕ, ◌+◌, String, Bool, true, false, not, Option, none, some, List, [], ◌∷◌, ◌++◌, ◌==◌, string_eq,
  length, or_else, map, any, if◌then◌else◌,
}
use domainrag_ops.Prelude.Float.{FloatOps}
use domainrag_ops.Prelude.Result.{Result, ok, err}
use domainrag_ops.Dict.{Dict, get, set_item}
use domainrag_ops.Payload.{Payload, Value, atom, text, lookup, value_eq}
use domainrag_ops.Chunks
use domainrag_ops.Documents
use domainrag_ops.VectorStore.{Store, delete_points}
use domainrag_ops.Indexing.Steps.{State}

pub data ChatLogsAction : Type 0 where
  keep_excerpts mask_excerpts delete_logs : ChatLogsAction

-- An entry of `dead_letters`, by its step.
pub data DeadLetter : Type 0 where
  delete_chunks storage_delete delete_document : String → DeadLetter
  vector_store_delete : List String → String → DeadLetter

pub record HardDeleteResult : Type 0 where
  pub domain_id : String
  pub doc_id : String
  pub version : Option String
  pub removed_chunks : ℕ
  pub removed_storage_files : ℕ
  pub removed_documents : ℕ
  pub affected_chat_logs : ℕ
  pub chat_logs_action_applied : ChatLogsAction
  pub dead_letters : List DeadLetter

-- What the handler reads of a chat log: the domain and the citations, which are dicts.
pub record ChatLog : Type 0 where
  pub log_id : String
  pub domain_id : String
  pub citations : List Payload

-- `c.get("doc_id") == doc_id`
abbrev pub cites : String → Payload → Bool
cites doc_id c = value_eq (lookup c "doc_id") (atom (text doc_id))

-- `{**c, "excerpt": "[masked: hard_deleted]"}`
abbrev pub mask_citation : String → Payload → Payload
mask_citation doc_id c =
    if cites doc_id c then set_item c "excerpt" (atom (text "[masked: hard_deleted]")) else c

-- The record is of the domain and cites the document.
abbrev pub is_affected : String → String → ChatLog → Bool
is_affected domain_id doc_id rec =
    if not (rec.domain_id == domain_id) then false else any (cites doc_id) rec.citations

abbrev keep_record : ChatLogsAction → String → ChatLog → List ChatLog → List ChatLog
keep_record delete_logs doc_id rec kept = kept
keep_record keep_excerpts doc_id rec kept = rec ∷ kept
keep_record mask_excerpts doc_id rec kept =
    record rec { citations = map (mask_citation doc_id) rec.citations } ∷ kept

-- The loop of `apply`.
unfoldable pub apply_all : String → String → ChatLogsAction → List ChatLog → ℕ × List ChatLog
apply_all domain_id doc_id action [] = (0, [])
apply_all domain_id doc_id action (rec ∷ recs) =
    let rest = apply_all domain_id doc_id action recs in
    if is_affected domain_id doc_id rec
    then (1 + rest.0, keep_record action doc_id rec rest.1)
    else (rest.0, rec ∷ rest.1)

-- `apply`, and the test on the action that `_handle_chat_logs` also makes
unfoldable pub apply : String → String → ChatLogsAction → List ChatLog → ℕ × List ChatLog
apply domain_id doc_id keep_excerpts logs = (0, logs)
apply domain_id doc_id mask_excerpts logs = apply_all domain_id doc_id mask_excerpts logs
apply domain_id doc_id delete_logs logs = apply_all domain_id doc_id delete_logs logs
