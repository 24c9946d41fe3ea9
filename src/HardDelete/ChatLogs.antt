-- ===== src/HardDelete/ChatLogs.antt =====
-- `InMemoryChatLogsActionHandler.apply` (backend/app/services/hard_delete_service.py): which chat
-- logs are masked or dropped.
use domainrag_ops.Prelude.{
  ℕ, String, ◌≡◌, refl, not, List, [], ◌∷◌, string_eq, arith, map, keep, count_if, if◌then◌else◌,
  Bool-cases, inl, inr,
}
use domainrag_ops.HardDelete.{
  ChatLogsAction, keep_excerpts, mask_excerpts, delete_logs, ChatLog, mask_citation, is_affected,
  apply_all, apply,
}

-- A chat log with the citations of the document masked, if it is affected.
abbrev pub mask_record : String → String → ChatLog → ChatLog
mask_record domain_id doc_id rec =
    if is_affected domain_id doc_id rec
    then record rec { citations = map (mask_citation doc_id) rec.citations }
    else rec

-- What becomes of the logs, by the action.
abbrev pub kept_logs : String → String → ChatLogsAction → List ChatLog → List ChatLog
kept_logs domain_id doc_id keep_excerpts logs = logs
kept_logs domain_id doc_id mask_excerpts logs = map (mask_record domain_id doc_id) logs
kept_logs domain_id doc_id delete_logs logs = keep (λ r. not (is_affected domain_id doc_id r)) logs

abbrev pub affected_count : String → String → ChatLogsAction → List ChatLog → ℕ
affected_count domain_id doc_id keep_excerpts logs = 0
affected_count domain_id doc_id mask_excerpts logs = count_if (is_affected domain_id doc_id) logs
affected_count domain_id doc_id delete_logs logs = count_if (is_affected domain_id doc_id) logs

module _ (domain_id doc_id : String) where
  masked_lem :
      (logs : List ChatLog)
      → apply_all domain_id doc_id mask_excerpts logs
        ≡ (count_if (is_affected domain_id doc_id) logs, map (mask_record domain_id doc_id) logs)
  unfolding apply_all
  masked_lem [] = refl
  masked_lem (r ∷ rs) = elim (Bool-cases (is_affected domain_id doc_id r)) [
    | inl e ↦ rw (e, masked_lem rs) refl
    | inr e ↦ ground (arith, e, masked_lem rs)
  ]

  deleted_lem :
      (logs : List ChatLog)
      → apply_all domain_id doc_id delete_logs logs ≡ (
        count_if (is_affected domain_id doc_id) logs,
        keep (λ r. not (is_affected domain_id doc_id r)) logs,
      )
  unfolding apply_all
  deleted_lem [] = refl
  deleted_lem (r ∷ rs) = elim (Bool-cases (is_affected domain_id doc_id r)) [
    | inl e ↦ rw (e, deleted_lem rs) refl
    | inr e ↦ ground (arith, e, deleted_lem rs)
  ]

  -- `apply` counts the logs of the domain that cite the document, except under keep_excerpts;
  -- under mask_excerpts it masks exactly the citations of the document in these logs, under
  -- delete_logs it drops exactly these logs, and else it changes nothing.
  pub apply_lem :
      (action : ChatLogsAction) (logs : List ChatLog)
      → apply domain_id doc_id action logs
        ≡ (affected_count domain_id doc_id action logs, kept_logs domain_id doc_id action logs)
  unfolding apply
  apply_lem keep_excerpts logs = refl
  apply_lem mask_excerpts logs = masked_lem logs
  apply_lem delete_logs logs = deleted_lem logs
