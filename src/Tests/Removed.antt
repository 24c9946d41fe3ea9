-- ===== src/Tests/Removed.antt =====
-- A document whose approval is withdrawn, and one that is deleted with its chat logs.
use domainrag_ops.Prelude.{
  ℕ, String, ◌≡◌, refl, true, false, Option, none, some, List, [], ◌∷◌, arith, eq_iff, string_eq,
  pair_eq, nat_eq, All, sort_by, if◌then◌else◌,
}
use domainrag_ops.Prelude.Result.{Result, err}
use domainrag_ops.Dict.{get, set_item, values}
use domainrag_ops.Payload.{Payload, atom, text, lookup, value_eq}
use domainrag_ops.Acl.Filter.{payload_match}
use domainrag_ops.Acl.Builder.{member, build_qdrant_acl_filter}
use domainrag_ops.VectorStore.{
  hybrid_query, set_payload, set_payloads, update_payload, point_score, score_all, cosine,
  sparse_dot,
}
use domainrag_ops.Chunks.{Repository, list_by_doc, listed_rows, rows_at, is_meant}
use domainrag_ops.Chunks.Abstract.{view}
use domainrag_ops.Documents
use domainrag_ops.Documents.{update_approval}
use domainrag_ops.Indexing.Steps.{try_set_payload, update_chunks}
use domainrag_ops.Indexing.Others.{has_point}
use domainrag_ops.DocumentApproval.{ApprovalState, chunk_ids, sync_chunks, set_approval}
use domainrag_ops.DocumentApproval.Withdrawn.{set_approval_unseen}
use domainrag_ops.HardDelete.{delete_logs, ChatLog, HardDeleteResult}
use domainrag_ops.HardDelete.Steps.{AuditRow}
use domainrag_ops.HardDelete.InMemory.{DeleteState}
use domainrag_ops.HardDelete.ChatLogs.{kept_logs, affected_count}
use domainrag_ops.HardDelete.Outcome.{audited}
use domainrag_ops.HardDelete.Removed.{execute_lem, call_ended, expected_result, removed_ids}
use domainrag_ops.Tests.Floats.{thousandths}
use domainrag_ops.Tests.Access.{kim}
use domainrag_ops.Tests.Stores.{coll, only_c1}
use domainrag_ops.Tests.Indexed.{row, state}

-- The version v1 of d1 has the chunk c2.
abbrev rows : Repository
rows = record {
  rows = (0, record (row "c2") { doc_id = "d1" }) ∷ [];
  next = 1;
  chunks = (("law", ("d1", ("v1", "p1"))), 0 ∷ []) ∷ [];
  by_id = (("law", "c2"), 0) ∷ [];
}

abbrev approved : ApprovalState thousandths
approved = record { service = record state { chunks = rows }; has_admin = true; audit = [] }

one_chunk : chunk_ids thousandths "law" "d1" "v1" approved.service ≡ "c2" ∷ []
unfolding list_by_doc listed_rows rows_at get
one_chunk = refl

set_approval_unseen_example :
    All (λ h. member h.id (chunk_ids thousandths "law" "d1" "v1" approved.service) ≡ false) only_c1
set_approval_unseen_example =
    set_approval_unseen thousandths "law" "d1" "v1" "draft" "admin" none approved coll
      (ground (arith, eq_iff "draft" "approved")) (unfold get in refl) (unfold get in refl)
      (unfold get in (refl, refl, (refl, refl, tt))) kim (some "2026-03-01") true (1000 ∷ []) [] 5
      only_c1
      (unfold set_approval update_approval sync_chunks try_set_payload update_chunks list_by_doc
          listed_rows rows_at set_payload set_payloads update_payload hybrid_query get set_item
          values payload_match build_qdrant_acl_filter lookup value_eq point_score score_all sort_by
          cosine sparse_dot in
        refl)

abbrev citation : String → Payload
citation d = ("doc_id", atom (text d)) ∷ ("excerpt", atom (text "pay in March")) ∷ []

abbrev logs : List ChatLog
logs =
    record { log_id = "l1"; domain_id = "law"; citations = citation "d1" ∷ citation "d2" ∷ [] }
    ∷ record { log_id = "l2"; domain_id = "hr"; citations = citation "d1" ∷ [] }
    ∷ []

abbrev before : DeleteState thousandths
before = record { service = record state { chunks = rows }; chat_logs = logs }

-- The files cannot be removed, and the audit row cannot be written.
abbrev no_files : String → String → Option String → Result String ℕ
no_files _ _ _ = err "no storage"

abbrev refuse : Option (AuditRow → Result String (Unit {0}))
refuse = some (λ _. err "no database")

abbrev ended_law : Result String HardDeleteResult × DeleteState thousandths
ended_law =
    call_ended thousandths no_files refuse none "law" "d1" none "admin" "leak" delete_logs before

abbrev ids_law : List String
ids_law =
    removed_ids thousandths no_files refuse none "law" "d1" none "admin" "leak" delete_logs before

execute_lem_example :
    (get (view ended_law.1.service.chunks) ("law", ("d1", ("v1", "p1"))) ≡ (
      if is_meant "law" "d1" none ("law", ("d1", ("v1", "p1")))
      then none
      else get (view before.service.chunks) ("law", ("d1", ("v1", "p1")))))
    × (has_point thousandths "law" "c2" ended_law.1.service.store ≡ (
        if member "c2" ids_law
        then false
        else has_point thousandths "law" "c2" before.service.store))
    × (get ended_law.1.service.docs ("law", ("d1", "v1")) ≡ (
        if Documents.is_meant "law" "d1" none ("law", ("d1", "v1"))
        then none
        else get before.service.docs ("law", ("d1", "v1"))))
    × (ended_law.1.chat_logs ≡ kept_logs "law" "d1" delete_logs before.chat_logs)
    × (ended_law.0
        ≡ audited refuse "admin" "leak" (
            expected_result thousandths no_files refuse none "law" "d1" none "admin" "leak"
              delete_logs before ids_law
              (affected_count "law" "d1" delete_logs before.chat_logs)))
execute_lem_example =
    execute_lem thousandths no_files refuse none "law" "d1" none "admin" "leak" delete_logs before
      ("law", ("d1", ("v1", "p1"))) "c2" ("law", ("d1", "v1"))
