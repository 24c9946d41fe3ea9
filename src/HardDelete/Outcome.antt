-- ===== src/HardDelete/Outcome.antt =====
-- How a call of `HardDeleteService` (backend/app/services/hard_delete_service.py) in memory ends, as
-- one equation for the result, or the exception, and the state.
use domainrag_ops.Prelude.{
  ℕ, String, ◌≡◌, refl, Option, none, some, List, [], ◌∷◌, ◌++◌, length, string_eq, pair_eq, inl,
  inr,
}
use domainrag_ops.Prelude.Float.{FloatOps}
use domainrag_ops.Prelude.Result.{Result, ok, err, Result-cases}
use domainrag_ops.Prelude.Effect.{◌>>=◌, ◌>>◌, pure}
use domainrag_ops.Documents
use domainrag_ops.Chunks
use domainrag_ops.Chunks.{Key, ids, is_meant, delete_by_doc}
use domainrag_ops.HardDelete.{
  ChatLogsAction, keep_excerpts, mask_excerpts, delete_logs, DeadLetter, storage_delete,
  HardDeleteResult,
}
use domainrag_ops.HardDelete.Steps.{
  AuditRow, LedgerEntry, HardDeleteService, attempted, delete_vectors, remove, handle_chat_logs,
  report, publish, audit, ledger_entry, execute,
}
use domainrag_ops.HardDelete.InMemory.{DeleteState, in_memory, answering}
use domainrag_ops.HardDelete.ChatLogs.{kept_logs, affected_count, apply_lem}

-- What the storage of files answered: the number of files, and the entry of a failure.
abbrev pub files_removed : Result String ℕ → ℕ
files_removed (ok n) = n
files_removed (err e) = 0

abbrev pub files_left : Result String ℕ → List DeadLetter
files_left (ok n) = []
files_left (err e) = storage_delete e ∷ []

abbrev after_audit : Result String (Unit {0}) → HardDeleteResult → Result String HardDeleteResult
after_audit (ok tt) result = ok result
after_audit (err e) result = err e

abbrev answer : {A : Type 0} → Option (A → Result String (Unit {0})) → A → Result String (Unit {0})
answer none a = ok tt
answer (some f) a = f a

abbrev audit_row : String → String → HardDeleteResult → AuditRow
audit_row actor reason result = record {
  domain_id = result.domain_id;
  actor = actor;
  reason = reason;
  details = result;
}

-- The result, or the exception of the audit row.
abbrev pub audited :
    Option (AuditRow → Result String (Unit {0}))
    → String
    → String
    → HardDeleteResult
    → Result String HardDeleteResult
audited write_audit actor reason result =
    after_audit (answer write_audit (audit_row actor reason result)) result

module _ {W : Type 0} where
  publish_lem :
      (tell_ledger : Option (LedgerEntry → Result String (Unit {0}))) (entry : LedgerEntry) (w : W)
      → publish (answering tell_ledger) entry w ≡ (ok tt, w)
  publish_lem none entry w = refl
  publish_lem (some f) entry w = refl

  audit_lem :
      (write_audit : Option (AuditRow → Result String (Unit {0}))) (row : AuditRow) (w : W)
      → audit (answering write_audit) row w ≡ (answer write_audit row, w)
  audit_lem none row w = refl
  audit_lem (some f) row w = refl

module _ (fl : FloatOps) where
  module _ (delete_files : String → String → Option String → Result String ℕ)
      (write_audit : Option (AuditRow → Result String (Unit {0})))
      (tell_ledger : Option (LedgerEntry → Result String (Unit {0}))) where
    abbrev pub svc : HardDeleteService (DeleteState fl)
    svc = in_memory fl delete_files write_audit tell_ledger

    handle_chat_logs_lem :
        (domain_id doc_id : String) (action : ChatLogsAction) (s : DeleteState fl)
        → handle_chat_logs svc domain_id doc_id action s ≡ (
          ok (affected_count domain_id doc_id action s.chat_logs),
          record s { chat_logs = kept_logs domain_id doc_id action s.chat_logs },
        )
    handle_chat_logs_lem domain_id doc_id keep_excerpts s = refl
    handle_chat_logs_lem domain_id doc_id mask_excerpts s =
        rw (apply_lem domain_id doc_id mask_excerpts s.chat_logs) refl
    handle_chat_logs_lem domain_id doc_id delete_logs s =
        rw (apply_lem domain_id doc_id delete_logs s.chat_logs) refl

    report_lem :
        (actor reason : String) (result : HardDeleteResult) (s : DeleteState fl)
        → report svc actor reason result s ≡ (audited write_audit actor reason result, s)
    unfolding ◌>>◌ pure
    report_lem actor reason result s =
        let row = audit_row actor reason result in
        elim (Result-cases (answer write_audit row)) [
          | inl (tt, e) ↦
              rw
                (
                  audit_lem write_audit row s,
                  e,
                  publish_lem tell_ledger (ledger_entry actor reason result) s,
                )
                refl
          | inr (x, e) ↦ rw (audit_lem write_audit row s, e) refl
        ]

    vectors_only :
        (domain_id : String) (cids : List String) (s : DeleteState fl)
        → delete_vectors svc domain_id cids s ≡ (
          [],
          record s {
            service = record s.service {
              store = (delete_vectors svc domain_id cids s).1.service.store;
            };
          },
        )
    vectors_only domain_id [] s = refl
    vectors_only domain_id (c ∷ cids) s = refl

    files_lem :
        (r : Result String ℕ) (s : DeleteState fl)
        → attempted 0 storage_delete (r, s) ≡ (files_removed r, files_left r, s)
    files_lem (ok n) s = refl
    files_lem (err e) s = refl

    letters_lem : (r : Result String ℕ) → files_left r ++ [] ≡ files_left r
    letters_lem (ok n) = refl
    letters_lem (err e) = refl

    module _ (domain_id doc_id : String) (version : Option String) (actor reason : String)
        (action : ChatLogsAction) (s : DeleteState fl) where
      -- How the call ends, and the state after it.
      abbrev pub ended : Result String HardDeleteResult × DeleteState fl
      ended = execute svc domain_id doc_id version actor reason action s

      abbrev pub gone : List String × Chunks.Repository
      gone = delete_by_doc domain_id doc_id version s.service.chunks

      abbrev pub docs_gone : ℕ × Documents.Docs
      docs_gone = Documents.delete domain_id doc_id version s.service.docs

      abbrev files : Result String ℕ
      files = delete_files domain_id doc_id version

      abbrev pub without_vectors : List String → DeleteState fl
      without_vectors cids =
          (delete_vectors svc domain_id cids
            (record s { service = record s.service { chunks = gone.1 } })).1

      -- The result that is expected with the ids of the removed rows and the affected chat logs.
      abbrev pub expected : List String → ℕ → HardDeleteResult
      expected cids affected = record {
        domain_id = domain_id;
        doc_id = doc_id;
        version = version;
        removed_chunks = length cids;
        removed_storage_files = files_removed files;
        removed_documents = docs_gone.0;
        affected_chat_logs = affected;
        chat_logs_action_applied = action;
        dead_letters = files_left files;
      }

      remove_lem : remove svc domain_id doc_id version action s ≡ (
        expected gone.0 0,
        record s {
          service = record s.service {
            chunks = gone.1;
            docs = docs_gone.1;
            store = (without_vectors gone.0).service.store;
          };
        },
      )
      unfolding remove
      remove_lem =
          rw
            (
              vectors_only domain_id gone.0
                  (record s { service = record s.service { chunks = gone.1 } }),
              files_lem files,
              letters_lem files,
            )
            refl

      pub outcome_lem : ended ≡ (
        audited write_audit actor reason
            (expected gone.0 (affected_count domain_id doc_id action s.chat_logs)),
        record s {
          service = record s.service {
            chunks = gone.1;
            docs = docs_gone.1;
            store = (without_vectors gone.0).service.store;
          };
          chat_logs = kept_logs domain_id doc_id action s.chat_logs;
        },
      )
      unfolding execute ◌>>=◌
      outcome_lem =
          let t : DeleteState fl = record s {
            service = record s.service {
              chunks = gone.1;
              docs = docs_gone.1;
              store = (without_vectors gone.0).service.store;
            };
          } in
          rw (remove_lem, handle_chat_logs_lem domain_id doc_id action t)
            (report_lem actor reason
              (expected gone.0 (affected_count domain_id doc_id action s.chat_logs))
              (record t { chat_logs = kept_logs domain_id doc_id action s.chat_logs }))
