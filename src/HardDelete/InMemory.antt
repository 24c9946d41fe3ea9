-- ===== src/HardDelete/InMemory.antt =====
-- The collaborators of `HardDeleteService` (backend/app/services/hard_delete_service.py) that are kept
-- in memory: the repositories and the store of rag_core/clients/in_memory.py, and
-- `InMemoryChatLogsActionHandler`. The storage of files, the audit row and the ledger are given by
-- what they answer.
use domainrag_ops.Prelude.{ℕ, String, Option, none, some, List}
use domainrag_ops.Prelude.Float.{FloatOps}
use domainrag_ops.Prelude.Result.{Result, ok}
use domainrag_ops.Chunks
use domainrag_ops.Documents
use domainrag_ops.VectorStore.{delete_points}
use domainrag_ops.Indexing.Steps.{State}
use domainrag_ops.HardDelete.{ChatLog, apply}
use domainrag_ops.HardDelete.Steps.{HardDeleteService, AuditRow, LedgerEntry}

pub record DeleteState (fl : FloatOps) : Type 0 where
  pub service : State fl
  pub chat_logs : List ChatLog

module _ {W : Type 0} where
  -- A collaborator whose own state is left out.
  abbrev pub answering :
      {A : Type 0}
      → Option (A → Result String (Unit {0}))
      → Option (A → W → Result String (Unit {0}) × W)
  answering none = none
  answering (some f) = some (λ a w. (f a, w))

module _ (fl : FloatOps) where
  abbrev pub in_memory :
      (String → String → Option String → Result String ℕ)
      → Option (AuditRow → Result String (Unit {0}))
      → Option (LedgerEntry → Result String (Unit {0}))
      → HardDeleteService (DeleteState fl)
  in_memory delete_files write_audit tell_ledger = record {
    document_repo = λ domain_id doc_id version s.
        let (removed, docs) = Documents.delete domain_id doc_id version s.service.docs in
        (ok removed, record s { service = record s.service { docs = docs } });
    chunk_repo = λ domain_id doc_id version s.
        let (cids, chunks) = Chunks.delete_by_doc domain_id doc_id version s.service.chunks in
        (ok cids, record s { service = record s.service { chunks = chunks } });
    vector_store = λ domain_id cids s.
        let store = delete_points fl domain_id cids s.service.store in
        (ok tt, record s { service = record s.service { store = store } });
    storage = λ domain_id doc_id version s. (delete_files domain_id doc_id version, s);
    app = none;
    admin = answering write_audit;
    chat_logs_handler = some (λ domain_id doc_id action s.
        let (affected, logs) = apply domain_id doc_id action s.chat_logs in
        (ok affected, record s { chat_logs = logs }));
    ledger = answering tell_ledger;
  }
