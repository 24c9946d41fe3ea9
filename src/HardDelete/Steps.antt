-- ===== src/HardDelete/Steps.antt =====
-- `HardDeleteService` (backend/app/services/hard_delete_service.py) over any collaborators: the steps
-- that remove a document, each of which notes its failure and lets the next one run, then the chat
-- logs, the audit row and the ledger.
use domainrag_ops.Prelude.{ℕ, String, Option, none, some, List, [], ◌∷◌, ◌++◌, length}
use domainrag_ops.Prelude.Result.{Result, ok, err}
use domainrag_ops.Prelude.Effect.{Effect, ◌>>=◌, ◌>>◌, pure}
use domainrag_ops.HardDelete.{
  ChatLogsAction, keep_excerpts, mask_excerpts, delete_logs, DeadLetter, delete_chunks,
  storage_delete, delete_document, vector_store_delete, HardDeleteResult,
}

-- The row of `tenant_lifecycle_logs`, whose details are the fields of the result.
pub record AuditRow : Type 0 where
  pub domain_id : String
  pub actor : String
  pub reason : String
  pub details : HardDeleteResult

-- The arguments of `publish_hard_delete`.
pub record LedgerEntry : Type 0 where
  pub domain_id : String
  pub actor : String
  pub reason : String
  pub doc_id : String
  pub version : Option String
  pub removed_chunks : ℕ
  pub affected_chat_logs : ℕ
  pub chat_logs_action : ChatLogsAction

-- The collaborators, by the method that is called: each may change the world and raise, and an
-- exception is its text. `app` runs the SQL for chat logs, `admin` writes the audit row.
pub record HardDeleteService (W : Type 0) : Type 0 where
  pub document_repo : String → String → Option String → Effect W String ℕ
  pub chunk_repo : String → String → Option String → Effect W String (List String)
  pub vector_store : String → List String → Effect W String (Unit {0})
  pub storage : String → String → Option String → Effect W String ℕ
  pub app : Option (String → String → ChatLogsAction → Effect W String ℕ)
  pub admin : Option (AuditRow → Effect W String (Unit {0}))
  pub chat_logs_handler : Option (String → String → ChatLogsAction → Effect W String ℕ)
  pub ledger : Option (LedgerEntry → Effect W String (Unit {0}))

abbrev pub ledger_entry : String → String → HardDeleteResult → LedgerEntry
ledger_entry actor reason r = record {
  domain_id = r.domain_id;
  actor = actor;
  reason = reason;
  doc_id = r.doc_id;
  version = r.version;
  removed_chunks = r.removed_chunks;
  affected_chat_logs = r.affected_chat_logs;
  chat_logs_action = r.chat_logs_action_applied;
}

module _ {W : Type 0} where
  -- `try: ... except Exception as exc: result.dead_letters.append(...)`: the value or a default, and
  -- the entry of a failure.
  abbrev pub attempted :
      {A : Type 0} → A → (String → DeadLetter) → Result String A × W → A × List DeadLetter × W
  attempted default letter (ok a, w) = (a, [], w)
  attempted default letter (err e, w) = (default, letter e ∷ [], w)

  -- Step 2: `if chunk_ids: ...`
  abbrev pub delete_vectors : HardDeleteService W → String → List String → W → List DeadLetter × W
  delete_vectors svc domain_id [] w = ([], w)
  delete_vectors svc domain_id (cid ∷ cids) w =
      let (done, failed, after) =
        attempted tt (vector_store_delete (cid ∷ cids))
          (svc.vector_store domain_id (cid ∷ cids) w) in
      (failed, after)

  -- Steps 1 to 4: the chunks, the points, the files, the documents. The chat logs are not counted
  -- yet.
  unfoldable pub remove :
      HardDeleteService W
      → String
      → String
      → Option String
      → ChatLogsAction
      → W
      → HardDeleteResult × W
  remove svc domain_id doc_id version action w =
      let (cids, no_chunks, w1) =
        attempted [] delete_chunks (svc.chunk_repo domain_id doc_id version w) in
      let (no_points, w2) = delete_vectors svc domain_id cids w1 in
      let (files, no_files, w3) =
        attempted 0 storage_delete (svc.storage domain_id doc_id version w2) in
      let (docs, no_docs, w4) =
        attempted 0 delete_document (svc.document_repo domain_id doc_id version w3) in
      (
        record {
          domain_id = domain_id;
          doc_id = doc_id;
          version = version;
          removed_chunks = length cids;
          removed_storage_files = files;
          removed_documents = docs;
          affected_chat_logs = 0;
          chat_logs_action_applied = action;
          dead_letters = no_chunks ++ no_points ++ no_files ++ no_docs;
        },
        w4,
      )

  abbrev handler_or_sql :
      Option (String → String → ChatLogsAction → Effect W String ℕ)
      → Option (String → String → ChatLogsAction → Effect W String ℕ)
      → String
      → String
      → ChatLogsAction
      → Effect W String ℕ
  handler_or_sql (some handler) app domain_id doc_id action = handler domain_id doc_id action
  handler_or_sql none (some sql) domain_id doc_id action = sql domain_id doc_id action
  handler_or_sql none none domain_id doc_id action = λ w. (ok 0, w)

  abbrev pub handle_chat_logs :
      HardDeleteService W → String → String → ChatLogsAction → Effect W String ℕ
  handle_chat_logs svc domain_id doc_id keep_excerpts w = (ok 0, w)
  handle_chat_logs svc domain_id doc_id mask_excerpts w =
      handler_or_sql svc.chat_logs_handler svc.app domain_id doc_id mask_excerpts w
  handle_chat_logs svc domain_id doc_id delete_logs w =
      handler_or_sql svc.chat_logs_handler svc.app domain_id doc_id delete_logs w

  abbrev pub audit :
      Option (AuditRow → Effect W String (Unit {0})) → AuditRow → Effect W String (Unit {0})
  audit none row w = (ok tt, w)
  audit (some insert) row w = insert row w

  -- The ledger's exceptions are only logged.
  abbrev pub publish :
      Option (LedgerEntry → Effect W String (Unit {0})) → LedgerEntry → Effect W String (Unit {0})
  publish none entry w = (ok tt, w)
  publish (some call) entry w = (ok tt, (call entry w).1)

  -- Steps 6 and 7.
  abbrev pub report :
      HardDeleteService W → String → String → HardDeleteResult → Effect W String HardDeleteResult
  report svc actor reason result =
      audit svc.admin
        (record { domain_id = result.domain_id; actor = actor; reason = reason; details = result })
      >> publish svc.ledger (ledger_entry actor reason result)
      >> pure result

  unfoldable pub execute :
      HardDeleteService W
      → String
      → String
      → Option String
      → String
      → String
      → ChatLogsAction
      → Effect W String HardDeleteResult
  execute svc domain_id doc_id version actor reason action w =
      let (result, w4) = remove svc domain_id doc_id version action w in
      (handle_chat_logs svc domain_id doc_id action >>= λ n.
      report svc actor reason (record result { affected_chat_logs = n }))
        w4
