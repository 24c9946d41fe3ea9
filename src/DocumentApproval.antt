-- ===== src/DocumentApproval.antt =====
-- `DocumentApprovalService` (backend/app/services/document_approval_service.py): a new approval status
-- is written to the document, to its chunks and to their points. Rows of the audit table are
-- inserted where there is a session factory for it.
pub mod Withdrawn
use domainrag_ops.Prelude.{
  ℕ, String, Bool, true, false, Option, none, some, List, [], ◌∷◌, ◌++◌, ◌==◌, string_eq, length,
  or_else, if◌then◌else◌,
}
use domainrag_ops.Prelude.Float.{FloatOps}
use domainrag_ops.Dict.{Dict}
use domainrag_ops.Payload.{Value, atom, text}
use domainrag_ops.Documents.{DocumentRecord, Docs, update_approval}
use domainrag_ops.Chunks.{ids, list_by_doc}
use domainrag_ops.Chunks.Rows.{to_approval_status}
use domainrag_ops.Indexing.Steps.{State, update_chunks, try_set_payload}

pub record ApprovalResult : Type 0 where
  pub document : DocumentRecord
  pub affected_chunks : ℕ

-- The columns that `_audit` fills from `details`.
pub record AuditEntry : Type 0 where
  pub domain_id : String
  pub to_state : String
  pub actor : String
  pub reason : String
  pub doc_id : String
  pub version : String
  pub affected_chunks : ℕ

-- `has_admin` tells whether there is a session factory.
pub record ApprovalState (fl : FloatOps) : Type 0 where
  pub service : State fl
  pub has_admin : Bool
  pub audit : List AuditEntry

-- `details.get("reason") or "approval_status_changed"`
abbrev reason_or : Option String → String
reason_or none = "approval_status_changed"
reason_or (some r) = if r == "" then "approval_status_changed" else r

module _ (fl : FloatOps) where
  -- `_audit`
  abbrev pub write_audit : AuditEntry → ApprovalState fl → ApprovalState fl
  write_audit entry s = if s.has_admin then record s { audit = s.audit ++ (entry ∷ []) } else s

  -- `if chunk_ids: ...`
  unfoldable pub sync_chunks : String → List String → String → State fl → State fl
  sync_chunks domain_id [] approval_status s = s
  sync_chunks domain_id (cid ∷ cids) approval_status s =
      try_set_payload fl domain_id (cid ∷ cids)
        (("approval_status", atom (text approval_status)) ∷ [])
        (update_chunks fl domain_id (cid ∷ cids) (to_approval_status approval_status ∷ []) s)

  -- The ids of the chunks of the version.
  abbrev pub chunk_ids : String → String → String → State fl → List String
  chunk_ids domain_id doc_id version s = ids (list_by_doc domain_id doc_id version none s.chunks)

  abbrev pub after_document :
      String
      → String
      → String
      → String
      → String
      → Option String
      → Option DocumentRecord × Docs
      → ApprovalState fl
      → Option ApprovalResult × ApprovalState fl
  after_document domain_id doc_id version approval_status actor reason (none, docs) s = (none, s)
  after_document domain_id doc_id version approval_status actor reason (some doc, docs) s =
      let updated : State fl = record s.service { docs = docs } in
      let cids = chunk_ids domain_id doc_id version updated in
      (
        some (record { document = doc; affected_chunks = length cids }),
        write_audit
            (record {
              domain_id = domain_id;
              to_state = approval_status;
              actor = actor;
              reason = reason_or reason;
              doc_id = doc_id;
              version = version;
              affected_chunks = length cids;
            })
            (record s { service = sync_chunks domain_id cids approval_status updated }),
      )

  unfoldable pub set_approval :
      String
      → String
      → String
      → String
      → String
      → Option String
      → ApprovalState fl
      → Option ApprovalResult × ApprovalState fl
  set_approval domain_id doc_id version approval_status actor reason s =
      after_document domain_id doc_id version approval_status actor reason
        (update_approval domain_id doc_id version approval_status s.service.docs) s
