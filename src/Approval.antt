-- ===== src/Approval.antt =====
-- `InMemoryPiiStorageApprovalService` (backend/app/services/pii_storage_approval_service.py): the
-- approvals to store questions unmasked. The audit ledger acts on a world `W` and may raise; the
-- fresh id and the time that a call reads are arguments.
pub mod Consistency
pub mod Lookup
use domainrag_ops.Prelude.{
  ℕ, String, Bool, true, false, Option, none, some, List, [], ◌∷◌, ◌++◌, ◌==◌, string_eq, leb, take,
  drop, reverse, or_else, if◌then◌else◌,
}
use domainrag_ops.Prelude.Result.{Result, ok, err}
use domainrag_ops.Dict.{Dict, get, set_item, pop}

pub record PiiApprovalRecord : Type 0 where
  pub approval_id : String
  pub domain_id : String
  pub policy : String
  pub reason : String
  pub approved_by : String
  pub valid_from : ℕ
  pub valid_until : Option ℕ
  pub status : String
  pub revoked_at : Option ℕ
  pub revoked_by : Option String
  pub revoke_reason : Option String

pub data Error : Type 0 where
  pii_approval_conflict : String → Error
  pii_approval_not_found : String → Error

-- An audit event, and what is published to the ledger.
pub record AuditEvent : Type 0 where
  pub domain_id : String
  pub action : String
  pub actor : String
  pub reason : String
  pub approval_id : String

abbrev pub Ledger : Type 0 → Type 0
Ledger W = Option (AuditEvent → W → Option String × W)

pub record Service (W : Type 0) : Type 0 where
  pub active : Dict String PiiApprovalRecord
  pub history : Dict String (List PiiApprovalRecord)
  pub audit_events : List AuditEvent
  pub world : W

-- `self._history.get(domain_id, [])`
abbrev pub history_of : Dict String (List PiiApprovalRecord) → String → List PiiApprovalRecord
history_of h domain_id = or_else (get h domain_id) []

-- `if history and history[-1].approval_id == id: history[-1] = revoked`
unfoldable pub replace_last : PiiApprovalRecord → List PiiApprovalRecord → List PiiApprovalRecord
replace_last revoked [] = []
replace_last revoked (r ∷ []) =
    if r.approval_id == revoked.approval_id then revoked ∷ [] else r ∷ []
replace_last revoked (r ∷ r' ∷ rs) = r ∷ replace_last revoked (r' ∷ rs)

module _ (W : Type 0) (ledger : Ledger W) where
  -- `_publish_ledger`: an exception is swallowed.
  unfoldable pub publish_ledger : AuditEvent → W → W
  publish_ledger e w = elim ledger [ none ↦ w | some call ↦ (call e w).1 ]

  abbrev pub new_approval : String → String → String → Option ℕ → String → ℕ → PiiApprovalRecord
  new_approval domain_id reason approved_by valid_until fresh_id now = record {
    approval_id = fresh_id;
    domain_id = domain_id;
    policy = "plain";
    reason = reason;
    approved_by = approved_by;
    valid_from = now;
    valid_until = valid_until;
    status = "active";
    revoked_at = none;
    revoked_by = none;
    revoke_reason = none;
  }

  unfoldable pub approve_plain :
      String
      → String
      → String
      → Option ℕ
      → String
      → ℕ
      → Service W
      → Result Error PiiApprovalRecord × Service W
  approve_plain domain_id reason approved_by valid_until fresh_id now s =
      let new = new_approval domain_id reason approved_by valid_until fresh_id now in
      let event : AuditEvent = record {
        domain_id = domain_id;
        action = "pii_storage_plain_approved";
        actor = approved_by;
        reason = reason;
        approval_id = fresh_id;
      } in
      elim (get s.active domain_id) [
        | some existing ↦ (err (pii_approval_conflict existing.approval_id), s)
        | none ↦ (
          ok new,
          record {
            active = set_item s.active domain_id new;
            history = set_item s.history domain_id (history_of s.history domain_id ++ new ∷ []);
            audit_events = s.audit_events ++ event ∷ [];
            world = publish_ledger event s.world;
          },
        )
      ]

  abbrev pub revoked_record : PiiApprovalRecord → String → String → String → ℕ → PiiApprovalRecord
  revoked_record existing domain_id revoked_by revoke_reason now = record {
    approval_id = existing.approval_id;
    domain_id = domain_id;
    policy = existing.policy;
    reason = existing.reason;
    approved_by = existing.approved_by;
    valid_from = existing.valid_from;
    valid_until = existing.valid_until;
    status = "revoked";
    revoked_at = some now;
    revoked_by = some revoked_by;
    revoke_reason = some revoke_reason;
  }

  abbrev replaced :
      Dict String (List PiiApprovalRecord)
      → String
      → PiiApprovalRecord
      → Dict String (List PiiApprovalRecord)
  replaced h domain_id revoked = elim (get h domain_id) [
    | none ↦ h
    | some rs ↦ set_item h domain_id (replace_last revoked rs)
  ]

  unfoldable pub revoke_active :
      String → String → String → ℕ → Service W → Result Error PiiApprovalRecord × Service W
  revoke_active domain_id revoked_by revoke_reason now s = elim (get s.active domain_id) [
    | none ↦ (err (pii_approval_not_found domain_id), s)
    | some existing ↦
        let revoked = revoked_record existing domain_id revoked_by revoke_reason now in
        let event : AuditEvent = record {
          domain_id = domain_id;
          action = "pii_storage_plain_revoked";
          actor = revoked_by;
          reason = revoke_reason;
          approval_id = existing.approval_id;
        } in
        (
          ok revoked,
          record {
            active = pop s.active domain_id;
            history = replaced s.history domain_id revoked;
            audit_events = s.audit_events ++ event ∷ [];
            world = publish_ledger event s.world;
          },
        )
  ]

  -- `record.valid_until is not None and record.valid_until <= now`
  abbrev pub expired : Option ℕ → ℕ → Bool
  expired none now = false
  expired (some until) now = leb until now

  unfoldable pub is_plain_approved : String → ℕ → Service W → Bool
  is_plain_approved domain_id now s = elim (get s.active domain_id) [
    | none ↦ false
    | some r ↦ if expired r.valid_until now then false else true
  ]

  unfoldable pub list_by_tenant : String → ℕ → ℕ → Service W → List PiiApprovalRecord
  list_by_tenant domain_id limit offset s =
      take limit (drop offset (reverse (history_of s.history domain_id)))
