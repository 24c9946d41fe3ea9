-- ===== src/Tests/Approvals.antt =====
-- An approval that is given, expires and is revoked.
use domainrag_ops.Prelude.{ℕ, ◌+◌, ◌≡◌, refl, true, none, some, List, [], ◌∷◌, string_eq}
use domainrag_ops.Dict.{get, set_item, pop}
use domainrag_ops.Approval.{Ledger, Service, approve_plain, revoke_active, is_plain_approved}
use domainrag_ops.Approval.Consistency.{
  Call, approve, revoke, perform, run, IsConsistent, run-IsConsistent,
}

-- A ledger that always raises, after it has counted the event.
abbrev ledger : Ledger ℕ
ledger = some (λ e w. (some "down", w + 1))

abbrev empty : Service ℕ
empty = record { active = []; history = []; audit_events = []; world = 0 }

abbrev calls : List Call
calls =
    approve "law" "study" "kim" (some 20) "a1" 10
    ∷ revoke "law" "kim" "over" 15
    ∷ approve "law" "study" "kim" none "a2" 16
    ∷ approve "law" "study" "lee" none "a3" 17
    ∷ []

abbrev service : Service ℕ
service = run ℕ ledger calls empty

approved_again : is_plain_approved ℕ ledger "law" 99 service ≡ true
unfolding is_plain_approved run perform approve_plain revoke_active set_item pop get
approved_again = refl

run-IsConsistent_example : IsConsistent ℕ service
run-IsConsistent_example = run-IsConsistent ℕ ledger calls 0
