-- ===== src/OauthState.antt =====
-- `InMemoryOAuthStateStore` (backend/app/core/oauth_state_store.py): what a login keeps between
-- `/authorize` and `/callback`. The readings of the clock are arguments.
pub mod Once
pub mod Returned
use domainrag_ops.Prelude.{
  String, Bool, true, false, ◌==◌, string_eq, Option, none, some, List, [], ◌∷◌, if◌then◌else◌,
}
use domainrag_ops.Prelude.Float.{FloatOps}
use domainrag_ops.Dict.{Dict, get, set_item, pop}

module _ (fl : FloatOps) where
  pub record OauthStateEntry : Type 0 where
    pub state : String
    pub domain_id : String
    pub code_verifier : String
    pub redirect_uri : String
    pub client_id : String
    pub expires_at : fl.Float

  abbrev pub Entries : Type 0
  Entries = Dict String OauthStateEntry

  abbrev pub is_expired : fl.Float → OauthStateEntry → Bool
  is_expired now e = fl.le e.expires_at now

  unfoldable pub expired_states : fl.Float → Entries → List String
  expired_states now [] = []
  expired_states now ((s, e) ∷ entries) =
      let rest = expired_states now entries in if is_expired now e then s ∷ rest else rest

  unfoldable pub pop_states : List String → Entries → Entries
  pop_states [] entries = entries
  pop_states (s ∷ ss) entries = pop_states ss (pop entries s)

  -- `_gc`
  unfoldable pub gc : fl.Float → Entries → Entries
  gc now entries = pop_states (expired_states now entries) entries

  unfoldable pub put : fl.Float → OauthStateEntry → Entries → Entries
  put now entry entries = set_item (gc now entries) entry.state entry

  abbrev pub unless_expired : fl.Float → Option OauthStateEntry → Option OauthStateEntry
  unless_expired later none = none
  unless_expired later (some e) = if is_expired later e then none else some e

  -- `pop`; the clock is read twice.
  unfoldable pub pop_state :
      fl.Float → fl.Float → String → Entries → Option OauthStateEntry × Entries
  pop_state now later state entries =
      (unless_expired later (get (gc now entries) state), pop (gc now entries) state)

  -- A call on the store.
  pub data StateCall : Type 0 where
    put_call : fl.Float → OauthStateEntry → StateCall
    pop_call : fl.Float → fl.Float → String → StateCall

  unfoldable pub perform_state_calls : List StateCall → Entries → Entries
  unfolding put pop_state
  perform_state_calls [] entries = entries
  perform_state_calls (put_call now entry ∷ calls) entries =
      perform_state_calls calls (put now entry entries)
  perform_state_calls (pop_call now later state ∷ calls) entries =
      perform_state_calls calls (pop_state now later state entries).1
