-- ===== src/OauthState/Once.antt =====
-- A state of a login is taken once (backend/app/core/oauth_state_store.py).
use domainrag_ops.Prelude.{
  String, ◌≡◌, ap, Bool, false, ◌==◌, string_eq, none, List, [], ◌∷◌, All, arith,
}
use domainrag_ops.Prelude.Float.{FloatOps}
use domainrag_ops.Dict.{get, get-set_item, get-pop, get-pop_self, pop}
use domainrag_ops.OauthState.{
  Entries, expired_states, pop_states, gc, put, unless_expired, pop_state, StateCall, put_call,
  pop_call, perform_state_calls,
}

module _ (fl : FloatOps) where
  abbrev pub puts : String → StateCall fl → Bool
  puts k (put_call now entry) = entry.state == k
  puts k (pop_call now later state) = false

  pop-absent :
      (entries : Entries fl) (s k : String) → get entries k ≡ none → get (pop entries s) k ≡ none
  pop-absent entries s k h = ground (arith, get-pop entries s k, h)

  pop_states-absent :
      (ss : List String) (entries : Entries fl) (k : String)
      → get entries k ≡ none
      → get (pop_states fl ss entries) k ≡ none
  unfolding pop_states
  pop_states-absent [] entries k h = h
  pop_states-absent (s ∷ ss) entries k h =
      pop_states-absent ss (pop entries s) k (pop-absent entries s k h)

  gc-absent :
      (now : fl.Float) (entries : Entries fl) (k : String)
      → get entries k ≡ none
      → get (gc fl now entries) k ≡ none
  unfolding gc
  gc-absent now entries k h = pop_states-absent (expired_states fl now entries) entries k h

  absent :
      (calls : List (StateCall fl)) (entries : Entries fl) (k : String)
      → All (λ c. puts k c ≡ false) calls
      → get entries k ≡ none
      → get (perform_state_calls fl calls entries) k ≡ none
  unfolding perform_state_calls put pop_state
  absent [] entries k others h = h
  absent (put_call now entry ∷ calls) entries k others h = absent calls _ k others.1 (
      ground (
        arith,
        get-set_item (gc fl now entries) entry.state k entry,
        others.0,
        gc-absent now entries k h,
      ))
  absent (pop_call now later state ∷ calls) entries k others h =
      absent calls _ k others.1 (pop-absent (gc fl now entries) state k (gc-absent now entries k h))

  -- Once a state was popped, a later pop of it gives nothing, whatever calls stand between them, where
  -- none of them puts an entry of that state.
  pub pop_state_once :
      (now later now' later' : fl.Float) (k : String) (calls : List (StateCall fl))
      (entries : Entries fl)
      → All (λ c. puts k c ≡ false) calls
      → (pop_state fl now' later' k
          (perform_state_calls fl calls (pop_state fl now later k entries).1)).0
        ≡ none
  unfolding pop_state
  pop_state_once now later now' later' k calls entries others =
      ap (unless_expired fl later')
        (gc-absent now' _ k (absent calls _ k others (get-pop_self (gc fl now entries) k)))
