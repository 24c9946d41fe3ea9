-- ===== src/OauthState/Returned.antt =====
-- The entry of a login comes back as it was kept (backend/app/core/oauth_state_store.py).
use domainrag_ops.Prelude.{
  String, ◌≡◌, refl, sym, ◌∙◌, ap, Bool, false, ◌||◌, ◌==◌, string_eq, Option, none, some, List, [],
  ◌∷◌, any, if◌then◌else◌, Bool-cases, inl, inr, arith,
}
use domainrag_ops.Prelude.Float.{FloatOps}
use domainrag_ops.Dict.{get, get-pop, get-set_item_self, pop, IsDict, IsDict-pop, IsDict-set_item}
use domainrag_ops.OauthState.{
  OauthStateEntry, Entries, is_expired, expired_states, pop_states, gc, put, unless_expired,
  pop_state, StateCall, put_call, pop_call, perform_state_calls,
}

module _ (fl : FloatOps) where
  get-pop_states :
      (ss : List String) (entries : Entries fl) (k : String)
      → get (pop_states fl ss entries) k ≡ (if any (λ s. s == k) ss then none else get entries k)
  unfolding pop_states
  get-pop_states [] entries k = refl
  get-pop_states (s ∷ ss) entries k =
      ground (arith, get-pop_states ss (pop entries s) k, get-pop entries s k)

  abbrev has_expired : fl.Float → Option (OauthStateEntry fl) → Bool
  has_expired now none = false
  has_expired now (some e) = is_expired fl now e

  expired_states_lem :
      (now : fl.Float) (entries : Entries fl) (k : String)
      → IsDict entries
      → any (λ s. s == k) (expired_states fl now entries) ≡ has_expired now (get entries k)
  unfolding expired_states get
  expired_states_lem now [] k h = refl
  expired_states_lem now ((j, e) ∷ entries) k h = elim (Bool-cases (j == k)) [
    | inl same ↦
        let gone : get entries k ≡ none =
          ap (get entries) (sym ((string_eq.equals_iff j k).0 same)) ∙ h.0 in
        let rest = expired_states_lem now entries k h.1 ∙ ap (has_expired now) gone in
        elim (Bool-cases (is_expired fl now e)) [
          | inl old ↦ rw (old, same, old) refl
          | inr fresh ↦ rw (fresh, same, fresh) rest
        ]
    | inr other ↦
        let rest = expired_states_lem now entries k h.1 in
        elim (Bool-cases (is_expired fl now e)) [
          | inl old ↦ rw (old, other) rest
          | inr fresh ↦ rw (fresh, other) rest
        ]
  ]

  unless_expired_lem :
      (now : fl.Float) (r : Option (OauthStateEntry fl))
      → (if has_expired now r then none else r) ≡ unless_expired fl now r
  unless_expired_lem now none = refl
  unless_expired_lem now (some e) = refl

  unless_expired_twice :
      (now later : fl.Float) (e : OauthStateEntry fl)
      → unless_expired fl later (unless_expired fl now (some e))
        ≡ (if is_expired fl now e || is_expired fl later e then none else some e)
  unless_expired_twice now later e = elim (Bool-cases (is_expired fl now e)) [
    | inl old ↦ rw old refl
    | inr fresh ↦ rw fresh refl
  ]

  -- The collection of the expired entries takes no other.
  get-gc :
      (now : fl.Float) (entries : Entries fl) (k : String)
      → IsDict entries
      → get (gc fl now entries) k ≡ unless_expired fl now (get entries k)
  unfolding gc
  get-gc now entries k h =
      get-pop_states (expired_states fl now entries) entries k
      ∙ ap (λ b. if b then none else get entries k) (expired_states_lem now entries k h)
      ∙ unless_expired_lem now (get entries k)

  pop_states-IsDict :
      (ss : List String) (entries : Entries fl) → IsDict entries → IsDict (pop_states fl ss entries)
  unfolding pop_states
  pop_states-IsDict [] entries h = h
  pop_states-IsDict (s ∷ ss) entries h =
      pop_states-IsDict ss (pop entries s) (IsDict-pop entries s h)

  gc-IsDict : (now : fl.Float) (entries : Entries fl) → IsDict entries → IsDict (gc fl now entries)
  unfolding gc
  gc-IsDict now entries h = pop_states-IsDict (expired_states fl now entries) entries h

  put-IsDict :
      (now : fl.Float) (e : OauthStateEntry fl) (entries : Entries fl)
      → IsDict entries
      → IsDict (put fl now e entries)
  unfolding put
  put-IsDict now e entries h =
      IsDict-set_item (gc fl now entries) e.state e (gc-IsDict now entries h)

  calls-IsDict :
      (calls : List (StateCall fl)) (entries : Entries fl)
      → IsDict entries
      → IsDict (perform_state_calls fl calls entries)
  unfolding perform_state_calls pop_state
  calls-IsDict [] entries h = h
  calls-IsDict (put_call now e ∷ calls) entries h =
      calls-IsDict calls _ (put-IsDict now e entries h)
  calls-IsDict (pop_call now later s ∷ calls) entries h =
      calls-IsDict calls _ (IsDict-pop (gc fl now entries) s (gc-IsDict now entries h))

  -- After any calls on an empty store, an entry that is put comes back whole when its state is popped,
  -- unless it has expired at one of the two readings of the clock; then nothing comes back.
  pub pop_state-put :
      (calls : List (StateCall fl)) (e : OauthStateEntry fl) (now now' later' : fl.Float)
      → (pop_state fl now' later' e.state (put fl now e (perform_state_calls fl calls []))).0
        ≡ (if is_expired fl now' e || is_expired fl later' e then none else some e)
  unfolding pop_state put
  pop_state-put calls e now now' later' =
      let s = perform_state_calls fl calls [] in
      ap (unless_expired fl later') (
        get-gc now' (put fl now e s) e.state (put-IsDict now e s (calls-IsDict calls [] tt))
        ∙ ap (unless_expired fl now') (get-set_item_self (gc fl now s) e.state e))
      ∙ unless_expired_twice now' later' e
