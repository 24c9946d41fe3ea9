-- ===== src/Tests/Logins.antt =====
-- Two logins, one of which comes back twice.
use domainrag_ops.Prelude.{
  String, ◌≡◌, ◌||◌, if◌then◌else◌, refl, none, some, [], ◌∷◌, arith, eq_iff,
}
use domainrag_ops.Dict.{get}
use domainrag_ops.OauthState.{
  OauthStateEntry, Entries, put_call, is_expired, put, pop_state, gc, expired_states, pop_states,
  perform_state_calls,
}
use domainrag_ops.OauthState.Once.{pop_state_once}
use domainrag_ops.OauthState.Returned.{pop_state-put}
use domainrag_ops.Tests.Floats.{thousandths}

abbrev login : String → OauthStateEntry thousandths
login state = record {
  state = state;
  domain_id = "hr";
  code_verifier = "v";
  redirect_uri = "/callback";
  client_id = "portal";
  expires_at = 600;
}

abbrev waiting : Entries thousandths
waiting = ("s1", login "s1") ∷ []

first_pop : (pop_state thousandths 10 11 "s1" waiting).0 ≡ some (login "s1")
unfolding pop_state gc expired_states pop_states get
first_pop = refl

pop_state_once_example :
    (pop_state thousandths 30 31 "s1" (
      perform_state_calls thousandths
        (put_call 20 (login "s2") ∷ [])
        (pop_state thousandths 10 11 "s1" waiting).1)).0
    ≡ none
pop_state_once_example =
    pop_state_once thousandths 10 11 30 31 "s1" (put_call 20 (login "s2") ∷ []) waiting
      (ground (arith, eq_iff "s2" "s1"), tt)

pop_state-put_example :
    (pop_state thousandths 30 31 "s2" (
      put thousandths 20
        (login "s2")
        (perform_state_calls thousandths (put_call 5 (login "s1") ∷ []) []))).0
    ≡ (if is_expired thousandths 30 (login "s2") || is_expired thousandths 31 (login "s2")
        then none
        else some (login "s2"))
pop_state-put_example =
    pop_state-put thousandths (put_call 5 (login "s1") ∷ []) (login "s2") 20 30 31
