-- ===== src/Tests/Members.antt =====
-- A user who is assigned to a domain, loses it, and is assigned to another.
use domainrag_ops.Prelude.{◌≡◌, refl, none, some, List, [], ◌∷◌, pair_eq, string_eq}
use domainrag_ops.Dict.{get, set_item}
use domainrag_ops.Membership.{
  MembershipCall, assign_call, revoke_call, perform_call, perform_calls, assigned, assign, revoke,
}
use domainrag_ops.Membership.Current.{access_of, promised_all, perform_calls-access}

abbrev calls : List MembershipCall
calls =
    assign_call "kim" "hr" none none none
    ∷ revoke_call "kim" "hr"
    ∷ assign_call "kim" "law" (some "secret") none (some ("judges" ∷ []))
    ∷ []

kim_has_law :
    access_of (perform_calls calls []) ("kim", "law")
    ≡ some (assigned "kim" "law" (some "secret") none (some ("judges" ∷ [])))
unfolding perform_calls perform_call assign revoke get set_item
kim_has_law = refl

perform_calls-access_example :
    access_of (perform_calls calls []) ("kim", "hr")
    ≡ promised_all calls (access_of []) ("kim", "hr")
perform_calls-access_example = perform_calls-access calls [] ("kim", "hr")
