-- ===== src/Membership.antt =====
-- `InMemoryMembershipService` (backend/app/services/membership_service.py): which users may use which
-- domains, and with what clearance, department and groups.
pub mod Current
use domainrag_ops.Prelude.{
  String, Bool, true, false, ◌&&◌, ◌||◌, ◌==◌, string_eq, pair_eq, Option, none, some, List, [],
  ◌∷◌, map, keep, or_else, sort_by, if◌then◌else◌,
}
use domainrag_ops.Payload.{text_lt}
use domainrag_ops.Dict.{Dict, get, set_item}

-- A row, as `_row_to_dict` makes it.
pub record Membership : Type 0 where
  pub user_id : String
  pub domain_id : String
  pub clearance : String
  pub department : Option String
  pub domain_groups : List String
  pub is_active : Bool

abbrev pub MembershipStore : Type 0
MembershipStore = Dict (String × String) Membership

-- The order of the keys, for `sorted`: a goes after b.
unfoldable pub key_after : (String × String) × Membership → (String × String) × Membership → Bool
key_after ((u, d), _) ((v, e), _) = text_lt v u || (v == u && text_lt e d)

abbrev pub is_of_user : String → (String × String) × Membership → Bool
is_of_user user_id ((u, _), m) = u == user_id && m.is_active

abbrev pub is_of_tenant : String → (String × String) × Membership → Bool
is_of_tenant domain_id ((_, d), _) = d == domain_id

abbrev row_of : (String × String) × Membership → Membership
row_of (_, m) = m

unfoldable pub list_for_user : MembershipStore → String → List Membership
list_for_user s user_id = map row_of (keep (is_of_user user_id) (sort_by key_after s))

unfoldable pub list_for_tenant : MembershipStore → String → List Membership
list_for_tenant s domain_id = map row_of (keep (is_of_tenant domain_id) (sort_by key_after s))

-- `_row_to_dict` with `is_active=True`
abbrev pub assigned :
    String → String → Option String → Option String → Option (List String) → Membership
assigned user_id domain_id clearance department domain_groups = record {
  user_id = user_id;
  domain_id = domain_id;
  clearance = or_else clearance "internal";
  department = department;
  domain_groups = or_else domain_groups [];
  is_active = true;
}

-- The row is returned, too.
unfoldable pub assign :
    MembershipStore
    → String
    → String
    → Option String
    → Option String
    → Option (List String)
    → Membership × MembershipStore
assign s user_id domain_id clearance department domain_groups =
    let rec = assigned user_id domain_id clearance department domain_groups in
    (rec, set_item s (user_id, domain_id) rec)

abbrev pub revoked : MembershipStore → String × String → Option Membership → Bool × MembershipStore
revoked s k none = (false, s)
revoked s k (some rec) =
    if rec.is_active then (true, set_item s k (record rec { is_active = false })) else (false, s)

unfoldable pub revoke : MembershipStore → String → String → Bool × MembershipStore
revoke s user_id domain_id = revoked s (user_id, domain_id) (get s (user_id, domain_id))

-- A call that changes the store.
pub data MembershipCall : Type 0 where
  assign_call :
      String → String → Option String → Option String → Option (List String) → MembershipCall
  revoke_call : String → String → MembershipCall

unfoldable pub perform_call : MembershipCall → MembershipStore → MembershipStore
unfolding assign revoke
perform_call (assign_call u d clearance department groups) s =
    (assign s u d clearance department groups).1
perform_call (revoke_call u d) s = (revoke s u d).1

unfoldable pub perform_calls : List MembershipCall → MembershipStore → MembershipStore
perform_calls [] s = s
perform_calls (c ∷ cs) s = perform_calls cs (perform_call c s)
