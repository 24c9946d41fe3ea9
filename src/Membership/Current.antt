-- ===== src/Membership/Current.antt =====
-- The memberships in force (backend/app/services/membership_service.py): a function of user and domain
-- that the calls refine.
use domainrag_ops.Prelude.{
  String, ◌≡◌, refl, sym, ap, ◌∙◌, true, false, ◌==◌, string_eq, pair_eq, Option, none, some, List,
  [], ◌∷◌, if◌then◌else◌, Bool-cases, inl, inr,
}
use domainrag_ops.Dict.{get, get-set_item}
use domainrag_ops.Membership.{
  Membership, MembershipStore, assigned, assign, revoke, revoked, MembershipCall, assign_call,
  revoke_call, perform_call, perform_calls,
}

-- What a user has in a domain.
abbrev pub Access : Type 0
Access = String × String → Option Membership

abbrev pub if_active : Option Membership → Option Membership
if_active none = none
if_active (some m) = if m.is_active then some m else none

abbrev pub access_of : MembershipStore → Access
access_of s k = if_active (get s k)

-- What the last call on the user and the domain says.
abbrev pub promised : MembershipCall → Access → Access
promised (assign_call u d clearance department groups) a k =
    if (u, d) == k then some (assigned u d clearance department groups) else a k
promised (revoke_call u d) a k = if (u, d) == k then none else a k

abbrev pub promised_all : List MembershipCall → Access → Access
promised_all [] a = a
promised_all (c ∷ cs) a = promised_all cs (promised c a)

same_key : (s : MembershipStore) (j k : String × String) → (j == k) ≡ true → get s k ≡ get s j
same_key s j k e = ap (get s) (sym ((pair_eq.equals_iff j k).0 e))

inactive_lem : (m : Membership) → m.is_active ≡ false → if_active (some m) ≡ none
inactive_lem m e = rw e refl

revoked-access :
    (s : MembershipStore) (j k : String × String) (r : Option Membership)
    → get s j ≡ r
    → access_of (revoked s j r).1 k ≡ (if j == k then none else access_of s k)
revoked-access s j k none e = elim (Bool-cases (j == k)) [
  | inl same ↦ rw (same, same_key s j k same, e) refl
  | inr other ↦ rw other refl
]
revoked-access s j k (some m) e = elim (Bool-cases m.is_active) [
  | inl active ↦ elim (Bool-cases (j == k)) [
    | inl same ↦ rw (active, get-set_item s j k (record m { is_active = false }), same) refl
    | inr other ↦ rw (active, get-set_item s j k (record m { is_active = false }), other) refl
  ]
  | inr inactive ↦ elim (Bool-cases (j == k)) [
    | inl same ↦ rw (inactive, same, same_key s j k same, e) (inactive_lem m inactive)
    | inr other ↦ rw (inactive, other) refl
  ]
]

perform_call-access :
    (c : MembershipCall) (s : MembershipStore) (k : String × String)
    → access_of (perform_call c s) k ≡ promised c (access_of s) k
unfolding perform_call assign revoke
perform_call-access (assign_call u d clearance department groups) s k =
    elim (Bool-cases ((u, d) == k)) [
      | inl same ↦
          rw (get-set_item s (u, d) k (assigned u d clearance department groups), same) refl
      | inr other ↦
          rw (get-set_item s (u, d) k (assigned u d clearance department groups), other) refl
    ]
perform_call-access (revoke_call u d) s k = revoked-access s (u, d) k (get s (u, d)) refl

promised-equal :
    (c : MembershipCall) (a b : Access) (k : String × String)
    → a k ≡ b k
    → promised c a k ≡ promised c b k
promised-equal (assign_call u d clearance department groups) a b k e = rw e refl
promised-equal (revoke_call u d) a b k e = rw e refl

refines :
    (cs : List MembershipCall) (s : MembershipStore) (a : Access)
    → ((k : String × String) → access_of s k ≡ a k)
    → (k : String × String) → access_of (perform_calls cs s) k ≡ promised_all cs a k
unfolding perform_calls
refines [] s a h k = h k
refines (c ∷ cs) s a h k =
    refines cs (perform_call c s) (promised c a)
      (λ j. perform_call-access c s j ∙ promised-equal c (access_of s) a j (h j)) k

-- From any store, the memberships in force after calls of assign and revoke are those that the last
-- call on the user and the domain says: the assigned row, or none after a revocation. Where there
-- was no such call, they are as before.
pub perform_calls-access :
    (cs : List MembershipCall) (s : MembershipStore) (k : String × String)
    → access_of (perform_calls cs s) k ≡ promised_all cs (access_of s) k
perform_calls-access cs s k = refines cs s (access_of s) (λ j. refl) k
