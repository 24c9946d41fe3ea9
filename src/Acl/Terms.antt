-- ===== src/Acl/Terms.antt =====
-- The levels and the ACL terms of a user, against plain descriptions of both
-- (rag_core/services/acl_builder.py).
use Prim.Native.String.{◌++◌}
use mathlib.Core.List.{◌++◌ as ◌++ₗ◌}
use domainrag_ops.Prelude.{
  ℕ, String, ◌≡◌, refl, subst, ◌∙◌, Bool, true, false, ◌&&◌, ◌||◌, not, Option, none, some, List,
  [], ◌∷◌, map, arith, eq_iff, ◌==◌, string_eq, leb, any, Bool-cases, inl, inr,
}
use domainrag_ops.Dict.{Dict, get}
use domainrag_ops.Acl.Builder.{
  Principal, security_rank, user_rank, levels_up_to, allowed_levels, group_term, department_terms,
  member, dedup, raw_terms, user_acl_terms,
}

cleared_by : ℕ → Option ℕ → Bool
cleared_by n none = false
cleared_by n (some rank) = leb rank n

-- The level is known and its rank is at most the user's.
unfoldable pub clears : String → String → Bool
unfolding get cleared_by
clears clearance level = cleared_by (user_rank clearance) (get security_rank level)

-- Each key stands once.
abbrev DistinctKeys : Dict String ℕ → Type 0
DistinctKeys [] = Unit
DistinctKeys ((k, _) ∷ d) = (get d k ≡ none) × DistinctKeys d

levels_up_to_lem :
    (n : ℕ) (d : Dict String ℕ) (level : String)
    → DistinctKeys d
    → any (λ s. level == s) (levels_up_to n d) ≡ cleared_by n (get d level)
unfolding levels_up_to cleared_by get
levels_up_to_lem n [] level h = refl
levels_up_to_lem n ((k, r) ∷ d) level h = elim (Bool-cases (k == level)) [
  | inl same ↦
      let e : k ≡ level = (eq_iff k level).0 same in
      let gone : get d level ≡ none = subst (λ x. get d x ≡ none) e h.0 in
      ground (arith, same, gone, eq_iff level k, levels_up_to_lem n d level h.1)
  | inr other ↦
      ground (arith, other, eq_iff level k, eq_iff k level, levels_up_to_lem n d level h.1)
]

security_rank-DistinctKeys : DistinctKeys security_rank
unfolding get
security_rank-DistinctKeys = (refl, (refl, (refl, (refl, (refl, tt)))))

-- `_allowed_levels` lists exactly the known levels whose rank is at most the user's.
pub allowed_levels_lem :
    (clearance level : String)
    → any (λ s. level == s) (allowed_levels clearance) ≡ clears clearance level
unfolding allowed_levels clears
allowed_levels_lem clearance level =
    levels_up_to_lem (user_rank clearance) security_rank level security_rank-DistinctKeys

member-any :
    (a t : String) (seen : List String)
    → member t seen ≡ true
    → (a == t) ≡ true
    → any (λ s. a == s) seen ≡ true
member-any a t [] h e = h
member-any a t (s ∷ seen) h e =
    ground (arith, member-any a t seen, eq_iff s t, eq_iff a t, eq_iff a s)

dedup-any :
    (a : String) (seen ts : List String)
    → (any (λ s. a == s) seen || any (λ s. a == s) (dedup seen ts))
      ≡ (any (λ s. a == s) seen || any (λ s. a == s) ts)
unfolding dedup
dedup-any a seen [] = refl
dedup-any a seen (t ∷ ts) = elim (Bool-cases (member t seen)) [
  | inl old ↦ rw old (ground (arith, member-any a t seen old, dedup-any a seen ts))
  | inr new ↦ rw new (ground (arith, dedup-any a (t ∷ seen) ts))
]

-- A term that grants the user access: the user, the department, or one of the groups.
in_department : Option String → String → Bool
in_department none term = false
in_department (some d) term = not (d == "") && term == "dept:" ++ d

unfoldable pub names : Principal → String → Bool
unfolding in_department
names u term =
    term == "user:" ++ u.user_id
    || in_department u.department term
    || any (λ g. term == group_term g) u.domain_groups

any-append : (p : String → Bool) (xs ys : List String) → any p (xs ++ₗ ys) ≡ (any p xs || any p ys)
any-append p [] ys = refl
any-append p (x ∷ xs) ys = ground (arith, any-append p xs ys)

any-map :
    (p : String → Bool) (f : String → String) (xs : List String)
    → any p (map f xs) ≡ any (λ x. p (f x)) xs
any-map p f [] = refl
any-map p f (x ∷ xs) = ground (arith, any-map p f xs)

department_terms_lem :
    (d : Option String) (term : String)
    → any (λ s. term == s) (department_terms d) ≡ in_department d term
unfolding department_terms in_department
department_terms_lem none term = refl
department_terms_lem (some d) term = ground arith

-- `_user_acl_terms` lists exactly the terms that name the user.
pub user_acl_terms_lem :
    (u : Principal) (term : String) → any (λ s. term == s) (user_acl_terms u) ≡ names u term
unfolding user_acl_terms names raw_terms
user_acl_terms_lem u term =
    dedup-any term [] (raw_terms u)
    ∙ ground (
      arith,
      any-append (λ s. term == s) (department_terms u.department) (map group_term u.domain_groups),
      any-map (λ s. term == s) group_term u.domain_groups,
      department_terms_lem u.department term,
    )
