-- ===== src/Acl/Builder.antt =====
-- `build_qdrant_acl_filter` and its helpers (rag_core/services/acl_builder.py).
use Prim.Native.String.{◌++◌}
use mathlib.Core.List.{◌++◌ as ◌++ₗ◌}
use package.text.Mathlib.Text.{starts_with}
use domainrag_ops.Prelude.{
  ℕ, String, Bool, true, ◌||◌, Option, none, some, List, [], ◌∷◌, ◌==◌, leb, any, map,
  if◌then◌else◌, or_else, string_eq,
}
use domainrag_ops.Dict.{Dict, get}
use domainrag_ops.Payload.{text, flag, atom}
use domainrag_ops.Acl.Filter.{
  Range, match_value, match_any, range, Cond, should, is_null, field, Conds, nil, cons, Filter,
}

abbrev pub security_rank : Dict String ℕ
security_rank =
    ("public", 0) ∷ ("internal", 1) ∷ ("confidential", 2) ∷ ("restricted", 3) ∷ ("secret", 3) ∷ []

unfoldable pub user_rank : String → ℕ
unfolding get
user_rank clearance = or_else (get security_rank clearance) 1

unfoldable pub levels_up_to : ℕ → Dict String ℕ → List String
levels_up_to n [] = []
levels_up_to n ((level, rank) ∷ d) =
    let rest = levels_up_to n d in if leb rank n then level ∷ rest else rest

-- `_allowed_levels`
unfoldable pub allowed_levels : String → List String
unfolding levels_up_to user_rank
allowed_levels clearance = levels_up_to (user_rank clearance) security_rank

-- What the gateway knows of the user: the arguments of `build_qdrant_acl_filter`.
pub record Principal : Type 0 where
  pub user_id : String
  pub clearance : String
  pub department : Option String
  pub domain_groups : List String

abbrev pub has_prefix : String → Bool
has_prefix g = starts_with g "user:" || starts_with g "group:" || starts_with g "dept:"

unfoldable pub group_term : String → String
group_term g = if has_prefix g then g else "group:" ++ g

-- `if department:` takes neither `None` nor the empty text.
unfoldable pub department_terms : Option String → List String
department_terms none = []
department_terms (some d) = if d == "" then [] else ("dept:" ++ d) ∷ []

abbrev pub member : String → List String → Bool
member t ts = any (λ s. s == t) ts

-- The loop over `terms` with `seen`; `seen` and `out` hold the same texts.
unfoldable pub dedup : List String → List String → List String
dedup seen [] = []
dedup seen (t ∷ ts) =
    let again = dedup seen ts in
    let fresh = dedup (t ∷ seen) ts in if member t seen then again else t ∷ fresh

unfoldable pub raw_terms : Principal → List String
unfolding department_terms group_term
raw_terms u =
    ("user:" ++ u.user_id) ∷ (department_terms u.department ++ₗ map group_term u.domain_groups)

-- `_user_acl_terms`
unfoldable pub user_acl_terms : Principal → List String
unfolding raw_terms dedup
user_acl_terms u = dedup [] (raw_terms u)

abbrev pub only : Cond → Cond → Conds
only c d = cons c (cons d nil)

abbrev pub no_bounds : Range
no_bounds = record { lte = none; gte = none; lt = none; gt = none }

-- The two conditions on the period of validity; `today` is the ISO text of the date.
abbrev pub starts_by : String → Cond
starts_by today = should (
    only (is_null (some "valid_from"))
      (field (some "valid_from") (range (record no_bounds { lte = some (text today) }))))

abbrev pub ends_from : String → Cond
ends_from today = should (
    only (is_null (some "valid_until"))
      (field (some "valid_until") (range (record no_bounds { gte = some (text today) }))))

abbrev pub dated : Option String → Conds
dated none = nil
dated (some today) = only (starts_by today) (ends_from today)

abbrev pub level_conds : Principal → Option String → Conds
level_conds u today =
    cons (field (some "security_level") (match_any (map text (allowed_levels u.clearance))))
      (cons (field (some "acl") (match_any (map text (user_acl_terms u)))) (dated today))

abbrev pub acl_conds : Principal → Option String → Conds
acl_conds u today =
    cons (field (some "approval_status") (match_value (atom (text "approved"))))
      (level_conds u today)

abbrev pub archived_conds : Bool → Conds
archived_conds exclude_archived =
    if exclude_archived
    then cons (field (some "archived") (match_value (atom (flag true)))) nil
    else nil

unfoldable pub build_qdrant_acl_filter : Principal → Option String → Bool → Filter
unfolding allowed_levels user_acl_terms
build_qdrant_acl_filter u today exclude_archived = record {
  musts = acl_conds u today;
  must_nots = archived_conds exclude_archived;
}
