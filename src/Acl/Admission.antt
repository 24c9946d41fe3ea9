-- ===== src/Acl/Admission.antt =====
-- Which chunks pass the filter that `build_qdrant_acl_filter` makes: the rules that the
-- doc comment of rag_core/services/acl_builder.py states, as one test on the chunk's fields.
use domainrag_ops.Prelude.{
  String, ◌≡◌, refl, ap, Bool, true, false, ◌&&◌, not, Option, none, some, List, [], ◌∷◌, map,
  arith, ◌==◌, string_eq, any,
}
use domainrag_ops.Payload.{
  null, text, flag, Value, atom, items, Payload, lookup, text_lt, atom_eq, value_eq,
}
use domainrag_ops.Acl.Filter.{
  match_value, match_any, Cond, field, Conds, nil, cons, all_match, any_match, atom_in, in_allowed,
  range_match, test_match, condition_match, payload_match,
}
use domainrag_ops.Acl.Builder.{
  Principal, allowed_levels, user_acl_terms, starts_by, ends_from, dated, level_conds, acl_conds,
  archived_conds, build_qdrant_acl_filter,
}
use domainrag_ops.Acl.Terms.{clears, names, allowed_levels_lem, user_acl_terms_lem}

-- The fields of a chunk on which access depends.
pub record AclMeta : Type 0 where
  pub approval_status : String
  pub security_level : String
  pub acl : List String
  pub valid_from : Option String
  pub valid_until : Option String
  pub archived : Bool

abbrev pub text_or_null : Option String → Value
text_or_null none = atom null
text_or_null (some s) = atom (text s)

-- The payload holds those fields; a chunk that was never archived may have no such entry.
pub record Describes (m : AclMeta) (p : Payload) : Type 0 where
  pub approval_status : lookup p "approval_status" ≡ atom (text m.approval_status)
  pub security_level : lookup p "security_level" ≡ atom (text m.security_level)
  pub acl : lookup p "acl" ≡ items (map text m.acl)
  pub valid_from : lookup p "valid_from" ≡ text_or_null m.valid_from
  pub valid_until : lookup p "valid_until" ≡ text_or_null m.valid_until
  pub archived : value_eq (lookup p "archived") (atom (flag true)) ≡ m.archived

started : String → Option String → Bool
started today none = true
started today (some from) = not (text_lt today from)

not_over : String → Option String → Bool
not_over today none = true
not_over today (some until) = not (text_lt until today)

abbrev in_period : Option String → AclMeta → Bool
in_period none m = true
in_period (some today) m = started today m.valid_from && not_over today m.valid_until

-- Approved, within the clearance, shared with the user, in its period, and not archived.
unfoldable pub admits : Principal → Option String → Bool → AclMeta → Bool
unfolding started not_over
admits u today exclude_archived m =
    (m.approval_status == "approved")
    && clears u.clearance m.security_level
    && any (names u) m.acl
    && in_period today m
    && not (exclude_archived && m.archived)

atom_in-map_text :
    (s : String) (ts : List String) → atom_in (map text ts) (text s) ≡ any (λ t. s == t) ts
unfolding atom_in atom_eq
atom_in-map_text s [] = refl
atom_in-map_text s (t ∷ ts) = ground (arith, atom_in-map_text s ts)

acl_shared :
    (u : Principal) (acl : List String)
    → any (atom_in (map text (user_acl_terms u))) (map text acl) ≡ any (names u) acl
acl_shared u [] = refl
acl_shared u (t ∷ acl) =
    ground (arith, atom_in-map_text t (user_acl_terms u), user_acl_terms_lem u t, acl_shared u acl)

level_cleared :
    (clearance level : String)
    → atom_in (map text (allowed_levels clearance)) (text level) ≡ clears clearance level
level_cleared clearance level =
    ground
      (arith, atom_in-map_text level (allowed_levels clearance), allowed_levels_lem clearance level)

-- The conditions on the period, evaluated.
module _ (m : AclMeta) (p : Payload) (d : Describes m p) where
  approved_lem :
      condition_match p (field (some "approval_status") (match_value (atom (text "approved"))))
      ≡ some (m.approval_status == "approved")
  unfolding condition_match test_match
  approved_lem = rw d.approval_status

  level_lem :
      (u : Principal)
      → condition_match p
          (field (some "security_level") (match_any (map text (allowed_levels u.clearance))))
        ≡ some (clears u.clearance m.security_level)
  unfolding condition_match test_match in_allowed
  level_lem u = rw d.security_level (ap some (level_cleared u.clearance m.security_level))

  acl_lem :
      (u : Principal)
      → condition_match p (field (some "acl") (match_any (map text (user_acl_terms u))))
        ≡ some (any (names u) m.acl)
  unfolding condition_match test_match in_allowed
  acl_lem u = rw d.acl (ap some (acl_shared u m.acl))

  started_lem :
      (today : String) → condition_match p (starts_by today) ≡ some (started today m.valid_from)
  unfolding condition_match test_match range_match started
  started_lem today = ground (arith, d.valid_from)

  not_over_lem :
      (today : String) → condition_match p (ends_from today) ≡ some (not_over today m.valid_until)
  unfolding condition_match test_match range_match not_over
  not_over_lem today = ground (arith, d.valid_until)

  archived_lem :
      condition_match p (field (some "archived") (match_value (atom (flag true)))) ≡ some m.archived
  unfolding condition_match test_match
  archived_lem = ap some d.archived

  all_match-cons :
      (c : Cond) (cs : Conds) (b r : Bool)
      → condition_match p c ≡ some b
      → all_match p cs ≡ some r
      → all_match p (cons c cs) ≡ some (b && r)
  unfolding all_match
  all_match-cons c cs true r h k = rw (h, k)
  all_match-cons c cs false r h k = rw h

  all_match-nil : all_match p nil ≡ some true
  unfolding all_match
  all_match-nil = refl

  dated_lem : (today : Option String) → all_match p (dated today) ≡ some (in_period today m)
  dated_lem none = all_match-nil
  dated_lem (some today) = ground (
    arith,
    all_match-cons (starts_by today) (cons (ends_from today) nil) (started today m.valid_from)
        (not_over today m.valid_until && true) (started_lem today)
        (all_match-cons (ends_from today) nil (not_over today m.valid_until) true
          (not_over_lem today) all_match-nil),
  )

  must_nots_lem :
      (exclude_archived : Bool)
      → any_match p (archived_conds exclude_archived) ≡ some (exclude_archived && m.archived)
  unfolding any_match
  must_nots_lem true = ground (arith, archived_lem)
  must_nots_lem false = refl

  acl_musts_lem :
      (u : Principal) (today : Option String)
      → all_match p
          (cons (field (some "acl") (match_any (map text (user_acl_terms u)))) (dated today))
        ≡ some (any (names u) m.acl && in_period today m)
  acl_musts_lem u today =
      all_match-cons (field (some "acl") (match_any (map text (user_acl_terms u)))) (dated today)
        (any (names u) m.acl) (in_period today m) (acl_lem u) (dated_lem today)

  musts_lem :
      (u : Principal) (today : Option String)
      → all_match p (acl_conds u today)
        ≡ some (
            (m.approval_status == "approved")
            && (clears u.clearance m.security_level && (any (names u) m.acl && in_period today m)))
  musts_lem u today =
      all_match-cons (field (some "approval_status") (match_value (atom (text "approved"))))
        (level_conds u today) (m.approval_status == "approved")
        (clears u.clearance m.security_level && (any (names u) m.acl && in_period today m))
        approved_lem
        (all_match-cons
          (field (some "security_level") (match_any (map text (allowed_levels u.clearance))))
          (cons (field (some "acl") (match_any (map text (user_acl_terms u)))) (dated today))
          (clears u.clearance m.security_level) (any (names u) m.acl && in_period today m)
          (level_lem u) (acl_musts_lem u today))

  -- For a payload that holds the fields of a chunk, evaluating the filter of build_qdrant_acl_filter
  -- raises nothing and is true exactly if the chunk is approved, its level is known and within the
  -- clearance, its ACL names the user (so that a chunk with an empty ACL passes for nobody), today
  -- lies in its period (if a date is given) and it is not archived (if those are excluded).
  pub payload_match-build :
      (u : Principal) (today : Option String) (exclude_archived : Bool)
      → payload_match p (some (build_qdrant_acl_filter u today exclude_archived))
        ≡ some (admits u today exclude_archived m)
  unfolding payload_match build_qdrant_acl_filter admits
  payload_match-build u today exclude_archived =
      rw (musts_lem u today, must_nots_lem exclude_archived) (ground arith)
