-- ===== src/Acl/Filter.antt =====
-- A Qdrant filter and its evaluation: `_condition_match` and `_payload_match` of
-- rag_core/clients/in_memory.py.
use domainrag_ops.Prelude.{String, Bool, true, false, Option, none, some, List, any, if◌then◌else◌}
use domainrag_ops.Payload.{
  Atom, null, Value, atom, items, Payload, lookup, atom_eq, value_eq, atom_lt,
}

-- `none` is a TypeError from a comparison.
infixl 5 ◌>>=◌
abbrev pub ◌>>=◌ {ℓ κ} : {A : Type ℓ} {B : Type κ} → Option A → (A → Option B) → Option B
none >>= f = none
some a >>= f = f a

pub record Range : Type 0 where
  pub lte : Option Atom
  pub gte : Option Atom
  pub lt : Option Atom
  pub gt : Option Atom

-- What stands under "match", "range" or neither in a condition with a key.
pub data Test : Type 0 where
  match_value : Value → Test
  match_any : List Atom → Test
  match_other : Test
  range : Range → Test
  no_test : Test

-- A condition dict, by the first of its keys that the code looks for.
mutual
  pub data Cond : Type 0 where
    must : Conds → Cond
    should : Conds → Cond
    is_null : Option String → Cond
    field : Option String → Test → Cond

  pub data Conds : Type 0 where
    nil : Conds
    cons : Cond → Conds → Conds

pub record Filter : Type 0 where
  pub musts : Conds
  pub must_nots : Conds

unfoldable pub atom_in : List Atom → Atom → Bool
unfolding atom_eq
atom_in allowed a = any (λ b. atom_eq a b) allowed

-- `any(a in allowed for a in actual)`, or `actual in allowed`
unfoldable pub in_allowed : Value → List Atom → Bool
unfolding atom_in
in_allowed (items xs) allowed = any (atom_in allowed) xs
in_allowed (atom a) allowed = atom_in allowed a

-- One `if "lte" in rng and actual > rng["lte"]: return False`, and what comes after it.
abbrev bounded : Option Atom → (Atom → Option Bool) → Option Bool → Option Bool
bounded none broken rest = rest
bounded (some b) broken rest = do out ← broken b; if out then some false else rest

-- `x >= y`
abbrev atom_ge : Atom → Atom → Option Bool
unfolding atom_lt
atom_ge x y = do less ← atom_lt x y; some (if less then false else true)

unfoldable pub range_match : Value → Range → Option Bool
unfolding atom_lt atom_ge
range_match (atom null) r = some false
range_match (items xs) r =
    bounded r.lte (λ _. none)
      (bounded r.gte (λ _. none) (bounded r.lt (λ _. none) (bounded r.gt (λ _. none) (some true))))
range_match (atom a) r =
    bounded r.lte (λ b. atom_lt b a)
      (bounded r.gte (λ b. atom_lt a b)
        (bounded r.lt (λ b. atom_ge a b) (bounded r.gt (λ b. atom_ge b a) (some true))))

unfoldable pub test_match : Value → Test → Option Bool
unfolding in_allowed value_eq range_match
test_match actual (match_value v) = some (value_eq actual v)
test_match actual (match_any allowed) = some (in_allowed actual allowed)
test_match actual match_other = some true
test_match actual (range r) = range_match actual r
test_match actual no_test = some true

abbrev pub is_none : Value → Bool
is_none (atom null) = true
is_none _ = false

unfoldable mutual
  unfolding test_match lookup

  pub condition_match : Payload → Cond → Option Bool
  condition_match p (must cs) = all_match p cs
  condition_match p (should cs) = any_match p cs
  condition_match p (is_null none) = some true
  condition_match p (is_null (some k)) = some (is_none (lookup p k))
  condition_match p (field none t) = some true
  condition_match p (field (some k) t) = test_match (lookup p k) t

  -- `all(…)` and `any(…)` stop at the first condition that decides.
  pub all_match : Payload → Conds → Option Bool
  all_match p nil = some true
  all_match p (cons c cs) =
      let rest = all_match p cs in do ok ← condition_match p c; if ok then rest else some false

  pub any_match : Payload → Conds → Option Bool
  any_match p nil = some false
  any_match p (cons c cs) =
      let rest = any_match p cs in do ok ← condition_match p c; if ok then some true else rest

-- `none` for the filter is `None` or the empty dict.
unfoldable pub payload_match : Payload → Option Filter → Option Bool
unfolding all_match any_match
payload_match p none = some true
payload_match p (some f) = do
  ok ← all_match p f.musts
  if ok then (do bad ← any_match p f.must_nots; some (if bad then false else true)) else some false
