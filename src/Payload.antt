-- ===== src/Payload.antt =====
-- The payload of a stored chunk, a Python dict of JSON values (rag_core/clients/in_memory.py), with
-- Python's `==` and `>` on those values. A text compares by its code points.
use Prim.Native.Nat.{Ordering}
use Prim.Native.String.{compare}
use domainrag_ops.Prelude.{
  ℕ, String, Bool, true, false, ◌&&◌, Option, none, some, List, [], ◌∷◌, ◌==◌, ltb, if◌then◌else◌,
  or_else, string_eq, nat_eq, pair_eq,
}
use domainrag_ops.Dict.{Dict, get}

-- The dict that `_finding_to_dict` returns (rag_core/services/pii_service.py).
pub record Finding : Type 0 where
  pub category : String
  pub severity : String
  pub position : ℕ × ℕ
  pub masked_form : String
  pub action : String

pub data Atom : Type 0 where
  null : Atom
  text : String → Atom
  flag : Bool → Atom
  num : ℕ → Atom
  finding : Finding → Atom

pub data Value : Type 0 where
  atom : Atom → Value
  items : List Atom → Value

abbrev pub Payload : Type 0
Payload = Dict String Value

-- `payload.get(key)`
unfoldable pub lookup : Payload → String → Value
lookup p k = or_else (get p k) (atom null)

abbrev pub text_lt : String → String → Bool
text_lt s t = elim (compare s t) [ Ordering.lt ↦ true | _ ↦ false ]

-- `True` is the number 1 in Python.
abbrev pub bit : Bool → ℕ
bit b = if b then 1 else 0

abbrev finding_eq : Finding → Finding → Bool
finding_eq f g =
    f.category == g.category
    && f.severity == g.severity
    && f.position == g.position
    && f.masked_form == g.masked_form
    && f.action == g.action

unfoldable pub atom_eq : Atom → Atom → Bool
atom_eq null null = true
atom_eq (text s) (text t) = s == t
atom_eq (flag b) (flag c) = bit b == bit c
atom_eq (flag b) (num n) = bit b == n
atom_eq (num n) (flag b) = n == bit b
atom_eq (num n) (num m) = n == m
atom_eq (finding f) (finding g) = finding_eq f g
atom_eq _ _ = false

items_eq : List Atom → List Atom → Bool
unfolding atom_eq
items_eq [] [] = true
items_eq (a ∷ as') (b ∷ bs) = atom_eq a b && items_eq as' bs
items_eq _ _ = false

unfoldable pub value_eq : Value → Value → Bool
unfolding atom_eq items_eq
value_eq (atom a) (atom b) = atom_eq a b
value_eq (items xs) (items ys) = items_eq xs ys
value_eq _ _ = false

-- `a < b`; `none` where Python raises a TypeError.
unfoldable pub atom_lt : Atom → Atom → Option Bool
atom_lt (text s) (text t) = some (text_lt s t)
atom_lt (flag b) (flag c) = some (ltb (bit b) (bit c))
atom_lt (flag b) (num n) = some (ltb (bit b) n)
atom_lt (num n) (flag b) = some (ltb n (bit b))
atom_lt (num n) (num m) = some (ltb n m)
atom_lt _ _ = none
