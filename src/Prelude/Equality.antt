-- ===== src/Prelude/Equality.antt =====
-- Python's `==` on the types that are compared: one operator, an instance for each type.
use Prim.Native.Nat.{ℕ, compare, Ordering}
use Prim.Native.String.{String}
use mathlib.Core.Path.{◌≡◌}
use mathlib.Core.Logic.{◌↔◌}
use mathlib.Core.Bool.{Bool, true, false, ◌&&◌}
use native.Mathlib.Omega.{arith}
use text.Mathlib.Text.{◌==◌ as str_eq}
use text.Mathlib.TextEquality.{eq_iff}

-- The test that `__eq__` makes on values of `K`, and that it decides equality.
pub record HasEq {ℓ} (K : Type ℓ) : Type ℓ where
  pub equals : K → K → Bool
  pub equals_iff : (x y : K) → (equals x y ≡ true) ↔ (x ≡ y)

abbrev pub same_number : ℕ → ℕ → Bool
same_number m n = elim (compare m n) [ Ordering.eq ↦ true | _ ↦ false ]

pub same_number_iff : (m n : ℕ) → (same_number m n ≡ true) ↔ (m ≡ n)
same_number_iff m n = (λ h. ground arith, λ h. ground arith)

instance abbrev pub string_eq : HasEq String
string_eq = record { equals = str_eq; equals_iff = eq_iff }

instance abbrev pub nat_eq : HasEq ℕ
nat_eq = record { equals = same_number; equals_iff = same_number_iff }

module _ {ℓ} {K : Type ℓ} ⦃e : HasEq K⦄ where
  infix 50 ◌==◌
  abbrev pub ◌==◌ : K → K → Bool
  x == y = e.equals x y

module _ {ℓ κ} {A : Type ℓ} {B : Type κ} ⦃ea : HasEq A⦄ ⦃eb : HasEq B⦄ where
  abbrev pub pair_beq : A × B → A × B → Bool
  pair_beq (a, b) (c, d) = a == c && b == d

  pub pair_beq_iff : (p q : A × B) → (pair_beq p q ≡ true) ↔ (p ≡ q)
  pair_beq_iff (a, b) (c, d) = (
    λ h. ground (arith, ea.equals_iff a c, eb.equals_iff b d),
    λ h. ground (arith, ea.equals_iff a c, eb.equals_iff b d),
  )

  instance abbrev pub pair_eq : HasEq (A × B)
  pair_eq = record { equals = pair_beq; equals_iff = pair_beq_iff }
