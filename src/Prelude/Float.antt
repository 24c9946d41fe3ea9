-- ===== src/Prelude/Float.antt =====
-- Python's `float` is not defined by the program: its operations are a parameter.
use Prim.Native.Nat.{ℕ, ◌≤◌}
use mathlib.Core.Path.{◌≡◌}
use mathlib.Core.Bool.{Bool, true, false}
use native.Mathlib.Omega.{arith}
use domainrag_ops.Prelude.Tests.{if◌then◌else◌}
use domainrag_ops.Prelude.Sorting.{IsOrder}

pub record FloatOps : Type 1 where
  pub Float : Type 0
  -- the literal `a / b`, such as `0.75` for 75 and 100, and an `int` as a float
  pub ratio : ℕ → ℕ → Float
  pub of_ℕ : ℕ → Float
  pub lt : Float → Float → Bool
  pub le : Float → Float → Bool
  pub is_zero : Float → Bool
  pub plus : Float → Float → Float
  pub minus : Float → Float → Float
  pub times : Float → Float → Float
  pub over : Float → Float → Float
  pub sqrt : Float → Float

module _ (fl : FloatOps) where
  open fl use {Float, lt, le, of_ℕ, ratio, is_zero}

  -- A float that is not NaN.
  abbrev pub IsNumber : Float → Type 0
  IsNumber x = le x x ≡ true

  -- What IEEE 754 says of comparisons: they are all false on NaN, and a total order elsewhere.
  pub record FloatLaws : Type 0 where
    pub le-of-lt : (x y : Float) → lt x y ≡ true → le x y ≡ true
    pub le_trans : (x y z : Float) → le x y ≡ true → le y z ≡ true → le x z ≡ true
    pub lt-false : (x y : Float) → le y x ≡ true → lt x y ≡ false
    pub le-total : (x y : Float) → IsNumber x → IsNumber y → lt x y ≡ false → le y x ≡ true
    pub of_ℕ-le : (a b : ℕ) → a ≤ b → le (of_ℕ a) (of_ℕ b) ≡ true

  -- `min(a, b)` and `max(a, b)` keep the first of two that compare alike.
  abbrev pub min : Float → Float → Float
  min a b = if lt b a then b else a

  abbrev pub max : Float → Float → Float
  max a b = if lt a b then b else a

module _ (fl : FloatOps) (laws : FloatLaws fl) where
  open fl use {Float, lt, le, of_ℕ}

  -- `max(0.0, min(1.0, x))` lies in [0, 1], for NaN too.
  pub clamp_bounds :
      (x : Float)
      → (le (of_ℕ 0) (max fl (of_ℕ 0) (min fl (of_ℕ 1) x)) ≡ true)
        × (le (max fl (of_ℕ 0) (min fl (of_ℕ 1) x)) (of_ℕ 1) ≡ true)
  clamp_bounds x = ground (
    arith,
    laws.le-of-lt (of_ℕ 0) x,
    laws.le-of-lt x (of_ℕ 1),
    laws.of_ℕ-le 0 1,
    laws.of_ℕ-le 1 1,
    laws.of_ℕ-le 0 0,
  )

  -- Items in descending order of a float that is a number for each.
  pub descending_order {ℓ} :
      {A : Type ℓ} (key : A → Float)
      → IsOrder (λ y x. lt (key x) (key y)) (λ x. IsNumber fl (key x))
  descending_order key = record {
    asym = λ x y nx ny e. laws.lt-false (key y) (key x) (laws.le-of-lt (key x) (key y) e);
    trans = λ x y z nx ny nz e f. laws.lt-false (key x) (key z) (
        laws.le_trans (key z) (key y) (key x) (laws.le-total (key y) (key z) ny nz f)
          (laws.le-total (key x) (key y) nx ny e));
  }
