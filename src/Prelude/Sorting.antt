-- ===== src/Prelude/Sorting.antt =====
-- Python's stable sort, by a test `before y x`: `y` goes strictly before `x`.
use mathlib.Core.Path.{◌≡◌, refl}
use mathlib.Core.Logic.{inl, inr}
use mathlib.Core.Bool.{Bool, true, false, ◌||◌}
use mathlib.Core.List.{List, [], ◌∷◌, map, Perm}
use mathlib.Core.List.Perm
use native.Mathlib.Omega.{arith}
use Prim.Native.Nat.{ℕ, zero, suc}
use domainrag_ops.Prelude.Tests.{if◌then◌else◌, Bool-cases}
use domainrag_ops.Prelude.Lists.{length, take, All, All-take, any}

module _ {ℓ} {A : Type ℓ} (before : A → A → Bool) where
  pub insert_by : A → List A → List A
  insert_by x [] = x ∷ []
  insert_by x (y ∷ ys) = if before y x then y ∷ insert_by x ys else x ∷ y ∷ ys

  unfoldable pub sort_by : List A → List A
  unfolding insert_by
  sort_by [] = []
  sort_by (x ∷ xs) = insert_by x (sort_by xs)

module _ {ℓ} {A : Type ℓ} (before : A → A → Bool) where
  length-insert_by : (x : A) (ys : List A) → length (insert_by before x ys) ≡ length (x ∷ ys)
  unfolding insert_by
  length-insert_by x [] = refl
  length-insert_by x (y ∷ ys) = ground (arith, length-insert_by x ys)

  pub length-sort_by : (xs : List A) → length (sort_by before xs) ≡ length xs
  unfolding sort_by
  length-sort_by [] = refl
  length-sort_by (x ∷ xs) = omega (arith, length-insert_by x (sort_by before xs), length-sort_by xs)

  insert_by-perm : (x : A) (ys : List A) → Perm (insert_by before x ys) (x ∷ ys)
  unfolding insert_by
  insert_by-perm x [] = Perm.refl (x ∷ [])
  insert_by-perm x (y ∷ ys) = elim (Bool-cases (before y x)) [
    | inl e ↦ rw e (Perm.trans (Perm.cons y (insert_by-perm x ys)) (Perm.swap x y ys))
    | inr e ↦ rw e (Perm.refl (x ∷ y ∷ ys))
  ]

  -- Sorting only reorders.
  pub sort_by-perm : (xs : List A) → Perm (sort_by before xs) xs
  unfolding sort_by
  sort_by-perm [] = Perm.refl []
  sort_by-perm (x ∷ xs) =
      Perm.trans (insert_by-perm x (sort_by before xs)) (Perm.cons x (sort_by-perm xs))

module _ {ℓ κ} {A : Type ℓ} (before : A → A → Bool) (P : A → Type κ) where
  pub All-insert_by : (x : A) (ys : List A) → P x → All P ys → All P (insert_by before x ys)
  unfolding insert_by
  All-insert_by x [] hx h = (hx, tt)
  All-insert_by x (y ∷ ys) hx h = elim (Bool-cases (before y x)) [
    | inl e ↦ rw e (h.0, All-insert_by x ys hx h.1)
    | inr e ↦ rw e (hx, h)
  ]

  pub All-sort_by : (xs : List A) → All P xs → All P (sort_by before xs)
  unfolding sort_by
  All-sort_by [] h = tt
  All-sort_by (x ∷ xs) h = All-insert_by x (sort_by before xs) h.0 (All-sort_by xs h.1)

-- No item stands behind one that it goes before.
abbrev pub IsSorted {ℓ} : {A : Type ℓ} → (A → A → Bool) → List A → Type 0
IsSorted before [] = Unit
IsSorted before (x ∷ xs) = All (λ z. before z x ≡ false) xs × IsSorted before xs

pub IsSorted-take {ℓ} :
    {A : Type ℓ} (before : A → A → Bool) (n : ℕ) (xs : List A)
    → IsSorted before xs
    → IsSorted before (take n xs)
IsSorted-take before zero xs h = tt
IsSorted-take before (suc n) [] h = tt
IsSorted-take before (suc n) (x ∷ xs) h =
    (All-take (λ z. before z x ≡ false) n xs h.0, IsSorted-take before n xs h.1)

module _ {ℓ κ} {A : Type ℓ} {B : Type κ} (before : B → B → Bool) (f : A → B) where
  behind-map :
      (x : A) (zs : List A)
      → All (λ z. before (f z) (f x) ≡ false) zs
      → All (λ z. before z (f x) ≡ false) (map f zs)
  behind-map x [] k = tt
  behind-map x (z ∷ zs) k = (k.0, behind-map x zs k.1)

  pub IsSorted-map :
      (xs : List A) → IsSorted (λ y x. before (f y) (f x)) xs → IsSorted before (map f xs)
  IsSorted-map [] h = tt
  IsSorted-map (x ∷ xs) h = (behind-map x xs h.0, IsSorted-map xs h.1)

-- The test is a strict weak order on the items that satisfy `N`.
pub record IsOrder {ℓ κ} {A : Type ℓ} (before : A → A → Bool) (N : A → Type κ) : Type (ℓ ⊔ κ) where
  pub asym : (x y : A) → N x → N y → before y x ≡ true → before x y ≡ false
  pub trans :
      (x y z : A) → N x → N y → N z → before y x ≡ false → before z y ≡ false → before z x ≡ false

module _ {ℓ κ} {A : Type ℓ} (before : A → A → Bool) (N : A → Type κ) (o : IsOrder before N) where
  insert_by-IsSorted :
      (x : A) (ys : List A)
      → N x
      → All N ys
      → IsSorted before ys
      → IsSorted before (insert_by before x ys)
  unfolding insert_by
  insert_by-IsSorted x [] hx hn h = (tt, tt)
  insert_by-IsSorted x (y ∷ ys) hx hn h = elim (Bool-cases (before y x)) [
    | inl e ↦ rw e (
      All-insert_by before (λ z. before z y ≡ false) x ys (o.asym x y hx hn.0 e) h.0,
      insert_by-IsSorted x ys hx hn.1 h.1,
    )
    | inr e ↦ rw e ((e, behind ys hn.1 e h.0), h)
  ]
    where
      behind :
          (zs : List A)
          → All N zs
          → before y x ≡ false
          → All (λ z. before z y ≡ false) zs
          → All (λ z. before z x ≡ false) zs
      behind [] n e k = tt
      behind (z ∷ zs) n e k = (o.trans x y z hx hn.0 n.0 e k.0, behind zs n.1 e k.1)

  pub sort_by-IsSorted : (xs : List A) → All N xs → IsSorted before (sort_by before xs)
  unfolding sort_by
  sort_by-IsSorted [] h = tt
  sort_by-IsSorted (x ∷ xs) h =
      insert_by-IsSorted x (sort_by before xs) h.0 (All-sort_by before N xs h.1)
        (sort_by-IsSorted xs h.1)

module _ {ℓ} {A : Type ℓ} (before : A → A → Bool) (p : A → Bool) where
  any-insert_by : (x : A) (ys : List A) → any p (insert_by before x ys) ≡ (p x || any p ys)
  unfolding insert_by
  any-insert_by x [] = refl
  any-insert_by x (y ∷ ys) = ground (arith, any-insert_by x ys)

  -- Sorting keeps what the list contains.
  pub any-sort_by : (xs : List A) → any p (sort_by before xs) ≡ any p xs
  unfolding sort_by
  any-sort_by [] = refl
  any-sort_by (x ∷ xs) = ground (arith, any-insert_by x (sort_by before xs), any-sort_by xs)
