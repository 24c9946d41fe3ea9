-- ===== src/Dict.antt =====
-- Python's `dict`: the entries in insertion order, each key once.
use domainrag_ops.Prelude.{
  ◌≡◌, ◌≢◌, refl, true, Option, none, some, List, [], ◌∷◌, arith, HasEq, ◌==◌, if◌then◌else◌, All,
  Bool-cases, inl, inr,
}

abbrev pub Dict {ℓ κ} : Type ℓ → Type κ → Type (ℓ ⊔ κ)
Dict K V = List (K × V)

module _ {ℓ κ} {K : Type ℓ} {V : Type κ} ⦃e : HasEq K⦄ where
  -- `d.get(k)`
  unfoldable pub get : Dict K V → K → Option V
  get [] k = none
  get ((j, v) ∷ d) k = if j == k then some v else get d k

  -- `d[k] = v`: a key that is there keeps its place.
  unfoldable pub set_item : Dict K V → K → V → Dict K V
  set_item [] k v = (k, v) ∷ []
  set_item ((j, w) ∷ d) k v = if j == k then (j, v) ∷ d else (j, w) ∷ set_item d k v

  -- `d.pop(k, None)`
  unfoldable pub pop : Dict K V → K → Dict K V
  pop [] k = []
  pop ((j, v) ∷ d) k = let rest = pop d k in if j == k then rest else (j, v) ∷ rest

module _ {ℓ κ} {K : Type ℓ} {V : Type κ} where
  -- `d.values()`
  unfoldable pub values : Dict K V → List V
  values [] = []
  values ((_, v) ∷ d) = v ∷ values d

module _ {ℓ κ} {K : Type ℓ} {V : Type κ} ⦃e : HasEq K⦄ where
  pub get-set_item :
      (d : Dict K V) (k j : K) (v : V)
      → get (set_item d k v) j ≡ (if k == j then some v else get d j)
  unfolding get set_item
  get-set_item [] k j v = refl
  get-set_item ((i, w) ∷ d) k j v =
      ground (arith, e.equals_iff i k, e.equals_iff i j, e.equals_iff k j, get-set_item d k j v)

  pub get-pop : (d : Dict K V) (k j : K) → get (pop d k) j ≡ (if k == j then none else get d j)
  unfolding get pop
  get-pop [] k j = ground arith
  get-pop ((i, w) ∷ d) k j =
      ground (arith, e.equals_iff i k, e.equals_iff i j, e.equals_iff k j, get-pop d k j)

  pub get-empty : (k : K) → get {V = V} [] k ≡ none
  unfolding get
  get-empty k = refl

  pub get-set_item_self : (d : Dict K V) (k : K) (v : V) → get (set_item d k v) k ≡ some v
  get-set_item_self d k v = ground (arith, get-set_item d k k v, e.equals_iff k k)

  pub get-set_item_ne : (d : Dict K V) (k j : K) (v : V) → k ≢ j → get (set_item d k v) j ≡ get d j
  get-set_item_ne d k j v h = ground (arith, get-set_item d k j v, e.equals_iff k j)

  pub get-pop_self : (d : Dict K V) (k : K) → get (pop d k) k ≡ none
  get-pop_self d k = ground (arith, get-pop d k k, e.equals_iff k k)

  pub get-pop_ne : (d : Dict K V) (k j : K) → k ≢ j → get (pop d k) j ≡ get d j
  get-pop_ne d k j h = ground (arith, get-pop d k j, e.equals_iff k j)

pub ruleset dict_laws = (get-empty, get-set_item, get-pop)

-- Each key stands once.
module _ {ℓ κ} {K : Type ℓ} {V : Type κ} ⦃e : HasEq K⦄ where
  abbrev pub IsDict : Dict K V → Type κ
  IsDict [] = Unit
  IsDict ((k, _) ∷ d) = (get d k ≡ none) × IsDict d

  pub IsDict-set_item : (d : Dict K V) (k : K) (v : V) → IsDict d → IsDict (set_item d k v)
  unfolding get set_item
  IsDict-set_item [] k v h = (refl, tt)
  IsDict-set_item ((i, w) ∷ d) k v h = elim (Bool-cases (i == k)) [
    | inl same ↦ rw same (h.0, h.1)
    | inr other ↦ rw other (
      ground (arith, get-set_item d k i v, e.equals_iff i k, e.equals_iff k i, h.0),
      IsDict-set_item d k v h.1,
    )
  ]

  pub IsDict-pop : (d : Dict K V) (k : K) → IsDict d → IsDict (pop d k)
  unfolding get pop
  IsDict-pop [] k h = tt
  IsDict-pop ((i, w) ∷ d) k h = elim (Bool-cases (i == k)) [
    | inl same ↦ rw same (IsDict-pop d k h.1)
    | inr other ↦ rw other (ground (arith, get-pop d k i, h.0), IsDict-pop d k h.1)
  ]

-- A property of every value.
module _ {ℓ κ μ} {K : Type ℓ} {V : Type κ} ⦃e : HasEq K⦄ (P : V → Type μ) where
  pub All-values-set_item :
      (d : Dict K V) (k : K) (v : V) → All P (values d) → P v → All P (values (set_item d k v))
  unfolding set_item values
  All-values-set_item [] k v h p = (p, tt)
  All-values-set_item ((i, w) ∷ d) k v h p = elim (Bool-cases (i == k)) [
    | inl same ↦ rw same (p, h.1)
    | inr other ↦ rw other (h.0, All-values-set_item d k v h.1 p)
  ]

  pub All-values-pop : (d : Dict K V) (k : K) → All P (values d) → All P (values (pop d k))
  unfolding pop values
  All-values-pop [] k h = tt
  All-values-pop ((i, w) ∷ d) k h = elim (Bool-cases (i == k)) [
    | inl same ↦ rw same (All-values-pop d k h.1)
    | inr other ↦ rw other (h.0, All-values-pop d k h.1)
  ]

  pub All-values_get : (d : Dict K V) (k : K) (v : V) → All P (values d) → get d k ≡ some v → P v
  unfolding get values
  All-values_get [] k v h g = elim (Bool-cases true) [ inl _ ↦ cc | inr _ ↦ cc ]
  All-values_get ((i, w) ∷ d) k v h g = elim (Bool-cases (i == k)) [
    | inl same ↦ found (ground arith)
    | inr other ↦ All-values_get d k v h.1 (ground arith)
  ]
    where
      found : w ≡ v → P v
      found q = rw q at h.0

-- Each value replaced by its image.
module _ {ℓ κ μ} {K : Type ℓ} {V : Type κ} {W : Type μ} ⦃e : HasEq K⦄ (f : V → W) where
  unfoldable pub map_values : Dict K V → Dict K W
  map_values [] = []
  map_values ((k, v) ∷ d) = (k, f v) ∷ map_values d

  pub map_values-set_item :
      (d : Dict K V) (k : K) (v : V) → map_values (set_item d k v) ≡ set_item (map_values d) k (f v)
  unfolding map_values set_item
  map_values-set_item [] k v = refl
  map_values-set_item ((j, w) ∷ d) k v = ground (arith, map_values-set_item d k v)

  pub map_values-pop : (d : Dict K V) (k : K) → map_values (pop d k) ≡ pop (map_values d) k
  unfolding map_values pop
  map_values-pop [] k = refl
  map_values-pop ((j, w) ∷ d) k = ground (arith, map_values-pop d k)
