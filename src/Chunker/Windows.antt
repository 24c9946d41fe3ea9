-- ===== src/Chunker/Windows.antt =====
-- The windows hold all the tokens, in order (rag_core/clients/in_memory.py).
use domainrag_ops.Prelude.{
  ℕ, zero, suc, ◌+◌, ◌-◌, ◌≤◌, ◌<◌, String, ◌≡◌, refl, sym, ◌∙◌, ap, List, [], ◌∷◌, ◌++◌, arith,
  length, take, drop, leb, All, length-take_le, take-append-drop, take_all, Bool-cases, inl, inr,
}
use domainrag_ops.Chunker.{Chunker, Window, new, step, windows_from, windows}

length-drop : (n : ℕ) (ts : List String) → length (drop n ts) ≡ length ts - n
length-drop zero ts = omega arith
length-drop (suc n) [] = omega arith
length-drop (suc n) (t ∷ ts) = omega (arith, length-drop n ts)

drop-empty : (k : ℕ) → drop {A = String} k [] ≡ []
drop-empty zero = refl
drop-empty (suc k) = refl

drop-drop : (n m : ℕ) (ts : List String) → drop n (drop m ts) ≡ drop (m + n) ts
drop-drop n zero ts = ap (λ k. drop k ts) (omega arith)
drop-drop n (suc m) [] = drop-empty n ∙ sym (drop-empty (suc m + n))
drop-drop n (suc m) (t ∷ ts) = drop-drop n m ts ∙ ap (λ k. drop k (t ∷ ts)) shape
  where
    shape : suc (m + n) ≡ suc m + n
    shape = omega arith

take-take : (n m : ℕ) (ts : List String) → n ≤ m → take n (take m ts) ≡ take n ts
take-take zero m ts h = refl
take-take (suc n) zero ts h = absurd (omega arith)
take-take (suc n) (suc m) [] h = refl
take-take (suc n) (suc m) (t ∷ ts) h = ap (λ l. t ∷ l) (take-take n m ts (omega arith))

-- All the tokens, from the windows: of each but the last, the first `step` tokens.
abbrev pub reassembled : Chunker → List Window → List String
reassembled c [] = []
reassembled c ((_, w) ∷ []) = w
reassembled c ((_, w) ∷ w' ∷ ws) = take (step c) w ++ reassembled c (w' ∷ ws)

-- The shape that `new` gives to a chunker.
abbrev pub IsChunker : Chunker → Type 0
IsChunker c = (1 ≤ c.max_tokens) × (c.overlap_tokens ≤ c.max_tokens - 1)

new-IsChunker : (m o : ℕ) → IsChunker (new m o)
unfolding new
new-IsChunker m o = (ground arith, ground arith)

step-le : (c : Chunker) → IsChunker c → (1 ≤ step c) × (step c ≤ c.max_tokens)
step-le c (h, k) = (ground arith, ground arith)

module _ (c : Chunker) (good : IsChunker c) (tokens : List String) where
  -- One round of the loop, by where it starts.
  last_window :
      (fuel start : ℕ)
      → start < length tokens
      → length tokens ≤ start + c.max_tokens
      → windows_from c tokens (suc fuel) start ≡ (start, take c.max_tokens (drop start tokens)) ∷ []
  unfolding windows_from
  last_window fuel start h k = ground arith

  next_window :
      (fuel start : ℕ)
      → start + c.max_tokens < length tokens
      → windows_from c tokens (suc fuel) start
        ≡ (start, take c.max_tokens (drop start tokens))
          ∷ windows_from c tokens fuel (start + step c)
  unfolding windows_from
  next_window fuel start h = ground arith

  window_shape :
      (w : Window) (ws : List Window) (rest : List String)
      → reassembled c ws ≡ rest
      → 1 ≤ length ws
      → reassembled c (w ∷ ws) ≡ take (step c) w.1 ++ rest
  window_shape w [] rest e h = absurd (omega arith)
  window_shape w (v ∷ vs) rest e h = ap (λ r. take (step c) w.1 ++ r) e

  windows_from-some :
      (fuel start : ℕ)
      → start < length tokens
      → 1 ≤ fuel
      → 1 ≤ length (windows_from c tokens fuel start)
  unfolding windows_from
  windows_from-some zero start h k = absurd (omega arith)
  windows_from-some (suc fuel) start h k = ground arith

  windows_from_lem :
      (fuel start : ℕ)
      → start < length tokens
      → length tokens ≤ start + fuel
      → reassembled c (windows_from c tokens fuel start) ≡ drop start tokens
  windows_from_lem zero start h k = absurd (omega arith)
  windows_from_lem (suc fuel) start h k =
      elim (Bool-cases (leb (length tokens) (start + c.max_tokens))) [
        | inl ends ↦
            ap (reassembled c) (last_window fuel start h (ground (arith, ends)))
            ∙ take_all c.max_tokens (drop start tokens)
                (ground (arith, ends, length-drop start tokens))
        | inr goes_on ↦
            let (s1, s2) = step-le c good in
            let inside : start + step c < length tokens = ground (arith, goes_on, s2) in
            let enough : length tokens ≤ start + step c + fuel = ground (arith, k, s1) in
            let ih = windows_from_lem fuel (start + step c) inside enough in
            ap (reassembled c) (next_window fuel start (ground (arith, goes_on)))
            ∙ window_shape (start, take c.max_tokens (drop start tokens))
                (windows_from c tokens fuel (start + step c)) (drop (start + step c) tokens) ih
                (windows_from-some fuel (start + step c) inside
                  (ground (arith, inside, enough, h, k, goes_on)))
            ∙ ap (λ l. l ++ drop (start + step c) tokens)
                (take-take (step c) c.max_tokens (drop start tokens) s2)
            ∙ ap (λ l. take (step c) (drop start tokens) ++ l)
                (sym (drop-drop (step c) start tokens))
            ∙ take-append-drop (step c) (drop start tokens)
      ]

  windows_from-sizes :
      (fuel start : ℕ)
      → All (λ (w : Window). length w.1 ≤ c.max_tokens) (windows_from c tokens fuel start)
  unfolding windows_from
  windows_from-sizes zero start = tt
  windows_from-sizes (suc fuel) start = elim (Bool-cases (leb (length tokens) start)) [
    | inl past ↦ rw past tt
    | inr inside ↦ rw inside (elim (Bool-cases (leb (length tokens) (start + c.max_tokens))) [
      | inl ends ↦ rw ends (length-take_le c.max_tokens (drop start tokens), tt)
      | inr goes_on ↦ rw goes_on (
        length-take_le c.max_tokens (drop start tokens),
        windows_from-sizes fuel (start + step c),
      )
    ])
  ]

-- Whatever sizes a chunker is made with, its windows hold all the tokens of a page in order, each
-- window but the last giving its first `step` tokens, and no window is longer than `max_tokens`.
pub windows_lem :
    (max_tokens overlap : ℕ) (tokens : List String)
    → let c = new max_tokens overlap in
      (reassembled c (windows c tokens) ≡ tokens)
      × All (λ (w : Window). length w.1 ≤ c.max_tokens) (windows c tokens)
windows_lem max_tokens overlap [] = unfold windows_from in (refl, tt)
windows_lem max_tokens overlap (t ∷ ts) =
    let c = new max_tokens overlap in
    let good = new-IsChunker max_tokens overlap in
    (
      windows_from_lem c good (t ∷ ts) (length (t ∷ ts)) 0 (omega arith) (omega arith),
      windows_from-sizes c good (t ∷ ts) (length (t ∷ ts)) 0,
    )
