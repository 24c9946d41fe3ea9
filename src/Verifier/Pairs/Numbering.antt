-- ===== src/Verifier/Pairs/Numbering.antt =====
-- The texts that tier 2 embeds are numbered by a dict, each once (`_intern` of
-- rag_core/services/verifier_service.py).
use domainrag_ops.Prelude.{
  ℕ, zero, suc, String, ◌≡◌, refl, subst, some, List, [], ◌∷◌, ◌++◌, ◌==◌, string_eq, arith, eq_iff,
  length, get_elem?, Option-cases, Bool-cases, inl, inr,
}
use domainrag_ops.Dict.{get, set_item, get-set_item}
use domainrag_ops.Verifier.Tier2.{Interned, intern}

elem_append_last : (xs : List String) (t : String) → get_elem? (xs ++ t ∷ []) (length xs) ≡ some t
elem_append_last [] t = refl
elem_append_last (x ∷ xs) t = elem_append_last xs t

elem_append_old :
    (xs : List String) (t x : String) (i : ℕ)
    → get_elem? xs i ≡ some x
    → get_elem? (xs ++ t ∷ []) i ≡ some x
elem_append_old [] t x i h = absurd (ground (arith, h))
elem_append_old (y ∷ ys) t x zero h = h
elem_append_old (y ∷ ys) t x (suc i) h = elem_append_old ys t x i h

-- The dict gives the position of each text in the list.
abbrev pub IsInterned : Interned → Type 0
IsInterned s =
    (t : String) (p : ℕ) → get s.text_to_pos t ≡ some p → get_elem? s.unique_texts p ≡ some t

-- The later state keeps the positions of the texts.
abbrev pub Extends : Interned → Interned → Type 0
Extends s s' =
    (i : ℕ) (x : String)
    → get_elem? s.unique_texts i ≡ some x
    → get_elem? s'.unique_texts i ≡ some x

-- The position and the state that interning a text may answer with.
abbrev Interns : Interned → String → ℕ × Interned → Type 0
Interns s t (p, s') = IsInterned s' × Extends s s' × (get_elem? s'.unique_texts p ≡ some t)

pub intern-Interns : (t : String) (s : Interned) → IsInterned s → Interns s t (intern t s)
unfolding intern
intern-Interns t s h = elim (Option-cases (get s.text_to_pos t)) [
  | inr (p, old) ↦
      let eq : (p, s) ≡ intern t s = ground (arith, old) in
      subst (Interns s t) eq (h, (λ i x e. e), h t p old)
  | inl new ↦
      let s' : Interned = record {
        unique_texts = s.unique_texts ++ t ∷ [];
        text_to_pos = set_item s.text_to_pos t (length s.unique_texts);
      } in
      let eq : (length s.unique_texts, s') ≡ intern t s = ground (arith, new) in
      subst (Interns s t) eq
        (kept, (λ i x e. elem_append_old s.unique_texts t x i e), elem_append_last s.unique_texts t)
]
  where
    kept :
        (u : String) (p : ℕ)
        → get (set_item s.text_to_pos t (length s.unique_texts)) u ≡ some p
        → get_elem? (s.unique_texts ++ t ∷ []) p ≡ some u
    kept u p e = elim (Bool-cases (t == u)) [
      | inl same ↦
          let q : length s.unique_texts ≡ p =
            ground (arith, same, e, get-set_item s.text_to_pos t u (length s.unique_texts)) in
          let r : t ≡ u = (eq_iff t u).0 same in
          subst (λ n. get_elem? (s.unique_texts ++ t ∷ []) n ≡ some u) q
            (subst (λ v. get_elem? (s.unique_texts ++ t ∷ []) (length s.unique_texts) ≡ some v) r
              (elem_append_last s.unique_texts t))
      | inr other ↦
          elem_append_old s.unique_texts t u p (
            h u p
              (ground (arith, other, e, get-set_item s.text_to_pos t u (length s.unique_texts))))
    ]
