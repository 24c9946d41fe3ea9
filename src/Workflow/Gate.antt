-- ===== src/Workflow/Gate.antt =====
-- Gate 1 (`gate_1_node` of rag_core/workflows/nodes.py) against a description of it by the chunks that
-- reach its thresholds.
use domainrag_ops.Prelude.{
  ◌≡◌, refl, sym, ◌∙◌, Bool, List, [], ◌∷◌, ◌&&◌, ◌||◌, any, count_if, leb, map, if◌then◌else◌,
  Bool-cases, inl, inr, arith, All,
}
use domainrag_ops.Prelude.Float.{FloatOps, FloatLaws, IsNumber}
use domainrag_ops.Retrieval.{RetrievedChunk}
use domainrag_ops.Workflow.{
  RagState, Gate1Thresholds, gate_1_node, gate1_chunks, gate1_on, gate_score, highest, passes_gate1,
}

module _ (fl : FloatOps) (laws : FloatLaws fl) where
  open fl use {Float, lt, le}

  reaches-higher :
      (t x y : Float)
      → IsNumber fl x
      → IsNumber fl y
      → le t (if lt x y then y else x) ≡ (le t x || le t y)
  reaches-higher t x y n m =
      ground
        (arith, laws.le-of-lt x y, laws.le-total x y n m, laws.le_trans t x y, laws.le_trans t y x)

  higher-IsNumber :
      (x y : Float) → IsNumber fl x → IsNumber fl y → IsNumber fl (if lt x y then y else x)
  higher-IsNumber x y n m = elim (Bool-cases (lt x y)) [ inl e ↦ rw e m | inr e ↦ rw e n ]

  highest-reaches :
      (t top : Float) (xs : List Float)
      → IsNumber fl top
      → All (IsNumber fl) xs
      → le t (highest fl top xs) ≡ (le t top || any (λ x. le t x) xs)
  highest-reaches t top [] n h = ground arith
  highest-reaches t top (x ∷ xs) n h = ground (
    arith,
    highest-reaches t (if lt top x then x else top) xs (higher-IsNumber top x n h.0) h.1,
    reaches-higher t top x n h.0,
  )

  -- Some chunk's score reaches `min_top1`, and `min_strong` of them reach `strong_thr`.
  abbrev pub suffices : Gate1Thresholds fl → List Float → Bool
  suffices t scores =
      any (λ x. le t.min_top1 x) scores
      && leb t.min_strong (count_if (λ x. le t.strong_thr x) scores)

  passes-suffices :
      (t : Gate1Thresholds fl) (scores : List Float)
      → All (IsNumber fl) scores
      → passes_gate1 fl t scores ≡ suffices t scores
  passes-suffices t [] h = refl
  passes-suffices t (x ∷ xs) h = rw (highest-reaches t.min_top1 x xs h.0 h.1) refl

  gate1_on-passed :
      (t : Gate1Thresholds fl) (cs : List (RetrievedChunk fl)) (s : RagState fl)
      → All (IsNumber fl) (map (gate_score fl) cs)
      → (gate1_on fl t cs s).gate1_passed ≡ suffices t (map (gate_score fl) cs)
  gate1_on-passed t [] s h = refl
  gate1_on-passed t (c ∷ cs) s h =
      elim (Bool-cases (passes_gate1 fl t (map (gate_score fl) (c ∷ cs)))) [
        | inl e ↦ rw e (sym e ∙ passes-suffices t (map (gate_score fl) (c ∷ cs)) h)
        | inr e ↦ rw e (sym e ∙ passes-suffices t (map (gate_score fl) (c ∷ cs)) h)
      ]

  -- Where the scores are numbers, gate 1 passes if and only if some chunk has a score of min_top1 at
  -- least and at least min_strong chunks have a score of strong_thr at least. The chunks are the
  -- reranked ones, or the final contexts where none was reranked.
  pub gate_1_node-suffices :
      (t : Gate1Thresholds fl) (s : RagState fl)
      → All (IsNumber fl) (map (gate_score fl) (gate1_chunks fl s s.reranked_chunks))
      → (gate_1_node fl t s).gate1_passed
        ≡ suffices t (map (gate_score fl) (gate1_chunks fl s s.reranked_chunks))
  unfolding gate_1_node
  gate_1_node-suffices t s h = gate1_on-passed t (gate1_chunks fl s s.reranked_chunks) s h
