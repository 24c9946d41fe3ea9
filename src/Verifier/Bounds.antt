-- ===== src/Verifier/Bounds.antt =====
-- The numbers in what `VerifierService.run` returns (rag_core/services/verifier_service.py).
use domainrag_ops.Prelude.{
  ℕ, zero, suc, ◌+◌, ◌≤◌, ◌<◌, String, ◌≡◌, refl, sym, ◌∙◌, ap, subst, true, Option, some, List, [],
  ◌∷◌, arith, map, keep, length, get_elem?, All, All-keep_of, All-of_map,
}
use domainrag_ops.Prelude.Float.{FloatOps, FloatLaws, clamp_bounds}
use domainrag_ops.Dict.{Dict}
use domainrag_ops.Retrieval.{RetrievedChunk}
use domainrag_ops.Verifier.{
  RawSegment, ParsedSegment, VerifierThresholds, VerifiedCitation, Segment, parse_from,
  parse_segments, tier1_filter,
}
use domainrag_ops.Verifier.Tier2.{
  context_at, settle, settle_conflict, settle_inference, settle_direct, settle_all, by_segment,
}
use domainrag_ops.Verifier.Answer.{
  Citation, VerificationResult, uncited, tier3_unsupported, compute_confidence, run,
}
use domainrag_ops.Verifier.Cited.{Gives, cite_all-All, run-ok}
use domainrag_ops.Verifier.Settled.{tier2_classify-ok}

-- The numbers from `n` on, `k` of them.
abbrev pub count_up : ℕ → ℕ → List ℕ
count_up n zero = []
count_up n (suc k) = n ∷ count_up (suc n) k

count_up_below : (n k : ℕ) → All (λ i. i < n + k) (count_up n k)
count_up_below n zero = tt
count_up_below n (suc k) = (
  omega arith,
  subst (λ m. All (λ i. i < m) (count_up (suc n) k)) (omega arith) (count_up_below (suc n) k),
)

numbered_below : (k : ℕ) → All (λ i. i < k) (count_up 0 k)
numbered_below k = subst (λ m. All (λ i. i < m) (count_up 0 k)) (omega arith) (count_up_below 0 k)

get_elem?-below :
    {A : Type 0} (xs : List A) (i : ℕ) (x : A) → get_elem? xs i ≡ some x → i < length xs
get_elem?-below [] i x e = absurd (ground (arith, e))
get_elem?-below (y ∷ ys) zero x e = omega arith
get_elem?-below (y ∷ ys) (suc i) x e = omega (arith, get_elem?-below ys i x e)

All-under :
    {A : Type 0} (P : ℕ → Type 0) (f : A → ℕ) (xs : List A)
    → All P (map f xs)
    → All (λ x. P (f x)) xs
All-under P f [] h = tt
All-under P f (x ∷ xs) h = (h.0, All-under P f xs h.1)

module _ (fl : FloatOps) where
  open fl use {Float, of_ℕ, le}

  abbrev indices : List (Segment fl) → List ℕ
  indices segs = map (λ (seg : Segment fl). seg.index) segs

  settle-index :
      (t : VerifierThresholds fl) (m : Dict ℕ (VerifiedCitation fl)) (seg : Segment fl)
      → (settle fl t m seg).index ≡ seg.index
  unfolding settle settle_conflict settle_inference settle_direct
  settle-index t m seg = ground arith

  settle_all-index :
      (t : VerifierThresholds fl) (d : Dict ℕ (Dict ℕ (VerifiedCitation fl)))
      (segs : List (Segment fl))
      → indices (settle_all fl t d segs) ≡ indices segs
  unfolding settle_all
  settle_all-index t d [] = refl
  settle_all-index t d (seg ∷ segs) = rw (settle-index t _ seg, settle_all-index t d segs) refl

  tier1_filter-index :
      (segs : List ParsedSegment) (n : ℕ)
      → indices (tier1_filter fl segs n).0 ≡ map (λ (seg : ParsedSegment). seg.index) segs
  unfolding tier1_filter
  tier1_filter-index [] n = refl
  tier1_filter-index (seg ∷ segs) n = ap (λ l. seg.index ∷ l) (tier1_filter-index segs n)

  parse_from-index :
      (n : ℕ) (raws : List RawSegment)
      → map (λ (seg : ParsedSegment). seg.index) (parse_from fl n raws) ≡ count_up n (length raws)
  unfolding parse_from
  parse_from-index n [] = refl
  parse_from-index n (raw ∷ raws) = ap (λ l. n ∷ l) (parse_from-index (suc n) raws)

  module _ (contexts : List (RetrievedChunk fl)) where
    abbrev pub IsWithin : Citation fl → Type 0
    IsWithin c = (1 ≤ c.marker) × (c.marker ≤ length contexts)

    within :
        (c : ℕ) (ctx : RetrievedChunk fl)
        → context_at fl contexts c ≡ some ctx
        → (1 ≤ c) × (c ≤ length contexts)
    within zero ctx e = absurd (ground (arith, e))
    within (suc i) ctx e = (omega arith, omega (arith, get_elem?-below contexts i ctx e))

    citations_of : (seg : Segment fl) (cs : List ℕ) → All (Gives fl contexts IsWithin seg) cs
    citations_of seg [] = tt
    citations_of seg (c ∷ cs) = ((λ id d ctx there. within c ctx there), citations_of seg cs)

    every_citation :
        (segs : List (Segment fl))
        → All (λ seg. All (Gives fl contexts IsWithin seg) seg.citations) segs
    every_citation [] = tt
    every_citation (seg ∷ segs) = (citations_of seg seg.citations, every_citation segs)

    unsupported_below :
        (n : ℕ) (segs : List (Segment fl))
        → All (λ i. i < n) (indices segs)
        → All (λ i. i < n) (tier3_unsupported fl segs).0
    unfolding tier3_unsupported
    unsupported_below n segs h =
        All-of_map (λ i. i < n) (λ (seg : Segment fl). seg.index) (keep (uncited fl) segs)
          (All-keep_of (λ (seg : Segment fl). seg.index < n) (uncited fl) segs
            (All-under (λ i. i < n) (λ (seg : Segment fl). seg.index) segs h))

    -- The result of `run` has one segment for each segment of the model, numbered from 0 in order;
    -- the numbers of unsupported segments are among these, the markers of the citations are numbers
    -- of contexts, from 1, and the confidence lies in [0, 1], where comparisons follow IEEE 754.
    pub run_bounds :
        FloatLaws fl
        → (embed_batch : List String → List (List Float)) (fresh : ℕ → String)
          (raws : List RawSegment) (domain_id : String) (t : VerifierThresholds fl)
          (limitations : Option String) (r : VerificationResult fl)
        → run fl embed_batch fresh raws contexts domain_id t limitations ≡ some r
        → (map (λ (seg : Segment fl). seg.index) r.segments ≡ count_up 0 (length raws))
          × All (λ i. i < length raws) r.unsupported_segment_indices
          × All IsWithin r.citations
          × (le (of_ℕ 0) r.confidence ≡ true)
          × (le r.confidence (of_ℕ 1) ≡ true)
    unfolding compute_confidence
    run_bounds laws embed_batch fresh raws domain_id t limitations r h =
        let (out, done, shape) =
          run-ok fl contexts embed_batch fresh raws domain_id t limitations r h in
        let segs = (tier1_filter fl (parse_segments fl raws) (length contexts)).0 in
        let numbered : indices out.0 ≡ count_up 0 (length raws) =
          ap indices (tier2_classify-ok fl t (λ s. []) contexts embed_batch segs out done)
          ∙ settle_all-index t (by_segment fl out.1 []) segs
          ∙ tier1_filter-index (parse_segments fl raws) (length contexts)
          ∙ parse_from-index 0 raws in
        rw shape (
          numbered,
          unsupported_below (length raws) out.0
              (subst (All (λ i. i < length raws)) (sym numbered) (numbered_below (length raws))),
          cite_all-All fl contexts IsWithin fresh domain_id 0 out.0 (every_citation out.0),
          (clamp_bounds fl laws _).0,
          (clamp_bounds fl laws _).1,
        )
