-- ===== src/Verifier/Settled.antt =====
-- The citations that tier 2 leaves in a segment (rag_core/services/verifier_service.py).
use domainrag_ops.Prelude.{
  ℕ, String, ◌≡◌, ◌≢◌, sym, ◌∙◌, subst, true, false, not, ◌&&◌, some, List, [], ◌∷◌, ◌==◌,
  string_eq, nat_eq, arith, eq_iff, map, All, All-keep, all, keep, or_else, Bool-cases, inl, inr,
  &&-true,
}
use domainrag_ops.Prelude.Float.{FloatOps}
use domainrag_ops.Dict.{Dict, get}
use domainrag_ops.Retrieval.{RetrievedChunk}
use domainrag_ops.Verifier.{VerifierThresholds, VerifiedCitation, Segment}
use domainrag_ops.Verifier.Tier2.{
  is_empty, by_segment, is_verified, restrict, all_verified, settle, settle_conflict,
  settle_inference, settle_direct, settle_all, tier2_classify,
}
use domainrag_ops.Verifier.Pairs.{direct_assessments, tier2_classify_lem}
use domainrag_ops.Verifier.Filtering.{IsSupported, restricted-IsSupported, all-All}
use domainrag_ops.Verifier.Support.{
  Grounds, IsGroundedMap, direct_assessments-IsGrounded, by_segment-IsGroundedMap,
}

module _ (fl : FloatOps) (t : VerifierThresholds fl) (embed : String → List fl.Float)
    (contexts : List (RetrievedChunk fl)) where
  open fl use {Float, le}

  -- Every citation that the segment has left is supported.
  abbrev pub IsFine : Segment fl → Type 0
  IsFine seg = All (IsSupported fl t embed contexts seg.text seg.citation_meta) seg.citations

  abbrev GroundsAll : String → Dict ℕ (VerifiedCitation fl) → Type 0
  GroundsAll claim m =
      (x : ℕ) (a : VerifiedCitation fl) → get m x ≡ some a → Grounds fl t embed contexts claim x a

  settle_direct-IsFine :
      (m : Dict ℕ (VerifiedCitation fl)) (seg : Segment fl)
      → GroundsAll seg.text m
      → IsFine (settle_direct fl m seg)
  unfolding settle_direct
  settle_direct-IsFine m seg g =
      let kept = keep (is_verified fl m) seg.citations in
      restricted-IsSupported fl t embed contexts seg.text m kept kept g (λ c h. h)
        (All-keep (is_verified fl m) seg.citations)

  settle_inference-IsFine :
      (m : Dict ℕ (VerifiedCitation fl)) (seg : Segment fl)
      → GroundsAll seg.text m
      → IsFine (settle_inference fl t m seg)
  unfolding settle_inference
  settle_inference-IsFine m seg g = elim (Bool-cases t.inference_judge_enabled) [
    | inr off ↦ subst IsFine (refused off) tt
    | inl on ↦ elim (Bool-cases (all_verified fl m seg.citations)) [
      | inr weak ↦ subst IsFine (weakened on weak) tt
      | inl strong ↦ subst IsFine (passed on strong) (
          restricted-IsSupported fl t embed contexts seg.text m seg.citations seg.citations g
            (λ c h. h)
            (all-All fl t embed contexts m seg.citations
              (&&-true (not (is_empty fl seg.citations)) (all (is_verified fl m) seg.citations)
                strong).1))
    ]
  ]
    where
      down : Dict ℕ (VerifiedCitation fl) → String → Segment fl
      down meta reason = record seg {
        citations = [];
        citation_meta = meta;
        downgraded = true;
        downgrade_reason = some reason;
      }

      refused :
          t.inference_judge_enabled ≡ false
          → down [] "judge_not_enabled" ≡ settle_inference fl t m seg
      refused off = ground (arith, off)

      weakened :
          t.inference_judge_enabled ≡ true
          → all_verified fl m seg.citations ≡ false
          → down m "tier2_chunk_weak" ≡ settle_inference fl t m seg
      weakened on weak = ground (arith, on, weak)

      passed :
          t.inference_judge_enabled ≡ true
          → all_verified fl m seg.citations ≡ true
          → record seg { citation_meta = restrict fl m seg.citations []; pending_judge = true }
            ≡ settle_inference fl t m seg
      passed on strong = ground (arith, on, strong)

  settle-IsFine :
      (m : Dict ℕ (VerifiedCitation fl)) (seg : Segment fl)
      → GroundsAll seg.text m
      → seg.support_type ≢ "conflict"
      → IsFine (settle fl t m seg)
  unfolding settle
  settle-IsFine m seg g ne = elim (Bool-cases (seg.support_type == "inference")) [
    | inl inf ↦ subst IsFine (goes_inference inf) (settle_inference-IsFine m seg g)
    | inr other ↦
        elim (Bool-cases
          (seg.support_type == "synthesis" && not (all_verified fl m seg.citations))) [
            | inl weak ↦ subst IsFine (goes_weak other weak) tt
            | inr fine ↦ subst IsFine (goes_direct other fine) (settle_direct-IsFine m seg g)
          ]
  ]
    where
      goes_inference :
          (seg.support_type == "inference") ≡ true → settle_inference fl t m seg ≡ settle fl t m seg
      goes_inference inf = ground (arith, inf, ne, eq_iff seg.support_type "conflict")

      goes_weak :
          (seg.support_type == "inference") ≡ false
          → (seg.support_type == "synthesis" && not (all_verified fl m seg.citations)) ≡ true
          → record seg {
            citations = [];
            citation_meta = m;
            downgraded = true;
            downgrade_reason = some "synthesis_chunk_weak";
          }
            ≡ settle fl t m seg
      goes_weak other weak = ground (arith, other, weak, ne, eq_iff seg.support_type "conflict")

      goes_direct :
          (seg.support_type == "inference") ≡ false
          → (seg.support_type == "synthesis" && not (all_verified fl m seg.citations)) ≡ false
          → settle_direct fl m seg ≡ settle fl t m seg
      goes_direct other fine = ground (arith, other, fine, ne, eq_iff seg.support_type "conflict")

  pub settle-support_type :
      (m : Dict ℕ (VerifiedCitation fl)) (seg : Segment fl)
      → (settle fl t m seg).support_type ≡ seg.support_type
  unfolding settle settle_inference settle_direct settle_conflict
  settle-support_type m seg = ground arith

  settle_all-IsFine :
      (text_of : ℕ → String) (d : Dict ℕ (Dict ℕ (VerifiedCitation fl))) (segs : List (Segment fl))
      → IsGroundedMap fl t embed contexts text_of d
      → All (λ seg. seg.text ≡ text_of seg.index) segs
      → All (λ seg. seg.support_type ≢ "conflict" → IsFine seg) (settle_all fl t d segs)
  unfolding settle_all
  settle_all-IsFine text_of d [] g h = tt
  settle_all-IsFine text_of d (seg ∷ segs) g (e, es) = (
    λ ne.
        settle-IsFine (or_else (get d seg.index) []) seg
          (λ x a f. subst (λ s. Grounds fl t embed contexts s x a) (sym e) (g seg.index x a f))
          (λ p. ne (settle-support_type (or_else (get d seg.index) []) seg ∙ p)),
    settle_all-IsFine text_of d segs g es,
  )

  -- Where a batch embeds each text by itself and the segments' texts go by their indices: every
  -- citation that tier 2 leaves in a segment of another type than "conflict" is verified, and the
  -- similarity of the segment's text with the chunk cited reaches a threshold.
  pub tier2_classify_sound :
      (embed_batch : List String → List (List Float)) (segs settled : List (Segment fl))
      (found : List (VerifiedCitation fl)) (avg : Float) (text_of : ℕ → String)
      → ((ts : List String) → embed_batch ts ≡ map embed ts)
      → All (λ seg. seg.text ≡ text_of seg.index) segs
      → tier2_classify fl embed_batch segs contexts t ≡ some (settled, found, avg)
      → All (λ seg. seg.support_type ≢ "conflict" → IsFine seg) settled
  tier2_classify_sound embed_batch segs settled found avg text_of h e r =
      let direct = direct_assessments fl t embed contexts segs in
      let q : settle_all fl t (by_segment fl direct []) segs ≡ settled =
        ground (arith, r, tier2_classify_lem fl t embed contexts embed_batch segs h) in
      subst (All (λ seg. seg.support_type ≢ "conflict" → IsFine seg)) q (
        settle_all-IsFine text_of (by_segment fl direct []) segs
          (by_segment-IsGroundedMap fl t embed contexts text_of direct []
            (direct_assessments-IsGrounded fl t embed contexts text_of segs e)
            (unfold get in (λ i c a f. absurd (ground (arith, f)))))
          e)

  -- The segments that tier 2 answers with, settled by some assessments.
  pub tier2_classify-ok :
      (embed_batch : List String → List (List Float)) (segs : List (Segment fl))
      (out : List (Segment fl) × List (VerifiedCitation fl) × Float)
      → tier2_classify fl embed_batch segs contexts t ≡ some out
      → out.0 ≡ settle_all fl t (by_segment fl out.1 []) segs
  unfolding tier2_classify
  tier2_classify-ok embed_batch segs out h = ground (arith, h)
