-- ===== src/Verifier/Support.antt =====
-- What stands behind a citation that tier 2 keeps (rag_core/services/verifier_service.py).
use domainrag_ops.Prelude.{
  ℕ, String, ◌≡◌, refl, sym, ap, subst, none, some, List, [], ◌∷◌, ◌++◌, ◌==◌, string_eq, nat_eq,
  arith, All, or_else, Option-cases, Bool-cases, inl, inr, if◌then◌else◌,
}
use domainrag_ops.Prelude.Float.{FloatOps}
use domainrag_ops.Dict.{Dict, get, set_item, get-set_item, get-set_item_self, get-set_item_ne}
use domainrag_ops.VectorStore.{cosine}
use domainrag_ops.Retrieval.{RetrievedChunk}
use domainrag_ops.Verifier.{VerifierThresholds, VerifiedCitation, Segment, classify}
use domainrag_ops.Verifier.Tier2.{context_at, skipped, by_segment}
use domainrag_ops.Verifier.Pairs.{direct_assessment, direct_citations, direct_assessments}

module _ (fl : FloatOps) (t : VerifierThresholds fl) (embed : String → List fl.Float)
    (contexts : List (RetrievedChunk fl)) where
  open fl use {Float, le}

  abbrev pub Meta : Type 0
  Meta = Dict ℕ (VerifiedCitation fl)

  -- The similarity is the one of the claim with the chunk cited.
  abbrev pub Grounds : String → ℕ → VerifiedCitation fl → Type 0
  Grounds claim c a =
      (ctx : RetrievedChunk fl) × (context_at fl contexts c ≡ some ctx)
      × (a.similarity ≡ cosine fl (embed claim) (embed ctx.content))
      × (a.verified ≡ (classify fl a.similarity t).1)

  module _ (text_of : ℕ → String) where
    abbrev pub IsGrounded : VerifiedCitation fl → Type 0
    IsGrounded a = Grounds (text_of a.segment_index) a.chunk_index a

    direct_citations-IsGrounded :
        (i : ℕ) (claim : String) (cs : List ℕ)
        → claim ≡ text_of i
        → All IsGrounded (direct_citations fl t embed contexts i claim cs)
    direct_citations-IsGrounded i claim [] e = tt
    direct_citations-IsGrounded i claim (c ∷ cs) e =
        elim (Option-cases (context_at fl contexts c)) [
          | inl out ↦
              subst (All IsGrounded) (sym (skips out)) (direct_citations-IsGrounded i claim cs e)
          | inr (ctx, there) ↦ subst (All IsGrounded) (sym (shape ctx there)) (
            (ctx, there, ap (λ s. cosine fl (embed s) (embed ctx.content)) e, refl),
            direct_citations-IsGrounded i claim cs e,
          )
        ]
      where
        skips :
            context_at fl contexts c ≡ none
            → direct_citations fl t embed contexts i claim (c ∷ cs)
              ≡ direct_citations fl t embed contexts i claim cs
        skips out = ground (arith, out)

        shape :
            (ctx : RetrievedChunk fl)
            → context_at fl contexts c ≡ some ctx
            → direct_citations fl t embed contexts i claim (c ∷ cs)
              ≡ direct_assessment fl t embed contexts i claim c ctx
                ∷ direct_citations fl t embed contexts i claim cs
        shape ctx there = ground (arith, there)

    All-append :
        (xs ys : List (VerifiedCitation fl))
        → All IsGrounded xs
        → All IsGrounded ys
        → All IsGrounded (xs ++ ys)
    All-append [] ys h k = k
    All-append (x ∷ xs) ys h k = (h.0, All-append xs ys h.1 k)

    pub direct_assessments-IsGrounded :
        (segs : List (Segment fl))
        → All (λ seg. seg.text ≡ text_of seg.index) segs
        → All IsGrounded (direct_assessments fl t embed contexts segs)
    direct_assessments-IsGrounded [] h = tt
    direct_assessments-IsGrounded (seg ∷ segs) h =
        All-append
          (direct_citations fl t embed contexts seg.index seg.text
            (if skipped fl t seg then [] else seg.citations))
          (direct_assessments fl t embed contexts segs)
          (direct_citations-IsGrounded seg.index seg.text
            (if skipped fl t seg then [] else seg.citations) h.0)
          (direct_assessments-IsGrounded segs h.1)

    -- What stands in the dict of segment `i` under citation `c` is grounded for both.
    abbrev pub IsGroundedMeta : ℕ → Meta → Type 0
    IsGroundedMeta i m =
        (c : ℕ) (a : VerifiedCitation fl) → get m c ≡ some a → Grounds (text_of i) c a

    abbrev pub IsGroundedMap : Dict ℕ Meta → Type 0
    IsGroundedMap d = (i : ℕ) → IsGroundedMeta i (or_else (get d i) [])

    set-IsGroundedMeta :
        (i : ℕ) (m : Meta) (a : VerifiedCitation fl)
        → IsGroundedMeta i m
        → Grounds (text_of i) a.chunk_index a
        → IsGroundedMeta i (set_item m a.chunk_index a)
    set-IsGroundedMeta i m a h g c b e = elim (Bool-cases (a.chunk_index == c)) [
      | inl same ↦
          let p : a ≡ b = ground (arith, same, e, get-set_item m a.chunk_index c a) in
          let q : a.chunk_index ≡ c = ground (arith, same) in
          subst (Grounds (text_of i) c) p (subst (λ x. Grounds (text_of i) x a) q g)
      | inr other ↦ h c b (ground (arith, other, e, get-set_item m a.chunk_index c a))
    ]

    pub by_segment-IsGroundedMap :
        (found : List (VerifiedCitation fl)) (d : Dict ℕ Meta)
        → All IsGrounded found
        → IsGroundedMap d
        → IsGroundedMap (by_segment fl found d)
    unfolding by_segment
    by_segment-IsGroundedMap [] d h k = k
    by_segment-IsGroundedMap (a ∷ found) d h k =
        by_segment-IsGroundedMap found
          (set_item d a.segment_index
            (set_item (or_else (get d a.segment_index) []) a.chunk_index a))
          h.1 one_more
      where
        one_more : IsGroundedMap (
            set_item d a.segment_index
              (set_item (or_else (get d a.segment_index) []) a.chunk_index a))
        one_more i = elim (Bool-cases (a.segment_index == i)) [
          | inl same ↦
              let q : a.segment_index ≡ i = ground (arith, same) in
              subst
                (λ x. IsGroundedMeta x (
                  or_else
                    (get
                      (set_item d a.segment_index
                        (set_item (or_else (get d a.segment_index) []) a.chunk_index a))
                      x)
                    []))
                q
                (rw
                  (get-set_item_self d a.segment_index
                    (set_item (or_else (get d a.segment_index) []) a.chunk_index a))
                  (set-IsGroundedMeta a.segment_index (or_else (get d a.segment_index) []) a
                    (k a.segment_index) h.0))
          | inr other ↦
              rw
                (get-set_item_ne d a.segment_index i
                  (set_item (or_else (get d a.segment_index) []) a.chunk_index a)
                  (λ q. ground (arith, other, q)))
                (k i)
        ]
