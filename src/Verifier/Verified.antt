-- ===== src/Verifier/Verified.antt =====
-- The assessments behind the citation objects of an answer (rag_core/services/verifier_service.py).
use domainrag_ops.Prelude.{
  ℕ, String, ◌≡◌, ◌≢◌, sym, subst, true, ◌||◌, Option, some, List, [], ◌∷◌, ◌==◌, string_eq, nat_eq,
  arith, eq_iff, map, All, All-map, length, Bool-cases, inl, inr,
}
use domainrag_ops.Prelude.Float.{FloatOps}
use domainrag_ops.VectorStore.{cosine}
use domainrag_ops.Retrieval.{RetrievedChunk}
use domainrag_ops.Verifier.{RawSegment, VerifierThresholds, Segment, parse_segments, tier1_filter}
use domainrag_ops.Verifier.Tier2.{context_at}
use domainrag_ops.Verifier.Answer.{Citation, VerificationResult, run}
use domainrag_ops.Verifier.Cited.{
  raw_text, parse_from-text, tier1_filter-text, Gives, cite_all-All, run-ok,
}
use domainrag_ops.Verifier.Filtering.{IsSupported}
use domainrag_ops.Verifier.Settled.{IsFine, tier2_classify_sound}

module _ (fl : FloatOps) (contexts : List (RetrievedChunk fl)) (t : VerifierThresholds fl)
    (embed : String → List fl.Float) (embed_batch : List String → List (List fl.Float))
    (pointwise : (ts : List String) → embed_batch ts ≡ map embed ts) where
  open fl use {Float, le}

  -- The object says verified, with the similarity of the claim and the chunk cited, which reaches a
  -- threshold.
  abbrev pub IsVerified : Citation fl → Type 0
  IsVerified c =
      (ctx : RetrievedChunk fl) × (context_at fl contexts c.marker ≡ some ctx)
      × (c.verified ≡ some true)
      × (c.similarity ≡ some (cosine fl (embed c.claim_text) (embed ctx.content)))
      × ((le t.strong_threshold (cosine fl (embed c.claim_text) (embed ctx.content))
            || le t.medium_threshold (cosine fl (embed c.claim_text) (embed ctx.content)))
          ≡ true)

  Gives-IsVerified :
      (seg : Segment fl) (c : ℕ)
      → IsSupported fl t embed contexts seg.text seg.citation_meta c
      → Gives fl contexts IsVerified seg c
  Gives-IsVerified seg c (ctx, a, there, found, ver, sim, above) id domain_id ctx' there' = (
    ctx,
    there,
    ground (arith, found, ver),
    ground (arith, found, sim),
    subst (λ s. (le t.strong_threshold s || le t.medium_threshold s) ≡ true) sim above,
  )

  each-IsVerified :
      (seg : Segment fl) (cs : List ℕ)
      → All (IsSupported fl t embed contexts seg.text seg.citation_meta) cs
      → All (Gives fl contexts (λ c. c.support_type ≢ "conflict" → IsVerified c) seg) cs
  each-IsVerified seg [] h = tt
  each-IsVerified seg (c ∷ cs) h =
      ((λ id d ctx there ne. Gives-IsVerified seg c h.0 id d ctx there), each-IsVerified seg cs h.1)

  conflict_excused :
      (seg : Segment fl) (cs : List ℕ)
      → seg.support_type ≡ "conflict"
      → All (Gives fl contexts (λ c. c.support_type ≢ "conflict" → IsVerified c) seg) cs
  conflict_excused seg [] e = tt
  conflict_excused seg (c ∷ cs) e =
      ((λ id d ctx there ne. absurd (ne e)), conflict_excused seg cs e)

  segment-IsVerified :
      (seg : Segment fl)
      → (seg.support_type ≢ "conflict" → IsFine fl t embed contexts seg)
      → All (Gives fl contexts (λ c. c.support_type ≢ "conflict" → IsVerified c) seg) seg.citations
  segment-IsVerified seg h = elim (Bool-cases (seg.support_type == "conflict")) [
    | inl same ↦ conflict_excused seg seg.citations ((eq_iff seg.support_type "conflict").0 same)
    | inr other ↦
        each-IsVerified seg seg.citations
          (h (λ p. ground (arith, other, p, eq_iff seg.support_type "conflict")))
  ]

  -- Where a batch embeds each text by itself: every citation object of the answer whose type is not
  -- "conflict" says verified, and its similarity is the one of its claim with the context of its
  -- marker and reaches a threshold.
  pub run-IsVerified :
      (fresh : ℕ → String) (raws : List RawSegment) (domain_id : String)
      (limitations : Option String) (r : VerificationResult fl)
      → run fl embed_batch fresh raws contexts domain_id t limitations ≡ some r
      → All (λ c. c.support_type ≢ "conflict" → IsVerified c) r.citations
  run-IsVerified fresh raws domain_id limitations r h =
      let (out, done, shape) =
        run-ok fl contexts embed_batch fresh raws domain_id t limitations r h in
      let segments = (tier1_filter fl (parse_segments fl raws) (length contexts)).0 in
      let texts =
        tier1_filter-text fl contexts (raw_text raws) (length contexts) (parse_segments fl raws)
          (parse_from-text fl contexts (raw_text raws) 0 raws (λ i seg e. ground (arith, e))) in
      let fine =
        tier2_classify_sound fl t embed contexts embed_batch segments out.0 out.1 out.2
          (raw_text raws) pointwise texts done in
      subst (λ x. All (λ c. c.support_type ≢ "conflict" → IsVerified c) x.citations) (sym shape)
        (cite_all-All fl contexts (λ c. c.support_type ≢ "conflict" → IsVerified c) fresh domain_id
          0 out.0 (All-map segment-IsVerified out.0 fine))
