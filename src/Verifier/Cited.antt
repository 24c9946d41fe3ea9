-- ===== src/Verifier/Cited.antt =====
-- The citation objects of an answer (rag_core/services/verifier_service.py).
use domainrag_ops.Prelude.{
  ℕ, suc, ◌+◌, String, ◌≡◌, refl, sym, ◌∙◌, ap, subst, Option, none, some, List, [], ◌∷◌, string_eq,
  nat_eq, arith, All, length, get_elem?, or_else, Option-cases, inl, inr,
}
use domainrag_ops.Prelude.Float.{FloatOps}
use domainrag_ops.Dict.{get}
use domainrag_ops.Retrieval.{RetrievedChunk}
use domainrag_ops.Verifier.{
  RawSegment, ParsedSegment, VerifierThresholds, VerifiedCitation, Segment, parse_from,
  parse_segments, tier1_filter,
}
use domainrag_ops.Verifier.Tier2.{context_at, tier2_classify}
use domainrag_ops.Verifier.Answer.{
  Citation, VerificationResult, to_citation, append, cite_segment, cite_all, result_of, run,
}

-- The text of segment `i` of the model's answer.
abbrev pub raw_text : List RawSegment → ℕ → String
raw_text raws i = elim (get_elem? raws i) [ none ↦ "" | some seg ↦ or_else seg.text "" ]

module _ (fl : FloatOps) (contexts : List (RetrievedChunk fl)) where
  open fl use {Float, le}

  pub parse_from-text :
      (f : ℕ → String) (n : ℕ) (raws : List RawSegment)
      → ((i : ℕ) (seg : RawSegment) → get_elem? raws i ≡ some seg → f (n + i) ≡ or_else seg.text "")
      → All (λ seg. seg.text ≡ f seg.index) (parse_from fl n raws)
  unfolding parse_from
  parse_from-text f n [] h = tt
  parse_from-text f n (raw ∷ raws) h = (
    sym (h 0 raw refl) ∙ ap f (omega arith),
    parse_from-text f (suc n) raws (λ i seg e. ap f (omega arith) ∙ h (suc i) seg e),
  )

  pub tier1_filter-text :
      (f : ℕ → String) (n : ℕ) (segs : List ParsedSegment)
      → All (λ seg. seg.text ≡ f seg.index) segs
      → All (λ seg. seg.text ≡ f seg.index) (tier1_filter fl segs n).0
  unfolding tier1_filter
  tier1_filter-text f n [] h = tt
  tier1_filter-text f n (seg ∷ segs) h = (h.0, tier1_filter-text f n segs h.1)

  -- A property of the citation objects that the citations of each segment give.
  module _ (P : Citation fl → Type 0) where
    -- The object made of a citation of the segment has the property.
    abbrev pub Gives : Segment fl → ℕ → Type 0
    Gives seg c =
        (id domain_id : String) (ctx : RetrievedChunk fl)
        → context_at fl contexts c ≡ some ctx
        → P (to_citation fl id domain_id seg c ctx (get seg.citation_meta c))

    cite_segment-All :
        (fresh : ℕ → String) (domain_id : String) (seg : Segment fl) (n : ℕ) (cs : List ℕ)
        → All (Gives seg) cs
        → All P (cite_segment fl fresh domain_id contexts seg n cs)
    unfolding cite_segment
    cite_segment-All fresh domain_id seg n [] h = tt
    cite_segment-All fresh domain_id seg n (c ∷ cs) h =
        elim (Option-cases (context_at fl contexts c)) [
          | inl out ↦
              let eq : cite_segment fl fresh domain_id contexts seg n cs
                  ≡ cite_segment fl fresh domain_id contexts seg n (c ∷ cs) =
                ground (arith, out) in
              subst (All P) eq (cite_segment-All fresh domain_id seg n cs h.1)
          | inr (ctx, there) ↦
              let eq : to_citation fl (fresh n) domain_id seg c ctx (get seg.citation_meta c)
                    ∷ cite_segment fl fresh domain_id contexts seg (suc n) cs
                  ≡ cite_segment fl fresh domain_id contexts seg n (c ∷ cs) =
                ground (arith, there) in
              subst (All P) eq (
                h.0 (fresh n) domain_id ctx there,
                cite_segment-All fresh domain_id seg (suc n) cs h.1,
              )
        ]

    append-All : (xs ys : List (Citation fl)) → All P xs → All P ys → All P (append fl xs ys)
    unfolding append
    append-All [] ys h k = k
    append-All (x ∷ xs) ys h k = (h.0, append-All xs ys h.1 k)

    pub cite_all-All :
        (fresh : ℕ → String) (domain_id : String) (n : ℕ) (segs : List (Segment fl))
        → All (λ seg. All (Gives seg) seg.citations) segs
        → All P (cite_all fl fresh domain_id contexts n segs)
    unfolding cite_all
    cite_all-All fresh domain_id n [] h = tt
    cite_all-All fresh domain_id n (seg ∷ segs) h =
        let out = cite_segment fl fresh domain_id contexts seg n seg.citations in
        append-All out (cite_all fl fresh domain_id contexts (n + length out) segs)
          (cite_segment-All fresh domain_id seg n seg.citations h.0)
          (cite_all-All fresh domain_id (n + length out) segs h.1)

  pub run-ok :
      (embed_batch : List String → List (List Float)) (fresh : ℕ → String) (raws : List RawSegment)
      (domain_id : String) (t : VerifierThresholds fl) (limitations : Option String)
      (r : VerificationResult fl)
      → run fl embed_batch fresh raws contexts domain_id t limitations ≡ some r
      → let (segments, removed) = tier1_filter fl (parse_segments fl raws) (length contexts) in
        (out : List (Segment fl) × List (VerifiedCitation fl) × Float) × (tier2_classify fl
            embed_batch segments contexts t
          ≡ some out)
        × (r ≡ result_of fl fresh domain_id contexts t limitations removed out.0 out.2)
  unfolding run
  run-ok embed_batch fresh raws domain_id t limitations r h =
      let segments = (tier1_filter fl (parse_segments fl raws) (length contexts)).0 in
      elim (Option-cases (tier2_classify fl embed_batch segments contexts t)) [
        | inl failed ↦ absurd (ground (arith, failed))
        | inr (out, there) ↦ (out, there, ground (arith, there))
      ]
