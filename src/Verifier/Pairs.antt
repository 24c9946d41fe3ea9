-- ===== src/Verifier/Pairs.antt =====
-- Each text is embedded once in tier 2, with the outcome of comparing each claim with each cited
-- chunk on its own (rag_core/services/verifier_service.py).
pub mod Numbering
use domainrag_ops.Verifier.Pairs.Numbering.{IsInterned, Extends, intern-Interns}
use domainrag_ops.Prelude.{
  ℕ, zero, suc, String, ◌≡◌, refl, sym, subst, none, some, List, [], ◌∷◌, ◌++◌, ◌==◌, string_eq,
  arith, eq_iff, length, get_elem?, map, Option-cases, Bool-cases, inl, inr, if◌then◌else◌,
}
use domainrag_ops.Prelude.Float.{FloatOps}
use domainrag_ops.Dict.{get, set_item, get-set_item}
use domainrag_ops.VectorStore.{cosine}
use domainrag_ops.Retrieval.{RetrievedChunk}
use domainrag_ops.Verifier.{VerifierThresholds, VerifiedCitation, Segment}
use domainrag_ops.Verifier.Tier2.{
  Interned, Pair, intern, context_at, skipped, citation_pairs, collect_pairs, assessment,
  assess_pair, assess_pairs, by_segment, settle_all, average, embed_texts, tier2_classify,
}

module _ (fl : FloatOps) (t : VerifierThresholds fl) (embed : String → List fl.Float)
    (contexts : List (RetrievedChunk fl)) where
  open fl use {Float}

  -- The assessment of the claim of segment `i` against the chunk of citation `c`.
  abbrev pub direct_assessment : ℕ → String → ℕ → RetrievedChunk fl → VerifiedCitation fl
  direct_assessment i claim c ctx =
      assessment fl t i c (cosine fl (embed claim) (embed ctx.content))

  abbrev pub direct_citations : ℕ → String → List ℕ → List (VerifiedCitation fl)
  direct_citations i claim [] = []
  direct_citations i claim (c ∷ cs) = elim (context_at fl contexts c) [
    | none ↦ direct_citations i claim cs
    | some ctx ↦ direct_assessment i claim c ctx ∷ direct_citations i claim cs
  ]

  -- The assessments of all the segments, each claim and chunk embedded anew.
  abbrev pub direct_assessments : List (Segment fl) → List (VerifiedCitation fl)
  direct_assessments [] = []
  direct_assessments (seg ∷ segs) =
      direct_citations seg.index seg.text (if skipped fl t seg then [] else seg.citations)
      ++ direct_assessments segs

  -- The embeddings at the positions of the texts.
  abbrev Embeds : List (List Float) → Interned → Type 0
  Embeds es s =
      (i : ℕ) (x : String) → get_elem? s.unique_texts i ≡ some x → get_elem? es i ≡ some (embed x)

  -- Pairs that, once embedded, are assessed as `as`.
  abbrev Leads : Interned → List (VerifiedCitation fl) → List Pair × Interned → Type 0
  Leads s found (ps, s') =
      IsInterned s'
      × Extends s s'
      × ((es : List (List Float)) → Embeds es s' → assess_pairs fl t es ps ≡ some found)

  assess_pair_lem :
      (es : List (List Float)) (p : Pair) (claim content : String) (s : Interned)
      → Embeds es s
      → get_elem? s.unique_texts p.claim_pos ≡ some claim
      → get_elem? s.unique_texts p.chunk_pos ≡ some content
      → assess_pair fl t es p
        ≡ some (assessment fl t p.seg_idx p.citation_idx (cosine fl (embed claim) (embed content)))
  unfolding assess_pair
  assess_pair_lem es p claim content s h e f =
      ground (arith, h p.claim_pos claim e, h p.chunk_pos content f)

  assess_pairs_cons :
      (es : List (List Float)) (p : Pair) (ps : List Pair) (a : VerifiedCitation fl)
      (found : List (VerifiedCitation fl))
      → assess_pair fl t es p ≡ some a
      → assess_pairs fl t es ps ≡ some found
      → assess_pairs fl t es (p ∷ ps) ≡ some (a ∷ found)
  unfolding assess_pairs
  assess_pairs_cons es p ps a found e f = ground (arith, e, f)

  assess_pairs-append :
      (es : List (List Float)) (ps qs : List Pair) (found more : List (VerifiedCitation fl))
      → assess_pairs fl t es ps ≡ some found
      → assess_pairs fl t es qs ≡ some more
      → assess_pairs fl t es (ps ++ qs) ≡ some (found ++ more)
  unfolding assess_pairs
  assess_pairs-append es [] qs found more e f = let q : found ≡ [] = ground (arith, e) in rw q f
  assess_pairs-append es (p ∷ ps) qs found more e f = elim (Option-cases (assess_pair fl t es p)) [
    | inl failed ↦ absurd (ground (arith, failed, e))
    | inr (a, this) ↦ elim (Option-cases (assess_pairs fl t es ps)) [
      | inl failed ↦ absurd (ground (arith, this, failed, e))
      | inr (later, those) ↦
          let q : found ≡ a ∷ later = ground (arith, this, those, e) in
          let ih = assess_pairs-append es ps qs later more those f in
          rw q (ground (arith, this, ih))
    ]
  ]

  citation_pairs-Leads :
      (i : ℕ) (claim : String) (cs : List ℕ) (s : Interned)
      → IsInterned s
      → Leads s (direct_citations i claim cs) (citation_pairs fl contexts i claim cs s)
  unfolding citation_pairs
  citation_pairs-Leads i claim [] s h = (h, (λ j x e. e), λ es k. unfold assess_pairs in refl)
  citation_pairs-Leads i claim (c ∷ cs) s h = elim (Option-cases (context_at fl contexts c)) [
    | inl out ↦
        let eq : citation_pairs fl contexts i claim cs s
            ≡ citation_pairs fl contexts i claim (c ∷ cs) s =
          ground (arith, out) in
        let eq' : direct_citations i claim cs ≡ direct_citations i claim (c ∷ cs) =
          ground (arith, out) in
        subst (λ x. Leads s x (citation_pairs fl contexts i claim (c ∷ cs) s)) eq'
          (subst (Leads s (direct_citations i claim cs)) eq (citation_pairs-Leads i claim cs s h))
    | inr (ctx, there) ↦
        let (h1, x1, at1) = intern-Interns claim s h in
        let s1 = (intern claim s).1 in
        let (h2, x2, at2) = intern-Interns ctx.content s1 h1 in
        let s2 = (intern ctx.content s1).1 in
        let (h3, x3, leads) = citation_pairs-Leads i claim cs s2 h2 in
        let r = citation_pairs fl contexts i claim cs s2 in
        let p : Pair = record {
          seg_idx = i;
          citation_idx = c;
          claim_pos = (intern claim s).0;
          chunk_pos = (intern ctx.content s1).0;
        } in
        let eq : (p ∷ r.0, r.1) ≡ citation_pairs fl contexts i claim (c ∷ cs) s =
          ground (arith, there) in
        let eq' : direct_assessment i claim c ctx ∷ direct_citations i claim cs
            ≡ direct_citations i claim (c ∷ cs) =
          ground (arith, there) in
        subst (λ x. Leads s x (citation_pairs fl contexts i claim (c ∷ cs) s)) eq'
          (subst (Leads s (direct_assessment i claim c ctx ∷ direct_citations i claim cs)) eq (
            h3,
            (λ j x e. x3 j x (x2 j x (x1 j x e))),
            (λ es k.
                assess_pairs_cons es p r.0 (direct_assessment i claim c ctx)
                  (direct_citations i claim cs)
                  (assess_pair_lem es p claim ctx.content r.1 k
                    (x3 (intern claim s).0 claim (x2 (intern claim s).0 claim at1))
                    (x3 (intern ctx.content s1).0 ctx.content at2))
                  (leads es k)),
          ))
  ]

  collect_pairs-Leads :
      (segs : List (Segment fl)) (s : Interned)
      → IsInterned s
      → Leads s (direct_assessments segs) (collect_pairs fl t contexts segs s)
  unfolding collect_pairs
  collect_pairs-Leads [] s h = (h, (λ j x e. e), λ es k. unfold assess_pairs in refl)
  collect_pairs-Leads (seg ∷ segs) s h =
      let cs = (if skipped fl t seg then [] else seg.citations) in
      let (h1, x1, leads) = citation_pairs-Leads seg.index seg.text cs s h in
      let r = citation_pairs fl contexts seg.index seg.text cs s in
      let (h2, x2, later) = collect_pairs-Leads segs r.1 h1 in
      let r' = collect_pairs fl t contexts segs r.1 in
      (
        h2,
        (λ j x e. x2 j x (x1 j x e)),
        (λ es k.
            assess_pairs-append es r.0 r'.0 (direct_citations seg.index seg.text cs)
              (direct_assessments segs) (leads es (λ j x e. k j x (x2 j x e))) (later es k)),
      )

  mapped :
      (xs : List String) (i : ℕ) (x : String)
      → get_elem? xs i ≡ some x
      → get_elem? (map embed xs) i ≡ some (embed x)
  mapped [] i x e = absurd (ground (arith, e))
  mapped (y ∷ ys) zero x e = ground (arith, e)
  mapped (y ∷ ys) (suc i) x e = mapped ys i x e

  -- Where a batch embeds each text by itself, tier 2 raises nothing, and its assessments are those
  -- of comparing each claim with each chunk that it cites on their own.
  pub tier2_classify_lem :
      (embed_batch : List String → List (List Float)) (segs : List (Segment fl))
      → ((ts : List String) → embed_batch ts ≡ map embed ts)
      → tier2_classify fl embed_batch segs contexts t
        ≡ some (
          settle_all fl t (by_segment fl (direct_assessments segs) []) segs,
          direct_assessments segs,
          average fl (direct_assessments segs),
        )
  unfolding tier2_classify
  tier2_classify_lem embed_batch segs h =
      let empty : Interned = record { unique_texts = []; text_to_pos = [] } in
      let (h1, _, leads) =
        collect_pairs-Leads segs empty (unfold get in (λ u p e. absurd (ground (arith, e)))) in
      let s = (collect_pairs fl t contexts segs empty).1 in
      let all_found = leads (embed_texts fl embed_batch s.unique_texts) (λ i x e.
        subst (λ es. get_elem? es i ≡ some (embed x)) (sym (texts s.unique_texts))
          (mapped s.unique_texts i x e)) in
      ground (arith, all_found)
    where
      texts : (xs : List String) → embed_texts fl embed_batch xs ≡ map embed xs
      texts [] = refl
      texts (x ∷ xs) = h (x ∷ xs)
