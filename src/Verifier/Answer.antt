-- ===== src/Verifier/Answer.antt =====
-- Tier 3, the citation objects, the confidence, gate 2 and `run`
-- (rag_core/services/verifier_service.py). `fresh n` is the id that the n-th call of `uuid4` gives,
-- from 0.
use Prim.Native.String.{◌++◌ as concat}
use domainrag_ops.Prelude.{
  ℕ, zero, suc, ◌+◌, String, Bool, true, false, Option, none, some, List, [], ◌∷◌, ◌==◌, string_eq,
  nat_eq, length, keep, map, any, count_if, ltb, or_else, if◌then◌else◌,
}
use domainrag_ops.Prelude.Float.{FloatOps, min, max}
use domainrag_ops.Prelude.Text.{take_chars, join}
use domainrag_ops.Dict.{get}
use domainrag_ops.Payload.{Value, lookup}
use domainrag_ops.Retrieval.{RetrievedChunk}
use domainrag_ops.Verifier.{
  RawSegment, VerifierThresholds, VerifiedCitation, Segment, parse_segments, tier1_filter,
}
use domainrag_ops.Verifier.Tier2.{context_at, is_empty, tier2_classify}

module _ (fl : FloatOps) where
  open fl use {Float, of_ℕ, lt, plus, minus, times, over}

  -- A citation object; `none` where the code has `None` because there is no assessment.
  pub record Citation : Type 0 where
    pub citation_id : String
    pub marker : ℕ
    pub domain_id : String
    pub support_type : String
    pub support_level : Option String
    pub verified : Option Bool
    pub claim_text : String
    pub doc_id : Value
    pub chunk_id : String
    pub title : String
    pub page_number : Value
    pub section_title : Value
    pub excerpt : String
    pub score : Float
    pub rerank_score : Option Float
    pub similarity : Option Float

  pub record VerificationResult : Type 0 where
    pub segments : List (Segment fl)
    pub citations : List Citation
    pub citation_types : List String
    pub unsupported_segment_indices : List ℕ
    pub unsupported_ratio : Float
    pub tier1_markers_removed : ℕ
    pub tier2_avg_similarity : Float
    pub confidence : Float
    pub gate2_passed : Bool
    pub gate2_reason : Option String
    pub final_answer : String
    pub limitations : Option String

  -- `a / b` on two `int`s, where the list that `b` counts is not empty
  abbrev pub ratio_of : ℕ → ℕ → Float
  ratio_of a zero = of_ℕ 0
  ratio_of a (suc b) = over (of_ℕ a) (of_ℕ (suc b))

  abbrev pub uncited : Segment fl → Bool
  uncited seg = is_empty fl seg.citations

  unfoldable pub tier3_unsupported : List (Segment fl) → List ℕ × Float
  tier3_unsupported segments =
      let unsupported = map (λ (seg : Segment fl). seg.index) (keep uncited segments) in
      (unsupported, ratio_of (length unsupported) (length segments))

  abbrev pub to_citation :
      String → String → Segment fl → ℕ → RetrievedChunk fl → Option (VerifiedCitation fl) → Citation
  to_citation citation_id domain_id seg c ctx meta = record {
    citation_id = citation_id;
    marker = c;
    domain_id = domain_id;
    support_type = seg.support_type;
    support_level = elim meta [ none ↦ none | some m ↦ some m.support_level ];
    verified = elim meta [ none ↦ none | some m ↦ some m.verified ];
    claim_text = seg.text;
    doc_id = lookup ctx.payload "doc_id";
    chunk_id = ctx.chunk_id;
    title = ctx.title;
    page_number = ctx.page_number;
    section_title = ctx.section_title;
    excerpt = take_chars 200 ctx.content;
    score = ctx.fused_score;
    rerank_score = ctx.rerank_score;
    similarity = elim meta [ none ↦ none | some m ↦ some m.similarity ];
  }

  -- The citation objects of one segment, where `n` objects were made before.
  unfoldable pub cite_segment :
      (ℕ → String) → String → List (RetrievedChunk fl) → Segment fl → ℕ → List ℕ → List Citation
  cite_segment fresh domain_id contexts seg n [] = []
  cite_segment fresh domain_id contexts seg n (c ∷ cs) = elim (context_at fl contexts c) [
    | none ↦ cite_segment fresh domain_id contexts seg n cs
    | some ctx ↦
        to_citation (fresh n) domain_id seg c ctx (get seg.citation_meta c)
        ∷ cite_segment fresh domain_id contexts seg (suc n) cs
  ]

  unfoldable pub append : List Citation → List Citation → List Citation
  append [] ys = ys
  append (x ∷ xs) ys = x ∷ append xs ys

  unfoldable pub cite_all :
      (ℕ → String) → String → List (RetrievedChunk fl) → ℕ → List (Segment fl) → List Citation
  unfolding append
  cite_all fresh domain_id contexts n [] = []
  cite_all fresh domain_id contexts n (seg ∷ segs) =
      let out = cite_segment fresh domain_id contexts seg n seg.citations in
      append out (cite_all fresh domain_id contexts (n + length out) segs)

  -- `assemble_citations`: the second list has the type of each object.
  abbrev pub assemble_citations :
      (ℕ → String)
      → String
      → List (Segment fl)
      → List (RetrievedChunk fl)
      → List Citation × List String
  assemble_citations fresh domain_id segments contexts =
      let out = cite_all fresh domain_id contexts 0 segments in
      (out, map (λ (c : Citation). c.support_type) out)

  abbrev pub rank_score : RetrievedChunk fl → Float
  rank_score c = or_else c.rerank_score c.fused_score

  -- Python's `max` over the contexts, the first of the greatest
  unfoldable pub top_score : Float → List (RetrievedChunk fl) → Float
  top_score best [] = best
  top_score best (c ∷ cs) = top_score (if lt best (rank_score c) then rank_score c else best) cs

  abbrev pub top1 : List (RetrievedChunk fl) → Float
  top1 [] = of_ℕ 0
  top1 (c ∷ cs) = top_score (rank_score c) cs

  unfoldable pub marker_count : List (Segment fl) → ℕ
  marker_count [] = 0
  marker_count (seg ∷ segs) = length seg.citations + marker_count segs

  abbrev pub is_counted : Citation → Bool
  is_counted c = or_else c.verified false

  abbrev pub cited : Segment fl → Bool
  cited seg = if uncited seg then false else true

  abbrev clamp : Float → Float
  clamp x = max fl (of_ℕ 0) (min fl (of_ℕ 1) x)

  unfoldable pub compute_confidence :
      List (Segment fl)
      → List Citation
      → List (RetrievedChunk fl)
      → Float
      → VerifierThresholds fl
      → Float
  compute_confidence segments citations contexts unsupported_ratio t =
      let retrieval = clamp (top1 contexts) in
      let verified = ratio_of (count_if is_counted citations) (marker_count segments) in
      let supported = max fl (of_ℕ 0) (minus (of_ℕ 1) unsupported_ratio) in
      let coverage = ratio_of (count_if cited segments) (length segments) in
      clamp (
        plus
          (plus (plus (times retrieval t.weight_retrieval) (times verified t.weight_verified))
            (times supported t.weight_supported))
          (times coverage t.weight_coverage))

  unfoldable pub evaluate_gate_2 :
      List Citation → Float → Float → VerifierThresholds fl → Bool × Option String
  evaluate_gate_2 citations unsupported_ratio confidence t =
      if ltb (count_if is_counted citations) t.min_verified_count
      then (false, some "below_min_verified_count")
      else if lt t.max_unsupported_ratio unsupported_ratio
      then (false, some "above_max_unsupported_ratio")
      else if lt confidence t.min_confidence
      then (false, some "below_min_confidence")
      else (true, none)

  abbrev pub caveat_text : String
  caveat_text = "일부 답변은 추론·충돌 검증이 결선되지 않아 인용을 제거했습니다. 담당 부서 확인을 권장합니다."

  abbrev pub with_caveat : Option String → Option String
  with_caveat none = some caveat_text
  with_caveat (some s) =
      if s == "" then some caveat_text else some (concat s (concat "\n" caveat_text))

  abbrev pub merged_limitations : List (Segment fl) → Option String → Option String
  merged_limitations segments limitations =
      if any (λ (seg : Segment fl). seg.downgraded) segments
      then with_caveat limitations
      else limitations

  abbrev pub result_of :
      (ℕ → String)
      → String
      → List (RetrievedChunk fl)
      → VerifierThresholds fl
      → Option String
      → ℕ
      → List (Segment fl)
      → Float
      → VerificationResult
  result_of fresh domain_id contexts t limitations removed segments avg_sim =
      let (unsupported, unsupported_ratio) = tier3_unsupported segments in
      let (citations, types) = assemble_citations fresh domain_id segments contexts in
      let confidence = compute_confidence segments citations contexts unsupported_ratio t in
      let (passed, reason) = evaluate_gate_2 citations unsupported_ratio confidence t in
      record {
        segments = segments;
        citations = citations;
        citation_types = types;
        unsupported_segment_indices = unsupported;
        unsupported_ratio = unsupported_ratio;
        tier1_markers_removed = removed;
        tier2_avg_similarity = avg_sim;
        confidence = confidence;
        gate2_passed = passed;
        gate2_reason = reason;
        final_answer = join "" (map (λ (seg : Segment fl). seg.text) segments);
        limitations = merged_limitations segments limitations;
      }

  -- `run`; `none` is the `IndexError` of tier 2.
  unfoldable pub run :
      (List String → List (List Float))
      → (ℕ → String)
      → List RawSegment
      → List (RetrievedChunk fl)
      → String
      → VerifierThresholds fl
      → Option String
      → Option VerificationResult
  run embed_batch fresh raw_segments contexts domain_id t limitations =
      let (segments, removed) =
        tier1_filter fl (parse_segments fl raw_segments) (length contexts) in
      elim (tier2_classify fl embed_batch segments contexts t) [
        | none ↦ none
        | some (settled, assessments, avg_sim) ↦
            some (result_of fresh domain_id contexts t limitations removed settled avg_sim)
      ]
