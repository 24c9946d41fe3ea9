-- ===== src/Workflow/Verification.antt =====
-- The nodes of the workflow that verify an answer (rag_core/workflows/nodes.py, from parse_response to
-- gate_2), in the order of the edges of rag_core/workflows/rag_graph.py. The segments are passed beside
-- the state, since their fields change on the way.
pub mod Agrees
pub mod Judged
use Prim.Native.String.{◌++◌ as concat}
use domainrag_ops.Prelude.{
  ℕ, String, Bool, true, false, ◌&&◌, ◌==◌, string_eq, Option, none, some, List, [], ◌∷◌, ◌++◌,
  length, map, keep, if◌then◌else◌,
}
use domainrag_ops.Prelude.Float.{FloatOps}
use domainrag_ops.Prelude.Text.{join}
use domainrag_ops.Pii.{PiiDetector, PiiConfig, OutputPiiMask, mask_output}
use domainrag_ops.Retrieval.{RetrievedChunk}
use domainrag_ops.Verifier.{
  RawSegment, ParsedSegment, Segment, VerifierThresholds, CitationConfig, from_config,
  parse_segments, tier1_filter, apply_judge_result,
}
use domainrag_ops.Verifier.Tier2.{tier2_classify, context_at}
use domainrag_ops.Verifier.Answer.{
  Citation, tier3_unsupported, assemble_citations, compute_confidence, evaluate_gate_2,
}

-- An entry of `inference_judge_results`.
pub record JudgeEntry (fl : FloatOps) : Type 0 where
  pub segment_index : ℕ
  pub valid : Bool
  pub confidence : fl.Float
  pub reasoning : String
  pub caveat : Option String
  pub parse_ok : Bool

-- `JudgeResult`, by what the node reads of it.
pub record JudgeResult (fl : FloatOps) : Type 0 where
  pub valid : Bool
  pub confidence : fl.Float
  pub reasoning : String
  pub caveat : Option String
  pub parse_ok : Bool

-- The judge, whose answers are those of a language model.
pub record Judge (fl : FloatOps) : Type 0 where
  pub min_confidence : fl.Float
  pub judge : String → List (RetrievedChunk fl) → Option String → JudgeResult fl

-- The fields of `RAGState` that these nodes read or write, with those of `verifier_metrics`.
pub record VerifyState (fl : FloatOps) : Type 0 where
  pub domain_id : String
  pub citation_config : CitationConfig fl
  pub final_contexts : List (RetrievedChunk fl)
  pub limitations : Option String
  pub tier1_markers_removed : Option ℕ
  pub tier2_avg_similarity : Option fl.Float
  pub tier3_unsupported_segments : Option (List ℕ)
  pub inference_judge_results : List (JudgeEntry fl)
  pub unsupported_ratio : fl.Float
  pub citations : List (Citation fl)
  pub citation_types : List String
  pub final_answer : String
  pub confidence : fl.Float
  pub gate2_passed : Bool
  pub fallback_reason : Option String

module _ (fl : FloatOps) where
  -- `_thresholds_from_state`
  abbrev pub thresholds_from_state : VerifyState fl → VerifierThresholds fl
  thresholds_from_state s = from_config fl s.citation_config

  -- `_dict_to_chunk` of `_chunk_to_dict`, which leaves the two scores out
  abbrev pub reread : RetrievedChunk fl → RetrievedChunk fl
  reread c = record c { dense_score = fl.of_ℕ 0; sparse_score = fl.of_ℕ 0 }

  abbrev pub final_contexts_as_chunks : VerifyState fl → List (RetrievedChunk fl)
  final_contexts_as_chunks s = map reread s.final_contexts

  unfoldable pub parse_response_node :
      List RawSegment × VerifyState fl → List ParsedSegment × VerifyState fl
  parse_response_node (segments, s) = (parse_segments fl segments, s)

  unfoldable pub verify_tier1_node :
      List ParsedSegment × VerifyState fl → List (Segment fl) × VerifyState fl
  verify_tier1_node (segments, s) =
      let (segs, removed) = tier1_filter fl segments (length s.final_contexts) in
      (segs, record s { tier1_markers_removed = some removed })

  abbrev pub with_tier2 :
      {A : Type 0}
      → Option (List (Segment fl) × A × fl.Float)
      → VerifyState fl
      → Option (List (Segment fl) × VerifyState fl)
  with_tier2 none s = none
  with_tier2 (some (segs, assessments, avg)) s =
      some (segs, record s { tier2_avg_similarity = some avg })

  -- `none` as the service leaves the state; `none` as the result is the `IndexError` of tier 2.
  unfoldable pub verify_tier2_node :
      Option (List String → List (List fl.Float))
      → List (Segment fl) × VerifyState fl
      → Option (List (Segment fl) × VerifyState fl)
  verify_tier2_node none (segments, s) = some (segments, s)
  verify_tier2_node (some embed_batch) (segments, s) =
      with_tier2
        (tier2_classify fl embed_batch segments (final_contexts_as_chunks s)
          (thresholds_from_state s))
        s

  -- The contexts that a segment cites.
  unfoldable pub cited_chunks : List (RetrievedChunk fl) → List ℕ → List (RetrievedChunk fl)
  cited_chunks contexts [] = []
  cited_chunks contexts (c ∷ cs) = elim (context_at fl contexts c) [
    | none ↦ cited_chunks contexts cs
    | some ctx ↦ ctx ∷ cited_chunks contexts cs
  ]

  abbrev pub judge_passes : fl.Float → JudgeResult fl → Bool
  judge_passes min_confidence r = r.parse_ok && (r.valid && fl.le min_confidence r.confidence)

  abbrev pub judge_entry : Segment fl → JudgeResult fl → JudgeEntry fl
  judge_entry seg r = record {
    segment_index = seg.index;
    valid = r.valid;
    confidence = r.confidence;
    reasoning = r.reasoning;
    caveat = r.caveat;
    parse_ok = r.parse_ok;
  }

  -- The loop of `judge_inference_node`
  unfoldable pub judge_segments :
      Judge fl
      → List (RetrievedChunk fl)
      → List (Segment fl)
      → List (Segment fl) × List (JudgeEntry fl)
  judge_segments j contexts [] = ([], [])
  judge_segments j contexts (seg ∷ segs) =
      let (rest, entries) = judge_segments j contexts segs in
      let r = j.judge seg.text (cited_chunks contexts seg.citations) seg.inference_chain in
      if seg.pending_judge
      then (
        apply_judge_result fl seg (judge_passes j.min_confidence r) (some r.reasoning) r.caveat
            ∷ rest,
        judge_entry seg r ∷ entries,
      )
      else (seg ∷ rest, entries)

  -- `none` where there is no judge.
  unfoldable pub judge_inference_node :
      Option (Judge fl) → List (Segment fl) × VerifyState fl → List (Segment fl) × VerifyState fl
  judge_inference_node none (segments, s) = (segments, s)
  judge_inference_node (some j) (segments, s) =
      let (segs, entries) = judge_segments j (final_contexts_as_chunks s) segments in
      (segs, record s { inference_judge_results = s.inference_judge_results ++ entries })

  unfoldable pub detect_unsupported_node :
      List (Segment fl) × VerifyState fl → List (Segment fl) × VerifyState fl
  detect_unsupported_node (segments, s) =
      let (idxs, ratio) = tier3_unsupported fl segments in
      (segments, record s { unsupported_ratio = ratio; tier3_unsupported_segments = some idxs })

  abbrev pub node_caveat : String
  node_caveat = "일부 답변은 추론·충돌 검증이 결선되지 않아 인용을 제거했습니다. 담당 부서 확인을 권장합니다."

  -- `f"{limitations}\n{caveat}" if limitations else caveat`
  abbrev pub joined_limitations : Option String → Option String
  joined_limitations none = some node_caveat
  joined_limitations (some limitations) =
      if limitations == ""
      then some node_caveat
      else some (concat limitations (concat "\n" node_caveat))

  -- The limitations, by the list `downgraded`.
  abbrev pub assembled_limitations : List (Segment fl) → Option String → Option String
  assembled_limitations [] limitations = limitations
  assembled_limitations (seg ∷ downgraded) limitations = joined_limitations limitations

  unfoldable pub assemble_response_node :
      (ℕ → String) → List (Segment fl) × VerifyState fl → List (Segment fl) × VerifyState fl
  assemble_response_node fresh (segments, s) =
      let (citations, types) =
        assemble_citations fl fresh s.domain_id segments (final_contexts_as_chunks s) in
      (
        segments,
        record s {
          citations = citations;
          citation_types = types;
          final_answer = join "" (map (λ (seg : Segment fl). seg.text) segments);
          limitations =
              assembled_limitations (keep (λ (seg : Segment fl). seg.downgraded) segments)
                s.limitations;
        },
      )

  abbrev pub masked_by : OutputPiiMask → String → String
  masked_by result answer = elim result.findings [ [] ↦ answer | f ∷ fs ↦ result.masked_text ]

  -- The answer after `mask_response_pii_node`.
  abbrev pub masked_answer : Option PiiDetector → PiiConfig → String → String
  masked_answer none cfg answer = answer
  masked_answer (some detector) cfg answer =
      if answer == "" then answer else masked_by (mask_output detector answer cfg) answer

  -- `mask_response_pii_node`, by what it does to the state that is passed here.
  unfoldable pub mask_answer_node :
      Option PiiDetector
      → PiiConfig
      → List (Segment fl) × VerifyState fl
      → List (Segment fl) × VerifyState fl
  mask_answer_node detector cfg (segments, s) =
      (segments, record s { final_answer = masked_answer detector cfg s.final_answer })

  unfoldable pub compute_confidence_node :
      List (Segment fl) × VerifyState fl → List (Segment fl) × VerifyState fl
  compute_confidence_node (segments, s) = (
    segments,
    record s {
      confidence =
          compute_confidence fl segments s.citations (final_contexts_as_chunks s)
            s.unsupported_ratio (thresholds_from_state s);
    },
  )

  abbrev pub gate2_text : Option String → String
  gate2_text none = "gate2_failed"
  gate2_text (some reason) = if reason == "" then "gate2_failed" else concat "gate2_" reason

  abbrev pub gate2_reason : Bool → Option String → Option String → Option String
  gate2_reason passed reason old = if passed then old else some (gate2_text reason)

  unfoldable pub gate_2_node :
      List (Segment fl) × VerifyState fl → List (Segment fl) × VerifyState fl
  gate_2_node (segments, s) =
      let (passed, reason) =
        evaluate_gate_2 fl s.citations s.unsupported_ratio s.confidence (thresholds_from_state s) in
      (
        segments,
        record s {
          gate2_passed = passed;
          fallback_reason = gate2_reason passed reason s.fallback_reason;
        },
      )

  -- The nodes after tier 2, for a grounded answer.
  abbrev pub after_tier2 :
      Option (Judge fl)
      → Option PiiDetector
      → PiiConfig
      → (ℕ → String)
      → Option (List (Segment fl) × VerifyState fl)
      → Option (List (Segment fl) × VerifyState fl)
  after_tier2 judge detector cfg fresh none = none
  after_tier2 judge detector cfg fresh (some p) = some (
      gate_2_node (
        compute_confidence_node (
          mask_answer_node detector cfg (
            assemble_response_node fresh
              (detect_unsupported_node (judge_inference_node judge p))))))

  -- The path from parse_response to gate_2, where the conflict heuristic is off:
  -- detect_conflict_heuristic then returns `{}`.
  unfoldable pub verify_path :
      Option (List String → List (List fl.Float))
      → Option (Judge fl)
      → Option PiiDetector
      → PiiConfig
      → (ℕ → String)
      → List RawSegment × VerifyState fl
      → Option (List (Segment fl) × VerifyState fl)
  verify_path embed_batch judge detector cfg fresh p =
      after_tier2 judge detector cfg fresh
        (verify_tier2_node embed_batch (verify_tier1_node (parse_response_node p)))
