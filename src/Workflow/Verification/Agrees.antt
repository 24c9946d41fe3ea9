-- ===== src/Workflow/Verification/Agrees.antt =====
-- The verification nodes (rag_core/workflows/nodes.py) against `VerifierService.run`
-- (rag_core/services/verifier_service.py).
use domainrag_ops.Prelude.{
  ℕ, String, ◌≡◌, refl, sym, subst, length-map, Option, none, some, List, [], ◌∷◌, length, keep,
  Bool-cases, inl, inr,
}
use domainrag_ops.Prelude.Float.{FloatOps}
use domainrag_ops.Verifier.{RawSegment, Segment, VerifiedCitation, tier1_filter, parse_segments}
use domainrag_ops.Verifier.Tier2.{tier2_classify}
use domainrag_ops.Pii.{PiiDetector, PiiConfig}
use domainrag_ops.Verifier.Answer.{
  merged_limitations, with_caveat, VerificationResult, run, result_of,
}
use domainrag_ops.Workflow.Verification.{
  VerifyState, thresholds_from_state, reread, final_contexts_as_chunks, parse_response_node,
  verify_tier1_node, verify_tier2_node, with_tier2, judge_inference_node, detect_unsupported_node,
  assemble_response_node, joined_limitations, assembled_limitations, masked_answer,
  mask_answer_node, compute_confidence_node, gate_2_node, gate2_reason, after_tier2, verify_path,
}

module _ (fl : FloatOps) (detector : Option PiiDetector) (cfg : PiiConfig) where
  -- The state that tells of a result.
  abbrev pub told : VerificationResult fl → VerifyState fl → VerifyState fl
  told r s = record s {
    tier1_markers_removed = some r.tier1_markers_removed;
    tier2_avg_similarity = some r.tier2_avg_similarity;
    tier3_unsupported_segments = some r.unsupported_segment_indices;
    unsupported_ratio = r.unsupported_ratio;
    citations = r.citations;
    citation_types = r.citation_types;
    final_answer = masked_answer fl detector cfg r.final_answer;
    limitations = r.limitations;
    confidence = r.confidence;
    gate2_passed = r.gate2_passed;
    fallback_reason = gate2_reason fl r.gate2_passed r.gate2_reason s.fallback_reason;
  }

  abbrev pub tells :
      Option (VerificationResult fl) → VerifyState fl → Option (List (Segment fl) × VerifyState fl)
  tells none s = none
  tells (some r) s = some (r.segments, told r s)

  joined_lem :
      (limitations : Option String) → joined_limitations fl limitations ≡ with_caveat fl limitations
  joined_lem none = refl
  joined_lem (some s) = refl

  some_downgraded :
      (segs : List (Segment fl)) (limitations : Option String)
      → assembled_limitations fl (keep (λ (seg : Segment fl). seg.downgraded) segs) limitations
        ≡ merged_limitations fl segs limitations
  some_downgraded [] limitations = refl
  some_downgraded (seg ∷ segs) limitations = elim (Bool-cases seg.downgraded) [
    | inl e ↦ rw e (joined_lem limitations)
    | inr e ↦ rw e (some_downgraded segs limitations)
  ]

  tier2-tells :
      (fresh : ℕ → String) (removed : ℕ) (s : VerifyState fl)
      (r : Option (List (Segment fl) × List (VerifiedCitation fl) × fl.Float))
      → after_tier2 fl none detector cfg fresh
          (with_tier2 fl r (record s { tier1_markers_removed = some removed }))
        ≡ tells
            (elim r [
              | none ↦ none
              | some (settled, assessments, avg_sim) ↦ some (
                  result_of fl fresh s.domain_id
                    (final_contexts_as_chunks fl s)
                    (thresholds_from_state fl s)
                    s.limitations
                    removed
                    settled
                    avg_sim)
            ])
            s
  unfolding judge_inference_node detect_unsupported_node assemble_response_node mask_answer_node
      compute_confidence_node gate_2_node
  tier2-tells fresh removed s none = refl
  tier2-tells fresh removed s (some (settled, assessments, avg_sim)) =
      rw (some_downgraded settled s.limitations) refl

  -- `run` with the number of contexts that tier 1 takes.
  abbrev run_counted :
      (List String → List (List fl.Float))
      → (ℕ → String)
      → List RawSegment
      → VerifyState fl
      → ℕ
      → Option (VerificationResult fl)
  run_counted embed_batch fresh raws s n =
      let (segments, removed) = tier1_filter fl (parse_segments fl raws) n in
      elim (tier2_classify fl embed_batch segments (final_contexts_as_chunks fl s)
        (thresholds_from_state fl s)) [
          | none ↦ none
          | some (settled, assessments, avg_sim) ↦ some (
              result_of fl fresh s.domain_id (final_contexts_as_chunks fl s)
                (thresholds_from_state fl s) s.limitations removed settled avg_sim)
        ]

  -- Where there is no judge and the conflict heuristic is off, the path of the nodes from
  -- parse_response to gate_2 of a grounded answer leaves the segments and the state of the result of
  -- VerifierService.run on the same raw segments, contexts, thresholds and limitations, with the
  -- answer masked, and raises where run raises. A gate that passes leaves the reason for a fallback.
  pub verify_path-run :
      (embed_batch : List String → List (List fl.Float)) (fresh : ℕ → String)
      (raws : List RawSegment) (s : VerifyState fl)
      → verify_path fl (some embed_batch) none detector cfg fresh (raws, s)
        ≡ tells
            (run fl embed_batch fresh raws
              (final_contexts_as_chunks fl s)
              s.domain_id
              (thresholds_from_state fl s)
              s.limitations)
            s
  unfolding verify_path run parse_response_node verify_tier1_node verify_tier2_node
  verify_path-run embed_batch fresh raws s =
      subst
        (λ n.
          verify_path fl (some embed_batch) none detector cfg fresh (raws, s)
          ≡ tells (run_counted embed_batch fresh raws s n) s)
        (sym (length-map (reread fl) s.final_contexts))
        (tier2-tells fresh (tier1_filter fl (parse_segments fl raws) (length s.final_contexts)).1 s
          (tier2_classify fl embed_batch
            (tier1_filter fl (parse_segments fl raws) (length s.final_contexts)).0
            (final_contexts_as_chunks fl s) (thresholds_from_state fl s)))
