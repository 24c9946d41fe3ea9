-- ===== src/Tests/Judged.antt =====
-- An answer that the nodes of the workflow verify and judge.
use domainrag_ops.Prelude.{
  ◌+◌, ◌≡◌, true, false, none, some, List, [], ◌∷◌, length, map, count_if, All,
}
use domainrag_ops.Verifier.{Segment, CitationConfig, from_config}
use domainrag_ops.Verifier.Answer.{run}
use domainrag_ops.Workflow.Verification.{
  VerifyState, Judge, judge_inference_node, verify_path, final_contexts_as_chunks,
}
use domainrag_ops.Workflow.Verification.Agrees.{tells, verify_path-run}
use domainrag_ops.Workflow.Verification.Judged.{
  Settled, citations_of, kept_citations, is_pending, judge_inference_node-Settled,
}
use domainrag_ops.Tests.Floats.{thousandths}
use domainrag_ops.Tests.Asked.{cards, strict}
use domainrag_ops.Tests.Answers.{raws, contexts, embed_batch, cite_id}

abbrev defaults : CitationConfig thousandths
defaults = record {
  strong = none;
  medium = none;
  min_verified_count = none;
  max_unsupported_ratio = none;
  min_confidence = none;
  retrieval = none;
  verified = none;
  supported = none;
  coverage = none;
  judge_enable = some true;
}

abbrev started : VerifyState thousandths
started = record {
  domain_id = "law";
  citation_config = defaults;
  final_contexts = contexts;
  limitations = none;
  tier1_markers_removed = none;
  tier2_avg_similarity = none;
  tier3_unsupported_segments = none;
  inference_judge_results = [];
  unsupported_ratio = 0;
  citations = [];
  citation_types = [];
  final_answer = "";
  confidence = 0;
  gate2_passed = false;
  fallback_reason = none;
}

verify_path-run_example :
    verify_path thousandths (some embed_batch) none (some cards) strict cite_id (raws, started)
    ≡ tells thousandths
        (some cards)
        strict
        (run thousandths embed_batch cite_id raws
          (final_contexts_as_chunks thousandths started)
          "law"
          (from_config thousandths defaults)
          none)
        started
verify_path-run_example =
    verify_path-run thousandths (some cards) strict embed_batch cite_id raws started

abbrev pending : Segment thousandths
pending = record {
  index = 0;
  text = "hot";
  citations = 1 ∷ [];
  support_type = "inference";
  inference_chain = none;
  conflict_groups = [];
  citation_meta = [];
  downgraded = false;
  downgrade_reason = none;
  pending_judge = true;
  judge_reasoning = none;
  judge_caveat = none;
}

abbrev doubting : Judge thousandths
doubting = record {
  min_confidence = 700;
  judge = λ claim chunks chain. record {
    valid = true;
    confidence = 600;
    reasoning = "weak";
    caveat = none;
    parse_ok = true;
  };
}

abbrev judged : List (Segment thousandths) × VerifyState thousandths
judged = judge_inference_node thousandths (some doubting) (pending ∷ [], started)

judge_inference_node-Settled_example :
    All (Settled thousandths) judged.0
    × (map (citations_of thousandths) judged.0
        ≡ map
            (kept_citations thousandths doubting (final_contexts_as_chunks thousandths started))
            (pending ∷ []))
    × (length judged.1.inference_judge_results
        ≡ 0 + count_if (is_pending thousandths) (pending ∷ []))
judge_inference_node-Settled_example =
    judge_inference_node-Settled thousandths doubting (pending ∷ []) started
