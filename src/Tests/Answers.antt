-- ===== src/Tests/Answers.antt =====
-- A model's answer with a direct and an inferred segment, verified against two contexts.
use domainrag_ops.Prelude.{
  ℕ, String, ◌≡◌, ◌≢◌, refl, Bool, true, false, not, ◌&&◌, none, some, List, [], ◌∷◌, map, All,
  count_if, take, leb, length, ◌<◌, is_some, nat_eq, string_eq,
}
use domainrag_ops.Dict.{get, set_item}
use domainrag_ops.Payload.{Value, atom, null}
use domainrag_ops.VectorStore.{cosine}
use domainrag_ops.Retrieval.{RetrievedChunk, RetrievalResult, rerank, hits_to_retrieved_chunks}
use domainrag_ops.Verifier.{
  RawSegment, number, other, pos, negsuc, VerifierThresholds, VerifiedCitation, Segment,
  from_config, parse_from, ints, normalize_support_type, tier1_filter, valid_citations, classify,
}
use domainrag_ops.Verifier.Tier2.{
  intern, citation_pairs, collect_pairs, assess_pair, assess_pairs, by_segment, settle, settle_all,
  settle_direct, settle_inference, restrict, tier2_classify, average,
}
use domainrag_ops.Verifier.Answer.{VerificationResult, result_of, run, is_counted}
use domainrag_ops.Verifier.Pairs.{tier2_classify_lem, direct_assessments}
use domainrag_ops.Verifier.Verified.{IsVerified, run-IsVerified}
use domainrag_ops.Verifier.Bounds.{count_up, IsWithin, run_bounds}
use domainrag_ops.Verifier.Gate.{run_gate}
use domainrag_ops.Tests.Floats.{thousandths, thousandths-laws}
use domainrag_ops.Tests.Stores.{both}

abbrev context : String → String → RetrievedChunk thousandths
context id content = record {
  chunk_id = id;
  doc_id = "d1";
  title = "Handbook";
  content = content;
  page_number = atom null;
  section_title = atom null;
  dense_score = 0;
  sparse_score = 0;
  fused_score = 800;
  payload = [];
  rerank_score = none;
}

abbrev pub contexts : List (RetrievedChunk thousandths)
contexts = context "c1" "hot" ∷ context "c2" "cold" ∷ []

abbrev embed : String → List ℕ
embed String.[] = 0 ∷ []
embed (String.◌∷◌ c s) = elim s [
  | String.[] ↦ 0 ∷ []
  | String.◌∷◌ d r ↦ elim r [
    | String.[] ↦ 0 ∷ []
    | String.◌∷◌ e q ↦ elim q [ String.[] ↦ 1000 ∷ [] | _ ↦ 0 ∷ [] ]
  ]
]

abbrev pub embed_batch : List String → List (List ℕ)
embed_batch ts = map embed ts

abbrev raw : RawSegment
raw = record {
  text = some "hot";
  citations = number (pos 1) ∷ number (pos 2) ∷ number (pos 9) ∷ number (negsuc 0) ∷ other ∷ [];
  support_type = none;
  citation_type = some "none";
  inference_chain = none;
  conflict_groups = [];
}

abbrev inferred : RawSegment
inferred = record raw { text = some "so"; support_type = some "inference" }

abbrev pub raws : List RawSegment
raws = raw ∷ inferred ∷ []

abbrev thresholds : VerifierThresholds thousandths
thresholds = from_config thousandths (record {
  strong = none;
  medium = none;
  min_verified_count = none;
  max_unsupported_ratio = none;
  min_confidence = none;
  retrieval = none;
  verified = none;
  supported = none;
  coverage = none;
  judge_enable = none;
})

abbrev segment : ℕ → String → List ℕ → String → Segment thousandths
segment i claim cs type = record {
  index = i;
  text = claim;
  citations = cs;
  support_type = type;
  inference_chain = none;
  conflict_groups = [];
  citation_meta = [];
  downgraded = false;
  downgrade_reason = none;
  pending_judge = false;
  judge_reasoning = none;
  judge_caveat = none;
}

abbrev assessed : ℕ → ℕ → String → Bool → VerifiedCitation thousandths
assessed c sim level ver = record {
  segment_index = 0;
  chunk_index = c;
  similarity = sim;
  support_level = level;
  verified = ver;
}

abbrev settled : List (Segment thousandths)
settled =
    record (segment 0 "hot" (1 ∷ []) "direct") {
      citation_meta = (1, assessed 1 1000 "strong" true) ∷ [];
    }
    ∷ record (segment 1 "so" [] "inference") {
      downgraded = true;
      downgrade_reason = some "judge_not_enabled";
    }
    ∷ []

abbrev pub cite_id : ℕ → String
cite_id n = "cite"

abbrev answer : VerificationResult thousandths
answer = result_of thousandths cite_id "law" contexts thresholds none 4 settled 500

it_runs : run thousandths embed_batch cite_id raws contexts "law" thresholds none ≡ some answer
unfolding run parse_from ints normalize_support_type tier1_filter valid_citations tier2_classify
    collect_pairs citation_pairs intern assess_pairs assess_pair classify by_segment settle_all
    settle settle_direct settle_inference restrict cosine get set_item
it_runs = refl

run-IsVerified_example :
    All
      (λ c.
        c.support_type ≢ "conflict"
        → IsVerified thousandths contexts thresholds embed embed_batch (λ ts. refl) c)
      answer.citations
run-IsVerified_example =
    run-IsVerified thousandths contexts thresholds embed embed_batch (λ ts. refl) cite_id raws "law"
      none answer it_runs

run_gate_example :
    (answer.gate2_passed ≡ (
      leb 1 (count_if (is_counted thousandths) answer.citations)
      && not (thousandths.lt 500 answer.unsupported_ratio)
      && not (thousandths.lt answer.confidence 500)))
    × (is_some answer.gate2_reason ≡ not answer.gate2_passed)
run_gate_example =
    run_gate thousandths embed_batch cite_id raws contexts "law" thresholds none answer it_runs

run_bounds_example :
    (map (λ (seg : Segment thousandths). seg.index) answer.segments ≡ count_up 0 (length raws))
    × All (λ i. i < length raws) answer.unsupported_segment_indices
    × All (IsWithin thousandths contexts) answer.citations
    × (leb 0 answer.confidence ≡ true)
    × (leb answer.confidence 1000 ≡ true)
run_bounds_example =
    run_bounds thousandths contexts thousandths-laws embed_batch cite_id raws "law" thresholds none
      answer it_runs

abbrev claims : List (Segment thousandths)
claims = segment 0 "hot" (1 ∷ 2 ∷ []) "direct" ∷ []

tier2_classify_lem_example :
    tier2_classify thousandths embed_batch claims contexts thresholds
    ≡ some (
      settle_all thousandths thresholds
          (by_segment thousandths
            (direct_assessments thousandths thresholds embed contexts claims)
            [])
          claims,
      direct_assessments thousandths thresholds embed contexts claims,
      average thousandths (direct_assessments thousandths thresholds embed contexts claims),
    )
tier2_classify_lem_example =
    tier2_classify_lem thousandths thresholds embed contexts embed_batch claims (λ ts. refl)

abbrev repr : Value → String
repr v = "None"

abbrev found : List (RetrievedChunk thousandths) × List (RetrievedChunk thousandths)
found = rerank thousandths "hot" (hits_to_retrieved_chunks thousandths repr both) 10

abbrev retrieved : RetrievalResult thousandths
retrieved = record { fused = found.0; reranked = found.1; contexts = take 5 found.1 }
