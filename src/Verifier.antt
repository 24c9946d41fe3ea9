-- ===== src/Verifier.antt =====
-- `VerifierService` (rag_core/services/verifier_service.py): its data, the parsing of the segments,
-- tier 1 and the result of the inference judge. Python's floats are the parameter `fl`; a value that
-- a dict may lack is an `Option`, or an empty list where the code reads `or []`.
pub mod Bounds
pub mod Tier2
pub mod Answer
pub mod Pairs
pub mod Support
pub mod Filtering
pub mod Settled
pub mod Cited
pub mod Verified
pub mod Gate
use domainrag_ops.Prelude.{
  ℕ, zero, suc, ◌+◌, ◌-◌, String, Bool, true, false, ◌&&◌, Option, none, some, List, [], ◌∷◌, ◌==◌,
  string_eq, leb, keep, length, or_else, if◌then◌else◌, map,
}
use domainrag_ops.Prelude.Float.{FloatOps}
use domainrag_ops.Dict.{Dict}

-- Python's `int`, as it stands in the answer of a language model.
pub data ℤ : Type 0 where
  pos : ℕ → ℤ
  negsuc : ℕ → ℤ

-- An item of the list `citations`: an `int`, a `bool` (an `int` too), or anything else.
pub data RawCitation : Type 0 where
  number : ℤ → RawCitation
  truth : Bool → RawCitation
  other : RawCitation

pub record RawSegment : Type 0 where
  pub text : Option String
  pub citations : List RawCitation
  pub support_type : Option String
  pub citation_type : Option String
  pub inference_chain : Option String
  pub conflict_groups : List (List ℤ)

-- What `parse_segments` returns.
pub record ParsedSegment : Type 0 where
  pub index : ℕ
  pub text : String
  pub citations : List ℤ
  pub support_type : String
  pub inference_chain : Option String
  pub conflict_groups : List (List ℤ)

module _ (fl : FloatOps) where
  open fl use {Float, ratio, le}

  pub record VerifierThresholds : Type 0 where
    pub strong_threshold : Float
    pub medium_threshold : Float
    pub min_verified_count : ℕ
    pub max_unsupported_ratio : Float
    pub min_confidence : Float
    pub weight_retrieval : Float
    pub weight_verified : Float
    pub weight_supported : Float
    pub weight_coverage : Float
    pub inference_judge_enabled : Bool

  -- The values of citation.yaml that are read; `none` where a key is missing.
  pub record CitationConfig : Type 0 where
    pub strong : Option Float
    pub medium : Option Float
    pub min_verified_count : Option ℕ
    pub max_unsupported_ratio : Option Float
    pub min_confidence : Option Float
    pub retrieval : Option Float
    pub verified : Option Float
    pub supported : Option Float
    pub coverage : Option Float
    pub judge_enable : Option Bool

  -- `VerifierThresholds.from_config`
  abbrev pub from_config : CitationConfig → VerifierThresholds
  from_config cfg = record {
    strong_threshold = or_else cfg.strong (ratio 75 100);
    medium_threshold = or_else cfg.medium (ratio 55 100);
    min_verified_count = or_else cfg.min_verified_count 1;
    max_unsupported_ratio = or_else cfg.max_unsupported_ratio (ratio 5 10);
    min_confidence = or_else cfg.min_confidence (ratio 5 10);
    weight_retrieval = or_else cfg.retrieval (ratio 30 100);
    weight_verified = or_else cfg.verified (ratio 30 100);
    weight_supported = or_else cfg.supported (ratio 20 100);
    weight_coverage = or_else cfg.coverage (ratio 20 100);
    inference_judge_enabled = or_else cfg.judge_enable false;
  }

  pub record VerifiedCitation : Type 0 where
    pub segment_index : ℕ
    pub chunk_index : ℕ
    pub similarity : Float
    pub support_level : String
    pub verified : Bool

  -- A segment from tier 1 on, where a citation is a number of a context, from 1.
  pub record Segment : Type 0 where
    pub index : ℕ
    pub text : String
    pub citations : List ℕ
    pub support_type : String
    pub inference_chain : Option String
    pub conflict_groups : List (List ℤ)
    pub citation_meta : Dict ℕ VerifiedCitation
    pub downgraded : Bool
    pub downgrade_reason : Option String
    pub pending_judge : Bool
    pub judge_reasoning : Option String
    pub judge_caveat : Option String

  -- `_classify`
  unfoldable pub classify : Float → VerifierThresholds → String × Bool
  classify similarity t =
      if le t.strong_threshold similarity
      then ("strong", true)
      else if le t.medium_threshold similarity
      then ("medium", true)
      else ("weak", false)

  -- `x or d` on a text that may be missing
  abbrev pub or_text : Option String → String → String
  or_text none d = d
  or_text (some s) d = if s == "" then d else s

  -- `_normalize_support_type`
  unfoldable pub normalize_support_type : RawSegment → String
  normalize_support_type seg =
      let raw = or_text seg.support_type (or_text seg.citation_type "direct") in
      if raw == "none" then "direct" else raw

  unfoldable pub ints : List RawCitation → List ℤ
  ints [] = []
  ints (number n ∷ cs) = n ∷ ints cs
  ints (truth b ∷ cs) = pos (if b then 1 else 0) ∷ ints cs
  ints (other ∷ cs) = ints cs

  abbrev pub parsed : ℕ → RawSegment → ParsedSegment
  parsed i seg = record {
    index = i;
    text = or_else seg.text "";
    citations = ints seg.citations;
    support_type = normalize_support_type seg;
    inference_chain = seg.inference_chain;
    conflict_groups = seg.conflict_groups;
  }

  unfoldable pub parse_from : ℕ → List RawSegment → List ParsedSegment
  parse_from i [] = []
  parse_from i (seg ∷ segs) = parsed i seg ∷ parse_from (suc i) segs

  abbrev pub parse_segments : List RawSegment → List ParsedSegment
  parse_segments raw_segments = parse_from 0 raw_segments

  abbrev pub in_contexts : ℕ → ℕ → Bool
  in_contexts num_contexts c = leb 1 c && leb c num_contexts

  -- `[c for c in citations if 1 <= c <= num_contexts]`
  unfoldable pub valid_citations : ℕ → List ℤ → List ℕ
  valid_citations num_contexts [] = []
  valid_citations num_contexts (negsuc n ∷ cs) = valid_citations num_contexts cs
  valid_citations num_contexts (pos n ∷ cs) =
      let rest = valid_citations num_contexts cs in
      if in_contexts num_contexts n then n ∷ rest else rest

  abbrev pub with_citations : ParsedSegment → List ℕ → Segment
  with_citations seg valid = record {
    index = seg.index;
    text = seg.text;
    citations = valid;
    support_type = seg.support_type;
    inference_chain = seg.inference_chain;
    conflict_groups = seg.conflict_groups;
    citation_meta = [];
    downgraded = false;
    downgrade_reason = none;
    pending_judge = false;
    judge_reasoning = none;
    judge_caveat = none;
  }

  unfoldable pub tier1_filter : List ParsedSegment → ℕ → List Segment × ℕ
  tier1_filter [] num_contexts = ([], 0)
  tier1_filter (seg ∷ segs) num_contexts =
      let valid = valid_citations num_contexts seg.citations in
      let (out, removed) = tier1_filter segs num_contexts in
      (with_citations seg valid ∷ out, length seg.citations - length valid + removed)

  -- The copy of a citation's assessment with the level lowered to "medium".
  abbrev pub capped : VerifiedCitation → VerifiedCitation
  capped m = record m {
    support_level = if m.support_level == "strong" then "medium" else m.support_level;
    verified = true;
  }

  abbrev pub cap_all : Dict ℕ VerifiedCitation → Dict ℕ VerifiedCitation
  cap_all [] = []
  cap_all ((c, m) ∷ d) = (c, capped m) ∷ cap_all d

  -- `if text: seg[key] = text`
  abbrev pub set_text : Option String → Option String → Option String
  set_text none old = old
  set_text (some s) old = if s == "" then old else some s

  unfoldable pub apply_judge_result : Segment → Bool → Option String → Option String → Segment
  apply_judge_result seg true reasoning caveat = record seg {
    pending_judge = false;
    citation_meta = cap_all seg.citation_meta;
    judge_reasoning = set_text reasoning seg.judge_reasoning;
    judge_caveat = set_text caveat seg.judge_caveat;
  }
  apply_judge_result seg false reasoning caveat = record seg {
    pending_judge = false;
    citations = [];
    citation_meta = [];
    downgraded = true;
    downgrade_reason = some "judge_rejected";
    judge_reasoning = set_text reasoning seg.judge_reasoning;
  }
