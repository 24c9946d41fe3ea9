-- ===== src/Evaluation.antt =====
-- The metrics of an evaluation (rag_core/evaluation/metrics.py) and the gate that promotes a
-- configuration (rag_core/evaluation/promotion_gate.py). Python's floats are the parameter `fl`.
pub mod Promotion
use domainrag_ops.Prelude.{
  ℕ, zero, suc, String, Bool, true, false, not, ◌&&◌, Option, none, some, List, [], ◌∷◌, ◌==◌,
  string_eq, length, any, take, count_if, or_else, if◌then◌else◌,
}
use domainrag_ops.Prelude.Float.{FloatOps}
use domainrag_ops.Dict.{Dict, get}

module _ (fl : FloatOps) where
  open fl use {Float, of_ℕ, le, plus, over}

  pub record EvaluationSummary : Type 0 where
    pub total_cases : ℕ
    pub retrieval_recall_at_5 : Float
    pub citation_accuracy : Float
    pub unsupported_ratio : Float
    pub fallback_rate : Float
    pub pass_count : ℕ
    pub fail_count : ℕ

  pub record GateMetricResult : Type 0 where
    pub name : String
    pub actual : Float
    pub bound : Float
    pub bound_kind : String
    pub passed : Bool

  pub record GateResult : Type 0 where
    pub passed : Bool
    pub metrics : List GateMetricResult
    pub auto_promote : Bool

  pub record PromotionGate : Type 0 where
    pub metrics : Dict String (Dict String Float)
    pub auto_promote : Bool

  -- `sum(1 for x in xs if p) / len(xs)`
  abbrev share : ℕ → ℕ → Float
  share part whole = over (of_ℕ part) (of_ℕ whole)

  abbrev has_id : List String → String → Bool
  has_id ids id = any (λ x. x == id) ids

  unfoldable pub retrieval_recall_at_k : List String → List String → ℕ → Float
  retrieval_recall_at_k retrieved [] k = of_ℕ 1
  retrieval_recall_at_k [] (e ∷ es) k = of_ℕ 0
  retrieval_recall_at_k (r ∷ rs) (e ∷ es) k =
      share (count_if (has_id (take k (r ∷ rs))) (e ∷ es)) (length (e ∷ es))

  unfoldable pub citation_precision : List String → List String → Float
  citation_precision cited [] = of_ℕ 1
  citation_precision [] (e ∷ es) = of_ℕ 0
  citation_precision (c ∷ cs) (e ∷ es) =
      share (count_if (has_id (e ∷ es)) (c ∷ cs)) (length (c ∷ cs))

  -- `unsupported_ratio`, of the `support_type` of each segment
  unfoldable pub ratio_unsupported : List (Option String) → Float
  ratio_unsupported [] = of_ℕ 0
  ratio_unsupported (s ∷ ss) =
      share (count_if (λ x. or_else x "" == "unsupported") (s ∷ ss)) (length (s ∷ ss))

  -- `fallback_rate`
  unfoldable pub rate_of : List Bool → Float
  rate_of [] = of_ℕ 0
  rate_of (b ∷ bs) = share (count_if (λ x. x) (b ∷ bs)) (length (b ∷ bs))

  abbrev total : Float → List Float → Float
  total acc [] = acc
  total acc (x ∷ xs) = total (plus acc x) xs

  -- `_avg`
  abbrev average : List Float → Float
  average [] = of_ℕ 0
  average (x ∷ xs) = over (total (of_ℕ 0) (x ∷ xs)) (of_ℕ (length (x ∷ xs)))

  unfoldable pub aggregate_metrics :
      List Float → List Float → List Float → List Bool → List Bool → EvaluationSummary
  unfolding rate_of
  aggregate_metrics recall citation unsupported fallback pass = record {
    total_cases = length recall;
    retrieval_recall_at_5 = average recall;
    citation_accuracy = average citation;
    unsupported_ratio = average unsupported;
    fallback_rate = rate_of fallback;
    pass_count = count_if (λ x. x) pass;
    fail_count = count_if not pass;
  }

  -- `float(summary.to_dict().get(name, 0.0))`
  unfoldable pub metric : EvaluationSummary → String → Float
  unfolding get
  metric s name =
      or_else
        (get
          (("total_cases", of_ℕ s.total_cases)
            ∷ ("retrieval_recall_at_5", s.retrieval_recall_at_5)
            ∷ ("citation_accuracy", s.citation_accuracy)
            ∷ ("unsupported_ratio", s.unsupported_ratio)
            ∷ ("fallback_rate", s.fallback_rate)
            ∷ ("pass_count", of_ℕ s.pass_count)
            ∷ ("fail_count", of_ℕ s.fail_count)
            ∷ [])
          name)
        (of_ℕ 0)

  -- The branches of the loop's body: `min`, else `max`, else neither.
  abbrev pub metric_result : String → Float → Option Float → Option Float → GateMetricResult
  metric_result name actual (some bound) _ = record {
    name = name;
    actual = actual;
    bound = bound;
    bound_kind = "min";
    passed = le bound actual;
  }
  metric_result name actual none (some bound) = record {
    name = name;
    actual = actual;
    bound = bound;
    bound_kind = "max";
    passed = le actual bound;
  }
  metric_result name actual none none = record {
    name = name;
    actual = actual;
    bound = of_ℕ 0;
    bound_kind = "none";
    passed = true;
  }

  unfoldable pub judge_all :
      EvaluationSummary → Dict String (Dict String Float) → List GateMetricResult × Bool
  judge_all s [] = ([], true)
  judge_all s ((name, bounds) ∷ cfg) =
      let r = metric_result name (metric s name) (get bounds "min") (get bounds "max") in
      let (rest, all_pass) = judge_all s cfg in (r ∷ rest, r.passed && all_pass)

  unfoldable pub evaluate : PromotionGate → EvaluationSummary → GateResult
  evaluate gate s =
      let (results, all_pass) = judge_all s gate.metrics in
      record { passed = all_pass; metrics = results; auto_promote = gate.auto_promote }
