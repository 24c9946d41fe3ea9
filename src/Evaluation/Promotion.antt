-- ===== src/Evaluation/Promotion.antt =====
-- When the gate passes (rag_core/evaluation/promotion_gate.py).
use domainrag_ops.Prelude.{
  String, ◌≡◌, refl, Bool, true, none, some, [], ◌∷◌, string_eq, arith, all, map,
}
use domainrag_ops.Prelude.Float.{FloatOps}
use domainrag_ops.Dict.{Dict, get}
use domainrag_ops.Evaluation.{
  EvaluationSummary, PromotionGate, GateMetricResult, metric, judge_all, evaluate,
}

module _ (fl : FloatOps) (s : EvaluationSummary fl) where
  open fl use {Float, le}

  -- What the configuration asks of a metric.
  abbrev pub meets : String × Dict String Float → Bool
  meets (name, bounds) = elim (get bounds "min") [
    | some bound ↦ le bound (metric fl s name)
    | none ↦ elim (get bounds "max") [ some bound ↦ le (metric fl s name) bound | none ↦ true ]
  ]

  judge_all_lem :
      (cfg : Dict String (Dict String Float))
      → ((judge_all fl s cfg).1 ≡ all meets cfg)
        × (map (λ (r : GateMetricResult fl). r.name) (judge_all fl s cfg).0 ≡ map (λ m. m.0) cfg)
        × (all (λ (r : GateMetricResult fl). r.passed) (judge_all fl s cfg).0 ≡ all meets cfg)
  unfolding judge_all
  judge_all_lem [] = (refl, refl, refl)
  judge_all_lem ((name, bounds) ∷ cfg) =
      let (a, b, c) = judge_all_lem cfg in (ground (arith, a), ground (arith, b), ground (arith, c))

  -- The gate passes exactly if every configured metric meets its minimum, or its maximum where it has
  -- no minimum; the results name the configured metrics in order, and the gate passes exactly if each
  -- of them passes.
  pub evaluate_lem :
      (gate : PromotionGate fl)
      → ((evaluate fl gate s).passed ≡ all meets gate.metrics)
        × (map (λ (r : GateMetricResult fl). r.name) (evaluate fl gate s).metrics
            ≡ map (λ m. m.0) gate.metrics)
        × (all (λ (r : GateMetricResult fl). r.passed) (evaluate fl gate s).metrics
            ≡ (evaluate fl gate s).passed)
  unfolding evaluate
  evaluate_lem gate = let (a, b, c) = judge_all_lem gate.metrics in (a, b, ground (arith, a, c))
