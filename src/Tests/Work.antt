-- ===== src/Tests/Work.antt =====
-- Jobs, an evaluation, a routing and a page.
use domainrag_ops.Prelude.{
  ℕ, ◌≤◌, String, ◌≡◌, refl, false, none, some, [], ◌∷◌, string_eq, nat_eq, All, all, map, length,
}
use domainrag_ops.Dict.{get, set_item, values}
use domainrag_ops.Jobs.{IndexingJobRecord, Jobs, Patch, create, update, first_blocking, is_active}
use domainrag_ops.Jobs.Exclusive.{
  Reachable, start, created, updated, IsExclusive, Reachable-IsExclusive,
}
use domainrag_ops.Evaluation.{EvaluationSummary, PromotionGate, GateMetricResult, evaluate}
use domainrag_ops.Evaluation.Promotion.{meets, evaluate_lem}
use domainrag_ops.Routing.{Signals, Rule, Defaults, Classification, one, text, signals_of, decide}
use domainrag_ops.Routing.FirstMatch.{routed, no_settings, decide_lem}
use domainrag_ops.Chunker.{new, windows, Window, windows_from}
use domainrag_ops.Chunker.Windows.{reassembled, windows_lem}
use domainrag_ops.Tests.Floats.{thousandths}

abbrev pub job : String → IndexingJobRecord ℕ
job id = record {
  job_id = id;
  domain_id = "law";
  doc_id = "d1";
  doc_version = "v1";
  status = "pending";
  step = none;
  progress = 0;
  total_chunks = 0;
  indexed_chunks = 0;
  failed_chunks = [];
  error_message = none;
  failure_rate = none;
  retry_count = 0;
  filename = none;
}

abbrev done : Patch ℕ
done = record {
  status = some "completed";
  step = none;
  progress = some 100;
  total_chunks = none;
  indexed_chunks = none;
  failed_chunks = none;
  error_message = none;
  failure_rate = none;
}

abbrev finished : IndexingJobRecord ℕ
finished = record (job "j1") { status = "completed"; progress = 100 }

abbrev one_done : Jobs ℕ
one_done = ("j1", finished) ∷ []

abbrev two_jobs : Jobs ℕ
two_jobs = ("j1", finished) ∷ ("j2", job "j2") ∷ []

two_jobs-Reachable : Reachable ℕ two_jobs
unfolding create update first_blocking is_active values set_item get
two_jobs-Reachable =
    created (job "j2") one_done two_jobs
      (updated "j1" done (("j1", job "j1") ∷ []) one_done (job "j1")
        (created (job "j1") [] (("j1", job "j1") ∷ []) start refl) refl (λ e. refl) refl)
      refl

Reachable-IsExclusive_example : IsExclusive ℕ two_jobs
Reachable-IsExclusive_example = Reachable-IsExclusive ℕ two_jobs two_jobs-Reachable

abbrev summary : EvaluationSummary thousandths
summary = record {
  total_cases = 10;
  retrieval_recall_at_5 = 900;
  citation_accuracy = 700;
  unsupported_ratio = 100;
  fallback_rate = 50;
  pass_count = 9;
  fail_count = 1;
}

abbrev gate : PromotionGate thousandths
gate = record {
  metrics =
      ("retrieval_recall_at_5", ("min", 850) ∷ [])
      ∷ ("citation_accuracy", ("min", 800) ∷ [])
      ∷ ("unsupported_ratio", ("max", 200) ∷ [])
      ∷ [];
  auto_promote = false;
}

evaluate_lem_example :
    ((evaluate thousandths gate summary).passed ≡ all (meets thousandths summary) gate.metrics)
    × (map
          (λ (r : GateMetricResult thousandths). r.name)
          (evaluate thousandths gate summary).metrics
        ≡ map (λ m. m.0) gate.metrics)
    × (all
          (λ (r : GateMetricResult thousandths). r.passed)
          (evaluate thousandths gate summary).metrics
        ≡ (evaluate thousandths gate summary).passed)
evaluate_lem_example = evaluate_lem thousandths summary gate

abbrev classified : Classification thousandths
classified = record { query_type = "fact"; support_type = none; complexity = some "low" }

abbrev rule : String → Rule thousandths
rule type = record {
  name = some type;
  conditions = ("query_type", one (text type)) ∷ [];
  use_model = some "slm";
  model = none;
  use_lora = none;
  use_rag = none;
  ui_mode = none;
  require_judge = none;
  require_similarity_check = none;
  action = none;
}

abbrev defaults : Defaults thousandths
defaults = record { model = some "llm"; use_lora = some false; use_rag = none; ui_mode = none }

abbrev signals : Signals thousandths
signals = signals_of thousandths classified none

decide_lem_example :
    (decide thousandths classified (rule "exam" ∷ rule "fact" ∷ []) defaults [] none
      ≡ some (routed thousandths defaults [] signals "fact" (rule "fact")))
    × (decide thousandths classified (rule "exam" ∷ []) defaults [] none
        ≡ some (
            routed thousandths defaults [] signals "default"
              (no_settings thousandths defaults [] signals)))
decide_lem_example =
    decide_lem thousandths defaults [] classified none (rule "exam" ∷ []) [] (rule "fact")
      (
        record {
          met = [];
          failing = ("query_type", one (text "exam"));
          unread = [];
          split = refl;
          holding = tt;
          fails = unfold get in refl;
        },
        tt,
      )
      (unfold get in (refl, tt))

windows_lem_example :
    let c = new 2 1 in
    (reassembled c (windows c ("a" ∷ "b" ∷ "c" ∷ [])) ≡ "a" ∷ "b" ∷ "c" ∷ [])
    × All (λ (w : Window). length w.1 ≤ c.max_tokens) (windows c ("a" ∷ "b" ∷ "c" ∷ []))
windows_lem_example = windows_lem 2 1 ("a" ∷ "b" ∷ "c" ∷ [])

two_windows :
    windows (new 2 1) ("a" ∷ "b" ∷ "c" ∷ []) ≡ (0, "a" ∷ "b" ∷ []) ∷ (1, "b" ∷ "c" ∷ []) ∷ []
unfolding new windows_from
two_windows = refl
