-- ===== src/Workflow/Chain.antt =====
-- The chain of models of `generate_answer_node` (rag_core/workflows/nodes.py), against a description of
-- it by its first step that answers.
use domainrag_ops.Prelude.{
  String, ◌≡◌, refl, sym, ◌∙◌, true, Option, none, some, List, [], ◌∷◌, ◌++◌, ◌&&◌, if◌then◌else◌,
  Bool-cases, inl, inr, arith, append-nil,
}
use mathlib.Core.List.{append_assoc}
use domainrag_ops.Prelude.Float.{FloatOps}
use domainrag_ops.Prelude.Result.{Result, ok, err}
use domainrag_ops.Workflow.{RagState, Failure, Raised}
use domainrag_ops.Workflow.Generation.{
  StructuredAnswer, ModelStep, try_steps, model_steps, generate_answer_node, model_or_default,
  is_nonempty, failure_at, attempt,
}

module _ (fl : FloatOps) (generate : String → Option String → Result Raised StructuredAnswer) where
  -- How a step fails; `none` where it answers.
  abbrev failure_of : ModelStep → Result Raised StructuredAnswer → Option Failure
  failure_of step (err e) = some (failure_at fl step e.name e.detail)
  failure_of step (ok a) =
      if a.parse_ok && is_nonempty fl a.answer_segments
      then none
      else some (failure_at fl step "parse_error" a.parse_error)

  abbrev before : Option Failure → List Failure → List Failure
  before none fs = []
  before (some f) fs = f ∷ fs

  -- The failures of the steps before the first that answers.
  abbrev pub failures_before : List ModelStep → List Failure
  failures_before [] = []
  failures_before (step ∷ steps) =
      before (failure_of step (generate step.model step.lora)) (failures_before steps)

  abbrev picked :
      ModelStep
      → Result Raised StructuredAnswer
      → Option (ModelStep × StructuredAnswer)
      → Option (ModelStep × StructuredAnswer)
  picked step (err e) rest = rest
  picked step (ok a) rest =
      if a.parse_ok && is_nonempty fl a.answer_segments then some (step, a) else rest

  -- The first step that answers, with its answer.
  abbrev pub first_answer : List ModelStep → Option (ModelStep × StructuredAnswer)
  first_answer [] = none
  first_answer (step ∷ steps) = picked step (generate step.model step.lora) (first_answer steps)

  -- What the state says of the answer.
  abbrev pub Reports : Option (ModelStep × StructuredAnswer) → RagState fl → Type 0
  Reports none t =
      (t.error ≡ some "all_models_failed")
      × (t.fallback_reason ≡ some "low_generation_quality")
      × (t.answer_segments ≡ [])
  Reports (some (step, a)) t =
      (t.selected_model ≡ some step.model)
      × (t.selected_lora ≡ step.lora)
      × (t.answer_segments ≡ a.answer_segments)
      × (is_nonempty fl a.answer_segments ≡ true)

  abbrev pub Outcome :
      List Failure → List Failure → Option (ModelStep × StructuredAnswer) → RagState fl → Type 0
  Outcome chain fs best t = (t.model_failure_chain ≡ chain ++ fs) × Reports best t

  failed :
      (chain fs : List Failure) (f : Failure) (best : Option (ModelStep × StructuredAnswer))
      (t : RagState fl)
      → Outcome (chain ++ (f ∷ [])) fs best t
      → Outcome chain (f ∷ fs) best t
  failed chain fs f best t (e, h) = (e ∙ append_assoc chain (f ∷ []) fs, h)

  attempt-Outcome :
      (step : ModelStep) (r : Result Raised StructuredAnswer)
      (continue : String → Failure → RagState fl) (last_raw : String) (chain fs : List Failure)
      (best : Option (ModelStep × StructuredAnswer)) (s : RagState fl)
      → ((raw : String) (f : Failure) → Outcome (chain ++ (f ∷ [])) fs best (continue raw f))
      → Outcome chain
          (before (failure_of step r) fs)
          (picked step r best)
          (attempt fl step r continue last_raw chain s)
  attempt-Outcome step (err e) continue last_raw chain fs best s ih =
      failed chain fs _ best _ (ih last_raw _)
  attempt-Outcome step (ok a) continue last_raw chain fs best s ih =
      elim (Bool-cases (a.parse_ok && is_nonempty fl a.answer_segments)) [
        | inl e ↦ rw e (sym (append-nil chain), (refl, refl, refl, ground (arith, e)))
        | inr e ↦ rw e (failed chain fs _ best _ (ih a.raw_response _))
      ]

  try_steps-Outcome :
      (steps : List ModelStep) (last_raw : String) (chain : List Failure) (s : RagState fl)
      → Outcome chain
          (failures_before steps)
          (first_answer steps)
          (try_steps fl generate steps last_raw chain s)
  unfolding try_steps
  try_steps-Outcome [] last_raw chain s = (sym (append-nil chain), (refl, refl, refl))
  try_steps-Outcome (step ∷ steps) last_raw chain s =
      attempt-Outcome step (generate step.model step.lora) _ last_raw chain _ _ s
        (λ raw f. try_steps-Outcome steps raw (chain ++ (f ∷ [])) s)

  -- generate_answer returns the non-empty answer of the first step of its chain of models that neither
  -- raises nor fails to parse nor answers with no segment, and names that step; where no step
  -- answers, it has no segments and falls back with all_models_failed. The failure chain grows by
  -- the failures of the steps before the one that answers, in their order, and by no others.
  pub generate_answer_node-Outcome :
      (s : RagState fl)
      → Outcome s.model_failure_chain
          (failures_before (model_steps fl (model_or_default fl s.selected_model) s.selected_lora))
          (first_answer (model_steps fl (model_or_default fl s.selected_model) s.selected_lora))
          (generate_answer_node fl generate s)
  unfolding generate_answer_node
  generate_answer_node-Outcome s =
      try_steps-Outcome (model_steps fl (model_or_default fl s.selected_model) s.selected_lora) ""
        s.model_failure_chain s
