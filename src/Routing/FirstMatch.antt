-- ===== src/Routing/FirstMatch.antt =====
-- Which rule decides, and on what (rag_core/services/model_router.py).
use domainrag_ops.Prelude.{
  String, ◌≡◌, refl, Bool, true, false, Option, none, some, List, [], ◌∷◌, ◌++◌, ◌==◌, string_eq,
  arith, ap, ◌∙◌, All, or_else, if◌then◌else◌,
}
use domainrag_ops.Prelude.Float.{FloatOps}
use domainrag_ops.Dict.{Dict, get}
use domainrag_ops.Routing.{
  Expected, Rule, Defaults, Classification, Signals, RoutingDecision, holds, matches, signals_of,
  or_text, adapter, resolve_lora, rule_decision, default_decision, decide_by, decide,
}

-- The first of the texts that is given and not empty.
abbrev pub first_text : List (Option String) → String → String
first_text [] last = last
first_text (none ∷ xs) last = first_text xs last
first_text (some s ∷ xs) last = if s == "" then first_text xs last else s

-- The first of the values that is given.
abbrev pub first_given {ℓ} : {A : Type ℓ} → List (Option A) → A → A
first_given [] last = last
first_given (none ∷ xs) last = first_given xs last
first_given (some a ∷ xs) last = a

-- The adapter under the model's name, unless it is missing or empty.
abbrev pub named_adapter : Option (Option String) → Option String
named_adapter (some (some s)) = if s == "" then none else some s
named_adapter _ = none

or_else_one {ℓ} : {A : Type ℓ} (a : Option A) (d : A) → or_else a d ≡ first_given (a ∷ []) d
or_else_one none d = refl
or_else_one (some x) d = refl

or_else_two {ℓ} :
    {A : Type ℓ} (a b : Option A) (d : A) → or_else a (or_else b d) ≡ first_given (a ∷ b ∷ []) d
or_else_two none none d = refl
or_else_two none (some x) d = refl
or_else_two (some x) b d = refl

module _ (fl : FloatOps) (default : Defaults fl) (tenant : Dict String (Option String)) where
  open fl use {Float}

  or_text_two : (a : Option String) (d : String) → or_text fl a d ≡ first_text (a ∷ []) d
  or_text_two none d = refl
  or_text_two (some s) d = refl

  or_text_three :
      (a b c : Option String) (d : String)
      → or_text fl a (or_text fl b (or_text fl c d)) ≡ first_text (a ∷ b ∷ c ∷ []) d
  or_text_three none none c d = or_text_two c d
  or_text_three none (some s) c d = rw (or_text_two c d) refl
  or_text_three (some s) none c d = rw (or_text_two c d) refl
  or_text_three (some s) (some s') c d = rw (or_text_two c d) refl

  adapter_lem : (o : Option (Option String)) → adapter fl (or_else o none) ≡ named_adapter o
  adapter_lem none = refl
  adapter_lem (some none) = refl
  adapter_lem (some (some s)) = refl

  resolve_lora_lem :
      (lora : Bool) (model : String)
      → resolve_lora fl lora model tenant
        ≡ (if lora then named_adapter (get tenant model) else none)
  unfolding resolve_lora
  resolve_lora_lem true model = adapter_lem (get tenant model)
  resolve_lora_lem false model = refl

  module _ (signals : Signals fl) where
    abbrev pub Holds : String × Expected fl → Type 0
    Holds (key, expected) = holds fl signals key expected ≡ some true

    -- All conditions of the rule hold.
    abbrev pub IsMet : Rule fl → Type 0
    IsMet rule = All Holds rule.conditions

    -- A condition of the rule does not hold, and those before it do.
    pub record IsPassedOver (rule : Rule fl) : Type 0 where
      pub met : Dict String (Expected fl)
      pub failing : String × Expected fl
      pub unread : Dict String (Expected fl)
      pub split : rule.conditions ≡ met ++ failing ∷ unread
      pub holding : All Holds met
      pub fails : holds fl signals failing.0 failing.1 ≡ some false

    matches_met :
        (conditions : Dict String (Expected fl))
        → All Holds conditions
        → matches fl conditions signals ≡ some true
    unfolding matches
    matches_met [] h = refl
    matches_met ((key, expected) ∷ conditions) (h, hs) =
        ground (arith, h, matches_met conditions hs)

    matches_failing :
        (met unread : Dict String (Expected fl)) (failing : String × Expected fl)
        → All Holds met
        → holds fl signals failing.0 failing.1 ≡ some false
        → matches fl (met ++ failing ∷ unread) signals ≡ some false
    unfolding matches
    matches_failing [] unread (key, expected) h f = ground (arith, f)
    matches_failing ((key, expected) ∷ met) unread failing (h, hs) f =
        ground (arith, h, matches_failing met unread failing hs f)

    -- The decision on a rule's settings: each setting is the first that is given of the rule's own,
    -- the defaults' and the built-in one.
    abbrev pub routed : String → Rule fl → RoutingDecision fl
    routed name rule =
        let model = first_text (rule.use_model ∷ rule.model ∷ default.model ∷ []) "tenant_slm" in
        let lora = first_given (rule.use_lora ∷ default.use_lora ∷ []) true in
        record {
          matched_rule = name;
          model = model;
          use_lora = lora;
          use_rag = first_given (rule.use_rag ∷ default.use_rag ∷ []) true;
          ui_mode = first_given (rule.ui_mode ∷ default.ui_mode ∷ []) "chat_structured";
          require_judge = first_given (rule.require_judge ∷ []) false;
          require_similarity_check = first_given (rule.require_similarity_check ∷ []) false;
          action = rule.action;
          lora_adapter = if lora then named_adapter (get tenant model) else none;
          matched_signals = signals;
        }

    rule_decision_lem :
        (rule : Rule fl)
        → rule_decision fl default tenant signals rule
          ≡ routed (first_text (rule.name ∷ []) "unnamed") rule
    rule_decision_lem rule =
        let model = first_text (rule.use_model ∷ rule.model ∷ default.model ∷ []) "tenant_slm" in
        let lora = first_given (rule.use_lora ∷ default.use_lora ∷ []) true in
        rw
          (
            or_text_three rule.use_model rule.model default.model "tenant_slm",
            or_text_two rule.name "unnamed",
            or_else_two rule.use_lora default.use_lora true,
            or_else_two rule.use_rag default.use_rag true,
            or_else_two rule.ui_mode default.ui_mode "chat_structured",
            or_else_one rule.require_judge false,
            or_else_one rule.require_similarity_check false,
            resolve_lora_lem lora model,
          )
          refl

    -- A rule without settings.
    abbrev pub no_settings : Rule fl
    no_settings = record {
      name = none;
      conditions = [];
      use_model = none;
      model = none;
      use_lora = none;
      use_rag = none;
      ui_mode = none;
      require_judge = none;
      require_similarity_check = none;
      action = none;
    }

    default_decision_lem : default_decision fl default tenant signals ≡ routed "default" no_settings
    default_decision_lem =
        let model = first_text (default.model ∷ []) "tenant_slm" in
        let lora = first_given (default.use_lora ∷ []) true in
        rw
          (
            or_text_two default.model "tenant_slm",
            or_else_one default.use_lora true,
            or_else_one default.use_rag true,
            or_else_one default.ui_mode "chat_structured",
            resolve_lora_lem lora model,
          )
          refl

    passed_over :
        (rule : Rule fl) → IsPassedOver rule → matches fl rule.conditions signals ≡ some false
    passed_over rule p =
        ap (λ conditions. matches fl conditions signals) p.split
        ∙ matches_failing p.met p.unread p.failing p.holding p.fails

    decide_by-first :
        (before after : List (Rule fl)) (rule : Rule fl)
        → All IsPassedOver before
        → IsMet rule
        → decide_by fl default tenant signals (before ++ rule ∷ after)
          ≡ some (rule_decision fl default tenant signals rule)
    unfolding decide_by
    decide_by-first [] after rule h m = ground (arith, matches_met rule.conditions m)
    decide_by-first (r ∷ before) after rule (p, h) m =
        ground (arith, passed_over r p, decide_by-first before after rule h m)

    decide_by-default :
        (rules : List (Rule fl))
        → All IsPassedOver rules
        → decide_by fl default tenant signals rules
          ≡ some (default_decision fl default tenant signals)
    unfolding decide_by
    decide_by-default [] h = refl
    decide_by-default (r ∷ rules) (p, h) =
        ground (arith, passed_over r p, decide_by-default rules h)

  -- The first rule whose conditions all hold decides, whatever follows it, where each rule before it
  -- has a condition that does not hold, and those in front of that one do. Each setting of the
  -- decision is the first that is given of the rule's, the defaults' and the built-in one, where a
  -- text must not be empty. Of the rules before it alone, the settings of the defaults decide.
  pub decide_lem :
      (c : Classification fl) (confidence : Option Float) (before after : List (Rule fl))
      (rule : Rule fl)
      → All (IsPassedOver (signals_of fl c confidence)) before
      → IsMet (signals_of fl c confidence) rule
      → (decide fl c (before ++ rule ∷ after) default tenant confidence
          ≡ some (routed (signals_of fl c confidence) (first_text (rule.name ∷ []) "unnamed") rule))
        × (decide fl c before default tenant confidence
            ≡ some (
                routed
                  (signals_of fl c confidence)
                  "default"
                  (no_settings (signals_of fl c confidence))))
  decide_lem c confidence before after rule h m =
      let signals = signals_of fl c confidence in
      (
        decide_by-first signals before after rule h m ∙ ap some (rule_decision_lem signals rule),
        decide_by-default signals before h ∙ ap some (default_decision_lem signals),
      )
