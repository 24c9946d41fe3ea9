-- ===== src/Routing.antt =====
-- `ModelRouter` (rag_core/services/model_router.py): the first rule of routing.yaml that matches
-- decides on the model. `none` is an exception, where a confidence bound is no number.
pub mod FirstMatch
use domainrag_ops.Prelude.{
  String, Bool, true, false, not, ◌&&◌, Option, none, some, List, [], ◌∷◌, ◌==◌, string_eq, any,
  or_else, if◌then◌else◌,
}
use domainrag_ops.Prelude.Float.{FloatOps}
use domainrag_ops.Dict.{Dict, get}

module _ (fl : FloatOps) where
  open fl use {Float, le}

  -- A value of the yaml file or of the signals.
  pub data Scalar : Type 0 where
    null : Scalar
    text : String → Scalar
    flag : Bool → Scalar
    real : Float → Scalar

  pub data Expected : Type 0 where
    one : Scalar → Expected
    several : List Scalar → Expected

  abbrev pub Signals : Type 0
  Signals = Dict String Scalar

  pub record Rule : Type 0 where
    pub name : Option String
    pub conditions : Dict String Expected
    pub use_model : Option String
    pub model : Option String
    pub use_lora : Option Bool
    pub use_rag : Option Bool
    pub ui_mode : Option String
    pub require_judge : Option Bool
    pub require_similarity_check : Option Bool
    pub action : Option String

  pub record Defaults : Type 0 where
    pub model : Option String
    pub use_lora : Option Bool
    pub use_rag : Option Bool
    pub ui_mode : Option String

  pub record Classification : Type 0 where
    pub query_type : String
    pub support_type : Option String
    pub complexity : Option String

  pub record RoutingDecision : Type 0 where
    pub matched_rule : String
    pub model : String
    pub use_lora : Bool
    pub use_rag : Bool
    pub ui_mode : String
    pub require_judge : Bool
    pub require_similarity_check : Bool
    pub action : Option String
    pub lora_adapter : Option String
    pub matched_signals : Signals

  abbrev pub scalar_eq : Scalar → Scalar → Bool
  scalar_eq null null = true
  scalar_eq (text s) (text t) = s == t
  scalar_eq (flag true) (flag b) = b
  scalar_eq (flag false) (flag b) = not b
  scalar_eq (real x) (real y) = le x y && le y x
  scalar_eq _ _ = false

  abbrev pub expects : Scalar → Expected → Bool
  expects actual (one e) = scalar_eq actual e
  expects actual (several es) = any (scalar_eq actual) es

  -- `actual is not None and actual < float(expected)`
  abbrev pub below : Option Scalar → Expected → Option Bool
  below none e = some false
  below (some null) e = some false
  below (some (real x)) (one (real bound)) = some (not (le bound x))
  below _ _ = none

  abbrev pub holds : Signals → String → Expected → Option Bool
  holds signals key expected =
      if key == "retrieval_confidence_below"
      then below (get signals "retrieval_confidence") expected
      else some (expects (or_else (get signals key) null) expected)

  -- `_matches`
  unfoldable pub matches : Dict String Expected → Signals → Option Bool
  matches [] signals = some true
  matches ((key, expected) ∷ conditions) signals =
      let rest = matches conditions signals in
      elim (holds signals key expected) [ none ↦ none | some false ↦ some false | some true ↦ rest ]

  -- `x or d` on a text
  abbrev pub or_text : Option String → String → String
  or_text none d = d
  or_text (some s) d = if s == "" then d else s

  -- `lora if lora else None`
  abbrev pub adapter : Option String → Option String
  adapter none = none
  adapter (some s) = if s == "" then none else some s

  -- `_resolve_lora`; a tenant's model without an adapter has `none`.
  unfoldable pub resolve_lora : Bool → String → Dict String (Option String) → Option String
  resolve_lora use_lora model_key tenant_model_config =
      if not use_lora then none else adapter (or_else (get tenant_model_config model_key) none)

  abbrev pub as_signal : Option String → Scalar
  as_signal none = null
  as_signal (some s) = text s

  abbrev pub confidence_signal : Option Float → Signals
  confidence_signal none = []
  confidence_signal (some x) = ("retrieval_confidence", real x) ∷ []

  abbrev pub signals_of : Classification → Option Float → Signals
  signals_of c confidence =
      ("query_type", text c.query_type)
      ∷ ("support_type", as_signal c.support_type)
      ∷ ("complexity", as_signal c.complexity)
      ∷ confidence_signal confidence

  abbrev pub rule_decision :
      Defaults → Dict String (Option String) → Signals → Rule → RoutingDecision
  rule_decision default tenant signals rule =
      let model_key =
        or_text rule.use_model (or_text rule.model (or_text default.model "tenant_slm")) in
      let lora = or_else rule.use_lora (or_else default.use_lora true) in
      record {
        matched_rule = or_text rule.name "unnamed";
        model = model_key;
        use_lora = lora;
        use_rag = or_else rule.use_rag (or_else default.use_rag true);
        ui_mode = or_else rule.ui_mode (or_else default.ui_mode "chat_structured");
        require_judge = or_else rule.require_judge false;
        require_similarity_check = or_else rule.require_similarity_check false;
        action = rule.action;
        lora_adapter = resolve_lora lora model_key tenant;
        matched_signals = signals;
      }

  abbrev pub default_decision : Defaults → Dict String (Option String) → Signals → RoutingDecision
  default_decision default tenant signals =
      let model_key = or_text default.model "tenant_slm" in
      let lora = or_else default.use_lora true in
      record {
        matched_rule = "default";
        model = model_key;
        use_lora = lora;
        use_rag = or_else default.use_rag true;
        ui_mode = or_else default.ui_mode "chat_structured";
        require_judge = false;
        require_similarity_check = false;
        action = none;
        lora_adapter = resolve_lora lora model_key tenant;
        matched_signals = signals;
      }

  unfoldable pub decide_by :
      Defaults → Dict String (Option String) → Signals → List Rule → Option RoutingDecision
  decide_by default tenant signals [] = some (default_decision default tenant signals)
  decide_by default tenant signals (rule ∷ rules) =
      let rest = decide_by default tenant signals rules in
      elim (matches rule.conditions signals) [
        | none ↦ none
        | some true ↦ some (rule_decision default tenant signals rule)
        | some false ↦ rest
      ]

  -- `decide`
  abbrev pub decide :
      Classification
      → List Rule
      → Defaults
      → Dict String (Option String)
      → Option Float
      → Option RoutingDecision
  decide c rules default tenant confidence =
      decide_by default tenant (signals_of c confidence) rules
