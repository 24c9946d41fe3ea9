-- ===== src/Pii.antt =====
-- `PIIService` (rag_core/services/pii_service.py): the policy for personal data found in questions,
-- stored text, chunks and answers. The detector is a parameter.
pub mod Storage
pub mod Checks
use domainrag_ops.Prelude.{
  ℕ, String, Bool, true, false, not, ◌&&◌, ◌||◌, Option, none, some, List, [], ◌∷◌, ◌==◌, string_eq,
  map, any, ltb, sort_by, or_else, if◌then◌else◌,
}
use domainrag_ops.Prelude.Text.{lower}
use domainrag_ops.Dict.{Dict, get}
use domainrag_ops.Payload.{Finding, text_lt}

-- rag_core/interfaces/pii.py
pub record PiiFinding : Type 0 where
  pub category : String
  pub severity : String
  pub position : ℕ × ℕ
  pub matched_text : String
  pub masked_form : String

pub record PiiDetector : Type 0 where
  pub scan : String → List PiiFinding
  pub mask : String → String × List PiiFinding

-- The sections of the configuration that are read; `none` where a key is missing.
pub record InputConfig : Type 0 where
  pub enable : Option Bool
  pub on_pii_found : Dict String String

pub record IndexingConfig : Type 0 where
  pub enable : Option Bool
  pub severity_threshold : Option String
  pub block_indexing : Option Bool

pub record PiiConfig : Type 0 where
  pub severity_map : Dict String String
  pub input : InputConfig
  pub pii_storage_policy : Option String
  pub indexing : IndexingConfig
  pub response_enable : Option Bool

pub record InputPiiCheck : Type 0 where
  pub findings : List Finding
  pub blocked : Bool
  pub blocked_categories : List String

pub record OutputPiiMask : Type 0 where
  pub masked_text : String
  pub findings : List Finding

pub record StoragePiiDecision : Type 0 where
  pub policy : String
  pub text : String
  pub findings : List Finding
  pub compliance_forced : Bool
  pub plain_approval_missing : Bool

pub record ChunkPiiWarning : Type 0 where
  pub pii_warnings : List Finding
  pub has_high_severity : Bool
  pub block_indexing : Bool

abbrev pub sev_rank : Dict String ℕ
sev_rank = ("low", 1) ∷ ("medium", 2) ∷ ("high", 3) ∷ []

abbrev pub action_keys : Dict String String
action_keys =
    ("high", "high_severity") ∷ ("medium", "medium_severity") ∷ ("low", "low_severity") ∷ []

-- `_resolve_severity`
unfoldable pub resolve_severity : String → String → Dict String String → String
resolve_severity category default severity_map =
    let sev = or_else (get severity_map category) default in
    if sev == "low" || sev == "medium" || sev == "high" then sev else "medium"

abbrev pub default_action : String → String
default_action severity =
    if severity == "low" then "log" else if severity == "medium" then "warn" else "block"

-- `_resolve_action`
unfoldable pub resolve_action : String → Dict String String → String
resolve_action severity on_pii_found =
    let key = or_else (get action_keys severity) "medium_severity" in
    let action = or_else (get on_pii_found key) (default_action severity) in
    if action == "block" || action == "warn" || action == "log" then action else "log"

-- `_finding_to_dict`
abbrev pub finding_to_dict : PiiFinding → String → String → Finding
finding_to_dict f severity action = record {
  category = f.category;
  severity = severity;
  position = f.position;
  masked_form = f.masked_form;
  action = action;
}

abbrev pub member : String → List String → Bool
member t ts = any (λ s. s == t) ts

abbrev pub add : String → List String → List String
add t ts = if member t ts then ts else t ∷ ts

unfoldable pub text_before : String → String → Bool
text_before y x = text_lt y x

module _ (detector : PiiDetector) where
  unfoldable pub input_finding : PiiConfig → PiiFinding → Finding
  input_finding cfg f =
      let sev = resolve_severity f.category f.severity cfg.severity_map in
      finding_to_dict f sev (resolve_action sev cfg.input.on_pii_found)

  -- The set `blocked_cats`.
  unfoldable pub blocked_cats : List Finding → List String
  blocked_cats [] = []
  blocked_cats (f ∷ fs) =
      let rest = blocked_cats fs in if f.action == "block" then add f.category rest else rest

  unfoldable pub check_input : String → PiiConfig → InputPiiCheck
  unfolding input_finding text_before
  check_input question cfg =
      let findings = map (input_finding cfg) (detector.scan question) in
      if not (or_else cfg.input.enable true)
      then record { findings = []; blocked = false; blocked_categories = [] }
      else record {
        findings = findings;
        blocked = any (λ f. f.action == "block") findings;
        blocked_categories = sort_by text_before (blocked_cats findings);
      }

  unfoldable pub masked_finding : PiiConfig → PiiFinding → Finding
  masked_finding cfg f =
      finding_to_dict f (resolve_severity f.category f.severity cfg.severity_map) "mask"

  abbrev pub is_forced : Option String → Bool
  is_forced mode = let m = lower (or_else mode "") in m == "gdpr_strict" || m == "hipaa_strict"

  -- `configured` is "mask" where the approval is missing.
  unfoldable pub storage_policy : Bool → Bool → String → String
  storage_policy forced missing configured =
      let effective = if missing then "mask" else configured in
      if forced || effective == "mask" then "mask" else "plain"

  unfoldable pub mask_for_storage : String → PiiConfig → Option String → Bool → StoragePiiDecision
  mask_for_storage text cfg compliance_mode plain_approved =
      let configured = lower (or_else cfg.pii_storage_policy "mask") in
      let forced = is_forced compliance_mode in
      let missing = configured == "plain" && not plain_approved in
      let policy = storage_policy forced missing configured in
      let kept = text == "" || policy == "plain" in
      record {
        policy = policy;
        text = if kept then text else (detector.mask text).0;
        findings = if kept then [] else map (masked_finding cfg) (detector.mask text).1;
        compliance_forced = forced;
        plain_approval_missing = missing;
      }

  abbrev pub rank_of : String → ℕ → ℕ
  rank_of sev d = or_else (get sev_rank sev) d

  -- The loop over the findings of a chunk: the warnings, and whether one is high.
  unfoldable pub warn_all : PiiConfig → ℕ → List PiiFinding → List Finding × Bool
  warn_all cfg threshold [] = ([], false)
  warn_all cfg threshold (f ∷ fs) =
      let rest = warn_all cfg threshold fs in
      let sev = resolve_severity f.category f.severity cfg.severity_map in
      if ltb (rank_of sev 0) threshold
      then rest
      else (finding_to_dict f sev "warn" ∷ rest.0, sev == "high" || rest.1)

  unfoldable pub check_chunk_pii : String → PiiConfig → ChunkPiiWarning
  unfolding warn_all
  check_chunk_pii content cfg =
      let threshold = rank_of (lower (or_else cfg.indexing.severity_threshold "medium")) 2 in
      let (warnings, high) = warn_all cfg threshold (detector.scan content) in
      if not (or_else cfg.indexing.enable true) || content == ""
      then record { pii_warnings = []; has_high_severity = false; block_indexing = false }
      else record {
        pii_warnings = warnings;
        has_high_severity = high;
        block_indexing = or_else cfg.indexing.block_indexing false && high;
      }

  unfoldable pub mask_output : String → PiiConfig → OutputPiiMask
  mask_output text cfg =
      if not (or_else cfg.response_enable true) || text == ""
      then record { masked_text = text; findings = [] }
      else record {
        masked_text = (detector.mask text).0;
        findings = map (masked_finding cfg) (detector.mask text).1;
      }
