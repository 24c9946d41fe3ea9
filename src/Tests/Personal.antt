-- ===== src/Tests/Personal.antt =====
-- A detector that finds one telephone number, and its use under two configurations.
use domainrag_ops.Prelude.{
  String, ◌≡◌, refl, true, false, not, ◌&&◌, Option, none, some, [], ◌∷◌, arith, eq_iff, ◌==◌,
  string_eq, inr, if◌then◌else◌,
}
use domainrag_ops.Prelude.Text.{lower}
use domainrag_ops.Pii.{PiiDetector, PiiFinding, PiiConfig, mask_for_storage, is_forced}
use domainrag_ops.Pii.Storage.{configured, stored_text}

abbrev phone : PiiFinding
phone = record {
  category = "phone";
  severity = "high";
  position = (5, 13);
  matched_text = "555-0100";
  masked_form = "***";
}

abbrev detector : PiiDetector
detector = record { scan = λ t. phone ∷ []; mask = λ t. ("call ***", phone ∷ []) }

abbrev config : Option String → PiiConfig
config policy = record {
  severity_map = [];
  input = record { enable = none; on_pii_found = [] };
  pii_storage_policy = policy;
  indexing = record { enable = none; severity_threshold = some "HIGH"; block_indexing = some true };
  response_enable = none;
}

stored_text_example :
    (mask_for_storage detector "call 555-0100" (config (some "plain")) none false).text ≡ (
      if configured detector "call 555-0100" (config (some "plain")) none false == "plain"
        && false
        && not (is_forced detector none)
      then "call 555-0100"
      else "call ***")
stored_text_example =
    stored_text detector "call 555-0100" (config (some "plain")) none false
      (ground (arith, eq_iff "call 555-0100" "")) (inr (unfold lower in refl))
