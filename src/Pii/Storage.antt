-- ===== src/Pii/Storage.antt =====
-- What is stored of a question (rag_core/services/pii_service.py).
use domainrag_ops.Prelude.{
  String, ◌≡◌, ◌≢◌, refl, Bool, true, false, not, ◌&&◌, ◌||◌, Option, arith, eq_iff, ◌==◌,
  string_eq, or_else, ◌∙◌, ◌⊎◌, inl, inr, if◌then◌else◌, sym, subst, Bool-cases,
}
use domainrag_ops.Prelude.Text.{lower}
use domainrag_ops.Pii.{PiiDetector, PiiConfig, is_forced, storage_policy, mask_for_storage}

storage_policy_lem :
    (detector : PiiDetector) (forced missing : Bool) (configured : String)
    → storage_policy detector forced missing configured
      ≡ (if forced || missing || configured == "mask" then "mask" else "plain")
unfolding storage_policy
storage_policy_lem detector true missing configured = refl
storage_policy_lem detector false true configured = refl
storage_policy_lem detector false false configured = refl

module _ (detector : PiiDetector) (text : String) (cfg : PiiConfig) (mode : Option String)
    (approved : Bool) where
  abbrev pub configured : String
  configured = lower (or_else cfg.pii_storage_policy "mask")

  -- The policy is "plain" exactly if no compliance mode forces masking, and the configured policy is
  -- "plain" with an approval or is neither "mask" nor "plain"; otherwise it is "mask".
  pub policy_lem : (mask_for_storage detector text cfg mode approved).policy ≡ (
      if not (is_forced detector mode)
        && ((configured == "plain" && approved)
            || (not (configured == "mask") && not (configured == "plain")))
      then "plain"
      else "mask")
  unfolding mask_for_storage
  policy_lem = elim (Bool-cases (configured == "plain")) [
    | inl plain ↦ rw (plain_not_mask plain) (
        rw
          (storage_policy_lem detector (is_forced detector mode)
            (configured == "plain" && not approved) configured)
          (rw (plain, plain_not_mask plain) (ground arith)))
    | inr other ↦
        rw
          (storage_policy_lem detector (is_forced detector mode)
            (configured == "plain" && not approved) configured)
          (rw other (ground arith))
  ]
    where
      plain_not_mask : (configured == "plain") ≡ true → (configured == "mask") ≡ false
      plain_not_mask e =
          let p : configured ≡ "plain" = (eq_iff configured "plain").0 e in
          subst (λ (x : String). (x == "mask") ≡ false) (sym p) refl

  abbrev stores_plain : Bool
  stores_plain =
      not (is_forced detector mode)
      && ((configured == "plain" && approved)
          || (not (configured == "mask") && not (configured == "plain")))

  text_of_policy : (mask_for_storage detector text cfg mode approved).text ≡ (
      if text == "" || (mask_for_storage detector text cfg mode approved).policy == "plain"
      then text
      else (detector.mask text).0)
  unfolding mask_for_storage
  text_of_policy = refl

  named_plain : (b : Bool) → ◌==◌ {K = String} (if b then "plain" else "mask") "plain" ≡ b
  named_plain true = refl
  named_plain false = refl

  text_lem :
      (mask_for_storage detector text cfg mode approved).text
      ≡ (if text == "" || stores_plain then text else (detector.mask text).0)
  text_lem = text_of_policy ∙ rw (policy_lem, named_plain stores_plain) refl

  -- Under a configured policy of "mask" or "plain", a text that is not empty is stored as it is only
  -- with an approval and with no compliance mode; otherwise the detector's masked text is stored.
  pub stored_text :
      text ≢ ""
      → (configured ≡ "mask") ⊎ (configured ≡ "plain")
      → (mask_for_storage detector text cfg mode approved).text ≡ (
          if configured == "plain" && approved && not (is_forced detector mode)
          then text
          else (detector.mask text).0)
  stored_text ne known =
      ground (arith, text_lem, eq_iff text "", eq_iff configured "mask", eq_iff configured "plain")

  -- Where no compliance mode forces masking, a configured policy that is neither "mask" nor "plain"
  -- stores the text as it is, with no approval, and does not report that the approval is missing.
  pub unknown_policy_stores_plain :
      configured ≢ "mask"
      → configured ≢ "plain"
      → is_forced detector mode ≡ false
      → ((mask_for_storage detector text cfg mode approved).text ≡ text)
        × ((mask_for_storage detector text cfg mode approved).plain_approval_missing ≡ false)
  unknown_policy_stores_plain nm np nf = (
    ground (arith, text_lem, nf, eq_iff configured "mask", eq_iff configured "plain"),
    unfold mask_for_storage in ground (arith, eq_iff configured "plain"),
  )
