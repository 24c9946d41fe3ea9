-- ===== src/Pii/Checks.antt =====
-- Questions that are blocked and chunks that are reported (rag_core/services/pii_service.py).
use domainrag_ops.Prelude.{
  ℕ, ◌≤◌, String, ◌≡◌, ◌≢◌, refl, ◌∙◌, ap, Bool, true, false, ◌&&◌, ◌||◌, List, [], ◌∷◌, arith,
  eq_iff, ◌==◌, string_eq, or_else, any, map, any-sort_by, if◌then◌else◌, Bool-cases, inl, inr, ◌⊎◌,
  subst, sym,
}
use domainrag_ops.Prelude.Text.{lower}
use domainrag_ops.Dict.{Dict, get}
use domainrag_ops.Pii.{
  PiiDetector, PiiFinding, PiiConfig, resolve_severity, resolve_action, input_finding, blocked_cats,
  check_input, rank_of, warn_all, check_chunk_pii, member, add, text_before,
}

-- Whatever the overrides say, a severity is one of the three known ones.
pub resolve_severity_known :
    (category default : String) (severity_map : Dict String String)
    → let sev = resolve_severity category default severity_map in
      (sev ≡ "low") ⊎ (sev ≡ "medium") ⊎ (sev ≡ "high")
unfolding resolve_severity
resolve_severity_known category default severity_map =
    known (or_else (get severity_map category) default)
  where
    known :
        (sev : String)
        → let r = if sev == "low" || sev == "medium" || sev == "high" then sev else "medium" in
          (r ≡ "low") ⊎ (r ≡ "medium") ⊎ (r ≡ "high")
    known sev = ground (arith, eq_iff sev "low", eq_iff sev "medium", eq_iff sev "high")

member-add : (c t : String) (ts : List String) → member c (add t ts) ≡ (t == c || member c ts)
member-add c t ts = elim (Bool-cases (member t ts)) [
  | inl old ↦ rw old (elim (Bool-cases (t == c)) [
    | inl same ↦
        let p : t ≡ c = (eq_iff t c).0 same in rw same (subst (λ x. member x ts ≡ true) p old)
    | inr other ↦ rw other
  ])
  | inr new ↦ rw new
]

module _ (detector : PiiDetector) (cfg : PiiConfig) where
  -- A finding blocks the question under the configuration.
  abbrev pub blocks : PiiFinding → Bool
  blocks f =
      resolve_action (resolve_severity f.category f.severity cfg.severity_map)
        cfg.input.on_pii_found
      == "block"

  blocked_cats_lem :
      (c : String) (fs : List PiiFinding)
      → member c (blocked_cats detector (map (input_finding detector cfg) fs))
        ≡ any (λ f. blocks f && f.category == c) fs
  unfolding blocked_cats input_finding
  blocked_cats_lem c [] = refl
  blocked_cats_lem c (f ∷ fs) = elim (Bool-cases (blocks f)) [
    | inr passes ↦ rw passes (blocked_cats_lem c fs)
    | inl stops ↦ rw stops (
        member-add c f.category (blocked_cats detector (map (input_finding detector cfg) fs))
        ∙ ap (λ b. f.category == c || b) (blocked_cats_lem c fs))
  ]

  -- Where input checks are enabled: a question is blocked exactly if some finding blocks it, and the
  -- blocked categories are exactly the categories of such findings.
  pub check_input_lem :
      (question c : String)
      → or_else cfg.input.enable true ≡ true
      → let check = check_input detector question cfg in
        (check.blocked ≡ any blocks (detector.scan question))
        × (member c check.blocked_categories
            ≡ any (λ f. blocks f && f.category == c) (detector.scan question))
  unfolding check_input
  check_input_lem question c on = (
    rw on (any_blocks (detector.scan question)),
    rw on (
        any-sort_by text_before (λ s. s == c)
          (blocked_cats detector (map (input_finding detector cfg) (detector.scan question)))
        ∙ blocked_cats_lem c (detector.scan question)),
  )
    where
      any_blocks :
          (fs : List PiiFinding)
          → any (λ f. f.action == "block") (map (input_finding detector cfg) fs) ≡ any blocks fs
      any_blocks [] = refl
      any_blocks (f ∷ fs) = ap (λ b. blocks f || b) (any_blocks fs)

  abbrev pub high : PiiFinding → Bool
  high f = resolve_severity f.category f.severity cfg.severity_map == "high"

  -- No threshold is above the rank of "high", so a finding of high severity is never dropped.
  warn_all-high :
      (threshold : ℕ) (fs : List PiiFinding)
      → threshold ≤ 3
      → (warn_all detector cfg threshold fs).1 ≡ any high fs
  unfolding warn_all
  warn_all-high threshold [] h = refl
  warn_all-high threshold (f ∷ fs) h = elim (Bool-cases (high f)) [
    | inl is_high ↦
        let s = resolve_severity f.category f.severity cfg.severity_map in
        let e : s ≡ "high" = (eq_iff s "high").0 is_high in
        let r : rank_of detector s 0 ≡ 3 =
          subst (λ x. rank_of detector x 0 ≡ 3) (sym e) (unfold get in refl) in
        ground (arith, r, is_high, warn_all-high threshold fs h)
    | inr not_high ↦ ground (arith, not_high, warn_all-high threshold fs h)
  ]

  threshold-le : (s : String) → rank_of detector s 2 ≤ 3
  unfolding get
  threshold-le s = ground arith

  -- A chunk that is scanned is reported to have personal data of high severity exactly if a finding
  -- has that severity, whatever the threshold; it is kept out of the index exactly if the
  -- configuration says so too.
  pub check_chunk_pii_lem :
      (content : String)
      → content ≢ ""
      → or_else cfg.indexing.enable true ≡ true
      → let w = check_chunk_pii detector content cfg in
        (w.has_high_severity ≡ any high (detector.scan content))
        × (w.block_indexing
            ≡ (or_else cfg.indexing.block_indexing false && any high (detector.scan content)))
  unfolding check_chunk_pii
  check_chunk_pii_lem content ne on =
      let t = rank_of detector (lower (or_else cfg.indexing.severity_threshold "medium")) 2 in
      let highs =
        warn_all-high t (detector.scan content)
          (threshold-le (lower (or_else cfg.indexing.severity_threshold "medium"))) in
      (ground (arith, on, highs, eq_iff content ""), ground (arith, on, highs, eq_iff content ""))
