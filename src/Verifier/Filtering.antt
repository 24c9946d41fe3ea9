-- ===== src/Verifier/Filtering.antt =====
-- The assessments of a segment, restricted to the citations that are kept (rag_core/services/verifier_service.py).
use domainrag_ops.Prelude.{
  ℕ, String, ◌≡◌, refl, sym, ◌∙◌, true, ◌&&◌, ◌||◌, some, List, [], ◌∷◌, ◌==◌, string_eq, nat_eq,
  arith, All, any, all, is_some, Option-cases, inl, inr, if◌then◌else◌, &&-true,
}
use domainrag_ops.Prelude.Float.{FloatOps}
use domainrag_ops.Dict.{Dict, get, set_item, get-set_item}
use domainrag_ops.VectorStore.{cosine}
use domainrag_ops.Retrieval.{RetrievedChunk}
use domainrag_ops.Verifier.{VerifierThresholds, VerifiedCitation, classify}
use domainrag_ops.Verifier.Tier2.{context_at, is_verified, restrict}
use domainrag_ops.Verifier.Support.{Grounds}

module _ (fl : FloatOps) (t : VerifierThresholds fl) (embed : String → List fl.Float)
    (contexts : List (RetrievedChunk fl)) where
  open fl use {Float, le}

  -- `restrict` keeps what it finds under a citation of the list, and nothing else.
  get-restrict :
      (m : Dict ℕ (VerifiedCitation fl)) (cs : List ℕ) (d : Dict ℕ (VerifiedCitation fl)) (c : ℕ)
      → get (restrict fl m cs d) c
        ≡ (if any (λ x. x == c) cs && is_some (get m c) then get m c else get d c)
  unfolding restrict
  get-restrict m [] d c = refl
  get-restrict m (x ∷ cs) d c = elim (Option-cases (get m x)) [
    | inl gone ↦ ground (arith, gone, get-restrict m cs d c)
    | inr (a, there) ↦
        ground (arith, there, get-restrict m cs (set_item d x a) c, get-set_item d x c a)
  ]

  -- The citation has an assessment that says verified, and a similarity to the chunk cited that
  -- reaches a threshold.
  abbrev pub IsSupported : String → Dict ℕ (VerifiedCitation fl) → ℕ → Type 0
  IsSupported claim m c =
      (ctx : RetrievedChunk fl) × (a : VerifiedCitation fl) × (context_at fl contexts c ≡ some ctx)
      × (get m c ≡ some a)
      × (a.verified ≡ true)
      × (a.similarity ≡ cosine fl (embed claim) (embed ctx.content))
      × ((le t.strong_threshold a.similarity || le t.medium_threshold a.similarity) ≡ true)

  classify-true :
      (sim : Float)
      → (classify fl sim t).1 ≡ true
      → (le t.strong_threshold sim || le t.medium_threshold sim) ≡ true
  unfolding classify
  classify-true sim h = ground (arith, h)

  verified-IsSupported :
      (claim : String) (m m' : Dict ℕ (VerifiedCitation fl)) (c : ℕ)
      → ((x : ℕ) (a : VerifiedCitation fl)
          → get m x ≡ some a
          → Grounds fl t embed contexts claim x a)
      → is_verified fl m c ≡ true
      → get m' c ≡ get m c
      → IsSupported claim m' c
  verified-IsSupported claim m m' c g v e = elim (Option-cases (get m c)) [
    | inl gone ↦ absurd (ground (arith, gone, v))
    | inr (a, there) ↦
        let (ctx, cited, sim, ver) = g c a there in
        let is_true : a.verified ≡ true = ground (arith, there, v) in
        (ctx, a, cited, e ∙ there, is_true, sim, classify-true a.similarity (sym ver ∙ is_true))
  ]

  -- All the citations of a list, each verified, keep their assessments in the restricted dict.
  pub restricted-IsSupported :
      (claim : String) (m : Dict ℕ (VerifiedCitation fl)) (cs ds : List ℕ)
      → ((x : ℕ) (a : VerifiedCitation fl)
          → get m x ≡ some a
          → Grounds fl t embed contexts claim x a)
      → ((c : ℕ) → any (λ x. x == c) cs ≡ true → any (λ x. x == c) ds ≡ true)
      → All (λ c. is_verified fl m c ≡ true) cs
      → All (IsSupported claim (restrict fl m ds [])) cs
  restricted-IsSupported claim m [] ds g sub v = tt
  restricted-IsSupported claim m (c ∷ cs) ds g sub (v, vs) =
      let present : any (λ x. x == c) ds ≡ true = sub c (ground arith) in
      (
        verified-IsSupported claim m (restrict fl m ds []) c g v
            (ground (arith, present, v, get-restrict m ds [] c)),
        restricted-IsSupported claim m cs ds g (λ x h. sub x (ground (arith, h))) vs,
      )

  pub all-All :
      (m : Dict ℕ (VerifiedCitation fl)) (cs : List ℕ)
      → all (is_verified fl m) cs ≡ true
      → All (λ c. is_verified fl m c ≡ true) cs
  all-All m [] h = tt
  all-All m (c ∷ cs) h =
      let (a, b) = &&-true (is_verified fl m c) (all (is_verified fl m) cs) h in (a, all-All m cs b)
