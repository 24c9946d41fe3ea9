-- ===== src/Reverifier/Direct.antt =====
-- The reverified citations, each by itself (rag_core/services/citation_reverifier.py).
use domainrag_ops.Prelude.{
  ℕ, suc, ◌+◌, ◌*◌, String, ◌≡◌, refl, sym, ◌∙◌, ap, subst, some, List, [], ◌∷◌, ◌++◌, arith,
  length, get_elem?, map, Bool-cases, Option-cases, inl, inr, if◌then◌else◌,
}
use domainrag_ops.Prelude.Float.{FloatOps}
use domainrag_ops.Reverifier.{
  Target, ReverifyThresholds, LoggedCitation, ReverifyResult, Progress, plain_cosine, stripped,
  is_target, targets_from, texts_of, set_at, reassessed, advance, reverify_targets, result_of,
  reverify_one,
}

module _ (fl : FloatOps) (round4 : fl.Float → fl.Float) (t : ReverifyThresholds fl)
    (embed : String → List fl.Float) where
  open fl use {Float}

  -- The citation with the similarity of its own claim and excerpt, if it has both.
  abbrev pub direct : LoggedCitation fl → LoggedCitation fl
  direct c =
      if is_target fl c
      then reassessed fl round4 t c
          (plain_cosine fl (embed (stripped fl c.claim_text)) (embed (stripped fl c.excerpt)))
      else c

  get_elem-append :
      (done rest : List (LoggedCitation fl)) (c : LoggedCitation fl)
      → get_elem? (done ++ c ∷ rest) (length done) ≡ some c
  get_elem-append [] rest c = refl
  get_elem-append (d ∷ done) rest c = get_elem-append done rest c

  set_at-append :
      (done rest : List (LoggedCitation fl)) (c c' : LoggedCitation fl)
      → set_at fl (length done) c' (done ++ c ∷ rest) ≡ done ++ c' ∷ rest
  set_at-append [] rest c c' = refl
  set_at-append (d ∷ done) rest c c' = ap (λ l. d ∷ l) (set_at-append done rest c c')

  append-one :
      (done rest : List (LoggedCitation fl)) (c : LoggedCitation fl)
      → (done ++ c ∷ []) ++ rest ≡ done ++ c ∷ rest
  append-one [] rest c = refl
  append-one (d ∷ done) rest c = ap (λ l. d ∷ l) (append-one done rest c)

  length-append_one :
      (done : List (LoggedCitation fl)) (c : LoggedCitation fl)
      → length (done ++ c ∷ []) ≡ suc (length done)
  length-append_one [] c = refl
  length-append_one (d ∷ done) c = ap suc (length-append_one done c)

  -- From `offset` targets on, the embeddings are those of the texts of the targets that are left.
  abbrev Embeds : ℕ → List Target → List (List Float) → Type 0
  Embeds offset ts es =
      (j : ℕ) → get_elem? es (offset * 2 + j) ≡ get_elem? (map embed (texts_of fl ts)) j

  -- The loop ends, with the citations that were left each done by itself.
  abbrev Finishes :
      ℕ → List Target → List (List Float) → Progress fl → List (LoggedCitation fl) → Type 0
  Finishes offset ts es p cs =
      (p' : Progress fl) × (reverify_targets fl round4 t offset ts es p ≡ some p')
      × (p'.citations ≡ cs)

  step_lem :
      (offset : ℕ) (target : Target) (ts : List Target) (es : List (List Float)) (p : Progress fl)
      → Embeds offset (target ∷ ts) es
      → reverify_targets fl round4 t offset (target ∷ ts) es p
        ≡ reverify_targets fl round4 t (suc offset) ts es (
            advance fl round4 t target.position
              (plain_cosine fl (embed target.claim) (embed target.excerpt))
              p)
  unfolding reverify_targets
  step_lem offset target ts es p h =
      let first : get_elem? es (offset * 2) ≡ some (embed target.claim) =
        ap (get_elem? es) (omega arith) ∙ h 0 in
      let second : get_elem? es (offset * 2 + 1) ≡ some (embed target.excerpt) = h 1 in
      ground (arith, first, second)

  later-Embeds :
      (offset : ℕ) (target : Target) (ts : List Target) (es : List (List Float))
      → Embeds offset (target ∷ ts) es
      → Embeds (suc offset) ts es
  later-Embeds offset target ts es h j = ap (get_elem? es) (omega arith) ∙ h (suc (suc j))

  -- The citations after a step, the citation at the target's position done by itself.
  advanced :
      (n : ℕ) (sim : Float) (done rest : List (LoggedCitation fl)) (c : LoggedCitation fl)
      (p : Progress fl)
      → n ≡ length done
      → p.citations ≡ done ++ c ∷ rest
      → (advance fl round4 t n sim p).citations
        ≡ (done ++ reassessed fl round4 t c sim ∷ []) ++ rest
  advanced n sim done rest c p e f =
      let there : get_elem? p.citations n ≡ some c =
        ap (λ l. get_elem? l n) f
        ∙ ap (get_elem? (done ++ c ∷ rest)) e
        ∙ get_elem-append done rest c in
      let c' = reassessed fl round4 t c sim in
      let set : (advance fl round4 t n sim p).citations ≡ set_at fl n c' p.citations =
        ground (arith, there) in
      set
      ∙ ap (set_at fl n c') f
      ∙ ap (λ m. set_at fl m c' (done ++ c ∷ rest)) e
      ∙ set_at-append done rest c c'
      ∙ sym (append-one done rest c')

  loop_lem :
      (offset : ℕ) (done rest : List (LoggedCitation fl)) (n : ℕ) (ts : List Target)
      (es : List (List Float)) (p : Progress fl)
      → n ≡ length done
      → ts ≡ targets_from fl n rest
      → p.citations ≡ done ++ rest
      → Embeds offset ts es
      → Finishes offset ts es p (done ++ map direct rest)
  loop_lem offset done [] n ts es p e s f h =
      subst (λ x. Finishes offset x es p (done ++ [])) (sym s)
        (p, unfold reverify_targets targets_from in refl, f)
  loop_lem offset done (c ∷ rest) n ts es p e s f h = elim (Bool-cases (is_target fl c)) [
    | inr passed ↦
        let skip : targets_from fl n (c ∷ rest) ≡ targets_from fl (suc n) rest =
          unfold targets_from in ground (arith, passed) in
        let same : c ≡ direct c = ground (arith, passed) in
        let (p', run, cs) =
          loop_lem offset (done ++ c ∷ []) rest (suc n) ts es p
            (ap suc e ∙ sym (length-append_one done c)) (s ∙ skip)
            (f ∙ sym (append-one done rest c)) h in
        (
          p',
          run,
          cs ∙ append-one done (map direct rest) c ∙ ap (λ x. done ++ x ∷ map direct rest) same,
        )
    | inl both ↦
        let target : Target = record {
          position = n;
          claim = stripped fl c.claim_text;
          excerpt = stripped fl c.excerpt;
        } in
        let sim = plain_cosine fl (embed target.claim) (embed target.excerpt) in
        let c' = reassessed fl round4 t c sim in
        let more = targets_from fl (suc n) rest in
        let shape : targets_from fl n (c ∷ rest) ≡ target ∷ more =
          unfold targets_from in ground (arith, both) in
        let same : c' ≡ direct c = ground (arith, both) in
        let here = subst (λ x. Embeds offset x es) (s ∙ shape) h in
        let (p', run, cs) =
          loop_lem (suc offset) (done ++ c' ∷ []) rest (suc n) more es (advance fl round4 t n sim p)
            (ap suc e ∙ sym (length-append_one done c')) refl (advanced n sim done rest c p e f)
            (later-Embeds offset target more es here) in
        subst (λ x. Finishes offset x es p (done ++ direct c ∷ map direct rest)) (sym (s ∙ shape))
          (
            p',
            step_lem offset target more es p here ∙ run,
            cs ∙ append-one done (map direct rest) c' ∙ ap (λ x. done ++ x ∷ map direct rest) same,
          )
  ]

  -- Where a batch embeds each text by itself, `reverify_one` raises nothing, and gives each citation
  -- that has a claim and an excerpt the similarity of these two, with the level and the verdict that
  -- follow, and leaves the others alone.
  pub reverify_one_lem :
      (embed_batch : List String → List (List Float))
      → ((ts : List String) → embed_batch ts ≡ map embed ts)
      → (request_id : String) (citations : List (LoggedCitation fl))
      → (r : ReverifyResult fl) × (reverify_one fl round4 t embed_batch request_id citations
          ≡ some r)
        × (r.citations_after ≡ map direct citations)
  unfolding reverify_one reverify_targets
  reverify_one_lem embed_batch pointwise request_id citations =
      by_targets (targets_from fl 0 citations) refl
    where
      begun : Progress fl
      begun = record { citations = citations; upgraded = 0; downgraded = 0; similarities = [] }

      Answers : Type 0
      Answers =
          (r : ReverifyResult fl) × (reverify_one fl round4 t embed_batch request_id citations
            ≡ some r)
          × (r.citations_after ≡ map direct citations)

      by_targets : (ts : List Target) → targets_from fl 0 citations ≡ ts → Answers
      by_targets [] e =
          let (p', run, cs) = loop_lem 0 [] citations 0 [] [] begun refl (sym e) refl (λ j. refl) in
          let same : begun ≡ p' = ground (arith, run) in
          let kept : citations ≡ map direct citations =
            ap (λ (q : Progress fl). q.citations) same ∙ cs in
          elim (Option-cases (reverify_one fl round4 t embed_batch request_id citations)) [
            | inl failed ↦ absurd (ground (arith, failed, e))
            | inr (r, done) ↦ (r, done, ground (arith, done, e) ∙ kept)
          ]
      by_targets (tg ∷ ts) e =
          let (p', run, cs) =
            loop_lem 0 [] citations 0 (tg ∷ ts) (embed_batch (texts_of fl (tg ∷ ts))) begun refl
              (sym e) refl
              (λ j.
                ap (get_elem? (embed_batch (texts_of fl (tg ∷ ts)))) (omega arith)
                ∙ ap (λ l. get_elem? l j) (pointwise (texts_of fl (tg ∷ ts)))) in
          (result_of fl round4 t request_id citations p', ground (arith, e, run), cs)
