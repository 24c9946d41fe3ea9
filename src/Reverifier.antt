-- ===== src/Reverifier.antt =====
-- `CitationReverifier` (rag_core/services/citation_reverifier.py): the similarity of each logged
-- citation, computed anew. `round4` is `round(x, 4)`; `none` is an `IndexError` where the batch gives
-- too few embeddings.
pub mod Direct
use domainrag_ops.Prelude.{
  ℕ, zero, suc, ◌+◌, ◌*◌, String, Bool, true, false, not, ◌&&◌, ◌||◌, Option, none, some, List, [],
  ◌∷◌, ◌++◌, ◌==◌, string_eq, nat_eq, length, get_elem?, map, ltb, or_else, if◌then◌else◌,
}
use domainrag_ops.Prelude.Float.{FloatOps}
use domainrag_ops.Prelude.Text.{strip}
use domainrag_ops.Dict.{Dict, get}
use domainrag_ops.Payload.{Payload}
use domainrag_ops.VectorStore.{dot_from}

-- (citation index, claim, excerpt)
pub record Target : Type 0 where
  pub position : ℕ
  pub claim : String
  pub excerpt : String

-- `_ORDER`
abbrev pub level_order : Dict String ℕ
level_order = ("strong", 2) ∷ ("medium", 1) ∷ ("weak", 0) ∷ []

module _ (fl : FloatOps) where
  open fl use {Float, of_ℕ, le, is_zero, plus, times, over, sqrt}

  pub record ReverifyThresholds : Type 0 where
    pub strong : Float
    pub medium : Float

  -- A logged citation; `others` are the fields that are left alone.
  pub record LoggedCitation : Type 0 where
    pub claim_text : Option String
    pub excerpt : Option String
    pub similarity : Option Float
    pub support_level : Option String
    pub verified : Option Bool
    pub others : Payload

  pub record ReverifyResult : Type 0 where
    pub request_id : String
    pub citations_before : List LoggedCitation
    pub citations_after : List LoggedCitation
    pub avg_similarity_before : Option Float
    pub avg_similarity_after : Option Float
    pub upgraded : ℕ
    pub downgraded : ℕ

  abbrev level_for : Float → ReverifyThresholds → String
  level_for sim t =
      if le t.strong sim then "strong" else if le t.medium sim then "medium" else "weak"

  unfoldable pub plain_cosine : List Float → List Float → Float
  plain_cosine [] b = of_ℕ 0
  plain_cosine (x ∷ xs) [] = of_ℕ 0
  plain_cosine (x ∷ xs) (y ∷ ys) =
      let na = sqrt (dot_from fl (of_ℕ 0) (x ∷ xs) (x ∷ xs)) in
      let nb = sqrt (dot_from fl (of_ℕ 0) (y ∷ ys) (y ∷ ys)) in
      if not (length (x ∷ xs) == length (y ∷ ys)) || is_zero na || is_zero nb
      then of_ℕ 0
      else over (dot_from fl (of_ℕ 0) (x ∷ xs) (y ∷ ys)) (times na nb)

  -- `_avg`, over the values that are numbers
  abbrev pub numbers : List (Option Float) → List Float
  numbers [] = []
  numbers (none ∷ xs) = numbers xs
  numbers (some x ∷ xs) = x ∷ numbers xs

  abbrev sum_from : Float → List Float → Float
  sum_from acc [] = acc
  sum_from acc (x ∷ xs) = sum_from (plus acc x) xs

  abbrev pub average_of : List Float → Option Float
  average_of [] = none
  average_of (x ∷ xs) = some (over (sum_from (of_ℕ 0) (x ∷ xs)) (of_ℕ (length (x ∷ xs))))

  -- `(c.get(key) or "").strip()`
  abbrev pub stripped : Option String → String
  stripped o = strip (or_else o "")

  abbrev pub is_target : LoggedCitation → Bool
  is_target c = not (stripped c.claim_text == "") && not (stripped c.excerpt == "")

  unfoldable pub targets_from : ℕ → List LoggedCitation → List Target
  targets_from i [] = []
  targets_from i (c ∷ cs) =
      let rest = targets_from (suc i) cs in
      if is_target c
      then record { position = i; claim = stripped c.claim_text; excerpt = stripped c.excerpt }
        ∷ rest
      else rest

  abbrev pub texts_of : List Target → List String
  texts_of [] = []
  texts_of (t ∷ ts) = t.claim ∷ t.excerpt ∷ texts_of ts

  -- What the loop has done so far.
  pub record Progress : Type 0 where
    pub citations : List LoggedCitation
    pub upgraded : ℕ
    pub downgraded : ℕ
    pub similarities : List Float

  abbrev pub set_at : ℕ → LoggedCitation → List LoggedCitation → List LoggedCitation
  set_at i x [] = []
  set_at zero x (c ∷ cs) = x ∷ cs
  set_at (suc i) x (c ∷ cs) = c ∷ set_at i x cs

  module _ (round4 : Float → Float) (t : ReverifyThresholds) where
    abbrev pub reassessed : LoggedCitation → Float → LoggedCitation
    reassessed c sim = record c {
      similarity = some (round4 sim);
      support_level = some (level_for sim t);
      verified = some (level_for sim t == "strong" || level_for sim t == "medium");
    }

    -- 1 where the old level is a known one below the new one
    abbrev pub raised : Option String → String → ℕ
    raised none new = 0
    raised (some old) new = elim (get level_order old) [
      | none ↦ 0
      | some r ↦ if ltb r (or_else (get level_order new) 0) then 1 else 0
    ]

    abbrev pub lowered : Option String → String → ℕ
    lowered none new = 0
    lowered (some old) new = elim (get level_order old) [
      | none ↦ 0
      | some r ↦ if ltb (or_else (get level_order new) 0) r then 1 else 0
    ]

    abbrev pub with_citation : ℕ → Float → Progress → Option LoggedCitation → Progress
    with_citation i sim p none = p
    with_citation i sim p (some c) = record {
      citations = set_at i (reassessed c sim) p.citations;
      upgraded = p.upgraded + raised c.support_level (level_for sim t);
      downgraded = p.downgraded + lowered c.support_level (level_for sim t);
      similarities = p.similarities ++ sim ∷ [];
    }

    abbrev pub advance : ℕ → Float → Progress → Progress
    advance i sim p = with_citation i sim p (get_elem? p.citations i)

    -- The loop over the targets, `offset` of them done.
    unfoldable pub reverify_targets :
        ℕ → List Target → List (List Float) → Progress → Option Progress
    reverify_targets offset [] embeddings p = some p
    reverify_targets offset (target ∷ targets) embeddings p =
        elim (get_elem? embeddings (offset * 2)) [
          | none ↦ none
          | some a ↦ elim (get_elem? embeddings (offset * 2 + 1)) [
            | none ↦ none
            | some b ↦
                reverify_targets (suc offset) targets embeddings
                  (advance target.position (plain_cosine a b) p)
          ]
        ]

    abbrev unchanged : String → List LoggedCitation → ReverifyResult
    unchanged request_id cs = record {
      request_id = request_id;
      citations_before = cs;
      citations_after = cs;
      avg_similarity_before = average_of (numbers (map (λ (c : LoggedCitation). c.similarity) cs));
      avg_similarity_after = average_of (numbers (map (λ (c : LoggedCitation). c.similarity) cs));
      upgraded = 0;
      downgraded = 0;
    }

    abbrev pub result_of : String → List LoggedCitation → Progress → ReverifyResult
    result_of request_id cs p = record {
      request_id = request_id;
      citations_before = cs;
      citations_after = p.citations;
      avg_similarity_before = average_of (numbers (map (λ (c : LoggedCitation). c.similarity) cs));
      avg_similarity_after = some (or_else (average_of p.similarities) (of_ℕ 0));
      upgraded = p.upgraded;
      downgraded = p.downgraded;
    }

    unfoldable pub reverify_one :
        (List String → List (List Float)) → String → List LoggedCitation → Option ReverifyResult
    reverify_one embed_batch request_id citations = elim (targets_from 0 citations) [
      | [] ↦ some (unchanged request_id citations)
      | ◌∷◌ target targets ↦
          elim (reverify_targets 0 (target ∷ targets) (embed_batch (texts_of (target ∷ targets)))
            (record { citations = citations; upgraded = 0; downgraded = 0; similarities = [] })) [
              | none ↦ none
              | some p ↦ some (result_of request_id citations p)
            ]
    ]
