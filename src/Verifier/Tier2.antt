-- ===== src/Verifier/Tier2.antt =====
-- `tier2_classify` (rag_core/services/verifier_service.py): which claims are compared with which
-- chunks, the one batch that is embedded, and the segments that result. `embed_batch` gives the dense
-- vector of each text; `none` is an `IndexError` where it gives too few.
use domainrag_ops.Prelude.{
  ℕ, zero, suc, String, Bool, true, false, not, ◌&&◌, ◌||◌, Option, none, some, List, [], ◌∷◌, ◌++◌,
  ◌==◌, string_eq, nat_eq, length, get_elem?, all, keep, ltb, or_else, if◌then◌else◌,
}
use domainrag_ops.Prelude.Float.{FloatOps}
use domainrag_ops.Dict.{Dict, get, set_item}
use domainrag_ops.VectorStore.{cosine}
use domainrag_ops.Retrieval.{RetrievedChunk}
use domainrag_ops.Verifier.{
  ℤ, pos, negsuc, VerifierThresholds, VerifiedCitation, Segment, classify, capped,
}

-- `unique_texts` and `text_to_pos`
pub record Interned : Type 0 where
  pub unique_texts : List String
  pub text_to_pos : Dict String ℕ

-- (segment, citation, position of the claim, position of the chunk)
pub record Pair : Type 0 where
  pub seg_idx : ℕ
  pub citation_idx : ℕ
  pub claim_pos : ℕ
  pub chunk_pos : ℕ

-- `_intern`
unfoldable pub intern : String → Interned → ℕ × Interned
intern t s = elim (get s.text_to_pos t) [
  | some p ↦ (p, s)
  | none ↦ (
    length s.unique_texts,
    record {
      unique_texts = s.unique_texts ++ t ∷ [];
      text_to_pos = set_item s.text_to_pos t (length s.unique_texts);
    },
  )
]

module _ (fl : FloatOps) where
  open fl use {Float, of_ℕ, plus, over}

  -- `contexts[cidx - 1]` where `1 <= cidx <= len(contexts)`
  abbrev pub context_at : List (RetrievedChunk fl) → ℕ → Option (RetrievedChunk fl)
  context_at contexts zero = none
  context_at contexts (suc i) = get_elem? contexts i

  abbrev pub is_empty {ℓ} : {A : Type ℓ} → List A → Bool
  is_empty [] = true
  is_empty (x ∷ xs) = false

  -- The segments whose citations are not compared.
  abbrev pub skipped : VerifierThresholds fl → Segment fl → Bool
  skipped t seg =
      (seg.support_type == "conflict" && is_empty seg.conflict_groups)
      || (seg.support_type == "inference" && not t.inference_judge_enabled)

  unfoldable pub citation_pairs :
      List (RetrievedChunk fl) → ℕ → String → List ℕ → Interned → List Pair × Interned
  citation_pairs contexts i claim [] s = ([], s)
  citation_pairs contexts i claim (c ∷ cs) s = elim (context_at contexts c) [
    | none ↦ citation_pairs contexts i claim cs s
    | some ctx ↦
        let (p, s1) = intern claim s in
        let (q, s2) = intern ctx.content s1 in
        let (ps, s3) = citation_pairs contexts i claim cs s2 in
        (record { seg_idx = i; citation_idx = c; claim_pos = p; chunk_pos = q } ∷ ps, s3)
  ]

  unfoldable pub collect_pairs :
      VerifierThresholds fl
      → List (RetrievedChunk fl)
      → List (Segment fl)
      → Interned
      → List Pair × Interned
  collect_pairs t contexts [] s = ([], s)
  collect_pairs t contexts (seg ∷ segs) s =
      let (ps, s1) =
        citation_pairs contexts seg.index seg.text (if skipped t seg then [] else seg.citations)
          s in
      let (qs, s2) = collect_pairs t contexts segs s1 in (ps ++ qs, s2)

  abbrev pub assessment : VerifierThresholds fl → ℕ → ℕ → Float → VerifiedCitation fl
  assessment t i c sim = record {
    segment_index = i;
    chunk_index = c;
    similarity = sim;
    support_level = (classify fl sim t).0;
    verified = (classify fl sim t).1;
  }

  unfoldable pub assess_pair :
      VerifierThresholds fl → List (List Float) → Pair → Option (VerifiedCitation fl)
  assess_pair t embeddings p = elim (get_elem? embeddings p.claim_pos) [
    | none ↦ none
    | some a ↦ elim (get_elem? embeddings p.chunk_pos) [
      | none ↦ none
      | some b ↦ some (assessment t p.seg_idx p.citation_idx (cosine fl a b))
    ]
  ]

  unfoldable pub assess_pairs :
      VerifierThresholds fl → List (List Float) → List Pair → Option (List (VerifiedCitation fl))
  assess_pairs t embeddings [] = some []
  assess_pairs t embeddings (p ∷ ps) =
      let rest = assess_pairs t embeddings ps in
      elim (assess_pair t embeddings p) [
        | none ↦ none
        | some a ↦ elim rest [ none ↦ none | some more ↦ some (a ∷ more) ]
      ]

  -- `seg_assessments.setdefault(seg_idx, {})[cidx] = a`, for all the assessments
  unfoldable pub by_segment :
      List (VerifiedCitation fl)
      → Dict ℕ (Dict ℕ (VerifiedCitation fl))
      → Dict ℕ (Dict ℕ (VerifiedCitation fl))
  by_segment [] d = d
  by_segment (a ∷ more) d =
      by_segment more
        (set_item d a.segment_index (set_item (or_else (get d a.segment_index) []) a.chunk_index a))

  -- `assess_map.get(c) and assess_map[c].verified`
  abbrev pub is_verified : Dict ℕ (VerifiedCitation fl) → ℕ → Bool
  is_verified assess_map c = elim (get assess_map c) [ none ↦ false | some a ↦ a.verified ]

  abbrev pub is_verified_int : Dict ℕ (VerifiedCitation fl) → ℤ → Bool
  is_verified_int assess_map (pos n) = is_verified assess_map n
  is_verified_int assess_map (negsuc n) = false

  abbrev pub group_ok : Dict ℕ (VerifiedCitation fl) → List ℤ → Bool
  group_ok assess_map group = not (is_empty group) && all (is_verified_int assess_map) group

  -- `{c: assess_map[c] for c in cs}`, with the citations that have an assessment
  unfoldable pub restrict :
      Dict ℕ (VerifiedCitation fl)
      → List ℕ
      → Dict ℕ (VerifiedCitation fl)
      → Dict ℕ (VerifiedCitation fl)
  restrict assess_map [] d = d
  restrict assess_map (c ∷ cs) d =
      restrict assess_map cs (elim (get assess_map c) [ none ↦ d | some a ↦ set_item d c a ])

  unfoldable pub capped_meta :
      Dict ℕ (VerifiedCitation fl)
      → List ℕ
      → Dict ℕ (VerifiedCitation fl)
      → Dict ℕ (VerifiedCitation fl)
  capped_meta assess_map [] d = d
  capped_meta assess_map (c ∷ cs) d =
      capped_meta assess_map cs
        (elim (get assess_map c) [ none ↦ d | some a ↦ set_item d c (capped fl a) ])

  abbrev pub downgrade : Segment fl → Dict ℕ (VerifiedCitation fl) → String → Segment fl
  downgrade seg meta reason = record seg {
    citations = [];
    citation_meta = meta;
    downgraded = true;
    downgrade_reason = some reason;
  }

  unfoldable pub settle_conflict : Dict ℕ (VerifiedCitation fl) → Segment fl → Segment fl
  settle_conflict assess_map seg =
      if ltb (length seg.conflict_groups) 2
      then downgrade seg [] "conflict_groups_missing"
      else if not (all (group_ok assess_map) seg.conflict_groups)
      then downgrade seg assess_map "conflict_group_weak"
      else record seg { citation_meta = capped_meta assess_map seg.citations [] }

  -- `seg["citations"]` and each of them verified
  abbrev pub all_verified : Dict ℕ (VerifiedCitation fl) → List ℕ → Bool
  all_verified assess_map cs = not (is_empty cs) && all (is_verified assess_map) cs

  unfoldable pub settle_inference :
      VerifierThresholds fl → Dict ℕ (VerifiedCitation fl) → Segment fl → Segment fl
  settle_inference t assess_map seg =
      if not t.inference_judge_enabled
      then downgrade seg [] "judge_not_enabled"
      else if not (all_verified assess_map seg.citations)
      then downgrade seg assess_map "tier2_chunk_weak"
      else record seg { citation_meta = restrict assess_map seg.citations []; pending_judge = true }

  unfoldable pub settle_direct : Dict ℕ (VerifiedCitation fl) → Segment fl → Segment fl
  settle_direct assess_map seg =
      let kept = keep (is_verified assess_map) seg.citations in
      record seg { citations = kept; citation_meta = restrict assess_map kept [] }

  -- The body of the loop over the segments.
  unfoldable pub settle :
      VerifierThresholds fl → Dict ℕ (VerifiedCitation fl) → Segment fl → Segment fl
  settle t assess_map seg =
      if seg.support_type == "conflict"
      then settle_conflict assess_map seg
      else if seg.support_type == "inference"
      then settle_inference t assess_map seg
      else if seg.support_type == "synthesis" && not (all_verified assess_map seg.citations)
      then downgrade seg assess_map "synthesis_chunk_weak"
      else settle_direct assess_map seg

  unfoldable pub settle_all :
      VerifierThresholds fl
      → Dict ℕ (Dict ℕ (VerifiedCitation fl))
      → List (Segment fl)
      → List (Segment fl)
  settle_all t d [] = []
  settle_all t d (seg ∷ segs) = settle t (or_else (get d seg.index) []) seg ∷ settle_all t d segs

  abbrev pub sum_similarity : Float → List (VerifiedCitation fl) → Float
  sum_similarity acc [] = acc
  sum_similarity acc (a ∷ more) = sum_similarity (plus acc a.similarity) more

  abbrev pub average : List (VerifiedCitation fl) → Float
  average [] = of_ℕ 0
  average (a ∷ more) = over (sum_similarity (of_ℕ 0) (a ∷ more)) (of_ℕ (length (a ∷ more)))

  -- The embeddings, where there is a text to embed.
  abbrev pub embed_texts : (List String → List (List Float)) → List String → List (List Float)
  embed_texts embed_batch [] = []
  embed_texts embed_batch (t ∷ ts) = embed_batch (t ∷ ts)

  unfoldable pub tier2_classify :
      (List String → List (List Float))
      → List (Segment fl)
      → List (RetrievedChunk fl)
      → VerifierThresholds fl
      → Option (List (Segment fl) × List (VerifiedCitation fl) × Float)
  tier2_classify embed_batch segments contexts t =
      let (pairs, interned) =
        collect_pairs t contexts segments (record { unique_texts = []; text_to_pos = [] }) in
      elim (assess_pairs t (embed_texts embed_batch interned.unique_texts) pairs) [
        | none ↦ none
        | some assessments ↦
            some
              (settle_all t (by_segment assessments []) segments, assessments, average assessments)
      ]
