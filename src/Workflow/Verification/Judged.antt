-- ===== src/Workflow/Verification/Judged.antt =====
-- What the judge of inferences does to the segments (`judge_inference_node` of
-- rag_core/workflows/nodes.py).
use domainrag_ops.Prelude.{
  ℕ, ◌+◌, String, ◌≡◌, refl, Bool, true, false, not, ◌&&◌, Option, some, List, [], ◌∷◌, map, length,
  length-append, count_if, All, arith, if◌then◌else◌,
}
use domainrag_ops.Prelude.Float.{FloatOps}
use domainrag_ops.Retrieval.{RetrievedChunk}
use domainrag_ops.Verifier.{Segment, apply_judge_result}
use domainrag_ops.Workflow.Verification.{
  VerifyState, Judge, JudgeEntry, judge_segments, judge_passes, judge_inference_node, cited_chunks,
  final_contexts_as_chunks, judge_entry,
}

module _ (fl : FloatOps) where
  abbrev pub is_pending : Segment fl → Bool
  is_pending seg = seg.pending_judge

  abbrev pub citations_of : Segment fl → List ℕ
  citations_of seg = seg.citations

  -- The judge takes the claim of the segment.
  abbrev pub accepts : Judge fl → List (RetrievedChunk fl) → Segment fl → Bool
  accepts j contexts seg =
      judge_passes fl j.min_confidence
        (j.judge seg.text (cited_chunks fl contexts seg.citations) seg.inference_chain)

  abbrev pub kept_citations : Judge fl → List (RetrievedChunk fl) → Segment fl → List ℕ
  kept_citations j contexts seg =
      if seg.pending_judge && not (accepts j contexts seg) then [] else seg.citations

  abbrev pub Settled : Segment fl → Type 0
  Settled seg = seg.pending_judge ≡ false

  applied :
      (seg : Segment fl) (passes : Bool) (reasoning caveat : Option String)
      → ((apply_judge_result fl seg passes reasoning caveat).pending_judge ≡ false)
        × ((apply_judge_result fl seg passes reasoning caveat).citations
            ≡ (if not passes then [] else seg.citations))
  unfolding apply_judge_result
  applied seg true reasoning caveat = (refl, refl)
  applied seg false reasoning caveat = (refl, refl)

  abbrev round_of :
      Bool
      → Segment fl
      → Segment fl
      → JudgeEntry fl
      → List (Segment fl)
      → List (JudgeEntry fl)
      → List (Segment fl) × List (JudgeEntry fl)
  round_of pending seg new entry rest entries =
      if pending then (new ∷ rest, entry ∷ entries) else (seg ∷ rest, entries)

  -- One round, where the segment is pending or not.
  round :
      (pending passes : Bool) (seg new : Segment fl) (entry : JudgeEntry fl)
      (rest : List (Segment fl)) (entries : List (JudgeEntry fl)) (more : List (List ℕ)) (n : ℕ)
      → seg.pending_judge ≡ pending
      → (new.pending_judge ≡ false) × (new.citations ≡ (if not passes then [] else seg.citations))
      → All Settled rest × (map citations_of rest ≡ more) × (length entries ≡ n)
      → All Settled (round_of pending seg new entry rest entries).0
        × (map citations_of (round_of pending seg new entry rest entries).0
            ≡ ((if pending && not passes then [] else seg.citations) ∷ more))
        × (length (round_of pending seg new entry rest entries).1 ≡ (if pending then 1 else 0) + n)
  round true passes seg new entry rest entries more n e (settled, kept) (all, cited, counted) =
      ((settled, all), rw (kept, cited) refl, omega (arith, counted))
  round false passes seg new entry rest entries more n e a (all, cited, counted) =
      ((e, all), rw cited refl, omega (arith, counted))

  judge_segments_lem :
      (j : Judge fl) (contexts : List (RetrievedChunk fl)) (segs : List (Segment fl))
      → All Settled (judge_segments fl j contexts segs).0
        × (map citations_of (judge_segments fl j contexts segs).0
            ≡ map (kept_citations j contexts) segs)
        × (length (judge_segments fl j contexts segs).1 ≡ count_if is_pending segs)
  unfolding judge_segments
  judge_segments_lem j contexts [] = (tt, refl, refl)
  judge_segments_lem j contexts (seg ∷ segs) =
      let r = j.judge seg.text (cited_chunks fl contexts seg.citations) seg.inference_chain in
      round seg.pending_judge (judge_passes fl j.min_confidence r) seg
        (apply_judge_result fl seg (judge_passes fl j.min_confidence r) (some r.reasoning) r.caveat)
        (judge_entry fl seg r) (judge_segments fl j contexts segs).0
        (judge_segments fl j contexts segs).1 (map (kept_citations j contexts) segs)
        (count_if is_pending segs) refl
        (applied seg (judge_passes fl j.min_confidence r) (some r.reasoning) r.caveat)
        (judge_segments_lem j contexts segs)

  -- After judge_inference with a judge no segment is pending. A segment loses its citations exactly
  -- where it was pending and the judge's answer did not parse, called it invalid, or was less sure
  -- than min_confidence; the others keep theirs, in order. Each pending segment adds one entry to
  -- the results.
  pub judge_inference_node-Settled :
      (j : Judge fl) (segs : List (Segment fl)) (s : VerifyState fl)
      → All Settled (judge_inference_node fl (some j) (segs, s)).0
        × (map citations_of (judge_inference_node fl (some j) (segs, s)).0
            ≡ map (kept_citations j (final_contexts_as_chunks fl s)) segs)
        × (length (judge_inference_node fl (some j) (segs, s)).1.inference_judge_results
            ≡ length s.inference_judge_results + count_if is_pending segs)
  unfolding judge_inference_node
  judge_inference_node-Settled j segs s =
      let (settled, kept, counted) = judge_segments_lem j (final_contexts_as_chunks fl s) segs in
      (
        settled,
        kept,
        omega (
          arith,
          counted,
          length-append s.inference_judge_results
              (judge_segments fl j (final_contexts_as_chunks fl s) segs).1,
        ),
      )
