-- ===== src/Verifier/Gate.antt =====
-- Gate 2 of an answer (rag_core/services/verifier_service.py).
use domainrag_ops.Prelude.{
  ℕ, String, ◌≡◌, not, ◌&&◌, Option, some, List, string_eq, nat_eq, arith, count_if, leb, is_some,
}
use domainrag_ops.Prelude.Float.{FloatOps}
use domainrag_ops.Retrieval.{RetrievedChunk}
use domainrag_ops.Verifier.{RawSegment, VerifierThresholds}
use domainrag_ops.Verifier.Answer.{Citation, VerificationResult, evaluate_gate_2, is_counted, run}
use domainrag_ops.Verifier.Cited.{run-ok}

module _ (fl : FloatOps) where
  open fl use {Float, of_ℕ, lt, le}

  gate_lem :
      (cs : List (Citation fl)) (ratio confidence : Float) (t : VerifierThresholds fl)
      → (evaluate_gate_2 fl cs ratio confidence t).0 ≡ (
          leb t.min_verified_count (count_if (is_counted fl) cs)
          && not (lt t.max_unsupported_ratio ratio)
          && not (lt confidence t.min_confidence))
  unfolding evaluate_gate_2
  gate_lem cs ratio confidence t = ground arith

  gate_reason :
      (cs : List (Citation fl)) (ratio confidence : Float) (t : VerifierThresholds fl)
      → is_some (evaluate_gate_2 fl cs ratio confidence t).1
        ≡ not (evaluate_gate_2 fl cs ratio confidence t).0
  unfolding evaluate_gate_2
  gate_reason cs ratio confidence t = ground arith

  -- An answer of `run` passes gate 2 exactly if it has enough verified citations, not too many
  -- unsupported segments and enough confidence; there is a reason exactly if it does not pass.
  pub run_gate :
      (embed_batch : List String → List (List Float)) (fresh : ℕ → String) (raws : List RawSegment)
      (contexts : List (RetrievedChunk fl)) (domain_id : String) (t : VerifierThresholds fl)
      (limitations : Option String) (r : VerificationResult fl)
      → run fl embed_batch fresh raws contexts domain_id t limitations ≡ some r
      → (r.gate2_passed ≡ (
          leb t.min_verified_count (count_if (is_counted fl) r.citations)
          && not (lt t.max_unsupported_ratio r.unsupported_ratio)
          && not (lt r.confidence t.min_confidence)))
        × (is_some r.gate2_reason ≡ not r.gate2_passed)
  run_gate embed_batch fresh raws contexts domain_id t limitations r h =
      let (out, _, shape) = run-ok fl contexts embed_batch fresh raws domain_id t limitations r h in
      (rw shape (gate_lem _ _ _ t), rw shape (gate_reason _ _ _ t))
