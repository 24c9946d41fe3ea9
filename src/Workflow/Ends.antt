-- ===== src/Workflow/Ends.antt =====
-- Every run of the graph of `build_chat_structured_full` (rag_core/workflows/rag_graph.py) ends,
-- and what its nodes keep holds at its end.
use domainrag_ops.Prelude.{
  ℕ, zero, suc, ◌<◌, ◌≤◌, ◌≡◌, refl, sym, Bool, true, false, Option, none, some, List, [], ◌==◌,
  string_eq, arith, if◌then◌else◌, Bool-cases, inl, inr,
}
use domainrag_ops.Prelude.Float.{FloatOps}
use domainrag_ops.Workflow.{RagState}
use domainrag_ops.Workflow.Graph.{
  Node, tenant_resolver, load_tenant_config, check_input_pii, build_acl_filter, classify_query,
  model_router, query_rewrite, retrieve_context, gate_1, assessment, generate_answer,
  generate_ungrounded, parse_response, verify_tier1, detect_conflict_heuristic, verify_tier2,
  judge_inference, detect_unsupported, assemble_response, mask_response_pii, compute_confidence,
  gate_2, fallback, save_chat_log, end, next_node, is_end, prepend, run_from,
  check_input_pii_router, assessment_intent_router, gate_1_full_router, post_mask_grounding_router,
  gate_2_router,
}

-- The most nodes that may run from a node on.
abbrev pub steps_left : Node → ℕ
steps_left tenant_resolver = 22
steps_left load_tenant_config = 21
steps_left check_input_pii = 20
steps_left build_acl_filter = 19
steps_left classify_query = 18
steps_left model_router = 17
steps_left query_rewrite = 16
steps_left retrieve_context = 15
steps_left gate_1 = 14
steps_left generate_answer = 13
steps_left parse_response = 12
steps_left verify_tier1 = 11
steps_left detect_conflict_heuristic = 10
steps_left verify_tier2 = 9
steps_left judge_inference = 8
steps_left detect_unsupported = 7
steps_left assemble_response = 6
steps_left generate_ungrounded = 6
steps_left assessment = 6
steps_left mask_response_pii = 5
steps_left compute_confidence = 4
steps_left gate_2 = 3
steps_left fallback = 2
steps_left save_chat_log = 1
steps_left end = 0

abbrev pub is_log : Node → Bool
is_log save_chat_log = true
is_log _ = false

module _ (fl : FloatOps) where
  -- Where a node is not the end, the next one has fewer steps left, and it is the end only after
  -- the chat log.
  abbrev pub Advances : Node → RagState fl → Type 0
  Advances n s =
      (steps_left (next_node fl n s) < steps_left n) × (is_log n ≡ is_end fl (next_node fl n s))

  branch :
      (b : Bool) (m k : Node) (n : ℕ)
      → is_end fl m ≡ false
      → is_end fl k ≡ false
      → steps_left m < n
      → steps_left k < n
      → (steps_left (if b then m else k) < n) × (is_end fl (if b then m else k) ≡ false)
  branch true m k n h h' l l' = (l, h)
  branch false m k n h h' l l' = (l', h')

  pub advances : (n : Node) (s : RagState fl) → is_end fl n ≡ false → Advances n s
  unfolding next_node check_input_pii_router assessment_intent_router gate_1_full_router
      post_mask_grounding_router gate_2_router
  advances tenant_resolver s h = (omega arith, refl)
  advances load_tenant_config s h = (omega arith, refl)
  advances check_input_pii s h =
      let b =
        branch s.input_blocked fallback build_acl_filter 20 refl refl (omega arith) (omega arith) in
      (b.0, sym b.1)
  advances build_acl_filter s h = (omega arith, refl)
  advances classify_query s h = (omega arith, refl)
  advances model_router s h =
      let b = branch _ assessment query_rewrite 17 refl refl (omega arith) (omega arith) in
      (b.0, sym b.1)
  advances query_rewrite s h = (omega arith, refl)
  advances retrieve_context s h = (omega arith, refl)
  advances gate_1 s h =
      let b =
        branch s.gate1_passed generate_answer generate_ungrounded 14 refl refl (omega arith)
          (omega arith) in
      (b.0, sym b.1)
  advances generate_answer s h = (omega arith, refl)
  advances parse_response s h = (omega arith, refl)
  advances verify_tier1 s h = (omega arith, refl)
  advances detect_conflict_heuristic s h = (omega arith, refl)
  advances verify_tier2 s h = (omega arith, refl)
  advances judge_inference s h = (omega arith, refl)
  advances detect_unsupported s h = (omega arith, refl)
  advances assemble_response s h = (omega arith, refl)
  advances generate_ungrounded s h = (omega arith, refl)
  advances assessment s h = (omega arith, refl)
  advances mask_response_pii s h =
      let b =
        branch (s.grounding == "grounded") compute_confidence save_chat_log 5 refl refl
          (omega arith) (omega arith) in
      (b.0, sym b.1)
  advances compute_confidence s h = (omega arith, refl)
  advances gate_2 s h =
      let b =
        branch s.gate2_passed save_chat_log fallback 3 refl refl (omega arith) (omega arith) in
      (b.0, sym b.1)
  advances fallback s h = (omega arith, refl)
  advances save_chat_log s h = (omega arith, refl)
  advances end s h = absurd (ground (arith, h))

  run_from-end :
      (effect : Node → RagState fl → RagState fl) (fuel : ℕ) (n : Node) (s : RagState fl)
      → is_end fl n ≡ true
      → run_from fl effect fuel n s ≡ some ([], s)
  unfolding run_from
  run_from-end effect zero n s e = rw e refl
  run_from-end effect (suc fuel) n s e = rw e refl

  -- The property holds of the final state; there is one.
  abbrev pub Finally : (RagState fl → Type 0) → Option (List Node × RagState fl) → Type 0
  Finally P none = ⊥
  Finally P (some (nodes, last)) = P last

  pub Finally-map :
      (P Q : RagState fl → Type 0)
      → ((last : RagState fl) → P last → Q last)
      → (r : Option (List Node × RagState fl)) → Finally P r
      → Finally Q r
  Finally-map P Q f none h = h
  Finally-map P Q f (some (nodes, last)) h = f last h

  prepend-Finally :
      (P : RagState fl → Type 0) (n : Node) (r : Option (List Node × RagState fl))
      → Finally P r
      → Finally P (prepend fl n r)
  prepend-Finally P n none h = h
  prepend-Finally P n (some (nodes, last)) h = h

  only_end : (I : Node → Type 0) (n : Node) → is_end fl n ≡ true → I n → I end
  only_end I end e i = i
  only_end I _ e i = absurd (ground (arith, e))

  -- What every node takes from itself to the next holds at the end.
  pub run_from-Finally :
      (effect : Node → RagState fl → RagState fl) (I : Node → RagState fl → Type 0)
      → ((n : Node) (s : RagState fl)
          → is_end fl n ≡ false
          → I n s
          → I (next_node fl n (effect n s)) (effect n s))
      → (fuel : ℕ) (n : Node) (s : RagState fl) → steps_left n ≤ fuel
      → I n s
      → Finally (I end) (run_from fl effect fuel n s)
  unfolding run_from
  run_from-Finally effect I step zero n s l i = elim (Bool-cases (is_end fl n)) [
    | inl e ↦ rw (run_from-end effect zero n s e) (only_end (λ m. I m s) n e i)
    | inr h ↦ absurd (omega (arith, (advances n s h).0, l))
  ]
  run_from-Finally effect I step (suc fuel) n s l i = elim (Bool-cases (is_end fl n)) [
    | inl e ↦ rw (run_from-end effect (suc fuel) n s e) (only_end (λ m. I m s) n e i)
    | inr h ↦
        let t = effect n s in
        rw h (
          prepend-Finally (I end) n (run_from fl effect fuel (next_node fl n t) t) (
            run_from-Finally effect I step fuel (next_node fl n t) t
              (omega (arith, (advances n t h).0, l)) (step n s h i)))
  ]
