-- ===== src/Workflow/Raising.antt =====
-- Runs of the graph of `build_chat_structured_full` (rag_core/workflows/rag_graph.py) whose nodes may
-- raise, with the chat logs that `save_chat_log_node` (rag_core/workflows/nodes.py) writes.
use domainrag_ops.Prelude.{
  ℕ, zero, suc, String, ◌≡◌, Option, none, some, List, [], ◌∷◌, ◌++◌, if◌then◌else◌,
}
use domainrag_ops.Prelude.Float.{FloatOps}
use domainrag_ops.Prelude.Result.{Result, ok, err}
use domainrag_ops.Workflow.{RagState}
use domainrag_ops.Workflow.Graph.{Node, save_chat_log, next_node, is_end}
use domainrag_ops.Workflow.Logged.{ChatLogPayload, chat_log}

-- How a run ends: the nodes that were started, the logs that were written, and the final state or
-- the exception.
pub record Ending (fl : FloatOps) (E : Type 0) : Type 0 where
  pub nodes : List Node
  pub logs : List (ChatLogPayload fl)
  pub final : Result E (RagState fl)

module _ (fl : FloatOps) {E : Type 0} (effect : Node → RagState fl → Result E (RagState fl))
    (write : ChatLogPayload fl → Result E String) where
  abbrev written : RagState fl → Result E String → Result E (RagState fl × List (ChatLogPayload fl))
  written s (ok conversation_id) = ok (s, chat_log fl s ∷ [])
  written s (err e) = err e

  abbrev unwritten : Result E (RagState fl) → Result E (RagState fl × List (ChatLogPayload fl))
  unwritten (ok t) = ok (t, [])
  unwritten (err e) = err e

  -- What a node does: the state after it and the log it writes, or its exception.
  abbrev pub perform_node : Node → RagState fl → Result E (RagState fl × List (ChatLogPayload fl))
  perform_node save_chat_log s = written s (write (chat_log fl s))
  perform_node n s = unwritten (effect n s)

  abbrev after_node : Node → List (ChatLogPayload fl) → Option (Ending fl E) → Option (Ending fl E)
  after_node n logs none = none
  after_node n logs (some e) = some (record e { nodes = n ∷ e.nodes; logs = logs ++ e.logs })

  -- A run from a node; an exception of a node ends it. `none` where the fuel does not reach the end.
  unfoldable pub run_raising : ℕ → Node → RagState fl → Option (Ending fl E)
  run_raising zero n s =
      if is_end fl n then some (record { nodes = []; logs = []; final = ok s }) else none
  run_raising (suc fuel) n s =
      if is_end fl n
      then some (record { nodes = []; logs = []; final = ok s })
      else elim (perform_node n s) [
        | err e ↦ some (record { nodes = n ∷ []; logs = []; final = err e })
        | ok (t, logs) ↦ after_node n logs (run_raising fuel (next_node fl n t) t)
      ]

  -- A run that returns has written one log, that of its final state; a run that raises has written
  -- none, and the last node that was started raised its exception.
  abbrev pub HasLogged : List Node → List (ChatLogPayload fl) → Result E (RagState fl) → Type 0
  HasLogged nodes logs (ok last) = logs ≡ chat_log fl last ∷ []
  HasLogged nodes logs (err e) =
      (logs ≡ [])
      × (before : List Node) × (n : Node) × (s : RagState fl) × (nodes ≡ before ++ (n ∷ []))
      × (perform_node n s ≡ err e)

  abbrev pub EndsLogged : Option (Ending fl E) → Type 0
  EndsLogged none = ⊥
  EndsLogged (some e) = HasLogged e.nodes e.logs e.final
