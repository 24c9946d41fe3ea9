-- ===== src/VectorStore/Isolation.antt =====
-- The methods of `InMemoryVectorStore` as calls on one store: a call for one domain does not change
-- what another domain's queries return (rag_core/clients/in_memory.py).
use domainrag_ops.Prelude.{
  ℕ, String, ◌≡◌, ◌≢◌, refl, ◌∙◌, Bool, Option, List, [], ◌∷◌, arith, string_eq, All,
}
use domainrag_ops.Prelude.Float.{FloatOps}
use domainrag_ops.Prelude.Result.{Result, ok, err}
use domainrag_ops.Dict.{Dict, get, get-set_item_ne, get-pop_ne}
use domainrag_ops.Payload.{Value}
use domainrag_ops.Acl.Filter.{Filter}
use domainrag_ops.VectorStore.{
  Fault, Point, Store, hybrid_query, create_collection, upsert_chunks, set_payload,
  delete_collection, delete_points,
}

pub data Call (fl : FloatOps) : Type 0 where
  create : String → ℕ → Bool → Call fl
  upsert : String → List (Point fl) → Call fl
  update : String → List String → Dict String Value → Call fl
  drop_collection : String → Call fl
  delete : String → List String → Call fl

module _ (fl : FloatOps) where
  abbrev pub target : Call fl → String
  target (create d _ _) = d
  target (upsert d _) = d
  target (update d _ _) = d
  target (drop_collection d) = d
  target (delete d _) = d

  unfoldable pub perform : Call fl → Store fl → Result Fault (Store fl)
  perform (create d dim sparse) s = create_collection fl d dim sparse s
  perform (upsert d points) s = upsert_chunks fl d points s
  perform (update d ids payload) s = set_payload fl d ids payload s
  perform (drop_collection d) s = ok (delete_collection fl d s)
  perform (delete d ids) s = ok (delete_points fl d ids s)

  abbrev pub after : Store fl → Result Fault (Store fl) → Store fl
  after s (ok s') = s'
  after s (err _) = s

  -- A call that raises has changed nothing.
  unfoldable pub run : List (Call fl) → Store fl → Store fl
  run [] s = s
  run (c ∷ cs) s = run cs (after s (perform c s))

  perform_other :
      (c : Call fl) (s : Store fl) (domain : String)
      → target c ≢ domain
      → get (after s (perform c s)) domain ≡ get s domain
  unfolding perform create_collection upsert_chunks set_payload delete_collection delete_points
  perform_other (create d dim sparse) s domain h = grind (arith, get-set_item_ne)
  perform_other (upsert d points) s domain h = grind (arith, get-set_item_ne)
  perform_other (update d ids payload) s domain h = grind (arith, get-set_item_ne)
  perform_other (drop_collection d) s domain h = get-pop_ne s d domain h
  perform_other (delete d ids) s domain h = grind (arith, get-set_item_ne)

  pub run_other :
      (cs : List (Call fl)) (s : Store fl) (domain : String)
      → All (λ c. target c ≢ domain) cs
      → get (run cs s) domain ≡ get s domain
  unfolding run
  run_other [] s domain h = refl
  run_other (c ∷ cs) s domain h =
      run_other cs (after s (perform c s)) domain h.1 ∙ perform_other c s domain h.0

  -- Whatever calls are made for other domains, a query of this domain answers as before.
  pub hybrid_query-run :
      (cs : List (Call fl)) (s : Store fl) (domain : String) (dense : List fl.Float)
      (sparse : Dict ℕ fl.Float) (acl : Option Filter) (top_k : ℕ)
      → All (λ c. target c ≢ domain) cs
      → hybrid_query fl domain dense sparse acl top_k (run cs s)
        ≡ hybrid_query fl domain dense sparse acl top_k s
  unfolding hybrid_query
  hybrid_query-run cs s domain dense sparse acl top_k h = ground (arith, run_other cs s domain h)
