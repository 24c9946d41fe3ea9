-- ===== src/Retrieval/Contexts.antt =====
-- The contexts of an answer come from the points that the user may read
-- (rag_core/services/retrieval_service.py).
use mathlib.Core.List.{Mem}
use domainrag_ops.Prelude.{
  ℕ, ◌≤◌, String, ◌≡◌, refl, subst, ◌∙◌, true, Option, none, some, List, [], ◌∷◌, map, arith, All,
  All-map, All-of_map, All-take, All-sort_by, length, length-take_le, take, ◌⊎◌, inl, inr,
  Bool-cases, sort_by, string_eq,
}
use domainrag_ops.Prelude.Float.{FloatOps}
use domainrag_ops.Prelude.Result.{Result, ok, Result-cases}
use domainrag_ops.Dict.{Dict, get, values}
use domainrag_ops.Payload.{Value}
use domainrag_ops.Acl.Filter.{Filter, payload_match}
use domainrag_ops.VectorStore.{Fault, Hit, Point, Collection, Store, to_hit, hybrid_query}
use domainrag_ops.VectorStore.Query.{IsAnswer, hybrid_query_sound}
use domainrag_ops.Retrieval.{
  RetrievedChunk, RetrievalConfig, RetrievalResult, Reranker, to_chunk, hits_to_retrieved_chunks,
  rerank_step, retrieve, rescored, better, rerank,
}

module _ (fl : FloatOps) where
  abbrev SameChunk : RetrievedChunk fl → RetrievedChunk fl → Type 0
  SameChunk r c = (r.chunk_id ≡ c.chunk_id) × (r.payload ≡ c.payload)

  -- The chunk is one of the candidates, but for its scores.
  abbrev pub IsOneOf : List (RetrievedChunk fl) → RetrievedChunk fl → Type 0
  IsOneOf [] r = ⊥
  IsOneOf (c ∷ cs) r = SameChunk r c ⊎ IsOneOf cs r

  All-in :
      (cs ds : List (RetrievedChunk fl))
      → ((r : RetrievedChunk fl) → IsOneOf cs r → IsOneOf ds r)
      → All (IsOneOf ds) cs
  All-in [] ds f = tt
  All-in (c ∷ cs) ds f = (f c (inl (refl, refl)), All-in cs ds (λ r h. f r (inr h)))

  rescored_in :
      (q : String) (cs ds : List (RetrievedChunk fl))
      → ((r : RetrievedChunk fl) → IsOneOf cs r → IsOneOf ds r)
      → All (λ c. IsOneOf ds (rescored fl q c)) cs
  rescored_in q [] ds f = tt
  rescored_in q (c ∷ cs) ds f =
      (f (rescored fl q c) (inl (refl, refl)), rescored_in q cs ds (λ r h. f r (inr h)))

  -- What the `Reranker` protocol says: the answer holds candidates with new scores.
  abbrev pub Selects : Reranker fl → Type 0
  Selects rr = (q : String) (cs : List (RetrievedChunk fl)) (k : ℕ) → All (IsOneOf cs) (rr q cs k).1

  pub rerank-Selects : Selects (rerank fl)
  unfolding rerank
  rerank-Selects q cs k = All-take (IsOneOf cs) k (sort_by (better fl) (map (rescored fl q) cs)) (
      All-sort_by (better fl) (IsOneOf cs) (map (rescored fl q) cs)
        (All-of_map (IsOneOf cs) (rescored fl q) cs (rescored_in q cs cs (λ r m. m))))

  -- What holds of the only reranker there is.
  pub some-Selects : (f : Reranker fl) → Selects f → (g : Reranker fl) → some f ≡ some g → Selects g
  some-Selects f h g e = let same : f ≡ g = ground (arith, e) in subst Selects same h

  rerank_step-Selects :
      (rr : Option (Reranker fl)) (repr : Value → String)
      → ((f : Reranker fl) → rr ≡ some f → Selects f)
      → (cfg : RetrievalConfig) (q : String) (cs : List (RetrievedChunk fl))
      → All (IsOneOf cs) (rerank_step fl repr rr cfg q cs).1
  unfolding rerank_step
  rerank_step-Selects none repr h cfg q cs =
      All-take (IsOneOf cs) cfg.rerank_top_k cs (All-in cs cs (λ r m. m))
  rerank_step-Selects (some f) repr h cfg q cs = elim (Bool-cases cfg.reranker_bypass) [
    | inl on ↦ rw on (All-take (IsOneOf cs) cfg.rerank_top_k cs (All-in cs cs (λ r m. m)))
    | inr off ↦ rw off (h f refl q cs cfg.rerank_top_k)
  ]

module _ (fl : FloatOps) (repr : Value → String)
    (embed_query : String → List fl.Float × Dict ℕ fl.Float) (rr : Option (Reranker fl)) where
  -- `retrieve` over the in-memory store.
  abbrev pub retrieve_from :
      Store fl
      → String
      → String
      → Option Filter
      → RetrievalConfig
      → Result Fault (RetrievalResult fl)
  retrieve_from s domain_id question acl cfg =
      retrieve fl repr embed_query (λ d dense sparse a k. hybrid_query fl d dense sparse a k s) rr
        domain_id question acl cfg

  -- The chunk is a point of the collection whose payload passes the filter.
  abbrev pub IsAllowed : Collection fl → Option Filter → RetrievedChunk fl → Type 0
  IsAllowed coll acl r =
      (p : Point fl) × Mem p (values coll.points)
      × (r.chunk_id ≡ p.id)
      × (r.payload ≡ p.payload)
      × (payload_match p.payload acl ≡ some true)

  hits-IsAllowed :
      (dense : List fl.Float) (sparse : Dict ℕ fl.Float) (acl : Option Filter)
      (coll : Collection fl) (hits : List (Hit fl))
      → All
          (λ h.
            (sp : fl.Float × Point fl) × (h ≡ to_hit fl sp) × IsAnswer fl dense sparse acl coll sp)
          hits
      → All (IsAllowed coll acl) (hits_to_retrieved_chunks fl repr hits)
  unfolding to_chunk
  hits-IsAllowed dense sparse acl coll [] h = tt
  hits-IsAllowed dense sparse acl coll (x ∷ xs) ((sp, e, a), h) =
      ((sp.1, a.stored, rw e refl, rw e refl, a.matched), hits-IsAllowed dense sparse acl coll xs h)

  among-IsAllowed :
      (coll : Collection fl) (acl : Option Filter) (cs : List (RetrievedChunk fl))
      (r : RetrievedChunk fl)
      → All (IsAllowed coll acl) cs
      → IsOneOf fl cs r
      → IsAllowed coll acl r
  among-IsAllowed coll acl [] r h o = absurd o
  among-IsAllowed coll acl (c ∷ cs) r ((p, m, e, f, ok_p), h) (inl (e', f')) =
      (p, m, e' ∙ e, f' ∙ f, ok_p)
  among-IsAllowed coll acl (c ∷ cs) r (_, h) (inr o) = among-IsAllowed coll acl cs r h o

  -- Where a reranker answers with candidates, every context of a retrieval is a point of the queried
  -- domain's collection whose payload passes the filter, and there are at most `context_top_k`.
  pub retrieve_sound :
      ((f : Reranker fl) → rr ≡ some f → Selects fl f)
      → (s : Store fl) (domain_id question : String) (acl : Option Filter) (cfg : RetrievalConfig)
        (r : RetrievalResult fl)
      → retrieve_from s domain_id question acl cfg ≡ ok r
      → (coll : Collection fl) × (get s domain_id ≡ some coll)
        × All (IsAllowed coll acl) r.contexts
        × (length r.contexts ≤ cfg.context_top_k)
  unfolding retrieve
  retrieve_sound sel s domain_id question acl cfg r h =
      let (dense, sparse) = embed_query question in
      elim (Result-cases (hybrid_query fl domain_id dense sparse acl cfg.fused_top_k s)) [
        | inr (e, failed) ↦ absurd (ground (arith, failed))
        | inl (hits, found) ↦
            let (coll, there, answers, _) =
              hybrid_query_sound fl dense sparse acl domain_id cfg.fused_top_k s hits found in
            let cs = hits_to_retrieved_chunks fl repr hits in
            let ranked = (rerank_step fl repr rr cfg question cs).1 in
            let shape : r.contexts ≡ take cfg.context_top_k ranked = ground (arith, found) in
            (
              coll,
              there,
              rw shape (
                  All-take (IsAllowed coll acl) cfg.context_top_k ranked (
                    All-map
                      (λ c o.
                        among-IsAllowed coll acl cs c
                          (hits-IsAllowed dense sparse acl coll hits answers) o)
                      ranked (rerank_step-Selects fl rr repr sel cfg question cs))),
              rw shape (length-take_le cfg.context_top_k ranked),
            )
      ]
