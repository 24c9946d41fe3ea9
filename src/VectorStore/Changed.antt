-- ===== src/VectorStore/Changed.antt =====
-- What `upsert_chunks` and `set_payload` of rag_core/clients/in_memory.py make of a collection, when
-- they do not raise.
use domainrag_ops.Prelude.{
  String, ◌≡◌, none, some, List, [], ◌∷◌, arith, string_eq, All, Option-cases, inl, inr,
}
use domainrag_ops.Prelude.Float.{FloatOps}
use domainrag_ops.Prelude.Result.{ok}
use domainrag_ops.Dict.{
  Dict, get, set_item, values, get-set_item_self, All-values-set_item, All-values_get,
}
use domainrag_ops.Payload.{Value}
use domainrag_ops.VectorStore.{
  Point, Collection, Store, upsert_chunks, put_points, set_payload, set_payloads, update_payload,
}

-- The points of a domain's collection.
unfoldable pub points_in : (fl : FloatOps) → String → Store fl → List (Point fl)
points_in fl domain_id s = elim (get s domain_id) [ none ↦ [] | some coll ↦ values coll.points ]

module _ (fl : FloatOps) (domain_id : String) (s s' : Store fl) where
  -- The store has a collection, and the call changed nothing but its points.
  pub record Rewrites (f : Dict String (Point fl) → Dict String (Point fl)) : Type 0 where
    pub coll : Collection fl
    pub stored : get s domain_id ≡ some coll
    pub now : s' ≡ set_item s domain_id (record coll { points = f coll.points })

  pub upsert_chunks-Rewrites :
      (points : List (Point fl))
      → upsert_chunks fl domain_id points s ≡ ok s'
      → Rewrites (put_points fl points)
  unfolding upsert_chunks
  upsert_chunks-Rewrites points h = elim (Option-cases (get s domain_id)) [
    | inl e ↦ absurd (ground (arith, e, h))
    | inr (coll, e) ↦ record { coll = coll; stored = e; now = ground (arith, e, h) }
  ]

  pub set_payload-Rewrites :
      (cids : List String) (payload : Dict String Value)
      → set_payload fl domain_id cids payload s ≡ ok s'
      → Rewrites (set_payloads fl cids payload)
  unfolding set_payload
  set_payload-Rewrites cids payload h = elim (Option-cases (get s domain_id)) [
    | inl e ↦ absurd (ground (arith, e, h))
    | inr (coll, e) ↦ record { coll = coll; stored = e; now = ground (arith, e, h) }
  ]

  -- The points before and after.
  pub points_in-Rewrites :
      (f : Dict String (Point fl) → Dict String (Point fl)) (r : Rewrites f)
      → (points_in fl domain_id s ≡ values r.coll.points)
        × (points_in fl domain_id s' ≡ values (f r.coll.points))
  unfolding points_in
  points_in-Rewrites f r = ground (
    arith,
    r.stored,
    r.now,
    get-set_item_self s domain_id (record r.coll { points = f r.coll.points }),
  )

module _ (fl : FloatOps) (P : Point fl → Type 0) where
  pub put_points-All :
      (points : List (Point fl)) (d : Dict String (Point fl))
      → All P points
      → All P (values d)
      → All P (values (put_points fl points d))
  unfolding put_points
  put_points-All [] d h i = i
  put_points-All (p ∷ ps) d h i =
      put_points-All ps (set_item d p.id p) h.1 (All-values-set_item P d p.id p i h.0)

  pub set_payloads-All :
      (cids : List String) (payload : Dict String Value) (d : Dict String (Point fl))
      → ((p : Point fl) → P p → P (record p { payload = update_payload fl payload p.payload }))
      → All P (values d)
      → All P (values (set_payloads fl cids payload d))
  unfolding set_payloads
  set_payloads-All [] payload d h i = i
  set_payloads-All (cid ∷ cids) payload d h i = elim (Option-cases (get d cid)) [
    | inl e ↦ rw e (set_payloads-All cids payload d h i)
    | inr (p, e) ↦ rw e (
        set_payloads-All cids payload _ h
          (All-values-set_item P d cid _ i (h p (All-values_get P d cid p i e))))
  ]
