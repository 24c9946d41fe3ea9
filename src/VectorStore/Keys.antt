-- ===== src/VectorStore/Keys.antt =====
-- The points of a collection stand under their own ids, each id once
-- (rag_core/clients/in_memory.py).
use domainrag_ops.Prelude.{
  String, ◌≡◌, refl, ◌∙◌, Option, none, some, List, [], ◌∷◌, arith, eq_iff, string_eq, All, All-map,
  ◌==◌, Bool-cases, inl, inr, Option-cases, subst,
}
use domainrag_ops.Prelude.Float.{FloatOps}
use domainrag_ops.Dict.{
  Dict, get, set_item, pop, values, get-set_item, get-pop, All-values-set_item, All-values-pop,
  All-values_get,
}
use domainrag_ops.Payload.{Value}
use domainrag_ops.VectorStore.{
  Point, Collection, Store, create_collection, upsert_chunks, set_payload, delete_collection,
  delete_points, put_points, pop_points, update_point, update_payload, set_payloads,
}
use domainrag_ops.VectorStore.Isolation.{
  Call, create, upsert, update, drop_collection, delete, perform, after, run,
}

module _ (fl : FloatOps) where
  abbrev pub WellKeyed : Dict String (Point fl) → Type 0
  WellKeyed [] = Unit
  WellKeyed ((k, p) ∷ d) = (k ≡ p.id) × (get d k ≡ none) × WellKeyed d

  pub WellKeyed-set_item :
      (d : Dict String (Point fl)) (k : String) (p : Point fl)
      → WellKeyed d
      → k ≡ p.id
      → WellKeyed (set_item d k p)
  unfolding set_item get
  WellKeyed-set_item [] k p h e = (e, refl, tt)
  WellKeyed-set_item ((j, q) ∷ d) k p h e = elim (Bool-cases (j == k)) [
    | inl same ↦ rw same ((eq_iff j k).0 same ∙ e, h.1, h.2)
    | inr other ↦ rw other (
      h.0,
      ground (arith, other, get-set_item d k j p, eq_iff k j, eq_iff j k, h.1),
      WellKeyed-set_item d k p h.2 e,
    )
  ]

  pub WellKeyed-pop : (d : Dict String (Point fl)) (k : String) → WellKeyed d → WellKeyed (pop d k)
  unfolding pop
  WellKeyed-pop [] k h = tt
  WellKeyed-pop ((j, q) ∷ d) k h = elim (Bool-cases (j == k)) [
    | inl same ↦ rw same (WellKeyed-pop d k h.2)
    | inr other ↦ rw other (h.0, ground (arith, get-pop d k j, h.1), WellKeyed-pop d k h.2)
  ]

  -- A point that is stored is found under its id.
  pub get-id :
      (d : Dict String (Point fl)) → WellKeyed d → All (λ p. get d p.id ≡ some p) (values d)
  unfolding values get
  get-id [] h = tt
  get-id ((k, p) ∷ d) h = (
    ground (arith, eq_iff k p.id, h.0),
    All-map (λ q e. ground (arith, e, h.1, eq_iff k q.id)) (values d) (get-id d h.2),
  )

  -- The key under which a point is found is its id.
  pub id-get :
      (d : Dict String (Point fl)) (k : String) (p : Point fl)
      → WellKeyed d
      → get d k ≡ some p
      → k ≡ p.id
  unfolding get
  id-get [] k p h e = absurd (ground (arith, e))
  id-get ((j, q) ∷ d) k p h e = elim (Bool-cases (j == k)) [
    | inl same ↦ ground (arith, same, e, eq_iff j k, h.0)
    | inr other ↦ id-get d k p h.2 (ground (arith, other, e))
  ]

  put_points-WellKeyed :
      (ps : List (Point fl)) (d : Dict String (Point fl))
      → WellKeyed d
      → WellKeyed (put_points fl ps d)
  unfolding put_points
  put_points-WellKeyed [] d h = h
  put_points-WellKeyed (p ∷ ps) d h =
      put_points-WellKeyed ps (set_item d p.id p) (WellKeyed-set_item d p.id p h refl)

  pop_points-WellKeyed :
      (cids : List String) (d : Dict String (Point fl))
      → WellKeyed d
      → WellKeyed (pop_points fl cids d)
  unfolding pop_points
  pop_points-WellKeyed [] d h = h
  pop_points-WellKeyed (cid ∷ cids) d h =
      pop_points-WellKeyed cids (pop d cid) (WellKeyed-pop d cid h)

  module _ (update : Dict String Value) where
    update_point-WellKeyed :
        (cid : String) (d : Dict String (Point fl))
        → WellKeyed d
        → (found : Option (Point fl)) → get d cid ≡ found
        → WellKeyed (update_point fl cid update d found)
    update_point-WellKeyed cid d h none e = h
    update_point-WellKeyed cid d h (some q) e =
        WellKeyed-set_item d cid (record q { payload = update_payload fl update q.payload }) h
          (id-get d cid q h e)

    pub set_payloads-WellKeyed :
        (cids : List String) (d : Dict String (Point fl))
        → WellKeyed d
        → WellKeyed (set_payloads fl cids update d)
    unfolding set_payloads
    set_payloads-WellKeyed [] d h = h
    set_payloads-WellKeyed (cid ∷ cids) d h =
        set_payloads-WellKeyed cids (update_point fl cid update d (get d cid))
          (update_point-WellKeyed cid d h (get d cid) refl)

  -- Every collection of the store is well keyed.
  abbrev pub IsKeyed : Store fl → Type 0
  IsKeyed s = All (λ c. WellKeyed c.points) (values s)

  set_item-IsKeyed :
      (s : Store fl) (d : String) (c : Collection fl)
      → IsKeyed s
      → WellKeyed c.points
      → IsKeyed (set_item s d c)
  set_item-IsKeyed s d c h k = All-values-set_item (λ c. WellKeyed c.points) s d c h k

  get-IsKeyed :
      (s : Store fl) (d : String) (c : Collection fl)
      → IsKeyed s
      → get s d ≡ some c
      → WellKeyed c.points
  get-IsKeyed s d c h e = All-values_get (λ c. WellKeyed c.points) s d c h e

  perform-IsKeyed : (c : Call fl) (s : Store fl) → IsKeyed s → IsKeyed (after fl s (perform fl c s))
  unfolding perform create_collection upsert_chunks set_payload delete_collection delete_points
  perform-IsKeyed (create d dim sparse) s h = elim (Option-cases (get s d)) [
    | inl e ↦
        let new : Collection fl = record { dense_dim = dim; with_sparse = sparse; points = [] } in
        let eq : set_item s d new ≡ after fl s (perform fl (create d dim sparse) s) =
          ground (arith, e) in
        subst IsKeyed eq (set_item-IsKeyed s d new h tt)
    | inr (c, e) ↦
        let eq : s ≡ after fl s (perform fl (create d dim sparse) s) = ground (arith, e) in
        subst IsKeyed eq h
  ]
  perform-IsKeyed (upsert d points) s h = elim (Option-cases (get s d)) [
    | inl e ↦
        let eq : s ≡ after fl s (perform fl (upsert d points) s) = ground (arith, e) in
        subst IsKeyed eq h
    | inr (c, e) ↦
        let new : Collection fl = record c { points = put_points fl points c.points } in
        let eq : set_item s d new ≡ after fl s (perform fl (upsert d points) s) =
          ground (arith, e) in
        subst IsKeyed eq (
          set_item-IsKeyed s d new h (put_points-WellKeyed points c.points (get-IsKeyed s d c h e)))
  ]
  perform-IsKeyed (update d ids payload) s h = elim (Option-cases (get s d)) [
    | inl e ↦
        let eq : s ≡ after fl s (perform fl (update d ids payload) s) = ground (arith, e) in
        subst IsKeyed eq h
    | inr (c, e) ↦
        let new : Collection fl = record c { points = set_payloads fl ids payload c.points } in
        let eq : set_item s d new ≡ after fl s (perform fl (update d ids payload) s) =
          ground (arith, e) in
        subst IsKeyed eq (
          set_item-IsKeyed s d new h
            (set_payloads-WellKeyed payload ids c.points (get-IsKeyed s d c h e)))
  ]
  perform-IsKeyed (drop_collection d) s h = All-values-pop (λ c. WellKeyed c.points) s d h
  perform-IsKeyed (delete d ids) s h = elim (Option-cases (get s d)) [
    | inl e ↦
        let eq : s ≡ after fl s (perform fl (delete d ids) s) = ground (arith, e) in
        subst IsKeyed eq h
    | inr (c, e) ↦
        let new : Collection fl = record c { points = pop_points fl ids c.points } in
        let eq : set_item s d new ≡ after fl s (perform fl (delete d ids) s) = ground (arith, e) in
        subst IsKeyed eq
          (set_item-IsKeyed s d new h (pop_points-WellKeyed ids c.points (get-IsKeyed s d c h e)))
  ]

  -- Whatever calls are made, each point stands under its own id, each id once.
  pub run-IsKeyed : (cs : List (Call fl)) (s : Store fl) → IsKeyed s → IsKeyed (run fl cs s)
  unfolding run
  run-IsKeyed [] s h = h
  run-IsKeyed (c ∷ cs) s h = run-IsKeyed cs (after fl s (perform fl c s)) (perform-IsKeyed c s h)
