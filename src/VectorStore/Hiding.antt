-- ===== src/VectorStore/Hiding.antt =====
-- `set_payload` takes effect on what queries return: chunks whose approval is withdrawn, or that are
-- marked archived, are not returned (rag_core/clients/in_memory.py with the filter of
-- rag_core/services/acl_builder.py).
use domainrag_ops.Prelude.{
  ℕ, String, ◌≡◌, ◌≢◌, true, false, some, List, [], ◌∷◌, arith, eq_iff, string_eq, All, All-map,
  ◌==◌, Bool-cases, Option-cases, inl, inr, sym, subst, All-of_mem,
}
use domainrag_ops.Prelude.Float.{FloatOps}
use domainrag_ops.Prelude.Result.{ok}
use domainrag_ops.Dict.{Dict, get, set_item, values, get-set_item, get-set_item_self}
use domainrag_ops.Payload.{Value, Payload, lookup}
use domainrag_ops.Acl.Filter.{Filter, payload_match}
use domainrag_ops.Acl.Builder.{member}
use domainrag_ops.VectorStore.{
  Point, Collection, Store, Hit, hybrid_query, update_payload, update_point, set_payloads,
  set_payload,
}
use domainrag_ops.VectorStore.Keys.{WellKeyed, set_payloads-WellKeyed, get-id}
use domainrag_ops.VectorStore.Query.{hybrid_query_sound}

module _ (fl : FloatOps) (key : String) (v : Value) where
  abbrev Holds : Point fl → Type 0
  Holds p = lookup p.payload key ≡ v

  abbrev one : Dict String Value
  one = (key, v) ∷ []

  updated-Holds : (p : Point fl) → Holds (record p { payload = update_payload fl one p.payload })
  unfolding update_payload lookup
  updated-Holds p = rw (get-set_item_self p.payload key v)

  -- A point that Holds the value goes on holding it.
  set_payloads-keeps :
      (cids : List String) (d : Dict String (Point fl)) (j : String)
      → ((p : Point fl) → get d j ≡ some p → Holds p)
      → (p : Point fl) → get (set_payloads fl cids one d) j ≡ some p
      → Holds p
  unfolding set_payloads
  set_payloads-keeps [] d j h = h
  set_payloads-keeps (cid ∷ cids) d j h = elim (Option-cases (get d cid)) [
    | inl e ↦ rw e (set_payloads-keeps cids d j h)
    | inr (q, e) ↦ rw e (
        set_payloads-keeps cids
          (set_item d cid (record q { payload = update_payload fl one q.payload })) j
          (after_write cid q))
  ]
    where
      after_write :
          (cid : String) (q p : Point fl)
          → get (set_item d cid (record q { payload = update_payload fl one q.payload })) j ≡ some p
          → Holds p
      after_write cid q p e = elim (Bool-cases (cid == j)) [
        | inl same ↦ ground (
          arith,
          same,
          e,
          get-set_item d cid j (record q { payload = update_payload fl one q.payload }),
          updated-Holds q,
        )
        | inr other ↦ h p (
            ground (
              arith,
              other,
              e,
              get-set_item d cid j (record q { payload = update_payload fl one q.payload }),
            ))
      ]

  abbrev written : String → Dict String (Point fl) → Dict String (Point fl)
  written cid d = update_point fl cid one d (get d cid)

  written-Holds :
      (cid : String) (d : Dict String (Point fl)) (p : Point fl)
      → get (written cid d) cid ≡ some p
      → Holds p
  written-Holds cid d p = elim (Option-cases (get d cid)) [
    | inl e ↦ λ f. absurd (ground (arith, e, f))
    | inr (q, e) ↦ λ f.
        let f' : get (set_item d cid (record q { payload = update_payload fl one q.payload })) cid
            ≡ some p =
          ground (arith, e, f) in
        ground (
          arith,
          f',
          get-set_item_self d cid (record q { payload = update_payload fl one q.payload }),
          updated-Holds q,
        )
  ]

  set_payloads-writes :
      (cids : List String) (d : Dict String (Point fl)) (j : String)
      → member j cids ≡ true
      → (p : Point fl) → get (set_payloads fl cids one d) j ≡ some p
      → Holds p
  unfolding set_payloads
  set_payloads-writes [] d j m = λ p e. absurd (ground (arith, m))
  set_payloads-writes (cid ∷ cids) d j m = elim (Bool-cases (cid == j)) [
    | inl same ↦ set_payloads-keeps cids (written cid d) j (
        subst (λ x. (p : Point fl) → get (written cid d) x ≡ some p → Holds p)
          ((eq_iff cid j).0 same) (written-Holds cid d))
    | inr other ↦ set_payloads-writes cids (written cid d) j (ground (arith, other, m))
  ]

  -- Every point whose id is listed Holds the value after `set_payload`.
  listed-Holds :
      (cids : List String) (d : Dict String (Point fl))
      → WellKeyed fl d
      → All (λ p. member p.id cids ≡ true → Holds p) (values (set_payloads fl cids one d))
  listed-Holds cids d h =
      All-map (λ p e m. set_payloads-writes cids d p.id m p e) (values (set_payloads fl cids one d))
        (get-id fl (set_payloads fl cids one d) (set_payloads-WellKeyed fl one cids d h))

-- No hit of a query has one of the ids, once the value that the filter rejects is written to them.
module _ (key : String) (v : Value) (f : Filter) where
  -- A payload with the value does not pass the filter.
  abbrev pub Blocks : Type 0
  Blocks = (p : Payload) → lookup p key ≡ v → payload_match p (some f) ≢ some true

module _ (fl : FloatOps) (key : String) (v : Value) (f : Filter) where
  hidden :
      Blocks key v f
      → (cids : List String) (d : Dict String (Point fl)) → WellKeyed fl d
      → All
          (λ p. payload_match p.payload (some f) ≡ some true → member p.id cids ≡ false)
          (values (set_payloads fl cids ((key, v) ∷ []) d))
  hidden blocks cids d h =
      All-map
        (λ p written matched. elim (Bool-cases (member p.id cids)) [
          | inl listed ↦ absurd (blocks p.payload (written listed) matched)
          | inr free ↦ free
        ])
        (values (set_payloads fl cids ((key, v) ∷ []) d)) (listed-Holds fl key v cids d h)

  -- After the value is written to the listed chunks, no query with the filter returns one of them.
  pub set_payload-hides :
      Blocks key v f
      → (domain_id : String) (cids : List String) (s s' : Store fl) (coll : Collection fl)
      → get s domain_id ≡ some coll
      → WellKeyed fl coll.points
      → set_payload fl domain_id cids ((key, v) ∷ []) s ≡ ok s'
      → (dense : List fl.Float) (sparse : Dict ℕ fl.Float) (top_k : ℕ) (hits : List (Hit fl))
      → hybrid_query fl domain_id dense sparse (some f) top_k s' ≡ ok hits
      → All (λ h. member h.id cids ≡ false) hits
  unfolding set_payload
  set_payload-hides blocks domain_id cids s s' coll stored keyed wrote dense sparse top_k hits
        answered =
      let (coll', stored', hits_of, _) =
        hybrid_query_sound fl dense sparse (some f) domain_id top_k s' hits answered in
      let points : coll'.points ≡ set_payloads fl cids ((key, v) ∷ []) coll.points = ground (
        arith,
        stored,
        stored',
        wrote,
        get-set_item_self s domain_id
            (record coll { points = set_payloads fl cids ((key, v) ∷ []) coll.points }),
      ) in
      let clean : All Unlisted (values coll'.points) =
        subst (λ d. All Unlisted (values d)) (sym points) (hidden blocks cids coll.points keyed) in
      All-map
        (λ h x.
          subst (λ k. member k.id cids ≡ false) (sym x.1)
            (All-of_mem Unlisted (values coll'.points) Unlisted-prop clean x.2.stored x.2.matched))
        hits hits_of
    where
      Unlisted : Point fl → Type 0
      Unlisted p = payload_match p.payload (some f) ≡ some true → member p.id cids ≡ false

      Unlisted-prop : (p : Point fl) → IsProp (Unlisted p)
      Unlisted-prop p = hlevel
