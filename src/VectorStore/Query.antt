-- ===== src/VectorStore/Query.antt =====
-- What `hybrid_query` returns (rag_core/clients/in_memory.py).
use mathlib.Core.List.{Mem, Perm, map-map, map-append}
use mathlib.Core.List.Perm
use domainrag_ops.Prelude.{
  ℕ, ◌≤◌, String, ◌≡◌, ◌≢◌, refl, ◌∙◌, Bool, true, false, Option, none, some, List, [], ◌∷◌, map,
  arith, string_eq, keep, All, All-map, All-of_map, All-take, All-sort_by, All-mem, length,
  length-map, length-take_le, take_full, take-append-drop, drop, All-keep_of, ◌++◌, ◌⊎◌, ap, sym,
  take, sort_by, sort_by-perm, sort_by-IsSorted, IsSorted, IsSorted-map, Option-cases, Bool-cases,
  inl, inr,
}
use domainrag_ops.Prelude.Float.{FloatOps, FloatLaws, IsNumber, descending_order}
use domainrag_ops.Prelude.Result.{ok, Result-cases}
use domainrag_ops.Dict.{Dict, get, values}
use domainrag_ops.Acl.Filter.{Filter, payload_match}
use domainrag_ops.VectorStore.{
  Point, Collection, Store, Hit, point_score, score_all, higher, to_hit, hybrid_query,
}

module _ (fl : FloatOps) (dense : List fl.Float) (sparse : Dict ℕ fl.Float)
    (acl : Option Filter) where
  -- The point's payload passes the filter; it can be compared.
  unfoldable pub passes : Point fl → Bool
  passes p = elim (payload_match p.payload acl) [ some true ↦ true | _ ↦ false ]

  abbrev pub IsComparable : Point fl → Type 0
  IsComparable p = payload_match p.payload acl ≢ none

  abbrev pub scored : Point fl → fl.Float × Point fl
  scored p = (point_score fl dense sparse p, p)

  score_all_lem :
      (ps : List (Point fl))
      → All IsComparable ps
      → score_all fl dense sparse acl ps ≡ ok (map scored (keep passes ps))
  unfolding score_all passes
  score_all_lem [] h = refl
  score_all_lem (p ∷ ps) h = ground (arith, h.0, score_all_lem ps h.1)

  score_all-ok :
      (ps : List (Point fl)) (r : List (fl.Float × Point fl))
      → score_all fl dense sparse acl ps ≡ ok r
      → r ≡ map scored (keep passes ps)
  unfolding score_all passes
  score_all-ok [] r h = ground arith
  score_all-ok (p ∷ ps) r h = elim (Result-cases (score_all fl dense sparse acl ps)) [
    | inl (r', e) ↦ ground (arith, e, score_all-ok ps r' e)
    | inr (f, e) ↦ ground (arith, e)
  ]

  -- The points of a collection that the query may return, best first.
  pub ranked : Collection fl → List (fl.Float × Point fl)
  ranked coll = sort_by (higher fl) (map scored (keep passes (values coll.points)))

  pub hybrid_query-ok :
      (domain_id : String) (top_k : ℕ) (s : Store fl) (hits : List (Hit fl))
      → hybrid_query fl domain_id dense sparse acl top_k s ≡ ok hits
      → (coll : Collection fl) × (get s domain_id ≡ some coll)
        × (hits ≡ map (to_hit fl) (take top_k (ranked coll)))
  unfolding hybrid_query ranked
  hybrid_query-ok domain_id top_k s hits h = elim (Option-cases (get s domain_id)) [
    | inl e ↦ absurd (ground (arith, e))
    | inr (coll, e) ↦ elim (Result-cases (score_all fl dense sparse acl (values coll.points))) [
      | inl (r, e') ↦ (coll, e, ground (arith, e, e', score_all-ok (values coll.points) r e'))
      | inr (f, e') ↦ absurd (ground (arith, e, e'))
    ]
  ]

  -- A query of a domain's collection whose payloads can be compared answers.
  answers :
      (domain_id : String) (top_k : ℕ) (s : Store fl) (coll : Collection fl)
      → get s domain_id ≡ some coll
      → All IsComparable (values coll.points)
      → hybrid_query fl domain_id dense sparse acl top_k s
        ≡ ok (map (to_hit fl) (take top_k (ranked coll)))
  unfolding hybrid_query ranked
  answers domain_id top_k s coll e h = ground (arith, e, score_all_lem (values coll.points) h)

  passes-match : (p : Point fl) → passes p ≡ true → payload_match p.payload acl ≡ some true
  unfolding passes
  passes-match p h = ground arith

  -- What a hit says: it is a point of the collection, as scored, and its payload passes the filter.
  pub record IsAnswer (coll : Collection fl) (sp : fl.Float × Point fl) : Type 0 where
    pub score : sp.0 ≡ point_score fl dense sparse sp.1
    pub stored : Mem sp.1 (values coll.points)
    pub matched : payload_match sp.1.payload acl ≡ some true

  ranked-IsAnswer : (coll : Collection fl) → All (IsAnswer coll) (ranked coll)
  unfolding ranked
  ranked-IsAnswer coll =
      All-sort_by (higher fl) (IsAnswer coll) (map scored (keep passes (values coll.points))) (
        All-of_map (IsAnswer coll) scored (keep passes (values coll.points))
          (all_answers (values coll.points) (All-mem (values coll.points))))
    where
      answer :
          (p : Point fl) → Mem p (values coll.points) → passes p ≡ true → IsAnswer coll (scored p)
      answer p m h = record { score = refl; stored = m; matched = passes-match p h }

      all_answers :
          (ps : List (Point fl))
          → All (λ p. Mem p (values coll.points)) ps
          → All (λ p. IsAnswer coll (scored p)) (keep passes ps)
      all_answers [] m = tt
      all_answers (p ∷ ps) m = elim (Bool-cases (passes p)) [
        | inl e ↦ rw e (answer p m.0 e, all_answers ps m.1)
        | inr e ↦ rw e (all_answers ps m.1)
      ]

  -- Every hit is a point of the domain's own collection whose payload passes the filter, and there
  -- are at most `top_k` of them.
  pub hybrid_query_sound :
      (domain_id : String) (top_k : ℕ) (s : Store fl) (hits : List (Hit fl))
      → hybrid_query fl domain_id dense sparse acl top_k s ≡ ok hits
      → (coll : Collection fl) × (get s domain_id ≡ some coll)
        × All (λ h. (sp : fl.Float × Point fl) × (h ≡ to_hit fl sp) × IsAnswer coll sp) hits
        × (length hits ≤ top_k)
  hybrid_query_sound domain_id top_k s hits h =
      let (coll, e, shape) = hybrid_query-ok domain_id top_k s hits h in
      (
        coll,
        e,
        rw shape (
            All-of_map _ (to_hit fl) (take top_k (ranked coll)) (
              All-map (λ sp a. (sp, refl, a)) (take top_k (ranked coll))
                (All-take (IsAnswer coll) top_k (ranked coll) (ranked-IsAnswer coll)))),
        rw shape (rw (length-map (to_hit fl)) (length-take_le top_k (ranked coll))),
      )

  -- The scores of the points in the collection are numbers.
  abbrev pub AreNumbers : Collection fl → Type 0
  AreNumbers coll = All (λ p. IsNumber fl (point_score fl dense sparse p)) (values coll.points)

  ranked-IsSorted :
      FloatLaws fl → (coll : Collection fl) → AreNumbers coll → IsSorted (higher fl) (ranked coll)
  unfolding ranked
  ranked-IsSorted laws coll numbers =
      let found = keep passes (values coll.points) in
      sort_by-IsSorted (higher fl) (λ sp. IsNumber fl sp.0) (descending_order fl laws (λ sp. sp.0))
        (map scored found)
        (All-of_map (λ sp. IsNumber fl sp.0) scored found
          (All-keep_of (λ p. IsNumber fl (point_score fl dense sparse p)) passes
            (values coll.points) numbers))

  ranked-perm :
      (coll : Collection fl)
      → Perm
          (map (to_hit fl) (ranked coll))
          (map (λ p. to_hit fl (scored p)) (keep passes (values coll.points)))
  unfolding ranked
  ranked-perm coll =
      let found = keep passes (values coll.points) in
      rw (← map-map (to_hit fl) scored found)
        (Perm.map (to_hit fl) (sort_by-perm (higher fl) (map scored found)))

  -- Where the domain's collection is there, its payloads can be compared with the filter and its
  -- scores are no NaN, a query answers. Its hits, with those that are left out behind them, are
  -- exactly the points whose payloads pass the filter, each with its score, in descending order;
  -- there are top_k hits, or fewer where none is left out.
  pub hybrid_query_best :
      FloatLaws fl
      → (domain_id : String) (top_k : ℕ) (s : Store fl) (coll : Collection fl)
      → get s domain_id ≡ some coll
      → All IsComparable (values coll.points)
      → AreNumbers coll
      → (hits : List (Hit fl)) × (left_out : List (Hit fl)) × (hybrid_query fl domain_id dense
            sparse acl top_k s
          ≡ ok hits)
        × Perm
            (hits ++ left_out)
            (map (λ p. to_hit fl (scored p)) (keep passes (values coll.points)))
        × IsSorted (λ y x. fl.lt x.score y.score) (hits ++ left_out)
        × (length hits ≤ top_k)
        × ((length hits ≡ top_k) ⊎ (left_out ≡ []))
  hybrid_query_best laws domain_id top_k s coll e comparable numbers =
      let best = take top_k (ranked coll) in
      let behind = drop top_k (ranked coll) in
      let whole : map (to_hit fl) best ++ map (to_hit fl) behind ≡ map (to_hit fl) (ranked coll) =
        sym (map-append (to_hit fl) best behind)
        ∙ ap (map (to_hit fl)) (take-append-drop top_k (ranked coll)) in
      (
        map (to_hit fl) best,
        map (to_hit fl) behind,
        answers domain_id top_k s coll e comparable,
        rw whole (ranked-perm coll),
        rw whole (
            IsSorted-map (λ y x. fl.lt x.score y.score) (to_hit fl) (ranked coll)
              (ranked-IsSorted laws coll numbers)),
        rw (length-map (to_hit fl) best) (length-take_le top_k (ranked coll)),
        elim (take_full top_k (ranked coll)) [
          | inl full ↦ inl (length-map (to_hit fl) best ∙ full)
          | inr none_left ↦ inr (ap (map (to_hit fl)) none_left)
        ],
      )
