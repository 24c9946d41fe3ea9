-- ===== src/Tests/Stores.antt =====
-- Two domains with a chunk each, queried, updated and dropped.
use domainrag_ops.Prelude.{
  ℕ, String, ◌≡◌, ◌≢◌, refl, true, none, some, List, [], ◌∷◌, arith, eq_iff, string_eq, sort_by,
  IsSorted, ◌++◌, map, keep, length, ◌≤◌, ◌⊎◌,
}
use mathlib.Core.List.{Perm}
use domainrag_ops.Prelude.Result.{ok}
use domainrag_ops.Dict.{get, values}
use domainrag_ops.Payload.{lookup, value_eq}
use domainrag_ops.Acl.Filter.{Filter, payload_match}
use domainrag_ops.Acl.Builder.{build_qdrant_acl_filter}
use domainrag_ops.VectorStore.{
  Point, Collection, Store, Hit, to_hit, point_score, hybrid_query, score_all, cosine, sparse_dot,
}
use domainrag_ops.VectorStore.Query.{hybrid_query_best, passes, scored}
use domainrag_ops.VectorStore.Isolation.{
  Call, create, upsert, drop_collection, run, hybrid_query-run,
}
use domainrag_ops.Tests.Floats.{thousandths, thousandths-laws}
use domainrag_ops.Tests.Access.{kim, shared_payload}

abbrev pub point : String → ℕ → Point thousandths
point id x = record { id = id; dense = x ∷ []; sparse = []; payload = shared_payload }

abbrev pub coll : Collection thousandths
coll = record {
  dense_dim = 1;
  with_sparse = true;
  points = ("c1", point "c1" 2000) ∷ ("c2", point "c2" 0) ∷ [];
}

abbrev pub store : Store thousandths
store = ("law", coll) ∷ []

abbrev pub kims_filter : Filter
kims_filter = build_qdrant_acl_filter kim (some "2026-03-01") true

abbrev pub both : List (Hit thousandths)
both =
    record { id = "c1"; score = 250; payload = shared_payload }
    ∷ record { id = "c2"; score = 0; payload = shared_payload }
    ∷ []

kims_answer : hybrid_query thousandths "law" (1000 ∷ []) [] (some kims_filter) 5 store ≡ ok both
unfolding hybrid_query get values payload_match build_qdrant_acl_filter lookup value_eq point_score
    score_all sort_by cosine sparse_dot
kims_answer = refl

abbrev other_calls : List (Call thousandths)
other_calls = create "hr" 1 true ∷ upsert "hr" (point "c1" 1 ∷ []) ∷ drop_collection "hr" ∷ []

hybrid_query-run_example :
    hybrid_query thousandths "law" (1000 ∷ []) [] none 5 (run thousandths other_calls store)
    ≡ hybrid_query thousandths "law" (1000 ∷ []) [] none 5 store
hybrid_query-run_example =
    hybrid_query-run thousandths other_calls store "law" (1000 ∷ []) [] none 5 (ne, (ne, (ne, tt)))
  where
    ne : ◌≢◌ {A = String} "hr" "law"
    ne = ground (arith, eq_iff "hr" "law")

abbrev pub only_c1 : List (Hit thousandths)
only_c1 = record { id = "c1"; score = 250; payload = shared_payload } ∷ []

may_read : payload_match shared_payload (some kims_filter) ≡ some true
unfolding payload_match build_qdrant_acl_filter lookup value_eq get
may_read = refl

comparable : payload_match shared_payload (some kims_filter) ≢ none
comparable e = ground (arith, e, may_read)

hybrid_query_best_example :
    (hits : List (Hit thousandths)) × (left_out : List (Hit thousandths)) × (hybrid_query
        thousandths "law"
        (1000 ∷ [])
        []
        (some kims_filter)
        1
        store
      ≡ ok hits)
    × Perm (hits ++ left_out) (
        map
          (λ p. to_hit thousandths (scored thousandths (1000 ∷ []) [] (some kims_filter) p))
          (keep (passes thousandths (1000 ∷ []) [] (some kims_filter)) (values coll.points)))
    × IsSorted (λ y x. thousandths.lt x.score y.score) (hits ++ left_out)
    × (length hits ≤ 1)
    × ((length hits ≡ 1) ⊎ (left_out ≡ []))
hybrid_query_best_example =
    hybrid_query_best thousandths (1000 ∷ []) [] (some kims_filter) thousandths-laws "law" 1 store
      coll (unfold get in refl) (unfold values in (comparable, (comparable, tt)))
      (unfold values point_score cosine sparse_dot in (refl, (refl, tt)))
