-- ===== src/Documents/Deleted.antt =====
-- What `delete` leaves of the documents (rag_core/clients/in_memory.py).
use domainrag_ops.Prelude.{
  String, ◌≡◌, refl, ap, Bool, true, ◌&&◌, Option, none, List, [], ◌∷◌, arith, ◌↔◌, ◌==◌, string_eq,
  pair_eq, any, keep, Bool-cases, inl, inr, is_some, if◌then◌else◌,
}
use domainrag_ops.Dict.{get, pop, get-pop}
use domainrag_ops.Documents.{Key, Docs, keys, is_meant, pop_all, delete}

key_iff : (j k : Key) → ((j == k) ≡ true) ↔ (j ≡ k)
key_iff j k = pair_eq.equals_iff j k

get-pop_all :
    (ks : List Key) (docs : Docs) (k : Key)
    → get (pop_all ks docs) k ≡ (if any (λ j. j == k) ks then none else get docs k)
unfolding pop_all
get-pop_all [] docs k = refl
get-pop_all (j ∷ ks) docs k = ground (arith, get-pop_all ks (pop docs j) k, get-pop docs j k)

any-keep :
    (p : Key → Bool) (docs : Docs) (k : Key)
    → any (λ j. j == k) (keep p (keys docs)) ≡ (p k && is_some (get docs k))
unfolding keys get
any-keep p [] k = ground arith
any-keep p ((j, doc) ∷ docs) k = elim (Bool-cases (j == k)) [
  | inl same ↦
      let q : p j ≡ p k = ap p ((key_iff j k).0 same) in
      elim (Bool-cases (p j)) [
        | inl meant ↦ rw (meant, same) (ground (arith, meant, q))
        | inr kept ↦ rw (kept, same) (ground (arith, kept, q, any-keep p docs k))
      ]
  | inr other ↦ elim (Bool-cases (p j)) [
    | inl meant ↦ rw (meant, other) (any-keep p docs k)
    | inr kept ↦ rw (kept, other) (any-keep p docs k)
  ]
]

-- `delete` removes the documents of the domain and id, of the version where one is given, and no
-- others.
pub delete_lem :
    (domain_id doc_id : String) (version : Option String) (docs : Docs) (k : Key)
    → get (delete domain_id doc_id version docs).1 k
      ≡ (if is_meant domain_id doc_id version k then none else get docs k)
unfolding delete
delete_lem domain_id doc_id version docs k =
    let ks = keep (is_meant domain_id doc_id version) (keys docs) in
    ground (arith, get-pop_all ks docs k, any-keep (is_meant domain_id doc_id version) docs k)
