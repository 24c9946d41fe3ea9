-- ===== src/Documents/Isolation.antt =====
-- The documents of a domain under calls for other domains (`InMemoryDocumentRepository` of
-- rag_core/clients/in_memory.py).
use domainrag_ops.Prelude.{
  ℕ, String, ◌≡◌, ◌≢◌, refl, sym, ◌∙◌, ap, Bool, true, false, ◌&&◌, ◌==◌, string_eq, pair_eq,
  Option, none, some, List, [], ◌∷◌, All, All-map, All-keep, keep, if◌then◌else◌, Bool-cases, inl,
  inr, arith,
}
use domainrag_ops.Dict.{Dict, get, set_item, pop}
use domainrag_ops.Documents.{
  DocumentRecord, Docs, Key, PatchItem, upsert, update_approval, update_partial, patch_found,
  delete, pop_all, keys, is_meant, latest, list_docs, newer, key_of, patch_attributes, get_doc,
}

-- A call that changes the documents.
pub data DocCall : Type 0 where
  upsert_call : DocumentRecord → DocCall
  approval_call : String → String → String → String → DocCall
  partial_call : String → String → String → List PatchItem → DocCall
  delete_call : String → String → Option String → DocCall

unfoldable pub perform_doc_call : DocCall → Docs → Docs
perform_doc_call (upsert_call doc) docs = upsert doc docs
perform_doc_call (approval_call d i v status) docs = (update_approval d i v status docs).1
perform_doc_call (partial_call d i v patch) docs = (update_partial d i v patch docs).1
perform_doc_call (delete_call d i v) docs = (delete d i v docs).1

unfoldable pub perform_doc_calls : List DocCall → Docs → Docs
perform_doc_calls [] docs = docs
perform_doc_calls (c ∷ cs) docs = perform_doc_calls cs (perform_doc_call c docs)

-- The domain that a call names.
abbrev pub domain_of : DocCall → String
domain_of (upsert_call doc) = doc.domain_id
domain_of (approval_call d i v status) = d
domain_of (partial_call d i v patch) = d
domain_of (delete_call d i v) = d

module _ (domain_id : String) where
  -- The entries of the domain, in order.
  abbrev of_domain : Docs → Docs
  of_domain docs = keep (λ p. p.0.0 == domain_id) docs

  set_item-other :
      (docs : Docs) (k : Key) (doc : DocumentRecord)
      → (k.0 == domain_id) ≡ false
      → of_domain (set_item docs k doc) ≡ of_domain docs
  unfolding set_item
  set_item-other [] k doc h = rw h refl
  set_item-other ((j, w) ∷ docs) k doc h = elim (Bool-cases (j == k)) [
    | inl same ↦
        let e : (j.0 == domain_id) ≡ false =
          ap (λ x. x.0 == domain_id) ((pair_eq.equals_iff j k).0 same) ∙ h in
        rw (same, e) refl
    | inr other ↦ elim (Bool-cases (j.0 == domain_id)) [
      | inl ours ↦ rw (other, ours) (ap (λ r. (j, w) ∷ r) (set_item-other docs k doc h))
      | inr theirs ↦ rw (other, theirs) (set_item-other docs k doc h)
    ]
  ]

  pop-other :
      (docs : Docs) (k : Key) → (k.0 == domain_id) ≡ false → of_domain (pop docs k) ≡ of_domain docs
  unfolding pop
  pop-other [] k h = refl
  pop-other ((j, w) ∷ docs) k h = elim (Bool-cases (j == k)) [
    | inl same ↦
        let e : (j.0 == domain_id) ≡ false =
          ap (λ x. x.0 == domain_id) ((pair_eq.equals_iff j k).0 same) ∙ h in
        rw (same, e) (pop-other docs k h)
    | inr other ↦ elim (Bool-cases (j.0 == domain_id)) [
      | inl ours ↦ rw (other, ours) (ap (λ r. (j, w) ∷ r) (pop-other docs k h))
      | inr theirs ↦ rw (other, theirs) (pop-other docs k h)
    ]
  ]

  pop_all-other :
      (ks : List Key) (docs : Docs)
      → All (λ k. (k.0 == domain_id) ≡ false) ks
      → of_domain (pop_all ks docs) ≡ of_domain docs
  unfolding pop_all
  pop_all-other [] docs h = refl
  pop_all-other (k ∷ ks) docs h = pop_all-other ks (pop docs k) h.1 ∙ pop-other docs k h.0

  foreign : (d : String) → d ≢ domain_id → (d == domain_id) ≡ false
  foreign d ne = ground (arith, string_eq.equals_iff d domain_id)

  meant-foreign :
      (d i : String) (v : Option String) (k : Key)
      → d ≢ domain_id
      → is_meant d i v k ≡ true
      → (k.0 == domain_id) ≡ false
  meant-foreign d i none k ne m =
      ground (arith, string_eq.equals_iff k.0 d, string_eq.equals_iff k.0 domain_id)
  meant-foreign d i (some v) k ne m =
      ground (arith, string_eq.equals_iff k.0 d, string_eq.equals_iff k.0 domain_id)

  patch_found-other :
      (k : Key) (patch : List PatchItem) (r : Option DocumentRecord) (docs : Docs)
      → (k.0 == domain_id) ≡ false
      → of_domain (patch_found k patch r docs).1 ≡ of_domain docs
  patch_found-other k patch none docs h = refl
  patch_found-other k patch (some doc) docs h = set_item-other docs k (patch_attributes patch doc) h

  approved-other :
      (d i v status : String) (r : Option DocumentRecord) (docs : Docs)
      → (d == domain_id) ≡ false
      → of_domain
          (elim r as (λ x. Option DocumentRecord × Docs) [
            | none ↦ (none, docs)
            | some doc ↦
                let doc' : DocumentRecord = record doc { approval_status = status } in
                (some doc', set_item docs (d, (i, v)) doc')
          ]).1
        ≡ of_domain docs
  approved-other d i v status none docs h = refl
  approved-other d i v status (some doc) docs h =
      set_item-other docs (d, (i, v)) (record doc { approval_status = status }) h

  call-other :
      (c : DocCall) (docs : Docs)
      → domain_of c ≢ domain_id
      → of_domain (perform_doc_call c docs) ≡ of_domain docs
  unfolding perform_doc_call upsert update_approval update_partial delete
  call-other (upsert_call doc) docs ne =
      set_item-other docs (key_of doc) doc (foreign doc.domain_id ne)
  call-other (approval_call d i v status) docs ne =
      approved-other d i v status (get docs (d, (i, v))) docs (foreign d ne)
  call-other (partial_call d i v patch) docs ne =
      patch_found-other (d, (i, v)) patch (get docs (d, (i, v))) docs (foreign d ne)
  call-other (delete_call d i v) docs ne = pop_all-other (keep (is_meant d i v) (keys docs)) docs (
      All-map (λ k m. meant-foreign d i v k ne m) (keep (is_meant d i v) (keys docs))
        (All-keep (is_meant d i v) (keys docs)))

  calls-other :
      (cs : List DocCall) (docs : Docs)
      → All (λ c. domain_of c ≢ domain_id) cs
      → of_domain (perform_doc_calls cs docs) ≡ of_domain docs
  unfolding perform_doc_calls
  calls-other [] docs h = refl
  calls-other (c ∷ cs) docs h = calls-other cs (perform_doc_call c docs) h.1 ∙ call-other c docs h.0

  latest-of_domain :
      (docs : Docs) (found : Dict String DocumentRecord)
      → latest domain_id docs found ≡ latest domain_id (of_domain docs) found
  unfolding latest
  latest-of_domain [] found = refl
  latest-of_domain (((d, (i, v)), doc) ∷ docs) found = elim (Bool-cases (d == domain_id)) [
    | inl ours ↦
        let next : Bool → Dict String DocumentRecord =
          λ b. if b && newer doc (get found i) then set_item found i doc else found in
        rw ours (
          latest-of_domain docs (next true)
          ∙ ap (λ b. latest domain_id (of_domain docs) (next b)) (sym ours))
    | inr theirs ↦ rw theirs (latest-of_domain docs found)
  ]

  get-of_domain :
      (docs : Docs) (i v : String)
      → get docs (domain_id, (i, v)) ≡ get (of_domain docs) (domain_id, (i, v))
  unfolding get
  get-of_domain [] i v = refl
  get-of_domain ((j, doc) ∷ docs) i v =
      ground (arith, get-of_domain docs i v, string_eq.equals_iff j.0 domain_id)

  -- Calls that name other domains change neither what list_by_tenant returns for the domain, whatever
  -- its keyword, status, limit and offset are, nor what get returns for a document of it.
  pub list_docs-others :
      (calls : List DocCall) (docs : Docs)
      → All (λ c. domain_of c ≢ domain_id) calls
      → (keyword approval_status : Option String) (limit offset : ℕ) (doc_id version : String)
      → (list_docs domain_id keyword approval_status limit offset (perform_doc_calls calls docs)
          ≡ list_docs domain_id keyword approval_status limit offset docs)
        × (get_doc domain_id doc_id version (perform_doc_calls calls docs)
            ≡ get_doc domain_id doc_id version docs)
  unfolding list_docs
  list_docs-others calls docs h keyword approval_status limit offset doc_id version =
      let same = calls-other calls docs h in
      let listed : latest domain_id (perform_doc_calls calls docs) [] ≡ latest domain_id docs [] =
        latest-of_domain (perform_doc_calls calls docs) []
        ∙ ap (λ ds. latest domain_id ds []) same
        ∙ sym (latest-of_domain docs []) in
      (
        rw listed refl,
        get-of_domain (perform_doc_calls calls docs) doc_id version
            ∙ ap (λ ds. get ds (domain_id, (doc_id, version))) same
            ∙ sym (get-of_domain docs doc_id version),
      )
