-- ===== src/DocumentApproval/Withdrawn.antt =====
-- A withdrawn approval takes effect on what users find (backend/app/services/document_approval_service.py
-- with the store and the filter of rag_core).
use domainrag_ops.Prelude.{
  ℕ, String, ◌≡◌, ◌≢◌, ◌∙◌, refl, sym, ap, Bool, true, false, Option, none, some, List, [], ◌∷◌,
  arith, string_eq, pair_eq, is_some, All, inl, inr, Bool-cases,
}
use domainrag_ops.Prelude.Float.{FloatOps}
use domainrag_ops.Prelude.Result.{Result, ok}
use domainrag_ops.Dict.{Dict, get, set_item}
use domainrag_ops.Payload.{Value, atom, text}
use domainrag_ops.Acl.Builder.{Principal, member, build_qdrant_acl_filter}
use domainrag_ops.VectorStore.{
  Collection, Store, Fault, Hit, hybrid_query, set_payload, set_payloads,
}
use domainrag_ops.VectorStore.Keys.{WellKeyed}
use domainrag_ops.VectorStore.Revocation.{unapproved_hidden}
use domainrag_ops.Documents.{DocumentRecord, Docs, update_approval}
use domainrag_ops.Indexing.Steps.{State, kept_store, try_set_payload, update_chunks}
use domainrag_ops.DocumentApproval.{
  ApprovalState, sync_chunks, chunk_ids, set_approval, after_document,
}

module _ (fl : FloatOps) (domain_id doc_id version status actor : String)
    (reason : Option String) where
  set_payload-total :
      (cids : List String) (payload : Dict String Value) (s : Store fl) (coll : Collection fl)
      → get s domain_id ≡ some coll
      → (s' : Store fl) × (set_payload fl domain_id cids payload s ≡ ok s')
  unfolding set_payload
  set_payload-total cids payload s coll h = (
    set_item s domain_id (record coll { points = set_payloads fl cids payload coll.points }),
    ground (arith, h),
  )

  kept :
      (s : State fl) (r : Result Fault (Store fl)) (store : Store fl)
      → r ≡ ok store
      → (kept_store fl s r).store ≡ store
  kept s r store e = ap (λ x. (kept_store fl s x).store) e

  sync_chunks-store :
      (cid : String) (cids : List String) (s : State fl) (coll : Collection fl)
      → get s.store domain_id ≡ some coll
      → set_payload fl domain_id (cid ∷ cids) (("approval_status", atom (text status)) ∷ []) s.store
        ≡ ok (sync_chunks fl domain_id (cid ∷ cids) status s).store
  unfolding sync_chunks try_set_payload update_chunks
  sync_chunks-store cid cids s coll h =
      let (store, e) =
        set_payload-total (cid ∷ cids) (("approval_status", atom (text status)) ∷ []) s.store coll
          h in
      e ∙ ap ok (sym (kept _ _ store e))

  audited :
      (s : ApprovalState fl) (r : Option DocumentRecord × Docs)
      → is_some r.0 ≡ true
      → (after_document fl domain_id doc_id version status actor reason r s).1.service.store
        ≡ (sync_chunks fl domain_id
            (chunk_ids fl domain_id doc_id version s.service)
            status
            (record s.service { docs = r.1 })).store
  audited s (none, docs) h = absurd (ground (arith, h))
  audited s (some doc, docs) h = elim (Bool-cases s.has_admin) [
    | inl e ↦ rw e refl
    | inr e ↦ rw e refl
  ]

  found :
      (docs : Docs)
      → is_some (get docs (domain_id, (doc_id, version))) ≡ true
      → is_some (update_approval domain_id doc_id version status docs).0 ≡ true
  unfolding update_approval
  found docs h = ground (arith, h)

  none_listed : (hits : List (Hit fl)) → All (λ h. member h.id [] ≡ false) hits
  none_listed [] = tt
  none_listed (h ∷ hits) = (refl, none_listed hits)

  -- Where the document and the domain's collection are there, and the new status is not
  -- "approved", no query with the filter of any user returns a chunk with the id of one of the rows
  -- that the version has.
  pub set_approval_unseen :
      (s : ApprovalState fl) (coll : Collection fl)
      → status ≢ "approved"
      → is_some (get s.service.docs (domain_id, (doc_id, version))) ≡ true
      → get s.service.store domain_id ≡ some coll
      → WellKeyed fl coll.points
      → (u : Principal) (today : Option String) (exclude_archived : Bool) (dense : List fl.Float)
        (sparse : Dict ℕ fl.Float) (top_k : ℕ) (hits : List (Hit fl))
      → hybrid_query fl domain_id dense sparse
          (some (build_qdrant_acl_filter u today exclude_archived))
          top_k
          (set_approval fl domain_id doc_id version status actor reason s).1.service.store
        ≡ ok hits
      → All (λ h. member h.id (chunk_ids fl domain_id doc_id version s.service) ≡ false) hits
  unfolding set_approval
  set_approval_unseen s coll ne there stored keyed u today exclude_archived dense sparse top_k hits
        e =
      let updated = update_approval domain_id doc_id version status s.service.docs in
      by_ids (chunk_ids fl domain_id doc_id version s.service) (
        ap
          (λ x.
            hybrid_query fl domain_id dense sparse
              (some (build_qdrant_acl_filter u today exclude_archived)) top_k x)
          (sym (audited s updated (found s.service.docs there)))
        ∙ e)
    where
      by_ids :
          (cids : List String)
          → hybrid_query fl domain_id dense sparse
              (some (build_qdrant_acl_filter u today exclude_archived))
              top_k
              (sync_chunks fl domain_id cids status (record s.service {
                docs = (update_approval domain_id doc_id version status s.service.docs).1;
              })).store
            ≡ ok hits
          → All (λ h. member h.id cids ≡ false) hits
      by_ids [] e = none_listed hits
      by_ids (cid ∷ cids) e =
          unapproved_hidden fl domain_id (cid ∷ cids) s.service.store _ coll status ne stored keyed
            (sync_chunks-store cid cids _ coll stored) u today exclude_archived dense sparse top_k
            hits e
