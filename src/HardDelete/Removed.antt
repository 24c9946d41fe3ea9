-- ===== src/HardDelete/Removed.antt =====
-- What a hard delete removes and what it leaves (backend/app/services/hard_delete_service.py with the
-- repositories and the store of rag_core/clients/in_memory.py).
use domainrag_ops.Prelude.{
  ℕ, String, ◌≡◌, ◌≢◌, ◌∙◌, refl, sym, ap, subst, Bool, true, false, Option, none, List, [], ◌∷◌,
  arith, string_eq, pair_eq, ◌==◌, any, if◌then◌else◌, Bool-cases, Option-cases, inl, inr,
  pair_beq_iff,
}
use domainrag_ops.Prelude.Float.{FloatOps}
use domainrag_ops.Prelude.Result.{Result}
use domainrag_ops.Dict.{Dict, get, pop, get-pop, get-set_item_self}
use domainrag_ops.Acl.Builder.{member}
use domainrag_ops.Documents
use domainrag_ops.Documents.Deleted
use domainrag_ops.Chunks.{Key, ids, is_meant}
use domainrag_ops.Chunks.Abstract.{Lists, view, keys_where, without, select, delete_by_doc-view}
use domainrag_ops.VectorStore.{Point, delete_points, pop_points}
use domainrag_ops.Indexing.Others.{has_point}
use domainrag_ops.HardDelete.{ChatLogsAction, HardDeleteResult}
use domainrag_ops.HardDelete.Steps.{AuditRow, LedgerEntry, delete_vectors}
use domainrag_ops.HardDelete.InMemory.{DeleteState}
use domainrag_ops.HardDelete.ChatLogs.{kept_logs, affected_count}
use domainrag_ops.HardDelete.Outcome.{svc, ended, expected, gone, audited, outcome_lem}

listed : Key → List Key → Bool
listed k ks = any (λ j. j == k) ks

get-without :
    (ks : List Key) (lists : Lists) (k : Key)
    → get (without ks lists) k ≡ (if listed k ks then none else get lists k)
unfolding without listed
get-without [] lists k = refl
get-without (j ∷ ks) lists k = ground (arith, get-without ks (pop lists j) k, get-pop lists j k)

same_key : (j k : Key) → (j == k) ≡ true → j ≡ k
same_key j k e = (pair_beq_iff j k).0 e

unlike : (p : Key → Bool) (j k : Key) → p j ≡ true → p k ≡ false → (j == k) ≡ false
unlike p j k h h' = elim (Bool-cases (j == k)) [
  | inl e ↦ absurd (true_ne_false (sym h ∙ ap p (same_key j k e) ∙ h'))
  | inr e ↦ e
]
  where
    true_ne_false : true ≢ false
    true_ne_false e = ground (arith, e)

keys_where_none :
    (p : Key → Bool) (lists : Lists) (k : Key) → p k ≡ false → listed k (keys_where p lists) ≡ false
unfolding keys_where listed
keys_where_none p [] k h = refl
keys_where_none p ((j, rows) ∷ lists) k h = elim (Bool-cases (p j)) [
  | inl e ↦ rw (e, unlike p j k e h) (keys_where_none p lists k h)
  | inr e ↦ rw e (keys_where_none p lists k h)
]

keys_where_all :
    (p : Key → Bool) (lists : Lists) (k : Key)
    → p k ≡ true
    → listed k (keys_where p lists) ≡ false
    → get lists k ≡ none
unfolding keys_where listed get
keys_where_all p [] k h e = refl
keys_where_all p ((j, rows) ∷ lists) k h e = elim (Bool-cases (j == k)) [
  | inl same ↦ absurd (listed_first (subst (λ x. p x ≡ true) (sym (same_key j k same)) h) same e)
  | inr other ↦ rw other (keys_where_all p lists k h (listed_rest e))
]
  where
    listed_first :
        p j ≡ true → (j == k) ≡ true → listed k (keys_where p ((j, rows) ∷ lists)) ≢ false
    listed_first pj same e = ground (arith, pj, same, e)

    listed_rest :
        listed k (keys_where p ((j, rows) ∷ lists)) ≡ false → listed k (keys_where p lists) ≡ false
    listed_rest e = ground (arith, e)

-- The lists under the keys that are meant are gone, and the others are as before.
get-without_where :
    (p : Key → Bool) (lists : Lists) (k : Key)
    → get (without (keys_where p lists) lists) k ≡ (if p k then none else get lists k)
get-without_where p lists k = elim (Bool-cases (p k)) [
  | inr other ↦
      ground
        (arith, other, get-without (keys_where p lists) lists k, keys_where_none p lists k other)
  | inl meant ↦ elim (Bool-cases (listed k (keys_where p lists))) [
    | inl there ↦ ground (arith, meant, there, get-without (keys_where p lists) lists k)
    | inr missing ↦ ground (
      arith,
      meant,
      missing,
      get-without (keys_where p lists) lists k,
      keys_where_all p lists k meant missing,
    )
  ]
]

module _ (fl : FloatOps) where
  get-pop_points :
      (cids : List String) (d : Dict String (Point fl)) (cid : String)
      → get (pop_points fl cids d) cid ≡ (if member cid cids then none else get d cid)
  unfolding pop_points
  get-pop_points [] d cid = refl
  get-pop_points (c ∷ cids) d cid =
      ground (arith, get-pop_points cids (pop d c) cid, get-pop d c cid)

  module _ (delete_files : String → String → Option String → Result String ℕ)
      (write_audit : Option (AuditRow → Result String (Unit {0})))
      (tell_ledger : Option (LedgerEntry → Result String (Unit {0}))) where
    has_point-delete_vectors :
        (domain_id : String) (cids : List String) (s : DeleteState fl) (cid : String)
        → has_point fl domain_id cid
            (delete_vectors
              (svc fl delete_files write_audit tell_ledger)
              domain_id
              cids
              s).1.service.store
          ≡ (if member cid cids then false else has_point fl domain_id cid s.service.store)
    unfolding has_point delete_points
    has_point-delete_vectors domain_id [] s cid = refl
    has_point-delete_vectors domain_id (c ∷ cids) s cid =
        elim (Option-cases (get s.service.store domain_id)) [
          | inl e ↦ ground (arith, e)
          | inr (coll, e) ↦ ground (
            arith,
            e,
            get-pop_points (c ∷ cids) coll.points cid,
            get-set_item_self s.service.store domain_id
                (record coll { points = pop_points fl (c ∷ cids) coll.points }),
          )
        ]

  module _ (delete_files : String → String → Option String → Result String ℕ)
      (write_audit : Option (AuditRow → Result String (Unit {0})))
      (tell_ledger : Option (LedgerEntry → Result String (Unit {0}))) (domain_id doc_id : String)
      (version : Option String) (actor reason : String) (action : ChatLogsAction)
      (s : DeleteState fl) where
    -- The ids of the rows that are asked for.
    abbrev pub removed_ids : List String
    removed_ids = ids (select (is_meant domain_id doc_id version) (view s.service.chunks))

    -- How the call ends, and the state after it.
    abbrev pub call_ended : Result String HardDeleteResult × DeleteState fl
    call_ended =
        ended fl delete_files write_audit tell_ledger domain_id doc_id version actor reason action s

    -- The result for these ids of rows and this number of chat logs.
    abbrev pub expected_result : List String → ℕ → HardDeleteResult
    expected_result =
        expected fl delete_files write_audit tell_ledger domain_id doc_id version actor reason
          action s

    -- A hard delete in memory removes exactly the document and the lists of its rows, or its version
    -- and the rows of that where one is given, and exactly the points of the domain's collection
    -- that have the ids of these rows, and the chat logs that cite the document are kept, masked or
    -- dropped as the action says, whatever becomes of the files, the audit row and the ledger. It returns how
    -- much it removed, with an entry exactly for a failure of the files, unless the audit row
    -- cannot be written; then it raises that exception.
    pub execute_lem :
        (k : Key) (cid : String) (kd : Documents.Key)
        → (get (view call_ended.1.service.chunks) k
            ≡ (if is_meant domain_id doc_id version k then none else get (view s.service.chunks) k))
          × (has_point fl domain_id cid call_ended.1.service.store ≡ (
              if member cid removed_ids then false else has_point fl domain_id cid s.service.store))
          × (get call_ended.1.service.docs kd ≡ (
              if Documents.is_meant domain_id doc_id version kd
              then none
              else get s.service.docs kd))
          × (call_ended.1.chat_logs ≡ kept_logs domain_id doc_id action s.chat_logs)
          × (call_ended.0
              ≡ audited write_audit actor reason (
                  expected_result removed_ids (affected_count domain_id doc_id action s.chat_logs)))
    execute_lem k cid kd =
        let (removed, left) = delete_by_doc-view domain_id doc_id version s.service.chunks in
        rw
          (outcome_lem fl delete_files write_audit tell_ledger domain_id doc_id version actor reason
            action s)
          (
            ap (λ lists. get lists k) left
                ∙ get-without_where (is_meant domain_id doc_id version) (view s.service.chunks) k,
            has_point-delete_vectors delete_files write_audit tell_ledger domain_id
                  (gone fl delete_files write_audit tell_ledger domain_id doc_id version actor
                    reason action s).0
                  _ cid
                ∙ ap
                    (λ x.
                      if member cid x then false else has_point fl domain_id cid s.service.store)
                    removed,
            Deleted.delete_lem domain_id doc_id version s.service.docs kd,
            refl,
            ap
                (λ x.
                  audited write_audit actor reason
                    (expected_result x (affected_count domain_id doc_id action s.chat_logs)))
                removed,
          )
