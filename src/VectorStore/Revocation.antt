-- ===== src/VectorStore/Revocation.antt =====
-- Withdrawing the approval of chunks by `set_payload` of rag_core/clients/in_memory.py, under the
-- filter of rag_core/services/acl_builder.py.
use domainrag_ops.Prelude.{
  ℕ, String, ◌≡◌, ◌≢◌, ◌∙◌, ap, Bool, false, Option, some, List, [], ◌∷◌, arith, eq_iff, string_eq,
  All,
}
use domainrag_ops.Prelude.Float.{FloatOps}
use domainrag_ops.Prelude.Result.{ok}
use domainrag_ops.Dict.{Dict, get}
use domainrag_ops.Payload.{Value, Payload, atom, text, lookup, value_eq}
use domainrag_ops.Acl.Filter.{
  payload_match, condition_match, test_match, all_match, Cond, Conds, cons, field, match_value,
}
use domainrag_ops.Acl.Builder.{Principal, member, acl_conds, level_conds, build_qdrant_acl_filter}
use domainrag_ops.VectorStore.{Collection, Store, Hit, hybrid_query, set_payload}
use domainrag_ops.VectorStore.Keys.{WellKeyed}
use domainrag_ops.VectorStore.Hiding.{Blocks, set_payload-hides}

all_match_fails :
    (p : Payload) (c : Cond) (cs : Conds)
    → condition_match p c ≡ some false
    → all_match p (cons c cs) ≡ some false
unfolding all_match
all_match_fails p c cs h = rw h

value_condition :
    (p : Payload) (k : String) (v w : Value)
    → lookup p k ≡ w
    → condition_match p (field (some k) (match_value v)) ≡ some (value_eq w v)
unfolding condition_match test_match
value_condition p k v w e = ap (λ x. some (value_eq x v)) e

text_ne : (s t : String) → s ≢ t → value_eq (atom (text s)) (atom (text t)) ≡ false
unfolding value_eq
text_ne s t ne = ground (arith, eq_iff s t)

module _ (u : Principal) (today : Option String) where
  -- A status other than "approved" fails the first condition.
  unapproved-Blocks :
      (exclude_archived : Bool) (status : String)
      → status ≢ "approved"
      → Blocks "approval_status"
          (atom (text status))
          (build_qdrant_acl_filter u today exclude_archived)
  unfolding payload_match build_qdrant_acl_filter
  unapproved-Blocks exclude_archived status ne p e h =
      let fails : all_match p (acl_conds u today) ≡ some false =
        all_match_fails p (field (some "approval_status") (match_value (atom (text "approved"))))
          (level_conds u today)
          (value_condition p "approval_status" (atom (text "approved")) (atom (text status)) e
            ∙ ap some (text_ne status "approved" ne)) in
      ground (arith, fails, h)

module _ (fl : FloatOps) (domain_id : String) (cids : List String) (s s' : Store fl)
    (coll : Collection fl) where
  -- After a collection's chunks are given an approval status other than "approved", no query with
  -- the filter of any user returns one of them.
  pub unapproved_hidden :
      (status : String)
      → status ≢ "approved"
      → get s domain_id ≡ some coll
      → WellKeyed fl coll.points
      → set_payload fl domain_id cids (("approval_status", atom (text status)) ∷ []) s ≡ ok s'
      → (u : Principal) (today : Option String) (exclude_archived : Bool) (dense : List fl.Float)
        (sparse : Dict ℕ fl.Float) (top_k : ℕ) (hits : List (Hit fl))
      → hybrid_query fl domain_id dense sparse
          (some (build_qdrant_acl_filter u today exclude_archived))
          top_k
          s'
        ≡ ok hits
      → All (λ h. member h.id cids ≡ false) hits
  unapproved_hidden status ne stored keyed wrote u today exclude_archived =
      set_payload-hides fl "approval_status" (atom (text status))
        (build_qdrant_acl_filter u today exclude_archived)
        (unapproved-Blocks u today exclude_archived status ne) domain_id cids s s' coll stored keyed
        wrote
