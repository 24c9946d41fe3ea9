-- ===== src/Acl/Fields.antt =====
-- The filter of `build_qdrant_acl_filter` (rag_core/services/acl_builder.py) reads six fields of a
-- payload, and payloads that agree on these are matched alike.
use domainrag_ops.Prelude.{String, ◌≡◌, refl, ap, Bool, true, false, Option, none, some, string_eq}
use domainrag_ops.Payload.{Payload, lookup}
use domainrag_ops.Acl.Filter.{
  Cond, must, should, is_null, field, Conds, nil, cons, test_match, condition_match, all_match,
  any_match, payload_match,
}
use domainrag_ops.Acl.Builder.{Principal, archived_conds, build_qdrant_acl_filter, acl_conds, dated}

module _ (p q : Payload) where
  -- The payloads have the same value under each key that the conditions name.
  mutual
    Agree : Cond → Type 0
    Agree (must cs) = AgreeAll cs
    Agree (should cs) = AgreeAll cs
    Agree (is_null none) = Unit
    Agree (is_null (some k)) = lookup p k ≡ lookup q k
    Agree (field none t) = Unit
    Agree (field (some k) t) = lookup p k ≡ lookup q k

    AgreeAll : Conds → Type 0
    AgreeAll nil = Unit
    AgreeAll (cons c cs) = Agree c × AgreeAll cs

  mutual
    unfolding Agree condition_match all_match any_match

    condition_match-Agree : (c : Cond) → Agree c → condition_match p c ≡ condition_match q c
    condition_match-Agree (must cs) h = all_match-Agree cs h
    condition_match-Agree (should cs) h = any_match-Agree cs h
    condition_match-Agree (is_null none) h = refl
    condition_match-Agree (is_null (some k)) h = rw h refl
    condition_match-Agree (field none t) h = refl
    condition_match-Agree (field (some k) t) h = ap (λ v. test_match v t) h

    all_match-Agree : (cs : Conds) → AgreeAll cs → all_match p cs ≡ all_match q cs
    all_match-Agree nil h = refl
    all_match-Agree (cons c cs) h = rw (condition_match-Agree c h.0, all_match-Agree cs h.1) refl

    any_match-Agree : (cs : Conds) → AgreeAll cs → any_match p cs ≡ any_match q cs
    any_match-Agree nil h = refl
    any_match-Agree (cons c cs) h = rw (condition_match-Agree c h.0, any_match-Agree cs h.1) refl

  -- The payloads have the same fields for the filter.
  pub record SameFields : Type 0 where
    pub approval_status : lookup p "approval_status" ≡ lookup q "approval_status"
    pub security_level : lookup p "security_level" ≡ lookup q "security_level"
    pub acl : lookup p "acl" ≡ lookup q "acl"
    pub valid_from : lookup p "valid_from" ≡ lookup q "valid_from"
    pub valid_until : lookup p "valid_until" ≡ lookup q "valid_until"
    pub archived : lookup p "archived" ≡ lookup q "archived"

  module _ (same : SameFields) where
    dated-Agree : (today : Option String) → AgreeAll (dated today)
    unfolding Agree
    dated-Agree none = tt
    dated-Agree (some today) =
        ((same.valid_from, (same.valid_from, tt)), ((same.valid_until, (same.valid_until, tt)), tt))

    conds-Agree : (u : Principal) (today : Option String) → AgreeAll (acl_conds u today)
    unfolding Agree
    conds-Agree u today =
        (same.approval_status, (same.security_level, (same.acl, dated-Agree today)))

    archived-Agree : (exclude_archived : Bool) → AgreeAll (archived_conds exclude_archived)
    unfolding Agree
    archived-Agree true = (same.archived, tt)
    archived-Agree false = tt

    pub payload_match-SameFields :
        (u : Principal) (today : Option String) (exclude_archived : Bool)
        → payload_match p (some (build_qdrant_acl_filter u today exclude_archived))
          ≡ payload_match q (some (build_qdrant_acl_filter u today exclude_archived))
    unfolding payload_match build_qdrant_acl_filter
    payload_match-SameFields u today exclude_archived =
        rw
          (
            all_match-Agree (acl_conds u today) (conds-Agree u today),
            any_match-Agree (archived_conds exclude_archived) (archived-Agree exclude_archived),
          )
          refl
