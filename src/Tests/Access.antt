-- ===== src/Tests/Access.antt =====
-- A user of the security department, a chunk shared with that department, and the filter.
use domainrag_ops.Prelude.{◌≡◌, refl, string_eq, true, false, none, some, [], ◌∷◌}
use domainrag_ops.Dict.{get}
use domainrag_ops.Payload.{Payload, atom, items, text, null, lookup, value_eq}
use domainrag_ops.Acl.Filter.{payload_match}
use domainrag_ops.Acl.Builder.{Principal, user_acl_terms, build_qdrant_acl_filter}
use domainrag_ops.Acl.Admission.{AclMeta, Describes, admits, payload_match-build}

abbrev pub kim : Principal
kim = record {
  user_id = "kim";
  clearance = "confidential";
  department = some "security";
  domain_groups = "audit" ∷ "group:ops" ∷ [];
}

abbrev pub shared_payload : Payload
shared_payload =
    ("security_level", atom (text "internal"))
    ∷ ("acl", items (text "dept:security" ∷ []))
    ∷ ("approval_status", atom (text "approved"))
    ∷ ("valid_from", atom (text "2026-01-01"))
    ∷ ("valid_until", atom null)
    ∷ []

abbrev shared_meta : AclMeta
shared_meta = record {
  approval_status = "approved";
  security_level = "internal";
  acl = "dept:security" ∷ [];
  valid_from = some "2026-01-01";
  valid_until = none;
  archived = false;
}

shared-Describes : Describes shared_meta shared_payload
unfolding lookup get value_eq
shared-Describes = record {
  approval_status = refl;
  security_level = refl;
  acl = refl;
  valid_from = refl;
  valid_until = refl;
  archived = refl;
}

terms_of_kim : user_acl_terms kim ≡ "user:kim" ∷ "dept:security" ∷ "group:audit" ∷ "group:ops" ∷ []
unfolding user_acl_terms
terms_of_kim = refl

kim_is_admitted :
    payload_match shared_payload (some (build_qdrant_acl_filter kim (some "2026-03-01") true))
    ≡ some true
unfolding payload_match build_qdrant_acl_filter lookup get value_eq
kim_is_admitted = refl

payload_match-build_example :
    payload_match shared_payload (some (build_qdrant_acl_filter kim (some "2026-03-01") true))
    ≡ some (admits kim (some "2026-03-01") true shared_meta)
payload_match-build_example =
    payload_match-build shared_meta shared_payload shared-Describes kim (some "2026-03-01") true
