-- ===== src/Tests/Papers.antt =====
-- Two documents of two domains, one of them deleted.
use domainrag_ops.Prelude.{
  String, ◌≡◌, ◌≢◌, refl, none, List, [], ◌∷◌, string_eq, pair_eq, arith, eq_iff,
}
use domainrag_ops.Dict.{get, pop}
use domainrag_ops.Documents.{
  DocumentRecord, Docs, Key, delete, keys, pop_all, version_key, numbered, named, with_title, other,
  update_partial, list_docs, get_doc,
}
use domainrag_ops.Documents.Isolation.{
  DocCall, upsert_call, partial_call, delete_call, perform_doc_calls, list_docs-others,
}

abbrev pub doc : Key → DocumentRecord
doc (d, (i, v)) = record {
  domain_id = d;
  doc_id = i;
  title = i;
  version = v;
  input_type = none;
  source_type = none;
  source_path = none;
  object_storage_path = none;
  department = none;
  doc_type = none;
  security_level = "internal";
  owner = none;
  tags = [];
  language = "ko";
  valid_from = none;
  valid_until = none;
  approval_status = "draft";
  file_hash = none;
  parser_version = "p1";
  metadata = [];
}

abbrev pub docs : Docs
docs =
    (("law", ("d1", "v1")), doc ("law", ("d1", "v1")))
    ∷ (("law", ("d1", "v2")), doc ("law", ("d1", "v2")))
    ∷ (("hr", ("d1", "v1")), doc ("hr", ("d1", "v1")))
    ∷ []

two_deleted :
    delete "law" "d1" none docs ≡ (2, (("hr", ("d1", "v1")), doc ("hr", ("d1", "v1"))) ∷ [])
unfolding delete keys pop_all pop
two_deleted = refl

tenth_version : version_key "v10" ≡ numbered 10
unfolding version_key
tenth_version = refl

unnumbered : version_key "v1a" ≡ named "v1a"
unfolding version_key
unnumbered = refl

abbrev others : List DocCall
others =
    upsert_call (doc ("hr", ("d9", "v1")))
    ∷ partial_call "hr" "d1" "v1" (with_title "Leave" ∷ [])
    ∷ delete_call "hr" "d1" none
    ∷ []

a_patch : update_partial "hr" "d1" "v1" (with_title "Leave" ∷ other "color" ∷ []) [] ≡ (none, [])
unfolding update_partial get
a_patch = refl

list_docs-others_example :
    (list_docs "law" none none 20 0 (perform_doc_calls others docs)
      ≡ list_docs "law" none none 20 0 docs)
    × (get_doc "law" "d1" "v1" (perform_doc_calls others docs) ≡ get_doc "law" "d1" "v1" docs)
list_docs-others_example =
    list_docs-others "law" others docs (ne, (ne, (ne, tt))) none none 20 0 "d1" "v1"
  where
    ne : ◌≢◌ {A = String} "hr" "law"
    ne = ground (arith, eq_iff "hr" "law")
