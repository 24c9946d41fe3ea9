-- ===== src/Documents.antt =====
-- `InMemoryDocumentRepository` (rag_core/clients/in_memory.py) with `DocumentRecord`
-- (rag_core/interfaces/chunk_repository.py): the documents by domain, id and version.
pub mod Deleted
pub mod Isolation
use Prim.Native.Char.{Char, code}
use domainrag_ops.Prelude.{
  ℕ, zero, suc, ◌+◌, ◌-◌, ◌*◌, String, Bool, true, false, ◌&&◌, ◌||◌, Option, none, some, List, [],
  ◌∷◌, ◌==◌, string_eq, pair_eq, leb, ltb, keep, take, drop, length, or_else, sort_by,
  if◌then◌else◌,
}
use domainrag_ops.Prelude.Text.{lower}
use domainrag_ops.Dict.{Dict, get, set_item, pop, values}
use domainrag_ops.Payload.{Payload, text_lt}

pub record DocumentRecord : Type 0 where
  pub domain_id : String
  pub doc_id : String
  pub title : String
  pub version : String
  pub input_type : Option String
  pub source_type : Option String
  pub source_path : Option String
  pub object_storage_path : Option String
  pub department : Option String
  pub doc_type : Option String
  pub security_level : String
  pub owner : Option String
  pub tags : List String
  pub language : String
  pub valid_from : Option String
  pub valid_until : Option String
  pub approval_status : String
  pub file_hash : Option String
  pub parser_version : String
  pub metadata : Payload

-- (domain_id, doc_id, version)
abbrev pub Key : Type 0
Key = String × (String × String)

abbrev pub Docs : Type 0
Docs = Dict Key DocumentRecord

abbrev pub key_of : DocumentRecord → Key
key_of doc = (doc.domain_id, (doc.doc_id, doc.version))

unfoldable pub upsert : DocumentRecord → Docs → Docs
upsert doc docs = set_item docs (key_of doc) doc

-- `get`
abbrev pub get_doc : String → String → String → Docs → Option DocumentRecord
get_doc domain_id doc_id version docs = get docs (domain_id, (doc_id, version))

-- The tuples that `_version_key` returns: `(n,)`, or `(0, v)`.
pub data VersionKey : Type 0 where
  numbered : ℕ → VersionKey
  named : String → VersionKey

is_digit : Char → Bool
is_digit c = leb b'0' (code c) && leb (code c) b'9'

-- `int` of the digits, where there are only digits
digits_from : ℕ → String → Option ℕ
unfolding is_digit
digits_from n String.[] = some n
digits_from n (String.◌∷◌ c s) =
    let rest = digits_from (n * 10 + (code c - b'0')) s in if is_digit c then rest else none

number_after_v : String → Option ℕ
unfolding digits_from
number_after_v String.[] = none
number_after_v (String.◌∷◌ c String.[]) = none
number_after_v (String.◌∷◌ c (String.◌∷◌ d s)) =
    if leb b'v' (code c) && leb (code c) b'v' then digits_from 0 (String.◌∷◌ d s) else none

abbrev key_or_name : String → Option ℕ → VersionKey
key_or_name v none = named v
key_or_name v (some n) = numbered n

-- `_version_key`
unfoldable pub version_key : String → VersionKey
unfolding number_after_v
version_key v = if v == "" then numbered 1 else key_or_name v (number_after_v v)

-- `a > b` on the tuples
abbrev pub later : VersionKey → VersionKey → Bool
later (numbered n) (numbered m) = ltb m n
later (numbered n) (named t) = ltb 0 n
later (named s) (numbered zero) = true
later (named s) (numbered (suc m)) = false
later (named s) (named t) = text_lt t s

abbrev pub newer : DocumentRecord → Option DocumentRecord → Bool
newer doc none = true
newer doc (some existing) = later (version_key doc.version) (version_key existing.version)

-- The loop that fills `latest`.
unfoldable pub latest : String → Docs → Dict String DocumentRecord → Dict String DocumentRecord
latest domain_id [] found = found
latest domain_id (((tid, (did, _)), doc) ∷ docs) found =
    latest domain_id docs
      (if tid == domain_id && newer doc (get found did) then set_item found did doc else found)

-- `kw in s`
starts_with : String → String → Bool
starts_with String.[] s = true
starts_with (String.◌∷◌ c kw) String.[] = false
starts_with (String.◌∷◌ c kw) (String.◌∷◌ d s) =
    let rest = starts_with kw s in leb (code c) (code d) && leb (code d) (code c) && rest

unfoldable pub has_text : String → String → Bool
unfolding starts_with
has_text kw String.[] = starts_with kw String.[]
has_text kw (String.◌∷◌ d s) = let rest = has_text kw s in starts_with kw (String.◌∷◌ d s) || rest

abbrev with_keyword : Option String → List DocumentRecord → List DocumentRecord
with_keyword none docs = docs
with_keyword (some kw) docs =
    if kw == ""
    then docs
    else keep (λ d. has_text (lower kw) (lower d.title) || has_text (lower kw) (lower d.doc_id))
        docs

abbrev with_approval : Option String → List DocumentRecord → List DocumentRecord
with_approval none docs = docs
with_approval (some st) docs = if st == "" then docs else keep (λ d. d.approval_status == st) docs

by_doc_id : DocumentRecord → DocumentRecord → Bool
by_doc_id y x = text_lt y.doc_id x.doc_id

-- `list_by_tenant`
unfoldable pub list_docs :
    String → Option String → Option String → ℕ → ℕ → Docs → List DocumentRecord
unfolding by_doc_id
list_docs domain_id keyword approval_status limit offset docs = take limit (
    drop offset (
      sort_by by_doc_id
        (with_approval approval_status (with_keyword keyword (values (latest domain_id docs []))))))

unfoldable pub update_approval :
    String → String → String → String → Docs → Option DocumentRecord × Docs
update_approval domain_id doc_id version approval_status docs =
    elim (get docs (domain_id, (doc_id, version))) [
      | none ↦ (none, docs)
      | some doc ↦
          let doc' : DocumentRecord = record doc { approval_status = approval_status } in
          (some doc', set_item docs (domain_id, (doc_id, version)) doc')
    ]

-- An item of the dict `patch`: the attribute with its new value. `other` is a key that names no
-- attribute.
pub data PatchItem : Type 0 where
  other : String → PatchItem
  with_domain_id : String → PatchItem
  with_doc_id : String → PatchItem
  with_title : String → PatchItem
  with_version : String → PatchItem
  with_input_type : Option String → PatchItem
  with_source_type : Option String → PatchItem
  with_source_path : Option String → PatchItem
  with_object_storage_path : Option String → PatchItem
  with_department : Option String → PatchItem
  with_doc_type : Option String → PatchItem
  with_security_level : String → PatchItem
  with_owner : Option String → PatchItem
  with_tags : List String → PatchItem
  with_language : String → PatchItem
  with_valid_from : Option String → PatchItem
  with_valid_until : Option String → PatchItem
  with_approval_status : String → PatchItem
  with_file_hash : Option String → PatchItem
  with_parser_version : String → PatchItem
  with_metadata : Payload → PatchItem

-- `if hasattr(rec, k): setattr(rec, k, v)`
unfoldable pub patch_attribute : PatchItem → DocumentRecord → DocumentRecord
patch_attribute (other k) doc = doc
patch_attribute (with_domain_id v) doc = record doc { domain_id = v }
patch_attribute (with_doc_id v) doc = record doc { doc_id = v }
patch_attribute (with_title v) doc = record doc { title = v }
patch_attribute (with_version v) doc = record doc { version = v }
patch_attribute (with_input_type v) doc = record doc { input_type = v }
patch_attribute (with_source_type v) doc = record doc { source_type = v }
patch_attribute (with_source_path v) doc = record doc { source_path = v }
patch_attribute (with_object_storage_path v) doc = record doc { object_storage_path = v }
patch_attribute (with_department v) doc = record doc { department = v }
patch_attribute (with_doc_type v) doc = record doc { doc_type = v }
patch_attribute (with_security_level v) doc = record doc { security_level = v }
patch_attribute (with_owner v) doc = record doc { owner = v }
patch_attribute (with_tags v) doc = record doc { tags = v }
patch_attribute (with_language v) doc = record doc { language = v }
patch_attribute (with_valid_from v) doc = record doc { valid_from = v }
patch_attribute (with_valid_until v) doc = record doc { valid_until = v }
patch_attribute (with_approval_status v) doc = record doc { approval_status = v }
patch_attribute (with_file_hash v) doc = record doc { file_hash = v }
patch_attribute (with_parser_version v) doc = record doc { parser_version = v }
patch_attribute (with_metadata v) doc = record doc { metadata = v }

unfoldable pub patch_attributes : List PatchItem → DocumentRecord → DocumentRecord
patch_attributes [] doc = doc
patch_attributes (item ∷ patch) doc = patch_attributes patch (patch_attribute item doc)

abbrev pub patch_found :
    Key → List PatchItem → Option DocumentRecord → Docs → Option DocumentRecord × Docs
patch_found k patch none docs = (none, docs)
patch_found k patch (some doc) docs =
    (some (patch_attributes patch doc), set_item docs k (patch_attributes patch doc))

unfoldable pub update_partial :
    String → String → String → List PatchItem → Docs → Option DocumentRecord × Docs
update_partial domain_id doc_id version patch docs =
    patch_found (domain_id, (doc_id, version)) patch (get docs (domain_id, (doc_id, version))) docs

unfoldable pub keys : Docs → List Key
keys [] = []
keys ((k, _) ∷ docs) = k ∷ keys docs

-- The keys that `delete` is asked for; `none` for every version.
abbrev pub is_meant : String → String → Option String → Key → Bool
is_meant domain_id doc_id none (d, (i, v)) = d == domain_id && i == doc_id
is_meant domain_id doc_id (some version) (d, (i, v)) = d == domain_id && i == doc_id && v == version

unfoldable pub pop_all : List Key → Docs → Docs
pop_all [] docs = docs
pop_all (k ∷ ks) docs = pop_all ks (pop docs k)

unfoldable pub delete : String → String → Option String → Docs → ℕ × Docs
delete domain_id doc_id version docs =
    let ks = keep (is_meant domain_id doc_id version) (keys docs) in (length ks, pop_all ks docs)
