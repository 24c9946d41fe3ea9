-- ===== src/Orchestrator/Requests.antt =====
-- The requests of `IndexingOrchestrator` (backend/app/services/indexing_orchestrator.py), as an upload,
-- a reindexing and a retry form them.
use domainrag_ops.Prelude.{
  String, Option, none, some, List, [], ◌∷◌, ◌==◌, string_eq, pair_eq, or_else, if◌then◌else◌,
}
use domainrag_ops.Prelude.Float.{FloatOps}
use domainrag_ops.Dict.{Dict}
use domainrag_ops.Payload.{Payload}
use domainrag_ops.Documents.{DocumentRecord}
use domainrag_ops.Indexing.Requests.{ReindexMode, full, IndexingRequest}
use domainrag_ops.Indexing.Steps.{State}

-- A value under "valid_from" or "valid_until": `None`, a date by its ISO text, or something else by
-- its text.
pub data DateValue : Type 0 where
  no_value : DateValue
  date : String → DateValue
  other : String → DateValue

-- `_to_iso_date`
abbrev pub to_iso_date : DateValue → Option String
to_iso_date no_value = none
to_iso_date (date iso) = some iso
to_iso_date (other s) = if s == "" then none else some s

-- The dict `metadata`, by the keys that are read; the outer `none` is a missing key. `rest` are the
-- other keys.
pub record Metadata : Type 0 where
  pub department : Option (Option String)
  pub doc_type : Option (Option String)
  pub security_level : Option String
  pub acl : Option (List String)
  pub approval_status : Option String
  pub tags : Option (List String)
  pub valid_from : Option DateValue
  pub valid_until : Option DateValue
  pub owner : Option (Option String)
  pub rest : Payload

pub record StoredDocument : Type 0 where
  pub local_path : String
  pub object_storage_path : Option String

pub record PreparedIndexing : Type 0 where
  pub job_id : String
  pub doc_id : String
  pub version : String
  pub stored : Option StoredDocument

-- `_pending`, and the state of the service.
pub record OrchestratorState (fl : FloatOps) : Type 0 where
  pub pending : Dict String IndexingRequest
  pub service : State fl

-- `a or b` on an optional text
abbrev text_or : Option String → Option String → Option String
text_or none b = b
text_or (some s) b = if s == "" then b else some s

abbrev tags_or : Option (List String) → List String → List String
tags_or none b = b
tags_or (some []) b = b
tags_or (some (t ∷ ts)) b = t ∷ ts

-- A date that the document record has is a text.
abbrev date_text : Option String → DateValue
date_text none = no_value
date_text (some s) = other s

abbrev pub upload_request :
    String → String → String → String → StoredDocument → Option String → Metadata → IndexingRequest
upload_request domain_id doc_id version title stored input_type meta = record {
  domain_id = domain_id;
  doc_id = doc_id;
  doc_version = version;
  file_path = stored.local_path;
  title = title;
  mode = full;
  department = or_else meta.department none;
  doc_type = text_or (or_else meta.doc_type none) input_type;
  input_type = input_type;
  security_level = or_else meta.security_level "internal";
  acl = or_else meta.acl [];
  approval_status = or_else meta.approval_status "draft";
  tags = or_else meta.tags [];
  valid_from = to_iso_date (or_else meta.valid_from no_value);
  valid_until = to_iso_date (or_else meta.valid_until no_value);
  object_storage_path = stored.object_storage_path;
  owner = or_else meta.owner none;
  metadata = meta.rest;
}

abbrev pub reindex_request :
    DocumentRecord → String → String → String → ReindexMode → Metadata → IndexingRequest
reindex_request doc domain_id doc_id version mode meta = record {
  domain_id = domain_id;
  doc_id = doc_id;
  doc_version = version;
  file_path = or_else doc.source_path "";
  title = doc.title;
  mode = mode;
  department = or_else meta.department doc.department;
  doc_type = or_else meta.doc_type doc.doc_type;
  input_type = none;
  security_level = or_else meta.security_level doc.security_level;
  acl = or_else meta.acl [];
  approval_status = or_else meta.approval_status doc.approval_status;
  tags = tags_or meta.tags doc.tags;
  valid_from = to_iso_date (or_else meta.valid_from (date_text doc.valid_from));
  valid_until = to_iso_date (or_else meta.valid_until (date_text doc.valid_until));
  object_storage_path = doc.object_storage_path;
  owner = or_else meta.owner doc.owner;
  metadata = [];
}

-- The request of a retry, for the document of the job.
abbrev pub retry_request : DocumentRecord → String → String → String → IndexingRequest
retry_request doc domain_id doc_id version = record {
  domain_id = domain_id;
  doc_id = doc_id;
  doc_version = version;
  file_path = or_else doc.source_path "";
  title = doc.title;
  mode = full;
  department = doc.department;
  doc_type = doc.doc_type;
  input_type = none;
  security_level = doc.security_level;
  acl = [];
  approval_status = doc.approval_status;
  tags = doc.tags;
  valid_from = to_iso_date (date_text doc.valid_from);
  valid_until = to_iso_date (date_text doc.valid_until);
  object_storage_path = doc.object_storage_path;
  owner = doc.owner;
  metadata = [];
}
