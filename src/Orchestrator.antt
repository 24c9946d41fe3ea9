-- ===== src/Orchestrator.antt =====
-- `IndexingOrchestrator` (backend/app/services/indexing_orchestrator.py): uploads, reindexing and
-- retries register a job with its request, and `execute` runs the request later. The ids that are
-- formed from random numbers and the stored file are arguments.
pub mod Requests
pub mod Finishes
pub mod Retry
pub mod Unseen
use domainrag_ops.Orchestrator.Requests.{
  Metadata, StoredDocument, PreparedIndexing, OrchestratorState, upload_request, reindex_request,
  retry_request,
}
use domainrag_ops.Prelude.{
  ℕ, String, Bool, true, false, not, ◌&&◌, ◌||◌, Option, none, some, List, [], ◌∷◌, ◌==◌, string_eq,
  pair_eq, or_else, if◌then◌else◌,
}
use domainrag_ops.Prelude.Float.{FloatOps}
use domainrag_ops.Prelude.Result.{Result, ok, err, or_raise}
use domainrag_ops.Prelude.Effect.{Effect, ◌>>=◌, ◌>>◌, pure, read, call, modify}
use domainrag_ops.Dict.{Dict, get, set_item, pop}
use domainrag_ops.Payload.{Payload}
use domainrag_ops.Pii.{PiiConfig}
use domainrag_ops.Documents
use domainrag_ops.Documents.{DocumentRecord}
use domainrag_ops.Jobs.{IndexingJobRecord, Patch}
use domainrag_ops.VectorStore.{Store, Fault, create_collection}
use domainrag_ops.Indexing.Requests.{
  ReindexMode, full, IndexingRequest, Exception, raised, Service, IndexingResult,
}
use domainrag_ops.Indexing.Steps.{Run, State, no_change, create_job, update_job}
use domainrag_ops.Indexing.Modes.{run_with_existing_job}

module _ (fl : FloatOps) (svc : Service fl) where
  abbrev pub Call {ℓ} : Type ℓ → Type ℓ
  Call A = Effect (OrchestratorState fl) Exception A

  abbrev pub with_service {ℓ} :
      {A : Type ℓ}
      → OrchestratorState fl
      → Result Exception A × State fl
      → Result Exception A × OrchestratorState fl
  with_service s (r, t) = (r, record s { service = t })

  -- A call of the service.
  unfoldable pub in_service {ℓ} : {A : Type ℓ} → Run fl A → Call A
  in_service m s = with_service s (m s.service)

  -- `_register_job`
  abbrev pub registered_job :
      String → String → String → String → String → IndexingJobRecord fl.Float
  registered_job job_id domain_id doc_id version filename = record {
    job_id = job_id;
    domain_id = domain_id;
    doc_id = doc_id;
    doc_version = version;
    status = "pending";
    step = none;
    progress = 0;
    total_chunks = 0;
    indexed_chunks = 0;
    failed_chunks = [];
    error_message = none;
    failure_rate = none;
    retry_count = 0;
    filename = some filename;
  }

  unfoldable pub register_job : String → String → String → String → String → Call (Unit {0})
  register_job job_id domain_id doc_id version filename =
      in_service (create_job fl (registered_job job_id domain_id doc_id version filename))

  -- `self._pending[job_id] = request`
  unfoldable pub put_pending :
      String → IndexingRequest → OrchestratorState fl → OrchestratorState fl
  put_pending job_id request s = record s { pending = set_item s.pending job_id request }

  -- `doc_id or f"DOC-..."`
  abbrev effective_doc_id : Option String → String → String
  effective_doc_id none new_doc_id = new_doc_id
  effective_doc_id (some d) new_doc_id = if d == "" then new_doc_id else d

  -- `save` is what the storage does with the file of a document id.
  unfoldable pub prepare_upload :
      (String → Result Exception StoredDocument)
      → String
      → String
      → String
      → Option String
      → String
      → String
      → Option String
      → Metadata
      → Call PreparedIndexing
  prepare_upload save new_doc_id job_id domain_id doc_id version title input_type meta = do
    stored ← call (save (effective_doc_id doc_id new_doc_id))
    register_job job_id domain_id (effective_doc_id doc_id new_doc_id) version stored.local_path
    modify (
        put_pending job_id (
          upload_request domain_id (effective_doc_id doc_id new_doc_id) version title stored
            input_type meta))
    pure (record {
      job_id = job_id;
      doc_id = effective_doc_id doc_id new_doc_id;
      version = version;
      stored = some stored;
    })

  -- `document_repo.get`, and the error where there is none
  unfoldable pub find_document : String → String → String → String → Call DocumentRecord
  find_document domain_id doc_id version message = read >>= λ s.
      call (or_raise (get s.service.docs (domain_id, (doc_id, version))) (raised message))

  unfoldable pub prepare_reindex :
      String → String → String → String → String → ReindexMode → Metadata → Call PreparedIndexing
  prepare_reindex message job_id domain_id doc_id version mode meta = do
    doc ← find_document domain_id doc_id version message
    register_job job_id domain_id doc_id version (or_else doc.source_path "")
    modify (put_pending job_id (reindex_request doc domain_id doc_id version mode meta))
    pure (record { job_id = job_id; doc_id = doc_id; version = version; stored = none })

  abbrev pub is_retried : String → Bool
  is_retried status = status == "failed" || status == "partial"

  -- The first two guards of `retry_job`, on what `job_repo.get` returns.
  unfoldable pub retried_job :
      String
      → String
      → Option (IndexingJobRecord fl.Float)
      → Result Exception (IndexingJobRecord fl.Float)
  retried_job message domain_id none = err (raised message)
  retried_job message domain_id (some job) =
      if not (job.domain_id == domain_id)
      then err (raised message)
      else if not (is_retried job.status)
      then err (raised "invalid_status")
      else ok job

  unfoldable pub find_retried_job : String → String → String → Call (IndexingJobRecord fl.Float)
  find_retried_job message domain_id job_id =
      read >>= λ s. call (retried_job message domain_id (get s.service.jobs job_id))

  -- The arguments of the update in `retry_job`: `step` and `error_message` are `None`.
  abbrev pub reset : Patch fl.Float
  reset = record (no_change fl) {
    status = some "pending";
    progress = some 0;
    indexed_chunks = some 0;
    failed_chunks = some [];
  }

  unfoldable pub retry_job : String → String → String → String → Call PreparedIndexing
  retry_job no_job no_document domain_id job_id = do
    job ← find_retried_job no_job domain_id job_id
    doc ← find_document domain_id job.doc_id job.doc_version no_document
    modify (put_pending job_id (retry_request doc domain_id job.doc_id job.doc_version))
    in_service (update_job fl job_id reset)
    pure (record { job_id = job_id; doc_id = job.doc_id; version = job.doc_version; stored = none })

  abbrev pub kept_collections : State fl → Result Fault (Store fl) → State fl
  kept_collections s (ok store) = record s { store = store }
  kept_collections s (err e) = s

  -- `_ensure_collection_exists`: an exception is dropped.
  unfoldable pub ensure_collection_exists : ℕ → String → State fl → State fl
  ensure_collection_exists dense_dim domain_id s =
      kept_collections s (create_collection fl domain_id dense_dim true s.store)

  -- What follows on the loading of the policy for personal data: the run, whose exceptions are only
  -- logged, or the exception of the loader.
  abbrev pub run_loaded :
      IndexingRequest
      → String
      → Result Exception PiiConfig
      → State fl
      → Result Exception (Unit {0}) × State fl
  run_loaded request job_id (ok cfg) s =
      (ok tt, (run_with_existing_job fl svc request job_id cfg s).1)
  run_loaded request job_id (err e) s = (err e, s)

  abbrev pub execute_request :
      ℕ
      → (String → Result Exception PiiConfig)
      → String
      → Option IndexingRequest
      → State fl
      → Result Exception (Unit {0}) × State fl
  execute_request dense_dim load_pii_config job_id none s = (ok tt, s)
  execute_request dense_dim load_pii_config job_id (some request) s =
      run_loaded request job_id (load_pii_config request.domain_id)
        (ensure_collection_exists dense_dim request.domain_id s)

  -- `execute`: the request is taken out of `_pending`. `load_pii_config` is `_load_pii_config`, which
  -- may raise.
  unfoldable pub execute : ℕ → (String → Result Exception PiiConfig) → String → Call (Unit {0})
  execute dense_dim load_pii_config job_id s =
      let (r, t) =
        execute_request dense_dim load_pii_config job_id (get s.pending job_id) s.service in
      (r, record { pending = pop s.pending job_id; service = t })
