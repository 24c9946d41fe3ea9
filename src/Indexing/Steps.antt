-- ===== src/Indexing/Steps.antt =====
-- The calls that `IndexingService` (rag_core/services/indexing_service.py) makes on the
-- repositories and the vector store, as steps that change the state or raise.
use domainrag_ops.Prelude.{String, Option, none, List, [], ◌∷◌, string_eq}
use domainrag_ops.Prelude.Float.{FloatOps}
use domainrag_ops.Prelude.Result.{Result, ok, err}
use domainrag_ops.Prelude.Effect.{Effect, ◌>>◌, raise}
use domainrag_ops.Dict.{Dict}
use domainrag_ops.Payload.{Value}
use domainrag_ops.Chunks
use domainrag_ops.Chunks.Rows.{ChunkRecord, Item}
use domainrag_ops.Documents
use domainrag_ops.Jobs
use domainrag_ops.Jobs.{Patch}
use domainrag_ops.VectorStore
use domainrag_ops.VectorStore.{Store, Point, Fault}
use domainrag_ops.Indexing.{to_document}
use domainrag_ops.Indexing.Requests.{IndexingRequest, Exception, job_error, store_fault, Service}

-- The three repositories and the vector store.
pub record State (fl : FloatOps) : Type 0 where
  pub jobs : Jobs.Jobs fl.Float
  pub docs : Documents.Docs
  pub chunks : Chunks.Repository
  pub store : Store fl

abbrev pub Run {ℓ} : FloatOps → Type ℓ → Type ℓ
Run fl A = Effect (State fl) Exception A

module _ (fl : FloatOps) where
  -- An update that passes no argument.
  abbrev pub no_change : Patch fl.Float
  no_change = record {
    status = none;
    step = none;
    progress = none;
    total_chunks = none;
    indexed_chunks = none;
    failed_chunks = none;
    error_message = none;
    failure_rate = none;
  }

  abbrev pub with_jobs :
      State fl → Result Jobs.Error (Jobs.Jobs fl.Float) → Result Exception (Unit {0}) × State fl
  with_jobs s (ok jobs) = (ok tt, record s { jobs = jobs })
  with_jobs s (err e) = (err (job_error e), s)

  -- `self.job_repo.create` and `self.job_repo.update`
  unfoldable pub create_job : Jobs.IndexingJobRecord fl.Float → Run fl (Unit {0})
  create_job job s = with_jobs s (Jobs.create fl.Float job s.jobs)

  unfoldable pub update_job : String → Patch fl.Float → Run fl (Unit {0})
  update_job job_id patch s = with_jobs s (Jobs.update fl.Float job_id patch s.jobs)

  -- `self.chunk_repo.list_by_doc`
  unfoldable pub list_chunks : IndexingRequest → Option String → Run fl (List ChunkRecord)
  list_chunks request parser_version s = (
    ok (
        Chunks.list_by_doc request.domain_id request.doc_id request.doc_version parser_version
          s.chunks),
    s,
  )

  unfoldable pub update_chunks : String → List String → List Item → State fl → State fl
  update_chunks domain_id chunk_ids metadata s = record s {
    chunks = Chunks.update_metadata domain_id chunk_ids metadata s.chunks;
  }

  abbrev pub with_store :
      State fl → Result Fault (Store fl) → Result Exception (Unit {0}) × State fl
  with_store s (ok store) = (ok tt, record s { store = store })
  with_store s (err e) = (err (store_fault e), s)

  -- The call at the end of `_upsert_to_qdrant`: `if points: ...`
  unfoldable pub upsert_points : String → List (Point fl) → Run fl (Unit {0})
  upsert_points domain_id [] s = (ok tt, s)
  upsert_points domain_id (p ∷ ps) s =
      with_store s (VectorStore.upsert_chunks fl domain_id (p ∷ ps) s.store)

  abbrev pub kept_store : State fl → Result Fault (Store fl) → State fl
  kept_store s (ok store) = record s { store = store }
  kept_store s (err e) = s

  -- `self.vector_store.set_payload` under `try`, whose exception is only logged
  unfoldable pub try_set_payload : String → List String → Dict String Value → State fl → State fl
  try_set_payload domain_id chunk_ids payload s =
      kept_store s (VectorStore.set_payload fl domain_id chunk_ids payload s.store)

  -- `_write_chunks_and_document`
  unfoldable pub write_chunks_and_document :
      Service fl → IndexingRequest → List ChunkRecord → State fl → State fl
  write_chunks_and_document svc request records s = record s {
    docs = Documents.upsert (to_document fl svc request) s.docs;
    chunks =
        Chunks.replace_chunks request.domain_id request.doc_id request.doc_version
          svc.parser_version records s.chunks;
  }

  abbrev pub recover_with {ℓ} :
      {A : Type ℓ}
      → (Exception → Run fl (Unit {0}))
      → Result Exception A × State fl
      → Result Exception A × State fl
  recover_with handler (ok a, s) = (ok a, s)
  recover_with handler (err e, s) = (handler e >> raise e) s

  -- `try: ... except Exception as exc: ...; raise`
  unfoldable pub reraise_after {ℓ} :
      {A : Type ℓ} → Run fl A → (Exception → Run fl (Unit {0})) → Run fl A
  reraise_after m handler s = recover_with handler (m s)
