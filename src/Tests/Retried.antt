-- ===== src/Tests/Retried.antt =====
-- An upload that is executed, and a failed job whose retry shows its document to nobody.
use domainrag_ops.Prelude.{
  String, if◌then◌else◌, ◌==◌, ℕ, ◌≡◌, ◌∙◌, ap, refl, true, false, none, some, [], ◌∷◌, string_eq,
  pair_eq, All, sort_by,
}
use domainrag_ops.Prelude.Result.{Result, ok, err}
use domainrag_ops.Prelude.Effect.{Ends, call, modify, pure, read, ◌>>=◌, ◌>>◌}
use domainrag_ops.Dict.{get, set_item, values}
use domainrag_ops.Payload.{lookup, value_eq}
use domainrag_ops.Acl.Filter.{payload_match}
use domainrag_ops.Acl.Builder.{build_qdrant_acl_filter}
use domainrag_ops.Pii.{PiiConfig, check_chunk_pii, warn_all}
use domainrag_ops.Jobs.{IndexingJobRecord, create, first_blocking, is_active, update}
use domainrag_ops.VectorStore.{
  Store, hybrid_query, create_collection, upsert_chunks, put_points, point_score, score_all, cosine,
  sparse_dot,
}
use domainrag_ops.VectorStore.Changed.{points_in}
use domainrag_ops.Indexing.{
  payload_of, scan_pii, scan_from, embed_safely, pair_up, build_points, build_records,
}
use domainrag_ops.Indexing.Requests.{Exception, raised, IndexingRequest}
use domainrag_ops.Indexing.Steps.{
  update_job, create_job, upsert_points, write_chunks_and_document, reraise_after,
}
use domainrag_ops.Indexing.Storing.{index_full, store_chunks, store_or_fail, complete}
use domainrag_ops.Indexing.Modes.{run_with_existing_job, dispatch}
use domainrag_ops.Indexing.Access.{shows, is_of_document}
use domainrag_ops.Orchestrator.{
  in_service, register_job, registered_job, put_pending, prepare_upload, find_document,
  find_retried_job, retried_job, retry_job, execute, ensure_collection_exists,
}
use domainrag_ops.Orchestrator.Requests.{
  OrchestratorState, PreparedIndexing, StoredDocument, Metadata, upload_request, retry_request,
}
use domainrag_ops.Orchestrator.Finishes.{IsOver, IsStuck, prepare_upload-Ends}
use domainrag_ops.Orchestrator.Unseen.{retry_unseen}
use domainrag_ops.Tests.Floats.{thousandths}
use domainrag_ops.Tests.Access.{kim}
use domainrag_ops.Tests.Stores.{coll, both, point}
use domainrag_ops.Tests.Papers.{doc}
use domainrag_ops.Tests.Work.{job}
use domainrag_ops.Tests.Indexed.{svc, policy, chunk, state}

abbrev empty : OrchestratorState thousandths
empty = record { pending = []; service = state }

abbrev file : StoredDocument
file = record { local_path = "d9.pdf"; object_storage_path = none }

abbrev meta : Metadata
meta = record {
  department = none;
  doc_type = none;
  security_level = none;
  acl = some ("dept:finance" ∷ []);
  approval_status = none;
  tags = none;
  valid_from = none;
  valid_until = none;
  owner = none;
  rest = [];
}

abbrev registered : OrchestratorState thousandths
registered = record {
  pending = ("j2", upload_request "law" "d9" "v1" "Pay" file none meta) ∷ [];
  service = record state {
    jobs =
        ("j1", job "j1")
        ∷ ("j2", registered_job thousandths svc "j2" "law" "d9" "v1" "d9.pdf")
        ∷ [];
  };
}

abbrev prepared : PreparedIndexing
prepared = record { job_id = "j2"; doc_id = "d9"; version = "v1"; stored = some file }

-- A loader that returns the policy for the domain "law" only.
abbrev load : String → Result Exception PiiConfig
load domain_id = if domain_id == "law" then ok policy else err (raised "malformed overrides.yaml")

prepare_upload-Ends_example :
    Ends
      (λ _ t. IsOver thousandths svc 1 load "j2" t.service)
      (IsStuck thousandths svc 1 load "j2" "law")
      (execute thousandths svc 1 load "j2" registered)
prepare_upload-Ends_example =
    prepare_upload-Ends thousandths svc 1 load "j2" (λ _. ok file) "DOC-1" "law" (some "d9") "v1"
      "Pay" none meta empty registered prepared
      (unfold prepare_upload register_job in_service create_job create first_blocking is_active
          values get set_item put_pending call modify pure ◌>>=◌ ◌>>◌ in
        refl)

abbrev failed_job : IndexingJobRecord ℕ
failed_job = record (job "j1") { status = "failed"; error_message = some "too many" }

abbrev failed : OrchestratorState thousandths
failed = record { pending = []; service = record state { jobs = ("j1", failed_job) ∷ [] } }

abbrev retried_request : IndexingRequest
retried_request = retry_request (doc ("law", ("d1", "v1"))) "law" "d1" "v1"

abbrev retried : OrchestratorState thousandths
retried = record {
  pending = ("j1", retried_request) ∷ [];
  service = record state {
    jobs = ("j1", record failed_job { status = "pending"; progress = 0 }) ∷ [];
  };
}

abbrev retrying : PreparedIndexing
retrying = record { job_id = "j1"; doc_id = "d1"; version = "v1"; stored = none }

accepted :
    retry_job thousandths svc "no job" "no document" "law" "j1" failed ≡ (ok retrying, retried)
unfolding retry_job find_retried_job find_document retried_job put_pending in_service update_job
    update get set_item call read modify pure ◌>>=◌ ◌>>◌
accepted = refl

abbrev retried_store : Store thousandths
retried_store =
    (
      "law",
      record coll {
        points =
            ("c1", point "c1" 2000)
            ∷ ("c2", point "c2" 0)
            ∷ (
              "d9-0",
              record {
                id = "d9-0";
                dense = 1000 ∷ [];
                sparse = [];
                payload = payload_of thousandths svc retried_request [] chunk;
              },
            )
            ∷ [];
      },
    )
    ∷ []

executed : (execute thousandths svc 1 (λ _. ok policy) "j1" retried).1.service.store ≡ retried_store
unfolding execute ensure_collection_exists create_collection run_with_existing_job reraise_after
    dispatch index_full update_job values update get set_item scan_pii scan_from check_chunk_pii
    embed_safely pair_up store_chunks store_or_fail build_records build_points upsert_points
    upsert_chunks put_points write_chunks_and_document complete call modify pure ◌>>=◌ ◌>>◌ warn_all
executed = refl

retry_unseen_example :
    All (λ h. is_of_document thousandths svc retried_request kim none true h.payload ≡ false) both
retry_unseen_example =
    retry_unseen thousandths svc kim none true "law" "j1" "no job" "no document" failed retried
      retrying retried_request accepted (unfold get in refl)
      (unfold points_in get values shows lookup value_eq in (refl, (refl, tt))) 1 (λ _. ok policy)
      (1000 ∷ []) [] 5 both
      (ap
          (hybrid_query thousandths "law" (1000 ∷ []) []
            (some (build_qdrant_acl_filter kim none true)) 5)
          executed
        ∙ (unfold hybrid_query get set_item values payload_match build_qdrant_acl_filter lookup
              value_eq point_score score_all sort_by cosine sparse_dot in
            refl))
