-- ===== src/Tests/Indexed.antt =====
-- A page of one chunk that is indexed by a service of a constant embedder.
use domainrag_ops.Prelude.{
  String, ◌≡◌, ◌∙◌, ap, refl, true, false, none, some, List, [], ◌∷◌, map, arith, string_eq,
  pair_eq, nat_eq, All, sort_by,
}
use domainrag_ops.Prelude.Result.{ok}
use domainrag_ops.Prelude.Effect.{Ends, call, modify, pure, ◌>>=◌, ◌>>◌}
use domainrag_ops.Dict.{Dict, get, set_item, pop, values}
use domainrag_ops.Payload.{Payload, lookup, value_eq}
use domainrag_ops.Acl.Filter.{payload_match}
use domainrag_ops.Acl.Builder.{user_rank, group_term, build_qdrant_acl_filter}
use domainrag_ops.Acl.Terms.{clears, names}
use domainrag_ops.Acl.Admission.{admits}
use domainrag_ops.Pii.{PiiConfig, check_chunk_pii, warn_all}
use domainrag_ops.Chunker.{Chunk, ParsedPage}
use domainrag_ops.Chunks.{Repository, replace_chunks}
use domainrag_ops.Chunks.Rows.{ChunkRecord}
use domainrag_ops.Chunks.Abstract.{view, replace_chunks-view}
use domainrag_ops.VectorStore.{
  Point, Store, hybrid_query, upsert_chunks, put_points, point_score, score_all, cosine, sparse_dot,
}
use domainrag_ops.Indexing.{
  payload_of, scan_pii, scan_from, embed_safely, pair_up, build_points, build_records, to_record,
}
use domainrag_ops.Indexing.Requests.{IndexingRequest, full, Service, Vectors}
use domainrag_ops.Indexing.Steps.{
  State, update_job, create_job, upsert_points, write_chunks_and_document, reraise_after,
}
use domainrag_ops.Indexing.Storing.{index_full, store_chunks, store_or_fail, complete}
use domainrag_ops.Jobs.{create, first_blocking, is_active, update}
use domainrag_ops.VectorStore.Changed.{points_in}
use domainrag_ops.Indexing.Modes.{run, run_with_existing_job, dispatch}
use domainrag_ops.Indexing.Waiting.{Outcome}
use domainrag_ops.Indexing.Outcome.Data.{Stored}
use domainrag_ops.Indexing.Outcome.{Failed, run_with_existing_job-Outcome}
use domainrag_ops.Indexing.Access.{shows, is_of_document, run_unseen}
use domainrag_ops.Indexing.Agree.{build_points_lem, point_view, row_view}
use domainrag_ops.Indexing.Flag.{with_flag, with_vectors, run-with_flag}
use domainrag_ops.Indexing.Others.{has_point, run_keeps_points}
use domainrag_ops.Tests.Asked.{cards}
use domainrag_ops.Tests.Floats.{thousandths}
use domainrag_ops.Tests.Access.{kim}
use domainrag_ops.Tests.Stores.{store, coll, both, point}
use domainrag_ops.Tests.Papers.{docs}
use domainrag_ops.Tests.Work.{job}

abbrev pub page : ParsedPage
page = record { page_number = 1; text = "pay in March"; section_title = none; heading_path = [] }

abbrev pub chunk : Chunk
chunk = record {
  chunk_id = "d9-0";
  chunk_index = 0;
  content = "pay in March";
  page_number = some 1;
  section_title = none;
  heading_path = [];
  start_char = 0;
  end_char = 12;
  token_count = 3;
}

abbrev pub svc : Service thousandths
svc = record {
  parse = λ _. ok (page ∷ []);
  parser_version = "p1";
  chunk = λ _ _ _ _. ok (chunk ∷ []);
  chunk_strategy = "fixed";
  embed_batch = λ texts. ok (map (λ _. (1000 ∷ [], [])) texts);
  model_name = "m1";
  detector = record { scan = λ _. []; mask = λ s. (s, []) };
  failure_threshold = 300;
  sha256 = λ s. s;
  error_text = λ _. "error";
  rate_text = λ _ _. "too many";
  short_rate_text = λ _. "too many";
}

abbrev pub request : IndexingRequest
request = record {
  domain_id = "law";
  doc_id = "d9";
  doc_version = "v1";
  file_path = "d9.pdf";
  title = "Pay";
  mode = full;
  department = none;
  doc_type = none;
  input_type = none;
  security_level = "internal";
  acl = "dept:finance" ∷ [];
  approval_status = "approved";
  tags = [];
  valid_from = none;
  valid_until = none;
  object_storage_path = none;
  owner = none;
  metadata = [];
}

abbrev pub policy : PiiConfig
policy = record {
  severity_map = [];
  input = record { enable = none; on_pii_found = [] };
  pii_storage_policy = none;
  indexing = record { enable = none; severity_threshold = none; block_indexing = none };
  response_enable = none;
}

abbrev pub no_rows : Repository
no_rows = record { rows = []; next = 0; chunks = []; by_id = [] }

-- Two points of other documents are there.
abbrev pub state : State thousandths
state = record { jobs = ("j1", job "j1") ∷ []; docs = docs; chunks = no_rows; store = store }

run_with_existing_job-Outcome_example :
    Ends
      (Outcome thousandths svc "j1" (Stored thousandths svc "j1" request policy state) state)
      (Failed thousandths svc "j1" state)
      (run_with_existing_job thousandths svc request "j1" policy state)
run_with_existing_job-Outcome_example =
    run_with_existing_job-Outcome thousandths svc "j1" request policy state
      (job "j1", unfold get in refl)

run_keeps_points_example :
    has_point thousandths "law" "c1" (run thousandths svc request "j2" policy state).1.store ≡ true
run_keeps_points_example =
    run_keeps_points thousandths svc request "c1" "j2" policy state (unfold has_point get in refl)

abbrev vectors : Dict String (Vectors thousandths)
vectors = ("d9-0", (1000 ∷ [], [])) ∷ []

build_points_lem_example :
    map
      (point_view thousandths svc request)
      (build_points thousandths svc request (chunk ∷ []) vectors [])
    ≡ map
        (row_view thousandths svc request)
        (build_records thousandths svc request (chunk ∷ []) vectors [])
build_points_lem_example = build_points_lem thousandths svc request (chunk ∷ []) vectors []

-- A detector that finds a card number in every text.
abbrev finding_svc : Service thousandths
finding_svc = record svc { detector = cards }

abbrev two_chunks : List Chunk
two_chunks = chunk ∷ record chunk { chunk_id = "d9-1" } ∷ []

abbrev one_vector : Dict String (Vectors thousandths)
one_vector = ("d9-1", (1000 ∷ [], [])) ∷ []

run-with_flag_example :
    (run thousandths finding_svc request "j2" (with_flag (some true) policy)
      ≡ run thousandths finding_svc request "j2" policy)
    × (map
          (λ (r : ChunkRecord). r.chunk_id)
          (build_records thousandths finding_svc request two_chunks one_vector
            (scan_pii thousandths finding_svc two_chunks policy))
        ≡ with_vectors thousandths finding_svc request two_chunks one_vector)
    × (map
          (λ (p : Point thousandths). p.id)
          (build_points thousandths finding_svc request two_chunks one_vector
            (scan_pii thousandths finding_svc two_chunks policy))
        ≡ with_vectors thousandths finding_svc request two_chunks one_vector)
run-with_flag_example =
    run-with_flag thousandths finding_svc request "j2" (some true) policy two_chunks one_vector
      (scan_pii thousandths finding_svc two_chunks policy)

abbrev pub row : String → ChunkRecord
row cid = record (to_record thousandths svc request [] chunk) { chunk_id = cid }

-- The rows r1 and r2 of one version.
abbrev pub two_rows : Repository
two_rows = record {
  rows = (0, row "r1") ∷ (1, row "r2") ∷ [];
  next = 2;
  chunks = (("law", ("d9", ("v1", "p1"))), 0 ∷ 1 ∷ []) ∷ [];
  by_id = (("law", "r1"), 0) ∷ (("law", "r2"), 1) ∷ [];
}

replace_chunks-view_example :
    view (replace_chunks "law" "d9" "v1" "p1" (row "r3" ∷ []) two_rows)
    ≡ set_item
        (pop (view two_rows) ("law", ("d9", ("v1", "p1"))))
        ("law", ("d9", ("v1", "p1")))
        (row "r3" ∷ [])
replace_chunks-view_example =
    replace_chunks-view "law" "d9" "v1" "p1" (row "r3" ∷ []) two_rows
      (unfold values in ((omega arith, (omega arith, tt)), tt))

abbrev pub stored_payload : Payload
stored_payload = payload_of thousandths svc request [] chunk

abbrev pub indexed_store : Store thousandths
indexed_store =
    (
      "law",
      record coll {
        points =
            ("c1", point "c1" 2000)
            ∷ ("c2", point "c2" 0)
            ∷ (
              "d9-0",
              record { id = "d9-0"; dense = 1000 ∷ []; sparse = []; payload = stored_payload },
            )
            ∷ [];
      },
    )
    ∷ []

-- The run is completed and stores a point.
indexed : (run thousandths svc request "j2" policy state).1.store ≡ indexed_store
unfolding run run_with_existing_job reraise_after dispatch index_full update_job create_job create
    first_blocking is_active values update get set_item scan_pii scan_from check_chunk_pii
    embed_safely pair_up store_chunks store_or_fail build_records build_points upsert_points
    upsert_chunks put_points write_chunks_and_document complete call modify pure ◌>>=◌ ◌>>◌ warn_all
indexed = refl

run_unseen_example :
    All (λ h. is_of_document thousandths svc request kim none true h.payload ≡ false) both
run_unseen_example =
    run_unseen thousandths svc request kim none true "j2" policy state
      (unfold admits clears user_rank names group_term in refl)
      (unfold points_in get values shows lookup value_eq in (refl, (refl, tt))) (1000 ∷ []) [] 5
      both
      (ap
          (hybrid_query thousandths "law" (1000 ∷ []) []
            (some (build_qdrant_acl_filter kim none true)) 5)
          indexed
        ∙ (unfold hybrid_query get set_item values payload_match build_qdrant_acl_filter lookup
              value_eq point_score score_all sort_by cosine sparse_dot in
            refl))
