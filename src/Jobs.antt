-- ===== src/Jobs.antt =====
-- `InMemoryIndexingJobRepository` (rag_core/clients/in_memory.py) with `IndexingJobRecord` and
-- `IndexingConflictError` (rag_core/interfaces/chunk_repository.py): the indexing jobs. `Rate` is the
-- type of a failure rate.
pub mod Exclusive
use domainrag_ops.Prelude.{
  ℕ, String, Bool, true, false, ◌&&◌, Option, none, some, List, [], ◌∷◌, ◌==◌, string_eq, any, keep,
  take, drop, reverse, or_else, or_option, if◌then◌else◌,
}
use domainrag_ops.Prelude.Result.{Result, ok, err}
use domainrag_ops.Dict.{Dict, get, set_item, values}
use domainrag_ops.Payload.{Payload}

pub record IndexingJobRecord (Rate : Type 0) : Type 0 where
  pub job_id : String
  pub domain_id : String
  pub doc_id : String
  pub doc_version : String
  pub status : String
  pub step : Option String
  pub progress : ℕ
  pub total_chunks : ℕ
  pub indexed_chunks : ℕ
  pub failed_chunks : List Payload
  pub error_message : Option String
  pub failure_rate : Option Rate
  pub retry_count : ℕ
  pub filename : Option String

pub data Error : Type 0 where
  indexing_conflict : String → Error
  key_error : String → Error

-- The arguments of `update`; `none` where one is `None`.
pub record Patch (Rate : Type 0) : Type 0 where
  pub status : Option String
  pub step : Option String
  pub progress : Option ℕ
  pub total_chunks : Option ℕ
  pub indexed_chunks : Option ℕ
  pub failed_chunks : Option (List Payload)
  pub error_message : Option String
  pub failure_rate : Option Rate

-- `_ACTIVE_STATES`
abbrev pub active_states : List String
active_states = "pending" ∷ "parsing" ∷ "chunking" ∷ "embedding" ∷ "indexing" ∷ []

unfoldable pub is_active : String → Bool
is_active status = any (λ s. s == status) active_states

module _ (Rate : Type 0) where
  abbrev pub Jobs : Type 0
  Jobs = Dict String (IndexingJobRecord Rate)

  -- The two jobs are for one version of a document.
  abbrev pub same_version : IndexingJobRecord Rate → IndexingJobRecord Rate → Bool
  same_version a b =
      a.domain_id == b.domain_id && a.doc_id == b.doc_id && a.doc_version == b.doc_version

  abbrev pub blocks : IndexingJobRecord Rate → IndexingJobRecord Rate → Bool
  blocks job existing = same_version existing job && is_active existing.status

  unfoldable pub first_blocking :
      IndexingJobRecord Rate → List (IndexingJobRecord Rate) → Option (IndexingJobRecord Rate)
  first_blocking job [] = none
  first_blocking job (existing ∷ rest) =
      let later = first_blocking job rest in if blocks job existing then some existing else later

  unfoldable pub create : IndexingJobRecord Rate → Jobs → Result Error Jobs
  create job jobs = elim (first_blocking job (values jobs)) [
    | some existing ↦ err (indexing_conflict existing.job_id)
    | none ↦ ok (set_item jobs job.job_id job)
  ]

  abbrev pub patched : IndexingJobRecord Rate → Patch Rate → IndexingJobRecord Rate
  patched job p = record job {
    status = or_else p.status job.status;
    step = or_option p.step job.step;
    progress = or_else p.progress job.progress;
    total_chunks = or_else p.total_chunks job.total_chunks;
    indexed_chunks = or_else p.indexed_chunks job.indexed_chunks;
    failed_chunks = or_else p.failed_chunks job.failed_chunks;
    error_message = or_option p.error_message job.error_message;
    failure_rate = or_option p.failure_rate job.failure_rate;
  }

  unfoldable pub update : String → Patch Rate → Jobs → Result Error Jobs
  update job_id p jobs = elim (get jobs job_id) [
    | none ↦ err (key_error job_id)
    | some job ↦ ok (set_item jobs job_id (patched job p))
  ]

  -- `get`
  abbrev pub get_job : String → Jobs → Option (IndexingJobRecord Rate)
  get_job job_id jobs = get jobs job_id

  abbrev with_status : Option String → List (IndexingJobRecord Rate) → List (IndexingJobRecord Rate)
  with_status none js = js
  with_status (some st) js = keep (λ j. j.status == st) js

  -- `list_by_tenant`
  unfoldable pub list_jobs : String → Option String → ℕ → ℕ → Jobs → List (IndexingJobRecord Rate)
  list_jobs domain_id status limit offset jobs = take limit (
      drop offset
        (reverse (with_status status (keep (λ j. j.domain_id == domain_id) (values jobs)))))
