-- ===== src/Indexing/Requests.antt =====
-- What `IndexingService` (rag_core/services/indexing_service.py) is given and returns: requests,
-- results, exceptions and the service's collaborators, with the values that a payload stores. The
-- parser, the embedder, the digest and the formatted texts are fields of `Service`.
use domainrag_ops.Prelude.{
  ℕ, String, false, Option, none, some, List, [], ◌∷◌, string_eq, nat_eq, count_if,
}
use domainrag_ops.Prelude.Float.{FloatOps}
use domainrag_ops.Prelude.Result.{Result}
use domainrag_ops.Dict.{Dict, values}
use domainrag_ops.Payload.{Payload, Value, atom, null, text, num}
use domainrag_ops.Pii.{PiiDetector, ChunkPiiWarning}
use domainrag_ops.Chunker.{Chunk, ParsedPage}
use domainrag_ops.Jobs
use domainrag_ops.VectorStore.{Fault}

pub data ReindexMode : Type 0 where
  parser_only chunk_re_split embedding_only full : ReindexMode

pub record IndexingRequest : Type 0 where
  pub domain_id : String
  pub doc_id : String
  pub doc_version : String
  pub file_path : String
  pub title : String
  pub mode : ReindexMode
  pub department : Option String
  pub doc_type : Option String
  pub input_type : Option String
  pub security_level : String
  pub acl : List String
  pub approval_status : String
  pub tags : List String
  pub valid_from : Option String
  pub valid_until : Option String
  pub object_storage_path : Option String
  pub owner : Option String
  pub metadata : Payload

-- What the repositories, the store, the parser and the embedder raise.
pub data Exception : Type 0 where
  job_error : Jobs.Error → Exception
  store_fault : Fault → Exception
  raised : String → Exception

pub record IndexingResult (fl : FloatOps) : Type 0 where
  pub job_id : String
  pub status : String
  pub total_chunks : ℕ
  pub indexed_chunks : ℕ
  pub failed_chunks : List Payload
  pub high_pii_chunks : ℕ
  pub failure_rate : fl.Float

-- A dense and a sparse vector.
abbrev pub Vectors : FloatOps → Type 0
Vectors fl = List fl.Float × Dict ℕ fl.Float

-- What an `IndexingService` holds besides the repositories and the store: the parser, the chunker
-- with the ids it forms, the embedder, the detector, the threshold, SHA-256 as hexadecimal digits,
-- and the texts of an exception and of the two messages on the failure rate.
pub record Service (fl : FloatOps) : Type 0 where
  pub parse : String → Result Exception (List ParsedPage)
  pub parser_version : String
  pub chunk : String → String → String → List ParsedPage → Result Exception (List Chunk)
  pub chunk_strategy : String
  pub embed_batch : List String → Result Exception (List (Vectors fl))
  pub model_name : String
  pub detector : PiiDetector
  pub failure_threshold : fl.Float
  pub sha256 : String → String
  pub error_text : Exception → String
  pub rate_text : fl.Float → fl.Float → String
  pub short_rate_text : fl.Float → String

pub record EmbedResult (fl : FloatOps) : Type 0 where
  pub vectors : Dict String (Vectors fl)
  pub failed : List Payload

abbrev pub Warnings : Type 0
Warnings = Dict String ChunkPiiWarning

-- `ChunkPIIWarning()`
abbrev pub no_warning : ChunkPiiWarning
no_warning = record { pii_warnings = []; has_high_severity = false; block_indexing = false }

-- `sum(1 for w in warnings_by_chunk.values() if w.has_high_severity)`
abbrev pub high_pii_count : Warnings → ℕ
high_pii_count warnings = count_if (λ w. w.has_high_severity) (values warnings)

abbrev pub text_value : Option String → Value
text_value none = atom null
text_value (some s) = atom (text s)

abbrev pub num_value : Option ℕ → Value
num_value none = atom null
num_value (some n) = atom (num n)

abbrev pub failed_entry : String → Chunk → Payload
failed_entry error c =
    ("chunk_id", atom (text c.chunk_id))
    ∷ ("step", atom (text "embed"))
    ∷ ("error", atom (text error))
    ∷ []
