-- ===== src/Retrieval.antt =====
-- `RetrievalService` (rag_core/services/retrieval_service.py) with `hits_to_retrieved_chunks`
-- (rag_core/clients/qdrant_store.py) and `InMemoryReranker` (rag_core/clients/in_memory.py). The
-- embedder, the store's query and the reranker are parameters.
pub mod Contexts
use domainrag_ops.Prelude.{
  ℕ, ◌+◌, ◌-◌, String, Bool, true, false, ◌||◌, ◌==◌, string_eq, nat_eq, any, count_if, length,
  or_else, ◌∷◌, Option, none, some, List, [], map, take, if◌then◌else◌, sort_by,
}
use domainrag_ops.Prelude.Float.{FloatOps}
use domainrag_ops.Prelude.Text.{split}
use domainrag_ops.Prelude.Result.{Result, ok, ◌>>=◌}
use domainrag_ops.Dict.{Dict, get}
use domainrag_ops.Payload.{Payload, Value, atom, text, lookup}
use domainrag_ops.Acl.Filter.{Filter}
use domainrag_ops.VectorStore.{Hit, Fault}

pub record RetrievedChunk (fl : FloatOps) : Type 0 where
  pub chunk_id : String
  pub doc_id : String
  pub title : String
  pub content : String
  pub page_number : Value
  pub section_title : Value
  pub dense_score : fl.Float
  pub sparse_score : fl.Float
  pub fused_score : fl.Float
  pub payload : Payload
  pub rerank_score : Option fl.Float

pub record RetrievalConfig : Type 0 where
  pub fused_top_k : ℕ
  pub rerank_top_k : ℕ
  pub context_top_k : ℕ
  pub reranker_bypass : Bool

pub record RetrievalResult (fl : FloatOps) : Type 0 where
  pub fused : List (RetrievedChunk fl)
  pub reranked : List (RetrievedChunk fl)
  pub contexts : List (RetrievedChunk fl)

abbrev pub default_config : RetrievalConfig
default_config = record {
  fused_top_k = 50;
  rerank_top_k = 10;
  context_top_k = 5;
  reranker_bypass = false;
}

-- The vector store's `hybrid_query`.
abbrev pub QueryOp : FloatOps → Type 0
QueryOp fl =
    String → List fl.Float → Dict ℕ fl.Float → Option Filter → ℕ → Result Fault (List (Hit fl))

-- A reranker writes to its candidates: they as it leaves them, and its answer.
abbrev pub Reranker : FloatOps → Type 0
Reranker fl =
    String → List (RetrievedChunk fl) → ℕ → List (RetrievedChunk fl) × List (RetrievedChunk fl)

-- `repr` is Python's `str` on a value that is not a text.
module _ (fl : FloatOps) (repr : Value → String) where
  open fl use {Float, of_ℕ, lt}

  as_text : Value → String
  as_text (atom (text s)) = s
  as_text v = repr v

  -- `str(payload.get(key, ""))`
  text_field : Payload → String → String
  unfolding as_text
  text_field p key = elim (get p key) [ none ↦ "" | some v ↦ as_text v ]

  unfoldable pub to_chunk : Hit fl → RetrievedChunk fl
  unfolding text_field
  to_chunk h = record {
    chunk_id = h.id;
    doc_id = text_field h.payload "doc_id";
    title = text_field h.payload "title";
    content = text_field h.payload "content";
    page_number = lookup h.payload "page_number";
    section_title = lookup h.payload "section_title";
    dense_score = of_ℕ 0;
    sparse_score = of_ℕ 0;
    fused_score = h.score;
    payload = h.payload;
    rerank_score = none;
  }

  abbrev pub hits_to_retrieved_chunks : List (Hit fl) → List (RetrievedChunk fl)
  hits_to_retrieved_chunks hits = map to_chunk hits

  -- `self._reranker is None` or the bypass: the first `rerank_top_k` as they come.
  unfoldable pub rerank_step :
      Option (Reranker fl)
      → RetrievalConfig
      → String
      → List (RetrievedChunk fl)
      → List (RetrievedChunk fl) × List (RetrievedChunk fl)
  rerank_step none cfg question fused = (fused, take cfg.rerank_top_k fused)
  rerank_step (some rerank) cfg question fused =
      if cfg.reranker_bypass
      then (fused, take cfg.rerank_top_k fused)
      else rerank question fused cfg.rerank_top_k

  unfoldable pub retrieve :
      (String → List Float × Dict ℕ Float)
      → QueryOp fl
      → Option (Reranker fl)
      → String
      → String
      → Option Filter
      → RetrievalConfig
      → Result Fault (RetrievalResult fl)
  retrieve embed_query query reranker domain_id question acl cfg =
      let (dense, sparse) = embed_query question in
      do
        hits ← query domain_id dense sparse acl cfg.fused_top_k
        let (fused, reranked) = rerank_step reranker cfg question (hits_to_retrieved_chunks hits)
        ok (record {
          fused = fused;
          reranked = reranked;
          contexts = take cfg.context_top_k reranked;
        })

-- `InMemoryReranker`
module _ (fl : FloatOps) where
  open fl use {Float, of_ℕ, lt, over}

  abbrev has_word : List String → String → Bool
  has_word ws w = any (λ v. v == w) ws

  -- `set(ws)`, in some order
  unfoldable pub distinct : List String → List String
  distinct [] = []
  distinct (w ∷ ws) = let rest = distinct ws in if has_word ws w then rest else w ∷ rest

  -- The numbers of words in both texts and in either.
  unfoldable pub overlap : List String → List String → ℕ × ℕ
  overlap q c = let inter = count_if (has_word c) q in (inter, length q + length c - inter)

  -- `_score`
  unfoldable pub jaccard : String → String → Float
  unfolding distinct overlap
  jaccard question content =
      let q = distinct (split question) in
      let c = distinct (split content) in
      let (inter, union) = overlap q c in
      if length q == 0 || length c == 0 || union == 0
      then of_ℕ 0
      else over (of_ℕ inter) (of_ℕ union)

  abbrev pub rescored : String → RetrievedChunk fl → RetrievedChunk fl
  rescored question c = record c { rerank_score = some (jaccard question c.content) }

  abbrev pub better : RetrievedChunk fl → RetrievedChunk fl → Bool
  better y x = lt (or_else x.rerank_score (of_ℕ 0)) (or_else y.rerank_score (of_ℕ 0))

  unfoldable pub rerank : Reranker fl
  rerank question candidates top_k =
      let scored = map (rescored question) candidates in
      (scored, take top_k (sort_by better scored))
