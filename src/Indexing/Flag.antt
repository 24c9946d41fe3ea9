-- ===== src/Indexing/Flag.antt =====
-- The flag `block_indexing` of the policy for personal data (rag_core/services/pii_service.py) is not
-- read by a run of `IndexingService` (rag_core/services/indexing_service.py).
use domainrag_ops.Prelude.{
  ℕ, String, ◌≡◌, ◌∙◌, refl, sym, ap, fun_ext, Bool, true, false, ◌||◌, not, Option, none, some,
  List, [], ◌∷◌, string_eq, ◌==◌, or_else, Bool-cases, Option-cases, inl, inr, length, map, keep,
  is_some,
}
use domainrag_ops.Prelude.Float.{FloatOps}
use domainrag_ops.Prelude.Effect.{◌>>=◌, ◌>>◌, call}
use domainrag_ops.Dict.{Dict, get, set_item, values, map_values, map_values-set_item}
use domainrag_ops.Pii.{
  PiiConfig, PiiDetector, PiiFinding, ChunkPiiWarning, check_chunk_pii, warn_all,
}
use domainrag_ops.Chunker.{Chunk}
use domainrag_ops.Chunks.Rows.{ChunkRecord}
use domainrag_ops.VectorStore.{Point}
use domainrag_ops.Indexing.{
  add_point, add_record, build_points, build_records, scan_pii, scan_from, embed_safely,
}
use domainrag_ops.Indexing.Requests.{
  ReindexMode, parser_only, chunk_re_split, embedding_only, full, IndexingRequest, IndexingResult,
  Service, Vectors, Warnings, EmbedResult, no_warning, high_pii_count,
}
use domainrag_ops.Indexing.Steps.{
  Run, update_job, list_chunks, create_job, reraise_after, no_change,
}
use domainrag_ops.Indexing.Storing.{
  store_chunks, store_or_fail, fail_fast, complete, index_full, at_step, at_embedding,
}
use domainrag_ops.Indexing.Modes.{
  or_index_full, reindex_parser_only, reindex_embedding_only, dispatch_on, dispatch, embed_again,
  update_sections, run_with_existing_job, new_job, run,
}

-- The policy with another value of the flag.
abbrev pub with_flag : Option Bool → PiiConfig → PiiConfig
with_flag flag cfg = record cfg { indexing = record cfg.indexing { block_indexing = flag } }

abbrev unblocked : ChunkPiiWarning → ChunkPiiWarning
unblocked w = record w { block_indexing = false }

warn_all-with_flag :
    (detector : PiiDetector) (flag : Option Bool) (cfg : PiiConfig) (threshold : ℕ)
    (fs : List PiiFinding)
    → warn_all detector (with_flag flag cfg) threshold fs ≡ warn_all detector cfg threshold fs
unfolding warn_all
warn_all-with_flag detector flag cfg threshold [] = refl
warn_all-with_flag detector flag cfg threshold (f ∷ fs) =
    rw (warn_all-with_flag detector flag cfg threshold fs) refl

check_chunk_pii-with_flag :
    (detector : PiiDetector) (flag : Option Bool) (cfg : PiiConfig) (content : String)
    → unblocked (check_chunk_pii detector content (with_flag flag cfg))
      ≡ unblocked (check_chunk_pii detector content cfg)
unfolding check_chunk_pii
check_chunk_pii-with_flag detector flag cfg content =
    elim (Bool-cases (not (or_else cfg.indexing.enable true) || content == "")) [
      | inl e ↦ rw e refl
      | inr e ↦ rw (e, warn_all-with_flag detector flag cfg _ (detector.scan content)) refl
    ]

module _ (fl : FloatOps) (svc : Service fl) (flag : Option Bool) (cfg : PiiConfig) where
  scan_from-with_flag :
      (chunks : List Chunk) (w w' : Warnings)
      → map_values unblocked w ≡ map_values unblocked w'
      → map_values unblocked (scan_from fl svc chunks (with_flag flag cfg) w)
        ≡ map_values unblocked (scan_from fl svc chunks cfg w')
  unfolding scan_from
  scan_from-with_flag [] w w' h = h
  scan_from-with_flag (c ∷ cs) w w' h =
      scan_from-with_flag cs
        (set_item w c.chunk_id (check_chunk_pii svc.detector c.content (with_flag flag cfg)))
        (set_item w' c.chunk_id (check_chunk_pii svc.detector c.content cfg))
        (map_values-set_item unblocked w c.chunk_id _
          ∙ rw (h, check_chunk_pii-with_flag svc.detector flag cfg c.content) refl
          ∙ sym (map_values-set_item unblocked w' c.chunk_id _))

  scan_pii-with_flag :
      (chunks : List Chunk)
      → map_values unblocked (scan_pii fl svc chunks (with_flag flag cfg))
        ≡ map_values unblocked (scan_pii fl svc chunks cfg)
  unfolding scan_pii
  scan_pii-with_flag chunks = scan_from-with_flag chunks [] [] refl

module _ (fl : FloatOps) (svc : Service fl) (request : IndexingRequest) where
  pii_warnings-unblocked :
      (w : Warnings) (cid : String)
      → (or_else (get (map_values unblocked w) cid) no_warning).pii_warnings
        ≡ (or_else (get w cid) no_warning).pii_warnings
  unfolding get map_values
  pii_warnings-unblocked [] cid = refl
  pii_warnings-unblocked ((k, v) ∷ w) cid = elim (Bool-cases (k == cid)) [
    | inl e ↦ rw e refl
    | inr e ↦ rw e (pii_warnings-unblocked w cid)
  ]

  high_pii_count-unblocked :
      (w : Warnings) → high_pii_count (map_values unblocked w) ≡ high_pii_count w
  unfolding values map_values
  high_pii_count-unblocked [] = refl
  high_pii_count-unblocked ((k, v) ∷ w) = rw (high_pii_count-unblocked w) refl

  build_records-unblocked :
      (chunks : List Chunk) (vectors : Dict String (Vectors fl)) (w : Warnings)
      → build_records fl svc request chunks vectors (map_values unblocked w)
        ≡ build_records fl svc request chunks vectors w
  unfolding build_records
  build_records-unblocked [] vectors w = refl
  build_records-unblocked (c ∷ cs) vectors w =
      added (get vectors c.chunk_id) _ _ (build_records-unblocked cs vectors w)
    where
      added :
          (v : Option (Vectors fl)) (rs rs' : List ChunkRecord)
          → rs ≡ rs'
          → add_record fl svc request (map_values unblocked w) c v rs
            ≡ add_record fl svc request w c v rs'
      added none rs rs' e = e
      added (some v) rs rs' e = rw (e, pii_warnings-unblocked w c.chunk_id) refl

  build_points-unblocked :
      (chunks : List Chunk) (vectors : Dict String (Vectors fl)) (w : Warnings)
      → build_points fl svc request chunks vectors (map_values unblocked w)
        ≡ build_points fl svc request chunks vectors w
  unfolding build_points
  build_points-unblocked [] vectors w = refl
  build_points-unblocked (c ∷ cs) vectors w =
      added (get vectors c.chunk_id) _ _ (build_points-unblocked cs vectors w)
    where
      added :
          (v : Option (Vectors fl)) (ps ps' : List (Point fl))
          → ps ≡ ps'
          → add_point fl svc request (map_values unblocked w) c v ps
            ≡ add_point fl svc request w c v ps'
      added none ps ps' e = e
      added (some v) ps ps' e = rw (e, pii_warnings-unblocked w c.chunk_id) refl

  store_chunks-unblocked :
      (job_id : String) (chunks : List Chunk) (w : Warnings) (embed : EmbedResult fl)
      → store_chunks fl svc request job_id chunks (map_values unblocked w) embed
        ≡ store_chunks fl svc request job_id chunks w embed
  unfolding store_chunks store_or_fail fail_fast complete
  store_chunks-unblocked job_id chunks w embed =
      rw
        (
          build_records-unblocked chunks embed.vectors w,
          build_points-unblocked chunks embed.vectors w,
          high_pii_count-unblocked w,
        )
        refl

module _ (fl : FloatOps) (svc : Service fl) (request : IndexingRequest) where
  -- The ids of the chunks that have vectors.
  abbrev pub with_vectors : List Chunk → Dict String (Vectors fl) → List String
  with_vectors chunks vectors =
      map (λ (c : Chunk). c.chunk_id)
        (keep (λ (c : Chunk). is_some (get vectors c.chunk_id)) chunks)

  row_ids :
      (chunks : List Chunk) (vectors : Dict String (Vectors fl)) (w : Warnings)
      → map (λ (r : ChunkRecord). r.chunk_id) (build_records fl svc request chunks vectors w)
        ≡ with_vectors chunks vectors
  unfolding build_records
  row_ids [] vectors w = refl
  row_ids (c ∷ cs) vectors w = elim (Option-cases (get vectors c.chunk_id)) [
    | inl e ↦ rw e (row_ids cs vectors w)
    | inr (v, e) ↦ rw e (ap (λ ids. c.chunk_id ∷ ids) (row_ids cs vectors w))
  ]

  point_ids :
      (chunks : List Chunk) (vectors : Dict String (Vectors fl)) (w : Warnings)
      → map (λ (p : Point fl). p.id) (build_points fl svc request chunks vectors w)
        ≡ with_vectors chunks vectors
  unfolding build_points
  point_ids [] vectors w = refl
  point_ids (c ∷ cs) vectors w = elim (Option-cases (get vectors c.chunk_id)) [
    | inl e ↦ rw e (point_ids cs vectors w)
    | inr (v, e) ↦ rw e (ap (λ ids. c.chunk_id ∷ ids) (point_ids cs vectors w))
  ]

module _ (fl : FloatOps) (svc : Service fl) (request : IndexingRequest) (job_id : String)
    (flag : Option Bool) (cfg : PiiConfig) where
  store_chunks-with_flag :
      (chunks : List Chunk) (embed : EmbedResult fl)
      → store_chunks fl svc request job_id chunks
          (scan_pii fl svc chunks (with_flag flag cfg))
          embed
        ≡ store_chunks fl svc request job_id chunks (scan_pii fl svc chunks cfg) embed
  store_chunks-with_flag chunks embed =
      sym (store_chunks-unblocked fl svc request job_id chunks _ embed)
      ∙ ap (λ w. store_chunks fl svc request job_id chunks w embed)
          (scan_pii-with_flag fl svc flag cfg chunks)
      ∙ store_chunks-unblocked fl svc request job_id chunks _ embed

  index_full-with_flag :
      index_full fl svc request job_id (with_flag flag cfg) ≡ index_full fl svc request job_id cfg
  unfolding index_full
  index_full-with_flag =
      ap
        (λ store.
          update_job fl job_id (at_step fl svc "parsing" "parse" 10)
          >> (call (svc.parse request.file_path) >>= λ pages.
              update_job fl job_id (at_step fl svc "chunking" "chunk" 30)
              >> (call (svc.chunk request.doc_id request.doc_version svc.parser_version pages)
                  >>= λ chunks.
                      update_job fl job_id (at_embedding fl svc 60 (length chunks))
                      >> store chunks)))
        (fun_ext (λ chunks. store_chunks-with_flag chunks (embed_safely fl svc chunks)))

  or_index_full-with_flag :
      (k : List ChunkRecord → Run fl (IndexingResult fl)) (existing : List ChunkRecord)
      → or_index_full fl svc request job_id (with_flag flag cfg) k existing
        ≡ or_index_full fl svc request job_id cfg k existing
  or_index_full-with_flag k [] = index_full-with_flag
  or_index_full-with_flag k (c ∷ cs) = refl

  reindex_parser_only-with_flag :
      reindex_parser_only fl svc request job_id (with_flag flag cfg)
      ≡ reindex_parser_only fl svc request job_id cfg
  unfolding reindex_parser_only
  reindex_parser_only-with_flag =
      ap
        (λ rest.
          update_job fl job_id (at_step fl svc "parsing" "parse" 20)
          >> (call (svc.parse request.file_path) >>= λ pages.
              list_chunks fl request (some svc.parser_version) >>= rest pages))
        (fun_ext (λ pages. fun_ext (λ existing.
          or_index_full-with_flag (update_sections fl svc request job_id pages) existing)))

  reindex_embedding_only-with_flag :
      reindex_embedding_only fl svc request job_id (with_flag flag cfg)
      ≡ reindex_embedding_only fl svc request job_id cfg
  unfolding reindex_embedding_only
  reindex_embedding_only-with_flag =
      ap (λ rest. list_chunks fl request none >>= rest)
        (fun_ext (or_index_full-with_flag (embed_again fl svc request job_id)))

  dispatch_on-with_flag :
      (mode : ReindexMode)
      → dispatch_on fl svc mode request job_id (with_flag flag cfg)
        ≡ dispatch_on fl svc mode request job_id cfg
  dispatch_on-with_flag embedding_only = reindex_embedding_only-with_flag
  dispatch_on-with_flag parser_only = reindex_parser_only-with_flag
  dispatch_on-with_flag chunk_re_split = index_full-with_flag
  dispatch_on-with_flag full = index_full-with_flag

  unread : run fl svc request job_id (with_flag flag cfg) ≡ run fl svc request job_id cfg
  unfolding run run_with_existing_job dispatch
  unread =
      ap
        (λ dispatched.
          create_job fl (new_job fl svc request job_id)
          >> reraise_after fl dispatched (λ e. update_job fl job_id (record (no_change fl) {
            status = some "failed";
            error_message = some (svc.error_text e);
          })))
        (dispatch_on-with_flag request.mode)

  -- Whatever the policy's `block_indexing` is, a run ends with the same value or exception and the
  -- same state; and whatever was found in the chunks, the rows that are built of them to be written,
  -- and the points to be upserted, are those of all the chunks that have vectors, in order.
  pub run-with_flag :
      (chunks : List Chunk) (vectors : Dict String (Vectors fl)) (warnings : Warnings)
      → (run fl svc request job_id (with_flag flag cfg) ≡ run fl svc request job_id cfg)
        × (map
              (λ (r : ChunkRecord). r.chunk_id)
              (build_records fl svc request chunks vectors warnings)
            ≡ with_vectors fl svc request chunks vectors)
        × (map (λ (p : Point fl). p.id) (build_points fl svc request chunks vectors warnings)
            ≡ with_vectors fl svc request chunks vectors)
  run-with_flag chunks vectors warnings = (
    unread,
    row_ids fl svc request chunks vectors warnings,
    point_ids fl svc request chunks vectors warnings,
  )
