-- ===== src/Indexing/Outcome/Modes.antt =====
-- How the parts of a run of `IndexingService` end: storing the chunks, embedding again and writing the
-- sections (rag_core/services/indexing_service.py).
use domainrag_ops.Prelude.{
  ℕ, String, ◌≡◌, ap, inl, refl, Option, none, some, List, [], ◌∷◌, string_eq, length, nat_eq,
}
use domainrag_ops.Prelude.Float.{FloatOps}
use domainrag_ops.Prelude.Result.{Result, ok, err}
use domainrag_ops.Prelude.Effect.{Ends, Ends-map, Ends->>=, Ends->>, Ends-pure, Ends-modify}
use domainrag_ops.Dict.{Dict}
use domainrag_ops.Payload.{Value}
use domainrag_ops.Pii.{PiiConfig}
use domainrag_ops.Chunker.{Chunk, ParsedPage}
use domainrag_ops.Chunks.Rows.{ChunkRecord}
use domainrag_ops.VectorStore.{Store, Fault}
use domainrag_ops.Indexing.Requests.{
  IndexingRequest, Service, IndexingResult, Exception, embedding_only, parser_only,
}
use domainrag_ops.Indexing.Steps.{
  State, list_chunks, write_chunks_and_document, update_chunks, try_set_payload, kept_store,
}
use domainrag_ops.Chunks
use domainrag_ops.Documents
use domainrag_ops.Indexing.{embed_safely, scan_pii, to_document}
use domainrag_ops.Indexing.Outcome.Data.{
  Stored, Stored-IsOfData, new_chunks, new_vectors, new_sections,
}
use domainrag_ops.Indexing.Storing.{store_chunks, index_full}
use domainrag_ops.Indexing.Modes.{
  update_sections, embed_again, row_meta, update_from_page, update_from_pages,
}
use domainrag_ops.Indexing.Waiting.{
  HasJob, HasStatus, has_status, Answers-call, Waits, Outcome, waits, Undone, Ends-update_job,
  HasJob-update_chunks, store_or_fail-Outcome, stored,
}

module _ (fl : FloatOps) (svc : Service fl) (job_id : String) where
  module _ (request : IndexingRequest) (cfg : PiiConfig) (s0 : State fl) where
    abbrev pub Ended : Result Exception (IndexingResult fl) × State fl → Type 0
    Ended r =
        Ends (Outcome fl svc job_id (Stored fl svc job_id request cfg s0) s0)
          (Undone fl svc job_id s0) r

    store_chunks-Outcome :
        (pages : List ParsedPage) (chunks : List Chunk) (s : State fl)
        → svc.parse request.file_path ≡ ok pages
        → svc.chunk request.doc_id request.doc_version svc.parser_version pages ≡ ok chunks
        → Waits fl svc job_id s0 s
        → Ended (
            store_chunks fl svc request job_id chunks
              (scan_pii fl svc chunks cfg)
              (embed_safely fl svc chunks)
              s)
    unfolding store_chunks write_chunks_and_document
    store_chunks-Outcome pages chunks s parsed divided w =
        Ends->> _ _ s (Ends-update_job fl svc job_id _ s0 s w) (λ _ t u.
          store_or_fail-Outcome fl svc job_id _ (Stored-IsOfData fl svc job_id request cfg s0)
            request.domain_id _ _ (length chunks) (embed_safely fl svc chunks)
            (scan_pii fl svc chunks cfg) _ _ s0 t
            (λ v h there. (
              h,
              new_chunks pages chunks parsed divided there.upserted
                  (ap
                    (Chunks.replace_chunks request.domain_id request.doc_id request.doc_version
                      svc.parser_version _)
                    there.chunks)
                  (ap (Documents.upsert (to_document fl svc request)) there.docs),
            ))
            (waits fl svc job_id _ s0 t u))

    pub index_full-Outcome :
        (s : State fl) → Waits fl svc job_id s0 s → Ended (index_full fl svc request job_id cfg s)
    unfolding index_full
    index_full-Outcome s w = Ends->> _ _ s (Ends-update_job fl svc job_id _ s0 s w) (λ _ t1 u1.
        Ends->>= _ _ t1 (Answers-call fl svc job_id s0 t1 _ (waits fl svc job_id _ s0 t1 u1))
          (λ pages t2 (parsed, w2).
            Ends->> _ _ t2 (Ends-update_job fl svc job_id _ s0 t2 w2) (λ _ t3 u3.
              Ends->>= _ _ t3 (Answers-call fl svc job_id s0 t3 _ (waits fl svc job_id _ s0 t3 u3))
                (λ chunks t4 (divided, w4).
                  Ends->> _ _ t4 (Ends-update_job fl svc job_id _ s0 t4 w4) (λ _ t5 u5.
                    store_chunks-Outcome pages chunks t5 parsed divided
                      (waits fl svc job_id _ s0 t5 u5))))))

    pub embed_again-Outcome :
        (rows : List ChunkRecord) (s : State fl)
        → request.mode ≡ embedding_only
        → rows
          ≡ Chunks.list_by_doc request.domain_id request.doc_id request.doc_version none s0.chunks
        → Waits fl svc job_id s0 s
        → Ended (embed_again fl svc request job_id rows s)
    unfolding embed_again update_chunks
    embed_again-Outcome rows s mode listed w =
        Ends->> _ _ s (Ends-update_job fl svc job_id _ s0 s w) (λ _ t u.
          store_or_fail-Outcome fl svc job_id _ (Stored-IsOfData fl svc job_id request cfg s0)
            request.domain_id _ _ (length rows) _ _ _ _ s0 t
            (λ v h there. (
              h,
              new_vectors mode rows listed there.upserted
                  (ap (Chunks.update_metadata request.domain_id _ _) there.chunks) there.docs,
            ))
            (waits fl svc job_id _ s0 t u))

    -- The rows that are listed are those of `s0`.
    pub Lists-list_chunks :
        (parser_version : Option String) (s : State fl)
        → Waits fl svc job_id s0 s
        → Ends
            (λ rows t.
              (rows
                ≡ Chunks.list_by_doc request.domain_id request.doc_id request.doc_version
                    parser_version s0.chunks)
              × Waits fl svc job_id s0 t)
            (Undone fl svc job_id s0)
            (list_chunks fl request parser_version s)
    unfolding list_chunks
    Lists-list_chunks parser_version s w = record {
      ended = (
        ap (Chunks.list_by_doc request.domain_id request.doc_id request.doc_version parser_version)
            w.1.chunks,
        w,
      );
    }

  HasJob-kept_store :
      (s : State fl) (r : Result Fault (Store fl))
      → HasJob fl svc job_id s
      → HasJob fl svc job_id (kept_store fl s r)
  HasJob-kept_store s (ok store) h = h
  HasJob-kept_store s (err e) h = h

  HasJob-try_set_payload :
      (domain_id : String) (cids : List String) (payload : Dict String Value) (s : State fl)
      → HasJob fl svc job_id s
      → HasJob fl svc job_id (try_set_payload fl domain_id cids payload s)
  unfolding try_set_payload
  HasJob-try_set_payload domain_id cids payload s h = HasJob-kept_store s _ h

  HasJob-update_from_page :
      (request : IndexingRequest) (cid : String) (page : Option ParsedPage) (s : State fl)
      → HasJob fl svc job_id s
      → HasJob fl svc job_id (update_from_page fl svc request cid page s)
  HasJob-update_from_page request cid none s h = h
  HasJob-update_from_page request cid (some page) s h =
      HasJob-try_set_payload request.domain_id _ _ _
        (HasJob-update_chunks fl svc job_id request.domain_id (cid ∷ []) (row_meta page) s h)

  HasJob-update_from_pages :
      (request : IndexingRequest) (pages : Dict ℕ ParsedPage) (cs : List ChunkRecord) (s : State fl)
      → HasJob fl svc job_id s
      → HasJob fl svc job_id (update_from_pages fl svc request pages cs s)
  unfolding update_from_pages
  HasJob-update_from_pages request pages [] s h = h
  HasJob-update_from_pages request pages (c ∷ cs) s h =
      HasJob-update_from_pages request pages cs _ (HasJob-update_from_page request c.chunk_id _ s h)

  pub update_sections-Outcome :
      (request : IndexingRequest) (cfg : PiiConfig) (pages : List ParsedPage)
      (rows : List ChunkRecord) (s0 s : State fl)
      → request.mode ≡ parser_only
      → svc.parse request.file_path ≡ ok pages
      → rows
        ≡ Chunks.list_by_doc request.domain_id request.doc_id request.doc_version
            (some svc.parser_version)
            s0.chunks
      → Waits fl svc job_id s0 s
      → Ended request cfg s0 (update_sections fl svc request job_id pages rows s)
  unfolding update_sections
  update_sections-Outcome request cfg pages rows s0 s mode parsed listed w =
      Ends->>
        {Q = λ _ t. HasStatus fl svc job_id "completed" t × Stored fl svc job_id request cfg s0 t} _
        _ s
        (Ends->> {Q = λ _ t. HasJob fl svc job_id t × Stored fl svc job_id request cfg s0 t} _ _ s
          (Ends->> {R = λ _ t. HasJob fl svc job_id t × Stored fl svc job_id request cfg s0 t} _ _ s
            (Ends-update_job fl svc job_id _ s0 s w)
            (λ _ t u.
              Ends-modify
                {Q = λ _ t. HasJob fl svc job_id t × Stored fl svc job_id request cfg s0 t} _ t
                (
                  HasJob-update_from_pages request _ rows t (waits fl svc job_id _ s0 t u).0,
                  new_sections mode pages rows parsed listed t u.same
                      (record { docs = refl; chunks = refl; store = refl }),
                )))
          (λ _ t (h, held).
            Ends-map _
              (λ _ v u. (
                has_status fl svc job_id _ t v "completed" u refl,
                Stored-IsOfData fl svc job_id request cfg s0 t v u.same held,
              ))
              (Ends-update_job fl svc job_id _ t t
                (h, record { docs = refl; chunks = refl; store = refl }))))
        (λ _ t (h, held). Ends-pure _ t (stored (inl refl) h held))
