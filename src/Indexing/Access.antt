-- ===== src/Indexing/Access.antt =====
-- Who sees a document that `IndexingService` indexed (rag_core/services/indexing_service.py with
-- the filter of rag_core/services/acl_builder.py).
use domainrag_ops.Prelude.{
  ℕ, String, ◌≡◌, refl, sym, subst, Bool, true, false, ◌&&◌, Option, none, some, List, [], ◌∷◌,
  arith, string_eq, ◌==◌, map, All, All-map, All-of_mem, Option-cases, inl, inr,
}
use domainrag_ops.Prelude.Float.{FloatOps}
use domainrag_ops.Prelude.Result.{ok}
use domainrag_ops.Prelude.Effect.{Ends-state}
use domainrag_ops.Dict.{Dict, get, set_item, values, get-set_item}
use domainrag_ops.Payload.{Payload, lookup, value_eq, atom_eq, atom, items, text}
use domainrag_ops.Acl.Filter.{payload_match}
use domainrag_ops.Acl.Builder.{Principal, build_qdrant_acl_filter}
use domainrag_ops.Acl.Admission.{AclMeta, Describes, text_or_null, admits, payload_match-build}
use domainrag_ops.Acl.Fields.{SameFields, payload_match-SameFields}
use domainrag_ops.Pii.{PiiConfig}
use domainrag_ops.Chunker.{Chunk, ParsedPage}
use domainrag_ops.VectorStore.{Point, Store, Hit, to_hit, hybrid_query, update_payload}
use domainrag_ops.VectorStore.Query.{hybrid_query_sound}
use domainrag_ops.VectorStore.Changed.{
  Rewrites, points_in, points_in-Rewrites, upsert_chunks-Rewrites, set_payload-Rewrites,
  put_points-All, set_payloads-All,
}
use domainrag_ops.Indexing.{payload_of, build_points}
use domainrag_ops.Indexing.Requests.{IndexingRequest, Service, Vectors, Warnings, text_value}
use domainrag_ops.Indexing.Steps.{State, write_chunks_and_document, update_chunks}
use domainrag_ops.Indexing.Modes.{point_meta, run_with_existing_job, run}
use domainrag_ops.Indexing.Keeps.Calls.{Keeps}
use domainrag_ops.Indexing.Keeps.{run_with_existing_job-Kept, run-Kept}

-- The fields of the request on which access depends.
abbrev pub meta_of : IndexingRequest → AclMeta
meta_of request = record {
  approval_status = request.approval_status;
  security_level = request.security_level;
  acl = request.acl;
  valid_from = request.valid_from;
  valid_until = request.valid_until;
  archived = false;
}

module _ (fl : FloatOps) (svc : Service fl) (request : IndexingRequest) where
  text_value_lem : (o : Option String) → text_value o ≡ text_or_null o
  text_value_lem none = refl
  text_value_lem (some s) = refl

  -- The payload that a chunk gets has the request's fields.
  pub payload_of-Describes :
      (warnings : Warnings) (c : Chunk)
      → Describes (meta_of request) (payload_of fl svc request warnings c)
  unfolding lookup get value_eq atom_eq
  payload_of-Describes warnings c = record {
    approval_status = refl;
    security_level = refl;
    acl = refl;
    valid_from = text_value_lem request.valid_from;
    valid_until = text_value_lem request.valid_until;
    archived = refl;
  }

  module _ (u : Principal) (today : Option String) (exclude_archived : Bool) where
    abbrev is_true : Option Bool → Bool
    is_true (some true) = true
    is_true _ = false

    -- The point is one of the request's document, and the user's filter passes it.
    unfoldable pub shows : Payload → Bool
    shows p =
        value_eq (lookup p "doc_id") (atom (text request.doc_id))
        && is_true (payload_match p (some (build_qdrant_acl_filter u today exclude_archived)))

    abbrev IsHidden : Point fl → Type 0
    IsHidden p = shows p.payload ≡ false

    -- No point of the domain's collection shows the document to the user.
    abbrev pub HidesDocument : State fl → Type 0
    HidesDocument s = All (λ p. shows p.payload ≡ false) (points_in fl request.domain_id s.store)

    rejected_lem :
        (c : Chunk) (warnings : Warnings)
        → admits u today exclude_archived (meta_of request) ≡ false
        → shows (payload_of fl svc request warnings c) ≡ false
    unfolding shows
    rejected_lem c warnings h = ground (
      arith,
      h,
      payload_match-build (meta_of request) (payload_of fl svc request warnings c)
          (payload_of-Describes warnings c) u today exclude_archived,
    )

    build_points-IsHidden :
        (chunks : List Chunk) (vectors : Dict String (Vectors fl)) (warnings : Warnings)
        → admits u today exclude_archived (meta_of request) ≡ false
        → All IsHidden (build_points fl svc request chunks vectors warnings)
    unfolding build_points
    build_points-IsHidden [] vectors warnings h = tt
    build_points-IsHidden (c ∷ cs) vectors warnings h =
        elim (Option-cases (get vectors c.chunk_id)) [
          | inl e ↦ rw e (build_points-IsHidden cs vectors warnings h)
          | inr (v, e) ↦
              rw e (rejected_lem c warnings h, build_points-IsHidden cs vectors warnings h)
        ]

    section_lookup :
        (page : ParsedPage) (p : Payload) (k : String)
        → ("section_title" == k) ≡ false
        → ("heading_path" == k) ≡ false
        → lookup (update_payload fl (point_meta page) p) k ≡ lookup p k
    unfolding update_payload lookup
    section_lookup page p k e1 e2 =
        let first = set_item p "section_title" (text_value page.section_title) in
        ground (
          arith,
          e1,
          e2,
          get-set_item p "section_title" k (text_value page.section_title),
          get-set_item first "heading_path" k (items (map text page.heading_path)),
        )

    section_fields :
        (page : ParsedPage) (p : Payload) → SameFields (update_payload fl (point_meta page) p) p
    section_fields page p = record {
      approval_status = section_lookup page p "approval_status" refl refl;
      security_level = section_lookup page p "security_level" refl refl;
      acl = section_lookup page p "acl" refl refl;
      valid_from = section_lookup page p "valid_from" refl refl;
      valid_until = section_lookup page p "valid_until" refl refl;
      archived = section_lookup page p "archived" refl refl;
    }

    sections-IsHidden :
        (page : ParsedPage) (p : Point fl)
        → IsHidden p
        → IsHidden (record p { payload = update_payload fl (point_meta page) p.payload })
    unfolding shows
    sections-IsHidden page p h = ground (
      arith,
      h,
      section_lookup page p.payload "doc_id" refl refl,
      payload_match-SameFields _ p.payload (section_fields page p.payload) u today exclude_archived,
    )

    rewritten :
        (s : State fl) (store : Store fl) (f : Dict String (Point fl) → Dict String (Point fl))
        → ((d : Dict String (Point fl)) → All IsHidden (values d) → All IsHidden (values (f d)))
        → Rewrites fl request.domain_id s.store store f
        → HidesDocument s
        → HidesDocument (record s { store = store })
    rewritten s store f keeps r h =
        ground
          (arith, points_in-Rewrites fl request.domain_id s.store store f r, keeps r.coll.points)

    hides-Keeps :
        admits u today exclude_archived (meta_of request) ≡ false
        → Keeps fl svc request HidesDocument
    unfolding write_chunks_and_document update_chunks
    hides-Keeps no_access = record {
      jobs = λ s jobs h. h;
      points = λ chunks vectors warnings s store e h.
          rewritten s store _
            (λ d.
              put_points-All fl IsHidden _ d
                (build_points-IsHidden chunks vectors warnings no_access))
            (upsert_chunks-Rewrites fl request.domain_id s.store store _ e) h;
      write = λ chunks vectors warnings s h. h;
      rows = λ cids metadata s h. h;
      sections = λ cid page s store e h.
          rewritten s store _
            (λ d.
              set_payloads-All fl IsHidden (cid ∷ []) (point_meta page) d (sections-IsHidden page))
            (set_payload-Rewrites fl request.domain_id s.store store _ _ e) h;
    }

    pub run_hides :
        (job_id : String) (cfg : PiiConfig) (s : State fl)
        → admits u today exclude_archived (meta_of request) ≡ false
        → HidesDocument s
        → HidesDocument (run fl svc request job_id cfg s).1
    run_hides job_id cfg s no_access h =
        Ends-state HidesDocument (run fl svc request job_id cfg s)
          (run-Kept fl svc request HidesDocument (hides-Keeps no_access) job_id cfg s h)

    pub run_with_existing_job_hides :
        (job_id : String) (cfg : PiiConfig) (s : State fl)
        → admits u today exclude_archived (meta_of request) ≡ false
        → HidesDocument s
        → HidesDocument (run_with_existing_job fl svc request job_id cfg s).1
    run_with_existing_job_hides job_id cfg s no_access h =
        Ends-state HidesDocument (run_with_existing_job fl svc request job_id cfg s) (
          run_with_existing_job-Kept fl svc request HidesDocument (hides-Keeps no_access) job_id cfg
            s h)

    -- The payload is of the request's document.
    unfoldable pub is_of_document : Payload → Bool
    is_of_document p = value_eq (lookup p "doc_id") (atom (text request.doc_id))

    not_shown :
        (p : Payload)
        → payload_match p (some (build_qdrant_acl_filter u today exclude_archived)) ≡ some true
        → shows p ≡ false
        → is_of_document p ≡ false
    unfolding shows is_of_document
    not_shown p matched none_shown = ground (arith, matched, none_shown)

    -- Where no point shows the document to the user, no query with the user's filter returns one
    -- of its chunks.
    pub hidden_unseen :
        (t : State fl)
        → HidesDocument t
        → (dense : List fl.Float) (sparse : Dict ℕ fl.Float) (top_k : ℕ) (hits : List (Hit fl))
        → hybrid_query fl request.domain_id dense sparse
            (some (build_qdrant_acl_filter u today exclude_archived))
            top_k
            t.store
          ≡ ok hits
        → All (λ h. is_of_document h.payload ≡ false) hits
    unfolding points_in
    hidden_unseen t h dense sparse top_k hits e =
        let flt = some (build_qdrant_acl_filter u today exclude_archived) in
        let (coll, stored, answers, _) =
          hybrid_query_sound fl dense sparse flt request.domain_id top_k t.store hits e in
        let hidden : All (λ p. shows p.payload ≡ false) (values coll.points) =
          ground (arith, stored, h) in
        All-map
          (λ hit (sp, shape, answer). not_of sp hit shape answer.matched (
            All-of_mem (λ p. shows p.payload ≡ false) (values coll.points) (λ p. hlevel) hidden
              answer.stored))
          hits answers
      where
        not_of :
            (sp : fl.Float × Point fl) (hit : Hit fl)
            → hit ≡ to_hit fl sp
            → payload_match sp.1.payload (some (build_qdrant_acl_filter u today exclude_archived))
              ≡ some true
            → shows sp.1.payload ≡ false
            → is_of_document hit.payload ≡ false
        not_of sp hit shape matched none_shown =
            subst (λ x. is_of_document x.payload ≡ false) (sym shape)
              (not_shown sp.1.payload matched none_shown)

    -- Where the user may not see what the request describes, and no point showed the document to
    -- the user before, no query with the user's filter returns a chunk of the document after it
    -- is indexed in any mode, also when the run raises.
    pub run_unseen :
        (job_id : String) (cfg : PiiConfig) (s : State fl)
        → admits u today exclude_archived (meta_of request) ≡ false
        → HidesDocument s
        → (dense : List fl.Float) (sparse : Dict ℕ fl.Float) (top_k : ℕ) (hits : List (Hit fl))
        → hybrid_query fl request.domain_id dense sparse
            (some (build_qdrant_acl_filter u today exclude_archived))
            top_k
            (run fl svc request job_id cfg s).1.store
          ≡ ok hits
        → All (λ h. is_of_document h.payload ≡ false) hits
    run_unseen job_id cfg s no_access h =
        hidden_unseen (run fl svc request job_id cfg s).1 (run_hides job_id cfg s no_access h)
