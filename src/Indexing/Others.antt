-- ===== src/Indexing/Others.antt =====
-- What a run of `IndexingService` (rag_core/services/indexing_service.py) leaves of other domains and
-- documents, and of the points that were there.
use domainrag_ops.Prelude.{
  String, ◌≡◌, ◌≢◌, ◌∙◌, refl, sym, ap, Bool, true, false, Option, none, some, List, [], ◌∷◌, arith,
  string_eq, pair_eq, is_some,
}
use domainrag_ops.Prelude.Float.{FloatOps}
use domainrag_ops.Prelude.Effect.{Ends-state}
use domainrag_ops.Dict.{Dict, get, set_item, get-set_item, get-set_item_ne, get-set_item_self}
use domainrag_ops.Payload.{Value}
use domainrag_ops.Pii.{PiiConfig}
use domainrag_ops.Documents
use domainrag_ops.VectorStore.{Point, Store, put_points, set_payloads, update_payload, update_point}
use domainrag_ops.VectorStore.Changed.{Rewrites, upsert_chunks-Rewrites, set_payload-Rewrites}
use domainrag_ops.Indexing.Requests.{IndexingRequest, Service}
use domainrag_ops.Indexing.Steps.{State, write_chunks_and_document, update_chunks}
use domainrag_ops.Indexing.Modes.{point_meta, run}
use domainrag_ops.Indexing.Keeps.Calls.{Keeps}
use domainrag_ops.Indexing.Keeps.{run-Kept}

module _ (fl : FloatOps) where
  -- The collection of a domain has a point of this id.
  unfoldable pub has_point : String → String → Store fl → Bool
  has_point domain_id cid s = elim (get s domain_id) [
    | none ↦ false
    | some coll ↦ is_some (get coll.points cid)
  ]

  put_points-contains :
      (points : List (Point fl)) (d : Dict String (Point fl)) (cid : String)
      → is_some (get d cid) ≡ true
      → is_some (get (put_points fl points d) cid) ≡ true
  unfolding put_points
  put_points-contains [] d cid h = h
  put_points-contains (p ∷ ps) d cid h =
      put_points-contains ps (set_item d p.id p) cid (ground (arith, h, get-set_item d p.id cid p))

  update_point-contains :
      (cid' : String) (payload : Dict String Value) (d : Dict String (Point fl))
      (p : Option (Point fl)) (cid : String)
      → is_some (get d cid) ≡ true
      → is_some (get (update_point fl cid' payload d p) cid) ≡ true
  update_point-contains cid' payload d none cid h = h
  update_point-contains cid' payload d (some p) cid h = ground (
    arith,
    h,
    get-set_item d cid' cid (record p { payload = update_payload fl payload p.payload }),
  )

  set_payloads-contains :
      (cids : List String) (payload : Dict String Value) (d : Dict String (Point fl)) (cid : String)
      → is_some (get d cid) ≡ true
      → is_some (get (set_payloads fl cids payload d) cid) ≡ true
  unfolding set_payloads
  set_payloads-contains [] payload d cid h = h
  set_payloads-contains (c ∷ cids) payload d cid h =
      set_payloads-contains cids payload _ cid (update_point-contains c payload d (get d c) cid h)

module _ (fl : FloatOps) (svc : Service fl) (request : IndexingRequest) where
  has_point-Rewrites :
      (cid : String) (s s' : Store fl) (f : Dict String (Point fl) → Dict String (Point fl))
      → ((d : Dict String (Point fl)) → is_some (get d cid) ≡ true → is_some (get (f d) cid) ≡ true)
      → Rewrites fl request.domain_id s s' f
      → has_point fl request.domain_id cid s ≡ true
      → has_point fl request.domain_id cid s' ≡ true
  unfolding has_point
  has_point-Rewrites cid s s' f keeps r h = ground (
    arith,
    h,
    r.stored,
    r.now,
    keeps r.coll.points,
    get-set_item_self s request.domain_id (record r.coll { points = f r.coll.points }),
  )

  module _ (cid : String) where
    abbrev HasPoint : State fl → Type 0
    HasPoint s = has_point fl request.domain_id cid s.store ≡ true

    HasPoint-Keeps : Keeps fl svc request HasPoint
    unfolding write_chunks_and_document update_chunks
    HasPoint-Keeps = record {
      jobs = λ s jobs h. h;
      points = λ chunks vectors warnings s store e h.
          has_point-Rewrites cid s.store store _ (λ d k. put_points-contains fl _ d cid k)
            (upsert_chunks-Rewrites fl request.domain_id s.store store _ e) h;
      write = λ chunks vectors warnings s h. h;
      rows = λ cids metadata s h. h;
      sections = λ c page s store e h.
          has_point-Rewrites cid s.store store _
            (λ d k. set_payloads-contains fl (c ∷ []) (point_meta page) d cid k)
            (set_payload-Rewrites fl request.domain_id s.store store _ _ e) h;
    }

    -- A run in any mode removes no point from the domain's collection: the points of the chunks
    -- that a new division of the document replaces stay there.
    pub run_keeps_points :
        (job_id : String) (cfg : PiiConfig) (s : State fl)
        → has_point fl request.domain_id cid s.store ≡ true
        → has_point fl request.domain_id cid (run fl svc request job_id cfg s).1.store ≡ true
    run_keeps_points job_id cfg s h =
        Ends-state HasPoint (run fl svc request job_id cfg s)
          (run-Kept fl svc request HasPoint HasPoint-Keeps job_id cfg s h)

  module _ (s0 : State fl) where
    -- The collections of other domains, and the documents under other keys, are as in `s0`.
    record LeavesOthers (t : State fl) : Type 0 where
      pub collections : (d : String) → d ≢ request.domain_id → get t.store d ≡ get s0.store d
      pub documents :
          (k : Documents.Key)
          → k ≢ (request.domain_id, (request.doc_id, request.doc_version))
          → get t.docs k ≡ get s0.docs k

    collections-Rewrites :
        (s : State fl) (store : Store fl) (f : Dict String (Point fl) → Dict String (Point fl))
        → Rewrites fl request.domain_id s.store store f
        → LeavesOthers s
        → LeavesOthers (record s { store = store })
    collections-Rewrites s store f r h = record {
      collections = λ d ne.
          ap (λ x. get x d) r.now
          ∙ get-set_item_ne s.store request.domain_id d _ (λ q. ne (sym q))
          ∙ h.collections d ne;
      documents = h.documents;
    }

    others-Keeps : Keeps fl svc request LeavesOthers
    unfolding write_chunks_and_document update_chunks Documents.upsert
    others-Keeps = record {
      jobs = λ s jobs h. record { collections = h.collections; documents = h.documents };
      points = λ chunks vectors warnings s store e h.
          collections-Rewrites s store _
            (upsert_chunks-Rewrites fl request.domain_id s.store store _ e) h;
      write = λ chunks vectors warnings s h. record {
        collections = h.collections;
        documents = λ k ne.
            get-set_item_ne s.docs (request.domain_id, (request.doc_id, request.doc_version)) k _
              (λ q. ne (sym q))
            ∙ h.documents k ne;
      };
      rows = λ cids metadata s h. record { collections = h.collections; documents = h.documents };
      sections = λ c page s store e h.
          collections-Rewrites s store _
            (set_payload-Rewrites fl request.domain_id s.store store _ _ e) h;
    }

  -- A run in any mode, also one that raises, leaves the collections of other domains and the
  -- documents of other domains, ids and versions as they were.
  pub run_others :
      (job_id : String) (cfg : PiiConfig) (s : State fl) (d : String) (k : Documents.Key)
      → d ≢ request.domain_id
      → k ≢ (request.domain_id, (request.doc_id, request.doc_version))
      → (get (run fl svc request job_id cfg s).1.store d ≡ get s.store d)
        × (get (run fl svc request job_id cfg s).1.docs k ≡ get s.docs k)
  run_others job_id cfg s d k ne ne' =
      let t : LeavesOthers s (run fl svc request job_id cfg s).1 =
        Ends-state (LeavesOthers s) (run fl svc request job_id cfg s) (
          run-Kept fl svc request (LeavesOthers s) (others-Keeps s) job_id cfg s
            (record { collections = λ d ne. refl; documents = λ k ne. refl })) in
      (t.collections d ne, t.documents k ne')
