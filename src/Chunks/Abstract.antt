-- ===== src/Chunks/Abstract.antt =====
-- What `ChunkRepository` promises (rag_core/interfaces/chunk_repository.py): lists of rows by
-- domain, document, version and parser. The shared rows of rag_core/clients/in_memory.py hold
-- those lists.
use domainrag_ops.Prelude.{
  ℕ, suc, ◌<◌, String, ◌≡◌, ◌∙◌, refl, ap, Bool, Option, some, List, [], ◌∷◌, ◌++◌, string_eq,
  nat_eq, pair_eq, arith, All, if◌then◌else◌,
}
use domainrag_ops.Dict.{
  Dict, get, set_item, pop, values, get-set_item_ne, get-set_item_self, map_values,
  map_values-set_item, map_values-pop,
}
use domainrag_ops.Chunks.{
  Key, Repository, rows_at, refs_from, store_rows, replace_chunks, listed_rows, list_by_doc,
  is_listed, is_meant, keys_to_remove, pop_keys, delete_by_doc, ids,
}
use domainrag_ops.Chunks.Rows.{ChunkRecord}

-- The abstract repository.
abbrev pub Lists : Type 0
Lists = Dict Key (List ChunkRecord)

-- The lists that a repository holds.
unfoldable pub view : Repository → Lists
view r = map_values (rows_at r.rows) r.chunks

-- The references that are in use were given out.
abbrev pub IsAllocated : Repository → Type 0
IsAllocated r = All (All (λ ref. ref < r.next)) (values r.chunks)

-- `list_by_doc` and `delete_by_doc` on the lists.
unfoldable pub select : (Key → Bool) → Lists → List ChunkRecord
select p [] = []
select p ((k, rows) ∷ lists) = let rest = select p lists in if p k then rows ++ rest else rest

unfoldable pub keys_where : (Key → Bool) → Lists → List Key
keys_where p [] = []
keys_where p ((k, _) ∷ lists) = let rest = keys_where p lists in if p k then k ∷ rest else rest

unfoldable pub without : List Key → Lists → Lists
without [] lists = lists
without (k ∷ ks) lists = without ks (pop lists k)

get-store_rows_old :
    (next : ℕ) (cs : List ChunkRecord) (rows : Dict ℕ ChunkRecord) (ref : ℕ)
    → ref < next
    → get (store_rows next cs rows) ref ≡ get rows ref
unfolding store_rows
get-store_rows_old next [] rows ref h = refl
get-store_rows_old next (c ∷ cs) rows ref h =
    get-store_rows_old (suc next) cs (set_item rows next c) ref (omega arith)
    ∙ get-set_item_ne rows next ref c (λ q. omega arith)

rows_at-store_rows_old :
    (next : ℕ) (cs : List ChunkRecord) (rows : Dict ℕ ChunkRecord) (refs : List ℕ)
    → All (λ ref. ref < next) refs
    → rows_at (store_rows next cs rows) refs ≡ rows_at rows refs
unfolding rows_at
rows_at-store_rows_old next cs rows [] h = refl
rows_at-store_rows_old next cs rows (ref ∷ refs) h =
    ground
      (arith, get-store_rows_old next cs rows ref h.0, rows_at-store_rows_old next cs rows refs h.1)

rows_at-store_rows :
    (next : ℕ) (cs : List ChunkRecord) (rows : Dict ℕ ChunkRecord)
    → rows_at (store_rows next cs rows) (refs_from next cs) ≡ cs
unfolding rows_at store_rows
rows_at-store_rows next [] rows = refl
rows_at-store_rows next (c ∷ cs) rows =
    let first : get (store_rows (suc next) cs (set_item rows next c)) next ≡ some c =
      get-store_rows_old (suc next) cs (set_item rows next c) next (omega arith)
      ∙ get-set_item_self rows next c in
    ground (arith, first, rows_at-store_rows (suc next) cs (set_item rows next c))

map_values-store_rows :
    (next : ℕ) (cs : List ChunkRecord) (rows : Dict ℕ ChunkRecord) (chunks : Dict Key (List ℕ))
    → All (All (λ ref. ref < next)) (values chunks)
    → map_values (rows_at (store_rows next cs rows)) chunks ≡ map_values (rows_at rows) chunks
unfolding map_values values
map_values-store_rows next cs rows [] h = refl
map_values-store_rows next cs rows ((k, refs) ∷ chunks) h =
    rw (rows_at-store_rows_old next cs rows refs h.0, map_values-store_rows next cs rows chunks h.1)
      refl

-- Where the references in use were given out, `replace_chunks` replaces the list of its document,
-- version and parser by the new chunks and changes no other list.
pub replace_chunks-view :
    (domain_id doc_id doc_version parser_version : String) (cs : List ChunkRecord) (r : Repository)
    → IsAllocated r
    → view (replace_chunks domain_id doc_id doc_version parser_version cs r)
      ≡ set_item
          (pop (view r) (domain_id, (doc_id, (doc_version, parser_version))))
          (domain_id, (doc_id, (doc_version, parser_version)))
          cs
unfolding view replace_chunks
replace_chunks-view domain_id doc_id doc_version parser_version cs r h =
    let key : Key = (domain_id, (doc_id, (doc_version, parser_version))) in
    let rows : Dict ℕ ChunkRecord = store_rows r.next cs r.rows in
    map_values-set_item (rows_at rows) (pop r.chunks key) key (refs_from r.next cs)
    ∙ rw
        (
          rows_at-store_rows r.next cs r.rows,
          map_values-pop (rows_at rows) r.chunks key,
          map_values-store_rows r.next cs r.rows r.chunks h,
        )
        refl

listed_rows_lem :
    (p : Key → Bool) (chunks : Dict Key (List ℕ)) (rows : Dict ℕ ChunkRecord)
    → listed_rows p chunks rows ≡ select p (map_values (rows_at rows) chunks)
unfolding listed_rows select map_values
listed_rows_lem p [] rows = refl
listed_rows_lem p ((k, refs) ∷ chunks) rows = rw (listed_rows_lem p chunks rows) refl

pub list_by_doc-view :
    (domain_id doc_id doc_version : String) (parser_version : Option String) (r : Repository)
    → list_by_doc domain_id doc_id doc_version parser_version r
      ≡ select (is_listed domain_id doc_id doc_version parser_version) (view r)
unfolding list_by_doc view
list_by_doc-view domain_id doc_id doc_version parser_version r =
    listed_rows_lem (is_listed domain_id doc_id doc_version parser_version) r.chunks r.rows

keys_to_remove_lem :
    (p : Key → Bool) (f : List ℕ → List ChunkRecord) (chunks : Dict Key (List ℕ))
    → keys_to_remove p chunks ≡ keys_where p (map_values f chunks)
unfolding keys_to_remove keys_where map_values
keys_to_remove_lem p f [] = refl
keys_to_remove_lem p f ((k, refs) ∷ chunks) = rw (keys_to_remove_lem p f chunks) refl

map_values-pop_keys :
    (ks : List Key) (f : List ℕ → List ChunkRecord) (chunks : Dict Key (List ℕ))
    → map_values f (pop_keys ks chunks) ≡ without ks (map_values f chunks)
unfolding pop_keys without
map_values-pop_keys [] f chunks = refl
map_values-pop_keys (k ∷ ks) f chunks =
    map_values-pop_keys ks f (pop chunks k) ∙ ap (without ks) (map_values-pop f chunks k)

-- `delete_by_doc` returns the ids of the rows in the lists that it is asked for, and removes
-- exactly those lists.
pub delete_by_doc-view :
    (domain_id doc_id : String) (doc_version : Option String) (r : Repository)
    → ((delete_by_doc domain_id doc_id doc_version r).0
        ≡ ids (select (is_meant domain_id doc_id doc_version) (view r)))
      × (view (delete_by_doc domain_id doc_id doc_version r).1
          ≡ without (keys_where (is_meant domain_id doc_id doc_version) (view r)) (view r))
unfolding delete_by_doc view
delete_by_doc-view domain_id doc_id doc_version r =
    let meant = is_meant domain_id doc_id doc_version in
    (
      ap ids (listed_rows_lem meant r.chunks r.rows),
      map_values-pop_keys (keys_to_remove meant r.chunks) (rows_at r.rows) r.chunks
          ∙ ap (λ ks. without ks (map_values (rows_at r.rows) r.chunks))
              (keys_to_remove_lem meant (rows_at r.rows) r.chunks),
    )
