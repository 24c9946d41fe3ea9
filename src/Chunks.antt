-- ===== src/Chunks.antt =====
-- `InMemoryChunkRepository` (rag_core/clients/in_memory.py): the rows of the chunks. A row is one object that the
-- table by document and the table by id share, so both hold references into a store of rows.

pub mod Rows
pub mod Abstract
use domainrag_ops.Chunks.Rows.{ChunkRecord, Item, set_attributes}
use domainrag_ops.Prelude.{
  ℕ, suc, String, Bool, true, false, ◌&&◌, Option, none, some, List, [], ◌∷◌, ◌++◌, ◌==◌, string_eq,
  nat_eq, pair_eq, or_else, if◌then◌else◌,
}
use domainrag_ops.Dict.{Dict, get, set_item, pop}
use domainrag_ops.Payload.{Finding}

-- (domain_id, doc_id, doc_version, parser_version)
abbrev pub Key : Type 0
Key = String × (String × (String × String))

-- The rows by reference and the next free reference; `_chunks`; `_by_id`.
pub record Repository : Type 0 where
  pub rows : Dict ℕ ChunkRecord
  pub next : ℕ
  pub chunks : Dict Key (List ℕ)
  pub by_id : Dict (String × String) ℕ

-- The rows that references name.
unfoldable pub rows_at : Dict ℕ ChunkRecord → List ℕ → List ChunkRecord
rows_at rows [] = []
rows_at rows (ref ∷ refs) =
    let rest = rows_at rows refs in elim (get rows ref) [ none ↦ rest | some row ↦ row ∷ rest ]

-- `self._by_id.pop((domain_id, c.chunk_id), None)` for each row
unfoldable pub forget :
    String → List ChunkRecord → Dict (String × String) ℕ → Dict (String × String) ℕ
forget domain_id [] by_id = by_id
forget domain_id (c ∷ cs) by_id = forget domain_id cs (pop by_id (domain_id, c.chunk_id))

-- The references that new rows get, from `next` on.
abbrev pub refs_from : ℕ → List ChunkRecord → List ℕ
refs_from next [] = []
refs_from next (c ∷ cs) = next ∷ refs_from (suc next) cs

abbrev pub next_after : ℕ → List ChunkRecord → ℕ
next_after next [] = next
next_after next (c ∷ cs) = next_after (suc next) cs

unfoldable pub store_rows : ℕ → List ChunkRecord → Dict ℕ ChunkRecord → Dict ℕ ChunkRecord
store_rows next [] rows = rows
store_rows next (c ∷ cs) rows = store_rows (suc next) cs (set_item rows next c)

-- `self._by_id[(domain_id, c.chunk_id)] = c` for each new row
unfoldable pub link :
    String → ℕ → List ChunkRecord → Dict (String × String) ℕ → Dict (String × String) ℕ
link domain_id next [] by_id = by_id
link domain_id next (c ∷ cs) by_id =
    link domain_id (suc next) cs (set_item by_id (domain_id, c.chunk_id) next)

unfoldable pub replace_chunks :
    String → String → String → String → List ChunkRecord → Repository → Repository
unfolding rows_at forget store_rows link
replace_chunks domain_id doc_id doc_version parser_version chunks r =
    let key : Key = (domain_id, (doc_id, (doc_version, parser_version))) in
    let existing = rows_at r.rows (or_else (get r.chunks key) []) in
    record {
      rows = store_rows r.next chunks r.rows;
      next = next_after r.next chunks;
      chunks = set_item (pop r.chunks key) key (refs_from r.next chunks);
      by_id = link domain_id r.next chunks (forget domain_id existing r.by_id);
    }

abbrev pub update_row : List Item → Option ℕ → Dict ℕ ChunkRecord → Dict ℕ ChunkRecord
update_row metadata none rows = rows
update_row metadata (some ref) rows = elim (get rows ref) [
  | none ↦ rows
  | some row ↦ set_item rows ref (set_attributes metadata row)
]

-- The loop over `chunk_ids`.
unfoldable pub update_rows :
    String
    → List String
    → List Item
    → Dict (String × String) ℕ
    → Dict ℕ ChunkRecord
    → Dict ℕ ChunkRecord
update_rows domain_id [] metadata by_id rows = rows
update_rows domain_id (cid ∷ cids) metadata by_id rows =
    update_rows domain_id cids metadata by_id
      (update_row metadata (get by_id (domain_id, cid)) rows)

unfoldable pub update_metadata : String → List String → List Item → Repository → Repository
unfolding update_rows
update_metadata domain_id chunk_ids metadata r = record r {
  rows = update_rows domain_id chunk_ids metadata r.by_id r.rows;
}

-- `if parser_version and pv != parser_version: continue`
abbrev pub is_parser : Option String → String → Bool
is_parser none pv = true
is_parser (some parser_version) pv = if parser_version == "" then true else pv == parser_version

abbrev pub is_listed : String → String → String → Option String → Key → Bool
is_listed domain_id doc_id doc_version parser_version (tid, (did, (ver, pv))) =
    tid == domain_id && did == doc_id && ver == doc_version && is_parser parser_version pv

unfoldable pub listed_rows :
    (Key → Bool) → Dict Key (List ℕ) → Dict ℕ ChunkRecord → List ChunkRecord
unfolding rows_at
listed_rows p [] rows = []
listed_rows p ((k, refs) ∷ chunks) rows =
    let rest = listed_rows p chunks rows in if p k then rows_at rows refs ++ rest else rest

unfoldable pub list_by_doc :
    String → String → String → Option String → Repository → List ChunkRecord
unfolding listed_rows
list_by_doc domain_id doc_id doc_version parser_version r =
    listed_rows (is_listed domain_id doc_id doc_version parser_version) r.chunks r.rows

-- The keys that `delete_by_doc` is asked for; `none` for every version.
abbrev pub is_meant : String → String → Option String → Key → Bool
is_meant domain_id doc_id none (tid, (did, (ver, pv))) = tid == domain_id && did == doc_id
is_meant domain_id doc_id (some doc_version) (tid, (did, (ver, pv))) =
    tid == domain_id && did == doc_id && ver == doc_version

-- `keys_to_remove`, and the loop that pops them.
unfoldable pub keys_to_remove : (Key → Bool) → Dict Key (List ℕ) → List Key
keys_to_remove p [] = []
keys_to_remove p ((k, _) ∷ chunks) =
    let rest = keys_to_remove p chunks in if p k then k ∷ rest else rest

unfoldable pub pop_keys : List Key → Dict Key (List ℕ) → Dict Key (List ℕ)
pop_keys [] chunks = chunks
pop_keys (k ∷ ks) chunks = pop_keys ks (pop chunks k)

abbrev pub ids : List ChunkRecord → List String
ids [] = []
ids (c ∷ cs) = c.chunk_id ∷ ids cs

unfoldable pub delete_by_doc :
    String → String → Option String → Repository → List String × Repository
unfolding forget listed_rows keys_to_remove pop_keys
delete_by_doc domain_id doc_id doc_version r =
    let meant = is_meant domain_id doc_id doc_version in
    let gone = listed_rows meant r.chunks r.rows in
    (
      ids gone,
      record r {
        by_id = forget domain_id gone r.by_id;
        chunks = pop_keys (keys_to_remove meant r.chunks) r.chunks;
      },
    )
