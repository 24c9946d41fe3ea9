-- ===== src/Chunker.antt =====
-- `InMemoryChunker` (rag_core/clients/in_memory.py): windows of a fixed number of tokens. `chunk_id`
-- stands for the formatted text of an index.
pub mod Windows
use Prim.Native.String.{count}
use domainrag_ops.Prelude.{
  ℕ, zero, suc, ◌+◌, ◌-◌, String, Bool, true, false, Option, none, some, List, [], ◌∷◌, ◌++◌,
  length, take, drop, leb, ltb, if◌then◌else◌,
}
use domainrag_ops.Prelude.Text.{split, join}

-- rag_core/interfaces/parser.py and rag_core/interfaces/chunker.py
pub record ParsedPage : Type 0 where
  pub page_number : ℕ
  pub text : String
  pub section_title : Option String
  pub heading_path : List String

pub record Chunk : Type 0 where
  pub chunk_id : String
  pub chunk_index : ℕ
  pub content : String
  pub page_number : Option ℕ
  pub section_title : Option String
  pub heading_path : List String
  pub start_char : ℕ
  pub end_char : ℕ
  pub token_count : ℕ

pub record Chunker : Type 0 where
  pub max_tokens : ℕ
  pub overlap_tokens : ℕ

abbrev larger : ℕ → ℕ → ℕ
larger a b = if leb a b then b else a

abbrev smaller : ℕ → ℕ → ℕ
smaller a b = if leb a b then a else b

-- `__init__`; a negative number counts as 0.
unfoldable pub new : ℕ → ℕ → Chunker
new max_tokens overlap_tokens = record {
  max_tokens = larger 1 max_tokens;
  overlap_tokens = smaller overlap_tokens (max_tokens - 1);
}

abbrev pub step : Chunker → ℕ
step c = larger 1 (c.max_tokens - c.overlap_tokens)

-- A window and where it starts.
abbrev pub Window : Type 0
Window = ℕ × List String

-- The loop over the starts, with the number of tokens as fuel, since a start grows by 1 or more.
unfoldable pub windows_from : Chunker → List String → ℕ → ℕ → List Window
windows_from c tokens zero start = []
windows_from c tokens (suc fuel) start =
    let window = take c.max_tokens (drop start tokens) in
    let rest = windows_from c tokens fuel (start + step c) in
    if leb (length tokens) start
    then []
    else if leb (length tokens) (start + c.max_tokens)
    then (start, window) ∷ []
    else (start, window) ∷ rest

abbrev pub windows : Chunker → List String → List Window
windows c tokens = windows_from c tokens (length tokens) 0

-- `sum(len(t) + 1 for t in tokens)`
abbrev pub offset_of : List String → ℕ
offset_of [] = 0
offset_of (t ∷ ts) = count t + 1 + offset_of ts

abbrev pub to_chunk : (ℕ → String) → ParsedPage → List String → ℕ → Window → Chunk
to_chunk chunk_id page tokens index (start, window) =
    let content = join " " window in
    let start_char = offset_of (take start tokens) in
    record {
      chunk_id = chunk_id index;
      chunk_index = index;
      content = content;
      page_number = some page.page_number;
      section_title = page.section_title;
      heading_path = page.heading_path;
      start_char = start_char;
      end_char = start_char + count content;
      token_count = length window;
    }

abbrev pub number_from : (ℕ → String) → ParsedPage → List String → ℕ → List Window → List Chunk
number_from chunk_id page tokens index [] = []
number_from chunk_id page tokens index (w ∷ ws) =
    to_chunk chunk_id page tokens index w ∷ number_from chunk_id page tokens (suc index) ws

-- `chunk`; `index` is `chunk_index` before the pages.
unfoldable pub chunk_pages : Chunker → (ℕ → String) → ℕ → List ParsedPage → List Chunk
chunk_pages c chunk_id index [] = []
chunk_pages c chunk_id index (page ∷ pages) =
    let tokens = split page.text in
    let out = number_from chunk_id page tokens index (windows c tokens) in
    out ++ chunk_pages c chunk_id (index + length out) pages
