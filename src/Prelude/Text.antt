-- ===== src/Prelude/Text.antt =====
-- Python's text methods that the code uses, on ASCII letters.
use Prim.Native.Nat.{ℕ, zero, suc, ◌-◌}
use Prim.Native.Char.{Char, code}
use Prim.Native.String.{String, char_at, ◌++◌ as concat}
use mathlib.Core.Bool.{Bool, true, false, ◌&&◌, ◌||◌}
use mathlib.Core.List.{List, [], ◌∷◌, ◌++◌}
use domainrag_ops.Prelude.Tests.{leb, if◌then◌else◌}
use domainrag_ops.Prelude.Equality.{◌==◌, nat_eq}

lower_char : Char → Char
lower_char c =
    if leb b'A' (code c) && leb (code c) b'Z'
    then char_at "abcdefghijklmnopqrstuvwxyz" (code c - b'A')
    else c

-- `s.lower()`; letters beyond ASCII are left alone.
unfoldable pub lower : String → String
unfolding lower_char
lower String.[] = String.[]
lower (String.◌∷◌ c s) = String.◌∷◌ (lower_char c) (lower s)

-- `c.isspace()`
unfoldable pub is_space : Char → Bool
is_space c =
    let n = code c in
    (leb 9 n && leb n 13)
    || (leb 28 n && leb n 32)
    || n == 133
    || n == 160
    || n == 5760
    || (leb 8192 n && leb n 8202)
    || n == 8232
    || n == 8233
    || n == 8239
    || n == 8287
    || n == 12288

-- `[word]`, or nothing where no word has begun.
abbrev pub ended : String → List String
ended String.[] = []
ended (String.◌∷◌ c s) = String.◌∷◌ c s ∷ []

-- The words from here on, where `word` has been read.
unfoldable pub words_after : String → String → List String
words_after word String.[] = ended word
words_after word (String.◌∷◌ c s) = elim (is_space c) [
  | true ↦ ended word ++ words_after String.[] s
  | false ↦ words_after (concat word (String.◌∷◌ c String.[])) s
]

-- `s.split()`
abbrev pub split : String → List String
split s = words_after String.[] s

-- `sep.join(words)`
unfoldable pub join : String → List String → String
join sep [] = String.[]
join sep (w ∷ []) = w
join sep (w ∷ w' ∷ ws) = concat w (concat sep (join sep (w' ∷ ws)))

-- `s[:n]`
unfoldable pub take_chars : ℕ → String → String
take_chars zero s = String.[]
take_chars (suc n) String.[] = String.[]
take_chars (suc n) (String.◌∷◌ c s) = String.◌∷◌ c (take_chars n s)

lstrip : String → String
lstrip String.[] = String.[]
lstrip (String.◌∷◌ c s) = let rest = lstrip s in if is_space c then rest else String.◌∷◌ c s

before_space : Char → String → String
before_space c String.[] = if is_space c then String.[] else String.◌∷◌ c String.[]
before_space c (String.◌∷◌ d r) = String.◌∷◌ c (String.◌∷◌ d r)

rstrip : String → String
unfolding before_space
rstrip String.[] = String.[]
rstrip (String.◌∷◌ c s) = before_space c (rstrip s)

-- `s.strip()`
unfoldable pub strip : String → String
unfolding lstrip rstrip
strip s = rstrip (lstrip s)
