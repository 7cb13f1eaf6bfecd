-- ===== src/Chunker.antt =====
-- backend/app/ingestion/chunker.py: the places of a file's chunks. A text is the list of its code points.
-- The splitter, the test of a code point for white space and the search for a symbol's name are the
-- caller's: the model starts from the pieces that the splitter returns.
pub mod Placed
mod Examples
use ask_repo.Budget.{take}
use ask_repo.Retrieval.{drop}
use ask_repo.Prelude.{
  ℕ, suc, ◌+◌, Bool, true, false, not, ◌&&◌, ◌||◌, Option, none, some, List, [], ◌∷◌, ◌++◌, ◌==◌,
  if◌then◌else◌,
}

pub record SourceFile : Type 0 where
  pub relative_path : ℕ
  pub language : ℕ

pub record Chunk : Type 0 where
  pub file_path : ℕ
  pub start_line : ℕ
  pub end_line : ℕ
  pub language : ℕ
  pub symbol : Option (List ℕ)
  pub chunk_index : ℕ
  pub text : List ℕ

-- `text.count("\n")`.
unfoldable pub count_newlines : List ℕ → ℕ
count_newlines [] = 0
count_newlines (c ∷ cs) = let rest = count_newlines cs in if c == 10 then suc rest else rest

unfoldable pub starts_with : List ℕ → List ℕ → Bool
starts_with [] cs = true
starts_with (p ∷ ps) [] = false
starts_with (p ∷ ps) (c ∷ cs) = p == c && starts_with ps cs

abbrev pub one_later : Option ℕ → Option ℕ
one_later none = none
one_later (some i) = some (suc i)

-- `text.find(piece)`, none for -1.
unfoldable pub find_in : List ℕ → List ℕ → Option ℕ
unfolding starts_with
find_in piece [] = if starts_with piece [] then some 0 else none
find_in piece (c ∷ cs) =
    let rest = one_later (find_in piece cs) in if starts_with piece (c ∷ cs) then some 0 else rest

-- The offset of a piece, from what `source.find(piece, cursor)` finds after the cursor.
abbrev pub offset_from : ℕ → Option ℕ → ℕ
offset_from cursor none = cursor
offset_from cursor (some i) = cursor + i

abbrev pub find_offset : List ℕ → ℕ → List ℕ → ℕ
find_offset source cursor piece = offset_from cursor (find_in piece (drop cursor source))

-- `text.strip()` is not empty.
abbrev pub is_inked : (ℕ → Bool) → List ℕ → Bool
is_inked is_space [] = false
is_inked is_space (c ∷ cs) = let rest = is_inked is_space cs in not (is_space c) || rest

unfoldable pub inked : (ℕ → Bool) → List (List ℕ) → List (List ℕ)
inked is_space [] = []
inked is_space (p ∷ ps) =
    let rest = inked is_space ps in if is_inked is_space p then p ∷ rest else rest

module _ (symbol_of : List ℕ → Option (List ℕ)) (file : SourceFile) (source : List ℕ) where
  -- The chunk of a piece at an offset.
  abbrev pub chunk_at : ℕ → ℕ → List ℕ → Chunk
  chunk_at offset index piece =
      let start = suc (count_newlines (take offset source)) in
      record {
        file_path = file.relative_path;
        start_line = start;
        end_line = start + count_newlines piece;
        language = file.language;
        symbol = symbol_of piece;
        chunk_index = index;
        text = piece;
      }

  -- The loop over the pieces.
  unfoldable pub place : ℕ → ℕ → List (List ℕ) → List Chunk
  unfolding find_in count_newlines
  place cursor index [] = []
  place cursor index (piece ∷ pieces) =
      let offset = find_offset source cursor piece in
      chunk_at offset index piece ∷ place (suc offset) (suc index) pieces

-- `split`, with what the splitter makes of the source.
unfoldable pub split :
    (ℕ → Bool)
    → (List ℕ → Option (List ℕ))
    → (List ℕ → List (List ℕ))
    → SourceFile
    → List ℕ
    → List Chunk
unfolding place inked
split is_space symbol_of split_text file source =
    if not (is_inked is_space source)
    then []
    else place symbol_of file source 0 0 (inked is_space (split_text source))

-- What the header adds for a symbol; an empty name is no symbol.
abbrev pub symbol_header : Option (List ℕ) → List ℕ
symbol_header none = []
symbol_header (some []) = []
symbol_header (some (c ∷ cs)) = 32 ∷ 8212 ∷ 32 ∷ c ∷ cs

-- `embedding_text`, with the header that names the path and the symbol.
unfoldable pub embedding_text : (ℕ → List ℕ) → Chunk → List ℕ
embedding_text path_text chunk =
    35 ∷ 32 ∷ (path_text chunk.file_path ++ (symbol_header chunk.symbol ++ 10 ∷ chunk.text))
