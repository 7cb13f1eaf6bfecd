-- ===== src/Chunker/Examples.antt =====
-- A file of three lines, cut into two pieces that share a line. Letters stand for lines.
use ask_repo.Budget.{take}
use ask_repo.Chunker.Placed.{split-ArePlaced, ArePlaced}
use ask_repo.Retrieval.{drop}
use ask_repo.Chunker.{count_newlines, find_in, place, starts_with, split, inked, SourceFile}
use ask_repo.Prelude.{ℕ, ◌≡◌, refl, Bool, Option, none, List, [], ◌∷◌, map, arith, ◌==◌}

abbrev three_lines : List ℕ
three_lines = 97 ∷ 10 ∷ 98 ∷ 10 ∷ 97 ∷ []

abbrev cut : List ℕ → List (List ℕ)
cut text = (97 ∷ 10 ∷ 98 ∷ []) ∷ (10 ∷ []) ∷ (98 ∷ 10 ∷ 97 ∷ []) ∷ []

abbrev is_newline : ℕ → Bool
is_newline c = c == 10

abbrev file : SourceFile
file = record { relative_path = 1; language = 2 }

abbrev no_symbol : List ℕ → Option (List ℕ)
no_symbol text = none

lines_of_chunks :
    map {B = ℕ × ℕ × ℕ}
      (λ c. (c.chunk_index, c.start_line, c.end_line))
      (split is_newline no_symbol cut file three_lines)
    ≡ (0, 1, 2) ∷ (1, 2, 3) ∷ []
unfolding split place inked find_in starts_with count_newlines drop take
lines_of_chunks = refl

split-ArePlaced_example : ArePlaced three_lines 1 (split is_newline no_symbol cut file three_lines)
unfolding inked starts_with drop
split-ArePlaced_example =
    split-ArePlaced is_newline no_symbol cut file three_lines
      (0, omega arith, refl, (2, omega arith, refl, tt))
