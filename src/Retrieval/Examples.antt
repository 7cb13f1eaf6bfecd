-- ===== src/Retrieval/Examples.antt =====
-- Chunks of three lines each, of which neighbours share one.
use ask_repo.Budget.{take}
use ask_repo.Prelude.{ℕ, ◌+◌, ◌*◌, ◌≡◌, refl, none, List, [], ◌∷◌, map, arith, All}
use ask_repo.Retrieval.{Span, drop, insert, join, merge_adjacent, merge_runs, sort}
use ask_repo.Retrieval.Merged.{HasNoGaps, IsChunk, IsFaithful, count_chunks, merge_adjacent_lem}

abbrev source : ℕ → List ℕ
source path = 11 ∷ 12 ∷ 13 ∷ 14 ∷ 15 ∷ 16 ∷ 17 ∷ 18 ∷ 19 ∷ []

abbrev start_of : ℕ → ℕ → ℕ
start_of path i = 2 * i + 1

abbrev end_of : ℕ → ℕ → ℕ
end_of path i = 2 * i + 3

abbrev chunk : ℕ → ℕ → ℕ → List ℕ → Span ℕ
chunk path i score lines = record {
  file_path = path;
  start_line = start_of path i;
  end_line = end_of path i;
  symbol = none;
  lines = lines;
  score = score;
  first_index = i;
  other_indexes = [];
}

abbrev hits : List (Span ℕ)
hits =
    chunk 1 3 9 (17 ∷ 18 ∷ 19 ∷ [])
    ∷ chunk 1 1 8 (13 ∷ 14 ∷ 15 ∷ [])
    ∷ chunk 2 0 7 (11 ∷ 12 ∷ 13 ∷ [])
    ∷ chunk 1 0 6 (11 ∷ 12 ∷ 13 ∷ [])
    ∷ []

merged_lines :
    map {B = ℕ × List ℕ} (λ s. (s.file_path, s.lines)) (merge_adjacent hits)
    ≡ (1, 17 ∷ 18 ∷ 19 ∷ []) ∷ (1, 11 ∷ 12 ∷ 13 ∷ 14 ∷ 15 ∷ []) ∷ (2, 11 ∷ 12 ∷ 13 ∷ []) ∷ []
unfolding merge_adjacent sort insert merge_runs join drop
merged_lines = refl

chunks-HasNoGaps : HasNoGaps start_of end_of
chunks-HasNoGaps path i = (omega arith, omega arith, omega arith)

hits-IsChunk : All (IsChunk source start_of end_of) hits
unfolding take drop
hits-IsChunk = (
  (refl, refl, refl, refl),
  ((refl, refl, refl, refl), ((refl, refl, refl, refl), ((refl, refl, refl, refl), tt))),
)

merge_adjacent_lem_example :
    All (IsFaithful source) (merge_adjacent hits) × (count_chunks (merge_adjacent hits) ≡ 4)
merge_adjacent_lem_example =
    merge_adjacent_lem source start_of end_of hits chunks-HasNoGaps hits-IsChunk
