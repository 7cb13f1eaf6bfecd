-- ===== src/Retrieval.antt =====
-- backend/app/rag/retriever.py: the retrieved chunks, merged into spans. A text is the list of its
-- lines, a line any value; a path and a score are numbers, which the order compares. Every chunk has an
-- index, so a list of indexes is its first one and the others. The embedder and the vector store are
-- the caller's: the model starts from their hits.
mod Examples
pub mod Lines
pub mod Merged
use ask_repo.Prelude.{
  ℕ, zero, suc, ◌-◌, Bool, ◌&&◌, ◌||◌, Option, none, some, List, [], ◌∷◌, ◌++◌, map, ltb, leb, ◌==◌,
  if◌then◌else◌,
}
use ask_repo.Budget.{RetrievedChunk, apply_budget}
use Prim.Native.Nat.{max}

pub record Span (L : Type 0) : Type 0 where
  pub file_path : ℕ
  pub start_line : ℕ
  pub end_line : ℕ
  pub symbol : Option ℕ
  pub lines : List L
  pub score : ℕ
  pub first_index : ℕ
  pub other_indexes : List ℕ

-- `xs[n:]`.
unfoldable pub drop {ℓ} : {A : Type ℓ} → ℕ → List A → List A
drop n [] = []
drop zero (x ∷ xs) = x ∷ xs
drop (suc n) (x ∷ xs) = drop n xs

-- `xs[-1]`, of a first element and the others.
abbrev pub last : ℕ → List ℕ → ℕ
last k [] = k
last k (j ∷ js) = last j js

abbrev pub or_other {ℓ} : {A : Type ℓ} → Option A → Option A → Option A
or_other none o = o
or_other (some a) o = some a

module _ {L : Type 0} where
  abbrev pub last_index : Span L → ℕ
  last_index r = last r.first_index r.other_indexes

  -- `_join`. Without an overlap the difference is 0 here, and `drop 0` keeps all lines.
  unfoldable pub join : Span L → Span L → Span L
  unfolding drop
  join first second = record {
    file_path = first.file_path;
    start_line = first.start_line;
    end_line = max first.end_line second.end_line;
    symbol = or_other first.symbol second.symbol;
    lines = first.lines ++ drop (suc first.end_line - second.start_line) second.lines;
    score = max first.score second.score;
    first_index = first.first_index;
    other_indexes = first.other_indexes ++ second.first_index ∷ second.other_indexes;
  }

  -- A stable sort, as `sorted` and `list.sort` are: an element goes before the first that comes after it.
  module _ (before : Span L → Span L → Bool) where
    unfoldable pub insert : Span L → List (Span L) → List (Span L)
    insert c [] = c ∷ []
    insert c (d ∷ ds) = let rest = insert c ds in if before c d then c ∷ d ∷ ds else d ∷ rest

    unfoldable pub sort : List (Span L) → List (Span L)
    unfolding insert
    sort [] = []
    sort (c ∷ cs) = insert c (sort cs)

  -- The order of the pairs of a path and a first index; on equal keys the earlier chunk stays first.
  abbrev pub by_place : Span L → Span L → Bool
  by_place c d =
      ltb c.file_path d.file_path || (c.file_path == d.file_path && leb c.first_index d.first_index)

  abbrev pub by_score : Span L → Span L → Bool
  by_score c d = leb d.score c.score

  abbrev pub continues : Span L → Span L → Bool
  continues run c = run.file_path == c.file_path && c.first_index == suc (last_index run)

  -- The two loops, over the groups of a path and in a group: a run is finished by a chunk that does not
  -- continue it, and by the end of its group.
  unfoldable pub merge_runs : Span L → List (Span L) → List (Span L)
  unfolding join
  merge_runs run [] = run ∷ []
  merge_runs run (c ∷ cs) =
      let longer = merge_runs (join run c) cs in
      let next = merge_runs c cs in if continues run c then longer else run ∷ next

  abbrev pub merge_sorted : List (Span L) → List (Span L)
  merge_sorted [] = []
  merge_sorted (c ∷ cs) = merge_runs c cs

  unfoldable pub merge_adjacent : List (Span L) → List (Span L)
  unfolding sort merge_runs
  merge_adjacent chunks = sort by_score (merge_sorted (sort by_place chunks))

  -- `hit.score >= self.min_score`.
  unfoldable pub above_floor : ℕ → List (Span L) → List (Span L)
  above_floor min_score [] = []
  above_floor min_score (c ∷ cs) =
      let rest = above_floor min_score cs in if leb min_score c.score then c ∷ rest else rest

  -- `retrieve`, from the hits of the search; `text_of` puts line feeds between lines.
  unfoldable pub retrieve :
      {C : Type 0}
      → List C
      → (List L → List C)
      → ℕ
      → ℕ
      → List (Span L)
      → List (RetrievedChunk C (Span L))
  unfolding above_floor merge_adjacent
  retrieve truncation_marker text_of min_score max_chars hits =
      apply_budget truncation_marker max_chars (
        map (λ s. record { content = text_of s.lines; rest = s })
          (merge_adjacent (above_floor min_score hits)))
