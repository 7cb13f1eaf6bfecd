-- ===== src/Retrieval/Merged.antt =====
-- What merging makes of the chunks of a file.
use mathlib.Core.Path.{subst}
use ask_repo.Prelude.{
  ℕ, suc, ◌+◌, ◌-◌, ◌≤◌, ◌≡◌, refl, sym, ap, ◌∙◌, inl, inr, Bool, true, false, List, [], ◌∷◌, ◌++◌,
  arith, length, length-append, All, if◌then◌else◌, Bool-cases,
}
use ask_repo.Retrieval.{
  Span, join, last, last_index, merge_runs, continues, drop, by_place, by_score, insert,
  merge_adjacent, merge_sorted, sort,
}
use ask_repo.Retrieval.Lines.{slice, slice-slice}

-- In a file, chunks start one after another, and leave no line between them.
abbrev pub HasNoGaps : (ℕ → ℕ → ℕ) → (ℕ → ℕ → ℕ) → Type 0
HasNoGaps start_of end_of =
    (path i : ℕ)
    → (1 ≤ start_of path i)
      × (start_of path i ≤ start_of path (suc i))
      × (start_of path (suc i) ≤ suc (end_of path i))

-- The lines of a span are those of its file between its two ends.
abbrev pub IsFaithful : {L : Type 0} → (ℕ → List L) → Span L → Type 0
IsFaithful source r = r.lines ≡ slice r.start_line r.end_line (source r.file_path)

module _ {L : Type 0} (source : ℕ → List L) (start_of end_of : ℕ → ℕ → ℕ) where
  -- A chunk of the index: whole lines of its file, from and to the lines of its place.
  abbrev pub IsChunk : Span L → Type 0
  IsChunk c =
      (c.other_indexes ≡ [])
      × (c.start_line ≡ start_of c.file_path c.first_index)
      × (c.end_line ≡ end_of c.file_path c.first_index)
      × (c.lines ≡ slice c.start_line c.end_line (source c.file_path))

  -- What a run keeps up: it is faithful, and reaches around its last chunk.
  abbrev IsRun : Span L → Type 0
  IsRun r =
      IsFaithful source r
      × (1 ≤ r.start_line)
      × (r.start_line ≤ start_of r.file_path (last_index r))
      × (end_of r.file_path (last_index r) ≤ r.end_line)

  last-append : (k j : ℕ) (ks js : List ℕ) → last k (ks ++ j ∷ js) ≡ last j js
  last-append k j [] js = refl
  last-append k j (i ∷ ks) js = last-append i j ks js

  continues-true :
      (r c : Span L)
      → continues r c ≡ true
      → (r.file_path ≡ c.file_path) × (c.first_index ≡ suc (last_index r))
  continues-true r c h = (ground arith, ground arith)

  chunk-IsRun : HasNoGaps start_of end_of → (c : Span L) → IsChunk c → IsRun c
  chunk-IsRun gaps c (single, start, end, lines) =
      let l : last_index c ≡ c.first_index = ap (last c.first_index) single in
      let s : start_of c.file_path (last_index c) ≡ start_of c.file_path c.first_index =
        ap (start_of c.file_path) l in
      let e : end_of c.file_path (last_index c) ≡ end_of c.file_path c.first_index =
        ap (end_of c.file_path) l in
      let g = (gaps c.file_path c.first_index).0 in
      (lines, omega (arith, start, g), omega (arith, s, start), omega (arith, e, end))

  join-IsRun :
      HasNoGaps start_of end_of
      → (r c : Span L) → IsRun r
      → IsChunk c
      → r.file_path ≡ c.file_path
      → c.first_index ≡ suc (last_index r)
      → IsRun (join r c)
  unfolding join
  join-IsRun gaps r c (lines, one, low, high) (single, start, end, own) e f =
      let l : last r.first_index (r.other_indexes ++ c.first_index ∷ c.other_indexes)
          ≡ c.first_index =
        last-append r.first_index c.first_index r.other_indexes c.other_indexes
        ∙ ap (last c.first_index) single in
      let s : c.start_line ≡ start_of r.file_path (suc (last_index r)) =
        start ∙ ap (λ p. start_of p c.first_index) (sym e) ∙ ap (start_of r.file_path) f in
      let t : c.end_line ≡ end_of r.file_path c.first_index =
        end ∙ ap (λ p. end_of p c.first_index) (sym e) in
      let s' : start_of r.file_path
            (last r.first_index (r.other_indexes ++ c.first_index ∷ c.other_indexes))
          ≡ start_of r.file_path (suc (last_index r)) =
        ap (start_of r.file_path) (l ∙ f) in
      let t' : end_of r.file_path
            (last r.first_index (r.other_indexes ++ c.first_index ∷ c.other_indexes))
          ≡ end_of r.file_path c.first_index =
        ap (end_of r.file_path) l in
      let (g0, g1, g2) = gaps r.file_path (last_index r) in
      let text : c.lines ≡ slice c.start_line c.end_line (source r.file_path) =
        own ∙ ap (λ p. slice c.start_line c.end_line (source p)) (sym e) in
      (
        ap (λ ls. ls ++ drop (suc r.end_line - c.start_line) c.lines) lines
            ∙ ap
                (λ ls.
                  slice r.start_line r.end_line (source r.file_path)
                  ++ drop (suc r.end_line - c.start_line) ls)
                text
            ∙ slice-slice r.start_line r.end_line c.start_line c.end_line (source r.file_path) one
                (omega (arith, low, g1, s)) (omega (arith, high, g2, s)),
        one,
        omega (arith, low, g1, s'),
        omega (arith, t, t'),
      )

  merge_runs-IsFaithful :
      HasNoGaps start_of end_of
      → (run : Span L) (cs : List (Span L)) → IsRun run
      → All IsChunk cs
      → All (IsFaithful source) (merge_runs run cs)
  unfolding merge_runs
  merge_runs-IsFaithful gaps run [] h k = (h.0, tt)
  merge_runs-IsFaithful gaps run (c ∷ cs) h (k, ks) = elim (Bool-cases (continues run c)) [
    | inl on ↦
        let (e, f) = continues-true run c on in
        let longer =
          merge_runs-IsFaithful gaps (join run c) cs (join-IsRun gaps run c h k e f) ks in
        subst
          (λ b.
            All (IsFaithful source)
              (if b then merge_runs (join run c) cs else run ∷ merge_runs c cs))
          (sym on) longer
    | inr off ↦
        let next = merge_runs-IsFaithful gaps c cs (chunk-IsRun gaps c k) ks in
        subst
          (λ b.
            All (IsFaithful source)
              (if b then merge_runs (join run c) cs else run ∷ merge_runs c cs))
          (sym off) (h.0, next)
  ]

module _ {L : Type 0} where
  -- The number of chunks in spans.
  abbrev pub count_chunks : List (Span L) → ℕ
  count_chunks [] = 0
  count_chunks (r ∷ rs) = suc (length r.other_indexes) + count_chunks rs

  count-merge_runs :
      (run : Span L) (cs : List (Span L))
      → count_chunks (merge_runs run cs) ≡ suc (length run.other_indexes) + count_chunks cs
  unfolding merge_runs join
  count-merge_runs run [] = refl
  count-merge_runs run (c ∷ cs) =
      let whole =
        suc (length run.other_indexes) + (suc (length c.other_indexes) + count_chunks cs) in
      let goal : Bool → Type 0 = λ b.
        count_chunks (if b then merge_runs (join run c) cs else run ∷ merge_runs c cs) ≡ whole in
      elim (Bool-cases (continues run c)) [
        | inl on ↦ subst goal (sym on) (
            omega (
              arith,
              count-merge_runs (join run c) cs,
              length-append run.other_indexes (c.first_index ∷ c.other_indexes),
            ))
        | inr off ↦ subst goal (sym off) (omega (arith, count-merge_runs c cs))
      ]

  All-either :
      (P : Span L → Type 0) (b : Bool) (xs ys : List (Span L))
      → All P xs
      → All P ys
      → All P (if b then xs else ys)
  All-either P true xs ys h k = h
  All-either P false xs ys h k = k

-- A sort keeps what holds of each element, and the number of chunks.
module _ {L : Type 0} (before : Span L → Span L → Bool) where
  All-insert :
      (P : Span L → Type 0) (c : Span L) (cs : List (Span L))
      → P c
      → All P cs
      → All P (insert before c cs)
  unfolding insert
  All-insert P c [] p h = (p, tt)
  All-insert P c (d ∷ ds) p (q, h) =
      All-either P (before c d) (c ∷ d ∷ ds) (d ∷ insert before c ds) (p, (q, h))
        (q, All-insert P c ds p h)

  All-sort : (P : Span L → Type 0) (cs : List (Span L)) → All P cs → All P (sort before cs)
  unfolding sort
  All-sort P [] h = tt
  All-sort P (c ∷ cs) (p, h) = All-insert P c (sort before cs) p (All-sort P cs h)

  count-insert :
      (c : Span L) (cs : List (Span L))
      → count_chunks (insert before c cs) ≡ suc (length c.other_indexes) + count_chunks cs
  unfolding insert
  count-insert c [] = refl
  count-insert c (d ∷ ds) =
      let whole = suc (length c.other_indexes) + (suc (length d.other_indexes) + count_chunks ds) in
      let goal : Bool → Type 0 =
        λ b. count_chunks (if b then c ∷ d ∷ ds else d ∷ insert before c ds) ≡ whole in
      elim (Bool-cases (before c d)) [
        | inl first ↦ subst goal (sym first) refl
        | inr later ↦ subst goal (sym later) (omega (arith, count-insert c ds))
      ]

  count-sort : (cs : List (Span L)) → count_chunks (sort before cs) ≡ count_chunks cs
  unfolding sort
  count-sort [] = refl
  count-sort (c ∷ cs) = count-insert c (sort before cs) ∙ omega (arith, count-sort cs)

module _ {L : Type 0} (source : ℕ → List L) (start_of end_of : ℕ → ℕ → ℕ) where
  merge_sorted-IsFaithful :
      HasNoGaps start_of end_of
      → (cs : List (Span L)) → All (IsChunk source start_of end_of) cs
      → All (IsFaithful source) (merge_sorted cs)
  merge_sorted-IsFaithful gaps [] h = tt
  merge_sorted-IsFaithful gaps (c ∷ cs) (k, h) =
      merge_runs-IsFaithful source start_of end_of gaps c cs
        (chunk-IsRun source start_of end_of gaps c k) h

  count-merge_sorted : (cs : List (Span L)) → count_chunks (merge_sorted cs) ≡ count_chunks cs
  count-merge_sorted [] = refl
  count-merge_sorted (c ∷ cs) = count-merge_runs c cs

  -- The chunks of each file start one after another and leave no line between them, and each retrieved chunk
  -- has the lines of its place. Then each merged span has exactly the lines of its file from its first to
  -- its last one, none of them twice, and the spans have as many chunk indexes as were retrieved.
  pub merge_adjacent_lem :
      (chunks : List (Span L))
      → HasNoGaps start_of end_of
      → All (IsChunk source start_of end_of) chunks
      → All (IsFaithful source) (merge_adjacent chunks)
        × (count_chunks (merge_adjacent chunks) ≡ count_chunks chunks)
  unfolding merge_adjacent
  merge_adjacent_lem chunks gaps h = (
    All-sort by_score (IsFaithful source) (merge_sorted (sort by_place chunks)) (
        merge_sorted-IsFaithful gaps (sort by_place chunks)
          (All-sort by_place (IsChunk source start_of end_of) chunks h)),
    count-sort by_score (merge_sorted (sort by_place chunks))
        ∙ count-merge_sorted (sort by_place chunks)
        ∙ count-sort by_place chunks,
  )
