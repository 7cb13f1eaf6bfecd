-- ===== src/Chunker/Placed.antt =====
-- Where the chunks of a file stand.
use ask_repo.Retrieval.{drop}
use ask_repo.Retrieval.Lines.{drop-drop, take_and_drop, take-drop}
use ask_repo.Budget.{take}
use ask_repo.Chunker.{
  offset_from, is_inked, chunk_at, find_offset, inked, place, Chunk, split, starts_with,
  count_newlines, find_in, SourceFile,
}
use mathlib.Core.Path.{subst}
use ask_repo.Prelude.{
  ℕ, zero, suc, ◌+◌, ◌-◌, ◌≤◌, ◌≡◌, refl, sym, ap, ◌∙◌, inl, inr, Bool, true, not, Option, some,
  List, [], ◌∷◌, ◌++◌, arith, ◌==◌, if◌then◌else◌, Bool-cases,
}

count_newlines-append :
    (xs ys : List ℕ) → count_newlines (xs ++ ys) ≡ count_newlines xs + count_newlines ys
unfolding count_newlines
count_newlines-append [] ys = omega arith
count_newlines-append (x ∷ xs) ys =
    let rest = count_newlines-append xs ys in
    elim (Bool-cases (x == 10)) [
      | inl lf ↦ ground (arith, lf, rest)
      | inr other ↦ ground (arith, other, rest)
    ]

-- The earlier the offset, the fewer line feeds before it.
newlines_before_le :
    (a b : ℕ) (xs : List ℕ) → a ≤ b → count_newlines (take a xs) ≤ count_newlines (take b xs)
newlines_before_le a b xs h =
    let e : a + (b - a) ≡ b = omega (arith, h) in
    let whole = take_and_drop a (b - a) xs ∙ ap (λ k. take k xs) e in
    let sum = sym (count_newlines-append (take a xs) (take (b - a) (drop a xs))) in
    let total = sum ∙ ap count_newlines whole in omega (arith, total)

starts_with-split : (p xs : List ℕ) → starts_with p xs ≡ true → (after : List ℕ) × (xs ≡ p ++ after)
unfolding starts_with
starts_with-split [] xs h = (xs, refl)
starts_with-split (p ∷ ps) [] h = cc h
starts_with-split (p ∷ ps) (x ∷ xs) h =
    let e : p ≡ x = ground (arith, h) in
    let t : starts_with ps xs ≡ true = ground (arith, h) in
    let (after, f) = starts_with-split ps xs t in (after, cc (e, f))

-- The piece stands in the text at the offset.
abbrev pub OccursAt : List ℕ → ℕ → List ℕ → Type 0
OccursAt piece offset text = starts_with piece (drop offset text) ≡ true

-- A piece that occurs is found, where it occurs and not later than any place where it does.
find_in-first :
    (p xs : List ℕ) (j : ℕ)
    → OccursAt p j xs
    → (r : ℕ) × (find_in p xs ≡ some r) × (r ≤ j) × OccursAt p r xs
unfolding find_in drop
find_in-first p [] j h = (0, ground (arith, h), omega arith, h)
find_in-first p (x ∷ xs) zero h = (0, ground (arith, h), omega arith, h)
find_in-first p (x ∷ xs) (suc j) h = elim (Bool-cases (starts_with p (x ∷ xs))) [
  | inl here ↦ (0, ground (arith, here), omega arith, here)
  | inr later ↦
      let (r, e, le, at) = find_in-first p xs j h in
      (suc r, ground (arith, later, e), omega (arith, le), at)
]

-- The pieces stand in the text one after another, each starting behind the start of the one before.
abbrev pub StandInOrder : List ℕ → ℕ → List (List ℕ) → Type 0
StandInOrder text k [] = Unit
StandInOrder text k (p ∷ ps) = (o : ℕ) × (k ≤ o) × OccursAt p o text × StandInOrder text (suc o) ps

-- The text of the chunk stands in the source, from its first line to its last one.
abbrev pub IsPlaced : List ℕ → Chunk → Type 0
IsPlaced source c =
    (before : List ℕ) × (after : List ℕ) × (source ≡ before ++ (c.text ++ after))
    × (c.start_line ≡ suc (count_newlines before))
    × (c.end_line ≡ suc (count_newlines (before ++ c.text)))

-- Each chunk is placed, and starts no earlier than the one before.
abbrev pub ArePlaced : List ℕ → ℕ → List Chunk → Type 0
ArePlaced source line [] = Unit
ArePlaced source line (c ∷ cs) =
    (line ≤ c.start_line) × IsPlaced source c × ArePlaced source c.start_line cs

module _ (symbol_of : List ℕ → Option (List ℕ)) (file : SourceFile) (source : List ℕ) where
  chunk_at-IsPlaced :
      (offset index : ℕ) (piece : List ℕ)
      → OccursAt piece offset source
      → IsPlaced source (chunk_at symbol_of file source offset index piece)
  chunk_at-IsPlaced offset index piece h =
      let (after, e) = starts_with-split piece (drop offset source) h in
      let lines = count_newlines-append (take offset source) piece in
      (
        take offset source,
        after,
        sym (take-drop offset source) ∙ ap (λ ys. take offset source ++ ys) e,
        refl,
        omega (arith, lines),
      )

  found :
      (piece : List ℕ) (cursor o : ℕ)
      → cursor ≤ o
      → OccursAt piece o source
      → (find_offset source cursor piece ≤ o)
        × (cursor ≤ find_offset source cursor piece)
        × OccursAt piece (find_offset source cursor piece) source
  found piece cursor o h at =
      let e : o ≡ cursor + (o - cursor) = omega (arith, h) in
      let there =
        ap (starts_with piece)
          (drop-drop (o - cursor) cursor source ∙ ap (λ k. drop k source) (sym e))
        ∙ at in
      let (r, f, le, occurs) = find_in-first piece (drop cursor source) (o - cursor) there in
      let g : find_offset source cursor piece ≡ cursor + r = ap (offset_from cursor) f in
      (
        omega (arith, g, le, h),
        omega (arith, g),
        ap (λ k. starts_with piece (drop k source)) g
            ∙ ap (starts_with piece) (sym (drop-drop r cursor source))
            ∙ occurs,
      )

  place-ArePlaced :
      (cursor index line k : ℕ) (pieces : List (List ℕ))
      → cursor ≤ k
      → line ≤ suc (count_newlines (take cursor source))
      → StandInOrder source k pieces
      → ArePlaced source line (place symbol_of file source cursor index pieces)
  unfolding place
  place-ArePlaced cursor index line k [] h l s = tt
  place-ArePlaced cursor index line k (p ∷ ps) h l (o, le, at, s) =
      let (low, high, occurs) = found p cursor o (omega (arith, h, le)) at in
      let offset = find_offset source cursor p in
      let lines = newlines_before_le cursor offset source high in
      let next = newlines_before_le offset (suc offset) source (omega arith) in
      (
        omega (arith, l, lines),
        chunk_at-IsPlaced offset index p occurs,
        place-ArePlaced (suc offset) (suc index) (suc (count_newlines (take offset source))) (suc o)
            ps (omega (arith, low)) (omega (arith, next)) s,
      )

-- The pieces of the splitter that are not blank stand in the source one after another, each starting
-- behind the start of the one before. Then the text of each chunk stands in the source on the lines
-- that the chunk says, from its first to its last one, and no chunk starts on an earlier line than the
-- one before it.
pub split-ArePlaced :
    (is_space : ℕ → Bool) (symbol_of : List ℕ → Option (List ℕ))
    (split_text : List ℕ → List (List ℕ)) (file : SourceFile) (source : List ℕ)
    → StandInOrder source 0 (inked is_space (split_text source))
    → ArePlaced source 1 (split is_space symbol_of split_text file source)
unfolding split
split-ArePlaced is_space symbol_of split_text file source h =
    elim (Bool-cases (is_inked is_space source)) [
      | inl some_ink ↦
          subst
            (λ b. ArePlaced source 1 (
              if not b
              then []
              else place symbol_of file source 0 0 (inked is_space (split_text source))))
            (sym some_ink)
            (place-ArePlaced symbol_of file source 0 0 1 0 (inked is_space (split_text source))
              (omega arith) (omega arith) h)
      | inr blank ↦
          subst
            (λ b. ArePlaced source 1 (
              if not b
              then []
              else place symbol_of file source 0 0 (inked is_space (split_text source))))
            (sym blank) tt
    ]
