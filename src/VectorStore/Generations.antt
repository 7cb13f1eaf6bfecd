-- ===== src/VectorStore/Generations.antt =====
-- The generations of a project's index, which do not disturb one another.
use ask_repo.Chunker.{Chunk}
use ask_repo.Table.{select_where}
use ask_repo.VectorStore.Laws.{
  search_matches-put_other, All-append, All-select_where, select_where-append, select_where_comm,
}
use ask_repo.VectorStore.{
  prepend, point_of, in_generation, points_for, delete_generation, point_id, search_matches, Point,
  put_point, upsert,
}
use mathlib.Core.Path.{subst}
use ask_repo.Prelude.{
  ℕ, ◌≡◌, refl, sym, ap, ◌∙◌, ◌≢◌, inl, inr, Bool, true, false, not, ◌||◌, some, List, [], ◌∷◌,
  ◌++◌, arith, All, All-map, ◌==◌, Option-cases,
}

-- No two texts of a project, and no two projects, have one hash.
abbrev pub IsInjective : (ℕ → ℕ × ℕ × ℕ → ℕ) → Type 0
IsInjective uuid5 =
    (k j : ℕ) (t u : ℕ × ℕ × ℕ)
    → uuid5 k t ≡ uuid5 j u
    → (k ≡ j) × (t.0 ≡ u.0) × (t.1 ≡ u.1) × (t.2 ≡ u.2)

module _ (uuid5 : ℕ → ℕ × ℕ × ℕ → ℕ) where
  -- The id is made of what the payload says.
  abbrev pub IsKeyed : Point → Type 0
  IsKeyed p =
      p.id
      ≡ point_id uuid5 p.payload.project_id p.payload.file_path p.payload.chunk_index
          p.payload.generation

  -- A point with the id of another one is of the same project and generation.
  keyed_apart :
      IsInjective uuid5
      → (k g : ℕ) (p x : Point) → IsKeyed p
      → IsKeyed x
      → in_generation k g p ≡ false
      → in_generation k g x ≡ true
      → x.id ≢ p.id
  unfolding point_id
  keyed_apart inj k g p x kp kx off on e =
      let (same, _, _, gen) =
        inj x.payload.project_id p.payload.project_id
          (x.payload.file_path, x.payload.chunk_index, x.payload.generation)
          (p.payload.file_path, p.payload.chunk_index, p.payload.generation) (sym kx ∙ e ∙ kp) in
      ground (arith, off, on, same, gen)

  put_point-IsKeyed :
      (p : Point) (xs : List Point) → IsKeyed p → All IsKeyed xs → All IsKeyed (put_point p xs)
  unfolding put_point
  put_point-IsKeyed p xs h hs =
      All-append IsKeyed (select_where (λ x. not (x.id == p.id)) xs) (p ∷ [])
        (All-select_where IsKeyed (λ x. not (x.id == p.id)) xs hs) (h, tt)

  pub upsert-IsKeyed :
      (ps xs : List Point) → All IsKeyed ps → All IsKeyed xs → All IsKeyed (upsert ps xs)
  unfolding upsert
  upsert-IsKeyed [] xs h hs = hs
  upsert-IsKeyed (p ∷ ps) xs (h, k) hs =
      upsert-IsKeyed ps (put_point p xs) k (put_point-IsKeyed p xs h hs)

  -- Points of another generation are written beside.
  pub search_matches-upsert_other :
      IsInjective uuid5
      → (k g : ℕ) (ps xs : List Point) → All IsKeyed ps
      → All (λ p. in_generation k g p ≡ false) ps
      → All IsKeyed xs
      → search_matches k g (upsert ps xs) ≡ search_matches k g xs
  unfolding upsert
  search_matches-upsert_other inj k g [] xs h off hs = refl
  search_matches-upsert_other inj k g (p ∷ ps) xs (h, hr) (o, off) hs =
      search_matches-upsert_other inj k g ps (put_point p xs) hr off (put_point-IsKeyed p xs h hs)
      ∙ search_matches-put_other k g p xs o
          (All-map xs (λ x kx on. keyed_apart inj k g p x h kx o on) hs)

  -- The points of a batch say what the chunks say, under their generation.
  abbrev pub AreOf : ℕ → ℕ → List Point → Type 0
  AreOf k g ps =
      All IsKeyed ps × All (λ p. (p.payload.project_id ≡ k) × (p.payload.generation ≡ g)) ps

  pub points_for-AreOf :
      (k g commit : ℕ) (cs : List Chunk) (vs : List ℕ) (ps : List Point)
      → points_for uuid5 k g commit cs vs ≡ some ps
      → AreOf k g ps
  unfolding points_for point_of
  points_for-AreOf k g commit [] [] ps e =
      let same : ◌≡◌ {A = List Point} [] ps = cc e in subst (AreOf k g) same (tt, tt)
  points_for-AreOf k g commit [] (v ∷ vs) ps e = cc e
  points_for-AreOf k g commit (c ∷ cs) [] ps e = cc e
  points_for-AreOf k g commit (c ∷ cs) (v ∷ vs) ps e =
      elim (Option-cases (points_for uuid5 k g commit cs vs)) [
        | inl nothing ↦
            let bad = sym (ap (prepend (point_of uuid5 k g commit c v)) nothing) ∙ e in cc bad
        | inr (qs, got) ↦
            let (keyed, placed) = points_for-AreOf k g commit cs vs qs got in
            let whole = sym (ap (prepend (point_of uuid5 k g commit c v)) got) ∙ e in
            let same : point_of uuid5 k g commit c v ∷ qs ≡ ps = cc whole in
            subst (AreOf k g) same ((refl, keyed), ((refl, refl), placed))
      ]

-- The deletion of one generation leaves the others.
pub search_matches-delete_generation :
    (k g h : ℕ) (xs : List Point)
    → g ≢ h
    → search_matches k g (delete_generation k h xs) ≡ search_matches k g xs
unfolding search_matches delete_generation select_where
search_matches-delete_generation k g h [] n = refl
search_matches-delete_generation k g h (x ∷ xs) n =
    ground (arith, n, search_matches-delete_generation k g h xs n)

pub delete_generation-All :
    (P : Point → Type 0) (k g : ℕ) (xs : List Point) → All P xs → All P (delete_generation k g xs)
unfolding delete_generation
delete_generation-All P k g xs h = All-select_where P (λ p. not (in_generation k g p)) xs h

-- The id of one of the points.
unfoldable pub has_id : List Point → ℕ → Bool
has_id [] i = false
has_id (p ∷ ps) i = i == p.id || has_id ps i

abbrev pub HasDistinctIds : List Point → Type 0
HasDistinctIds [] = Unit {0}
HasDistinctIds (p ∷ ps) = (has_id ps p.id ≡ false) × HasDistinctIds ps

select_where-not_either :
    (a b : Point → Bool) (xs : List Point)
    → select_where (λ x. not (b x)) (select_where (λ x. not (a x)) xs)
      ≡ select_where (λ x. not (a x || b x)) xs
unfolding select_where
select_where-not_either a b [] = refl
select_where-not_either a b (x ∷ xs) = ground (arith, select_where-not_either a b xs)

select_where_none : (xs : List Point) → xs ≡ select_where (λ x. not (has_id [] x.id)) xs ++ []
unfolding has_id select_where
select_where_none [] = refl
select_where_none (x ∷ xs) = ap (λ ys. x ∷ ys) (select_where_none xs)

snoc-append : (xs : List Point) (p : Point) (ps : List Point) → (xs ++ p ∷ []) ++ ps ≡ xs ++ p ∷ ps
snoc-append [] p ps = refl
snoc-append (x ∷ xs) p ps = ap (λ ys. x ∷ ys) (snoc-append xs p ps)

select_where_one : (q : Point → Bool) (p : Point) → q p ≡ true → select_where q (p ∷ []) ≡ p ∷ []
unfolding select_where
select_where_one q p h = ground (arith, h)

search_matches-put_point :
    (k g : ℕ) (p : Point) (xs : List Point)
    → in_generation k g p ≡ true
    → search_matches k g (put_point p xs)
      ≡ select_where (λ x. not (x.id == p.id)) (search_matches k g xs) ++ p ∷ []
unfolding search_matches put_point
search_matches-put_point k g p xs on =
    let q = in_generation k g in
    let r = λ (x : Point). not (x.id == p.id) in
    select_where-append q (select_where r xs) (p ∷ [])
    ∙ ap (λ ys. ys ++ select_where q (p ∷ [])) (select_where_comm q r xs)
    ∙ ap (λ ys. select_where r (select_where q xs) ++ ys) (select_where_one q p on)

-- A write into the generation replaces the points of the written ids, keeps the others, and adds its own.
pub search_matches-upsert :
    (k g : ℕ) (ps xs : List Point)
    → All (λ p. in_generation k g p ≡ true) ps
    → HasDistinctIds ps
    → search_matches k g (upsert ps xs)
      ≡ select_where (λ x. not (has_id ps x.id)) (search_matches k g xs) ++ ps
unfolding upsert has_id
search_matches-upsert k g [] xs on distinct = select_where_none (search_matches k g xs)
search_matches-upsert k g (p ∷ ps) xs (o, on) (new, distinct) =
    let found = search_matches k g xs in
    let r = λ (x : Point). not (x.id == p.id) in
    let rest = λ (x : Point). not (has_id ps x.id) in
    let single : select_where rest (p ∷ []) ≡ p ∷ [] =
      select_where_one rest p (ground (arith, new)) in
    search_matches-upsert k g ps (put_point p xs) on distinct
    ∙ ap (λ ys. select_where rest ys ++ ps) (search_matches-put_point k g p xs o)
    ∙ ap (λ ys. ys ++ ps)
        (select_where-append rest (select_where r found) (p ∷ [])
          ∙ ap (λ ys. select_where rest (select_where r found) ++ ys) single
          ∙ ap (λ ys. ys ++ p ∷ [])
              (select_where-not_either (λ x. x.id == p.id) (λ x. has_id ps x.id) found))
    ∙ snoc-append (select_where (λ x. not (x.id == p.id || has_id ps x.id)) found) p ps

pub upsert-append : (ps qs xs : List Point) → upsert (ps ++ qs) xs ≡ upsert qs (upsert ps xs)
unfolding upsert
upsert-append [] qs xs = refl
upsert-append (p ∷ ps) qs xs = upsert-append ps qs (put_point p xs)
