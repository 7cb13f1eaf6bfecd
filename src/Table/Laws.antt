-- ===== src/Table/Laws.antt =====
-- What the statements do to the row of a key.
use mathlib.Core.Path.{subst}
use ask_repo.Prelude.{
  ℕ, ◌≡◌, refl, sym, ◌∙◌, ◌≢◌, inl, inr, Bool, true, ◌&&◌, Option, none, some, List, [], ◌∷◌, ◌++◌,
  arith, All, ◌==◌, if◌then◌else◌, ==_iff, Bool-cases,
}
use ask_repo.Table.{update_where, find, HasKeys, first_row}

-- What the row of the key becomes.
abbrev pub edited : {R : Type 0} → (R → Bool) → (R → R) → Option R → Option R
edited p f none = none
edited p f (some r) = if p r then some (f r) else some r

-- The rows that the statement returns.
abbrev pub returned : {R : Type 0} → (R → Bool) → (R → R) → Option R → List R
returned p f none = []
returned p f (some r) = if p r then f r ∷ [] else []

-- What is left of a row that is also tested.
abbrev pub tested : {R : Type 0} → (R → Bool) → Option R → Option R
tested q none = none
tested q (some r) = if q r then some r else none

module _ {R : Type 0} (key : R → ℕ) where
  pub find-key : (k : ℕ) (rs : List R) {r : R} → find key k rs ≡ some r → key r ≡ k
  unfolding find
  find-key k [] h = cc
  find-key k (s ∷ rs) h = elim (Bool-cases (key s == k)) [
    | inl hit ↦ ground arith
    | inr miss ↦ find-key k rs (ground arith)
  ]

  -- A lookup after an update whose values leave the key alone.
  pub find-update_where :
      (p : R → Bool) (f : R → R) (k : ℕ) (rs : List R)
      → ((r : R) → key (f r) ≡ key r)
      → find key k (update_where p f rs).0 ≡ edited p f (find key k rs)
  unfolding find update_where
  find-update_where p f k [] e = refl
  find-update_where p f k (r ∷ rs) e = ground (arith, e r, find-update_where p f k rs e)

  edited-key :
      (q : R → Bool) (f : R → R) (k : ℕ) (o : Option R)
      → ((r : R) → o ≡ some r → key r ≡ k)
      → edited (λ r. key r == k && q r) f o ≡ edited q f o
  edited-key q f k none h = refl
  edited-key q f k (some r) h =
      let e : (key r == k) ≡ true = (==_iff (key r) k).1 (h r refl) in rw e

  -- A lookup after an update that is guarded by the same key.
  pub find-update_where_self :
      (q : R → Bool) (f : R → R) (k : ℕ) (rs : List R)
      → ((r : R) → key (f r) ≡ key r)
      → find key k (update_where (λ r. key r == k && q r) f rs).0 ≡ edited q f (find key k rs)
  find-update_where_self q f k rs e =
      find-update_where (λ r. key r == k && q r) f k rs e
      ∙ edited-key q f k (find key k rs) (λ r. find-key k rs)

  edited-only_key :
      (f : R → R) (k : ℕ) (o : Option R)
      → ((r : R) → o ≡ some r → key r ≡ k)
      → edited (λ r. key r == k) f o ≡ edited (λ r. true) f o
  edited-only_key f k none h = refl
  edited-only_key f k (some r) h =
      let e : (key r == k) ≡ true = (==_iff (key r) k).1 (h r refl) in rw e

  -- A lookup after an update of the row of that key.
  pub find-update_where_only :
      (f : R → R) (k : ℕ) (rs : List R)
      → ((r : R) → key (f r) ≡ key r)
      → find key k (update_where (λ r. key r == k) f rs).0 ≡ edited (λ r. true) f (find key k rs)
  find-update_where_only f k rs e =
      find-update_where (λ r. key r == k) f k rs e
      ∙ edited-only_key f k (find key k rs) (λ r. find-key k rs)

  All-update_where :
      (p : R → Bool) (f : R → R) (k : ℕ) (rs : List R)
      → ((r : R) → key (f r) ≡ key r)
      → All (λ s. key s ≢ k) rs
      → All (λ s. key s ≢ k) (update_where p f rs).0
  unfolding update_where
  All-update_where p f k [] e h = tt
  All-update_where p f k (r ∷ rs) e h = ground (arith, e r, All-update_where p f k rs e h.1)

  pub update_where-HasKeys :
      (p : R → Bool) (f : R → R) (rs : List R)
      → ((r : R) → key (f r) ≡ key r)
      → HasKeys key rs
      → HasKeys key (update_where p f rs).0
  unfolding update_where
  update_where-HasKeys p f [] e h = tt
  update_where-HasKeys p f (r ∷ rs) e h =
      let rest = All-update_where p f (key r) rs e h.0 in
      let moved = subst (λ j. All (λ s. key s ≢ j) (update_where p f rs).0) (sym (e r)) rest in
      ground (arith, update_where-HasKeys p f rs e h.1, rest, moved)

  -- An update guarded by the key, as the repositories write it.
  returned-absent :
      (q : R → Bool) (f : R → R) (k : ℕ) (rs : List R)
      → All (λ s. key s ≢ k) rs
      → (update_where (λ r. key r == k && q r) f rs).1 ≡ []
  unfolding update_where
  returned-absent q f k [] h = refl
  returned-absent q f k (r ∷ rs) h = ground (arith, returned-absent q f k rs h.1)

  -- It returns the row of the key, if that passes the other conditions, and no other row.
  pub returned-update_where :
      (q : R → Bool) (f : R → R) (k : ℕ) (rs : List R)
      → HasKeys key rs
      → (update_where (λ r. key r == k && q r) f rs).1 ≡ returned q f (find key k rs)
  unfolding update_where find
  returned-update_where q f k [] h = refl
  returned-update_where q f k (r ∷ rs) h = elim (Bool-cases (key r == k)) [
    | inl hit ↦
        let e : key r ≡ k = (==_iff _ _).0 hit in
        ground (arith, returned-absent q f k rs (subst (λ j. All (λ s. key s ≢ j) rs) e h.0))
    | inr miss ↦ ground (arith, returned-update_where q f k rs h.1)
  ]

  -- A lookup that also tests the row finds the row of the key, when it is the only one.
  absent-first_row :
      (q : R → Bool) (k : ℕ) (rs : List R)
      → All (λ s. key s ≢ k) rs
      → first_row (λ r. key r == k && q r) rs ≡ none
  unfolding first_row
  absent-first_row q k [] h = refl
  absent-first_row q k (r ∷ rs) h = ground (arith, absent-first_row q k rs h.1)

  pub find-first_row :
      (q : R → Bool) (k : ℕ) (rs : List R) {r : R}
      → HasKeys key rs
      → first_row (λ r. key r == k && q r) rs ≡ some r
      → find key k rs ≡ some r
  unfolding first_row find
  find-first_row q k [] u h = cc
  find-first_row q k (s ∷ rs) {r = r} u h = elim (Bool-cases (key s == k)) [
    | inl hit ↦
        let e : key s ≡ k = (==_iff _ _).0 hit in
        ground (arith, absent-first_row q k rs (subst (λ j. All (λ s. key s ≢ j) rs) e u.0))
    | inr miss ↦ ground (arith, find-first_row q k rs {r = r} u.1)
  ]

  -- A lookup that also tests the row tests the row of the key.
  pub first_row-find :
      (q : R → Bool) (k : ℕ) (rs : List R)
      → HasKeys key rs
      → first_row (λ r. key r == k && q r) rs ≡ tested q (find key k rs)
  unfolding first_row find
  first_row-find q k [] u = refl
  first_row-find q k (s ∷ rs) u = elim (Bool-cases (key s == k)) [
    | inl hit ↦
        let e : key s ≡ k = (==_iff _ _).0 hit in
        ground (arith, hit, absent-first_row q k rs (subst (λ j. All (λ s. key s ≢ j) rs) e u.0))
    | inr miss ↦ ground (arith, miss, first_row-find q k rs u.1)
  ]

  -- A row added at the end is found only when no earlier row has its key.
  pub find-append :
      (k : ℕ) (rs ss : List R) {r : R} → find key k rs ≡ some r → find key k (rs ++ ss) ≡ some r
  unfolding find
  find-append k [] ss h = cc
  find-append k (s ∷ rs) ss {r = r} h = ground (arith, find-append k rs ss {r = r})

  pub find-append_none :
      (k : ℕ) (rs : List R) (r : R)
      → find key k rs ≡ none
      → key r ≢ k
      → find key k (rs ++ r ∷ []) ≡ none
  unfolding find
  find-append_none k [] r h n = ground arith
  find-append_none k (s ∷ rs) r h n = ground (arith, find-append_none k rs r)

  All-append_one :
      (k : ℕ) (rs : List R) (r : R)
      → All (λ s. key s ≢ k) rs
      → key r ≢ k
      → All (λ s. key s ≢ k) (rs ++ r ∷ [])
  All-append_one k [] r h n = (n, tt)
  All-append_one k (s ∷ rs) r h n = (h.0, All-append_one k rs r h.1 n)

  pub append-HasKeys :
      (rs : List R) (r : R)
      → HasKeys key rs
      → find key (key r) rs ≡ none
      → HasKeys key (rs ++ r ∷ [])
  unfolding find
  append-HasKeys [] r u h = (tt, tt)
  append-HasKeys (s ∷ rs) r u h =
      let new : key r ≢ key s = ground arith in
      (All-append_one (key s) rs r u.0 new, append-HasKeys rs r u.1 (ground arith))

module _ {R : Type 0} where
  -- A statement that returns no row has changed no row.
  pub update_where-unchanged :
      (p : R → Bool) (f : R → R) (rs : List R)
      → (update_where p f rs).1 ≡ []
      → (update_where p f rs).0 ≡ rs
  unfolding update_where
  update_where-unchanged p f [] h = refl
  update_where-unchanged p f (r ∷ rs) h = ground (arith, update_where-unchanged p f rs)
