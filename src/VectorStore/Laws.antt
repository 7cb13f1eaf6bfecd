-- ===== src/VectorStore/Laws.antt =====
-- What a search sees after a write or a delete.
use ask_repo.VectorStore.{in_generation, put_point, search_matches, Point}
use ask_repo.Table.{select_where}
use ask_repo.Prelude.{
  ℕ, ◌≡◌, refl, ap, ◌∙◌, ◌≢◌, inl, inr, Bool, true, false, not, ◌&&◌, List, [], ◌∷◌, ◌++◌, arith,
  All, All-map, ◌==◌, Bool-cases,
}

module _ {R : Type 0} where
  pub select_where-append :
      (p : R → Bool) (xs ys : List R)
      → select_where p (xs ++ ys) ≡ select_where p xs ++ select_where p ys
  unfolding select_where
  select_where-append p [] ys = refl
  select_where-append p (x ∷ xs) ys = elim (Bool-cases (p x)) [
    | inl e ↦ rw e (ap (λ zs. x ∷ zs) (select_where-append p xs ys))
    | inr e ↦ rw e (select_where-append p xs ys)
  ]

  pub select_where_comm :
      (p q : R → Bool) (xs : List R)
      → select_where p (select_where q xs) ≡ select_where q (select_where p xs)
  unfolding select_where
  select_where_comm p q [] = refl
  select_where_comm p q (x ∷ xs) = ground (arith, select_where_comm p q xs)

  pub select_where-twice :
      (p q : R → Bool) (xs : List R)
      → select_where p (select_where q xs) ≡ select_where (λ x. q x && p x) xs
  unfolding select_where
  select_where-twice p q [] = refl
  select_where-twice p q (x ∷ xs) = ground (arith, select_where-twice p q xs)

  -- A selection that keeps all that another one keeps.
  pub select_where-weaker :
      (p q : R → Bool) (xs : List R)
      → All (λ x. p x ≡ true → q x ≡ true) xs
      → select_where p (select_where q xs) ≡ select_where p xs
  unfolding select_where
  select_where-weaker p q [] h = refl
  select_where-weaker p q (x ∷ xs) (h, hs) =
      let ih = select_where-weaker p q xs hs in
      elim (Bool-cases (p x)) [
        | inl e ↦ let e' = h e in ground (arith, e, e', ih)
        | inr e ↦ ground (arith, e, ih)
      ]

  pub All-select_where :
      (P : R → Type 0) (q : R → Bool) (xs : List R) → All P xs → All P (select_where q xs)
  unfolding select_where
  All-select_where P q [] h = tt
  All-select_where P q (x ∷ xs) (h, hs) =
      let ih = All-select_where P q xs hs in
      elim (Bool-cases (q x)) [ inl e ↦ rw e (h, ih) | inr e ↦ rw e ih ]

  pub All-append : (P : R → Type 0) (xs ys : List R) → All P xs → All P ys → All P (xs ++ ys)
  All-append P [] ys h k = k
  All-append P (x ∷ xs) ys h k = (h.0, All-append P xs ys h.1 k)

none_of :
    (k g : ℕ) (p : Point)
    → in_generation k g p ≡ false
    → select_where (in_generation k g) (p ∷ []) ≡ []
unfolding select_where
none_of k g p h = ground (arith, h)

append_nil : (xs : List Point) → xs ++ [] ≡ xs
append_nil [] = refl
append_nil (x ∷ xs) = ap (λ ys. x ∷ ys) (append_nil xs)

differ : (x p : Point) → x.id ≢ p.id → not (x.id == p.id) ≡ true
differ x p h = ground (arith, h)

-- A write of another generation's point, whose id is another.
module _ (project_id generation : ℕ) where
  abbrev q : Point → Bool
  q = in_generation project_id generation

  pub search_matches-put_other :
      (p : Point) (xs : List Point)
      → q p ≡ false
      → All (λ x. q x ≡ true → x.id ≢ p.id) xs
      → search_matches project_id generation (put_point p xs)
        ≡ search_matches project_id generation xs
  unfolding search_matches put_point
  search_matches-put_other p xs off h =
      select_where-append q (select_where (λ x. not (x.id == p.id)) xs) (p ∷ [])
      ∙ ap (λ ys. select_where q (select_where (λ x. not (x.id == p.id)) xs) ++ ys)
          (none_of project_id generation p off)
      ∙ append_nil (select_where q (select_where (λ x. not (x.id == p.id)) xs))
      ∙ select_where-weaker q (λ x. not (x.id == p.id)) xs
          (All-map xs (λ x ne on. differ x p (ne on)) h)
