-- ===== src/Members/Counting.antt =====
-- Counting rows before and after a write.
use ask_repo.Prelude.{◌≤◌, ◌≡◌, Bool, true, List, [], ◌∷◌, arith, All}
use ask_repo.Table.{update_where}
use ask_repo.Members.{count_where}

module _ {R : Type 0} where
  pub count_where_mono :
      (p q : R → Bool) (rs : List R)
      → ((r : R) → p r ≡ true → q r ≡ true)
      → count_where p rs ≤ count_where q rs
  unfolding count_where
  count_where_mono p q [] h = omega arith
  count_where_mono p q (r ∷ rs) h = ground (arith, h r, count_where_mono p q rs h)

  -- A write that spares the rows that are counted.
  pub count_where-update :
      (p t : R → Bool) (f : R → R) (rs : List R)
      → All (λ r. t r ≡ true → p r ≡ true → p (f r) ≡ true) rs
      → count_where p rs ≤ count_where p (update_where t f rs).0
  unfolding count_where update_where
  count_where-update p t f [] h = omega arith
  count_where-update p t f (r ∷ rs) h = ground (arith, h.0, count_where-update p t f rs h.1)
