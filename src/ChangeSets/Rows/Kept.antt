-- ===== src/ChangeSets/Rows/Kept.antt =====
-- What holds of a table's rows when a change set is applied.
use ask_repo.Prelude.{
  ℕ, suc, ◌≤◌, ◌≡◌, refl, sym, ap, ◌∙◌, ◌≢◌, Bool, true, false, Option, none, some, [], ◌∷◌, ◌++◌,
  arith, ◌==◌, if◌then◌else◌, ==_iff,
}
use ask_repo.Table.{HasKeys, find, update_where}
use ask_repo.Table.Laws.{
  append-HasKeys, edited, find-append, find-append_none, find-first_row, find-key,
  find-update_where, update_where-HasKeys,
}
use ask_repo.ChangeSets.{Module, Store}
use ask_repo.ChangeSets.Rows.{RowType, edit_found, edit_own, edit_row, get_row}

module _ {Item Observed : Type 0} (table : RowType Item Observed) where
  -- What becomes of a row when module `m`'s change set is applied: the observed columns stay, and so does all
  -- of a row of another module.
  abbrev pub Kept : ℕ → Item → Item → Type 0
  Kept m i j = (table.observed j ≡ table.observed i) × (table.module_of i ≢ m → j ≡ i)

  -- The keys of the rows are unique, and ids still to be drawn are new.
  abbrev pub HasFreshIds : {Raw : Type 0} → (ℕ → ℕ) → Store Raw Item → Type 0
  HasFreshIds uuid4 s =
      HasKeys table.key s.rows × ((n : ℕ) → s.draws ≤ n → find table.key (uuid4 n) s.rows ≡ none)

  -- Every row is still there, and kept.
  abbrev pub KeepsRows : {Raw : Type 0} → ℕ → Store Raw Item → Store Raw Item → Type 0
  KeepsRows m s t =
      (k : ℕ) (i : Item)
      → find table.key k s.rows ≡ some i
      → (j : Item) × (find table.key k t.rows ≡ some j) × Kept m i j

  -- What an edit of a row of module `m` makes of a row.
  edited-Kept :
      (m : ℕ) (f : Item → Item) (i : Item) (b : Bool)
      → table.observed (f i) ≡ table.observed i
      → (b ≡ true → table.module_of i ≡ m)
      → (j : Item) × ((if b then some (f i) else some i) ≡ some j) × Kept m i j
  edited-Kept m f i true e h = (f i, refl, (e, λ n. absurd (n (h refl))))
  edited-Kept m f i false e h = (i, refl, (refl, λ n. refl))

module _ {Raw Item Observed : Type 0} (table : RowType Item Observed) (uuid4 : ℕ → ℕ)
    (distinct : (a b : ℕ) → uuid4 a ≡ uuid4 b → a ≡ b) (m : Module) where
  abbrev pub Keeps : Store Raw Item → Store Raw Item → Type 0
  Keeps s t = HasFreshIds table uuid4 s → HasFreshIds table uuid4 t × KeepsRows table m.id s t

  pub Keeps-same : (s : Store Raw Item) → Keeps s s
  Keeps-same s h = (h, λ k i e. (i, e, (refl, λ n. refl)))

  pub Keeps-after : (s t u : Store Raw Item) → Keeps s t → Keeps t u → Keeps s u
  Keeps-after s t u f g h =
      let (ht, ft) = f h in
      let (hu, gu) = g ht in
      (
        hu,
        λ k i e.
            let (j, ej, (oj, nj)) = ft k i e in
            let (l, el, (ol, nl)) = gu k j ej in
            let same : table.module_of j ≡ table.module_of i =
              sym (table.module_lem j) ∙ ap table.observed_module oj ∙ table.module_lem i in
            (l, el, (ol ∙ oj, λ n. nl (λ h. n (sym same ∙ h)) ∙ nj n)),
      )

  pub Keeps-drawn : (s : Store Raw Item) → Keeps s (record s { draws = suc s.draws })
  Keeps-drawn s h = ((h.0, λ n e. h.1 n (omega (arith, e))), λ k i e. (i, e, (refl, λ n. refl)))

  edit_own-Keeps :
      (item : Item) (b : Bool) (k : ℕ) (f : Item → Item) (s : Store Raw Item)
      → ((i : Item) → table.observed (f i) ≡ table.observed i)
      → (HasFreshIds table uuid4 s → find table.key k s.rows ≡ some item)
      → (b ≡ true → table.module_of item ≡ m.id)
      → Keeps s (edit_own table b k f s).1
  edit_own-Keeps item false k f s e found own h = Keeps-same s h
  edit_own-Keeps item true k f s e found own h =
      let id_kept : (i : Item) → table.key (f i) ≡ table.key i =
        λ i. sym (table.key_lem (f i)) ∙ ap table.observed_key (e i) ∙ table.key_lem i in
      let lookup : (j : ℕ)
          → find table.key j (update_where (λ i. table.key i == k) f s.rows).0
            ≡ edited (λ i. table.key i == k) f (find table.key j s.rows) =
        λ j. find-update_where table.key (λ i. table.key i == k) f j s.rows id_kept in
      (
        (
          update_where-HasKeys table.key (λ i. table.key i == k) f s.rows id_kept h.0,
          λ n le. lookup (uuid4 n) ∙ ap (edited (λ i. table.key i == k) f) (h.1 n le),
        ),
        λ j i at.
            let same : (table.key i == k) ≡ true → table.module_of i ≡ m.id = λ hit.
              let e1 : table.key i ≡ k = (==_iff _ _).0 hit in
              let e2 : table.key i ≡ j = find-key table.key j s.rows at in
              let e3 : find table.key j s.rows ≡ find table.key k s.rows =
                ap (λ x. find table.key x s.rows) (sym e2 ∙ e1) in
              let e4 : i ≡ item = cc (at, e3, found h) in
              ap (λ x. table.module_of x) e4 ∙ own refl in
            let (l, el, kept) = edited-Kept table m.id f i (table.key i == k) (e i) same in
            (l, lookup j ∙ ap (edited (λ i. table.key i == k) f) at ∙ el, kept),
      )

  edit_found-Keeps :
      (o : Option Item) (k : ℕ) (f : Item → Item) (s : Store Raw Item)
      → ((i : Item) → table.observed (f i) ≡ table.observed i)
      → (get_row table k s ≡ o)
      → Keeps s (edit_found table o m k f s).1
  unfolding get_row
  edit_found-Keeps none k f s e at h = Keeps-same s h
  edit_found-Keeps (some item) k f s e at h =
      edit_own-Keeps item (table.module_of item == m.id) k f s e
        (λ u. find-first_row table.key (λ i. table.is_live i) k s.rows u.0 at)
        (λ own. (==_iff _ _).0 own) h

  pub edit_row-Keeps :
      (o : Option ℕ) (f : Item → Item) (s : Store Raw Item)
      → ((i : Item) → table.observed (f i) ≡ table.observed i)
      → Keeps s (edit_row table o m f s).1
  edit_row-Keeps none f s e = Keeps-same s
  edit_row-Keeps (some k) f s e = edit_found-Keeps (get_row table k s) k f s e refl

  pub add-Keeps :
      (i : Item) (s : Store Raw Item)
      → table.key i ≡ uuid4 s.draws
      → Keeps s (record s { draws = suc s.draws; rows = s.rows ++ i ∷ [] })
  add-Keeps i s e h =
      let new : (n : ℕ) → suc s.draws ≤ n → table.key i ≢ uuid4 n =
        λ n le eq. absurd (omega (arith, le, distinct s.draws n (sym e ∙ eq))) in
      (
        (
          append-HasKeys table.key s.rows i h.0
              (ap (λ k. find table.key k s.rows) e ∙ h.1 s.draws (omega arith)),
          λ n le.
              find-append_none table.key (uuid4 n) s.rows i (h.1 n (omega (arith, le))) (new n le),
        ),
        λ k j at. (j, find-append table.key k s.rows (i ∷ []) at, (refl, λ n. refl)),
      )
