-- ===== src/ChangeSets/Loop.antt =====
-- What holds of the loop of `apply`, whatever a single operation does.
use ask_repo.Prelude.{
  ℕ, suc, ◌+◌, ◌≡◌, refl, ap, ◌∙◌, Bool, true, false, Option, none, some, List, [], ◌∷◌, arith,
  length, if◌then◌else◌,
}
use ask_repo.ChangeSets.{
  Store, add_skipped, add_touched, apply_all, is_unwanted, outcome_of, apply_parsed, apply_wanted,
  id_or_fresh,
}

module _ {Raw Op : Type 0} (parse : Raw → Option Op) (op_id : Op → ℕ) where
  -- One for an operation that is not left out: an unreadable one never is.
  abbrev pub weight : Option (List ℕ) → Option Op → ℕ
  weight wanted none = 1
  weight wanted (some op) = if is_unwanted wanted (op_id op) then 0 else 1

  unfoldable pub count_reported : Option (List ℕ) → List Raw → ℕ
  count_reported wanted [] = 0
  count_reported wanted (raw ∷ raws) = weight wanted (parse raw) + count_reported wanted raws

module _ {Raw Item Op : Type 0} (parse : Raw → Option Op) (op_id : Op → ℕ) (raw_id : Raw → Option ℕ)
    (uuid4 : ℕ → ℕ) (apply_one : ℕ → Op → Store Raw Item → Option ℕ × Store Raw Item) where
  -- A relation that every step keeps is kept by the loop.
  module _ (Keeps : Store Raw Item → Store Raw Item → Type 0)
      (same : (s : Store Raw Item) → Keeps s s)
      (after : (s t u : Store Raw Item) → Keeps s t → Keeps t u → Keeps s u)
      (drawn : (s : Store Raw Item) → Keeps s (record s { draws = suc s.draws }))
      (each : (i : ℕ) (op : Op) (s : Store Raw Item) → Keeps s (apply_one i op s).1) where
    drawn-Keeps : (k : Option ℕ) (s : Store Raw Item) → Keeps s (id_or_fresh uuid4 k s).1
    drawn-Keeps none s = drawn s
    drawn-Keeps (some k) s = same s

    wanted-Keeps :
        (b : Bool) (i : ℕ) (op : Op) (s : Store Raw Item)
        → Keeps s (apply_wanted parse op_id raw_id uuid4 apply_one b i op s).1
    wanted-Keeps true i op s = same s
    wanted-Keeps false i op s = each i op s

    parsed-Keeps :
        (o : Option Op) (wanted : Option (List ℕ)) (i : ℕ) (raw : Raw) (s : Store Raw Item)
        → Keeps s (apply_parsed parse op_id raw_id uuid4 apply_one o wanted i raw s).1
    parsed-Keeps none wanted i raw s = drawn-Keeps (raw_id raw) s
    parsed-Keeps (some op) wanted i raw s = wanted-Keeps (is_unwanted wanted (op_id op)) i op s

    pub apply_all-Keeps :
        (wanted : Option (List ℕ)) (i : ℕ) (raws : List Raw) (s : Store Raw Item)
        → Keeps s (apply_all parse op_id raw_id uuid4 apply_one wanted i raws s).1
    unfolding apply_all
    apply_all-Keeps wanted i [] s = same s
    apply_all-Keeps wanted i (raw ∷ raws) s =
        after s _ _ (parsed-Keeps (parse raw) wanted i raw s)
          (apply_all-Keeps wanted (suc i) raws _)

  row_weight :
      (k : ℕ) (row : Option ℕ) (ts ks : List ℕ)
      → length (add_touched (outcome_of k row) ts) + length (add_skipped (outcome_of k row) ks)
        ≡ 1 + (length ts + length ks)
  row_weight k none ts ks = omega arith
  row_weight k (some j) ts ks = omega arith

  wanted_weight :
      (b : Bool) (i : ℕ) (op : Op) (s : Store Raw Item) (ts ks : List ℕ)
      → let o = (apply_wanted parse op_id raw_id uuid4 apply_one b i op s).0 in
        length (add_touched o ts) + length (add_skipped o ks)
        ≡ (if b then 0 else 1) + (length ts + length ks)
  wanted_weight true i op s ts ks = omega arith
  wanted_weight false i op s ts ks = row_weight (op_id op) (apply_one i op s).0 ts ks

  parsed_weight :
      (p : Option Op) (wanted : Option (List ℕ)) (i : ℕ) (raw : Raw) (s : Store Raw Item)
      (ts ks : List ℕ)
      → let o = (apply_parsed parse op_id raw_id uuid4 apply_one p wanted i raw s).0 in
        length (add_touched o ts) + length (add_skipped o ks)
        ≡ weight parse op_id wanted p + (length ts + length ks)
  parsed_weight none wanted i raw s ts ks = omega arith
  parsed_weight (some op) wanted i raw s ts ks =
      wanted_weight (is_unwanted wanted (op_id op)) i op s ts ks

  pub count_reported_lem :
      (wanted : Option (List ℕ)) (i : ℕ) (raws : List Raw) (s : Store Raw Item)
      → let (lists, t) = apply_all parse op_id raw_id uuid4 apply_one wanted i raws s in
        length lists.0 + length lists.1 ≡ count_reported parse op_id wanted raws
  unfolding apply_all count_reported
  count_reported_lem wanted i [] s = refl
  count_reported_lem wanted i (raw ∷ raws) s =
      let t = (apply_parsed parse op_id raw_id uuid4 apply_one (parse raw) wanted i raw s).1 in
      parsed_weight (parse raw) wanted i raw s _ _
      ∙ ap (λ n. weight parse op_id wanted (parse raw) + n)
          (count_reported_lem wanted (suc i) raws t)
