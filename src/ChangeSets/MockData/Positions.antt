-- ===== src/ChangeSets/MockData/Positions.antt =====
-- The order of the records that are added.
use ask_repo.Prelude.{
  ℕ, suc, ◌≤◌, ◌≡◌, refl, sym, ap, ◌∙◌, ◌⊎◌, inl, inr, Bool, true, false, Option, none, some, List,
  [], ◌∷◌, ◌++◌, map, arith, ◌==◌,
}
use ask_repo.Table.{update_where}
use ask_repo.Access.{AuthenticatedUser, ok}
use ask_repo.ChangeSets.{
  ChangeSet, Module, Store, applied, apply_all, apply_parsed, apply_wanted, get_change_set,
  id_or_fresh, is_unwanted,
}
use ask_repo.ChangeSets.Rows.{edit_found, edit_own, edit_row, get_row}
use ask_repo.ChangeSets.Operations.{OperationKind, add, update, remove, or_empty}
use ask_repo.ChangeSets.MockData.{
  MockDataOperation, MockDataRecord, apply_one_record, apply_record_kind, apply_records, new_record,
  record_changed, record_deleted, records, run_record_operations,
}
use ask_repo.ChangeSets.MockData.Kept.{finish_records-rows, run_records}

-- Increasing numbers, the first of them at least `n`.
abbrev pub IncreasingFrom : ℕ → List ℕ → Type 0
IncreasingFrom n [] = Unit {0}
IncreasingFrom n (k ∷ ks) = (n ≤ k) × IncreasingFrom (suc k) ks

IncreasingFrom-weaken : (n : ℕ) (ks : List ℕ) → IncreasingFrom (suc n) ks → IncreasingFrom n ks
IncreasingFrom-weaken n [] h = tt
IncreasingFrom-weaken n (k ∷ ks) h = (omega (arith, h.0), h.1)

abbrev pub positions : List MockDataRecord → List ℕ
positions rs = map (λ r. r.position) rs

positions-update_where :
    (p : MockDataRecord → Bool) (f : MockDataRecord → MockDataRecord) (rs : List MockDataRecord)
    → ((r : MockDataRecord) → (f r).position ≡ r.position)
    → positions (update_where p f rs).0 ≡ positions rs
unfolding update_where
positions-update_where p f [] e = refl
positions-update_where p f (r ∷ rs) e = ground (arith, e r, positions-update_where p f rs e)

positions-append :
    (rs : List MockDataRecord) (r : MockDataRecord)
    → positions (rs ++ r ∷ []) ≡ positions rs ++ r.position ∷ []
positions-append [] r = refl
positions-append (s ∷ rs) r = ap (λ ks. s.position ∷ ks) (positions-append rs r)

append-nil : (xs : List ℕ) → xs ++ [] ≡ xs
append-nil [] = refl
append-nil (x ∷ xs) = ap (λ ks. x ∷ ks) (append-nil xs)

append_assoc : (xs ys zs : List ℕ) → (xs ++ ys) ++ zs ≡ xs ++ (ys ++ zs)
append_assoc [] ys zs = refl
append_assoc (x ∷ xs) ys zs = ap (λ ks. x ∷ ks) (append_assoc xs ys zs)

module _ {Raw : Type 0} (m : Module) where
  -- What a step at position `i` does to the positions: nothing, or it adds its own.
  abbrev Steps : ℕ → Store Raw MockDataRecord → Store Raw MockDataRecord → Type 0
  Steps i s t =
      (positions t.rows ≡ positions s.rows) ⊎ (positions t.rows ≡ positions s.rows ++ i ∷ [])

  own-Steps :
      (b : Bool) (i k : ℕ) (f : MockDataRecord → MockDataRecord) (s : Store Raw MockDataRecord)
      → ((r : MockDataRecord) → (f r).position ≡ r.position)
      → Steps i s (edit_own records b k f s).1
  own-Steps true i k f s e = inl (positions-update_where (λ r. r.id == k) f s.rows e)
  own-Steps false i k f s e = inl refl

  found-Steps :
      (o : Option MockDataRecord) (i k : ℕ) (f : MockDataRecord → MockDataRecord)
      (s : Store Raw MockDataRecord)
      → ((r : MockDataRecord) → (f r).position ≡ r.position)
      → Steps i s (edit_found records o m k f s).1
  found-Steps none i k f s e = inl refl
  found-Steps (some r) i k f s e = own-Steps (r.module_id == m.id) i k f s e

  edit-Steps :
      (o : Option ℕ) (i : ℕ) (f : MockDataRecord → MockDataRecord) (s : Store Raw MockDataRecord)
      → ((r : MockDataRecord) → (f r).position ≡ r.position)
      → Steps i s (edit_row records o m f s).1
  edit-Steps none i f s e = inl refl
  edit-Steps (some k) i f s e = found-Steps (get_row records k s) i k f s e

  module _ (parse : Raw → Option MockDataOperation) (raw_id : Raw → Option ℕ) (uuid4 : ℕ → ℕ)
      (wanted : Option (List ℕ)) (actor_id : ℕ) where
    kind-Steps :
        (kind : OperationKind) (i : ℕ) (op : MockDataOperation) (s : Store Raw MockDataRecord)
        → Steps i s (apply_record_kind uuid4 kind m actor_id i op s).1
    unfolding new_record
    kind-Steps add i op s = inr (positions-append s.rows (new_record uuid4 i op m actor_id s))
    kind-Steps remove i op s = edit-Steps op.record_id i (record_deleted s.clock) s (λ r. refl)
    kind-Steps update i op s =
        edit-Steps op.record_id i (record_changed (or_empty op.changes) s.clock) s (λ r. refl)

    wanted-Steps :
        (b : Bool) (i : ℕ) (op : MockDataOperation) (s : Store Raw MockDataRecord)
        → Steps i s
            (apply_wanted parse
              (λ op. op.id)
              raw_id
              uuid4
              (apply_one_record uuid4 m actor_id)
              b
              i
              op
              s).1
    unfolding apply_one_record
    wanted-Steps true i op s = inl refl
    wanted-Steps false i op s = kind-Steps op.op i op s

    drawn-Steps :
        (i : ℕ) (k : Option ℕ) (s : Store Raw MockDataRecord) → Steps i s (id_or_fresh uuid4 k s).1
    drawn-Steps i none s = inl refl
    drawn-Steps i (some k) s = inl refl

    parsed-Steps :
        (o : Option MockDataOperation) (i : ℕ) (raw : Raw) (s : Store Raw MockDataRecord)
        → Steps i s
            (apply_parsed parse
              (λ op. op.id)
              raw_id
              uuid4
              (apply_one_record uuid4 m actor_id)
              o
              wanted
              i
              raw
              s).1
    parsed-Steps none i raw s = drawn-Steps i (raw_id raw) s
    parsed-Steps (some op) i raw s = wanted-Steps (is_unwanted wanted op.id) i op s

    -- A step, and what the rest of the loop adds.
    step-positions :
        (i : ℕ) (s t : Store Raw MockDataRecord) (us : List ℕ) (ks : List ℕ)
        → Steps i s t
        → us ≡ positions t.rows ++ ks
        → IncreasingFrom (suc i) ks
        → (js : List ℕ) × (us ≡ positions s.rows ++ js) × IncreasingFrom i js
    step-positions i s t us ks (inl e) f h =
        (ks, f ∙ ap (λ ps. ps ++ ks) e, IncreasingFrom-weaken i ks h)
    step-positions i s t us ks (inr e) f h = (
      i ∷ ks,
      f ∙ ap (λ ps. ps ++ ks) e ∙ append_assoc (positions s.rows) (i ∷ []) ks,
      (omega arith, h),
    )

    loop-positions :
        (i : ℕ) (raws : List Raw) (s : Store Raw MockDataRecord)
        → let u =
            (apply_all parse
              (λ op. op.id)
              raw_id
              uuid4
              (apply_one_record uuid4 m actor_id)
              wanted
              i
              raws
              s).1 in
          (js : List ℕ) × (positions u.rows ≡ positions s.rows ++ js) × IncreasingFrom i js
    unfolding apply_all
    loop-positions i [] s = ([], sym (append-nil (positions s.rows)), tt)
    loop-positions i (raw ∷ raws) s =
        let t =
          (apply_parsed parse (λ op. op.id) raw_id uuid4 (apply_one_record uuid4 m actor_id)
            (parse raw) wanted i raw s).1 in
        let (ks, e, h) = loop-positions (suc i) raws t in
        step-positions i s t _ ks (parsed-Steps (parse raw) i raw s) e h

-- When a call of apply returns, the rows are the rows before it, with the same positions, and then the
-- records that were added, whose positions increase: the order of the proposal, whichever
-- of its operations the request left out.
pub positions-apply_records :
    {Raw : Type 0} (parse : Raw → Option MockDataOperation) (raw_id : Raw → Option ℕ)
    (uuid4 : ℕ → ℕ) (wanted : Option (List ℕ)) (k : ℕ) (actor : AuthenticatedUser)
    (s t : Store Raw MockDataRecord) (c : ChangeSet Raw) (lists : List ℕ × List ℕ)
    → apply_records parse raw_id uuid4 wanted k actor s ≡ ok (lists, t)
    → get_change_set k s ≡ some c
    → (js : List ℕ) × (positions t.rows ≡ positions s.rows ++ js) × IncreasingFrom 0 js
unfolding run_record_operations
positions-apply_records parse raw_id uuid4 wanted k actor s t c lists h at =
    let (m, own, e) = run_records parse raw_id uuid4 wanted k actor s t c lists h at in
    let (js, f, up) = loop-positions m parse raw_id uuid4 wanted actor.id 0 c.operations s in
    (
      js,
      ap (λ x. positions x.rows) e
          ∙ ap positions (finish_records-rows parse raw_id uuid4 wanted applied c.id m actor.id _)
          ∙ f,
      up,
    )
