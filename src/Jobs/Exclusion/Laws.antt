-- ===== src/Jobs/Exclusion/Laws.antt =====
-- Mutual exclusion of the workers: a run that its worker believes in and that has not expired is
-- the row's lease.
use ask_repo.Prelude.{
  ℕ, ◌+◌, ◌≤◌, ◌≡◌, refl, inl, inr, Bool, true, false, ◌&&◌, Option, none, some, List, [], ◌∷◌,
  arith, All, ◌==◌, Bool-cases,
}
use ask_repo.Table.{update_where, find, HasKeys}
use ask_repo.Table.Laws.{edited, find-update_where, find-key}
use ask_repo.Jobs.Lease.{Row, row_key, held_by, claimable, extended, seconds}
use ask_repo.Jobs.Exclusion.{Run, World, is_run, drop_run, move_run}

-- A failed renewal edits nothing, and the others' runs stay.
pub All-drop :
    (P : Run → Type 0) (k w : ℕ) (runs : List Run) → All P runs → All P (drop_run k w runs)
unfolding drop_run
All-drop P k w [] h = tt
All-drop P k w (run ∷ runs) h = ground (arith, All-drop P k w runs h.1)

module _ {S E : Type 0} where
  -- The row carries the run's lease.
  abbrev pub Owns : Run → Option (Row S E) → Type 0
  Owns run none = ⊥
  Owns run (some r) =
      (r.id ≡ run.row_id)
      × (r.lease_owner ≡ some run.worker_id)
      × (r.lease_expires_at ≡ some run.until)

  abbrev pub Backed : ℕ → List (Row S E) → Run → Type 0
  Backed now table run = now ≤ run.until → Owns run (find row_key run.row_id table)

  pub record Inv (s : World S E) : Type 0 where
    pub keys : HasKeys row_key s.table
    pub backed : All (Backed s.now s.table) s.runs

  -- An edit that leaves the owner and the expiry of a run's row alone.
  abbrev pub Spares : Run → (Row S E → Bool) → (Row S E → Row S E) → Type 0
  Spares run p f = (r : Row S E) → Owns run (some r) → p r ≡ true → Owns run (some (f r))

  Owns-edited :
      (run : Run) (p : Row S E → Bool) (f : Row S E → Row S E) (o : Option (Row S E))
      → Spares run p f
      → Owns run o
      → Owns run (edited p f o)
  Owns-edited run p f none sp h = h
  Owns-edited run p f (some r) sp h = elim (Bool-cases (p r)) [
    | inl hit ↦ rw hit (sp r h hit)
    | inr miss ↦ rw miss h
  ]

  Backed-update_where :
      (now : ℕ) (table : List (Row S E)) (run : Run) (p : Row S E → Bool) (f : Row S E → Row S E)
      → ((r : Row S E) → (f r).id ≡ r.id)
      → (now ≤ run.until → Spares run p f)
      → Backed now table run
      → Backed now (update_where p f table).0 run
  Backed-update_where now table run p f e sp b live =
      rw (find-update_where row_key p f run.row_id table e)
        (Owns-edited run p f (find row_key run.row_id table) (sp live) (b live))

  pub Backed-each :
      (now : ℕ) (table : List (Row S E)) (p : Row S E → Bool) (f : Row S E → Row S E)
      → ((r : Row S E) → (f r).id ≡ r.id)
      → ((run : Run) → now ≤ run.until → Spares run p f)
      → (runs : List Run) → All (Backed now table) runs
      → All (Backed now (update_where p f table).0) runs
  Backed-each now table p f e sp [] h = tt
  Backed-each now table p f e sp (run ∷ runs) h = (
    Backed-update_where now table run p f e (sp run) h.0,
    Backed-each now table p f e sp runs h.1,
  )

  other-Spares :
      (k w : ℕ) (skip : Bool) (f : Row S E → Row S E) (run : Run)
      → is_run k w run ≡ false
      → Spares run (λ r. r.id == k && held_by w skip r) f
  unfolding is_run held_by
  other-Spares k w skip f run other r h hit = ground arith

  pub claimable-Spares :
      (now k job : ℕ) (gate : Row S E → Bool) (f : Row S E → Row S E) (run : Run)
      → now ≤ run.until
      → Spares run (λ r. r.id == k && claimable now job gate r) f
  unfolding claimable
  claimable-Spares now k job gate f run live r h hit = ground arith

  -- The runs that are left when the worker gives up its run of the row, which is edited under the
  -- worker's own lease.
  pub Backed-drop :
      (now k w : ℕ) (table : List (Row S E)) (skip : Bool) (f : Row S E → Row S E)
      → ((r : Row S E) → (f r).id ≡ r.id)
      → (runs : List Run) → All (Backed now table) runs
      → All
          (Backed now (update_where (λ r. r.id == k && held_by w skip r) f table).0)
          (drop_run k w runs)
  unfolding drop_run
  Backed-drop now k w table skip f e [] h = tt
  Backed-drop now k w table skip f e (run ∷ runs) h =
      let rest = Backed-drop now k w table skip f e runs h.1 in
      elim (Bool-cases (is_run k w run)) [
        | inl mine ↦ rw (mine, drop_run) rest
        | inr other ↦
            rw (other, drop_run)
              (
                Backed-update_where now table run _ f e (λ _. other-Spares k w skip f run other)
                    h.0,
                rest,
              )
      ]

  pub extended-id : (now secs : ℕ) (r : Row S E) → (extended now secs r).id ≡ r.id
  unfolding extended
  extended-id now secs r = refl

  moved-Owns :
      (now k w secs : ℕ) (table : List (Row S E)) (skip : Bool) (r : Row S E) (run : Run)
      → is_run k w run ≡ true
      → find row_key k table ≡ some r
      → held_by w skip r ≡ true
      → Owns
          (record run { until = now + seconds secs })
          (find row_key run.row_id
            (update_where (λ r. r.id == k && held_by w skip r) (extended now secs) table).0)
  unfolding is_run held_by extended
  moved-Owns now k w secs table skip r run mine found held =
      let same : run.row_id ≡ k = ground arith in
      rw (same, find-update_where row_key _ (extended now secs) k table (λ r. refl), found)
        (ground (arith, find-key row_key k table found))

  -- A renewal moves the worker's run along with the row's expiry.
  pub Backed-move :
      (now k w secs : ℕ) (table : List (Row S E)) (skip : Bool) (r : Row S E)
      → find row_key k table ≡ some r
      → held_by w skip r ≡ true
      → (runs : List Run) → All (Backed now table) runs
      → All
          (Backed now
            (update_where (λ r. r.id == k && held_by w skip r) (extended now secs) table).0)
          (move_run k w (now + seconds secs) runs)
  unfolding move_run
  Backed-move now k w secs table skip r found held [] h = tt
  Backed-move now k w secs table skip r found held (run ∷ runs) h =
      let rest = Backed-move now k w secs table skip r found held runs h.1 in
      elim (Bool-cases (is_run k w run)) [
        | inl mine ↦
            rw (mine, move_run)
              (λ _. moved-Owns now k w secs table skip r run mine found held, rest)
        | inr other ↦
            rw (other, move_run)
              (
                Backed-update_where now table run _ (extended now secs) (extended-id now secs)
                    (λ _. other-Spares k w skip (extended now secs) run other) h.0,
                rest,
              )
      ]
