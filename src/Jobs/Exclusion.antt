-- ===== src/Jobs/Exclusion.antt =====
-- The leases of backend/app/repositories/lease.py as a protocol between workers: one table, the
-- clock, and the runs that the workers believe they hold. A worker believes in a run from a claim
-- that it won until the expiry it was given; it moves the expiry on by a renewal that succeeded, and
-- gives the run up after a failed renewal, a release, a deferral or an abandonment.
pub mod Laws
pub mod Steps
pub mod Redelivery
use Prim.Native.String.{String}
use ask_repo.Prelude.{ℕ, ◌+◌, Bool, ◌&&◌, Option, none, some, List, [], ◌∷◌, ◌==◌, if◌then◌else◌}
use ask_repo.Table.{Fetched, fetched, multiple_results, update_where}
use ask_repo.Jobs.Lease.{
  Row, seconds, claim_lease, renew_lease, release_lease, defer_lease, abandon_lease,
  claim_stranded_rows,
}

pub record Run : Type 0 where
  pub row_id : ℕ
  pub worker_id : ℕ
  pub until : ℕ

pub record World (S E : Type 0) : Type 0 where
  pub now : ℕ
  pub table : List (Row S E)
  pub runs : List Run

-- The statements, with the arguments that their callers choose, and time.
pub data Event (S E : Type 0) : Type 0 where
  claims : ℕ → ℕ → ℕ → ℕ → (Row S E → Bool) → (Row S E → S × Option String × E) → Event S E
  renews : ℕ → ℕ → ℕ → Bool → Event S E
  releases : ℕ → ℕ → ℕ → S → Option String → (Row S E → E) → Event S E
  defers : ℕ → ℕ → ℕ → Event S E
  abandons : ℕ → ℕ → (Row S E → E) → Event S E
  sweeps : (S → Bool) → ℕ → Event S E
  deletes : ℕ → Event S E
  waits : ℕ → Event S E

unfoldable pub is_run : ℕ → ℕ → Run → Bool
is_run k w run = run.row_id == k && run.worker_id == w

unfoldable pub drop_run : ℕ → ℕ → List Run → List Run
unfolding is_run
drop_run k w [] = []
drop_run k w (run ∷ runs) =
    let rest = drop_run k w runs in if is_run k w run then rest else run ∷ rest

unfoldable pub move_run : ℕ → ℕ → ℕ → List Run → List Run
unfolding is_run
move_run k w t [] = []
move_run k w t (run ∷ runs) =
    (if is_run k w run then record run { until = t } else run) ∷ move_run k w t runs

module _ {S E : Type 0} where
  -- `BaseRepository.soft_delete`.
  unfoldable pub soft_delete : ℕ → ℕ → List (Row S E) → List (Row S E)
  soft_delete now row_id table =
      (update_where (λ r. r.id == row_id)
        (λ r. record r { deleted_at = some now; updated_at = now }) table).0

  abbrev pub won : Fetched (Row S E) → Run → List Run → List Run
  won (fetched (some r)) run runs = run ∷ runs
  won (fetched none) run runs = runs
  won multiple_results run runs = runs

  pub step : Event S E → World S E → World S E
  step (claims k job w secs gate values) s =
      let (result, rows) = claim_lease s.now k job w secs gate values s.table in
      record s {
        table = rows;
        runs =
            won result (record { row_id = k; worker_id = w; until = s.now + seconds secs }) s.runs;
      }
  step (renews k w secs skip_deleted) s =
      let (kept, rows) = renew_lease s.now k w secs skip_deleted s.table in
      record s {
        table = rows;
        runs = if kept then move_run k w (s.now + seconds secs) s.runs else drop_run k w s.runs;
      }
  step (releases k job w status error fields) s = record s {
    table = (release_lease s.now k job w status error fields s.table).1;
    runs = drop_run k w s.runs;
  }
  step (defers k w hold) s = record s {
    table = (defer_lease s.now k w hold s.table).1;
    runs = drop_run k w s.runs;
  }
  step (abandons k w fields) s = record s {
    table = (abandon_lease s.now k w fields s.table).1;
    runs = drop_run k w s.runs;
  }
  step (sweeps is_working older) s = record s {
    table = (claim_stranded_rows s.now is_working older s.table).1;
  }
  step (deletes k) s = record s { table = soft_delete s.now k s.table }
  step (waits d) s = record s { now = s.now + d }

  pub play : List (Event S E) → World S E → World S E
  play [] s = s
  play (e ∷ es) s = play es (step e s)
