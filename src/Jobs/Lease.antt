-- ===== src/Jobs/Lease.antt =====
-- backend/app/repositories/lease.py: the statements that claim, renew, finish, defer and recover a
-- job's row. A row has the columns that the five leased tables share, and `own`, the columns of one
-- table alone. Ids and worker names are numbers; times are microseconds on one clock, and each
-- statement takes the time `datetime.now(UTC)` as an argument.
pub mod Gates
use ask_repo.Prelude.{
  ℕ, ◌+◌, ◌*◌, Bool, true, false, not, ◌&&◌, ◌||◌, Option, none, some, List, ltb, ◌==◌, is_none,
  is_some_eq, is_some_lt,
}
use Prim.Native.String.{String}
use ask_repo.Table.{Fetched, one_or_none, rowcount, update_where}

abbrev pub lease_seconds_default : ℕ
lease_seconds_default = 300

abbrev pub lease_renewal_seconds : ℕ
lease_renewal_seconds = 60

-- `timedelta(seconds=..)`.
abbrev pub seconds : ℕ → ℕ
seconds n = n * 1000000

pub record Row (S E : Type 0) : Type 0 where
  pub id : ℕ
  pub deleted_at : Option ℕ
  pub status : S
  pub error : Option String
  pub lease_owner : Option ℕ
  pub lease_expires_at : Option ℕ
  pub last_job_id : Option ℕ
  pub updated_at : ℕ
  pub own : E

module _ {S E : Type 0} where
  abbrev pub row_key : Row S E → ℕ
  row_key r = r.id

  -- `or_(lease_expires_at.is_(None), lease_expires_at < now)`: no live lease.
  abbrev pub lease_free : ℕ → Row S E → Bool
  lease_free now r = is_none r.lease_expires_at || is_some_lt r.lease_expires_at now

  -- The gates of the claim other than the key. `extra_where` adds a table's own.
  unfoldable pub claimable : ℕ → ℕ → (Row S E → Bool) → Row S E → Bool
  claimable now job_id extra_where r =
      is_none r.deleted_at
      && (extra_where r && (not (is_some_eq r.last_job_id job_id) && lease_free now r))

  -- What a claim writes. `extra_values` gives the status, the error and the table's own columns,
  -- each computed from the old row.
  unfoldable pub claimed : ℕ → ℕ → ℕ → ℕ → (Row S E → S × Option String × E) → Row S E → Row S E
  claimed now job_id worker_id lease_seconds extra_values r = record r {
    lease_owner = some worker_id;
    lease_expires_at = some (now + seconds lease_seconds);
    last_job_id = some job_id;
    updated_at = now;
    status = (extra_values r).0;
    error = (extra_values r).1;
    own = (extra_values r).2;
  }

  unfoldable pub claim_lease :
      ℕ
      → ℕ
      → ℕ
      → ℕ
      → ℕ
      → (Row S E → Bool)
      → (Row S E → S × Option String × E)
      → List (Row S E)
      → Fetched (Row S E) × List (Row S E)
  claim_lease now row_id job_id worker_id lease_seconds extra_where extra_values table =
      let (rows, result) =
        update_where (λ r. r.id == row_id && claimable now job_id extra_where r)
          (claimed now job_id worker_id lease_seconds extra_values) table in
      (one_or_none result, rows)

  unfoldable pub held_by : ℕ → Bool → Row S E → Bool
  held_by worker_id skip_deleted r =
      is_some_eq r.lease_owner worker_id && (not skip_deleted || is_none r.deleted_at)

  unfoldable pub extended : ℕ → ℕ → Row S E → Row S E
  extended now lease_seconds r = record r {
    lease_expires_at = some (now + seconds lease_seconds);
    updated_at = now;
  }

  unfoldable pub renew_lease : ℕ → ℕ → ℕ → ℕ → Bool → List (Row S E) → Bool × List (Row S E)
  renew_lease now row_id worker_id lease_seconds skip_deleted table =
      let (rows, result) =
        update_where (λ r. r.id == row_id && held_by worker_id skip_deleted r)
          (extended now lease_seconds) table in
      (rowcount result == 1, rows)

  unfoldable pub finished : ℕ → ℕ → S → Option String → (Row S E → E) → Row S E → Row S E
  finished now job_id status error fields r = record r {
    status = status;
    error = error;
    lease_owner = none;
    lease_expires_at = none;
    last_job_id = some job_id;
    updated_at = now;
    own = fields r;
  }

  unfoldable pub release_lease :
      ℕ
      → ℕ
      → ℕ
      → ℕ
      → S
      → Option String
      → (Row S E → E)
      → List (Row S E)
      → Fetched (Row S E) × List (Row S E)
  release_lease now row_id job_id worker_id status error fields table =
      let (rows, result) =
        update_where (λ r. r.id == row_id && held_by worker_id true r)
          (finished now job_id status error fields) table in
      (one_or_none result, rows)

  unfoldable pub defer_lease : ℕ → ℕ → ℕ → ℕ → List (Row S E) → Fetched (Row S E) × List (Row S E)
  defer_lease now row_id worker_id hold_seconds table =
      let (rows, result) =
        update_where (λ r. r.id == row_id && held_by worker_id true r) (extended now hold_seconds)
          table in
      (one_or_none result, rows)

  -- `ProjectRepository.abandon` of backend/app/repositories/project.py: the lease expires at once and
  -- keeps its owner. `fields` lowers the reindex flag.
  unfoldable pub abandoned : ℕ → (Row S E → E) → Row S E → Row S E
  abandoned now fields r = record r {
    lease_expires_at = some now;
    updated_at = now;
    own = fields r;
  }

  unfoldable pub abandon_lease : ℕ → ℕ → ℕ → (Row S E → E) → List (Row S E) → Bool × List (Row S E)
  abandon_lease now row_id worker_id fields table =
      let (rows, result) =
        update_where (λ r. r.id == row_id && held_by worker_id false r) (abandoned now fields)
          table in
      (rowcount result == 1, rows)

  -- `updated_at < now - timedelta(..)`, with the subtraction carried over to the other side.
  unfoldable pub stranded : ℕ → (S → Bool) → ℕ → Row S E → Bool
  stranded now is_working older_than_seconds r =
      is_none r.deleted_at
      && (is_working r.status
          && (ltb (r.updated_at + seconds older_than_seconds) now && lease_free now r))

  unfoldable pub touched : ℕ → Row S E → Row S E
  touched now r = record r { updated_at = now }

  unfoldable pub claim_stranded_rows :
      ℕ → (S → Bool) → ℕ → List (Row S E) → List (Row S E) × List (Row S E)
  claim_stranded_rows now is_working older_than_seconds table =
      let (rows, result) =
        update_where (stranded now is_working older_than_seconds) (touched now) table in
      (result, rows)
