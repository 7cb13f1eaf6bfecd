-- ===== src/Jobs/Projects/Recovery.antt =====
-- Projects that lost their job are found again, and the one way in which a project is not.
use ask_repo.Table.Laws.{edited, find-update_where_only}
use ask_repo.Jobs.Lease.Gates.{claim_lease-won}
use ask_repo.Jobs.Session.{stage_live_event}
use ask_repo.Prelude.{
  ℕ, ◌+◌, ◌≡◌, refl, ◌≢◌, Bool, true, false, Option, none, some, List, arith, ltb, ◌==◌, is_some_eq,
}
use ask_repo.Table.{HasKeys, find, Fetched, fetched, multiple_results, update_where}
use ask_repo.Jobs.Lease.{claim_lease, claimable, row_key, seconds, claimed}
use ask_repo.Jobs.Projects.{
  Project, ProjectSession, claim, is_stranded, announced, claim_values, indexing, is_busy,
  set_status, ProjectStatus,
}

-- A live row that carries a lease, whoever holds it.
abbrev pub LeasedUntil : ℕ → Option Project → Type 0
LeasedUntil due none = ⊥
LeasedUntil due (some r) = (r.deleted_at ≡ none) × (r.lease_expires_at ≡ some due)

abbrev pub on_row {ℓ} : {A : Type ℓ} → A → (Project → A) → Option Project → A
on_row d f none = d
on_row d f (some r) = f r

-- What the sweep and a claim with a fresh job see of the row.
abbrev pub seen_stranded : ℕ → ℕ → Option Project → Bool
seen_stranded now older = on_row false (is_stranded now older)

abbrev pub seen_claimable : ℕ → ℕ → Option Project → Bool
seen_claimable now job = on_row false (claimable now job (λ _. true))

abbrev NotLast : ℕ → Option Project → Type 0
NotLast job none = Unit {0}
NotLast job (some r) = is_some_eq r.last_job_id job ≡ false

-- The sweep and the claim read a leased row alike: a fresh job may claim it, and the sweep reports
-- it, exactly when the expiry has passed, at whatever age the sweep is set to.
pub leased_window :
    (due now older job : ℕ) (o : Option Project)
    → LeasedUntil due o
    → NotLast job o
    → (seen_stranded now older o ≡ ltb due now) × (seen_claimable now job o ≡ ltb due now)
unfolding is_stranded claimable
leased_window due now older job none h n = absurd h
leased_window due now older job (some r) h n = ground arith

announced-true :
    (result : Fetched Project) (rows : List Project) (k : ℕ) (s s' : ProjectSession)
    → announced (result, rows) k s ≡ some (true, s')
    → (r : Project) × (result ≡ fetched (some r)) × (s'.rows ≡ rows)
unfolding stage_live_event
announced-true (fetched (some r)) rows k s s' h = (r, refl, ground arith)
announced-true (fetched none) rows k s s' h = cc
announced-true multiple_results rows k s s' h = cc

-- After a claim that was won, and until someone writes to the row again, the row is out of reach of
-- every other job and of the sweep up to and at the lease's expiry; from the next microsecond on the
-- sweep reports it and a claim of any other job is admitted. So a worker that dies does not lose the
-- project, and a worker that lives is not disturbed.
pub claimed_window :
    (k job w secs now older fresh : ℕ) (s s' : ProjectSession)
    → HasKeys row_key s.rows
    → claim k job w secs s ≡ some (true, s')
    → fresh ≢ job
    → (seen_stranded now older (find row_key k s'.rows) ≡ ltb (s.clock + seconds secs) now)
      × (seen_claimable now fresh (find row_key k s'.rows) ≡ ltb (s.clock + seconds secs) now)
unfolding claim
claimed_window k job w secs now older fresh s s' keys won other =
    let (result, rows) = claim_lease s.clock k job w secs (λ _. true) claim_values s.rows in
    let (x, is_won, same) = announced-true result rows k s s' won in
    let (r, _, gates, left) =
      claim_lease-won s.clock k job w secs (λ _. true) claim_values s.rows x keys is_won in
    rw (same, left)
      (leased_window (s.clock + seconds secs) now older fresh
        (some (claimed s.clock job w secs claim_values r))
        (unfold claimed claimable in ground arith) (unfold claimed in ground arith))

abbrev Idle : Option Project → Type 0
Idle none = ⊥
Idle (some r) = (r.lease_expires_at ≡ none) × (r.own.reindex_in_progress ≡ false)

late_edit :
    (now older clock : ℕ) (o : Option Project)
    → Idle o
    → (seen_stranded now older
          (edited (λ r. true) (λ r. record r { status = indexing; updated_at = clock }) o)
        ≡ false)
      × (on_row false is_busy
            (edited (λ r. true) (λ r. record r { status = indexing; updated_at = clock }) o)
          ≡ true)
unfolding is_stranded is_busy
late_edit now older clock none h = absurd h
late_edit now older clock (some r) h = ground arith

pub rows-set_status :
    (k : ℕ) (status : ProjectStatus) (s : ProjectSession)
    → (set_status k status s).rows
      ≡ (update_where
          (λ (r : Project). r.id == k)
          (λ r. record r { status = status; updated_at = s.clock })
          s.rows).0
unfolding set_status
rows-set_status k status s = ground arith

found-set_status :
    (k : ℕ) (s : ProjectSession)
    → find row_key k
        (update_where
          (λ (r : Project). r.id == k)
          (λ r. record r { status = indexing; updated_at = s.clock })
          s.rows).0
      ≡ edited
          (λ r. true)
          (λ r. record r { status = indexing; updated_at = s.clock })
          (find row_key k s.rows)
found-set_status k s = find-update_where_only row_key _ k s.rows (λ r. refl)

-- `set_status` has no ownership gate. Where it reaches a row that has no lease and no reindex under
-- way, as after another worker's release, the project is busy, so no reindex can be requested, and
-- no sweep reports it, at any later time and at any age.
pub late_status_strands :
    (k now older : ℕ) (s : ProjectSession)
    → Idle (find row_key k s.rows)
    → (seen_stranded now older (find row_key k (set_status k indexing s).rows) ≡ false)
      × (on_row false is_busy (find row_key k (set_status k indexing s).rows) ≡ true)
late_status_strands k now older s h =
    rw (rows-set_status k indexing s, found-set_status k s)
      (late_edit now older s.clock (find row_key k s.rows) h)
