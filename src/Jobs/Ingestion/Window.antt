-- ===== src/Jobs/Ingestion/Window.antt =====
-- When a scheduled retry may run.
use ask_repo.Table.{update_where, find}
use ask_repo.Table.Laws.{find-update_where_self, edited}
use ask_repo.Jobs.Ladder.{Topic}
use ask_repo.Prelude.{
  ℕ, ◌+◌, ◌*◌, ◌≤◌, ◌≡◌, refl, ◌∙◌, ◌≢◌, true, false, ◌&&◌, Option, none, some, arith, ltb, ◌==◌,
}
use ask_repo.Jobs.Projects.Recovery.{leased_window, seen_claimable, seen_stranded}
use ask_repo.Jobs.Ingestion.{forwarded, retry_scheduled, schedule_retry}
use ask_repo.Jobs.Projects.{Project, ProjectSession, renew}
use ask_repo.Jobs.Lease.{extended, held_by, renew_lease, row_key, seconds}
use ask_repo.Jobs.Session.{Message, now_ms}

-- The run that failed still holds the row's lease.
abbrev pub HoldsLease : Message → ℕ → Option Project → Type 0
HoldsLease message w none = ⊥
HoldsLease message w (some r) =
    (r.deleted_at ≡ none) × (r.lease_owner ≡ some w) × (r.last_job_id ≡ some message.job_id)

edited-window :
    (message : Message) (w clock d now older fresh : ℕ) (o : Option Project)
    → HoldsLease message w o
    → fresh ≢ message.job_id
    → (seen_stranded now older (edited (held_by w false) (extended clock d) o)
        ≡ ltb (clock + seconds d) now)
      × (seen_claimable now fresh (edited (held_by w false) (extended clock d) o)
          ≡ ltb (clock + seconds d) now)
edited-window message w clock d now older fresh none h other = absurd h
edited-window message w clock d now older fresh (some r) h other =
    let held : held_by w false r ≡ true = unfold held_by in ground arith in
    rw held (
      leased_window (clock + seconds d) now older fresh (some (extended clock d r))
        (unfold extended in ground arith) (unfold extended in ground arith))

-- After a retry has been scheduled, the committed row is out of reach of the retry's own claim, and of
-- the sweep, up to the delay counted from the lease statement, and from the next microsecond on both
-- are let in, until someone writes to the row: no second job is published for one that is scheduled,
-- and a retry that the broker lost is found.
pub retry_window :
    (topic : Topic) (d : ℕ) (message : Message) (w fresh late now older : ℕ) (s s' : ProjectSession)
    → HoldsLease message w (find row_key message.target_id s.rows)
    → fresh ≢ message.job_id
    → schedule_retry (topic, d) message w fresh late s ≡ some (retry_scheduled, s')
    → (seen_stranded now older (find row_key message.target_id s'.committed)
        ≡ ltb (s.clock + late + seconds d) now)
      × (seen_claimable now fresh (find row_key message.target_id s'.committed)
          ≡ ltb (s.clock + late + seconds d) now)
unfolding schedule_retry renew renew_lease
retry_window topic d message w fresh late now older s s' h other done =
    let same : s'.committed
        ≡ (update_where (λ r. r.id == message.target_id && held_by w false r)
            (extended (s.clock + late) d) s.rows).0 =
      ground arith in
    rw
      (
        same,
        find-update_where_self row_key (held_by w false) (extended (s.clock + late) d)
            message.target_id s.rows (λ r. unfold extended in refl),
      )
      (edited-window message w (s.clock + late) d now older fresh
        (find row_key message.target_id s.rows) h other)

-- So a retry is refused at its own due time: `not_before_ms` is reckoned from a clock that was read
-- before the lease statement, and the expiry has to lie strictly in the past.
pub retry_at_due_refused :
    (topic : Topic) (d : ℕ) (message : Message) (w fresh late now : ℕ) (s s' : ProjectSession)
    → HoldsLease message w (find row_key message.target_id s.rows)
    → fresh ≢ message.job_id
    → schedule_retry (topic, d) message w fresh late s ≡ some (retry_scheduled, s')
    → now ≤ (forwarded message fresh s.clock d).not_before_ms * 1000 + late
    → seen_claimable now fresh (find row_key message.target_id s'.committed) ≡ false
unfolding forwarded now_ms
retry_at_due_refused topic d message w fresh late now s s' h other done early =
    (retry_window topic d message w fresh late now 0 s s' h other done).1 ∙ ground arith
