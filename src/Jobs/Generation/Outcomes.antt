-- ===== src/Jobs/Generation/Outcomes.antt =====
-- What a failed generation leaves behind.
use Prim.Native.String.{String}
use ask_repo.Prelude.{
  ℕ, ◌+◌, ◌*◌, ◌≡◌, refl, ◌∙◌, Bool, true, ◌&&◌, Option, some, List, [], ◌∷◌, ◌++◌, arith, ◌==◌,
}
use ask_repo.Table.{HasKeys, find, update_where, fetched}
use ask_repo.Table.Laws.{find-update_where_self, returned-update_where}
use ask_repo.Jobs.Lease.{
  defer_lease, release_lease, Row, defer_lease, extended, held_by, row_key, finished, release_lease,
}
use ask_repo.Jobs.Ladder.{Destination, Topic}
use ask_repo.Jobs.Session.{
  Message, Session, commit, now_ms, pass, produce_to, rollback, stage_live_event, stage,
}
use ask_repo.Jobs.Ingestion.{retry_scheduled, dead_lettered}
use ask_repo.Jobs.Generation.{
  GenerationStatus, Worker, defer, defer_for_retry, defer_job, next_message, route_failure,
  route_job, try_again, fail_job, failed, give_up, record_failure, release,
}

module _ {S E : Type 0} where
  -- A write to a row that the worker holds.
  held-update :
      (k w : ℕ) (f : Row S E → Row S E) (rows : List (Row S E)) (r : Row S E)
      → ((q : Row S E) → (f q).id ≡ q.id)
      → HasKeys row_key rows
      → find row_key k rows ≡ some r
      → held_by w true r ≡ true
      → (rows' : List (Row S E)) × (update_where (λ q. q.id == k && held_by w true q) f rows
          ≡ (rows', f r ∷ []))
        × (find row_key k rows' ≡ some (f r))
  held-update k w f rows r e keys found held =
      let back = returned-update_where row_key (held_by w true) f k rows keys in
      let after = find-update_where_self row_key (held_by w true) f k rows e in
      let u = update_where (λ q. q.id == k && held_by w true q) f rows in
      (u.0, rw (back, found, held) refl, after ∙ rw (found, held) refl)

  defer_lease-held :
      (now k w d : ℕ) (rows : List (Row S E)) (r : Row S E)
      → HasKeys row_key rows
      → find row_key k rows ≡ some r
      → held_by w true r ≡ true
      → (rows' : List (Row S E)) × (defer_lease now k w d rows
          ≡ (fetched (some (extended now d r)), rows'))
        × (find row_key k rows' ≡ some (extended now d r))
  unfolding defer_lease
  defer_lease-held now k w d rows r keys found held =
      let (rows', e, at) =
        held-update k w (extended now d) rows r (λ q. unfold extended in refl) keys found held in
      (rows', rw e refl, at)

  release_lease-held :
      (now k job w : ℕ) (status : S) (error : Option String) (fields : Row S E → E)
      (rows : List (Row S E)) (r : Row S E)
      → HasKeys row_key rows
      → find row_key k rows ≡ some r
      → held_by w true r ≡ true
      → (rows' : List (Row S E)) × (release_lease now k job w status error fields rows
          ≡ (fetched (some (finished now job status error fields r)), rows'))
        × (find row_key k rows' ≡ some (finished now job status error fields r))
  unfolding release_lease
  release_lease-held now k job w status error fields rows r keys found held =
      let (rows', e, at) =
        held-update k w (finished now job status error fields) rows r (λ q. unfold finished in refl)
          keys found held in
      (rows', rw e refl, at)

-- What is sent on, to a place of the ladder.
abbrev pub sent : Message → Worker → ℕ → Destination → Topic × Message
sent message w clock (topic, delay_seconds) = (
  topic,
  next_message message w.new_job_id (message.attempt + 1)
      (now_ms (clock + w.late) + delay_seconds * 1000),
)

module _ {E : Type 0} (ladder : ℕ → ℕ → Destination) (spent : ℕ → ℕ → Bool) (message : Message)
    (w : Worker) (s : Session GenerationStatus E) (r : Row GenerationStatus E) where
  -- After a retry is scheduled.
  pub try_again-row :
      HasKeys row_key s.committed
      → find row_key message.target_id s.committed ≡ some r
      → held_by w.worker_id true r ≡ true
      → s.broker_up ≡ true
      → (s' : Session GenerationStatus E) × (try_again ladder spent message w s
          ≡ some (retry_scheduled, s'))
        × (s'.produced
            ≡ s.produced ++ sent message w s.clock (ladder message.attempt w.max_attempts) ∷ [])
        × (find row_key message.target_id s'.committed
            ≡ some (extended s.clock (ladder message.attempt w.max_attempts).1 r))
  unfolding try_again defer_job route_job defer_for_retry route_failure defer rollback commit pass
      produce_to stage_live_event
  try_again-row keys found held up =
      let (rows, e, at) =
        defer_lease-held s.clock message.target_id w.worker_id
          (ladder message.attempt w.max_attempts).1 s.committed r keys found held in
      (
        record s {
          clock = s.clock + w.late;
          committed = rows;
          rows = rows;
          staged = [];
          published = s.published ++ stage message.target_id [];
          produced =
              s.produced ++ sent message w s.clock (ladder message.attempt w.max_attempts) ∷ [];
        },
        ground (arith, e, up),
        refl,
        at,
      )

  -- After a failure is recorded.
  pub give_up-row :
      (limit : ℕ) (reason : String)
      → HasKeys row_key s.rows
      → find row_key message.target_id s.rows ≡ some r
      → held_by w.worker_id true r ≡ true
      → s.broker_up ≡ true
      → (s' : Session GenerationStatus E) × (give_up ladder spent message w limit reason s
          ≡ some (dead_lettered, s'))
        × (s'.produced ≡ s.produced ++ sent message w s.clock (ladder message.attempt limit) ∷ [])
        × (find row_key message.target_id s'.committed
            ≡ some (finished s.clock message.job_id failed (some reason) (λ q. q.own) r))
  unfolding give_up fail_job route_job record_failure route_failure release rollback commit pass
      produce_to stage_live_event
  give_up-row limit reason keys found held up =
      let (rows, e, at) =
        release_lease-held s.clock message.target_id message.job_id w.worker_id failed (some reason)
          (λ q. q.own) s.rows r keys found held in
      (
        record s {
          clock = s.clock + w.late;
          committed = rows;
          rows = rows;
          staged = [];
          published = s.published ++ stage message.target_id s.staged;
          produced = s.produced ++ sent message w s.clock (ladder message.attempt limit) ∷ [];
        },
        ground (arith, e, up),
        refl,
        at,
      )
