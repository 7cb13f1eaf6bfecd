-- ===== src/Jobs/Session.antt =====
-- A database session of the worker, with what leaves the process through it: one table's rows as
-- committed and as the open transaction sees them, the live events of backend/app/live/staging.py,
-- and the messages handed to the broker (`TopicProducer.produce_to`). An event is the id of the row it
-- is about: each repository stages one kind of event for its own row.
pub mod Laws
use ask_repo.Prelude.{
  ℕ, ◌+◌, ◌/◌, Bool, true, false, Option, none, some, List, [], ◌∷◌, ◌++◌, ◌==◌, if◌then◌else◌,
}
use ask_repo.Jobs.Lease.{Row}
use ask_repo.Jobs.Ladder.{Topic}
use ask_repo.Table.{Fetched, fetched, multiple_results}

-- backend/app/queue/topics.py: `IngestionMessage` and `ChecklistJobMessage`, whose `project_id` and
-- `module_id` are `target_id` here.
pub record Message : Type 0 where
  pub target_id : ℕ
  pub job_id : ℕ
  pub attempt : ℕ
  pub not_before_ms : ℕ
  pub original_topic : Topic

pub record Session (S E : Type 0) : Type 0 where
  pub clock : ℕ
  pub committed : List (Row S E)
  pub rows : List (Row S E)
  pub staged : List ℕ
  pub published : List ℕ
  pub produced : List (Topic × Message)
  -- Whether the broker takes messages.
  pub broker_up : Bool

-- `live_event not in staged`.
unfoldable pub stage : ℕ → List ℕ → List ℕ
stage e [] = e ∷ []
stage e (x ∷ xs) = if x == e then x ∷ xs else x ∷ stage e xs

-- `int(time.time() * 1000)`, from microseconds.
unfoldable pub now_ms : ℕ → ℕ
now_ms clock = clock / 1000

module _ {S E : Type 0} where
  unfoldable pub stage_live_event : ℕ → Session S E → Session S E
  stage_live_event e s = record s { staged = stage e s.staged }

  -- The `after_commit` hook publishes what is staged, and `after_transaction_end` drops it.
  unfoldable pub commit : Session S E → Session S E
  commit s = record s { committed = s.rows; published = s.published ++ s.staged; staged = [] }

  unfoldable pub rollback : Session S E → Session S E
  rollback s = record s { rows = s.committed; staged = [] }

  -- `none`: it raised.
  unfoldable pub produce_to : Topic → Message → Session S E → Option (Session S E)
  produce_to topic message s =
      if s.broker_up
      then some (record s { produced = s.produced ++ (topic, message) ∷ [] })
      else none

  unfoldable pub pass : ℕ → Session S E → Session S E
  pass d s = record s { clock = s.clock + d }

  -- `row is None` after `one_or_none`, and the event of a statement that wrote. `none` is the exception
  -- of a result with several rows.
  abbrev pub announced :
      Fetched (Row S E) × List (Row S E) → ℕ → Session S E → Option (Bool × Session S E)
  announced (fetched (some r), rows) k s =
      some (true, stage_live_event k (record s { rows = rows }))
  announced (fetched none, rows) k s = some (false, record s { rows = rows })
  announced (multiple_results, rows) k s = none
