-- ===== src/Jobs/Retry.antt =====
-- backend/app/queue/retry.py: the consumer that holds a retry until it is due and hands it back. A
-- partition is its log, of records as they decode. The consumer's position is its own, the offset is the
-- one committed at the broker; the broker hands out the records from the position on, and a restart or a
-- rebalance goes back to the offset. Whether a produce and a commit succeed is given with each turn. `tick` is
-- the time that a poll of paused partitions takes, in milliseconds.
pub mod Order
mod Examples
use ask_repo.Prelude.{
  ℕ, zero, suc, ◌+◌, ◌-◌, Bool, true, false, Option, none, some, List, [], ◌∷◌, ltb, if◌then◌else◌,
}
use ask_repo.Jobs.Session.{Message}

pub record Partition : Type 0 where
  -- `none` for a record that does not parse.
  pub log : List (Option Message)
  pub position : ℕ
  pub offset : ℕ
  pub clock_ms : ℕ
  -- What was produced to the destination, with the time, newest first.
  pub sent : List (ℕ × Message)

-- A partition before anything of it is read.
abbrev pub fresh : List (Option Message) → ℕ → Partition
fresh log now = record { log = log; position = 0; offset = 0; clock_ms = now; sent = [] }

unfoldable pub nth {ℓ} : {A : Type ℓ} → ℕ → List A → Option A
nth i [] = none
nth zero (x ∷ xs) = some x
nth (suc i) (x ∷ xs) = nth i xs

-- `seconds_until_due(message, clock_ms) > 0`.
abbrev pub is_early : Message → ℕ → Bool
is_early message now = ltb now message.not_before_ms

-- `_wait_until_due`, with fuel: the time at which it ends.
unfoldable pub wait_until_due : ℕ → ℕ → Message → ℕ → Option ℕ
wait_until_due tick zero message now = if is_early message now then none else some now
wait_until_due tick (suc fuel) message now =
    let rest = wait_until_due tick fuel message (now + tick) in
    if is_early message now then rest else some now

-- A poll takes a millisecond at least, so this is enough.
abbrev pub enough_fuel : Message → ℕ → ℕ
enough_fuel message now = message.not_before_ms - now

-- `_commit` of the record at `at`: the offset after it, if the partition is still ours.
abbrev pub committed : Bool → ℕ → Partition → Partition
committed true at p = record p { offset = suc at }
committed false at p = p

-- The pause after an error that `_release_guarded` absorbs.
abbrev pub error_backoff_ms : ℕ
error_backoff_ms = 1000

-- `_release`, after the wait. A produce that raises is absorbed by `_release_guarded`.
abbrev pub produced : Bool → Bool → ℕ → Message → Option ℕ → Partition → Partition
produced sends commits at message none p = p
produced true commits at message (some now) p =
    committed commits at (record p { clock_ms = now; sent = (now, message) ∷ p.sent })
produced false commits at message (some now) p = record p { clock_ms = now + error_backoff_ms }

abbrev pub release : ℕ → Bool → Bool → ℕ → Option Message → Partition → Partition
release tick sends commits at none p = committed commits at p
release tick sends commits at (some message) p =
    produced sends commits at message
      (wait_until_due tick (enough_fuel message p.clock_ms) message p.clock_ms) p

abbrev pub polled : ℕ → Bool → Bool → Option (Option Message) → Partition → Partition
polled tick sends commits none p = record p { clock_ms = p.clock_ms + tick }
polled tick sends commits (some r) p =
    release tick sends commits p.position r (record p { position = suc p.position })

-- One turn of `run`: a poll, which moves the position, and the release of its record.
unfoldable pub turn : ℕ → Bool → Bool → Partition → Partition
unfolding nth wait_until_due
turn tick sends commits p = polled tick sends commits (nth p.position p.log) p

-- A restart, or a partition that is handed over and back.
unfoldable pub reassigned : Partition → Partition
reassigned p = record p { position = p.offset }

pub data RetryEvent : Type 0 where
  takes_turn : Bool → RetryEvent
  is_reassigned : RetryEvent

-- Turns whose produce succeeds, with or without their commit, and reassignments.
unfoldable pub run_events : ℕ → List RetryEvent → Partition → Partition
unfolding turn reassigned
run_events tick [] p = p
run_events tick (takes_turn commits ∷ es) p = run_events tick es (turn tick true commits p)
run_events tick (is_reassigned ∷ es) p = run_events tick es (reassigned p)
