-- ===== src/Jobs/Retry/Order.antt =====
-- Which retries are handed back, and when.
use mathlib.Core.Path.{subst}
use ask_repo.Prelude.{
  ℕ, zero, suc, ◌+◌, ◌-◌, ◌≤◌, ◌≡◌, refl, sym, ap, ◌∙◌, ◌⊎◌, inl, inr, Bool, true, false, Option,
  none, some, List, [], ◌∷◌, arith, ltb, Bool-cases, Option-cases,
}
use ask_repo.Jobs.Session.{Message}
use ask_repo.Jobs.Retry.{
  Partition, is_early, nth, wait_until_due, RetryEvent, committed, enough_fuel, error_backoff_ms,
  fresh, is_reassigned, polled, produced, reassigned, release, run_events, takes_turn, turn,
}

-- The wait ends, not before the message is due.
wait_until_due-ends :
    (tick fuel : ℕ) (message : Message) (now : ℕ)
    → 1 ≤ tick
    → message.not_before_ms - now ≤ fuel
    → (end : ℕ) × (wait_until_due tick fuel message now ≡ some end) × (message.not_before_ms ≤ end)
unfolding wait_until_due
wait_until_due-ends tick zero message now h f = (now, ground (arith, f), omega (arith, f))
wait_until_due-ends tick (suc fuel) message now h f = elim (Bool-cases (is_early message now)) [
  | inl early ↦
      let (end, e, due) =
        wait_until_due-ends tick fuel message (now + tick) h (omega (arith, h, f)) in
      (end, ground (arith, early, e), due)
  | inr late ↦ (now, ground (arith, late), ground (arith, late))
]

-- The message was handed back, when it was due.
abbrev pub IsSent : Message → List (ℕ × Message) → Type 0
IsSent m [] = ⊥
IsSent m ((now, x) ∷ rest) = ((x ≡ m) × (m.not_before_ms ≤ now)) ⊎ IsSent m rest

-- Every message below `k` in the log was handed back.
abbrev pub SentBelow : ℕ → List (Option Message) → List (ℕ × Message) → Type 0
SentBelow k log sent = (i : ℕ) (m : Message) → suc i ≤ k → nth i log ≡ some (some m) → IsSent m sent

below_cases : (i k : ℕ) → suc i ≤ suc k → (suc i ≤ k) ⊎ (i ≡ k)
below_cases i k h = elim (Bool-cases (ltb i k)) [
  | inl below ↦ inl (ground (arith, below))
  | inr top ↦ inr (ground (arith, top, h))
]

SentBelow-skip :
    (k : ℕ) (log : List (Option Message)) (sent : List (ℕ × Message))
    → SentBelow k log sent
    → nth k log ≡ some none
    → SentBelow (suc k) log sent
SentBelow-skip k log sent below at i m h here = elim (below_cases i k h) [
  | inl lower ↦ below i m lower here
  | inr e ↦ let same = sym here ∙ ap (λ j. nth j log) e ∙ at in cc same
]

SentBelow-send :
    (k now : ℕ) (x : Message) (log : List (Option Message)) (sent : List (ℕ × Message))
    → SentBelow k log sent
    → nth k log ≡ some (some x)
    → x.not_before_ms ≤ now
    → SentBelow (suc k) log ((now, x) ∷ sent)
SentBelow-send k now x log sent below at due i m h here = elim (below_cases i k h) [
  | inl lower ↦ inr (below i m lower here)
  | inr e ↦
      let same = sym here ∙ ap (λ j. nth j log) e ∙ at in
      let eq : x ≡ m = cc same in inl (eq, subst (λ y. y.not_before_ms ≤ now) eq due)
]

record IsInOrder (log : List (Option Message)) (p : Partition) : Type 0 where
  same_log : p.log ≡ log
  below : SentBelow p.position log p.sent
  offset_le : p.offset ≤ p.position

committed-IsInOrder :
    (commits : Bool) (log : List (Option Message)) (k : ℕ) (p : Partition)
    → p.position ≡ suc k
    → IsInOrder log p
    → IsInOrder log (committed commits k p)
committed-IsInOrder true log k p e h = record {
  same_log = h.same_log;
  below = h.below;
  offset_le = omega (arith, e);
}
committed-IsInOrder false log k p e h = h

release-IsInOrder :
    (tick : ℕ) (commits : Bool) (r : Option Message) (log : List (Option Message)) (p : Partition)
    → 1 ≤ tick
    → IsInOrder log p
    → nth p.position log ≡ some r
    → IsInOrder log
        (release tick true commits p.position r (record p { position = suc p.position }))
release-IsInOrder tick commits none log p t h at =
    committed-IsInOrder commits log p.position (record p { position = suc p.position }) refl
      (record {
        same_log = h.same_log;
        below = SentBelow-skip p.position log p.sent h.below at;
        offset_le = let o = h.offset_le in omega (arith, o);
      })
release-IsInOrder tick commits (some m) log p t h at =
    let (end, ends, due) =
      wait_until_due-ends tick (enough_fuel m p.clock_ms) m p.clock_ms t (omega arith) in
    subst
      (λ o.
        IsInOrder log
          (produced true commits p.position m o (record p { position = suc p.position })))
      (sym ends)
      (committed-IsInOrder commits log p.position
        (record p { position = suc p.position; clock_ms = end; sent = (end, m) ∷ p.sent }) refl
        (record {
          same_log = h.same_log;
          below = SentBelow-send p.position end m log p.sent h.below at due;
          offset_le = let o = h.offset_le in omega (arith, o);
        }))

turn-IsInOrder :
    (tick : ℕ) (commits : Bool) (log : List (Option Message)) (p : Partition)
    → 1 ≤ tick
    → IsInOrder log p
    → IsInOrder log (turn tick true commits p)
unfolding turn
turn-IsInOrder tick commits log p t h = elim (Option-cases (nth p.position p.log)) [
  | inl e ↦
      subst (λ o. IsInOrder log (polled tick true commits o p)) (sym e)
        (record { same_log = h.same_log; below = h.below; offset_le = h.offset_le })
  | inr (r, e) ↦
      subst (λ o. IsInOrder log (polled tick true commits o p)) (sym e)
        (release-IsInOrder tick commits r log p t h (ap (nth p.position) (sym h.same_log) ∙ e))
]

run_events-IsInOrder :
    (tick : ℕ) (es : List RetryEvent) (log : List (Option Message)) (p : Partition)
    → 1 ≤ tick
    → IsInOrder log p
    → IsInOrder log (run_events tick es p)
unfolding run_events reassigned
run_events-IsInOrder tick [] log p t h = h
run_events-IsInOrder tick (takes_turn commits ∷ es) log p t h =
    run_events-IsInOrder tick es log (turn tick true commits p) t
      (turn-IsInOrder tick commits log p t h)
run_events-IsInOrder tick (is_reassigned ∷ es) log p t h =
    run_events-IsInOrder tick es log (reassigned p) t (record {
      same_log = h.same_log;
      below = λ i m below. h.below i m (let o = h.offset_le in omega (arith, o, below));
      offset_le = omega arith;
    })

-- A poll takes at least a millisecond, and every produce succeeds. From a partition of which nothing
-- was read, whatever commits fail and however often the partition is handed over and back, a message
-- below the committed offset was handed back, and not before it was due.
pub acknowledged_was_sent :
    (tick : ℕ) (es : List RetryEvent) (log : List (Option Message)) (now i : ℕ) (m : Message)
    → 1 ≤ tick
    → suc i ≤ (run_events tick es (fresh log now)).offset
    → nth i log ≡ some (some m)
    → IsSent m (run_events tick es (fresh log now)).sent
acknowledged_was_sent tick es log now i m t below at =
    let h = run_events-IsInOrder tick es log (fresh log now) t (record {
      same_log = refl;
      below = λ i m none_below. omega (arith, none_below);
      offset_le = omega arith;
    }) in
    h.below i m (let o = h.offset_le in omega (arith, o, below)) at

failed_turn :
    (tick : ℕ) (commits : Bool) (m : Message) (p : Partition)
    → 1 ≤ tick
    → nth p.position p.log ≡ some (some m)
    → (end : ℕ) × (turn tick false commits p
        ≡ record p { position = suc p.position; clock_ms = end + error_backoff_ms })
unfolding turn
failed_turn tick commits m p t at =
    let (end, ends, due) =
      wait_until_due-ends tick (enough_fuel m p.clock_ms) m p.clock_ms t (omega arith) in
    (
      end,
      ap (λ o. polled tick false commits o p) at
          ∙ ap (λ o. produced false commits p.position m o (record p { position = suc p.position }))
              ends,
    )

sending_turn :
    (tick : ℕ) (m : Message) (p : Partition)
    → 1 ≤ tick
    → nth p.position p.log ≡ some (some m)
    → (end : ℕ) × (turn tick true true p ≡ record p {
      position = suc p.position;
      offset = suc p.position;
      clock_ms = end;
      sent = (end, m) ∷ p.sent;
    })
unfolding turn
sending_turn tick m p t at =
    let (end, ends, due) =
      wait_until_due-ends tick (enough_fuel m p.clock_ms) m p.clock_ms t (omega arith) in
    (
      end,
      ap (λ o. polled tick true true o p) at
          ∙ ap (λ o. produced true true p.position m o (record p { position = suc p.position }))
              ends,
    )

-- A poll takes at least a millisecond, and two records that follow one another parse. If the produce
-- of the first one raises, it is absorbed, and the consumer's position has moved past the record: a
-- next turn in which nothing fails hands back the second message only, and commits the offset past
-- both.
pub failed_release_lost :
    (tick : ℕ) (commits : Bool) (first second : Message) (p : Partition)
    → 1 ≤ tick
    → nth p.position p.log ≡ some (some first)
    → nth (suc p.position) p.log ≡ some (some second)
    → (now : ℕ) × ((turn tick true true (turn tick false commits p)).sent ≡ (now, second) ∷ p.sent)
      × ((turn tick true true (turn tick false commits p)).offset ≡ suc (suc p.position))
failed_release_lost tick commits first second p t at next =
    let (end, e) = failed_turn tick commits first p t at in
    let q = record p { position = suc p.position; clock_ms = end + error_backoff_ms } in
    let (end2, e2) = sending_turn tick second q t next in
    (
      end2,
      ap (λ x. (turn tick true true x).sent) e ∙ ap (λ x. x.sent) e2,
      ap (λ x. (turn tick true true x).offset) e ∙ ap (λ x. x.offset) e2,
    )
