-- ===== src/Jobs/Polling/Kept.antt =====
-- What a job's keep-alive polls and rebalances leave of the partitions.
use mathlib.Core.Path.{subst}
use ask_repo.Jobs.Session.{Message}
use ask_repo.Access.{member}
use ask_repo.Jobs.Polling.{
  quiet, breaks, rebalances, keep_alive_poll, Tick, re_paused, throw_away, rebalance, pause_given,
  on_partitions_assigned, pause_assigned, AllIn, keep_alive, Polling, resume_given, still_ours,
  Kafka, after_job, begin_job, finally_resume, process, resume_paused,
}
use ask_repo.Prelude.{
  ℕ, ◌≡◌, refl, sym, ap, ◌∙◌, Bool, true, false, not, ◌&&◌, Option, none, some, List, [], ◌∷◌, ◌++◌,
  arith, All, All-map, if◌then◌else◌,
}

AllIn-also : (j : ℕ) (js ks : List ℕ) → AllIn js ks → AllIn (j ∷ js) ks
unfolding member
AllIn-also j js ks h = All-map ks (λ k held. ground (arith, held)) h

pub AllIn-self : (ks : List ℕ) → AllIn ks ks
unfolding member
AllIn-self [] = tt
AllIn-self (k ∷ ks) = (ground arith, AllIn-also k ks ks (AllIn-self ks))

member-still_ours :
    (k : ℕ) (ks held : List ℕ) → member k (still_ours ks held) ≡ (member k ks && member k held)
unfolding member still_ours
member-still_ours k [] held = refl
member-still_ours k (j ∷ ks) held = ground (arith, member-still_ours k ks held)

AllIn-if :
    (k : ℕ) (rest held : List ℕ) (b : Bool)
    → member k held ≡ b
    → AllIn held rest
    → AllIn held (if b then k ∷ rest else rest)
AllIn-if k rest held true e h = (e, h)
AllIn-if k rest held false e h = h

AllIn-still_ours : (ks held : List ℕ) → AllIn held (still_ours ks held)
unfolding still_ours
AllIn-still_ours [] held = tt
AllIn-still_ours (k ∷ ks) held =
    AllIn-if k (still_ours ks held) held (member k held) refl (AllIn-still_ours ks held)

module _ (kafka : Kafka) where
  -- Every assigned partition is paused.
  abbrev pub AllPaused : kafka.Consumer → Type 0
  AllPaused c = (k : ℕ) → member k (kafka.assignment c) ≡ true → kafka.is_paused k c ≡ true

  assignment-pause_given :
      (ks : List ℕ) (c : kafka.Consumer)
      → kafka.assignment (pause_given kafka ks c) ≡ kafka.assignment c
  assignment-pause_given [] c = refl
  assignment-pause_given (k ∷ ks) c = kafka.assignment-pause (k ∷ ks) c

  assignment-resume_given :
      (ks : List ℕ) (c : kafka.Consumer)
      → kafka.assignment (resume_given kafka ks c) ≡ kafka.assignment c
  assignment-resume_given [] c = refl
  assignment-resume_given (k ∷ ks) c = kafka.assignment-resume (k ∷ ks) c

  is_paused-resume_given :
      (k : ℕ) (ks : List ℕ) (c : kafka.Consumer)
      → AllIn (kafka.assignment c) ks
      → kafka.is_paused k (resume_given kafka ks c) ≡ (kafka.is_paused k c && not (member k ks))
  unfolding member
  is_paused-resume_given k [] c h = ground arith
  is_paused-resume_given k (j ∷ ks) c h = kafka.is_paused-resume k (j ∷ ks) c h

  pause_given-AllPaused :
      (ks : List ℕ) (c : kafka.Consumer)
      → kafka.assignment c ≡ ks
      → AllPaused (pause_given kafka ks c)
  unfolding member
  pause_given-AllPaused [] c e k h = cc e
  pause_given-AllPaused (j ∷ ks) c e k h =
      let here : AllIn (kafka.assignment c) (j ∷ ks) =
        subst (λ held. AllIn held (j ∷ ks)) (sym e) (AllIn-self (j ∷ ks)) in
      let held : member k (j ∷ ks) ≡ true =
        ap (member k) (sym (kafka.assignment-pause (j ∷ ks) c ∙ e)) ∙ h in
      kafka.is_paused-pause k (j ∷ ks) c here ∙ ground (arith, held)

  pub none_handed :
      (ks : List ℕ) (c : kafka.Consumer)
      → All (λ k. (member k (kafka.assignment c) ≡ true) × (kafka.is_paused k c ≡ false)) ks
      → AllPaused c
      → ks ≡ []
  none_handed [] c h paused = refl
  none_handed (k ∷ ks) c h paused = cc (h.0.1, paused k h.0.0)

  pub polled-AllPaused : (c : kafka.Consumer) → AllPaused c → AllPaused (kafka.polled c)
  polled-AllPaused c paused k h =
      kafka.is_paused-polled k c ∙ paused k (ap (member k) (sym (kafka.assignment-polled c)) ∙ h)

  -- A job runs, every assigned partition is paused, and what was discarded is `d`.
  abbrev IsHeld : List ℕ → Polling kafka → Type 0
  IsHeld d p = (p.job_in_flight ≡ true) × AllPaused p.consumer × (p.discarded ≡ d)

  throw_away-IsHeld : (d : List ℕ) (p : Polling kafka) → IsHeld d p → IsHeld d (throw_away kafka p)
  throw_away-IsHeld d p (busy, paused, e) = (
    busy,
    polled-AllPaused p.consumer paused,
    ap (λ ks. ks ++ p.discarded)
          (none_handed (kafka.handed p.consumer) p.consumer (kafka.All-handed p.consumer) paused)
        ∙ e,
  )

  re_paused-IsHeld :
      (d : List ℕ) (p : Polling kafka)
      → p.job_in_flight ≡ true
      → p.discarded ≡ d
      → IsHeld d (re_paused kafka p)
  unfolding pause_assigned
  re_paused-IsHeld d p busy e =
      (busy, pause_given-AllPaused (kafka.assignment p.consumer) p.consumer refl, e)

  rebalance-AllPaused :
      (ks : List ℕ) (b : Bool) (c : kafka.Consumer) → b ≡ true → AllPaused (rebalance kafka ks b c)
  unfolding on_partitions_assigned
  rebalance-AllPaused ks true c e =
      pause_given-AllPaused ks (kafka.rebalanced ks c) (kafka.assignment-rebalanced ks c)
  rebalance-AllPaused ks false c e = cc e

  keep_alive-IsHeld :
      (d : List ℕ) (ticks : List Tick) (p : Polling kafka)
      → IsHeld d p
      → IsHeld d ((keep_alive kafka ticks p).1)
  unfolding keep_alive
  keep_alive-IsHeld d [] p h = h
  keep_alive-IsHeld d (breaks ∷ ticks) p (busy, _, e) = re_paused-IsHeld d p busy e
  keep_alive-IsHeld d (quiet ∷ ticks) p (busy, _, e) =
      keep_alive-IsHeld d ticks (keep_alive_poll kafka quiet (re_paused kafka p))
        (throw_away-IsHeld d (re_paused kafka p) (re_paused-IsHeld d p busy e))
  keep_alive-IsHeld d (rebalances ks ∷ ticks) p (busy, _, e) =
      let q = throw_away kafka (re_paused kafka p) in
      let r = record q { consumer = rebalance kafka ks q.job_in_flight q.consumer } in
      let (b, _, f) = throw_away-IsHeld d (re_paused kafka p) (re_paused-IsHeld d p busy e) in
      keep_alive-IsHeld d ticks (throw_away kafka r)
        (throw_away-IsHeld d r (b, rebalance-AllPaused ks q.job_in_flight q.consumer b, f))

  finally_resume-paused :
      (held : List ℕ) (p : Polling kafka) (k : ℕ)
      → AllPaused p.consumer
      → member k (kafka.assignment ((finally_resume kafka held p).consumer)) ≡ true
      → kafka.is_paused k ((finally_resume kafka held p).consumer) ≡ not (member k held)
  unfolding resume_paused
  finally_resume-paused held p k paused h =
      let ours = still_ours held (kafka.assignment p.consumer) in
      let assigned : member k (kafka.assignment p.consumer) ≡ true =
        ap (member k) (sym (assignment-resume_given ours p.consumer)) ∙ h in
      is_paused-resume_given k ours p.consumer (AllIn-still_ours held (kafka.assignment p.consumer))
      ∙ ground (
        arith,
        assigned,
        paused k assigned,
        member-still_ours k held (kafka.assignment p.consumer),
      )

  after_job-IsHeld :
      (d : List ℕ) (returns accepts : Bool) (partition offset : ℕ) (r : Bool × Polling kafka)
      → IsHeld d (r.1)
      → IsHeld d (after_job kafka returns accepts partition offset r)
  after_job-IsHeld d true true partition offset (true, p) h = h
  after_job-IsHeld d true false partition offset (true, p) h = h
  after_job-IsHeld d false accepts partition offset (true, p) h = h
  after_job-IsHeld d returns accepts partition offset (false, p) h = h

  begin_job-IsHeld :
      (message : Message) (p : Polling kafka) → IsHeld p.discarded (begin_job kafka message p)
  unfolding pause_assigned
  begin_job-IsHeld message p =
      (refl, pause_given-AllPaused (kafka.assignment p.consumer) p.consumer refl, refl)

  ended-IsHeld :
      (message : Message) (ticks : List Tick) (returns accepts : Bool) (partition offset : ℕ)
      → (p : Polling kafka)
      → IsHeld p.discarded (
          after_job kafka returns accepts partition offset
            (keep_alive kafka ticks (begin_job kafka message p)))
  ended-IsHeld message ticks returns accepts partition offset p =
      after_job-IsHeld p.discarded returns accepts partition offset
        (keep_alive kafka ticks (begin_job kafka message p))
        (keep_alive-IsHeld p.discarded ticks (begin_job kafka message p)
          (begin_job-IsHeld message p))

  -- Whatever rebalances interrupt a job, and whether a poll raises, the job raises or the commit is
  -- refused, the polls that keep the worker alive throw no record away: each of them finds every
  -- assigned partition paused.
  pub process_discards_nothing :
      (decoded : Option Message) (ticks : List Tick) (returns accepts : Bool) (partition offset : ℕ)
      → (p : Polling kafka)
      → (process kafka decoded ticks returns accepts partition offset p).discarded ≡ p.discarded
  unfolding process
  process_discards_nothing none ticks returns true partition offset p = refl
  process_discards_nothing none ticks returns false partition offset p = refl
  process_discards_nothing (some message) ticks returns accepts partition offset p =
      (ended-IsHeld message ticks returns accepts partition offset p).2

  -- After a job, a partition that is still assigned is open again exactly if it was assigned when the
  -- job began. One that a rebalance has handed over in between stays paused.
  pub newcomers_stay_paused :
      (message : Message) (ticks : List Tick) (returns accepts : Bool) (partition offset k : ℕ)
      → (p : Polling kafka)
      → member k (
          kafka.assignment
            ((process kafka (some message) ticks returns accepts partition offset p).consumer))
        ≡ true
      → kafka.is_paused k
          ((process kafka (some message) ticks returns accepts partition offset p).consumer)
        ≡ not (member k (kafka.assignment p.consumer))
  unfolding process
  newcomers_stay_paused message ticks returns accepts partition offset k p h =
      finally_resume-paused (kafka.assignment p.consumer)
        (after_job kafka returns accepts partition offset
          (keep_alive kafka ticks (begin_job kafka message p)))
        k (ended-IsHeld message ticks returns accepts partition offset p).1 h
