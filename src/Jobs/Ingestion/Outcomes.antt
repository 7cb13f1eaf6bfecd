-- ===== src/Jobs/Ingestion/Outcomes.antt =====
-- What becomes of a failed job, and when its retry may run.
use ask_repo.Jobs.Lease.Gates.{release_lease-fetched}
use ask_repo.Table.{HasKeys, fetched}
use Prim.Native.String.{String}
use ask_repo.Jobs.Ladder.{dlq_topic, topic_eq, Topic, next_destination}
use ask_repo.Prelude.{
  ℕ, ◌≡◌, refl, inl, inr, Bool, true, false, Option, none, some, List, [], ◌∷◌, ◌++◌, arith,
  if◌then◌else◌, Bool-cases,
}
use ask_repo.Jobs.Ingestion.{
  JobOutcome, dead_letter, dead_lettered, forwarded, retry_scheduled, schedule_retry, Clip,
  failure_destination, route_failure,
}
use ask_repo.Jobs.Projects.{
  ProjectSession, Project, ProjectColumns, ProjectStatus, failed, release, renew, lowered,
}
use ask_repo.Jobs.Lease.{row_key, release_lease}
use ask_repo.Jobs.Session.{announced, Message, commit, pass, stage_live_event}

-- The outcome that goes with a destination.
abbrev pub outcome_of : Topic → JobOutcome
outcome_of topic = if topic_eq topic dlq_topic then dead_lettered else retry_scheduled

schedule_retry-produced :
    (topic : Topic) (d : ℕ) (message : Message) (w fresh late : ℕ) (s : ProjectSession)
    → s.broker_up ≡ true
    → (s' : ProjectSession) × (schedule_retry (topic, d) message w fresh late s
        ≡ some (retry_scheduled, s'))
      × (s'.produced ≡ s.produced ++ (topic, forwarded message fresh s.clock d) ∷ [])
unfolding schedule_retry renew
schedule_retry-produced topic d message w fresh late s up =
    let held = commit (renew message.target_id w d (pass late s)).1 in
    (
      record held { produced = held.produced ++ (topic, forwarded message fresh s.clock d) ∷ [] },
      rw up,
      refl,
    )

announced-fetched :
    (x : Option Project) (rows : List Project) (k : ℕ) (s : ProjectSession)
    → (b : Bool) × (s' : ProjectSession) × (announced (fetched x, rows) k s ≡ some (b, s'))
      × (s'.produced ≡ s.produced)
      × (s'.broker_up ≡ s.broker_up)
unfolding stage_live_event
announced-fetched none rows k s = (false, record s { rows = rows }, refl, refl, refl)
announced-fetched (some r) rows k s =
    (true, stage_live_event k (record s { rows = rows }), refl, refl, refl)

release-total :
    (k job w : ℕ) (status : ProjectStatus) (error : Option String)
    (fields : ProjectColumns → ProjectColumns) (s : ProjectSession)
    → HasKeys row_key s.rows
    → (b : Bool) × (s' : ProjectSession) × (release k job w status error fields s ≡ some (b, s'))
      × (s'.produced ≡ s.produced)
      × (s'.broker_up ≡ s.broker_up)
unfolding release
release-total k job w status error fields s keys =
    let table = release_lease s.clock k job w status error (lowered fields) s.rows in
    let (x, e) = release_lease-fetched s.clock k job w status error (lowered fields) s.rows keys in
    rw e (announced-fetched x table.1 k s)

dead_letter-produced :
    (topic : Topic) (message : Message) (w fresh late : ℕ) (error : String) (s : ProjectSession)
    → HasKeys row_key s.rows
    → s.broker_up ≡ true
    → (s' : ProjectSession) × (dead_letter topic message w fresh late error s
        ≡ some (dead_lettered, s'))
      × (s'.produced ≡ s.produced ++ (topic, forwarded message fresh s.clock 0) ∷ [])
unfolding dead_letter
dead_letter-produced topic message w fresh late error s keys up =
    let (b, s', e, made, still) =
      release-total message.target_id message.job_id w failed (some error) (λ c. c) (pass late s)
        keys in
    let done = commit s' in
    (
      record done { produced = done.produced ++ (topic, forwarded message fresh s.clock 0) ∷ [] },
      ground (arith, e, made, still, up),
      rw made refl,
    )

dead_letter-no_delay :
    (message : Message) (max_attempts : ℕ) (u : Bool)
    → topic_eq (failure_destination message max_attempts u).0 dlq_topic ≡ true
    → (failure_destination message max_attempts u).1 ≡ 0
unfolding failure_destination next_destination topic_eq
dead_letter-no_delay message max_attempts u h = ground arith

-- The message that a failure is routed in, through the destination that the handler picks.
pub route_failure-produced :
    (clip : Clip) (message : Message) (w max_attempts fresh late : ℕ) (reason : String) (u : Bool)
    (s : ProjectSession)
    → HasKeys row_key s.rows
    → s.broker_up ≡ true
    → (s' : ProjectSession) × (route_failure clip message w max_attempts fresh late reason u s
        ≡ some (outcome_of (failure_destination message max_attempts u).0, s'))
      × (s'.produced
          ≡ s.produced
            ++ (
              (failure_destination message max_attempts u).0,
              forwarded message fresh s.clock (failure_destination message max_attempts u).1,
            )
              ∷ [])
unfolding route_failure
route_failure-produced clip message w max_attempts fresh late reason u s keys up =
    let (topic, d) = failure_destination message max_attempts u in
    elim (Bool-cases (topic_eq topic dlq_topic)) [
      | inl dead ↦
          rw (dead, dead_letter-no_delay message max_attempts u dead)
            (dead_letter-produced topic message w fresh late (clip reason) s keys up)
      | inr alive ↦ rw alive (schedule_retry-produced topic d message w fresh late s up)
    ]
