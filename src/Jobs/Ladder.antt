-- ===== src/Jobs/Ladder.antt =====
-- backend/app/queue/topics.py: the retry ladders, one for each kind of job.
-- A topic's name is modelled by its family and its place in the family.
pub mod Laws
use ask_repo.Prelude.{
  ℕ, ◌-◌, Bool, ◌&&◌, ◌||◌, List, [], ◌∷◌, length, get_or, leb, ◌==◌, if◌then◌else◌,
}

-- The four families of topics, one for each kind of job.
pub data JobKind : Type 0 where
  ingest checklist mock_data eval : JobKind

-- A family's topics: the main one, the rungs of its ladder, and the dead letters.
pub data Rung : Type 0 where
  main retry_1m retry_10m dlq : Rung

pub record Topic : Type 0 where
  pub kind : JobKind
  pub rung : Rung

kind_code : JobKind → ℕ
kind_code ingest = 0
kind_code checklist = 1
kind_code mock_data = 2
kind_code eval = 3

rung_code : Rung → ℕ
rung_code main = 0
rung_code retry_1m = 1
rung_code retry_10m = 2
rung_code dlq = 3

-- `==` on topic names.
unfoldable pub topic_eq : Topic → Topic → Bool
unfolding kind_code rung_code
topic_eq a b = kind_code a.kind == kind_code b.kind && rung_code a.rung == rung_code b.rung

-- A topic and its delay in seconds.
abbrev pub Destination : Type 0
Destination = Topic × ℕ

abbrev pub ingest_topic : Topic
ingest_topic = record { kind = JobKind.ingest; rung = main }

abbrev pub dlq_topic : Topic
dlq_topic = record { kind = JobKind.ingest; rung = dlq }

abbrev pub retry_topics : List Destination
retry_topics =
    (record { kind = JobKind.ingest; rung = retry_1m }, 60)
    ∷ (record { kind = JobKind.ingest; rung = retry_10m }, 600)
    ∷ []

-- The subscript is guarded, so the fallback of `get_or` is not reached: on the branch that reads the
-- table, the index is below its length.
unfoldable pub next_destination : ℕ → ℕ → Destination
next_destination attempt max_attempts =
    if leb (max_attempts - 1) attempt || leb (length retry_topics) attempt
    then (dlq_topic, 0)
    else get_or retry_topics attempt (dlq_topic, 0)

abbrev pub checklist_dlq_topic : Topic
checklist_dlq_topic = record { kind = JobKind.checklist; rung = dlq }

abbrev pub checklist_retry_topics : List Destination
checklist_retry_topics =
    (record { kind = JobKind.checklist; rung = retry_1m }, 60)
    ∷ (record { kind = JobKind.checklist; rung = retry_10m }, 600)
    ∷ []

unfoldable pub checklist_next_destination : ℕ → ℕ → Destination
checklist_next_destination attempt max_attempts =
    if leb (max_attempts - 1) attempt || leb (length checklist_retry_topics) attempt
    then (checklist_dlq_topic, 0)
    else get_or checklist_retry_topics attempt (checklist_dlq_topic, 0)

unfoldable pub checklist_retries_exhausted : ℕ → ℕ → Bool
unfolding checklist_next_destination topic_eq
checklist_retries_exhausted attempt max_attempts =
    topic_eq (checklist_next_destination attempt max_attempts).0 checklist_dlq_topic

abbrev pub mock_data_dlq_topic : Topic
mock_data_dlq_topic = record { kind = JobKind.mock_data; rung = dlq }

abbrev pub mock_data_retry_topics : List Destination
mock_data_retry_topics =
    (record { kind = JobKind.mock_data; rung = retry_1m }, 60)
    ∷ (record { kind = JobKind.mock_data; rung = retry_10m }, 600)
    ∷ []

unfoldable pub mock_data_next_destination : ℕ → ℕ → Destination
mock_data_next_destination attempt max_attempts =
    if leb (max_attempts - 1) attempt || leb (length mock_data_retry_topics) attempt
    then (mock_data_dlq_topic, 0)
    else get_or mock_data_retry_topics attempt (mock_data_dlq_topic, 0)

unfoldable pub mock_data_retries_exhausted : ℕ → ℕ → Bool
unfolding mock_data_next_destination topic_eq
mock_data_retries_exhausted attempt max_attempts =
    topic_eq (mock_data_next_destination attempt max_attempts).0 mock_data_dlq_topic

abbrev pub eval_dlq_topic : Topic
eval_dlq_topic = record { kind = JobKind.eval; rung = dlq }

abbrev pub eval_retry_topics : List Destination
eval_retry_topics =
    (record { kind = JobKind.eval; rung = retry_1m }, 60)
    ∷ (record { kind = JobKind.eval; rung = retry_10m }, 600)
    ∷ []

unfoldable pub eval_next_destination : ℕ → ℕ → Destination
eval_next_destination attempt max_attempts =
    if leb (max_attempts - 1) attempt || leb (length eval_retry_topics) attempt
    then (eval_dlq_topic, 0)
    else get_or eval_retry_topics attempt (eval_dlq_topic, 0)

unfoldable pub eval_retries_exhausted : ℕ → ℕ → Bool
unfolding eval_next_destination topic_eq
eval_retries_exhausted attempt max_attempts =
    topic_eq (eval_next_destination attempt max_attempts).0 eval_dlq_topic

-- The router of each kind of job, as the consumers pass it around.
unfoldable pub router : JobKind → ℕ → ℕ → Destination
unfolding next_destination checklist_next_destination mock_data_next_destination
    eval_next_destination
router ingest = next_destination
router checklist = checklist_next_destination
router mock_data = mock_data_next_destination
router eval = eval_next_destination
