-- ===== src/Pipeline/Examples.antt =====
-- A project of two files, indexed again while points of a failed run lie in the next generation.
use ask_repo.Jobs.Session.{stage, commit, stage_live_event}
use ask_repo.Pipeline.Answerable.{stays_answerable}
use ask_repo.Pipeline.Answerable.Serves.{run_serves}
use ask_repo.Pipeline.Views.{pointer_of, served_from, served}
use ask_repo.Jobs.Lease.{finished, release_lease, held_by, seconds}
use ask_repo.Chunker.{Chunk, SourceFile, embedding_text}
use ask_repo.VectorStore.{
  points_for, delete_generation, points_for, upsert, search_matches, point_of, payload_of, Point,
  point_id,
}
use ask_repo.Jobs.Projects.{lowered, new_columns, ready, release, Project, ProjectSession}
use ask_repo.Pipeline.Swap.{renewed, Undisturbed}
use ask_repo.Jobs.Ingestion.{ran, Ran}
use ask_repo.Table.{update_where, select_where, find}
use ask_repo.VectorStore.Generations.{HasDistinctIds, IsKeyed, has_id, IsInjective}
use ask_repo.Pipeline.Indexing.Written.{all_chunks, points_at, EmbedsEach}
use ask_repo.Pipeline.Answerable.Finishes.{Works}
use ask_repo.Budget.{take}
use ask_repo.Retrieval.{drop}
use ask_repo.Pipeline.{show, view, World, gave, Services, run, Clone, index}
use ask_repo.Prelude.{
  ℕ, suc, ◌+◌, ◌-◌, ◌*◌, ◌≤◌, ◌<◌, ◌≡◌, refl, sym, ap, ◌⊎◌, inl, inr, true, false, none, some, List,
  [], ◌∷◌, map, arith, length, All, ltb, ◌==◌, if◌then◌else◌, Bool-cases,
}

-- A number for a pair.
abbrev pair : ℕ → ℕ → ℕ
pair a b = (a + b) * (a + b) + a

square_lt : (a c s t : ℕ) → a ≤ s → s < t → s * s + a < t * t + c
square_lt a c s t h i =
    let d = t - suc s in
    let e : t ≡ suc s + d = omega (arith, i) in
    let f : t * t ≡ (suc s + d) * (suc s + d) = ap (λ x. x * x) e in grind (arith, f, h)

pair_inj : (a b c d : ℕ) → pair a b ≡ pair c d → (a ≡ c) × (b ≡ d)
pair_inj a b c d h = elim (Bool-cases (ltb (a + b) (c + d))) [
  | inl less ↦
      absurd (omega (arith, h, square_lt a c (a + b) (c + d) (omega arith) (ground (arith, less))))
  | inr more ↦ elim (Bool-cases (ltb (c + d) (a + b))) [
    | inl less ↦
        absurd
          (omega (arith, h, square_lt c a (c + d) (a + b) (omega arith) (ground (arith, less))))
    | inr same ↦
        let s : a + b ≡ c + d = ground (arith, more, same) in
        let q = ap (λ (t : ℕ). t * t) s in (omega (arith, h, q), omega (arith, h, q, s))
  ]
]

abbrev hash : ℕ → ℕ × ℕ × ℕ → ℕ
hash k t = pair (pair k t.0) (pair t.1 t.2)

hash-IsInjective : IsInjective hash
hash-IsInjective k j t u h =
    let (front, back) = pair_inj (pair k t.0) (pair t.1 t.2) (pair j u.0) (pair u.1 u.2) h in
    let (same, path) = pair_inj k t.0 j u.0 front in
    let (index, generation) = pair_inj t.1 t.2 u.1 u.2 back in (same, path, index, generation)

abbrev repo : Clone
repo = record {
  files =
      (record { relative_path = 1; language = 2 }, some (65 ∷ []))
      ∷ (record { relative_path = 2; language = 2 }, none)
      ∷ (record { relative_path = 3; language = 2 }, some (66 ∷ 67 ∷ []))
      ∷ [];
  commit_sha = 50;
}

abbrev one_chunk : SourceFile → List ℕ → List Chunk
one_chunk file source =
    record {
      file_path = file.relative_path;
      start_line = 1;
      end_line = 1;
      language = file.language;
      symbol = none;
      chunk_index = 0;
      text = source;
    }
    ∷ []

abbrev services : Services
services = record {
  collection = 1;
  model_id = 9;
  batch_size = 1;
  uuid5 = hash;
  path_text = λ p. p ∷ [];
  decrypt = λ r. gave tt;
  rejected = λ r. none;
  clone = λ r. gave repo;
  prepare = gave tt;
  split_file = one_chunk;
  embed_documents = λ texts. gave (map length texts);
  qdrant_upsert = λ points. gave tt;
  is_written = λ points. false;
  qdrant_delete = λ g. gave tt;
  scrubbed = λ t. t;
  meanwhile = λ x. x;
}

abbrev indexed_project : Project
indexed_project = record {
  id = 7;
  deleted_at = none;
  status = ready;
  error = none;
  lease_owner = some 1;
  lease_expires_at = some (seconds 300);
  last_job_id = some 11;
  updated_at = 0;
  own = record (new_columns 0) {
    reindex_in_progress = true;
    active_generation = 4;
    embedding_collection = some 1;
  };
}

abbrev claimed_session : ProjectSession
claimed_session = record {
  clock = seconds 10;
  committed = indexed_project ∷ [];
  rows = indexed_project ∷ [];
  staged = [];
  published = [];
  produced = [];
  broker_up = true;
}

abbrev stored : ℕ → ℕ → Point
stored path g = record {
  id = hash 7 (path, 0, g);
  vector = 1;
  payload = payload_of 7 g 40 (record {
    file_path = path;
    start_line = 1;
    end_line = 1;
    language = 2;
    symbol = none;
    chunk_index = 0;
    text = 64 ∷ [];
  });
}

-- The present index, and a point that a failed run left.
abbrev collections : ℕ → List Point
collections j = if j == 1 then stored 1 4 ∷ stored 9 5 ∷ [] else []

abbrev indexing_run : Ran × World
indexing_run =
    run services 7 11 1 (record { session = claimed_session; stores = collections; seen = [] })

-- The run serves the point that the failed run left, and its file is in no commit that was cloned.
left_over : map (λ p. p.payload.file_path) (served 7 (view indexing_run.1)) ≡ 9 ∷ 1 ∷ 3 ∷ []
unfolding take drop run release find search_matches select_where upsert release_lease update_where
    finished lowered held_by commit stage points_for point_of point_id delete_generation
    embedding_text stage_live_event
left_over = refl

collections-IsKeyed : All (IsKeyed hash) (collections 1)
unfolding point_id
collections-IsKeyed = (refl, (refl, tt))

chunks-HasDistinctIds :
    HasDistinctIds (points_at services length 7 5 50 (all_chunks services repo.files))
unfolding has_id point_of point_id
chunks-HasDistinctIds = (refl, (refl, tt))

no_one_else : Undisturbed 7 (λ x. x)
no_one_else x synced keys = (synced, refl, keys)

embeds_each : EmbedsEach services length
embeds_each texts vectors e = let same : map length texts ≡ vectors = cc e in sym same

all_work : Works services length 7 1 indexed_project repo
all_work = record {
  decrypts = refl;
  accepts = refl;
  clones = refl;
  prepares = refl;
  embeds = λ texts. refl;
  writes = λ points. refl;
  deletes = λ g. refl;
  leaves = λ x h. h;
}

stays_answerable_example :
    All
      (λ v.
        (served 7 v ≡ served_from 7 collections (pointer_of (some indexed_project)))
        ⊎ (served 7 v ≡ renewed services length 7 indexed_project repo collections))
      (show indexing_run.1).seen
unfolding find
stays_answerable_example =
    stays_answerable services length 7 11 1 indexed_project repo claimed_session collections
      hash-IsInjective embeds_each no_one_else chunks-HasDistinctIds refl refl (tt, tt)
      collections-IsKeyed refl

run_serves_example :
    (indexing_run.0 ≡ ran)
    × (served 7 (view indexing_run.1) ≡ renewed services length 7 indexed_project repo collections)
unfolding find held_by
run_serves_example =
    run_serves services length 7 11 1 indexed_project repo claimed_session collections all_work
      hash-IsInjective no_one_else chunks-HasDistinctIds refl refl (indexed_project, refl, refl)
      (tt, tt) collections-IsKeyed
