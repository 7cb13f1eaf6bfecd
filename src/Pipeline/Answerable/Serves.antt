-- ===== src/Pipeline/Answerable/Serves.antt =====
-- A run in which nothing fails puts the new index in place.
use ask_repo.Pipeline.Swap.Cloning.{advance_status-stores}
use ask_repo.Pipeline.Indexing.{index-Keeps, index-kept}
use ask_repo.Pipeline.Answerable.Finishes.{
  fetch-gives, next-Gives, index-Gives, Works-EmbedsEach, Gives, Works, Owns,
}
use ask_repo.Pipeline.Views.{served, pointer, pointer_of, served_from}
use ask_repo.Jobs.Ingestion.{ran}
use mathlib.Core.Path.{subst}
use ask_repo.Pipeline.Answerable.{granted-kept, HoldsOld, HoldsNew, new_index, old_index}
use ask_repo.Jobs.Projects.Recovery.{rows-set_status}
use ask_repo.Pipeline.Swap.{Undisturbed, renewed, advance_status-kept}
use ask_repo.Table.Laws.{returned, returned-update_where, edited, find-update_where}
use Prim.Native.String.{String}
use ask_repo.Jobs.Session.{announced, stage_live_event, commit}
use ask_repo.VectorStore.Generations.{HasDistinctIds, IsInjective, IsKeyed}
use ask_repo.Pipeline.Indexing.Written.{points_at, EmbedsEach, all_chunks, index-Wrote}
use ask_repo.VectorStore.{upsert, Point, delete_generation}
use ask_repo.Table.{find, HasKeys, one_or_none, update_where}
use ask_repo.Pipeline.{
  write_store, index, advance_status, Clone, next, gave, World, Services, after_release,
  commit_session, recorded, swap, swap_to, get_project, index_and_swap, run, view, continue_run,
  finish_run, run_project,
}
use ask_repo.Jobs.Projects.{
  is_ready, ProjectStatus, Project, ProjectSession, ProjectColumns, indexing, lowered, ready,
  release,
}
use ask_repo.Jobs.Lease.{row_key, held_by, finished, release_lease}
use ask_repo.Prelude.{
  ℕ, suc, ◌≡◌, refl, sym, ap, ◌∙◌, inl, inr, Bool, true, ◌&&◌, Option, none, some, List, [], ◌∷◌,
  All, ◌==◌, if◌then◌else◌, Bool-cases,
}

Owns-edited :
    (k worker : ℕ) (p : Project → Bool) (f : Project → Project) (rows : List Project) (q : Project)
    → ((r : Project) → ((f r).id ≡ r.id) × (held_by worker true (f r) ≡ held_by worker true r))
    → find row_key k rows ≡ some q
    → held_by worker true q ≡ true
    → (q' : Project) × (find row_key k (update_where p f rows).0 ≡ some q')
      × (held_by worker true q' ≡ true)
Owns-edited k worker p f rows q keeps found held =
    let moved = find-update_where row_key p f k rows (λ r. (keeps r).0) ∙ ap (edited p f) found in
    elim (Bool-cases (p q)) [
      | inl on ↦ (f q, moved ∙ ap (λ b. if b then some (f q) else some q) on, (keeps q).1 ∙ held)
      | inr off ↦ (q, moved ∙ ap (λ b. if b then some (f q) else some q) off, held)
    ]

advance_status-Owns :
    (s : Services) (k worker : ℕ) (status : ProjectStatus) (w : World)
    → Owns k worker w.session
    → Owns k worker (advance_status s k status w).1.session
unfolding advance_status commit held_by
advance_status-Owns s k worker status w (q, found, held) = elim (Bool-cases (is_ready status)) [
  | inl yes_ready ↦ rw yes_ready (q, found, held)
  | inr not_ready ↦
      let (q', found', held') =
        Owns-edited k worker (λ r. r.id == k)
          (λ r. record r { status = indexing; updated_at = w.session.clock }) w.session.rows q
          (λ r. (refl, refl)) found held in
      rw not_ready (q', ap (find row_key k) (rows-set_status k indexing w.session) ∙ found', held')
]

-- The worker that holds the row is granted the release.
release-granted :
    (k job worker : ℕ) (status : ProjectStatus) (error : Option String)
    (fields : ProjectColumns → ProjectColumns) (y : ProjectSession)
    → HasKeys row_key y.rows
    → Owns k worker y
    → (x : ProjectSession) × (release k job worker status error fields y ≡ some (true, x))
unfolding release release_lease
release-granted k job worker status error fields y keys (q, found, held) =
    let f = finished y.clock job status error (lowered fields) in
    let changed = update_where (λ (r : Project). r.id == k && held_by worker true r) f y.rows in
    let one : changed.1 ≡ f q ∷ [] =
      returned-update_where row_key (held_by worker true) f k y.rows keys
      ∙ ap (returned (held_by worker true) f) found
      ∙ ap (λ b. if b then f q ∷ [] else []) held in
    (
      stage_live_event k (record y { rows = changed.0 }),
      ap (λ l. announced (one_or_none l, changed.0) k y) one,
    )

module _ (s : Services) (vec : List ℕ → ℕ) (k job worker : ℕ) (project : Project) (clone : Clone)
    (works : Works s vec k worker project clone) (stores : ℕ → List Point)
    (inj : IsInjective s.uuid5) (others : Undisturbed k s.meanwhile)
    (distinct : HasDistinctIds (
      points_at s vec k
        (suc project.own.active_generation)
        clone.commit_sha
        (all_chunks s clone.files))) where
  abbrev each : EmbedsEach s vec
  each = Works-EmbedsEach s vec k worker project clone works

  abbrev IsNew : World → Type 0
  IsNew w = HoldsNew s vec k job worker project clone stores inj each others distinct w

  abbrev IsOld : World → Type 0
  IsOld w = HoldsOld s vec k job worker project clone stores inj each others distinct w

  after_release-Gives : (w : World) → Gives (after_release s k project.own.active_generation true w)
  after_release-Gives w = elim (Bool-cases (project.own.active_generation == 0)) [
    | inl first ↦ rw first (tt, refl)
    | inr later ↦ rw later (
        next-Gives
          (λ u w. (
            gave tt,
            write_store s.collection (delete_generation k project.own.active_generation) w,
          ))
          (s.qdrant_delete project.own.active_generation, w)
          (tt, ap (λ o. (o, w)) (works.deletes project.own.active_generation)) (λ u. (tt, refl)))
  ]

  swap-Gives :
      (commit_sha : ℕ) (counts : ℕ × ℕ) (w : World)
      → IsOld w
      → Owns k worker w.session
      → w.stores s.collection
        ≡ upsert
            (points_at s vec k
              (suc project.own.active_generation)
              clone.commit_sha
              (all_chunks s clone.files))
            (stores s.collection)
      → Gives (swap s k job worker project.own.active_generation commit_sha counts w)
        × IsNew (swap s k job worker project.own.active_generation commit_sha counts w).1
  unfolding swap
  swap-Gives commit_sha counts w h own wrote =
      let g = project.own.active_generation in
      let y = s.meanwhile w.session in
      let (synced, same, unique) = others w.session h.synced h.unique in
      let fields = recorded s (suc g) commit_sha counts in
      let (x, granted) =
        release-granted k job worker ready none fields y
          (subst (HasKeys row_key) (sym synced) unique) (works.leaves w.session own) in
      let there : IsOld (record w { session = y }) = record {
        is_one = h.is_one;
        synced = synced;
        pointed = same ∙ h.pointed;
        unique = unique;
        keyed = h.keyed;
        serves = h.serves;
        past = h.past;
      } in
      subst
        (λ o.
          Gives (swap_to s k g o (record w { session = y }))
          × IsNew (swap_to s k g o (record w { session = y })).1)
        (sym granted)
        (
          after_release-Gives (commit_session x (record w { session = y })),
          granted-kept s vec k job worker project clone stores inj each others distinct commit_sha
              counts x y w granted there wrote,
        )

  -- From a world with the old index and the lease, the run comes to its end with the new index.
  pub run-IsNew :
      (w : World)
      → IsOld w
      → get_project k w.session.rows ≡ some project
      → Owns k worker w.session
      → w.stores ≡ stores
      → ((run s k job worker w).0 ≡ ran) × IsNew (run s k job worker w).1
  unfolding run index_and_swap
  run-IsNew w start there own same =
      let g = project.own.active_generation in
      let old = old_index s vec k job worker project clone stores inj each others distinct in
      let new = new_index s vec k job worker project clone stores inj each others distinct in
      let spot : Option ℕ × ℕ = (project.own.embedding_collection, g) in
      let v = (advance_status s k project.status w).1 in
      let at_v =
        advance_status-kept s k job worker old new (some spot) old project.status w start in
      let own_v = advance_status-Owns s k worker project.status w own in
      let (counts, e) = index-Gives s vec k worker project clone works (suc g) v in
      let u = (index s k (suc g) clone v).1 in
      let at_u = index-kept s k old new inj project.own.embedding_collection g old clone v at_v in
      let own_u =
        index-Keeps s k g clone.commit_sha (λ x. Owns k worker x.session) (λ ps x a o. o)
          clone.files v own_v in
      let wrote =
        (index-Wrote s vec k (suc g) clone counts v u each e).0
        ∙ ap
            (λ st.
              upsert (points_at s vec k (suc g) clone.commit_sha (all_chunks s clone.files))
                (st s.collection))
            (advance_status-stores s k project.status w ∙ same) in
      let ((a, f), is_new) = swap-Gives clone.commit_sha counts u at_u own_u wrote in
      let end = (swap s k job worker g clone.commit_sha counts u).1 in
      let whole : run s k job worker w ≡ (ran, end) =
        ap (λ o. run_project s k job worker o w) there
        ∙ ap (continue_run s k job worker project)
            (fetch-gives s vec k worker project clone works w)
        ∙ ap (finish_run s k job worker (some (suc g)))
            (ap (next (λ c. swap s k job worker g clone.commit_sha c)) e ∙ f) in
      (ap (λ r. r.0) whole, subst (λ r. IsNew r.1) (sym whole) is_new)

-- Nothing that the run calls fails, the worker holds the project's lease, and others leave it the lease, and
-- leave the row's generation and collection alone; the row is there; no two texts have one hash, each stored
-- point has the id of its payload, and no two chunks of the clone the same one. Then the run
-- returns, and a search in the project ranks exactly the new index: the points of all chunks of the readable
-- files, beside those that the new generation held before and that are not written over.
pub run_serves :
    (s : Services) (vec : List ℕ → ℕ) (k job worker : ℕ) (project : Project) (clone : Clone)
    (session : ProjectSession) (stores : ℕ → List Point)
    → Works s vec k worker project clone
    → IsInjective s.uuid5
    → Undisturbed k s.meanwhile
    → HasDistinctIds (
        points_at s vec k
          (suc project.own.active_generation)
          clone.commit_sha
          (all_chunks s clone.files))
    → session.rows ≡ session.committed
    → get_project k session.rows ≡ some project
    → Owns k worker session
    → HasKeys row_key session.committed
    → All (IsKeyed s.uuid5) (stores s.collection)
    → ((run s k job worker (record { session = session; stores = stores; seen = [] })).0 ≡ ran)
      × (served k
            (view (run s k job worker (record { session = session; stores = stores; seen = [] })).1)
          ≡ renewed s vec k project clone stores)
run_serves s vec k job worker project clone session stores works inj others distinct synced there
      own unique keyed =
    let w : World = record { session = session; stores = stores; seen = [] } in
    let (returned_fine, h) =
      run-IsNew s vec k job worker project clone works stores inj others distinct w
        (record {
          is_one = inl refl;
          synced = synced;
          pointed = ap (pointer k) (sym synced) ∙ ap pointer_of there;
          unique = unique;
          keyed = keyed;
          serves = refl;
          past = tt;
        })
        there own refl in
    (returned_fine, ap (served_from k (run s k job worker w).1.stores) h.pointed ∙ h.serves)
