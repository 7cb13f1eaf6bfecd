-- ===== src/Pipeline/Answerable.antt =====
-- A project stays answerable while it is indexed again.
pub mod Finishes
pub mod Serves
use ask_repo.Pipeline.Swap.Released.{rows-release_refused, pointer-release}
use ask_repo.Pipeline.Swap.Cloning.{fetch-gave}
use ask_repo.Pipeline.Swap.Rows.{rows-release}
use mathlib.Core.Path.{subst}
use ask_repo.Pipeline.Indexing.{index-kept}
use ask_repo.Pipeline.Swap.{
  discard-kept, renewed, Undisturbed, fetch-kept, handle_failure-kept, points_at-in_generation,
}
use ask_repo.VectorStore.Generations.{
  IsKeyed, delete_generation-All, search_matches-delete_generation, HasDistinctIds, IsInjective,
  search_matches-upsert,
}
use ask_repo.VectorStore.{upsert, delete_generation, Point, search_matches}
use ask_repo.Table.{HasKeys}
use ask_repo.Pipeline.Views.{
  pointer, pointer_of, Holds, Holds-commit, Holds-write, IsOne, next-Keeps, served, served_from,
  Holds-view,
}
use ask_repo.Jobs.Session.{commit}
use ask_repo.Table.Laws.{update_where-HasKeys}
use ask_repo.Jobs.Lease.{row_key, finished}
use ask_repo.Pipeline.Indexing.Written.{EmbedsEach, all_chunks, points_at, index-Wrote}
use ask_repo.Jobs.Projects.{Project, ProjectSession, ready, release}
use ask_repo.Pipeline.{
  gave, Clone, World, fetch, Services, Outcome, broke, recorded, after_release, commit_session,
  delete_points, swap_to, write_store, continue_run, finish_run, get_project, index, index_and_swap,
  next, run, run_project, show, swap,
}
use ask_repo.Prelude.{
  ℕ, suc, ◌≡◌, refl, sym, ap, ◌∙◌, ◌⊎◌, inl, inr, Bool, true, false, Option, none, some, List, [],
  arith, All, ◌==◌, Bool-cases,
}

module _ (s : Services) (vec : List ℕ → ℕ) (k job worker : ℕ) (project : Project) (clone : Clone)
    (stores : ℕ → List Point) (inj : IsInjective s.uuid5) (each : EmbedsEach s vec)
    (others : Undisturbed k s.meanwhile)
    (distinct : HasDistinctIds (
      points_at s vec k
        (suc project.own.active_generation)
        clone.commit_sha
        (all_chunks s clone.files))) where
  abbrev pub active : ℕ
  active = project.own.active_generation

  abbrev pub old_spot : Option ℕ × ℕ
  old_spot = (project.own.embedding_collection, active)

  abbrev pub new_spot : Option ℕ × ℕ
  new_spot = (some s.collection, suc active)

  abbrev pub old_index : List Point
  old_index = served_from k stores (some old_spot)

  abbrev pub new_index : List Point
  new_index = renewed s vec k project clone stores

  abbrev pub planned : List Point
  planned = points_at s vec k (suc active) clone.commit_sha (all_chunks s clone.files)

  abbrev pub HoldsOld : World → Type 0
  HoldsOld w = Holds s k old_index new_index (some old_spot) old_index w

  abbrev pub HoldsNew : World → Type 0
  HoldsNew w = Holds s k old_index new_index (some new_spot) new_index w

  abbrev pub HoldsOne : World → Type 0
  HoldsOne w = HoldsOld w ⊎ HoldsNew w

  delete-kept : (w : World) → HoldsNew w → HoldsNew (delete_points s k active w).1
  delete-kept w h =
      next-Keeps HoldsNew
        (λ u w. (gave tt, write_store s.collection (delete_generation k active) w))
        (s.qdrant_delete active, w)
        (λ u v i.
          Holds-write s k old_index new_index (delete_generation k active) (some new_spot) new_index
            v i
            (λ j e.
              let same : suc active ≡ j = cc e in
              search_matches-delete_generation k j active (v.stores s.collection)
                (λ f. omega (arith, same, f)))
            (delete_generation-All (IsKeyed s.uuid5) k active (v.stores s.collection) i.keyed))
        h

  after_release-kept : (w : World) → HoldsNew w → HoldsNew (after_release s k active true w).1
  after_release-kept w h = elim (Bool-cases (active == 0)) [
    | inl first ↦ rw first h
    | inr later ↦ rw later (delete-kept w h)
  ]

  -- A release that was granted puts the new index in place.
  pub granted-kept :
      (commit_sha : ℕ) (counts : ℕ × ℕ) (x y : ProjectSession) (w : World)
      → release k job worker ready none (recorded s (suc active) commit_sha counts) y
        ≡ some (true, x)
      → HoldsOld (record w { session = y })
      → w.stores s.collection ≡ upsert planned (stores s.collection)
      → HoldsNew (after_release s k active true (commit_session x (record w { session = y }))).1
  unfolding commit finished
  granted-kept commit_sha counts x y w e h wrote =
      let fields = recorded s (suc active) commit_sha counts in
      let pointed =
        pointer-release s k job worker (suc active) commit_sha counts y x old_spot
          (subst (HasKeys row_key) (sym h.synced) h.unique) (ap (pointer k) h.synced ∙ h.pointed)
          e in
      let serves : served_from k w.stores (some new_spot) ≡ new_index =
        ap (search_matches k (suc active)) wrote
        ∙ search_matches-upsert k (suc active) planned (stores s.collection)
            (points_at-in_generation s vec k (suc active) clone.commit_sha
              (all_chunks s clone.files))
            distinct in
      let seen : IsOne s k old_index new_index (served k (w.stores, x.rows)) =
        subst (IsOne s k old_index new_index) (sym (ap (served_from k w.stores) pointed ∙ serves))
          (inr refl) in
      let unique =
        subst (HasKeys row_key) (sym (rows-release k job worker ready none fields y true x e)) (
          update_where-HasKeys row_key _ _ y.rows (λ r. refl)
            (subst (HasKeys row_key) (sym h.synced) h.unique)) in
      after_release-kept (commit_session x (record w { session = y })) (record {
        is_one = inr refl;
        synced = refl;
        pointed = pointed;
        unique = unique;
        keyed = h.keyed;
        serves = serves;
        past = (seen, h.past);
      })

  swap_to-kept :
      (commit_sha : ℕ) (counts : ℕ × ℕ) (o : Option (Bool × ProjectSession)) (y : ProjectSession)
      (w : World)
      → release k job worker ready none (recorded s (suc active) commit_sha counts) y ≡ o
      → HoldsOld (record w { session = y })
      → w.stores s.collection ≡ upsert planned (stores s.collection)
      → HoldsOne (swap_to s k active o (record w { session = y })).1
  swap_to-kept commit_sha counts none y w e h wrote = inl h
  swap_to-kept commit_sha counts (some (false, x)) y w e h wrote =
      let rows =
        rows-release_refused k job worker ready none (recorded s (suc active) commit_sha counts) y x
          e
        ∙ h.synced in
      inl (
        discard-kept s k job worker old_index new_index old_spot old_index (suc active)
          (commit_session x (record w { session = y }))
          (Holds-commit s k old_index new_index (some old_spot) old_index x
            (record w { session = y }) h (ap (pointer k) rows ∙ h.pointed)
            (subst (HasKeys row_key) (sym rows) h.unique)))
  swap_to-kept commit_sha counts (some (true, x)) y w e h wrote =
      inr (granted-kept commit_sha counts x y w e h wrote)

  swap-kept :
      (commit_sha : ℕ) (counts : ℕ × ℕ) (w : World)
      → HoldsOld w
      → w.stores s.collection ≡ upsert planned (stores s.collection)
      → HoldsOne (swap s k job worker active commit_sha counts w).1
  unfolding swap
  swap-kept commit_sha counts w h wrote =
      let y = s.meanwhile w.session in
      let (synced, same, unique) = others w.session h.synced h.unique in
      swap_to-kept commit_sha counts
        (release k job worker ready none (recorded s (suc active) commit_sha counts) y) y w refl
        (record {
          is_one = h.is_one;
          synced = synced;
          pointed = same ∙ h.pointed;
          unique = unique;
          keyed = h.keyed;
          serves = h.serves;
          past = h.past;
        })
        wrote

  after_index-kept :
      (r : Outcome (ℕ × ℕ) × World)
      → HoldsOld r.1
      → ((counts : ℕ × ℕ)
          → r ≡ (gave counts, r.1)
          → r.1.stores s.collection ≡ upsert planned (stores s.collection))
      → HoldsOne (next (λ counts. swap s k job worker active clone.commit_sha counts) r).1
  after_index-kept (broke e, w) h wrote = inl h
  after_index-kept (gave counts, w) h wrote =
      swap-kept clone.commit_sha counts w h (wrote counts refl)

  index_and_swap-kept :
      (w : World)
      → HoldsOld w
      → w.stores ≡ stores
      → HoldsOne (index_and_swap s k job worker project clone w).1
  unfolding index_and_swap
  index_and_swap-kept w h same =
      after_index-kept (index s k (suc active) clone w)
        (index-kept s k old_index new_index inj project.own.embedding_collection active old_index
          clone w h)
        (λ counts e.
          (index-Wrote s vec k (suc active) clone counts w (index s k (suc active) clone w).1 each
            e).0
          ∙ ap (λ st. upsert planned (st s.collection)) same)

  finish_run-kept :
      (r : Outcome (Unit {0}) × World)
      → HoldsOne r.1
      → HoldsOne (finish_run s k job worker (some (suc active)) r).1
  finish_run-kept (gave u, w) h = h
  finish_run-kept (broke e, w) (inl h) = inl (
      handle_failure-kept s k job worker old_index new_index old_spot old_index (some (suc active))
        e w h)
  finish_run-kept (broke e, w) (inr h) = inr (
      handle_failure-kept s k job worker old_index new_index new_spot new_index (some (suc active))
        e w h)

  continue_run-kept :
      (r : Outcome Clone × World)
      → HoldsOld r.1
      → ((cl : Clone) → r ≡ (gave cl, r.1) → (cl ≡ clone) × (r.1.stores ≡ stores))
      → HoldsOne (continue_run s k job worker project r).1
  continue_run-kept (broke e, w) h from =
      inl (handle_failure-kept s k job worker old_index new_index old_spot old_index none e w h)
  continue_run-kept (gave cl, w) h from =
      let (same, same_stores) = from cl refl in
      subst
        (λ c.
          HoldsOne
            (finish_run s k job worker (some (suc active))
              (index_and_swap s k job worker project c w)).1)
        (sym same)
        (finish_run-kept (index_and_swap s k job worker project clone w)
          (index_and_swap-kept w h same_stores))

  run-kept :
      (w : World)
      → w.session.rows ≡ w.session.committed
      → get_project k w.session.rows ≡ some project
      → HasKeys row_key w.session.committed
      → All (IsKeyed s.uuid5) (w.stores s.collection)
      → w.stores ≡ stores
      → w.seen ≡ []
      → s.clone project ≡ gave clone
      → HoldsOne (run s k job worker w).1
  unfolding run
  run-kept w synced there unique keyed same nothing cloned =
      let start : HoldsOld w = record {
        is_one = inl refl;
        synced = synced;
        pointed = ap (pointer k) (sym synced) ∙ ap pointer_of there;
        unique = unique;
        keyed = keyed;
        serves = ap (λ st. served_from k st (some old_spot)) same;
        past = subst (All (λ v. IsOne s k old_index new_index (served k v))) (sym nothing) tt;
      } in
      subst (λ o. HoldsOne (run_project s k job worker o w).1) (sym there)
        (continue_run-kept (fetch s k project w)
          (fetch-kept s k job worker old_index new_index (some old_spot) old_index project w start)
          (λ cl e.
            let (answer, st) = fetch-gave s k project cl w (fetch s k project w).1 e in
            let both = sym answer ∙ cloned in
            let named : cl ≡ clone = cc both in (named, st ∙ same)))

-- A run finds the project's row and clones its repository; what others do to the rows meanwhile is committed
-- and leaves the row's generation and collection alone; the embedder embeds each text by itself; no two
-- texts have one hash, each stored point has the id of its payload, and no two chunks of the clone the same
-- one. Then after every write of the run, and at its end, however it ends, a search in the project ranks
-- either exactly the points that it ranked before the run, or exactly the new index: the points of all
-- chunks of the readable files, beside those that the new generation held before and that are not
-- written over.
pub stays_answerable :
    (s : Services) (vec : List ℕ → ℕ) (k job worker : ℕ) (project : Project) (clone : Clone)
    (session : ProjectSession) (stores : ℕ → List Point)
    → IsInjective s.uuid5
    → EmbedsEach s vec
    → Undisturbed k s.meanwhile
    → HasDistinctIds (
        points_at s vec k
          (suc project.own.active_generation)
          clone.commit_sha
          (all_chunks s clone.files))
    → session.rows ≡ session.committed
    → get_project k session.rows ≡ some project
    → HasKeys row_key session.committed
    → All (IsKeyed s.uuid5) (stores s.collection)
    → s.clone project ≡ gave clone
    → All
        (λ v.
          (served k v ≡ served_from k stores (pointer_of (some project)))
          ⊎ (served k v ≡ renewed s vec k project clone stores))
        (show
          (run s k job worker (record { session = session; stores = stores; seen = [] })).1).seen
stays_answerable s vec k job worker project clone session stores inj each others distinct synced
      there unique keyed cloned =
    let w : World = record { session = session; stores = stores; seen = [] } in
    let e = (run s k job worker w).1 in
    elim (run-kept s vec k job worker project clone stores inj each others distinct w synced there
      unique keyed refl refl cloned) [
        | inl h ↦ (Holds-view s k _ _ _ _ e h, h.past)
        | inr h ↦ (Holds-view s k _ _ _ _ e h, h.past)
      ]
