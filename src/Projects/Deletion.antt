-- ===== src/Projects/Deletion.antt =====
-- What a deletion leaves of a project.
use ask_repo.Jobs.Lease.{row_key}
use ask_repo.Table.Laws.{edited, find-update_where_only}
use ask_repo.Pipeline.Elsewhere.{run-elsewhere}
use ask_repo.Jobs.Exclusion.{soft_delete}
use ask_repo.Projects.Requests.{readable_by-ok, bind-ok, get_project-found}
use ask_repo.Access.Permissions.{project_delete}
use ask_repo.Pipeline.{get_project, Services, World, live, recorded, run, view}
use ask_repo.Table.{select_where}
use ask_repo.Jobs.Projects.{Project, ProjectSession}
use ask_repo.Jobs.Session.{commit, stage_live_event}
use ask_repo.Projects.{Stored, readable_by, is_refused, delete_row, dropped_from, delete}
use ask_repo.VectorStore.{delete_project, Point, search_matches}
use ask_repo.Access.{
  ◌>>◌, AuthenticatedUser, Call, ProjectView, ok, raised, require_permission,
  vector_store_unavailable,
}
use ask_repo.Prelude.{
  ℕ, ◌≡◌, refl, sym, ap, ◌∙◌, ◌≢◌, inl, inr, Bool, true, false, Option, none, some, List, [], ◌∷◌,
  arith, ◌==◌, if◌then◌else◌, ==_refl, Bool-cases,
}

search_matches-deleted : (k g : ℕ) (xs : List Point) → search_matches k g (delete_project k xs) ≡ []
unfolding search_matches delete_project select_where
search_matches-deleted k g [] = refl
search_matches-deleted k g (x ∷ xs) = ground (arith, search_matches-deleted k g xs)

search_matches-delete_other :
    (k j g : ℕ) (xs : List Point)
    → j ≢ k
    → search_matches j g (delete_project k xs) ≡ search_matches j g xs
unfolding search_matches delete_project select_where
search_matches-delete_other k j g [] n = refl
search_matches-delete_other k j g (x ∷ xs) n =
    ground (arith, n, search_matches-delete_other k j g xs n)

dropped_here :
    (k g c : ℕ) (stores : ℕ → List Point)
    → search_matches k g (dropped_from k (some c) stores c) ≡ []
dropped_here k g c stores =
    ap (λ b. search_matches k g (if b then delete_project k (stores c) else stores c)) (==_refl c)
    ∙ search_matches-deleted k g (stores c)

dropped_of_others :
    (k j g i : ℕ) (o : Option ℕ) (stores : ℕ → List Point)
    → j ≢ k
    → search_matches j g (dropped_from k o stores i) ≡ search_matches j g (stores i)
dropped_of_others k j g i none stores n = refl
dropped_of_others k j g i (some c) stores n = elim (Bool-cases (i == c)) [
  | inl here ↦
      ap (λ b. search_matches j g (if b then delete_project k (stores i) else stores i)) here
      ∙ search_matches-delete_other k j g (stores i) n
  | inr away ↦
      ap (λ b. search_matches j g (if b then delete_project k (stores i) else stores i)) away
]

dropped_elsewhere :
    (k c i : ℕ) (stores : ℕ → List Point) → i ≢ c → dropped_from k (some c) stores i ≡ stores i
dropped_elsewhere k c i stores n =
    let off : (i == c) ≡ false = ground (arith, n) in
    ap (λ b. if b then delete_project k (stores i) else stores i) off

-- A deletion that returned: the session and the points.
delete-ok :
    (down : Bool) (k : ℕ) (actor : AuthenticatedUser) (s t : ProjectSession)
    (stores left : ℕ → List Point) (r : Project)
    → delete down k actor (s, stores) ≡ ok (t, left)
    → get_project k s.rows ≡ some r
    → (t ≡ commit (delete_row k s)) × (left ≡ dropped_from k r.own.embedding_collection stores)
unfolding delete commit
delete-ok down k actor s t stores left r h there =
    let rest = λ (p : ProjectView).
      require_permission actor p.id project_delete
      >> (if is_refused p.embedding_collection down
          then raised vector_store_unavailable
          else ok (commit (delete_row p.id s), dropped_from p.id p.embedding_collection stores)) in
    let (p, readable, more) = bind-ok (readable_by k actor s.rows) rest (t, left) h in
    let (r', found, view, own) = readable_by-ok k actor s.rows p readable in
    let (u, allowed, last) =
      bind-ok (require_permission actor p.id project_delete)
        (λ u.
          if is_refused p.embedding_collection down
          then raised vector_store_unavailable
          else ok (commit (delete_row p.id s), dropped_from p.id p.embedding_collection stores))
        (t, left) more in
    let both = sym found ∙ there in
    let same : r' ≡ r = cc both in
    let col : p.embedding_collection ≡ r.own.embedding_collection =
      ap
        (λ (v : Option ProjectView). elim v as (λ _. Option ℕ) [
          | none ↦ none
          | some v ↦ v.embedding_collection
        ])
        (sym view)
      ∙ ap (λ (q : Project). q.own.embedding_collection) same in
    elim (Bool-cases (is_refused p.embedding_collection down)) [
      | inl refused ↦ ground (arith, refused, last)
      | inr fine ↦
          let done : ◌≡◌ {A = Call Stored}
              (ok (commit (delete_row p.id s), dropped_from p.id p.embedding_collection stores))
              (ok (t, left)) =
            sym (
              ap
                (λ b.
                  if b
                  then raised vector_store_unavailable
                  else ok
                      (commit (delete_row p.id s), dropped_from p.id p.embedding_collection stores))
                fine)
            ∙ last in
          let t_is : commit (delete_row p.id s) ≡ t = cc done in
          let left_is : dropped_from p.id p.embedding_collection stores ≡ left = cc done in
          (
            sym t_is ∙ ap (λ i. commit (delete_row i s)) own,
            sym left_is
                ∙ ap (λ i. dropped_from i p.embedding_collection stores) own
                ∙ ap (λ o. dropped_from k o stores) col,
          )
    ]

deleted-row :
    (k : ℕ) (s : ProjectSession) (r : Project)
    → get_project k s.rows ≡ some r
    → get_project k (commit (delete_row k s)).committed ≡ none
unfolding commit soft_delete stage_live_event
deleted-row k s r there =
    let gone = λ (q : Project). record q { deleted_at = some s.clock; updated_at = s.clock } in
    ap live (
      find-update_where_only row_key gone k s.rows (λ q. refl)
      ∙ ap (edited (λ q. true) gone) (get_project-found k s.rows r there).0)

-- When a deletion returns, the project's row is deleted for every later reader, the collection that the row
-- recorded holds no point of the project, in any generation, and the searches of other projects rank what
-- they did, in every collection.
pub delete_lem :
    (down : Bool) (k : ℕ) (actor : AuthenticatedUser) (s t : ProjectSession)
    (stores left : ℕ → List Point) (r : Project) (c : ℕ)
    → delete down k actor (s, stores) ≡ ok (t, left)
    → get_project k s.rows ≡ some r
    → r.own.embedding_collection ≡ some c
    → (get_project k t.committed ≡ none)
      × ((g : ℕ) → search_matches k g (left c) ≡ [])
      × ((j g i : ℕ) → j ≢ k → search_matches j g (left i) ≡ search_matches j g (stores i))
delete_lem down k actor s t stores left r c h there recorded =
    let (session, points) = delete-ok down k actor s t stores left r h there in
    let dropped = points ∙ ap (λ o. dropped_from k o stores) recorded in
    (
      ap (λ x. get_project k x.committed) session ∙ deleted-row k s r there,
      λ g.
          ap (λ (st : ℕ → List Point). search_matches k g (st c)) dropped
          ∙ dropped_here k g c stores,
      λ j g i n.
          ap (λ (st : ℕ → List Point). search_matches j g (st i)) dropped
          ∙ dropped_of_others k j g i (some c) stores n,
    )

-- A project is indexed in one collection, and a run indexes it in another one, as after a change of the
-- embedding model. Then neither the run nor a deletion of the project, whose row records the new
-- collection, removes a point of the project from the old collection.
pub superseded_points_survive :
    (sv : Services) (job worker : ℕ) (w : World) (down : Bool) (k old : ℕ)
    (actor : AuthenticatedUser) (s t : ProjectSession) (left : ℕ → List Point) (r : Project)
    → old ≢ sv.collection
    → delete down k actor (s, (run sv k job worker w).1.stores) ≡ ok (t, left)
    → get_project k s.rows ≡ some r
    → r.own.embedding_collection ≡ some sv.collection
    → left old ≡ w.stores old
superseded_points_survive sv job worker w down k old actor s t left r other h there recorded =
    let stores = (run sv k job worker w).1.stores in
    let (session, points) = delete-ok down k actor s t stores left r h there in
    ap (λ (st : ℕ → List Point). st old) (points ∙ ap (λ o. dropped_from k o stores) recorded)
    ∙ dropped_elsewhere k sv.collection old stores other
    ∙ run-elsewhere sv k job worker old w other
