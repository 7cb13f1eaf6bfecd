-- ===== src/Pipeline/Swap/Released.antt =====
-- What a release did to the rows.
use Prim.Native.String.{String}
use ask_repo.Table.{find, update_where, HasKeys, one_or_none}
use ask_repo.Pipeline.Views.{pointer, pointer_of}
use ask_repo.Jobs.Session.{announced, stage_live_event}
use ask_repo.Table.Laws.{
  returned-update_where, find-update_where_self, edited, returned, update_where-unchanged,
}
use ask_repo.Jobs.Lease.{held_by, row_key, finished, release_lease}
use ask_repo.Jobs.Projects.{
  Project, ProjectStatus, ProjectSession, lowered, ready, release, ProjectColumns,
}
use ask_repo.Pipeline.{Services, live, recorded}
use ask_repo.Prelude.{
  ℕ, ◌≡◌, refl, sym, ap, ◌∙◌, inl, inr, Bool, true, false, ◌&&◌, Option, none, some, List, [], ◌∷◌,
  arith, ◌==◌, if◌then◌else◌, Bool-cases,
}

-- What a release that was granted found, and what the statement made of it.
announced-true :
    (result : List Project) (rows : List Project) (k : ℕ) (s x : ProjectSession)
    → announced (one_or_none result, rows) k s ≡ some (true, x)
    → (r : Project) × (result ≡ r ∷ []) × (x.rows ≡ rows)
unfolding stage_live_event
announced-true [] rows k s x h = cc h
announced-true (r ∷ []) rows k s x h = (r, refl, ground (arith, h))
announced-true (r ∷ q ∷ rs) rows k s x h = cc h

pointer-returned :
    (p : Project → Bool) (f : Project → Project) (o : Option Project) (r : Project)
    (spot spot' : Option ℕ × ℕ)
    → returned p f o ≡ r ∷ []
    → pointer_of (live o) ≡ some spot
    → ((q : Project)
        → ((f q).deleted_at ≡ q.deleted_at)
          × ((f q).own.embedding_collection ≡ spot'.0)
          × ((f q).own.active_generation ≡ spot'.1))
    → pointer_of (live (edited p f o)) ≡ some spot'
pointer-returned p f none r spot spot' h e g = cc h
pointer-returned p f (some q) r spot spot' h e g =
    let (d, c, gen) = g q in
    elim (Bool-cases (p q)) [
      | inl on ↦ ground (arith, on, d, c, gen, e)
      | inr off ↦ let bad = sym (ap (λ b. if b then f q ∷ [] else []) off) ∙ h in cc bad
    ]

-- A release that was granted moves the pointer to the generation and the collection of the run.
pub pointer-release :
    (s : Services) (k job worker g commit_sha : ℕ) (counts : ℕ × ℕ) (y x : ProjectSession)
    (spot : Option ℕ × ℕ)
    → HasKeys row_key y.rows
    → pointer k y.rows ≡ some spot
    → release k job worker ready none (recorded s g commit_sha counts) y ≡ some (true, x)
    → pointer k x.rows ≡ some (some s.collection, g)
unfolding release release_lease finished lowered
pointer-release s k job worker g commit_sha counts y x spot keys e h =
    let f = finished y.clock job ready none (lowered (recorded s g commit_sha counts)) in
    let q = held_by worker true in
    let changed = update_where (λ (r : Project). r.id == k && q r) f y.rows in
    let (r, result, rows) = announced-true changed.1 changed.0 k y x h in
    ap (pointer k) rows
    ∙ ap (λ o. pointer_of (live o)) (find-update_where_self row_key q f k y.rows (λ r. refl))
    ∙ pointer-returned q f (find row_key k y.rows) r spot (some s.collection, g)
        (sym (returned-update_where row_key q f k y.rows keys) ∙ result) e (λ r. (refl, refl, refl))

announced-false :
    (result : List Project) (rows : List Project) (k : ℕ) (s x : ProjectSession)
    → announced (one_or_none result, rows) k s ≡ some (false, x)
    → (result ≡ []) × (x.rows ≡ rows)
unfolding stage_live_event
announced-false [] rows k s x h = (refl, ground (arith, h))
announced-false (r ∷ []) rows k s x h = cc h
announced-false (r ∷ q ∷ rs) rows k s x h = cc h

-- A release that was refused has changed no row.
pub rows-release_refused :
    (k job worker : ℕ) (status : ProjectStatus) (error : Option String)
    (fields : ProjectColumns → ProjectColumns) (y x : ProjectSession)
    → release k job worker status error fields y ≡ some (false, x)
    → x.rows ≡ y.rows
unfolding release release_lease
rows-release_refused k job worker status error fields y x h =
    let p = λ (r : Project). r.id == k && held_by worker true r in
    let f = finished y.clock job status error (lowered fields) in
    let changed = update_where p f y.rows in
    let (nothing, rows) = announced-false changed.1 changed.0 k y x h in
    rows ∙ update_where-unchanged p f y.rows nothing
