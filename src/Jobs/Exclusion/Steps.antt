-- ===== src/Jobs/Exclusion/Steps.antt =====
-- Every statement keeps the runs backed by leases, and so they exclude one another.
use ask_repo.Prelude.{
  ℕ, ◌+◌, ◌≤◌, ◌≡◌, refl, inl, inr, Bool, true, false, ◌&&◌, Option, none, some, List, [], ◌∷◌,
  arith, All, ◌==◌, if◌then◌else◌, Bool-cases,
}
use Prim.Native.String.{String}
use ask_repo.Table.{find, one_or_none, update_where, HasKeys, rowcount}
use ask_repo.Table.Laws.{
  returned, returned-update_where, update_where-HasKeys, find-key, find-update_where,
}
use ask_repo.Jobs.Lease.{
  Row, claim_lease, claimable, claimed, row_key, seconds, abandon_lease, abandoned,
  claim_stranded_rows, defer_lease, extended, finished, held_by, release_lease, renew_lease,
  touched,
}
use ask_repo.Jobs.Exclusion.{
  World, claims, step, won, Event, Run, abandons, defers, deletes, drop_run, move_run, play,
  releases, renews, soft_delete, sweeps, waits,
}
use ask_repo.Jobs.Exclusion.Laws.{
  Backed, Inv, Backed-each, claimable-Spares, Backed-drop, Backed-move, Owns, Spares, extended-id,
}

module _ {S E : Type 0} where
  claim-Inv :
      (k job w secs : ℕ) (gate : Row S E → Bool) (values : Row S E → S × Option String × E)
      (s : World S E)
      → Inv s
      → Inv (step (claims k job w secs gate values) s)
  unfolding step claim_lease
  claim-Inv k job w secs gate values s v =
      let q = claimable s.now job gate in
      let f = claimed s.now job w secs values in
      let kept =
        Backed-each s.now s.table (λ r. r.id == k && q r) f (λ r. unfold claimed in refl)
          (claimable-Spares s.now k job gate f) s.runs v.backed in
      record {
        keys = update_where-HasKeys row_key _ f s.table (λ r. unfold claimed in refl) v.keys;
        backed =
            rw (returned-update_where row_key q f k s.table v.keys)
              (claim-backed (find row_key k s.table) refl kept);
      }
    where
      claim-backed :
          (o : Option (Row S E))
          → find row_key k s.table ≡ o
          → All
              (Backed s.now
                (update_where
                  (λ r. r.id == k && claimable s.now job gate r)
                  (claimed s.now job w secs values)
                  s.table).0)
              s.runs
          → All
              (Backed s.now
                (update_where
                  (λ r. r.id == k && claimable s.now job gate r)
                  (claimed s.now job w secs values)
                  s.table).0)
              (won
                (one_or_none
                  (returned (claimable s.now job gate) (claimed s.now job w secs values) o))
                (record { row_id = k; worker_id = w; until = s.now + seconds secs })
                s.runs)
      claim-backed none e h = h
      claim-backed (some r) e h = elim (Bool-cases (claimable s.now job gate r)) [
        | inr out ↦ rw out h
        | inl ok ↦ rw ok (
          (λ _.
              rw
                (
                  find-update_where row_key _ (claimed s.now job w secs values) k s.table
                      (λ x. unfold claimed in refl),
                  e,
                )
                (unfold claimed in ground (arith, find-key row_key k s.table e))),
          h,
        )
      ]

  renew-Inv :
      (k w secs : ℕ) (skip : Bool) (s : World S E) → Inv s → Inv (step (renews k w secs skip) s)
  unfolding step renew_lease
  renew-Inv k w secs skip s v = record {
    keys =
        update_where-HasKeys row_key _ (extended s.now secs) s.table (extended-id s.now secs)
          v.keys;
    backed =
        rw (returned-update_where row_key (held_by w skip) (extended s.now secs) k s.table v.keys)
          (renew-backed (find row_key k s.table) refl);
  }
    where
      renew-backed :
          (o : Option (Row S E))
          → find row_key k s.table ≡ o
          → All
              (Backed s.now
                (update_where (λ r. r.id == k && held_by w skip r) (extended s.now secs) s.table).0)
              (if rowcount (returned (held_by w skip) (extended s.now secs) o) == 1
                then move_run k w (s.now + seconds secs) s.runs
                else drop_run k w s.runs)
      renew-backed none e =
          Backed-drop s.now k w s.table skip (extended s.now secs) (extended-id s.now secs) s.runs
            v.backed
      renew-backed (some r) e = elim (Bool-cases (held_by w skip r)) [
        | inr out ↦ rw out (
            Backed-drop s.now k w s.table skip (extended s.now secs) (extended-id s.now secs) s.runs
              v.backed)
        | inl ok ↦ rw ok (Backed-move s.now k w secs s.table skip r e ok s.runs v.backed)
      ]

  drop-Inv :
      (k w : ℕ) (skip : Bool) (f : Row S E → Row S E) (s : World S E)
      → ((r : Row S E) → (f r).id ≡ r.id)
      → Inv s
      → Inv (record s {
        table = (update_where (λ r. r.id == k && held_by w skip r) f s.table).0;
        runs = drop_run k w s.runs;
      })
  drop-Inv k w skip f s e v = record {
    keys = update_where-HasKeys row_key _ f s.table e v.keys;
    backed = Backed-drop s.now k w s.table skip f e s.runs v.backed;
  }

  spare-Inv :
      (p : Row S E → Bool) (f : Row S E → Row S E) (s : World S E)
      → ((r : Row S E) → (f r).id ≡ r.id)
      → ((run : Run) → Spares run p f)
      → Inv s
      → Inv (record s { table = (update_where p f s.table).0 })
  spare-Inv p f s e sp v = record {
    keys = update_where-HasKeys row_key p f s.table e v.keys;
    backed = Backed-each s.now s.table p f e (λ run _. sp run) s.runs v.backed;
  }

  Backed-wait :
      (now d : ℕ) (table : List (Row S E)) (runs : List Run)
      → All (Backed now table) runs
      → All (Backed (now + d) table) runs
  Backed-wait now d table [] h = tt
  Backed-wait now d table (run ∷ runs) h =
      (λ live. h.0 (omega arith), Backed-wait now d table runs h.1)

  pub step-Inv : (e : Event S E) (s : World S E) → Inv s → Inv (step e s)
  unfolding step
  step-Inv (claims k job w secs gate values) s v = claim-Inv k job w secs gate values s v
  step-Inv (renews k w secs skip) s v = renew-Inv k w secs skip s v
  step-Inv (releases k job w status error fields) s v =
      unfold release_lease in
      drop-Inv k w true (finished s.now job status error fields) s (λ r. unfold finished in refl) v
  step-Inv (defers k w hold) s v =
      unfold defer_lease in drop-Inv k w true (extended s.now hold) s (extended-id s.now hold) v
  step-Inv (abandons k w fields) s v =
      unfold abandon_lease in
      drop-Inv k w false (abandoned s.now fields) s (λ r. unfold abandoned in refl) v
  step-Inv (sweeps is_working older) s v =
      unfold claim_stranded_rows in
      spare-Inv _ (touched s.now) s (λ r. unfold touched in refl)
        (λ run r h hit. unfold touched in h) v
  step-Inv (deletes k) s v = unfold soft_delete in spare-Inv _ _ s (λ r. refl) (λ run r h hit. h) v
  step-Inv (waits d) s v = record {
    keys = v.keys;
    backed = Backed-wait s.now d s.table s.runs v.backed;
  }

  pub play-Inv : (es : List (Event S E)) (s : World S E) → Inv s → Inv (play es s)
  unfolding play
  play-Inv [] s v = v
  play-Inv (e ∷ es) s v = play-Inv es (step e s) (step-Inv e s v)

  -- Two runs of one row that have not expired belong to one worker.
  abbrev pub Excludes : World S E → Type 0
  Excludes s =
      All
        (λ a.
          All
            (λ b.
              a.row_id ≡ b.row_id → s.now ≤ a.until → s.now ≤ b.until → a.worker_id ≡ b.worker_id)
            s.runs)
        s.runs

  same_owner : (a b : Run) (o : Option (Row S E)) → Owns a o → Owns b o → a.worker_id ≡ b.worker_id
  same_owner a b none ha hb = absurd ha
  same_owner a b (some r) ha hb = ground arith

  excludes_each :
      (s : World S E) (a : Run)
      → Backed s.now s.table a
      → (bs : List Run) → All (Backed s.now s.table) bs
      → All
          (λ b. a.row_id ≡ b.row_id → s.now ≤ a.until → s.now ≤ b.until → a.worker_id ≡ b.worker_id)
          bs
  excludes_each s a ha [] hb = tt
  excludes_each s a ha (b ∷ bs) hb = (
    λ same la lb. same_owner a b (find row_key a.row_id s.table) (ha la) (rw same (hb.0 lb)),
    excludes_each s a ha bs hb.1,
  )

  excludes_every :
      (s : World S E)
      → Inv s
      → (runs : List Run) → All (Backed s.now s.table) runs
      → All
          (λ a.
            All
              (λ b.
                a.row_id ≡ b.row_id → s.now ≤ a.until → s.now ≤ b.until → a.worker_id ≡ b.worker_id)
              s.runs)
          runs
  excludes_every s v [] h = tt
  excludes_every s v (a ∷ runs) h =
      (excludes_each s a h.0 s.runs v.backed, excludes_every s v runs h.1)

  -- Start from any table whose ids are distinct, with no run under way, and let any workers claim,
  -- renew, release, defer, abandon, sweep and delete in any order, with any arguments, while the one
  -- clock goes on: at the end, two runs of one row that their workers still believe in and that have
  -- not expired belong to the same worker.
  pub mutual_exclusion :
      (es : List (Event S E)) (now : ℕ) (table : List (Row S E))
      → HasKeys row_key table
      → Excludes (play es (record { now = now; table = table; runs = [] }))
  mutual_exclusion es now table keys =
      let end = play es (record { now = now; table = table; runs = [] }) in
      let v =
        play-Inv es (record { now = now; table = table; runs = [] })
          (record { keys = keys; backed = tt }) in
      excludes_every end v end.runs v.backed
