-- ===== src/Jobs/Exclusion/Redelivery.antt =====
-- A message that is delivered twice does not run twice.
use Prim.Native.String.{String}
use ask_repo.Jobs.Exclusion.Steps.{play-Inv}
use ask_repo.Prelude.{
  ℕ, ◌≡◌, refl, sym, ap, ◌∙◌, inl, inr, Bool, true, Option, none, some, List, [], ◌∷◌, arith, All,
  Bool-cases,
}
use ask_repo.Table.{HasKeys, fetched, find, one_or_none, update_where}
use ask_repo.Table.Laws.{
  edited, find-key, find-update_where, returned, returned-update_where, find-update_where_self,
}
use ask_repo.Jobs.Lease.{
  Row, abandon_lease, abandoned, claim_lease, claim_stranded_rows, claimable, claimed, defer_lease,
  extended, finished, release_lease, renew_lease, row_key, touched,
}
use ask_repo.Jobs.Exclusion.{
  Event, World, abandons, claims, defers, deletes, play, releases, renews, soft_delete, step,
  sweeps, waits,
}

module _ {S E : Type 0} where
  -- The event claims or records no other job than `j` on the row `k`.
  abbrev pub NamesNoOther : ℕ → ℕ → Event S E → Type 0
  NamesNoOther k j (claims k' job w secs gate values) = k' ≡ k → job ≡ j
  NamesNoOther k j (releases k' job w status error fields) = k' ≡ k → job ≡ j
  NamesNoOther k j (renews k' w secs skip) = Unit {0}
  NamesNoOther k j (defers k' w hold) = Unit {0}
  NamesNoOther k j (abandons k' w fields) = Unit {0}
  NamesNoOther k j (sweeps is_working older) = Unit {0}
  NamesNoOther k j (deletes k') = Unit {0}
  NamesNoOther k j (waits d) = Unit {0}

  -- The row, if it is there, names the job as its last one.
  abbrev Recorded : ℕ → Option (Row S E) → Type 0
  Recorded j none = Unit {0}
  Recorded j (some r) = r.last_job_id ≡ some j

  Recorded-edited :
      (j : ℕ) (p : Row S E → Bool) (f : Row S E → Row S E) (o : Option (Row S E))
      → ((r : Row S E)
          → o ≡ some r
          → p r ≡ true
          → r.last_job_id ≡ some j
          → (f r).last_job_id ≡ some j)
      → Recorded j o
      → Recorded j (edited p f o)
  Recorded-edited j p f none keep h = tt
  Recorded-edited j p f (some r) keep h = elim (Bool-cases (p r)) [
    | inl hit ↦ rw hit (keep r refl hit h)
    | inr miss ↦ rw miss h
  ]

  abbrev JobOf : ℕ → ℕ → List (Row S E) → Type 0
  JobOf k j table = Recorded j (find row_key k table)

  JobOf-update :
      (k j : ℕ) (p : Row S E → Bool) (f : Row S E → Row S E) (table : List (Row S E))
      → ((r : Row S E) → (f r).id ≡ r.id)
      → ((r : Row S E)
          → r.id ≡ k
          → p r ≡ true
          → r.last_job_id ≡ some j
          → (f r).last_job_id ≡ some j)
      → JobOf k j table
      → JobOf k j (update_where p f table).0
  JobOf-update k j p f table e keep h = rw (find-update_where row_key p f k table e) (
      Recorded-edited j p f (find row_key k table)
        (λ r found. keep r (find-key row_key k table found)) h)

  step-JobOf :
      (k j : ℕ) (e : Event S E) (s : World S E)
      → NamesNoOther k j e
      → JobOf k j s.table
      → JobOf k j (step e s).table
  unfolding step
  step-JobOf k j (claims k' job w secs gate values) s n h =
      unfold claim_lease claimed in
      JobOf-update k j _ _ s.table (λ r. refl) (λ r e hit _. ground (arith, n)) h
  step-JobOf k j (releases k' job w status error fields) s n h =
      unfold release_lease finished in
      JobOf-update k j _ _ s.table (λ r. refl) (λ r e hit _. ground (arith, n)) h
  step-JobOf k j (renews k' w secs skip) s n h =
      unfold renew_lease extended in JobOf-update k j _ _ s.table (λ r. refl) (λ r e hit old. old) h
  step-JobOf k j (defers k' w hold) s n h =
      unfold defer_lease extended in JobOf-update k j _ _ s.table (λ r. refl) (λ r e hit old. old) h
  step-JobOf k j (abandons k' w fields) s n h =
      unfold abandon_lease abandoned in
      JobOf-update k j _ _ s.table (λ r. refl) (λ r e hit old. old) h
  step-JobOf k j (sweeps is_working older) s n h =
      unfold claim_stranded_rows touched in
      JobOf-update k j _ _ s.table (λ r. refl) (λ r e hit old. old) h
  step-JobOf k j (deletes k') s n h =
      unfold soft_delete in JobOf-update k j _ _ s.table (λ r. refl) (λ r e hit old. old) h
  step-JobOf k j (waits d) s n h = h

  play-JobOf :
      (k j : ℕ) (es : List (Event S E)) (s : World S E)
      → All (NamesNoOther k j) es
      → JobOf k j s.table
      → JobOf k j (play es s).table
  unfolding play
  play-JobOf k j [] s n h = h
  play-JobOf k j (e ∷ es) s n h = play-JobOf k j es (step e s) n.1 (step-JobOf k j e s n.0 h)

  Recorded-refused :
      (now j : ℕ) (gate : Row S E → Bool) (f : Row S E → Row S E) (o : Option (Row S E))
      → Recorded j o
      → one_or_none (returned (claimable now j gate) f o) ≡ fetched none
  unfolding claimable
  Recorded-refused now j gate f none h = refl
  Recorded-refused now j gate f (some r) h = ground arith

  won-Recorded :
      (now j w secs : ℕ) (gate : Row S E → Bool) (values : Row S E → S × Option String × E)
      (o : Option (Row S E)) (r : Row S E)
      → one_or_none (returned (claimable now j gate) (claimed now j w secs values) o)
        ≡ fetched (some r)
      → Recorded j (edited (claimable now j gate) (claimed now j w secs values) o)
  unfolding claimed
  won-Recorded now j w secs gate values none r h = tt
  won-Recorded now j w secs gate values (some x) r h = ground arith

  JobOf-won :
      (now k j w secs : ℕ) (gate : Row S E → Bool) (values : Row S E → S × Option String × E)
      (table : List (Row S E)) (r : Row S E)
      → HasKeys row_key table
      → (claim_lease now k j w secs gate values table).0 ≡ fetched (some r)
      → JobOf k j (claim_lease now k j w secs gate values table).1
  unfolding claim_lease
  JobOf-won now k j w secs gate values table r keys h =
      rw
        (find-update_where_self row_key (claimable now j gate) (claimed now j w secs values) k table
          (λ x. unfold claimed in refl))
        (won-Recorded now j w secs gate values (find row_key k table) r (
          sym (
            ap one_or_none (
              returned-update_where row_key (claimable now j gate) (claimed now j w secs values) k
                table keys))
          ∙ h))

  claim-refused :
      (now k j w secs : ℕ) (gate : Row S E → Bool) (values : Row S E → S × Option String × E)
      (table : List (Row S E))
      → HasKeys row_key table
      → JobOf k j table
      → (claim_lease now k j w secs gate values table).0 ≡ fetched none
  unfolding claim_lease
  claim-refused now k j w secs gate values table keys h =
      ap one_or_none (
        returned-update_where row_key (claimable now j gate) (claimed now j w secs values) k table
          keys)
      ∙ Recorded-refused now j gate (claimed now j w secs values) (find row_key k table) h

  -- Once a worker has won the claim of a job on a row, no worker wins a claim of the same job on that
  -- row, however much later and after any events that claim and record no other job on the row: the
  -- lease may have been renewed, deferred, abandoned, released or lost, and the row deleted.
  pub redelivery_refused :
      (k j w secs : ℕ) (gate : Row S E → Bool) (values : Row S E → S × Option String × E) (now : ℕ)
      (table : List (Row S E)) (r : Row S E) (es : List (Event S E)) (w' secs' : ℕ)
      (gate' : Row S E → Bool) (values' : Row S E → S × Option String × E)
      → HasKeys row_key table
      → (claim_lease now k j w secs gate values table).0 ≡ fetched (some r)
      → All (NamesNoOther k j) es
      → (claim_lease
          (play
            (claims k j w secs gate values ∷ es)
            (record { now = now; table = table; runs = [] })).now
          k
          j
          w'
          secs'
          gate'
          values'
          (play
            (claims k j w secs gate values ∷ es)
            (record { now = now; table = table; runs = [] })).table).0
        ≡ fetched none
  unfolding play
  redelivery_refused k j w secs gate values now table r es w' secs' gate' values' keys won_it
        quiet =
      let s : World S E = record { now = now; table = table; runs = [] } in
      let s' = step (claims k j w secs gate values) s in
      let v =
        play-Inv (claims k j w secs gate values ∷ es) s (record { keys = keys; backed = tt }) in
      claim-refused _ k j w' secs' gate' values' _ v.keys (
        play-JobOf k j es s' quiet
          (unfold step in JobOf-won now k j w secs gate values table r keys won_it))
