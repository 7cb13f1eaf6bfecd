-- ===== src/Jobs/Lease/Gates.antt =====
-- Which runs a lease lets in, and which it turns away.
use Prim.Native.String.{String}
use ask_repo.Prelude.{
  ℕ, ◌+◌, ◌≤◌, ◌≡◌, refl, sym, ap, ◌∙◌, inl, inr, Bool, true, false, not, ◌&&◌, Option, none, some,
  List, [], ◌∷◌, arith, ◌==◌, is_some_eq, Bool-cases,
}
use ask_repo.Table.{HasKeys, fetched, find, select_where, update_where, one_or_none}
use ask_repo.Table.Laws.{
  returned, returned-update_where, update_where-unchanged, edited, find-update_where_self,
}
use ask_repo.Jobs.Lease.{
  Row, abandon_lease, abandoned, claim_stranded_rows, defer_lease, extended, finished, held_by,
  release_lease, renew_lease, row_key, seconds, stranded, touched, claim_lease, claimable, claimed,
}

module _ {S E : Type 0} where
  -- The worker does not hold the row's lease.
  abbrev pub NotHeld : ℕ → Option (Row S E) → Type 0
  NotHeld w none = Unit {0}
  NotHeld w (some r) = is_some_eq r.lease_owner w ≡ false

  NotHeld-returned :
      (w : ℕ) (skip : Bool) (f : Row S E → Row S E) (o : Option (Row S E))
      → NotHeld w o
      → returned (held_by w skip) f o ≡ []
  unfolding held_by
  NotHeld-returned w skip f none h = refl
  NotHeld-returned w skip f (some r) h = rw h

  NotHeld-update :
      (k w : ℕ) (skip : Bool) (f : Row S E → Row S E) (table : List (Row S E))
      → HasKeys row_key table
      → NotHeld w (find row_key k table)
      → update_where (λ r. r.id == k && held_by w skip r) f table ≡ (table, [])
  NotHeld-update k w skip f table keys h =
      let none_back =
        returned-update_where row_key (held_by w skip) f k table keys
        ∙ NotHeld-returned w skip f (find row_key k table) h in
      ground (
        arith,
        none_back,
        update_where-unchanged (λ r. r.id == k && held_by w skip r) f table none_back,
      )

  -- A worker that does not own a row's lease, because it expired and another worker claimed the row
  -- or because the run was recorded already, can neither renew it, nor record an outcome, nor defer
  -- or abandon the job: each statement reports the loss, and the table is as it was.
  loser_writes_nothing :
      (now k job w secs : ℕ) (skip : Bool) (status : S) (error : Option String)
      (fields : Row S E → E) (table : List (Row S E))
      → HasKeys row_key table
      → NotHeld w (find row_key k table)
      → (renew_lease now k w secs skip table ≡ (false, table))
        × (release_lease now k job w status error fields table ≡ (fetched none, table))
        × (defer_lease now k w secs table ≡ (fetched none, table))
        × (abandon_lease now k w fields table ≡ (false, table))
  unfolding renew_lease release_lease defer_lease abandon_lease
  loser_writes_nothing now k job w secs skip status error fields table keys h = (
    rw (NotHeld-update k w skip (extended now secs) table keys h),
    rw (NotHeld-update k w true (finished now job status error fields) table keys h),
    rw (NotHeld-update k w true (extended now secs) table keys h),
    rw (NotHeld-update k w false (abandoned now fields) table keys h),
  )

  touched-not-stranded :
      (now later older : ℕ) (is_working : S → Bool) (r : Row S E)
      → later ≤ now + seconds older
      → stranded later is_working older (touched now r) ≡ false
  unfolding stranded touched
  touched-not-stranded now later older is_working r h = ground arith

  -- A sweep after a sweep, while the first one's stamp is not older than the threshold, takes from the
  -- rows that the first one left, and from no row that it took.
  sweep_again :
      (now later older : ℕ) (is_working : S → Bool) (table : List (Row S E))
      → later ≤ now + seconds older
      → (claim_stranded_rows later is_working older
          (claim_stranded_rows now is_working older table).1).0
        ≡ (claim_stranded_rows later is_working older
            (select_where (λ r. not (stranded now is_working older r)) table)).0
  unfolding claim_stranded_rows update_where select_where
  sweep_again now later older is_working [] h = refl
  sweep_again now later older is_working (r ∷ rs) h =
      let rest = sweep_again now later older is_working rs h in
      elim (Bool-cases (stranded now is_working older r)) [
        | inl taken ↦ rw (taken, touched-not-stranded now later older is_working r h) rest
        | inr left ↦ rw left (elim (Bool-cases (stranded later is_working older r)) [
          | inl due ↦ rw due (ap (◌∷◌ (touched later r)) rest)
          | inr not_due ↦ rw not_due rest
        ])
      ]

  won_row :
      (q : Row S E → Bool) (f : Row S E → Row S E) (o : Option (Row S E)) (x : Row S E)
      → one_or_none (returned q f o) ≡ fetched (some x)
      → (r : Row S E) × (o ≡ some r) × (q r ≡ true) × (edited q f o ≡ some (f r))
  won_row q f none x h = cc
  won_row q f (some r) x h = (r, refl, ground arith, ground arith)

  -- A claim that was won found a claimable row, and left it claimed.
  pub claim_lease-won :
      (now k j w secs : ℕ) (gate : Row S E → Bool) (values : Row S E → S × Option String × E)
      (table : List (Row S E)) (x : Row S E)
      → HasKeys row_key table
      → (claim_lease now k j w secs gate values table).0 ≡ fetched (some x)
      → (r : Row S E) × (find row_key k table ≡ some r)
        × (claimable now j gate r ≡ true)
        × (find row_key k (claim_lease now k j w secs gate values table).1
            ≡ some (claimed now j w secs values r))
  unfolding claim_lease
  claim_lease-won now k j w secs gate values table x keys h =
      let f = claimed now j w secs values in
      let q = claimable now j gate in
      rw (find-update_where_self row_key q f k table (λ r. unfold claimed in refl)) (
        won_row q f (find row_key k table) x
          (sym (ap one_or_none (returned-update_where row_key q f k table keys)) ∙ h))

  returned-fetched :
      (q : Row S E → Bool) (f : Row S E → Row S E) (o : Option (Row S E))
      → (x : Option (Row S E)) × (one_or_none (returned q f o) ≡ fetched x)
  returned-fetched q f none = (none, refl)
  returned-fetched q f (some r) = elim (Bool-cases (q r)) [
    | inl hit ↦ (some (f r), rw hit)
    | inr miss ↦ (none, rw miss)
  ]

  -- On a table with distinct ids a release never meets two rows.
  pub release_lease-fetched :
      (now k job w : ℕ) (status : S) (error : Option String) (fields : Row S E → E)
      (table : List (Row S E))
      → HasKeys row_key table
      → (x : Option (Row S E)) × ((release_lease now k job w status error fields table).0
          ≡ fetched x)
  unfolding release_lease
  release_lease-fetched now k job w status error fields table keys =
      let f = finished now job status error fields in
      rw (returned-update_where row_key (held_by w true) f k table keys)
        (returned-fetched (held_by w true) f (find row_key k table))
