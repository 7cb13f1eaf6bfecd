-- ===== src/GrantCache/Coherence.antt =====
-- A cache that agrees with the database, and what keeps it so.
use mathlib.Core.Path.{subst}
use ask_repo.Prelude.{
  ℕ, suc, ◌≤◌, ◌≡◌, refl, sym, ap, ◌∙◌, ◌≢◌, ◌⊎◌, inl, inr, Bool, true, false, Option, none, some,
  arith, ◌==◌, ==_iff, Bool-cases,
}
use ask_repo.GrantCache.{
  Redis, bump_epoch, invalidate_user, key_for, load, or_zero, parsed, read, write, begun_read,
  end_load,
}

split_on : (a b : ℕ) → (a ≡ b) ⊎ (a ≢ b)
split_on a b = elim (Bool-cases (a == b)) [
  | inl same ↦ inl ((==_iff a b).0 same)
  | inr other ↦ inr (λ e. ground (arith, (==_iff a b).1 e))
]

module _ {Grants Text : Type 0} (dumps : Grants → Text) (loads : Text → Option Grants)
    (redis : Redis Text) where
  -- Each entry of epoch `d` is the database's, or does not parse, and later epochs have no entries.
  abbrev pub CoherentAt : ℕ → (ℕ → Grants) → redis.State → Type 0
  CoherentAt d db s =
      ((u : ℕ) (v : Text) → redis.entry d u s ≡ some v → (loads v ≡ none) ⊎ (loads v ≡ some (db u)))
      × ((e u : ℕ) → suc d ≤ e → redis.entry e u s ≡ none)

  -- At the current epoch.
  abbrev pub Coherent : (ℕ → Grants) → redis.State → Type 0
  Coherent db s = CoherentAt (or_zero (redis.epoch s)) db s

  -- A command that leaves the epoch.
  same_epoch :
      (db : ℕ → Grants) (s t : redis.State)
      → redis.epoch t ≡ redis.epoch s
      → CoherentAt (or_zero (redis.epoch s)) db t
      → Coherent db t
  same_epoch db s t e h = subst (λ d. CoherentAt (or_zero d) db t) (sym e) h

  -- What a read of the cache finds is the database's.
  parsed-own :
      (db : ℕ → Grants) (u : ℕ) (o : Option Text) (g : Grants)
      → ((v : Text) → o ≡ some v → (loads v ≡ none) ⊎ (loads v ≡ some (db u)))
      → parsed dumps loads redis o ≡ some g
      → g ≡ db u
  parsed-own db u none g h e = cc
  parsed-own db u (some v) g h e = elim (h v refl) [ inl bad ↦ cc | inr good ↦ cc ]

  read-own :
      (reached : Bool) (db : ℕ → Grants) (u : ℕ) (s : redis.State) (g : Grants)
      → Coherent db s
      → read dumps loads redis reached (or_zero (redis.epoch s)) u s ≡ some g
      → g ≡ db u
  unfolding read
  read-own false db u s g h e = cc
  read-own true db u s g h e = parsed-own db u _ g (h.0 u) e

  -- A change of one user's grants, followed by the eviction of that user.
  pub invalidate_user-Coherent :
      (db db' : ℕ → Grants) (u : ℕ) (s : redis.State)
      → Coherent db s
      → ((w : ℕ) → u ≢ w → db' w ≡ db w)
      → Coherent db' (invalidate_user dumps loads redis (true, true) u s)
  unfolding invalidate_user key_for
  invalidate_user-Coherent db db' u s h same =
      let d = or_zero (redis.epoch s) in
      let kept : (w : ℕ) (v : Text)
          → redis.entry d w (redis.delete d u s) ≡ some v
          → (loads v ≡ none) ⊎ (loads v ≡ some (db' w)) =
        λ w v at. elim (split_on u w) [
          | inl e ↦
              let gone : redis.entry d w (redis.delete d u s) ≡ none =
                ap (λ x. redis.entry d x (redis.delete d u s)) (sym e) ∙ redis.entry-delete d u s in
              cc (gone, at)
          | inr n ↦
              subst (λ g. (loads v ≡ none) ⊎ (loads v ≡ some g)) (sym (same w n))
                (h.0 w v (sym (redis.entry-delete_other d w d u s (inr (λ x. n (sym x)))) ∙ at))
        ] in
      same_epoch db' s _ (redis.epoch-delete d u s) (
        kept,
        λ e w le. redis.entry-delete_other e w d u s (inl (λ h. omega (arith, le, h))) ∙ h.1 e w le,
      )

  -- Any change, followed by a new epoch.
  pub bump_epoch-Coherent :
      (db db' : ℕ → Grants) (s : redis.State)
      → Coherent db s
      → Coherent db' (bump_epoch dumps loads redis true s)
  unfolding bump_epoch
  bump_epoch-Coherent db db' s h =
      let d = or_zero (redis.epoch s) in
      let empty : (e w : ℕ) → suc d ≤ e → redis.entry e w (redis.incr s) ≡ none =
        λ e w le. redis.entry-incr e w s ∙ h.1 e w le in
      subst (λ o. CoherentAt (or_zero o) db' (redis.incr s)) (sym (redis.epoch-incr s))
        (
          λ w v at. let gone = empty (suc d) w (omega arith) in cc (gone, at),
          λ e w le. empty e w (omega (arith, le)),
        )

  delete_cases :
      (e w d u : ℕ) (s : redis.State)
      → (redis.entry e w (redis.delete d u s) ≡ none)
        ⊎ (redis.entry e w (redis.delete d u s) ≡ redis.entry e w s)
  delete_cases e w d u s = elim (split_on e d) [
    | inr n ↦ inr (redis.entry-delete_other e w d u s (inl n))
    | inl same ↦ elim (split_on w u) [
      | inr n ↦ inr (redis.entry-delete_other e w d u s (inr n))
      | inl own ↦ inl (
          ap (λ x. redis.entry x w (redis.delete d u s)) same
          ∙ ap (λ x. redis.entry d x (redis.delete d u s)) own
          ∙ redis.entry-delete d u s)
    ]
  ]

  -- An entry that goes away.
  pub delete-Coherent :
      (db : ℕ → Grants) (d u : ℕ) (s : redis.State)
      → Coherent db s
      → Coherent db (redis.delete d u s)
  delete-Coherent db d u s h =
      let c = or_zero (redis.epoch s) in
      let kept : (w : ℕ) (v : Text)
          → redis.entry c w (redis.delete d u s) ≡ some v
          → (loads v ≡ none) ⊎ (loads v ≡ some (db w)) =
        λ w v at. elim (delete_cases c w d u s) [
          | inl gone ↦ cc (gone, at)
          | inr same ↦ h.0 w v (sym same ∙ at)
        ] in
      let later : (e w : ℕ) → suc c ≤ e → redis.entry e w (redis.delete d u s) ≡ none = λ e w le.
        elim (delete_cases e w d u s) [ inl gone ↦ gone | inr same ↦ same ∙ h.1 e w le ] in
      same_epoch db s _ (redis.epoch-delete d u s) (kept, later)

  module _ (parses : (g : Grants) → loads (dumps g) ≡ some g) where
    set_entry-Coherent :
        (db : ℕ → Grants) (u : ℕ) (s : redis.State)
        → Coherent db s
        → Coherent db (redis.set_entry (or_zero (redis.epoch s)) u (dumps (db u)) s)
    set_entry-Coherent db u s h =
        let d = or_zero (redis.epoch s) in
        let kept : (w : ℕ) (v : Text)
            → redis.entry d w (redis.set_entry d u (dumps (db u)) s) ≡ some v
            → (loads v ≡ none) ⊎ (loads v ≡ some (db w)) =
          λ w v at. elim (split_on u w) [
            | inl e ↦
                let stored : redis.entry d w (redis.set_entry d u (dumps (db u)) s)
                    ≡ some (dumps (db u)) =
                  ap (λ x. redis.entry d x (redis.set_entry d u (dumps (db u)) s)) (sym e)
                  ∙ redis.entry-set_entry d u (dumps (db u)) s in
                let text : dumps (db u) ≡ v = cc (stored, at) in
                inr (ap loads (sym text) ∙ parses (db u) ∙ ap (λ x. some (db x)) e)
            | inr n ↦
                h.0 w v (sym (redis.entry-set_entry_other d w d u _ s (inr (λ x. n (sym x)))) ∙ at)
          ] in
        same_epoch db s _ (redis.epoch-set_entry d u (dumps (db u)) s) (
          kept,
          λ e w le.
              redis.entry-set_entry_other e w d u _ s (inl (λ h. omega (arith, le, h)))
              ∙ h.1 e w le,
        )

    write-Coherent :
        (reached : Bool) (db : ℕ → Grants) (u : ℕ) (s : redis.State)
        → Coherent db s
        → Coherent db (write dumps loads redis reached (or_zero (redis.epoch s)) u (db u) s)
    unfolding write
    write-Coherent false db u s h = h
    write-Coherent true db u s h = set_entry-Coherent db u s h

    -- A load that has read `o`.
    loaded-Coherent :
        (o : Option Grants) (reached : Bool) (db : ℕ → Grants) (u : ℕ) (s : redis.State)
        → Coherent db s
        → ((g : Grants) → o ≡ some g → g ≡ db u)
        → let begun = begun_read dumps loads redis (or_zero (redis.epoch s)) o in
          let (g, t) = end_load dumps loads redis begun reached (db u) u s in
          (g ≡ db u) × Coherent db t
    unfolding end_load
    loaded-Coherent none reached db u s h own = (refl, write-Coherent reached db u s h)
    loaded-Coherent (some g) reached db u s h own = (own g refl, h)

    pub load-Coherent :
        (reached : Bool × Bool × Bool) (db : ℕ → Grants) (u : ℕ) (s : redis.State)
        → Coherent db s
        → ((load dumps loads redis reached db u s).0 ≡ db u)
          × Coherent db (load dumps loads redis reached db u s).1
    unfolding load key_for
    load-Coherent (false, b, c) db u s h = (refl, h)
    load-Coherent (true, b, c) db u s h =
        loaded-Coherent _ c db u s h (λ g e. read-own b db u s g h e)
