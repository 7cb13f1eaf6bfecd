-- ===== src/GrantCache/Runs.antt =====
-- Requests, changes and expiries in sequence, against a service without a cache.
use ask_repo.Prelude.{
  ℕ, ◌≡◌, refl, ap, ◌∙◌, Bool, true, Option, none, some, List, [], ◌∷◌, arith, ◌==◌, if◌then◌else◌,
}
use ask_repo.GrantCache.{
  Redis, bump_epoch, invalidate_user, key_for, load, or_zero, read, write, parsed, begin_load,
  begun_read, end_load, missed,
}
use ask_repo.GrantCache.Coherence.{
  Coherent, bump_epoch-Coherent, delete-Coherent, invalidate_user-Coherent, load-Coherent,
}

-- What happens around the cache. A change is committed before its eviction or its new epoch.
pub data CacheEvent (Grants : Type 0) : Type 0 where
  grants_loaded : Bool × Bool × Bool → ℕ → CacheEvent Grants
  user_changed : ℕ → Grants → CacheEvent Grants
  roles_changed : (ℕ → Grants) → CacheEvent Grants
  entry_expired : ℕ → ℕ → CacheEvent Grants

abbrev pub updated : {Grants : Type 0} → ℕ → Grants → (ℕ → Grants) → ℕ → Grants
updated u g db w = if u == w then g else db w

-- The service without a cache: what each load answers.
unfoldable pub answers_without_cache :
    {Grants : Type 0} → (ℕ → Grants) → List (CacheEvent Grants) → List Grants
answers_without_cache db [] = []
answers_without_cache db (grants_loaded reached u ∷ es) = db u ∷ answers_without_cache db es
answers_without_cache db (user_changed u g ∷ es) = answers_without_cache (updated u g db) es
answers_without_cache db (roles_changed db' ∷ es) = answers_without_cache db' es
answers_without_cache db (entry_expired e u ∷ es) = answers_without_cache db es

module _ {Grants Text : Type 0} (dumps : Grants → Text) (loads : Text → Option Grants)
    (redis : Redis Text) where
  -- The service with the cache. Expiry is the server's own DEL.
  unfoldable pub answers : (ℕ → Grants) → redis.State → List (CacheEvent Grants) → List Grants
  answers db s [] = []
  answers db s (grants_loaded reached u ∷ es) =
      let (g, t) = load dumps loads redis reached db u s in g ∷ answers db t es
  answers db s (user_changed u g ∷ es) =
      answers (updated u g db) (invalidate_user dumps loads redis (true, true) u s) es
  answers db s (roles_changed db' ∷ es) = answers db' (bump_epoch dumps loads redis true s) es
  answers db s (entry_expired e u ∷ es) = answers db (redis.delete e u s) es

  -- JSON reads back what it wrote, and the server starts without a contradicting entry: each entry of the
  -- current epoch is the database's or does not parse, and later epochs have none. Then in every sequence of
  -- loads, of changes of one user's grants that are followed by the eviction of the user, of changes of
  -- roles that are followed by a new epoch, and of expiries, each load answers what the database holds at that
  -- moment, whichever of its own calls fail to reach the server. The calls of an eviction and of a
  -- new epoch do reach it.
  pub answers_refine :
      (db : ℕ → Grants) (s : redis.State) (es : List (CacheEvent Grants))
      → ((g : Grants) → loads (dumps g) ≡ some g)
      → Coherent dumps loads redis db s
      → answers db s es ≡ answers_without_cache db es
  unfolding answers answers_without_cache
  answers_refine db s [] parses h = refl
  answers_refine db s (grants_loaded reached u ∷ es) parses h =
      let (own, kept) = load-Coherent dumps loads redis parses reached db u s h in
      ap (λ g. g ∷ answers db (load dumps loads redis reached db u s).1 es) own
      ∙ ap (λ gs. db u ∷ gs) (answers_refine db _ es parses kept)
  answers_refine db s (user_changed u g ∷ es) parses h =
      answers_refine (updated u g db) _ es parses (
        invalidate_user-Coherent dumps loads redis db (updated u g db) u s h
          (λ w n. ground (arith, n)))
  answers_refine db s (roles_changed db' ∷ es) parses h =
      answers_refine db' _ es parses (bump_epoch-Coherent dumps loads redis db db' s h)
  answers_refine db s (entry_expired e u ∷ es) parses h =
      answers_refine db _ es parses (delete-Coherent dumps loads redis db e u s h)

  -- JSON reads back what it wrote, and every call reaches the server. A load that finds the cache without an
  -- entry of the user reads the database, and writes its answer only after the user's grants have changed
  -- and the eviction is done. Then the next load answers with the
  -- grants before the change, whatever the database holds by then, and leaves the server as it was, so
  -- that every load after it does the same.
  pub late_write_stays :
      (old db : ℕ → Grants) (u : ℕ) (s : redis.State)
      → ((g : Grants) → loads (dumps g) ≡ some g)
      → redis.entry (or_zero (redis.epoch s)) u s ≡ none
      → let begun = begin_load dumps loads redis true true u s in
        let evicted = invalidate_user dumps loads redis (true, true) u s in
        let late = (end_load dumps loads redis begun true (old u) u evicted).1 in
        load dumps loads redis (true, true, true) db u late ≡ (old u, late)
  unfolding load begin_load end_load key_for read write invalidate_user
  late_write_stays old db u s parses empty =
      let d = or_zero (redis.epoch s) in
      let evicted = redis.delete d u s in
      let late = redis.set_entry d u (dumps (old u)) evicted in
      let now : or_zero (redis.epoch late) ≡ d =
        ap or_zero (redis.epoch-set_entry d u (dumps (old u)) evicted ∙ redis.epoch-delete d u s) in
      let found : parsed dumps loads redis (redis.entry (or_zero (redis.epoch late)) u late)
          ≡ some (old u) =
        ap (λ x. parsed dumps loads redis (redis.entry x u late)) now
        ∙ ap (parsed dumps loads redis) (redis.entry-set_entry d u (dumps (old u)) evicted)
        ∙ parses (old u) in
      let miss : begun_read dumps loads redis d (parsed dumps loads redis (redis.entry d u s))
          ≡ missed d =
        ap (λ o. begun_read dumps loads redis d (parsed dumps loads redis o)) empty in
      rw miss (
        ap
          (λ o.
            end_load dumps loads redis (begun_read dumps loads redis (or_zero (redis.epoch late)) o)
              true (db u) u late)
          found)
