-- ===== src/GrantCache.antt =====
-- backend/app/core/grant_cache.py: the cache of a user's grants in front of the membership query. The
-- Redis server is a parameter with its documented laws, `json.dumps` and `json.loads` are parameters, and
-- so is the answer of `MembershipRepository.load_grants`, a function of the user. A key holds the epoch
-- and the user; the schema's version in it is a constant. Each call of Redis is given with whether it
-- reaches the server.
mod Examples
pub mod Coherence
pub mod Runs
use ask_repo.Prelude.{ℕ, suc, ◌≡◌, ◌≢◌, ◌⊎◌, Bool, Option, none, some, if◌then◌else◌}

-- `raw_epoch or "0"`.
abbrev pub or_zero : Option ℕ → ℕ
or_zero none = 0
or_zero (some e) = e

-- The commands that the cache uses, on a server that answers. `epoch` is GET on the epoch's key, `entry`
-- GET, `set_entry` SET and `delete` DEL on a user's key of an epoch, and `incr` INCR on the epoch's key.
pub record Redis (Text : Type 0) : Type 1 where
  pub State : Type 0
  pub epoch : State → Option ℕ
  pub entry : ℕ → ℕ → State → Option Text
  pub set_entry : ℕ → ℕ → Text → State → State
  pub delete : ℕ → ℕ → State → State
  pub incr : State → State
  pub entry-set_entry : (e u : ℕ) (v : Text) (s : State) → entry e u (set_entry e u v s) ≡ some v
  pub entry-set_entry_other :
      (e u d w : ℕ) (v : Text) (s : State)
      → (e ≢ d) ⊎ (u ≢ w)
      → entry e u (set_entry d w v s) ≡ entry e u s
  pub entry-delete : (e u : ℕ) (s : State) → entry e u (delete e u s) ≡ none
  pub entry-delete_other :
      (e u d w : ℕ) (s : State) → (e ≢ d) ⊎ (u ≢ w) → entry e u (delete d w s) ≡ entry e u s
  pub entry-incr : (e u : ℕ) (s : State) → entry e u (incr s) ≡ entry e u s
  pub epoch-set_entry : (e u : ℕ) (v : Text) (s : State) → epoch (set_entry e u v s) ≡ epoch s
  pub epoch-delete : (e u : ℕ) (s : State) → epoch (delete e u s) ≡ epoch s
  pub epoch-incr : (s : State) → epoch (incr s) ≡ some (suc (or_zero (epoch s)))

-- A call of `load` that has not queried the database.
pub data BegunLoad (Grants : Type 0) : Type 0 where
  answered : Grants → BegunLoad Grants
  missed : ℕ → BegunLoad Grants
  unkeyed : BegunLoad Grants

module _ {Grants Text : Type 0} (dumps : Grants → Text) (loads : Text → Option Grants)
    (redis : Redis Text) where
  -- `_key_for`: the epoch of the key, or `none` when Redis is out of reach.
  unfoldable pub key_for : Bool → redis.State → Option ℕ
  key_for reached s = if reached then some (or_zero (redis.epoch s)) else none

  abbrev pub parsed : Option Text → Option Grants
  parsed none = none
  parsed (some v) = loads v

  -- `_read`.
  unfoldable pub read : Bool → ℕ → ℕ → redis.State → Option Grants
  read reached e user_id s = if reached then parsed (redis.entry e user_id s) else none

  -- `_write`.
  unfoldable pub write : Bool → ℕ → ℕ → Grants → redis.State → redis.State
  write reached e user_id grants s =
      if reached then redis.set_entry e user_id (dumps grants) s else s

  -- `load` up to its query: without a key, with what the cache gave, or with the key that it missed.
  abbrev pub begun_read : ℕ → Option Grants → BegunLoad Grants
  begun_read e (some cached) = answered cached
  begun_read e none = missed e

  abbrev pub begun_keyed : Option ℕ → Bool → ℕ → redis.State → BegunLoad Grants
  begun_keyed none read_reached user_id s = unkeyed
  begun_keyed (some e) read_reached user_id s = begun_read e (read read_reached e user_id s)

  unfoldable pub begin_load : Bool → Bool → ℕ → redis.State → BegunLoad Grants
  unfolding key_for
  begin_load epoch_reached read_reached user_id s =
      begun_keyed (key_for epoch_reached s) read_reached user_id s

  -- `load` from its query on, with the query's answer. Others may run between the two.
  unfoldable pub end_load :
      BegunLoad Grants → Bool → Grants → ℕ → redis.State → Grants × redis.State
  end_load (answered cached) write_reached grants user_id s = (cached, s)
  end_load (missed e) write_reached grants user_id s =
      (grants, write write_reached e user_id grants s)
  end_load unkeyed write_reached grants user_id s = (grants, s)

  -- `load` with nothing in between. The three flags are for its calls of Redis: the epoch, the read, the
  -- write.
  unfoldable pub load : Bool × Bool × Bool → (ℕ → Grants) → ℕ → redis.State → Grants × redis.State
  unfolding begin_load end_load
  load reached load_grants user_id s =
      end_load (begin_load reached.0 reached.1 user_id s) reached.2 (load_grants user_id) user_id s

  abbrev pub delete_keyed : Option ℕ → Bool → ℕ → redis.State → redis.State
  delete_keyed none reached user_id s = s
  delete_keyed (some e) reached user_id s = if reached then redis.delete e user_id s else s

  unfoldable pub invalidate_user : Bool × Bool → ℕ → redis.State → redis.State
  unfolding key_for
  invalidate_user reached user_id s = delete_keyed (key_for reached.0 s) reached.1 user_id s

  unfoldable pub bump_epoch : Bool → redis.State → redis.State
  bump_epoch reached s = if reached then redis.incr s else s
