-- ===== src/RateLimit.antt =====
-- backend/app/core/rate_limit.py: the caller's address, and the counters of attempts. The Redis server
-- is a parameter with its documented laws. An entry's time to live is the length of its window, counted
-- from the last hit, so no entry expires before its window ends: the counters of a window only grow, unless
-- they are reset. `strip` and `split` are the methods of `str`, and `normal` is `email.strip().lower()`. Time is in
-- whole seconds. Each call is given with whether it reaches the server.
mod Examples
pub mod Address
pub mod Counting
pub mod Lockout
use Prim.Native.String.{String}
use Prim.Native.String.{[] as empty_text, ◌∷◌ as ◌∷∷◌, ◌++◌ as ◌^^◌}
use ask_repo.Prelude.{
  ℕ, suc, ◌-◌, ◌/◌, ◌≡◌, ◌≢◌, ◌⊎◌, Bool, Option, none, some, List, [], ◌∷◌, map, length, get_or,
  ltb, leb, if◌then◌else◌,
}
use ask_repo.Access.{Call, ensure, ok, rate_limited}

-- The entries that are not blank.
unfoldable pub not_blank : List String → List String
not_blank [] = []
not_blank (empty_text ∷ ts) = not_blank ts
not_blank ((c ∷∷ cs) ∷ ts) = (c ∷∷ cs) ∷ not_blank ts

-- `request.client.host if request.client else "unknown"`.
abbrev pub peer_of : Option String → String
peer_of none = "unknown"
peer_of (some host) = host

-- The entry `hops` from the right, if there are so many.
unfoldable pub counted_from_right : ℕ → String → List String → String
counted_from_right hops peer entries =
    if ltb (length entries) hops then peer else get_or entries (length entries - hops) peer

module _ (strip : String → String) (split : String → List String) where
  -- `[entry.strip() for entry in forwarded.split(",") if entry.strip()]`.
  unfoldable pub entries_of : String → List String
  unfolding not_blank
  entries_of forwarded = not_blank (map strip (split forwarded))

  abbrev pub forwarded_address : ℕ → String → Option String → String
  forwarded_address hops peer none = peer
  forwarded_address hops peer (some empty_text) = peer
  forwarded_address hops peer (some (c ∷∷ cs)) = counted_from_right hops peer (entries_of (c ∷∷ cs))

  unfoldable pub client_ip : Option String → Option String → ℕ → String
  client_ip client forwarded trusted_proxy_hops =
      if leb trusted_proxy_hops 0
      then peer_of client
      else forwarded_address trusted_proxy_hops (peer_of client) forwarded

-- The commands on counters: GET of a key and a window, with 0 for a missing one, INCR and DEL.
pub record Counters : Type 1 where
  pub State : Type 0
  pub count : String → ℕ → State → ℕ
  pub incr : String → ℕ → State → State
  pub delete : String → ℕ → State → State
  pub count-incr : (k : String) (w : ℕ) (s : State) → count k w (incr k w s) ≡ suc (count k w s)
  pub count-incr_other :
      (k j : String) (w v : ℕ) (s : State)
      → (k ≢ j) ⊎ (w ≢ v)
      → count k w (incr j v s) ≡ count k w s
  pub count-delete : (k : String) (w : ℕ) (s : State) → count k w (delete k w s) ≡ 0

module _ (redis : Counters) where
  -- `hit`, with the window of `_windowed_key`.
  unfoldable pub hit : Bool → String → ℕ → ℕ → ℕ → redis.State → Call (Unit {0}) × redis.State
  hit reached key limit window_seconds now s =
      let window = now / window_seconds in
      let t = redis.incr key window s in
      if reached
      then (ensure (leb (redis.count key window t) limit) rate_limited, t)
      else (ok tt, s)

  unfoldable pub get_count : Bool → String → ℕ → ℕ → redis.State → ℕ
  get_count reached key window_seconds now s =
      if reached then redis.count key (now / window_seconds) s else 0

  unfoldable pub reset : Bool → String → ℕ → ℕ → redis.State → redis.State
  reset reached key window_seconds now s =
      if reached then redis.delete key (now / window_seconds) s else s

  unfoldable pub enforce_login_ip_limit :
      Bool → String → ℕ → ℕ → redis.State → Call (Unit {0}) × redis.State
  unfolding hit
  enforce_login_ip_limit reached address limit now s =
      hit reached ("rl:login:ip:" ^^ address) limit 60 now s

  unfoldable pub enforce_password_change_ip_limit :
      Bool → String → ℕ → ℕ → redis.State → Call (Unit {0}) × redis.State
  unfolding hit
  enforce_password_change_ip_limit reached address limit now s =
      hit reached ("rl:pwchange:ip:" ^^ address) limit 60 now s

  unfoldable pub enforce_password_reset_ip_limit :
      Bool → String → ℕ → ℕ → redis.State → Call (Unit {0}) × redis.State
  unfolding hit
  enforce_password_reset_ip_limit reached address limit now s =
      hit reached ("rl:pwreset:ip:" ^^ address) limit 3600 now s

  -- `LoginAttemptLimiter`, for one address.
  module _ (normal : String → String) where
    unfoldable pub email_key : String → String
    email_key email = "rl:login:email:" ^^ normal email

    unfoldable pub enforce_password_reset_email_limit :
        Bool → String → ℕ → ℕ → redis.State → Call (Unit {0}) × redis.State
    unfolding hit
    enforce_password_reset_email_limit reached email limit now s =
        hit reached ("rl:pwreset:email:" ^^ normal email) limit 3600 now s

    unfoldable pub check_email : Bool → String → ℕ → ℕ → redis.State → Call (Unit {0})
    unfolding get_count email_key
    check_email reached email limit now s =
        ensure (ltb (get_count reached (email_key email) 3600 now s) limit) rate_limited

    -- The error of `hit` is caught.
    unfoldable pub record_failure : Bool → String → ℕ → ℕ → redis.State → redis.State
    unfolding hit email_key
    record_failure reached email limit now s = (hit reached (email_key email) limit 3600 now s).1

    unfoldable pub clear : Bool → String → ℕ → redis.State → redis.State
    unfolding reset email_key
    clear reached email now s = reset reached (email_key email) 3600 now s
