-- ===== src/RateLimit/Lockout.antt =====
-- The failed sign-ins of one address.
use Prim.Native.String.{String}
use ask_repo.Prelude.{ℕ, suc, ◌+◌, ◌/◌, ◌≡◌, ap, ◌∙◌, true, List, [], ◌∷◌, arith, length, All, ltb}
use ask_repo.Access.{ensure, rate_limited}
use ask_repo.RateLimit.{
  Counters, check_email, clear, email_key, get_count, hit, record_failure, reset,
}

module _ (redis : Counters) (normal : String → String) (email : String) (limit : ℕ) where
  -- Failures at the given times.
  unfoldable pub failures : List ℕ → redis.State → redis.State
  failures [] s = s
  failures (now ∷ nows) s = failures nows (record_failure redis normal true email limit now s)

  count-failures :
      (hour : ℕ) (nows : List ℕ) (s : redis.State)
      → All (λ now. now / 3600 ≡ hour) nows
      → redis.count (email_key redis normal email) hour (failures nows s)
        ≡ length nows + redis.count (email_key redis normal email) hour s
  unfolding failures record_failure hit
  count-failures hour [] s h = omega arith
  count-failures hour (now ∷ nows) s h =
      let key = email_key redis normal email in
      let one : redis.count key hour (redis.incr key (now / 3600) s)
          ≡ suc (redis.count key hour s) =
        ap (λ w. redis.count key hour (redis.incr key w s)) h.0 ∙ redis.count-incr key hour s in
      omega (arith, one, count-failures hour nows (redis.incr key (now / 3600) s) h.1)

  -- After a success has cleared an address and failures have followed in the same hour, with the server
  -- in reach all along, the next check of that hour refuses exactly when the failures are as many as the limit.
  check_email_lem :
      (hour cleared now : ℕ) (nows : List ℕ) (s : redis.State)
      → cleared / 3600 ≡ hour
      → now / 3600 ≡ hour
      → All (λ now. now / 3600 ≡ hour) nows
      → check_email redis normal true email limit now
          (failures nows (clear redis normal true email cleared s))
        ≡ ensure (ltb (length nows) limit) rate_limited
  unfolding check_email get_count clear reset
  check_email_lem hour cleared now nows s e f h =
      let key = email_key redis normal email in
      let start : redis.count key hour (redis.delete key (cleared / 3600) s) ≡ 0 =
        ap (λ w. redis.count key hour (redis.delete key w s)) e ∙ redis.count-delete key hour s in
      let total : redis.count key hour (failures nows (redis.delete key (cleared / 3600) s))
          ≡ length nows =
        omega (arith, start, count-failures hour nows (redis.delete key (cleared / 3600) s) h) in
      ap
        (λ w.
          ensure
            (ltb (redis.count key w (failures nows (redis.delete key (cleared / 3600) s))) limit)
            rate_limited)
        f
      ∙ ap (λ n. ensure (ltb n limit) rate_limited) total
