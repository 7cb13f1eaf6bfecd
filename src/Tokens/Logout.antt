-- ===== src/Tokens/Logout.antt =====
-- What a logout leaves open.
use ask_repo.Prelude.{
  ℕ, ◌+◌, ◌≤◌, ◌<◌, ◌≡◌, refl, ap, ◌∙◌, ◌≢◌, inl, inr, Bool, true, false, none, some, List, [], ◌∷◌,
  arith, ◌==◌, is_none, Bool-cases,
}
use ask_repo.Table.{first_row, update_where}
use ask_repo.Jobs.Lease.{seconds}
use ask_repo.Tokens.{
  by_logout, RefreshToken, Settings, Store, get_by_hash, issue, issued, load_token, logout,
  logout_loaded, refresh, refresh_loaded, refresh_token, refresh_used, revoke_one, revoked,
}

-- A write to other rows than the one that is found.
first_row-update_where :
    {R : Type 0} (p q : R → Bool) (f : R → R) (rs : List R) (r : R)
    → ((s : R) → p (f s) ≡ p s)
    → q r ≡ false
    → first_row p rs ≡ some r
    → first_row p (update_where q f rs).0 ≡ some r
unfolding first_row update_where
first_row-update_where p q f [] r same spared found = cc
first_row-update_where p q f (s ∷ rs) r same spared found =
    ground (arith, same s, first_row-update_where p q f rs r same spared)

module _ (settings : Settings) (is_live : ℕ → Bool) where
  load_token-revoke_one :
      (hash : ℕ) (t c : RefreshToken) (s : Store)
      → load_token (some hash) s ≡ some t
      → t.id ≢ c.id
      → load_token (some hash) (revoke_one c by_logout s) ≡ some t
  unfolding load_token get_by_hash revoke_one
  load_token-revoke_one hash t c s found other = elim (Bool-cases (is_none c.revoked_at)) [
    | inl unrevoked ↦ rw unrevoked (
        first_row-update_where _ (λ r. r.id == c.id) (revoked by_logout s.clock) s.tokens t
          (λ r. refl) (ground (arith, other)) found)
    | inr gone ↦ rw gone found
  ]

  revoke_one-clock : (c : RefreshToken) (s : Store) → (revoke_one c by_logout s).clock ≡ s.clock
  unfolding revoke_one
  revoke_one-clock c s = ground arith

  raced_issues :
      (new_id new_hash u : ℕ) (t : RefreshToken) (s : Store)
      → t.revoked_at ≡ none
      → t.used_at ≡ some u
      → s.clock ≤ u + seconds settings.grace_seconds
      → s.clock < t.expires_at
      → is_live t.user_id ≡ true
      → (refresh_token settings is_live new_id new_hash t s).0 ≡ issued new_hash
  unfolding refresh_token refresh_used issue
  raced_issues new_id new_hash u t s open_token used raced fresh live =
      rw used (ground (arith, open_token, raced, fresh, live))

  -- A logout ends the presented token alone. Within the grace window of the last rotation, the token that
  -- was exchanged for it, if it has not expired, still buys a new one, and so reopens the sign-in.
  pub logout_reopened :
      (new_id new_hash hash hash' u : ℕ) (t c : RefreshToken) (s : Store)
      → load_token (some hash) s ≡ some t
      → load_token (some hash') s ≡ some c
      → t.id ≢ c.id
      → t.revoked_at ≡ none
      → t.used_at ≡ some u
      → s.clock ≤ u + seconds settings.grace_seconds
      → s.clock < t.expires_at
      → is_live t.user_id ≡ true
      → (refresh settings is_live new_id new_hash (some hash) (logout (some hash') s)).0
        ≡ issued new_hash
  unfolding refresh refresh_loaded logout logout_loaded
  logout_reopened new_id new_hash hash hash' u t c s found found' other open_token used raced fresh
        live =
      let s1 = revoke_one c by_logout s in
      let at : logout (some hash') s ≡ s1 = ap (λ o. logout_loaded o s) found' in
      let same = revoke_one-clock c s in
      ap (λ x. (refresh settings is_live new_id new_hash (some hash) x).0) at
      ∙ (ap (λ o. (refresh_loaded settings is_live new_id new_hash o s1).0)
            (load_token-revoke_one hash t c s found other)
          ∙ raced_issues new_id new_hash u t s1 open_token used (omega (arith, same, raced))
              (omega (arith, same, fresh)) live)
