-- ===== src/Tokens/Replay.antt =====
-- A token that is presented again.
use mathlib.Core.Path.{subst}
use ask_repo.Prelude.{
  ℕ, ◌≡◌, refl, sym, ap, ◌∙◌, ◌≢◌, inl, inr, Bool, false, Option, some, List, arith, All, leb,
  is_none, Bool-cases, Option-cases,
}
use ask_repo.Tokens.{
  Exchange, RefreshToken, Request, Settings, Store, TokenError, denied, issue, load_token, refresh,
  refresh_loaded, refresh_token, refresh_token_reused, refresh_unused, refresh_used, replay,
  revoke_family, serve_all, token_expired,
}
use ask_repo.Tokens.Families.{
  FamilyDead, IsForeign, loaded-IsDead, revoke_family-FamilyDead, serve_all-FamilyDead,
}

module _ (settings : Settings) (is_live : ℕ → Bool) where
  -- A revoked token is refused.
  dead_denied :
      (new_id new_hash : ℕ) (t : RefreshToken) (s : Store)
      → is_none t.revoked_at ≡ false
      → (e : TokenError) × ((refresh_token settings is_live new_id new_hash t s).0 ≡ denied e)
  unfolding refresh_token
  dead_denied new_id new_hash t s gone = elim (Bool-cases (leb t.expires_at s.clock)) [
    | inl stale ↦ (token_expired, rw stale refl)
    | inr fresh ↦ (refresh_token_reused, rw (fresh, gone) refl)
  ]

  unused_reused :
      (new_id new_hash : ℕ) (t : RefreshToken) (s : Store)
      → (refresh_unused settings is_live new_id new_hash t s).0 ≢ denied refresh_token_reused
  unfolding refresh_unused issue
  unused_reused new_id new_hash t s e = ground (arith, e)

  used_reused :
      (new_id new_hash u : ℕ) (t : RefreshToken) (s : Store)
      → (refresh_used settings is_live new_id new_hash t u s).0 ≡ denied refresh_token_reused
      → (refresh_used settings is_live new_id new_hash t u s).1 ≡ revoke_family t.family_id replay s
  unfolding refresh_used issue
  used_reused new_id new_hash u t s e = ground (arith, e)

  -- A refusal for reuse revokes the family of the token.
  reused_revokes :
      (new_id new_hash : ℕ) (t : RefreshToken) (s : Store)
      → (refresh_token settings is_live new_id new_hash t s).0 ≡ denied refresh_token_reused
      → (refresh_token settings is_live new_id new_hash t s).1 ≡ revoke_family t.family_id replay s
  unfolding refresh_token
  reused_revokes new_id new_hash t s e = elim (Option-cases t.used_at) [
    | inl unused ↦ ground (arith, e, unused, unused_reused new_id new_hash t s)
    | inr (u, used) ↦ ground (arith, e, used, used_reused new_id new_hash u t s)
  ]

  -- Once a token has been refused as reused, its sign-in is over: whatever requests follow, by anyone and
  -- at any time, as long as logins open other families, each refresh with a token of that family is
  -- refused.
  pub replay_ends_session :
      (new_id new_hash : ℕ) (presented : Option ℕ) (t : RefreshToken) (s : Store)
      (rs : List Request) (id' hash' : ℕ) (presented' : Option ℕ) (t' : RefreshToken)
      → load_token presented s ≡ some t
      → (refresh settings is_live new_id new_hash presented s).0 ≡ denied refresh_token_reused
      → All (IsForeign settings is_live t.family_id) rs
      → load_token presented'
          (serve_all settings is_live rs (refresh settings is_live new_id new_hash presented s).1)
        ≡ some t'
      → t'.family_id ≡ t.family_id
      → (e : TokenError) × ((refresh settings is_live id' hash' presented' (
            serve_all settings is_live rs
              (refresh settings is_live new_id new_hash presented s).1)).0
          ≡ denied e)
  unfolding refresh refresh_loaded
  replay_ends_session new_id new_hash presented t s rs id' hash' presented' t' found reused others
        found' same =
      let at : refresh settings is_live new_id new_hash presented s
          ≡ refresh_token settings is_live new_id new_hash t s =
        ap (λ o. refresh_loaded settings is_live new_id new_hash o s) found in
      let after = (refresh settings is_live new_id new_hash presented s).1 in
      let gone : after ≡ revoke_family t.family_id replay s =
        ap (λ (x : Exchange × Store). x.1) at
        ∙ reused_revokes new_id new_hash t s
            (sym (ap (λ (x : Exchange × Store). x.0) at) ∙ reused) in
      let dead : FamilyDead t.family_id after =
        subst (FamilyDead t.family_id) (sym gone) (revoke_family-FamilyDead t.family_id replay s) in
      let dead' = serve_all-FamilyDead settings is_live t.family_id rs after others dead in
      let (e, refused_with) = dead_denied id' hash' t' (serve_all settings is_live rs after) (
        loaded-IsDead settings is_live t.family_id presented' (serve_all settings is_live rs after)
          t' dead' found' same) in
      (
        e,
        ap (λ (x : Exchange × Store). x.0)
              (ap
                (λ o.
                  refresh_loaded settings is_live id' hash' o (serve_all settings is_live rs after))
                found')
            ∙ refused_with,
      )
