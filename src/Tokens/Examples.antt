-- ===== src/Tokens/Examples.antt =====
-- A replay at concrete inputs.
use ask_repo.Prelude.{ℕ, ◌≡◌, refl, true, none, some, List, [], ◌∷◌, arith}
use ask_repo.Table.{first_row, update_where}
use ask_repo.Jobs.Lease.{seconds}
use ask_repo.Tokens.{
  RefreshToken, Request, Settings, Store, TokenError, denied, load_token, get_by_hash, refresh,
  refresh_loaded, refresh_token, refresh_used, revoke_family, rotated, serve_all, serve, waits,
  logs_in, issue, replay,
}
use ask_repo.Tokens.Logout.{logout_reopened}
use ask_repo.Tokens.{issued, logout}
use ask_repo.Tokens.Replay.{replay_ends_session}

abbrev settings : Settings
settings = record { ttl_seconds = 1000; grace_seconds = 30 }

-- The token 21 was exchanged for 22.
abbrev parent : RefreshToken
parent = record {
  id = 1;
  user_id = 3;
  family_id = 9;
  token_hash = 21;
  issued_at = 0;
  expires_at = seconds 1000;
  used_at = some (seconds 10);
  revoked_at = none;
  revoked_reason = some rotated;
}

abbrev child : RefreshToken
child = record {
  id = 2;
  user_id = 3;
  family_id = 9;
  token_hash = 22;
  issued_at = seconds 10;
  expires_at = seconds 1010;
  used_at = none;
  revoked_at = none;
  revoked_reason = none;
}

abbrev rotated_store : Store
rotated_store = record { clock = seconds 100; tokens = parent ∷ child ∷ [] }

abbrev later : List Request
later = waits (seconds 5) ∷ logs_in 3 8 3 23 ∷ []

abbrev revoked_child : RefreshToken
revoked_child = record child { revoked_at = some (seconds 100); revoked_reason = some replay }

replay_ends_session_example :
    (e : TokenError) × ((refresh settings
        (λ u. true)
        5
        25
        (some 22)
        (serve_all settings
          (λ u. true)
          later
          (refresh settings (λ u. true) 4 24 (some 21) rotated_store).1)).0
      ≡ denied e)
unfolding load_token get_by_hash first_row refresh refresh_loaded refresh_token refresh_used
    revoke_family update_where serve_all serve issue
replay_ends_session_example =
    replay_ends_session settings (λ u. true) 4 24 (some 21) parent rotated_store later 5 25
      (some 22) revoked_child refl refl (tt, ((λ (e : ◌≡◌ {A = ℕ} 8 9). absurd (omega arith)), tt))
      refl refl

abbrev raced_store : Store
raced_store = record { clock = seconds 20; tokens = parent ∷ child ∷ [] }

logout_reopened_example :
    (refresh settings (λ u. true) 4 24 (some 21) (logout (some 22) raced_store)).0 ≡ issued 24
unfolding load_token get_by_hash first_row
logout_reopened_example =
    logout_reopened settings (λ u. true) 4 24 21 22 (seconds 10) parent child raced_store refl refl
      (λ (e : ◌≡◌ {A = ℕ} 1 2). absurd (omega arith)) refl refl (omega arith) (omega arith) refl
