-- ===== src/PasswordReset/Examples.antt =====
-- Two links of one account.
use ask_repo.Prelude.{ℕ, ◌+◌, ◌≡◌, refl, true, false, Option, none, some, [], ◌∷◌, ltb}
use ask_repo.Table.{find, first_row}
use ask_repo.Access.{Call, ensure, ok, password_reset_token_invalid, raised, weak_password, ◌>>◌}
use ask_repo.PasswordReset.{
  Account, Accounts, ResetToken, confirm, get_account, get_account_by_email, get_usable_by_hash,
  new_token, request_for, request_reset, reset_password, wait,
}
use ask_repo.PasswordReset.Links.{HasUniqueLinks, confirm_once, request_supersedes}

abbrev user : Account
user = record {
  id = 4;
  email = 9;
  password_hash = 70;
  must_change_password = true;
  updated_at = 1;
  deleted = false;
}

abbrev link : ResetToken
link = new_token 1 500 4 10 60

abbrev before : Accounts
before = record {
  reset_tokens = link ∷ [];
  accounts = user ∷ [];
  sessions = record { clock = 20; tokens = [] };
}

abbrev hash_new : ℕ → Call ℕ
hash_new password = ensure (ltb 7 password) weak_password >> ok (1000 + password)

abbrev confirmed : Accounts
confirmed = reset_password link user 1008 before

before-HasUniqueLinks : HasUniqueLinks before
before-HasUniqueLinks = (tt, tt)

confirm_returns : confirm hash_new 500 8 before ≡ ok confirmed
unfolding confirm get_usable_by_hash get_account first_row
confirm_returns = refl

confirm_once_example :
    confirm hash_new 500 9 (wait 3 confirmed) ≡ raised password_reset_token_invalid
confirm_once_example =
    confirm_once hash_new 500 8 9 3 before confirmed before-HasUniqueLinks confirm_returns

-- A second link, requested before the first is used.
abbrev requested : Option ℕ × Accounts
requested = request_for 60 2 501 (some user) before

new_link_absent : find (λ x. x.token_hash) 501 before.reset_tokens ≡ none
unfolding find
new_link_absent = refl

account_found : get_account_by_email 9 before ≡ some user
unfolding get_account_by_email first_row
account_found = refl

link_found : find (λ x. x.token_hash) 500 before.reset_tokens ≡ some link
unfolding find
link_found = refl

request_returns : request_reset true 60 2 501 9 before ≡ ok requested
unfolding request_reset get_account_by_email first_row
request_returns = refl

request_supersedes_example :
    confirm hash_new 500 8 (wait 3 requested.1) ≡ raised password_reset_token_invalid
request_supersedes_example =
    request_supersedes hash_new 60 2 501 9 500 8 3 requested.0 user link before requested.1
      before-HasUniqueLinks new_link_absent account_found link_found refl request_returns
