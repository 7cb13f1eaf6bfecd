-- ===== src/Members/Examples.antt =====
-- Runs of the model on small databases.
use ask_repo.Members.LiveOwners.{HasLiveAdmin, HasLiveOwner}
use ask_repo.Table.{first_row, select_where, update_where}
use ask_repo.Prelude.{ℕ, ◌≡◌, refl, true, false, [], ◌∷◌, arith}
use ask_repo.Access.{AuthenticatedUser, raised, last_admin, ok, require_permission}
use ask_repo.Members.{
  Db, any_row, change_role, count_active_admins, count_live_owners, count_where, deactivate,
  get_for, get_role_by_name, get_user, guard_last_admin, is_live_owner, is_live_user, is_owner_role,
  owner_name, projects_solely_owned_by, refuse_if_last_owner, save,
}
use ask_repo.Members.Runs.{
  by_change_role, by_deactivate, done, next, Run, IsKeyed, owners_and_admins_kept,
}

abbrev administrator : AuthenticatedUser
administrator = record { id = 1; is_admin = true; grants = [] }

-- The accounts 1 and 2 own project 7; account 1 is an administrator. Role 5 is the owner's, role 6
-- is another.
abbrev two_owners : Db
two_owners = record {
  memberships =
      record { id = 10; user_id = 1; project_id = 7; role_id = 5; deleted = false }
      ∷ record { id = 11; user_id = 2; project_id = 7; role_id = 5; deleted = false }
      ∷ [];
  roles =
      record { id = 5; name = owner_name; deleted = false }
      ∷ record { id = 6; name = 1; deleted = false }
      ∷ [];
  users =
      record { id = 1; is_admin = true; deleted = false }
      ∷ record { id = 2; is_admin = false; deleted = false }
      ∷ [];
}

abbrev other_demoted : Db
other_demoted = record two_owners {
  memberships =
      record { id = 10; user_id = 1; project_id = 7; role_id = 5; deleted = false }
      ∷ record { id = 11; user_id = 2; project_id = 7; role_id = 6; deleted = false }
      ∷ [];
}

abbrev other_gone : Db
other_gone = record other_demoted {
  users =
      record { id = 1; is_admin = true; deleted = false }
      ∷ record { id = 2; is_admin = false; deleted = true }
      ∷ [];
}

demotes_other : change_role 7 2 1 administrator two_owners ≡ ok other_demoted
unfolding change_role get_for get_role_by_name get_user first_row require_permission
    refuse_if_last_owner count_live_owners count_where is_live_owner is_owner_role is_live_user
    any_row save update_where
demotes_other = refl

deactivates_other : deactivate 2 other_demoted ≡ ok other_gone
unfolding deactivate guard_last_admin projects_solely_owned_by select_where get_user first_row
    count_live_owners count_where is_live_owner is_owner_role is_live_user any_row update_where
deactivates_other = refl

-- The last owner stays.
keeps_last : deactivate 1 other_demoted ≡ raised last_admin
unfolding deactivate guard_last_admin count_active_admins get_user first_row count_where
keeps_last = refl

short_run : Run two_owners other_gone
short_run =
    next _ other_demoted _ (by_change_role 7 2 1 administrator _ _ demotes_other)
      (next _ other_gone _ (by_deactivate 2 _ _ deactivates_other) (done _))

two_owners-IsKeyed : IsKeyed two_owners
two_owners-IsKeyed =
    (((λ e. omega (arith, e), tt), (tt, tt)), ((λ e. omega (arith, e), tt), (tt, tt)))

owners_and_admins_kept_example :
    ((j : ℕ) → HasLiveOwner j two_owners → HasLiveOwner j other_gone)
    × (HasLiveAdmin two_owners → HasLiveAdmin other_gone)
owners_and_admins_kept_example =
    owners_and_admins_kept two_owners other_gone short_run two_owners-IsKeyed
