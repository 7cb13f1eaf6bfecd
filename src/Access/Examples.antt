-- ===== src/Access/Examples.antt =====
-- The theorems of the access rules at concrete inputs.
use ask_repo.Prelude.{◌≡◌, refl, ◌↔◌, true, false, [], ◌∷◌}
use ask_repo.Access.{
  AuthenticatedUser, raised, get_grant, in_scope, insufficient_role, ok, permissions_for,
  project_not_found, require_permission, resolve_project_scope,
}
use ask_repo.Access.Permissions.{has, project_delete, project_read, viewer}
use ask_repo.Access.Laws.{IsKeyed, require_permission_agrees}

-- A viewer of project 7.
abbrev reader : AuthenticatedUser
reader = record {
  id = 3;
  is_admin = false;
  grants = (7, record { project_id = 7; role = 2; permissions = viewer }) ∷ [];
}

reader-IsKeyed : IsKeyed reader.grants
reader-IsKeyed = (refl, tt)

-- What a viewer may not do, and what nobody else may know of.
refuses :
    (require_permission reader 7 project_delete ≡ raised insufficient_role)
    × (require_permission reader 8 project_read ≡ raised project_not_found)
unfolding require_permission get_grant has
refuses = (refl, refl)

require_permission_agrees_example :
    ((require_permission reader 7 project_delete ≡ ok tt)
      ↔ (has project_delete (permissions_for reader 7) ≡ true))
    × ((require_permission reader 7 project_delete ≡ raised project_not_found)
        ↔ (in_scope (resolve_project_scope reader) 7 ≡ false))
    × ((require_permission reader 7 project_delete ≡ raised insufficient_role) ↔ (
        (in_scope (resolve_project_scope reader) 7 ≡ true)
        × (has project_delete (permissions_for reader 7) ≡ false)))
require_permission_agrees_example = require_permission_agrees reader 7 project_delete reader-IsKeyed
