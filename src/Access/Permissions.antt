-- ===== src/Access/Permissions.antt =====
-- backend/app/core/permissions.py: the catalogue of permissions and the system roles.
use ask_repo.Prelude.{
  ℕ, suc, ◌≡◌, refl, Bool, true, false, ◌||◌, List, [], ◌∷◌, ◌++◌, ◌==◌, if◌then◌else◌,
}

pub data Permission : Type 0 where
  project_read project_update project_delete project_reindex : Permission
  question_ask : Permission
  checklist_read module_create module_edit module_delete generate_run changeset_apply item_edit
        result_record :
      Permission
  mockdata_read mockdata_edit eval_read eval_run : Permission
  membership_read membership_grant membership_revoke : Permission

-- The place in the catalogue, which `==` compares.
code_of : Permission → ℕ
code_of project_read = 0
code_of project_update = 1
code_of project_delete = 2
code_of project_reindex = 3
code_of question_ask = 4
code_of checklist_read = 5
code_of module_create = 6
code_of module_edit = 7
code_of module_delete = 8
code_of generate_run = 9
code_of changeset_apply = 10
code_of item_edit = 11
code_of result_record = 12
code_of mockdata_read = 13
code_of mockdata_edit = 14
code_of eval_read = 15
code_of eval_run = 16
code_of membership_read = 17
code_of membership_grant = 18
code_of membership_revoke = 19

-- `permission in permissions`.
unfoldable pub has : Permission → List Permission → Bool
unfolding code_of
has p [] = false
has p (q ∷ qs) = code_of q == code_of p || has p qs

-- `PERMISSION_GROUPS`, by group.
abbrev pub permission_groups : List (List Permission)
permission_groups =
    (project_read ∷ project_update ∷ project_delete ∷ project_reindex ∷ [])
    ∷ (question_ask ∷ [])
    ∷ (checklist_read ∷ module_create ∷ module_edit ∷ module_delete ∷ generate_run ∷ changeset_apply
        ∷ item_edit ∷ result_record ∷ [])
    ∷ (mockdata_read ∷ mockdata_edit ∷ [])
    ∷ (eval_read ∷ eval_run ∷ [])
    ∷ (membership_read ∷ membership_grant ∷ membership_revoke ∷ [])
    ∷ []

abbrev pub concat_groups : List (List Permission) → List Permission
concat_groups [] = []
concat_groups (g ∷ gs) = g ++ concat_groups gs

-- The whole catalogue, `Permission` iterated.
abbrev pub all_permissions : List Permission
all_permissions =
    project_read ∷ project_update ∷ project_delete ∷ project_reindex ∷ question_ask ∷ checklist_read
    ∷ module_create ∷ module_edit ∷ module_delete ∷ generate_run ∷ changeset_apply ∷ item_edit
    ∷ result_record ∷ mockdata_read ∷ mockdata_edit ∷ eval_read ∷ eval_run ∷ membership_read
    ∷ membership_grant ∷ membership_revoke ∷ []

abbrev pub viewer : List Permission
viewer =
    project_read ∷ question_ask ∷ checklist_read ∷ mockdata_read ∷ eval_read ∷ membership_read
    ∷ result_record ∷ []

abbrev pub editor : List Permission
editor =
    viewer
    ++ module_create ∷ module_edit ∷ module_delete ∷ generate_run ∷ changeset_apply ∷ item_edit
      ∷ mockdata_edit ∷ eval_run ∷ []

abbrev pub owner : List Permission
owner =
    editor
    ++ project_update ∷ project_delete ∷ project_reindex ∷ membership_grant ∷ membership_revoke ∷ []

-- How often a permission stands in a list.
unfoldable pub count_of : Permission → List Permission → ℕ
unfolding code_of
count_of p [] = 0
count_of p (q ∷ qs) = let rest = count_of p qs in if code_of q == code_of p then suc rest else rest

-- The system roles form a ladder up to the whole catalogue: an owner holds every permission, an
-- editor every permission of a viewer, and every permission stands in exactly one group of the role
-- matrix and once in the catalogue.
roles_ladder :
    (p : Permission)
    → (has p owner ≡ true)
      × (has p viewer ≡ true → has p editor ≡ true)
      × (count_of p (concat_groups permission_groups) ≡ 1)
      × (count_of p all_permissions ≡ 1)
unfolding has count_of
roles_ladder project_read = (refl, λ h. cc, refl, refl)
roles_ladder _ = (refl, λ h. cc, refl, refl)
