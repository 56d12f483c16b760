-- ===== src/Permissions.antt =====
-- Roles and permissions: backend/app/core/permissions.py, with UserRole and Permission of
-- backend/app/core/enums.py.
pub mod Hierarchy
pub mod Tests
use praktika.Prelude.{Bool, true, false, Option, none, some, List, any, all, if◌then◌else◌}
use praktika.Text.{Text, codes, text_eq}

pub data UserRole : Type 0 where
  user editor admin : UserRole

pub data Permission : Type 0 where
  search_use rag_use profile_manage history_manage saved_manage : Permission
  editor_access managed_documents_view document_metadata_edit : Permission
  document_status_change document_reindex editor_jobs_view : Permission
  admin_access users_manage sources_manage admin_jobs_manage audit_view : Permission
  system_view system_settings_manage search_index_view search_index_manage : Permission

-- USER_PERMISSIONS
user_permissions : Permission → Bool
user_permissions Permission.search_use = true
user_permissions Permission.rag_use = true
user_permissions Permission.profile_manage = true
user_permissions Permission.history_manage = true
user_permissions Permission.saved_manage = true
user_permissions _ = false

-- What EDITOR_PERMISSIONS adds.
editor_extra : Permission → Bool
editor_extra Permission.editor_access = true
editor_extra Permission.managed_documents_view = true
editor_extra Permission.document_metadata_edit = true
editor_extra Permission.document_status_change = true
editor_extra Permission.document_reindex = true
editor_extra Permission.editor_jobs_view = true
editor_extra _ = false

-- What the administrator's row adds.
admin_extra : Permission → Bool
admin_extra Permission.admin_access = true
admin_extra Permission.users_manage = true
admin_extra Permission.sources_manage = true
admin_extra Permission.admin_jobs_manage = true
admin_extra Permission.audit_view = true
admin_extra Permission.system_view = true
admin_extra Permission.system_settings_manage = true
admin_extra Permission.search_index_view = true
admin_extra Permission.search_index_manage = true
admin_extra _ = false

-- PERMISSION_MATRIX; the union of sets is a chain of tests.
unfoldable pub permission_matrix : UserRole → Permission → Bool
unfolding user_permissions editor_extra admin_extra
permission_matrix UserRole.user p = user_permissions p
permission_matrix UserRole.editor p = if user_permissions p then true else editor_extra p
permission_matrix UserRole.admin p =
    if user_permissions p then true else if editor_extra p then true else admin_extra p

-- `UserRole(role)`; `none` is the ValueError.
unfoldable pub parse_role : Text → Option UserRole
unfolding text_eq
parse_role code =
    if text_eq code (codes "USER")
    then some UserRole.user
    else if text_eq code (codes "EDITOR")
    then some UserRole.editor
    else if text_eq code (codes "ADMIN")
    then some UserRole.admin
    else none

-- The text of a role, which a `StrEnum` is.
abbrev pub role_code : UserRole → Text
role_code UserRole.user = codes "USER"
role_code UserRole.editor = codes "EDITOR"
role_code UserRole.admin = codes "ADMIN"

unfoldable pub has_permission : Text → Permission → Bool
unfolding parse_role permission_matrix
has_permission role permission = elim (parse_role role) [
  | none ↦ false
  | some normalized ↦ permission_matrix normalized permission
]

unfoldable pub has_any_permission : Text → List Permission → Bool
has_any_permission role permissions = any (has_permission role) permissions

unfoldable pub has_all_permissions : Text → List Permission → Bool
has_all_permissions role permissions = all (has_permission role) permissions
