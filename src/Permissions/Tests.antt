-- ===== src/Permissions/Tests.antt =====
-- The permission checks at concrete roles.
use praktika.Prelude.{◌≡◌, refl, true, false, List, [], ◌∷◌, arith}
use praktika.Text.{codes, text_eq}
use praktika.Text.Laws.{ne_of_text_eq}
use praktika.Permissions.{
  UserRole, Permission, role_code, has_permission, has_any_permission, has_all_permissions,
}
use praktika.Permissions.Hierarchy.{
  higher_role_can_do_more, admin_can_do_everything, unknown_role_is_denied,
}

abbrev reading : List Permission
reading = Permission.search_use ∷ Permission.rag_use ∷ []

-- An editor cannot manage users, and roles are case sensitive.
refusals :
    (has_permission (codes "EDITOR") Permission.users_manage ≡ false)
    × (has_permission (codes "editor") Permission.search_use ≡ false)
unfolding has_permission
refusals = (refl, refl)

higher_role_can_do_more_example :
    (has_permission (role_code UserRole.user) Permission.rag_use ≡ true
      → has_permission (role_code UserRole.editor) Permission.rag_use ≡ true)
    × (has_any_permission (role_code UserRole.user) reading ≡ true
        → has_any_permission (role_code UserRole.editor) reading ≡ true)
    × (has_all_permissions (role_code UserRole.user) reading ≡ true
        → has_all_permissions (role_code UserRole.editor) reading ≡ true)
higher_role_can_do_more_example =
    higher_role_can_do_more UserRole.user UserRole.editor Permission.rag_use reading (omega arith)

admin_can_do_everything_example :
    (has_permission (role_code UserRole.admin) Permission.audit_view ≡ true)
    × (has_all_permissions (role_code UserRole.admin) reading ≡ true)
admin_can_do_everything_example = admin_can_do_everything Permission.audit_view reading

unknown_role_is_denied_example :
    (has_any_permission (codes "ROOT") reading ≡ false)
    × ((p : Permission) → has_all_permissions (codes "ROOT") (p ∷ reading) ≡ false)
unfolding text_eq
unknown_role_is_denied_example = unknown_role_is_denied (codes "ROOT") reading different
  where
    different : (r : UserRole) → codes "ROOT" ≡ role_code r → ⊥
    different UserRole.user e = ne_of_text_eq (codes "ROOT") (codes "USER") refl e
    different UserRole.editor e = ne_of_text_eq (codes "ROOT") (codes "EDITOR") refl e
    different UserRole.admin e = ne_of_text_eq (codes "ROOT") (codes "ADMIN") refl e
