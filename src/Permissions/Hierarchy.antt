-- ===== src/Permissions/Hierarchy.antt =====
-- Each role can do what the role below it can, and a text that names no role can do nothing.
use praktika.Prelude.{
  ℕ, ◌≤◌, ◌≡◌, refl, sym, ◌∙◌, ◌≢◌, inl, inr, true, false, none, some, List, [], ◌∷◌, arith, any,
  all, Option-cases,
}
use praktika.Text.{Text, codes}
use praktika.Text.Laws.{text_eq→eq}
use praktika.Permissions.{
  UserRole, Permission, permission_matrix, parse_role, role_code, has_permission,
  has_any_permission, has_all_permissions,
}

-- USER below EDITOR below ADMIN.
abbrev pub rank : UserRole → ℕ
rank UserRole.user = 0
rank UserRole.editor = 1
rank UserRole.admin = 2

matrix_grows :
    (r s : UserRole) (p : Permission)
    → rank r ≤ rank s
    → permission_matrix r p ≡ true
    → permission_matrix s p ≡ true
unfolding permission_matrix
matrix_grows UserRole.user UserRole.user p le h = h
matrix_grows UserRole.user UserRole.editor p le h = rw h
matrix_grows UserRole.user UserRole.admin p le h = rw h
matrix_grows UserRole.editor UserRole.user p le h = absurd (omega arith)
matrix_grows UserRole.editor UserRole.editor p le h = h
matrix_grows UserRole.editor UserRole.admin p le h = ground arith
matrix_grows UserRole.admin UserRole.user p le h = absurd (omega arith)
matrix_grows UserRole.admin UserRole.editor p le h = absurd (omega arith)
matrix_grows UserRole.admin UserRole.admin p le h = h

has_permission_of_role :
    (r : UserRole) (p : Permission) → has_permission (role_code r) p ≡ permission_matrix r p
unfolding has_permission
has_permission_of_role UserRole.user p = refl
has_permission_of_role UserRole.editor p = refl
has_permission_of_role UserRole.admin p = refl

grows :
    (r s : UserRole) (p : Permission)
    → rank r ≤ rank s
    → has_permission (role_code r) p ≡ true
    → has_permission (role_code s) p ≡ true
grows r s p le h =
    has_permission_of_role s p ∙ matrix_grows r s p le (sym (has_permission_of_role r p) ∙ h)

-- A role of at least the same rank passes every check that a role passes: of one permission, of
-- any of a set, and of all of a set.
pub higher_role_can_do_more :
    (r s : UserRole) (p : Permission) (ps : List Permission)
    → rank r ≤ rank s
    → (has_permission (role_code r) p ≡ true → has_permission (role_code s) p ≡ true)
      × (has_any_permission (role_code r) ps ≡ true → has_any_permission (role_code s) ps ≡ true)
      × (has_all_permissions (role_code r) ps ≡ true → has_all_permissions (role_code s) ps ≡ true)
unfolding has_any_permission has_all_permissions
higher_role_can_do_more r s p ps le = (grows r s p le, some_grows ps, all_grow ps)
  where
    some_grows :
        (qs : List Permission)
        → any (has_permission (role_code r)) qs ≡ true
        → any (has_permission (role_code s)) qs ≡ true
    some_grows [] h = h
    some_grows (q ∷ qs) h = ground (arith, grows r s q le, some_grows qs)

    all_grow :
        (qs : List Permission)
        → all (has_permission (role_code r)) qs ≡ true
        → all (has_permission (role_code s)) qs ≡ true
    all_grow [] h = h
    all_grow (q ∷ qs) h = ground (arith, grows r s q le, all_grow qs)

parse_role_inv : (t : Text) (r : UserRole) → parse_role t ≡ some r → t ≡ role_code r
unfolding parse_role
parse_role_inv t r h = ground (
  arith,
  text_eq→eq t (codes "USER"),
  text_eq→eq t (codes "EDITOR"),
  text_eq→eq t (codes "ADMIN"),
)

no_role : (t : Text) (p : Permission) → parse_role t ≡ none → has_permission t p ≡ false
unfolding has_permission
no_role t p e = rw (e, has_permission)

admin_has : (p : Permission) → permission_matrix UserRole.admin p ≡ true
unfolding permission_matrix
admin_has Permission.search_use = refl
admin_has _ = refl

-- The administrator's role is granted every permission, and so passes the check of all of any set.
pub admin_can_do_everything :
    (p : Permission) (ps : List Permission)
    → (has_permission (role_code UserRole.admin) p ≡ true)
      × (has_all_permissions (role_code UserRole.admin) ps ≡ true)
unfolding has_all_permissions
admin_can_do_everything p ps = (granted p, every ps)
  where
    granted : (q : Permission) → has_permission (role_code UserRole.admin) q ≡ true
    granted q = has_permission_of_role UserRole.admin q ∙ admin_has q

    every : (qs : List Permission) → all (has_permission (role_code UserRole.admin)) qs ≡ true
    every [] = refl
    every (q ∷ qs) = rw (granted q) (every qs)

-- A text that is not the code of one of the three roles is denied every check of one or more
-- permissions, whether any or all of them are asked for.
pub unknown_role_is_denied :
    (t : Text) (ps : List Permission)
    → ((r : UserRole) → t ≢ role_code r)
    → (has_any_permission t ps ≡ false)
      × ((p : Permission) → has_all_permissions t (p ∷ ps) ≡ false)
unfolding has_any_permission has_all_permissions
unknown_role_is_denied t ps unknown = (no_any ps, λ p. rw (denied p))
  where
    denied : (p : Permission) → has_permission t p ≡ false
    denied p = elim (Option-cases (parse_role t)) [
      | inl e ↦ no_role t p e
      | inr (r, e) ↦ absurd (unknown r (parse_role_inv t r e))
    ]

    no_any : (qs : List Permission) → any (has_permission t) qs ≡ false
    no_any [] = refl
    no_any (q ∷ qs) = rw (denied q) (no_any qs)
