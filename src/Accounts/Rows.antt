-- ===== src/Accounts/Rows.antt =====
-- The queries and writes of backend/app/db/repositories/users.py and
-- backend/app/db/repositories/sessions.py, with the unique columns of the tables, and
-- `add_audit_event` of backend/app/services/audit.py.
use praktika.Prelude.{
  ℕ, Bool, true, false, ◌&&◌, ◌||◌, Option, none, some, List, [], ◌∷◌, map, ◌==◌, if◌then◌else◌,
  any, filter, length, Result, ok, Error, raise_if, ◌>>◌,
}
use praktika.Text.{Text, Unicode, strip, casefold, text_eq}
use praktika.Table.{find, put}
use praktika.Permissions.{UserRole}
use praktika.Accounts.{User, Session, Role, Store, AuditAction, is_admin, is_active}

abbrev pub user_key : User → ℕ
user_key u = u.id

abbrev pub session_key : Session → ℕ
session_key r = r.id

unfoldable pub normalize_email : Unicode → Text → Text
normalize_email u email = casefold u (strip email)

unfoldable pub get_user_by_id : ℕ → Store → Option User
get_user_by_id user_id s = find user_key user_id s.users

-- The first row that passes a test; the columns that the code asks for are unique.
unfoldable pub first_where {ℓ} : {A : Type ℓ} → (A → Bool) → List A → Option A
first_where p [] = none
first_where p (x ∷ xs) = if p x then some x else first_where p xs

unfoldable pub get_user_by_email : Unicode → Text → Store → Option User
unfolding first_where normalize_email
get_user_by_email u email s =
    first_where (λ user. text_eq user.normalized_email (normalize_email u email)) s.users

unfoldable pub same_role : UserRole → UserRole → Bool
same_role UserRole.user UserRole.user = true
same_role UserRole.editor UserRole.editor = true
same_role UserRole.admin UserRole.admin = true
same_role _ _ = false

unfoldable pub get_role : UserRole → Store → Option Role
unfolding first_where same_role
get_role code s = first_where (λ role. same_role role.code code) s.roles

unfoldable pub get_session_by_hash : Text → Store → Option Session
unfolding first_where
get_session_by_hash token_hash s = first_where (λ r. text_eq r.token_hash token_hash) s.sessions

is_unset : Option ℕ → Bool
is_unset none = true
is_unset (some a) = false

unfoldable pub revoke_row : ℕ → ℕ → Session → Session
unfolding is_unset
revoke_row user_id revoked_at r =
    if r.user_id == user_id && is_unset r.revoked_at
    then record r { revoked_at = some revoked_at }
    else r

unfoldable pub revoke_user_sessions : ℕ → ℕ → Store → Store
unfolding revoke_row
revoke_user_sessions user_id revoked_at s = record s {
  sessions = map (revoke_row user_id revoked_at) s.sessions;
}

unfoldable pub save_user : User → Store → Store
save_user user s = record s { users = put user_key user s.users }

unfoldable pub save_session : Session → Store → Store
save_session r s = record s { sessions = put session_key r s.sessions }

-- `db.add(user)` and the flush, which the primary key and the unique email of `users` may refuse.
unfoldable pub add_user : User → Store → Result Store
add_user user s = do
  raise_if
      (any (λ other. other.id == user.id || text_eq other.normalized_email user.normalized_email)
        s.users)
      Error.integrity_error
  ok (record s { users = user ∷ s.users })

-- `db.add(record)` and the flush; the hash of the token is unique.
unfoldable pub add_session : Session → Store → Result Store
add_session r s = do
  raise_if (any (λ other. other.id == r.id || text_eq other.token_hash r.token_hash) s.sessions)
      Error.integrity_error
  ok (record s { sessions = r ∷ s.sessions })

unfoldable pub add_audit_event : User → AuditAction → User → Store → Store
add_audit_event actor action entity s = record s {
  audit =
      record {
        actor_user_id = actor.id;
        actor_name = actor.name;
        actor_role = actor.role.code;
        action = action;
        entity_id = entity.id;
        entity_label = entity.email;
      }
      ∷ s.audit;
}

-- Is this an active administrator?
unfoldable pub is_active_admin : User → Bool
unfolding is_admin is_active
is_active_admin user = is_admin user.role.code && is_active user.status

unfoldable pub active_admin_count : Store → ℕ
unfolding is_active_admin
active_admin_count s = length (filter is_active_admin s.users)
