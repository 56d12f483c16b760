-- ===== src/Accounts/Access.antt =====
-- Who a request comes from and what it may do: backend/app/core/csrf.py (`CSRFMiddleware`) and
-- backend/app/api/dependencies.py.
use praktika.Prelude.{
  ℕ, Bool, true, false, ◌&&◌, ◌||◌, not, Option, none, some, List, [], ◌∷◌, ◌==◌, leb,
  if◌then◌else◌, any, all, Result, ok, err, or_raise, Error, raise_if, ◌>>=◌, ◌>>◌,
}
use praktika.Text.{Text, codes, starts_with, text_eq}
use praktika.Permissions.{Permission}
use praktika.Accounts.{User, Session, Store, Request, Crypto, is_unsafe, is_active}
use praktika.Accounts.Rows.{get_session_by_hash, get_user_by_id, save_session}

-- `if not value`: None and the empty text are false.
unfoldable pub or_empty : Option Text → Text
or_empty none = []
or_empty (some t) = t

unfoldable pub is_blank : Text → Bool
is_blank [] = true
is_blank (c ∷ cs) = false

-- `CSRFMiddleware.dispatch` before the call of the application: `request.state.csrf_hash`.
unfoldable pub dispatch : Crypto → Request → Result (Option Text)
unfolding is_blank or_empty
dispatch c request =
    if starts_with (codes "/api/") request.path && is_unsafe request.method
    then (let cookie = or_empty request.csrf_cookie in
        let header = or_empty request.csrf_header in
        if is_blank cookie || (is_blank header || not (text_eq cookie header))
        then err Error.csrf_invalid
        else ok (some (c.digest header)))
    else ok none

-- What is left to decide about a session that was found, at the time `now`.
unfoldable pub is_over : ℕ → Session → Bool
is_over now r = elim r.revoked_at [ none ↦ leb r.expires_at now | some at ↦ true ]

unfoldable pub check_session :
    ℕ → Request → Option Text → Session → Store → User → Result (Option User × Store)
unfolding is_blank or_empty
check_session now request csrf_hash r s user =
    if not (is_active user.status) || not (r.account_version == user.account_version)
    then ok (none, save_session (record r { revoked_at = some now }) s)
    else if is_unsafe request.method
        && (is_blank (or_empty csrf_hash) || not (text_eq r.csrf_token_hash (or_empty csrf_hash)))
    then err Error.csrf_invalid
    else ok (some user, save_session (record r { last_seen_at = now }) s)

-- `record.user` is there, since `user_id` is a foreign key.
unfoldable pub check_token :
    ℕ → Request → Option Text → Store → Option Session → Result (Option User × Store)
unfolding is_over check_session
check_token now request csrf_hash s none = ok (none, s)
check_token now request csrf_hash s (some r) =
    if is_over now r
    then ok (none, s)
    else or_raise Error.internal_error (get_user_by_id r.user_id s)
      >>= check_session now request csrf_hash r s

unfoldable pub get_optional_user :
    Crypto → ℕ → Request → Option Text → Store → Result (Option User × Store)
unfolding is_blank check_token
get_optional_user c now request csrf_hash s =
    let raw_token = or_empty request.session_cookie in
    if is_blank raw_token
    then ok (none, s)
    else check_token now request csrf_hash s (get_session_by_hash (c.digest raw_token) s)

unfoldable pub get_current_user : Crypto → ℕ → Request → Option Text → Store → Result (User × Store)
unfolding get_optional_user
get_current_user c now request csrf_hash s = do
  (user, s') ← get_optional_user c now request csrf_hash s
  present ← or_raise Error.unauthorized user
  ok (present, s')

-- Permissions are told apart by their codes.
permission_code : Permission → ℕ
permission_code Permission.search_use = 0
permission_code Permission.rag_use = 1
permission_code Permission.profile_manage = 2
permission_code Permission.history_manage = 3
permission_code Permission.saved_manage = 4
permission_code Permission.editor_access = 5
permission_code Permission.managed_documents_view = 6
permission_code Permission.document_metadata_edit = 7
permission_code Permission.document_status_change = 8
permission_code Permission.document_reindex = 9
permission_code Permission.editor_jobs_view = 10
permission_code Permission.admin_access = 11
permission_code Permission.users_manage = 12
permission_code Permission.sources_manage = 13
permission_code Permission.admin_jobs_manage = 14
permission_code Permission.audit_view = 15
permission_code Permission.system_view = 16
permission_code Permission.system_settings_manage = 17
permission_code Permission.search_index_view = 18
permission_code Permission.search_index_manage = 19

unfoldable pub same_permission : Permission → Permission → Bool
unfolding permission_code
same_permission a b = permission_code a == permission_code b

unfoldable pub has_code : User → Permission → Bool
unfolding same_permission
has_code user permission = any (same_permission permission) user.role.permissions

-- `require_permission`, `require_any_permission` and `require_all_permissions`, after the user.
unfoldable pub require_permission : Permission → User → Result User
unfolding has_code
require_permission permission user = do
  raise_if (not (has_code user permission)) Error.forbidden
  ok user

unfoldable pub require_any_permission : List Permission → User → Result User
unfolding has_code
require_any_permission permissions user = do
  raise_if (not (any (has_code user) permissions)) Error.forbidden
  ok user

unfoldable pub require_all_permissions : List Permission → User → Result User
unfolding has_code
require_all_permissions permissions user = do
  raise_if (not (all (has_code user) permissions)) Error.forbidden
  ok user
