-- ===== src/Accounts/Admin.antt =====
-- What administrators do to accounts: `change_user_role`, `block_user` and `unblock_user` of
-- backend/app/services/admin_users.py. Each runs under the lock of `lock_admin_rule`, so that no
-- other transaction stands between the count of administrators and the write.
use praktika.Prelude.{
  ℕ, ◌+◌, ◌&&◌, not, none, some, leb, ◌==◌, if◌then◌else◌, Result, ok, or_raise, Error, raise_if,
  ◌>>=◌, ◌>>◌,
}
use praktika.Text.{Text, strip}
use praktika.Permissions.{UserRole}
use praktika.Accounts.{User, Role, Store, AccountStatus, AuditAction, is_admin, is_active}
use praktika.Accounts.Rows.{
  get_user_by_id, get_role, save_user, revoke_user_sessions, add_audit_event, active_admin_count,
}

unfoldable pub role_row : Role → User → User
role_row role target = record target { role = role; account_version = target.account_version + 1 }

unfoldable pub change_user_role : ℕ → User → ℕ → UserRole → Store → Result (User × Store)
unfolding role_row
change_user_role now actor target_id role_code s = do
  raise_if (target_id == actor.id) Error.conflict
  target ← or_raise Error.not_found (get_user_by_id target_id s)
  raise_if
      ((is_admin target.role.code && not (is_admin role_code))
        && (is_active target.status && leb (active_admin_count s) 1))
      Error.conflict
  role ← or_raise Error.validation_error (get_role role_code s)
  let changed : User = role_row role target
  ok (
    changed,
    add_audit_event actor AuditAction.change_user_role changed
        (revoke_user_sessions target.id now (save_user changed s)),
  )

unfoldable pub block_row : ℕ → ℕ → Text → User → User
block_row now actor_id reason target = record target {
  status = AccountStatus.blocked;
  blocked_at = some now;
  blocked_by = some actor_id;
  block_reason = some (strip reason);
  account_version = target.account_version + 1;
}

unfoldable pub block_user : ℕ → User → ℕ → Text → Store → Result (User × Store)
unfolding block_row
block_user now actor target_id reason s = do
  raise_if (target_id == actor.id) Error.conflict
  target ← or_raise Error.not_found (get_user_by_id target_id s)
  raise_if ((is_admin target.role.code && is_active target.status) && leb (active_admin_count s) 1)
      Error.conflict
  let changed : User = block_row now actor.id reason target
  if is_active target.status
      then ok (
        changed,
        add_audit_event actor AuditAction.block_user changed
            (revoke_user_sessions target.id now (save_user changed s)),
      )
      else ok (target, s)

unfoldable pub unblock_row : User → User
unblock_row target = record target {
  status = AccountStatus.active;
  blocked_at = none;
  blocked_by = none;
  block_reason = none;
  account_version = target.account_version + 1;
}

unfoldable pub unblock_user : User → ℕ → Store → Result (User × Store)
unfolding unblock_row
unblock_user actor target_id s = do
  target ← or_raise Error.not_found (get_user_by_id target_id s)
  let changed : User = unblock_row target
  if is_active target.status
      then ok (target, s)
      else ok
          (changed, add_audit_event actor AuditAction.unblock_user changed (save_user changed s))
