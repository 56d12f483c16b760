-- ===== src/Accounts/Commands.antt =====
-- The requests that change accounts and sessions, as the routes of backend/app/api/routes/auth.py
-- and backend/app/api/routes/admin_users.py put them together, each in a transaction.
use praktika.Prelude.{ℕ, Option, List, [], ◌∷◌, Result, ok, err, ◌>>=◌}
use praktika.Text.{Text, Unicode}
use praktika.Permissions.{UserRole, Permission}
use praktika.Accounts.{User, Store, Request, Crypto, SessionSettings}
use praktika.Accounts.Access.{dispatch, get_optional_user, get_current_user, require_permission}
use praktika.Accounts.Auth.{
  Draws, RegisterRequest, LoginRequest, register_user, login_user, logout, csrf_token,
}
use praktika.Accounts.Admin.{change_user_role, block_user, unblock_user}

pub data Action : Type 0 where
  visit sign_out : Action
  renew_csrf : Text → Action
  sign_up : Draws → RegisterRequest → Action
  sign_in : Draws → LoginRequest → Action
  change_role : ℕ → UserRole → Action
  block : ℕ → Text → Action
  unblock : ℕ → Action

module _ (u : Unicode) (c : Crypto) (config : SessionSettings) where
  -- The dependency `UsersAdmin` of the routes of accounts.
  unfoldable pub users_admin : ℕ → Request → Option Text → Store → Result (User × Store)
  users_admin now request csrf_hash s = do
    (user, s') ← get_current_user c now request csrf_hash s
    actor ← require_permission Permission.users_manage user
    ok (actor, s')

  unfoldable pub route : ℕ → Request → Option Text → Action → Store → Result Store
  unfolding users_admin
  route now request csrf_hash Action.visit s =
      get_optional_user c now request csrf_hash s >>= λ a. ok a.1
  route now request csrf_hash (Action.renew_csrf token) s =
      get_optional_user c now request csrf_hash s >>= λ a. csrf_token c request token a.0 a.1
  route now request csrf_hash Action.sign_out s =
      get_current_user c now request csrf_hash s >>= λ a. logout c now request a.0 a.1
  route now request csrf_hash (Action.sign_up d payload) s =
      register_user u c config d now request payload s >>= λ a. ok a.1
  route now request csrf_hash (Action.sign_in d payload) s =
      login_user u c config d now request payload s >>= λ a. ok a.1
  route now request csrf_hash (Action.change_role target_id role_code) s =
      users_admin now request csrf_hash s >>= λ a.
      change_user_role now a.0 target_id role_code a.1 >>= λ b. ok b.1
  route now request csrf_hash (Action.block target_id reason) s =
      users_admin now request csrf_hash s >>= λ a.
      block_user now a.0 target_id reason a.1 >>= λ b. ok b.1
  route now request csrf_hash (Action.unblock target_id) s =
      users_admin now request csrf_hash s >>= λ a. unblock_user a.0 target_id a.1 >>= λ b. ok b.1

  -- A request in its transaction, behind the middleware.
  unfoldable pub serve : ℕ → Request → Action → Store → Result Store
  unfolding route
  serve now request action s =
      dispatch c request >>= λ csrf_hash. route now request csrf_hash action s

  abbrev pub kept : Store → Result Store → Store
  kept s (ok s') = s'
  kept s (err e) = s

  -- Requests one after another, each with its time.
  unfoldable pub serve_all : List (ℕ × Request × Action) → Store → Store
  unfolding serve
  serve_all [] s = s
  serve_all ((now, request, action) ∷ rest) s = serve_all rest (kept s (serve now request action s))
