-- ===== src/Accounts/LastAdmin.antt =====
-- Some administrator is always active, and ids of users stay distinct, whatever requests come in.
use praktika.Prelude.{
  ℕ, ◌≡◌, refl, ap, Option, none, some, List, [], ◌∷◌, arith, not, Result, ok, err, Error, or_raise,
  ◌>>=◌, Ensures, Ensures-ok, Ensures-err, Ensures-bind, Ensures-guard, or_raise_ok,
}
use praktika.Table.{find}
use praktika.Text.{Text, Unicode}
use praktika.Permissions.{UserRole, Permission}
use praktika.Accounts.{User, Store, Request, Crypto, SessionSettings, is_active}
use praktika.Accounts.Rows.{
  user_key, get_role, get_user_by_email, save_user, save_session, add_user, add_audit_event,
  is_active_admin,
}
use praktika.Accounts.Access.{dispatch, get_optional_user, get_current_user, require_permission}
use praktika.Accounts.Auth.{
  Draws, RegisterRequest, LoginRequest, register_user, login_user, logout, csrf_token, rehash,
  hash_password, as_validation_error, is_taken,
}
use praktika.Accounts.Admin.{change_user_role, block_user, unblock_user}
use praktika.Accounts.Commands.{Action, users_admin, route, serve, serve_all, kept}
use praktika.Accounts.Tables.{tally, find-first_where}
use praktika.Accounts.Sound.{
  IsSound, Sound, IsSound-of_users, saved, at_least_one, change_user_role-IsSound,
  block_user-IsSound, unblock_user-IsSound, get_optional_user-IsSound, create_session-IsSound,
  add_user-IsSound,
}

tables :
    {A : Type 0} (m : Result (A × Store)) → Ensures Sound m → Ensures IsSound (m >>= λ a. ok a.1)
tables (ok a) h = Ensures-ok IsSound a.1 (h.holds a refl)
tables (err e) h = Ensures-err IsSound e

module _ (u : Unicode) (c : Crypto) (config : SessionSettings) where
  register_user-IsSound :
      (d : Draws) (now : ℕ) (request : Request) (payload : RegisterRequest) (s : Store)
      → IsSound s
      → Ensures Sound (register_user u c config d now request payload s)
  unfolding register_user add_audit_event
  register_user-IsSound d now request payload s h =
      Ensures-guard Sound (is_taken (get_user_by_email u payload.email s)) _ _ (λ free.
        Ensures-bind Sound (or_raise Error.internal_error (get_role UserRole.user s)) _
          (λ role known.
            Ensures-bind Sound (as_validation_error (hash_password u c d.salt payload.password)) _
              (λ password_hash good. Ensures-bind Sound (add_user _ s) _ (λ t added.
                create_session-IsSound c config d now request _ payload.remember _
                  (IsSound-of_users t _ refl ((add_user-IsSound _ s h).holds t added))))))

  pub same_account :
      (d : Draws) (password : Text) (now : ℕ) (user user' : User)
      → rehash u c d password user ≡ ok user'
      → (user'.id ≡ user.id)
        × (is_active_admin (record user' { last_active_at = now }) ≡ is_active_admin user)
        × (user'.status ≡ user.status)
  unfolding rehash is_active_admin hash_password
  same_account d password now user user' e = ground arith

  pub by_email :
      (email : Text) (s : Store) (user : User)
      → IsSound s
      → or_raise Error.unauthorized (get_user_by_email u email s) ≡ ok user
      → find user_key user.id s.users ≡ some user
  unfolding get_user_by_email
  by_email email s user h e =
      find-first_where user_key _ s.users user h.distinct
        (or_raise_ok _ (get_user_by_email u email s) user e)

  login_user-IsSound :
      (d : Draws) (now : ℕ) (request : Request) (payload : LoginRequest) (s : Store)
      → IsSound s
      → Ensures Sound (login_user u c config d now request payload s)
  unfolding login_user add_audit_event save_user
  login_user-IsSound d now request payload s h =
      Ensures-bind Sound (or_raise Error.unauthorized (get_user_by_email u payload.email s)) _
        (λ user found.
          Ensures-guard Sound (not (c.verify_password user.password_hash payload.password)) _ _
            (λ known. Ensures-guard Sound (not (is_active user.status)) _ _ (λ on.
              Ensures-bind Sound (rehash u c d payload.password user) _ (λ user' same.
                create_session-IsSound c config d now request _ payload.remember _ (
                  saved s _ user (record user' { last_active_at = now }) refl
                    (rw (same_account d payload.password now user user' same).0
                      (by_email payload.email s user h found))
                    (omega (
                      arith,
                      at_least_one s h,
                      ap tally (same_account d payload.password now user user' same).1,
                    ))
                    h)))))

  logout-IsSound :
      (now : ℕ) (request : Request) (user : User) (s : Store)
      → IsSound s
      → Ensures IsSound (logout c now request user s)
  unfolding logout add_audit_event save_session
  logout-IsSound now request user s h = record {
    holds = λ a e. IsSound-of_users s a (ground arith) h;
  }

  csrf_token-IsSound :
      (request : Request) (token : Text) (user : Option User) (s : Store)
      → IsSound s
      → Ensures IsSound (csrf_token c request token user s)
  unfolding csrf_token save_session
  csrf_token-IsSound request token none s h = Ensures-ok IsSound s h
  csrf_token-IsSound request token (some user) s h = record {
    holds = λ a e. IsSound-of_users s a (ground arith) h;
  }

  get_current_user-IsSound :
      (now : ℕ) (request : Request) (csrf_hash : Option Text) (s : Store)
      → IsSound s
      → Ensures Sound (get_current_user c now request csrf_hash s)
  unfolding get_current_user
  get_current_user-IsSound now request csrf_hash s h =
      Ensures-bind Sound (get_optional_user c now request csrf_hash s) _ (λ a e.
        Ensures-bind Sound (or_raise Error.unauthorized a.0) _ (λ present there.
          Ensures-ok Sound (present, a.1)
            ((get_optional_user-IsSound c now request csrf_hash s h).holds a e)))

  users_admin-IsSound :
      (now : ℕ) (request : Request) (csrf_hash : Option Text) (s : Store)
      → IsSound s
      → Ensures Sound (users_admin u c config now request csrf_hash s)
  unfolding users_admin
  users_admin-IsSound now request csrf_hash s h =
      Ensures-bind Sound (get_current_user c now request csrf_hash s) _ (λ a e.
        Ensures-bind Sound (require_permission Permission.users_manage a.0) _ (λ actor may.
          Ensures-ok Sound (actor, a.1)
            ((get_current_user-IsSound now request csrf_hash s h).holds a e)))

  -- A call by an administrator that keeps the invariant, and only its tables are kept.
  as_admin :
      (now : ℕ) (request : Request) (csrf_hash : Option Text) (s : Store)
      (call : User × Store → Result (User × Store))
      → IsSound s
      → ((a : User × Store) → IsSound a.1 → Ensures Sound (call a))
      → Ensures IsSound
          (users_admin u c config now request csrf_hash s >>= λ a. call a >>= λ b. ok b.1)
  as_admin now request csrf_hash s call h keeps =
      Ensures-bind IsSound (users_admin u c config now request csrf_hash s) _ (λ a e.
        tables (call a) (keeps a ((users_admin-IsSound now request csrf_hash s h).holds a e)))

  route-IsSound :
      (now : ℕ) (request : Request) (csrf_hash : Option Text) (action : Action) (s : Store)
      → IsSound s
      → Ensures IsSound (route u c config now request csrf_hash action s)
  unfolding route
  route-IsSound now request csrf_hash Action.visit s h =
      tables _ (get_optional_user-IsSound c now request csrf_hash s h)
  route-IsSound now request csrf_hash (Action.renew_csrf token) s h =
      Ensures-bind IsSound (get_optional_user c now request csrf_hash s) _ (λ a e.
        csrf_token-IsSound request token a.0 a.1
          ((get_optional_user-IsSound c now request csrf_hash s h).holds a e))
  route-IsSound now request csrf_hash Action.sign_out s h =
      Ensures-bind IsSound (get_current_user c now request csrf_hash s) _ (λ a e.
        logout-IsSound now request a.0 a.1
          ((get_current_user-IsSound now request csrf_hash s h).holds a e))
  route-IsSound now request csrf_hash (Action.sign_up d payload) s h =
      tables _ (register_user-IsSound d now request payload s h)
  route-IsSound now request csrf_hash (Action.sign_in d payload) s h =
      tables _ (login_user-IsSound d now request payload s h)
  route-IsSound now request csrf_hash (Action.change_role target_id role_code) s h =
      as_admin now request csrf_hash s (λ a. change_user_role now a.0 target_id role_code a.1) h
        (λ a k. change_user_role-IsSound now a.0 target_id role_code a.1 k)
  route-IsSound now request csrf_hash (Action.block target_id reason) s h =
      as_admin now request csrf_hash s (λ a. block_user now a.0 target_id reason a.1) h
        (λ a k. block_user-IsSound now a.0 target_id reason a.1 k)
  route-IsSound now request csrf_hash (Action.unblock target_id) s h =
      as_admin now request csrf_hash s (λ a. unblock_user a.0 target_id a.1) h
        (λ a k. unblock_user-IsSound a.0 target_id a.1 k)

  serve-IsSound :
      (now : ℕ) (request : Request) (action : Action) (s : Store)
      → IsSound s
      → Ensures IsSound (serve u c config now request action s)
  unfolding serve
  serve-IsSound now request action s h =
      Ensures-bind IsSound (dispatch c request) _
        (λ csrf_hash passed. route-IsSound now request csrf_hash action s h)

  kept-IsSound :
      (s : Store) (r : Result Store) → IsSound s → Ensures IsSound r → IsSound (kept u c config s r)
  kept-IsSound s (ok t) h e = e.holds t refl
  kept-IsSound s (err x) h e = h

  -- If ids of users are distinct and one of them is an active administrator, then both still hold
  -- after any requests that sign up, sign in, sign out, visit, take a new token, change roles, block
  -- or unblock.
  pub serve_all-IsSound :
      (requests : List (ℕ × Request × Action)) (s : Store)
      → IsSound s
      → IsSound (serve_all u c config requests s)
  unfolding serve_all
  serve_all-IsSound [] s h = h
  serve_all-IsSound ((now, request, action) ∷ rest) s h = serve_all-IsSound rest _ (
      kept-IsSound s (serve u c config now request action s) h
        (serve-IsSound now request action s h))
