-- ===== src/Accounts/Auth.antt =====
-- Registration, sign-in and the end of a session: backend/app/services/auth.py, the rule for
-- passwords of backend/app/core/security.py, and `logout` of backend/app/api/routes/auth.py.
use praktika.Prelude.{
  ℕ, ◌+◌, Bool, true, false, ◌&&◌, not, Option, none, some, [], ◌∷◌, leb, if◌then◌else◌, any,
  length, take, Result, ok, err, or_raise, Error, raise_if, ◌>>=◌, ◌>>◌,
}
use praktika.Text.{Text, Unicode, strip, is_lower, is_upper, digit_value}
use praktika.Permissions.{UserRole}
use praktika.Accounts.{
  User, Session, Store, Request, Crypto, SessionSettings, AccountStatus, AuditAction, is_active,
}
use praktika.Accounts.Rows.{
  get_user_by_email, get_role, normalize_email, add_user, add_session, add_audit_event, save_user,
  save_session, get_session_by_hash,
}
use praktika.Accounts.Access.{or_empty}

is_decimal : Unicode → ℕ → Bool
is_decimal u c = elim (digit_value u c) [ none ↦ false | some d ↦ true ]

-- PASSWORD_PATTERN: the lookaheads, and the eight characters.
unfoldable pub validate_password : Unicode → Text → Bool
unfolding is_decimal
validate_password u password =
    any is_lower password
    && (any is_upper password && (any (is_decimal u) password && leb 8 (length password)))

-- `PasswordService.hash`, with the salt that the hasher draws.
unfoldable pub hash_password : Unicode → Crypto → ℕ → Text → Result Text
unfolding validate_password
hash_password u c salt password = do
  raise_if (not (validate_password u password)) Error.value_error
  ok (c.hash_password salt password)

-- What a call draws at random: the ids of new rows, two tokens and a salt.
pub record Draws : Type 0 where
  pub user_id : ℕ
  pub session_id : ℕ
  pub session_token : Text
  pub csrf_token : Text
  pub salt : ℕ

pub record AuthResult : Type 0 where
  pub user : User
  pub session_token : Text
  pub csrf_token : Text
  pub max_age : Option ℕ

unfoldable pub ttl : SessionSettings → Bool → ℕ
ttl config remember = if remember then config.remember_session_ttl else config.session_ttl

-- `text[:500] or None`
unfoldable pub short_agent : Text → Option Text
short_agent [] = none
short_agent (c ∷ cs) = some (take 500 (c ∷ cs))

unfoldable pub new_session : Crypto → SessionSettings → Draws → ℕ → Request → User → Bool → Session
unfolding ttl short_agent
new_session c config d now request user remember = record {
  id = d.session_id;
  user_id = user.id;
  token_hash = c.digest d.session_token;
  csrf_token_hash = c.digest d.csrf_token;
  account_version = user.account_version;
  remember_me = remember;
  created_at = now;
  last_seen_at = now;
  expires_at = now + ttl config remember;
  revoked_at = none;
  ip_address = request.host;
  user_agent = short_agent request.user_agent;
}

unfoldable pub create_session :
    Crypto
    → SessionSettings
    → Draws
    → ℕ
    → Request
    → User
    → Bool
    → Store
    → Result (AuthResult × Store)
unfolding new_session ttl
create_session c config d now request user remember s = do
  s' ← add_session (new_session c config d now request user remember) s
  let result : AuthResult = record {
    user = user;
    session_token = d.session_token;
    csrf_token = d.csrf_token;
    max_age = if remember then some (ttl config remember) else none;
  }
  ok (result, s')

pub record RegisterRequest : Type 0 where
  pub display_name : Text
  pub email : Text
  pub password : Text
  pub remember : Bool

pub record LoginRequest : Type 0 where
  pub email : Text
  pub password : Text
  pub remember : Bool

-- `except ValueError as exc: raise ApiException(422, ...)`
unfoldable pub as_validation_error : Result Text → Result Text
as_validation_error (ok t) = ok t
as_validation_error (err e) = err Error.validation_error

unfoldable pub is_taken : Option User → Bool
is_taken none = false
is_taken (some user) = true

unfoldable pub register_user :
    Unicode
    → Crypto
    → SessionSettings
    → Draws
    → ℕ
    → Request
    → RegisterRequest
    → Store
    → Result (AuthResult × Store)
unfolding hash_password as_validation_error is_taken
register_user u c config d now request payload s = do
  raise_if (is_taken (get_user_by_email u payload.email s)) Error.conflict
  role ← or_raise Error.internal_error (get_role UserRole.user s)
  password_hash ← as_validation_error (hash_password u c d.salt payload.password)
  let user : User = record {
    id = d.user_id;
    role = role;
    name = payload.display_name;
    email = strip payload.email;
    normalized_email = normalize_email u payload.email;
    password_hash = password_hash;
    status = AccountStatus.active;
    account_version = 1;
    registered_at = now;
    last_active_at = now;
    blocked_at = none;
    blocked_by = none;
    block_reason = none;
  }
  s' ← add_user user s
  create_session c config d now request user payload.remember
      (add_audit_event user AuditAction.register user s')

unfoldable pub rehash : Unicode → Crypto → Draws → Text → User → Result User
unfolding hash_password
rehash u c d password user =
    if c.check_needs_rehash user.password_hash
    then (hash_password u c d.salt password >>= λ (h : Text).
        ok (record user { password_hash = h }))
    else ok user

unfoldable pub login_user :
    Unicode
    → Crypto
    → SessionSettings
    → Draws
    → ℕ
    → Request
    → LoginRequest
    → Store
    → Result (AuthResult × Store)
unfolding rehash
login_user u c config d now request payload s = do
  user ← or_raise Error.unauthorized (get_user_by_email u payload.email s)
  raise_if (not (c.verify_password user.password_hash payload.password)) Error.unauthorized
  raise_if (not (is_active user.status)) Error.forbidden
  user' ← rehash u c d payload.password user
  let seen : User = record user' { last_active_at = now }
  create_session c config d now request seen payload.remember
      (add_audit_event seen AuditAction.login seen (save_user seen s))

-- The session that `get_optional_user` left in the request ends.
unfoldable pub logout : Crypto → ℕ → Request → User → Store → Result Store
logout c now request user s = do
  r ←
      or_raise Error.unauthorized
        (get_session_by_hash (c.digest (or_empty request.session_cookie)) s)
  ok (
      add_audit_event user AuditAction.logout user
        (save_session (record r { revoked_at = some now }) s))

-- A new token for requests that change something: the session of the user, if there is one, takes its
-- hash.
unfoldable pub csrf_token : Crypto → Request → Text → Option User → Store → Result Store
csrf_token c request token none s = ok s
csrf_token c request token (some user) s = do
  r ←
      or_raise Error.unauthorized
        (get_session_by_hash (c.digest (or_empty request.session_cookie)) s)
  ok (save_session (record r { csrf_token_hash = c.digest token }) s)
