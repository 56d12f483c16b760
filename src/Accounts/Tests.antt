-- ===== src/Accounts/Tests.antt =====
-- The accounts at concrete tables: two administrators and an editor, one of them signed in.
use praktika.Prelude.{
  ℕ, ◌≡◌, refl, ◌≢◌, true, false, inl, Option, none, some, List, [], ◌∷◌, map, arith, Result, ok,
  err, or_raise,
}
use praktika.Table.{find, put}
use praktika.Text.{Text, Unicode, codes, starts_with, text_eq, strip, casefold}
use praktika.Permissions.{UserRole, Permission}
use praktika.Accounts.{
  User, Role, Session, Store, Request, Crypto, SessionSettings, AccountStatus, Method, is_admin,
  is_active, is_unsafe,
}
use praktika.Accounts.Access.{dispatch, get_optional_user, get_current_user, require_permission}
use praktika.Accounts.Rows.{
  get_user_by_id, get_user_by_email, active_admin_count, get_role, get_session_by_hash,
  add_audit_event, revoke_user_sessions, save_user, save_session, add_session,
}
use praktika.Accounts.Auth.{csrf_token, Draws, LoginRequest, AuthResult, create_session, login_user}
use praktika.Accounts.Admin.{change_user_role, block_user}
use praktika.Accounts.Commands.{Action, serve_all}
use praktika.Accounts.Sound.{IsSound}
use praktika.Accounts.LastAdmin.{serve_all-IsSound}
use praktika.Accounts.Revoked.{admitted, IsAdmitted, change_user_role-SignsOut, block_user-SignsOut}
use praktika.Accounts.SignIn.{get_optional_user-login_user}

abbrev ascii : Unicode
ascii = record {
  wide_word = λ c. false;
  wide_upper = λ c. c ∷ [];
  wide_casefold = λ c. c ∷ [];
  wide_digit = λ c. none;
}

-- Hashes that leave a mark in front.
abbrev marked : Crypto
marked = record {
  digest = λ t. b'#' ∷ t;
  hash_password = λ salt t. b'$' ∷ t;
  verify_password = λ h t. text_eq h (b'$' ∷ t);
  check_needs_rehash = λ h. false;
}

abbrev settings : SessionSettings
settings = record { remember_session_ttl = 1000; session_ttl = 100 }

abbrev admin_role : Role
admin_role = record { code = UserRole.admin; permissions = Permission.users_manage ∷ [] }

abbrev editor_role : Role
editor_role = record { code = UserRole.editor; permissions = [] }

abbrev account : ℕ → Role → Text → User
account id role email = record {
  id = id;
  role = role;
  name = codes "N";
  email = email;
  normalized_email = email;
  password_hash = codes "$Secret12";
  status = AccountStatus.active;
  account_version = 1;
  registered_at = 0;
  last_active_at = 0;
  blocked_at = none;
  blocked_by = none;
  block_reason = none;
}

abbrev signed_in : ℕ → ℕ → Text → Session
signed_in id user_id token = record {
  id = id;
  user_id = user_id;
  token_hash = b'#' ∷ token;
  csrf_token_hash = codes "#csrf";
  account_version = 1;
  remember_me = false;
  created_at = 0;
  last_seen_at = 0;
  expires_at = 100;
  revoked_at = none;
  ip_address = none;
  user_agent = none;
}

abbrev ann : User
ann = account 1 admin_role (codes "a@x")

abbrev bob : User
bob = account 2 admin_role (codes "b@x")

abbrev tables : Store
tables = record {
  users = ann ∷ bob ∷ account 3 editor_role (codes "c@x") ∷ [];
  sessions = signed_in 1 1 (codes "ann") ∷ signed_in 2 2 (codes "bob") ∷ [];
  roles = admin_role ∷ editor_role ∷ [];
  audit = [];
}

abbrev request_with : Method → Text → Request
request_with method token = record {
  path = codes "/api/admin/users";
  method = method;
  session_cookie = some token;
  csrf_cookie = some (codes "csrf");
  csrf_header = some (codes "csrf");
  host = none;
  user_agent = [];
}

tables-IsSound : IsSound tables
tables-IsSound = record { distinct = omega arith; administered = inl (refl, refl) }

-- What a call returned, if it did.
abbrev value {ℓ} : {A : Type ℓ} → A → Result A → A
value other (ok a) = a
value other (err e) = other

abbrev by_ann : Request
by_ann = request_with Method.post (codes "ann")

-- Ann demotes Bob, who then may not block her; she may not demote herself, and blocks the editor. With a
-- new token the old one is refused.
abbrev history : List (ℕ × Request × Action)
history =
    (10, by_ann, Action.change_role 2 UserRole.editor)
    ∷ (20, request_with Method.post (codes "bob"), Action.block 1 (codes "mine"))
    ∷ (30, by_ann, Action.change_role 1 UserRole.editor)
    ∷ (40, by_ann, Action.block 3 (codes "spam"))
    ∷ (50, by_ann, Action.renew_csrf (codes "fresh"))
    ∷ (60, by_ann, Action.unblock 3)
    ∷ []

roles_after :
    map {B = UserRole × AccountStatus × ℕ}
      (λ (x : User). (x.role.code, x.status, x.account_version))
      (serve_all ascii marked settings history tables).users
    ≡ (UserRole.admin, AccountStatus.active, 1)
      ∷ (UserRole.editor, AccountStatus.active, 2)
      ∷ (UserRole.editor, AccountStatus.blocked, 2)
      ∷ []
unfolding serve_all dispatch starts_with get_current_user require_permission change_user_role
    block_user or_raise get_user_by_id find put is_admin is_active active_admin_count get_role
    get_session_by_hash add_audit_event revoke_user_sessions save_user save_session text_eq
    is_unsafe get_optional_user csrf_token
roles_after = refl

serve_all-IsSound_example : IsSound (serve_all ascii marked settings history tables)
serve_all-IsSound_example = serve_all-IsSound ascii marked settings history tables tables-IsSound

abbrev demoted : User × Store
demoted = value (bob, tables) (change_user_role 10 ann 2 UserRole.editor tables)

abbrev ann_again : Store → Option User × Store
ann_again s = value (none, s) (get_optional_user marked 20 by_ann (some (codes "#csrf")) s)

change_user_role-SignsOut_example : ann.id ≢ 2
unfolding change_user_role get_optional_user or_raise get_user_by_id find put is_admin is_active
    active_admin_count get_role get_session_by_hash add_audit_event revoke_user_sessions save_user
    save_session text_eq is_unsafe
change_user_role-SignsOut_example =
    change_user_role-SignsOut marked 10 20 ann 2 tables demoted by_ann (some (codes "#csrf"))
      (ann_again demoted.1) ann UserRole.editor refl refl refl

abbrev without_bob : User × Store
without_bob = value (bob, tables) (block_user 10 ann 2 (codes "spam") tables)

block_user-SignsOut_example : ann.id ≢ 2
unfolding block_user get_optional_user or_raise get_user_by_id find put is_admin is_active
    active_admin_count get_role get_session_by_hash add_audit_event revoke_user_sessions save_user
    save_session text_eq is_unsafe
block_user-SignsOut_example =
    block_user-SignsOut marked 10 20 ann 2 tables without_bob by_ann (some (codes "#csrf"))
      (ann_again without_bob.1) ann (codes "spam") refl refl refl

admitted_example : (r : Session) × IsAdmitted marked 20 by_ann (some (codes "#csrf")) tables ann r
unfolding get_optional_user or_raise get_user_by_id find put is_admin is_active active_admin_count
    get_role get_session_by_hash add_audit_event revoke_user_sessions save_user save_session text_eq
    is_unsafe
admitted_example =
    admitted marked 20 by_ann (some (codes "#csrf")) tables (ann_again tables) ann refl refl

abbrev draws : Draws
draws = record {
  user_id = 9;
  session_id = 9;
  session_token = codes "new";
  csrf_token = codes "csrf";
  salt = 0;
}

abbrev by_bob : LoginRequest
by_bob = record { email = codes "B@x "; password = codes "Secret12"; remember = true }

abbrev no_login : AuthResult × Store
no_login = (record { user = ann; session_token = []; csrf_token = []; max_age = none }, tables)

abbrev after_login : AuthResult × Store
after_login = value no_login (login_user ascii marked settings draws 10 by_ann by_bob tables)

get_optional_user-login_user_example :
    (csrf_hash : Option Text) × (t : Store) × (dispatch marked
        (request_with Method.post (codes "new"))
      ≡ ok csrf_hash)
    × (get_optional_user marked 500 (request_with Method.post (codes "new")) csrf_hash after_login.1
        ≡ ok (some after_login.0.user, t))
unfolding login_user get_user_by_email create_session strip casefold add_session starts_with
    or_raise get_user_by_id find put is_admin is_active active_admin_count get_role
    get_session_by_hash add_audit_event revoke_user_sessions save_user save_session text_eq
    is_unsafe
get_optional_user-login_user_example =
    get_optional_user-login_user marked settings draws 10 500 by_ann
      (request_with Method.post (codes "new")) ascii by_bob tables after_login tables-IsSound
      (record {
        session_cookie = refl;
        csrf_cookie = refl;
        csrf_header = refl;
        api = refl;
        session_drawn = cc;
        csrf_drawn = cc;
        digested = cc;
      })
      (omega arith) refl
