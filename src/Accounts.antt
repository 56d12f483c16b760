-- ===== src/Accounts.antt =====
-- Accounts and their sessions: the rows of backend/app/db/models/identity.py (Role, User, Session),
-- with AccountStatus of backend/app/core/enums.py, the request as the code reads it, and what the
-- code takes from other libraries: the digest of tokens and the hasher of passwords.
pub mod Rows
pub mod Access
pub mod Auth
pub mod Admin
pub mod Commands
pub mod Tables
pub mod Sound
pub mod LastAdmin
pub mod Revoked
pub mod SignIn
pub mod Tests
use praktika.Prelude.{ℕ, Bool, true, false, Option, List}
use praktika.Text.{Text}
use praktika.Permissions.{UserRole, Permission}

pub data AccountStatus : Type 0 where
  active blocked : AccountStatus

unfoldable pub is_active : AccountStatus → Bool
is_active active = true
is_active blocked = false

unfoldable pub is_admin : UserRole → Bool
is_admin UserRole.admin = true
is_admin _ = false

-- A row of `roles` with the rows of `permissions` that belong to it.
pub record Role : Type 0 where
  pub code : UserRole
  pub permissions : List Permission

-- Preferences and the time of the last update are left out.
pub record User : Type 0 where
  pub id : ℕ
  pub role : Role
  pub name : Text
  pub email : Text
  pub normalized_email : Text
  pub password_hash : Text
  pub status : AccountStatus
  pub account_version : ℕ
  pub registered_at : ℕ
  pub last_active_at : ℕ
  pub blocked_at : Option ℕ
  pub blocked_by : Option ℕ
  pub block_reason : Option Text

pub record Session : Type 0 where
  pub id : ℕ
  pub user_id : ℕ
  pub token_hash : Text
  pub csrf_token_hash : Text
  pub account_version : ℕ
  pub remember_me : Bool
  pub created_at : ℕ
  pub last_seen_at : ℕ
  pub expires_at : ℕ
  pub revoked_at : Option ℕ
  pub ip_address : Option Text
  pub user_agent : Option Text

pub data AuditAction : Type 0 where
  login logout register change_user_role block_user unblock_user : AuditAction

-- What an audit event says of who did what to which account.
pub record AuditEvent : Type 0 where
  pub actor_user_id : ℕ
  pub actor_name : Text
  pub actor_role : UserRole
  pub action : AuditAction
  pub entity_id : ℕ
  pub entity_label : Text

pub record Store : Type 0 where
  pub users : List User
  pub sessions : List Session
  pub roles : List Role
  pub audit : List AuditEvent

pub data Method : Type 0 where
  get head options post put patch delete : Method

-- UNSAFE_METHODS
unfoldable pub is_unsafe : Method → Bool
is_unsafe post = true
is_unsafe put = true
is_unsafe patch = true
is_unsafe delete = true
is_unsafe _ = false

-- A request: its cookies and its X-CSRF-Token header, as far as they are there.
pub record Request : Type 0 where
  pub path : Text
  pub method : Method
  pub session_cookie : Option Text
  pub csrf_cookie : Option Text
  pub csrf_header : Option Text
  pub host : Option Text
  pub user_agent : Text

-- SHA-256, and the hasher of argon2 with the salt that it draws.
pub record Crypto : Type 0 where
  pub digest : Text → Text
  pub hash_password : ℕ → Text → Text
  pub verify_password : Text → Text → Bool
  pub check_needs_rehash : Text → Bool

-- The settings of sessions, in the units of the clock.
pub record SessionSettings : Type 0 where
  pub remember_session_ttl : ℕ
  pub session_ttl : ℕ
