-- ===== src/Accounts/Sound.antt =====
-- The invariant of accounts, and that the operations on rows keep it: users have distinct ids, and
-- one of them is an active administrator.
use praktika.Prelude.{
  ℕ, ◌+◌, ◌≤◌, ◌≡◌, refl, Bool, false, ◌⊎◌, inl, inr, Option, some, List, [], ◌∷◌, arith, leb, ◌&&◌,
  not, length, filter, any, ok, Error, or_raise, ◌≢◌, All, ◌||◌, ◌==◌, Ensures, Ensures-ok,
  Ensures-bind, Ensures-guard, Ensures-if, or_raise_ok,
}
use praktika.Table.{find, put, AreDistinct}
use praktika.Table.Rows.{key-find}
use praktika.Text.{Text, text_eq}
use praktika.Permissions.{UserRole}
use praktika.Accounts.{
  User, Store, Role, Request, Crypto, SessionSettings, AccountStatus, is_admin, is_active,
}
use praktika.Accounts.Rows.{
  user_key, get_role, get_user_by_id, save_user, save_session, add_user, add_session,
  add_audit_event, revoke_user_sessions, is_active_admin, active_admin_count,
}
use praktika.Accounts.Access.{get_optional_user, check_token, check_session}
use praktika.Accounts.Auth.{Draws, create_session}
use praktika.Accounts.Admin.{
  change_user_role, block_user, unblock_user, role_row, block_row, unblock_row,
}
use praktika.Accounts.Tables.{count-put, tally, AreDistinct-put, get_role-code}

-- One of the users is an administrator and active.
abbrev pub AnyAdmin : List User → Type 0
AnyAdmin [] = ⊥
AnyAdmin (user ∷ rest) =
    ((user.role.code ≡ UserRole.admin) × (user.status ≡ AccountStatus.active)) ⊎ AnyAdmin rest

AnyAdmin-of_count : (xs : List User) → 1 ≤ length (filter is_active_admin xs) → AnyAdmin xs
unfolding is_active_admin is_admin is_active
AnyAdmin-of_count [] h = absurd (omega arith)
AnyAdmin-of_count (x ∷ xs) h = ground (arith, AnyAdmin-of_count xs)

count-of_AnyAdmin : (xs : List User) → AnyAdmin xs → 1 ≤ length (filter is_active_admin xs)
unfolding is_active_admin is_admin is_active
count-of_AnyAdmin [] h = absurd h
count-of_AnyAdmin (x ∷ xs) (inl h) = ground (arith, h.0, h.1)
count-of_AnyAdmin (x ∷ xs) (inr h) = ground (arith, count-of_AnyAdmin xs h)

pub record IsSound (s : Store) : Type 0 where
  pub distinct : AreDistinct user_key s.users
  pub administered : AnyAdmin s.users

pub IsSound-of_users : (s t : Store) → t.users ≡ s.users → IsSound s → IsSound t
IsSound-of_users s t e h = record { distinct = rw e h.distinct; administered = rw e h.administered }

-- A written user leaves an administrator behind.
pub saved :
    (s t : Store) (x y : User)
    → t.users ≡ put user_key y s.users
    → find user_key y.id s.users ≡ some x
    → tally (is_active_admin x) + 1 ≤ active_admin_count s + tally (is_active_admin y)
    → IsSound s
    → IsSound t
unfolding active_admin_count
saved s t x y e found left h = record {
  distinct = rw e (AreDistinct-put user_key y s.users h.distinct);
  administered = rw e (
      AnyAdmin-of_count (put user_key y s.users)
        (omega (arith, count-put user_key is_active_admin x y s.users found)));
}

-- The result of a call leads from sound tables to sound tables.
abbrev pub Sound : {A : Type 0} → A × Store → Type 0
Sound a = IsSound a.1

pub at_least_one : (s : Store) → IsSound s → 1 ≤ active_admin_count s
unfolding active_admin_count
at_least_one s h = count-of_AnyAdmin s.users h.administered

own_key :
    (k : ℕ) (e : Error) (s : Store) (x : User)
    → or_raise e (get_user_by_id k s) ≡ ok x
    → find user_key x.id s.users ≡ some x
unfolding get_user_by_id
own_key k e s x h =
    let found = or_raise_ok e (get_user_by_id k s) x h in
    simp (key-find user_key k s.users x found) found

changed_role :
    (target : User) (role : Role) (role_code : UserRole) (count : ℕ)
    → role.code ≡ role_code
    → 1 ≤ count
    → ((is_admin target.role.code && not (is_admin role_code))
        && (is_active target.status && leb count 1))
      ≡ false
    → tally (is_active_admin target) + 1 ≤ count + tally (is_active_admin (role_row role target))
unfolding is_active_admin is_admin is_active role_row
changed_role target role role_code count same some_left free = ground arith

blocked_one :
    (now actor_id : ℕ) (reason : Text) (target : User) (count : ℕ)
    → ((is_admin target.role.code && is_active target.status) && leb count 1) ≡ false
    → 1 ≤ count
    → tally (is_active_admin target) + 1
      ≤ count + tally (is_active_admin (block_row now actor_id reason target))
unfolding is_active_admin is_admin is_active block_row
blocked_one now actor_id reason target count free some_left = ground arith

pub change_user_role-IsSound :
    (now : ℕ) (actor : User) (target_id : ℕ) (role_code : UserRole) (s : Store)
    → IsSound s
    → Ensures Sound (change_user_role now actor target_id role_code s)
unfolding change_user_role role_row save_user add_audit_event revoke_user_sessions
change_user_role-IsSound now actor target_id role_code s h =
    Ensures-guard Sound (target_id == actor.id) _ _ (λ other.
      Ensures-bind Sound (or_raise Error.not_found (get_user_by_id target_id s)) _ (λ target found.
        Ensures-guard Sound
          ((is_admin target.role.code && not (is_admin role_code))
            && (is_active target.status && leb (active_admin_count s) 1))
          _ _
          (λ free.
            Ensures-bind Sound (or_raise Error.validation_error (get_role role_code s)) _
              (λ role known. Ensures-ok Sound _ (
                saved s _ target (role_row role target) refl (own_key target_id _ s target found)
                  (changed_role target role role_code (active_admin_count s)
                    (get_role-code role_code s role (or_raise_ok _ _ role known)) (at_least_one s h)
                    free)
                  h)))))

pub block_user-IsSound :
    (now : ℕ) (actor : User) (target_id : ℕ) (reason : Text) (s : Store)
    → IsSound s
    → Ensures Sound (block_user now actor target_id reason s)
unfolding block_user block_row save_user add_audit_event revoke_user_sessions
block_user-IsSound now actor target_id reason s h =
    Ensures-guard Sound (target_id == actor.id) _ _ (λ other.
      Ensures-bind Sound (or_raise Error.not_found (get_user_by_id target_id s)) _ (λ target found.
        Ensures-guard Sound
          ((is_admin target.role.code && is_active target.status) && leb (active_admin_count s) 1) _
          _
          (λ free.
            Ensures-if Sound (is_active target.status) _ _
              (λ on. Ensures-ok Sound _ (
                saved s _ target (block_row now actor.id reason target) refl
                  (own_key target_id _ s target found)
                  (blocked_one now actor.id reason target (active_admin_count s) free
                    (at_least_one s h))
                  h))
              (λ off. Ensures-ok Sound _ h))))

unblocked_one :
    (target : User) (count : ℕ)
    → 1 ≤ count
    → tally (is_active_admin target) + 1 ≤ count + tally (is_active_admin (unblock_row target))
unfolding is_active_admin is_admin is_active unblock_row
unblocked_one target count some_left = ground arith

pub unblock_user-IsSound :
    (actor : User) (target_id : ℕ) (s : Store)
    → IsSound s
    → Ensures Sound (unblock_user actor target_id s)
unfolding unblock_user unblock_row save_user add_audit_event
unblock_user-IsSound actor target_id s h =
    Ensures-bind Sound (or_raise Error.not_found (get_user_by_id target_id s)) _ (λ target found.
      Ensures-if Sound (is_active target.status) _ _ (λ on. Ensures-ok Sound _ h)
        (λ off. Ensures-ok Sound _ (
          saved s _ target (unblock_row target) refl (own_key target_id _ s target found)
            (unblocked_one target (active_admin_count s) (at_least_one s h)) h)))

-- Requests that only read users, and write sessions.
pub get_optional_user-IsSound :
    (c : Crypto) (now : ℕ) (request : Request) (csrf_hash : Option Text) (s : Store)
    → IsSound s
    → Ensures Sound (get_optional_user c now request csrf_hash s)
unfolding get_optional_user check_token check_session save_session
get_optional_user-IsSound c now request csrf_hash s h = record {
  holds = λ a e. IsSound-of_users s a.1 (ground arith) h;
}

pub create_session-IsSound :
    (c : Crypto) (config : SessionSettings) (d : Draws) (now : ℕ) (request : Request) (user : User)
    (remember : Bool) (s : Store)
    → IsSound s
    → Ensures Sound (create_session c config d now request user remember s)
unfolding create_session add_session
create_session-IsSound c config d now request user remember s h = record {
  holds = λ a e. IsSound-of_users s a.1 (ground arith) h;
}

fresh_id :
    (user : User) (xs : List User)
    → any
        (λ (other : User).
          other.id == user.id || text_eq other.normalized_email user.normalized_email)
        xs
      ≡ false
    → All (λ other. user_key other ≢ user_key user) xs
fresh_id user [] h = tt
fresh_id user (x ∷ xs) h = ground (arith, fresh_id user xs)

pub add_user-IsSound : (user : User) (s : Store) → IsSound s → Ensures IsSound (add_user user s)
unfolding add_user
add_user-IsSound user s h =
    Ensures-guard IsSound
      (any
        (λ (other : User).
          other.id == user.id || text_eq other.normalized_email user.normalized_email)
        s.users)
      _ _
      (λ free.
        Ensures-ok IsSound (record s { users = user ∷ s.users })
          (record {
            distinct = (fresh_id user s.users free, h.distinct);
            administered = inr h.administered;
          }))
