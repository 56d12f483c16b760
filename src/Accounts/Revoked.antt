-- ===== src/Accounts/Revoked.antt =====
-- What stands behind a request that is let in: a live session of an active account, and the token
-- that its method asks for. So an account whose role was changed or that was blocked is out.
use praktika.Prelude.{
  ℕ, ◌<◌, ◌≡◌, refl, sym, ◌∙◌, ◌≢◌, ◌⊎◌, inl, inr, Bool, false, not, ◌&&◌, Option, none, some, List,
  [], ◌∷◌, map, arith, leb, ◌==◌, Bool-cases, All, ok, Error, or_raise, or_raise_ok, ◌>>=◌, Ensures,
  Ensures-ok, Ensures-bind, Ensures-guard, Ensures-if,
}
use mathlib.Core.Path.{subst}
use praktika.Table.Rows.{key-find}
use praktika.Text.{Text}
use praktika.Text.Laws.{text_eq→eq}
use praktika.Permissions.{UserRole}
use praktika.Accounts.{
  User, Store, Session, Request, Crypto, AccountStatus, is_active, is_unsafe, is_admin,
}
use praktika.Accounts.Rows.{
  user_key, first_where, get_role, get_user_by_id, get_session_by_hash, revoke_row,
  revoke_user_sessions, save_user, add_audit_event, active_admin_count,
}
use praktika.Accounts.Access.{
  get_optional_user, check_token, check_session, or_empty, is_blank, is_over,
}
use praktika.Accounts.Admin.{change_user_role, block_user}

-- What a request shows that got in as `user`, with the session `r`.
pub record IsAdmitted (c : Crypto) (now : ℕ) (request : Request) (csrf_hash : Option Text)
    (s : Store) (user : User) (r : Session) : Type 0 where
  pub found : get_session_by_hash (c.digest (or_empty request.session_cookie)) s ≡ some r
  pub owner : get_user_by_id r.user_id s ≡ some user
  pub unrevoked : r.revoked_at ≡ none
  pub in_time : now < r.expires_at
  pub enabled : user.status ≡ AccountStatus.active
  pub current : r.account_version ≡ user.account_version
  pub csrf : (is_unsafe request.method ≡ false) ⊎ (csrf_hash ≡ some r.csrf_token_hash)

module _ (c : Crypto) (now : ℕ) (request : Request) (csrf_hash : Option Text) (s : Store) where
  check_session_admits :
      (r : Session) (user : User) (a : Option User × Store) (visitor : User)
      → check_session now request csrf_hash r s user ≡ ok a
      → a.0 ≡ some visitor
      → (visitor ≡ user)
        × (user.status ≡ AccountStatus.active)
        × (r.account_version ≡ user.account_version)
        × ((is_unsafe request.method ≡ false) ⊎ (csrf_hash ≡ some r.csrf_token_hash))
  unfolding check_session is_active or_empty is_blank
  check_session_admits r user a visitor e q =
      ground (arith, text_eq→eq r.csrf_token_hash (or_empty csrf_hash))

  live : (r : Session) → is_over now r ≡ false → (r.revoked_at ≡ none) × (now < r.expires_at)
  unfolding is_over
  live r e = ground arith

  check_token_admits :
      (o : Option Session) (a : Option User × Store) (visitor : User)
      → get_session_by_hash (c.digest (or_empty request.session_cookie)) s ≡ o
      → check_token now request csrf_hash s o ≡ ok a
      → a.0 ≡ some visitor
      → (r : Session) × IsAdmitted c now request csrf_hash s visitor r
  unfolding check_token or_raise
  check_token_admits none a visitor found e q = absurd (ground (arith, e, q))
  check_token_admits (some r) a visitor found e q = elim (Bool-cases (is_over now r)) [
    | inl over ↦ absurd (ground (arith, rw over at e, q))
    | inr open_ ↦ owned (get_user_by_id r.user_id s) (live r open_) refl (rw open_ at e)
  ]
    where
      owned :
          (o : Option User)
          → (r.revoked_at ≡ none) × (now < r.expires_at)
          → get_user_by_id r.user_id s ≡ o
          → or_raise Error.internal_error (get_user_by_id r.user_id s)
              >>= check_session now request csrf_hash r s
            ≡ ok a
          → (r : Session) × IsAdmitted c now request csrf_hash s visitor r
      owned none l f g = absurd (ground (arith, rw f at g))
      owned (some user) l f g =
          let (same, on, current, csrf) = check_session_admits r user a visitor (rw f at g) q in
          (
            r,
            record {
              found = found;
              owner = rw same f;
              unrevoked = l.0;
              in_time = l.1;
              enabled = rw same on;
              current = rw same current;
              csrf = csrf;
            },
          )

  -- A request is let in as a user only with the session that its cookie names, which is neither
  -- revoked nor over, while the account is active and has not changed since the session began, and
  -- by a method that changes something only with the session's own token.
  pub admitted :
      (a : Option User × Store) (visitor : User)
      → get_optional_user c now request csrf_hash s ≡ ok a
      → a.0 ≡ some visitor
      → (r : Session) × IsAdmitted c now request csrf_hash s visitor r
  unfolding get_optional_user
  admitted a visitor e q = elim (Bool-cases (is_blank (or_empty request.session_cookie))) [
    | inl empty ↦ absurd (ground (arith, rw empty at e, q))
    | inr there ↦ check_token_admits _ a visitor refl (rw there at e) q
  ]

-- The sessions of an account after they were revoked.
AreRevoked : ℕ → List Session → Type 0
AreRevoked user_id = All (λ r. (r.user_id ≢ user_id) ⊎ (r.revoked_at ≢ none))

revoked :
    (user_id now : ℕ) (r : Session)
    → ((revoke_row user_id now r).user_id ≢ user_id)
      ⊎ ((revoke_row user_id now r).revoked_at ≢ none)
unfolding revoke_row
revoked user_id now r = elim (Bool-cases (r.user_id == user_id)) [
  | inl own ↦ inr (λ e. ground (arith, own))
  | inr other ↦ inl (λ e. ground (arith, other))
]

revoked_sessions :
    (user_id now : ℕ) (xs : List Session) → AreRevoked user_id (map (revoke_row user_id now) xs)
unfolding AreRevoked revoke_row
revoked_sessions user_id now [] = tt
revoked_sessions user_id now (r ∷ rs) = (revoked user_id now r, revoked_sessions user_id now rs)

All-first_where {ℓ} :
    {A : Type ℓ} (P : A → Type 0) (p : A → Bool) (xs : List A) (x : A)
    → All P xs
    → first_where p xs ≡ some x
    → P x
unfolding first_where
All-first_where P p [] x h e = cc
All-first_where P p (y ∷ ys) x h e = elim (Bool-cases (p y)) [
  | inl hit ↦ subst P (the_row (rw hit at e)) h.0
  | inr miss ↦ All-first_where P p ys x h.1 (rw miss at e)
]
  where
    the_row : some y ≡ some x → y ≡ x
    the_row q = cc

nobody-IsAdmitted :
    (c : Crypto) (now : ℕ) (request : Request) (csrf_hash : Option Text) (s : Store) (user : User)
    (r : Session) (user_id : ℕ)
    → AreRevoked user_id s.sessions
    → IsAdmitted c now request csrf_hash s user r
    → user.id ≢ user_id
unfolding AreRevoked get_session_by_hash get_user_by_id
nobody-IsAdmitted c now request csrf_hash s user r user_id gone h same = ground (
  arith,
  All-first_where _ _ s.sessions r gone h.found,
  key-find user_key r.user_id s.users user h.owner,
)

-- What keeps everybody out of an account: its sessions are revoked, or it is blocked.
IsShut : ℕ → Store → Type 0
IsShut user_id s =
    AreRevoked user_id s.sessions
    ⊎ ((user : User) × (get_user_by_id user_id s ≡ some user)
        × (user.status ≡ AccountStatus.blocked))

shut_out :
    (c : Crypto) (now : ℕ) (request : Request) (csrf_hash : Option Text) (s : Store) (user : User)
    (r : Session) (user_id : ℕ)
    → IsShut user_id s
    → IsAdmitted c now request csrf_hash s user r
    → user.id ≢ user_id
unfolding IsShut get_user_by_id
shut_out c now request csrf_hash s user r user_id (inl gone) h =
    nobody-IsAdmitted c now request csrf_hash s user r user_id gone h
shut_out c now request csrf_hash s user r user_id (inr (blocked_one, there, off)) h = λ same.
    other_status blocked_one user
      (sym there ∙ rw (sym same ∙ key-find user_key r.user_id s.users user h.owner) h.owner) off
      h.enabled
  where
    other_status :
        (x y : User)
        → some x ≡ some y
        → x.status ≡ AccountStatus.blocked
        → y.status ≡ AccountStatus.active
        → ⊥
    other_status x y e o n = ground (arith, e, o, n)

found_key :
    (k : ℕ) (s : Store) (x : User)
    → or_raise Error.not_found (get_user_by_id k s) ≡ ok x
    → (get_user_by_id k s ≡ some x) × (x.id ≡ k)
unfolding get_user_by_id
found_key k s x h =
    let found = or_raise_ok Error.not_found (get_user_by_id k s) x h in
    (found, key-find user_key k s.users x found)

abbrev Shut : ℕ → User × Store → Type 0
Shut user_id b = IsShut user_id b.1

change_user_role-Shut :
    (now : ℕ) (actor : User) (target_id : ℕ) (role_code : UserRole) (s : Store)
    → Ensures (Shut target_id) (change_user_role now actor target_id role_code s)
unfolding change_user_role revoke_user_sessions add_audit_event save_user IsShut
change_user_role-Shut now actor target_id role_code s =
    Ensures-guard (Shut target_id) (target_id == actor.id) _ _ (λ other.
      Ensures-bind (Shut target_id) (or_raise Error.not_found (get_user_by_id target_id s)) _
        (λ target found.
          Ensures-guard (Shut target_id)
            ((is_admin target.role.code && not (is_admin role_code))
              && (is_active target.status && leb (active_admin_count s) 1))
            _ _
            (λ free.
              Ensures-bind (Shut target_id) (or_raise Error.validation_error (get_role role_code s))
                _
                (λ role known. Ensures-ok (Shut target_id) _ (
                  inl (
                    subst (λ k. AreRevoked k (map (revoke_row target.id now) s.sessions))
                      (found_key target_id s target found).1
                      (revoked_sessions target.id now s.sessions)))))))

block_user-Shut :
    (now : ℕ) (actor : User) (target_id : ℕ) (reason : Text) (s : Store)
    → Ensures (Shut target_id) (block_user now actor target_id reason s)
unfolding block_user revoke_user_sessions add_audit_event save_user IsShut is_active
block_user-Shut now actor target_id reason s =
    Ensures-guard (Shut target_id) (target_id == actor.id) _ _ (λ other.
      Ensures-bind (Shut target_id) (or_raise Error.not_found (get_user_by_id target_id s)) _
        (λ target found.
          Ensures-guard (Shut target_id)
            ((is_admin target.role.code && is_active target.status) && leb (active_admin_count s) 1)
            _ _
            (λ free.
              Ensures-if (Shut target_id) (is_active target.status) _ _
                (λ on. Ensures-ok (Shut target_id) _ (
                  inl (
                    subst (λ k. AreRevoked k (map (revoke_row target.id now) s.sessions))
                      (found_key target_id s target found).1
                      (revoked_sessions target.id now s.sessions))))
                (λ off.
                  Ensures-ok (Shut target_id) _ (
                    inr (target, (found_key target_id s target found).0, off_status target off))))))
  where
    off_status : (x : User) → is_active x.status ≡ false → x.status ≡ AccountStatus.blocked
    off_status x e = ground (arith, e)

module _ (c : Crypto) (now later : ℕ) (actor : User) (target_id : ℕ) (s : Store) (b : User × Store)
    (request : Request) (csrf_hash : Option Text) (a : Option User × Store) (visitor : User) where
  -- After a change of role no session that was there lets anyone in as the changed account.
  pub change_user_role-SignsOut :
      (role_code : UserRole)
      → change_user_role now actor target_id role_code s ≡ ok b
      → get_optional_user c later request csrf_hash b.1 ≡ ok a
      → a.0 ≡ some visitor
      → visitor.id ≢ target_id
  change_user_role-SignsOut role_code changed e q =
      let (r, h) = admitted c later request csrf_hash b.1 a visitor e q in
      shut_out c later request csrf_hash b.1 visitor r target_id
        ((change_user_role-Shut now actor target_id role_code s).holds b changed) h

  -- Nor does one after an account was blocked, or was found blocked.
  pub block_user-SignsOut :
      (reason : Text)
      → block_user now actor target_id reason s ≡ ok b
      → get_optional_user c later request csrf_hash b.1 ≡ ok a
      → a.0 ≡ some visitor
      → visitor.id ≢ target_id
  block_user-SignsOut reason changed e q =
      let (r, h) = admitted c later request csrf_hash b.1 a visitor e q in
      shut_out c later request csrf_hash b.1 visitor r target_id
        ((block_user-Shut now actor target_id reason s).holds b changed) h
