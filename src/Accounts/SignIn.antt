-- ===== src/Accounts/SignIn.antt =====
-- A session opened by `login_user` lets its holder in.
use praktika.Prelude.{
  ℕ, ◌+◌, ◌<◌, ◌≡◌, refl, ◌∙◌, ◌≢◌, Bool, true, false, not, if◌then◌else◌, Option, none, some, List,
  [], ◌∷◌, arith, ok, Error, or_raise, Ensures, Ensures-ok, Ensures-bind, Ensures-guard,
}
use praktika.Table.Rows.{find-put_self}
use praktika.Text.{Text, Unicode, codes, starts_with}
use praktika.Text.Laws.{text_eq_refl}
use praktika.Accounts.{
  User, Store, Session, Request, Crypto, SessionSettings, AccountStatus, is_active, is_unsafe,
}
use praktika.Accounts.Rows.{
  user_key, first_where, get_user_by_id, get_user_by_email, get_session_by_hash, save_user,
  save_session, add_session, add_audit_event,
}
use praktika.Accounts.Access.{
  dispatch, get_optional_user, check_token, check_session, or_empty, is_blank, is_over,
}
use praktika.Accounts.Auth.{
  Draws, LoginRequest, AuthResult, create_session, login_user, rehash, new_session, ttl,
}
use praktika.Accounts.Sound.{IsSound}
use praktika.Accounts.LastAdmin.{by_email, same_account}

filled : (t : Text) → t ≢ [] → is_blank t ≡ false
unfolding is_blank
filled [] n = absurd (n refl)
filled (x ∷ xs) n = refl

enabled : (status : AccountStatus) → not (is_active status) ≡ false → status ≡ AccountStatus.active
unfolding is_active
enabled AccountStatus.active e = refl
enabled AccountStatus.blocked e = cc

module _ (c : Crypto) (config : SessionSettings) (d : Draws) (now later : ℕ)
    (request next : Request) where
  -- The next request carries the cookies and the header that the sign-in set.
  pub record Carries : Type 0 where
    pub session_cookie : next.session_cookie ≡ some d.session_token
    pub csrf_cookie : next.csrf_cookie ≡ some d.csrf_token
    pub csrf_header : next.csrf_header ≡ some d.csrf_token
    pub api : starts_with (codes "/api/") next.path ≡ true
    pub session_drawn : d.session_token ≢ []
    pub csrf_drawn : d.csrf_token ≢ []
    pub digested : c.digest d.csrf_token ≢ []

  -- What the middleware leaves in the request.
  abbrev pub sent_hash : Option Text
  sent_hash = if is_unsafe next.method then some (c.digest d.csrf_token) else none

  dispatched : Carries → dispatch c next ≡ ok sent_hash
  unfolding dispatch or_empty
  dispatched h = ground (
    arith,
    h.csrf_cookie,
    h.csrf_header,
    h.api,
    text_eq_refl d.csrf_token,
    filled d.csrf_token h.csrf_drawn,
  )

  -- Nothing is left to refuse in a session that is found and current.
  accepted :
      (user : User) (r : Session) (s : Store)
      → Carries
      → user.status ≡ AccountStatus.active
      → r.account_version ≡ user.account_version
      → r.csrf_token_hash ≡ c.digest d.csrf_token
      → check_session later next sent_hash r s user
        ≡ ok (some user, save_session (record r { last_seen_at = later }) s)
  unfolding check_session is_active or_empty
  accepted user r s h on current same = ground (
    arith,
    on,
    current,
    same,
    text_eq_refl (c.digest d.csrf_token),
    filled (c.digest d.csrf_token) h.digested,
  )

  lets_in :
      (user : User) (r : Session) (s : Store)
      → Carries
      → get_session_by_hash (c.digest d.session_token) s ≡ some r
      → is_over later r ≡ false
      → get_user_by_id r.user_id s ≡ some user
      → user.status ≡ AccountStatus.active
      → r.account_version ≡ user.account_version
      → r.csrf_token_hash ≡ c.digest d.csrf_token
      → get_optional_user c later next sent_hash s
        ≡ ok (some user, save_session (record r { last_seen_at = later }) s)
  unfolding get_optional_user check_token or_empty or_raise
  lets_in user r s h found open_ there on current same =
      rw (h.session_cookie, filled d.session_token h.session_drawn, found, open_, there)
        (accepted user r s h on current same)

  added_tables :
      (r : Session) (s t : Store)
      → add_session r s ≡ ok t
      → (t.sessions ≡ r ∷ s.sessions) × (t.users ≡ s.users)
  unfolding add_session
  added_tables r s t e = ground arith

  found_first :
      (r : Session) (rs : List Session) (t : Store)
      → t.sessions ≡ r ∷ rs
      → get_session_by_hash r.token_hash t ≡ some r
  unfolding get_session_by_hash first_where
  found_first r rs t e = simp (e, text_eq_refl r.token_hash)

  opened :
      (user : User) (remember : Bool)
      → later < now + ttl config remember
      → is_over later (new_session c config d now request user remember) ≡ false
  unfolding is_over new_session
  opened user remember in_time = ground arith

  -- The tables after a sign-in.
  LetsIn : AuthResult × Store → Type 0
  LetsIn b = (t : Store) × (get_optional_user c later next sent_hash b.1 ≡ ok (some b.0.user, t))

  create_session-LetsIn :
      (user : User) (remember : Bool) (s : Store)
      → Carries
      → get_user_by_id user.id s ≡ some user
      → user.status ≡ AccountStatus.active
      → later < now + ttl config remember
      → Ensures LetsIn (create_session c config d now request user remember s)
  unfolding create_session LetsIn get_user_by_id new_session
  create_session-LetsIn user remember s h there on in_time =
      Ensures-bind LetsIn (add_session (new_session c config d now request user remember) s) _
        (λ t added.
          let r : Session = new_session c config d now request user remember in
          let tables = added_tables r s t added in
          Ensures-ok LetsIn _ (
            save_session (record r { last_seen_at = later }) t,
            lets_in user r t h (found_first r s.sessions t tables.0) (opened user remember in_time)
                (rw tables.1 there) on refl refl,
          ))

  login_user-LetsIn :
      (u : Unicode) (payload : LoginRequest) (s : Store)
      → IsSound s
      → Carries
      → later < now + ttl config payload.remember
      → Ensures LetsIn (login_user u c config d now request payload s)
  unfolding login_user add_audit_event save_user get_user_by_id
  login_user-LetsIn u payload s sound h in_time =
      Ensures-bind LetsIn (or_raise Error.unauthorized (get_user_by_email u payload.email s)) _
        (λ user found.
          Ensures-guard LetsIn (not (c.verify_password user.password_hash payload.password)) _ _
            (λ known. Ensures-guard LetsIn (not (is_active user.status)) _ _ (λ on.
              Ensures-bind LetsIn (rehash u c d payload.password user) _ (λ user' same.
                create_session-LetsIn (record user' { last_active_at = now }) payload.remember _ h
                  (find-put_self user_key user'.id (record user' { last_active_at = now }) s.users
                    user refl
                    (rw (same_account u c config d payload.password now user user' same).0
                      (by_email u c config payload.email s user sound found)))
                  ((same_account u c config d payload.password now user user' same).2
                    ∙ enabled user.status on)
                  in_time))))

  -- If ids of users are distinct, a request that carries the cookies and the token of a sign-in
  -- before its session is over passes the middleware and is let in as the one who signed in.
  pub get_optional_user-login_user :
      (u : Unicode) (payload : LoginRequest) (s : Store) (b : AuthResult × Store)
      → IsSound s
      → Carries
      → later < now + ttl config payload.remember
      → login_user u c config d now request payload s ≡ ok b
      → (csrf_hash : Option Text) × (t : Store) × (dispatch c next ≡ ok csrf_hash)
        × (get_optional_user c later next csrf_hash b.1 ≡ ok (some b.0.user, t))
  unfolding LetsIn
  get_optional_user-login_user u payload s b sound h in_time e =
      let (t, admitted) = (login_user-LetsIn u payload s sound h in_time).holds b e in
      (sent_hash, t, dispatched h, admitted)
