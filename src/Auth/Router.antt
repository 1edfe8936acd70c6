-- ===== src/Auth/Router.antt =====
-- The endpoints of cpa_first/auth/router.py, behind the rate limiter: what each does to the rows and to
-- the refresh cookie. The dummy verification of an unknown account has no effect but its time.
use xeno_pre_test.Prelude.{
  ℕ, ◌==◌, true, false, ◌&&◌, not, Option, none, some, length, String, str_eq, if◌then◌else◌,
}
use xeno_pre_test.Auth.Model.{
  User, RefreshToken, Db, Settings, Cookie, cleared, assigned, Error, http, Action, pure, raise,
  gets, or_raise, ◌>>=◌, ◌>>◌, modify, raise_if, when, commit, write_cookie,
}
use xeno_pre_test.Auth.Library.{Library, Draws}
use xeno_pre_test.Auth.Repo.{
  find_user, find_token, find_active, is_revoked, get_user_by_email, create_user,
  create_refresh_token, revoke_refresh_token, revoke_all_user_refresh_tokens, set_password,
}
use xeno_pre_test.Auth.Tokens.{
  create_access_token, generate_refresh_token, RefreshTokenMaterial, verify_password, needs_rehash,
}

pub record UserOut : Type 0 where
  pub id : String
  pub email : String
  pub role : String

pub record TokenResponse : Type 0 where
  pub access_token : String
  pub token_type : String
  pub expires_in : ℕ
  pub user : UserOut

pub record Credentials : Type 0 where
  pub email : String
  pub password : String

abbrev pub conflict : Error
conflict = http 409 "email already registered"

abbrev pub bad_credentials : Error
bad_credentials = http 401 "invalid credentials"

abbrev pub no_token : Error
no_token = http 401 "no refresh token"

abbrev pub bad_token : Error
bad_token = http 401 "invalid or expired refresh token"

abbrev pub no_user : Error
no_user = http 401 "user not found"

module _ (lib : Library) (settings : Settings) where
  abbrev pub user_out : User → UserOut
  user_out u = record { id = lib.uuid_text u.id; email = u.email; role = u.role }

  -- `_set_refresh_cookie`
  abbrev pub refresh_cookie : String → Cookie
  refresh_cookie plaintext = assigned (record {
    value = plaintext;
    max_age = settings.jwt_refresh_ttl_seconds;
    httponly = true;
    secure = settings.cookie_secure;
    samesite = settings.cookie_samesite;
    path = "/auth";
  })

  -- `_issue_session`
  unfoldable pub issue_session : Draws → User → Action TokenResponse
  unfolding create_refresh_token generate_refresh_token
  issue_session d user = do
    let material : RefreshTokenMaterial = generate_refresh_token lib settings d
    create_refresh_token user.id material.token_hash material.expires_at
    write_cookie (refresh_cookie material.plaintext)
    pure (record {
      access_token = create_access_token lib settings user.id user.role d;
      token_type = "bearer";
      expires_in = settings.jwt_access_ttl_seconds;
      user = user_out user;
    })

  -- The first account is an administrator where the settings ask for it.
  abbrev pub first_role : Db → String
  first_role db =
      if settings.bootstrap_first_user_admin && (length db.users == 0) then "admin" else "user"

  unfoldable pub register : Draws → Credentials → Action TokenResponse
  unfolding create_user issue_session
  register d payload = do
    taken ← gets (get_user_by_email lib payload.email)
    raise_if (elim taken [ none ↦ false | some _ ↦ true ]) conflict
    role ← gets first_role
    user ← create_user lib d.user_uuid payload.email (lib.argon_hash d.salt payload.password) role
    result ← issue_session d user
    commit
    pure result

  abbrev pub rehash : Draws → User → String → Action (Unit {0})
  rehash d user password =
      modify
        (λ db. record db { users = set_password user.id (lib.argon_hash d.salt password) db.users })

  unfoldable pub login : Draws → Credentials → Action TokenResponse
  unfolding issue_session
  login d payload = do
    user ← or_raise (← gets (get_user_by_email lib payload.email)) bad_credentials
    raise_if (not (verify_password lib user.password_hash payload.password)) bad_credentials
    when (needs_rehash lib user.password_hash) (rehash d user payload.password)
    result ← issue_session d user
    commit
    pure result

  -- A token that is stored and revoked was rotated away: its return means theft.
  unfoldable pub detect_reuse : Draws → String → Action (Unit {0})
  unfolding revoke_all_user_refresh_tokens
  detect_reuse d token_hash = do
    stale ← gets (find_token token_hash)
    elim stale [
      | none ↦ pure tt
      | some t ↦
          when (is_revoked t) (revoke_all_user_refresh_tokens t.user_id d.revoked_at >> commit)
    ]

  -- The cookie is cleared on the response of the endpoint, which the raise drops: `run` sends no cookie.
  abbrev pub reject : Error → Action TokenResponse
  reject e = write_cookie cleared >> raise e

  -- A valid token is revoked and a new session issued.
  unfoldable pub rotate : Draws → RefreshToken → Action TokenResponse
  unfolding revoke_refresh_token issue_session
  rotate d t = do
    owner ← gets (find_user t.user_id)
    elim owner [
      | none ↦ reject no_user
      | some user ↦ do
        revoke_refresh_token t d.revoked_at
        result ← issue_session d user
        commit
        pure result
    ]

  -- `refresh` for a cookie that is there.
  unfoldable pub refresh_raw : Draws → String → Action TokenResponse
  unfolding rotate detect_reuse
  refresh_raw d raw = do
    let token_hash : String = lib.sha256 raw
    found ← gets (find_active token_hash d.checked_at)
    elim found [ none ↦ detect_reuse d token_hash >> reject bad_token | some t ↦ rotate d t ]

  -- The request's cookie; an empty one counts as none.
  unfoldable pub refresh : Draws → Option String → Action TokenResponse
  unfolding refresh_raw
  refresh d none = raise no_token
  refresh d (some raw) = if str_eq raw "" then raise no_token else refresh_raw d raw

  unfoldable pub logout_raw : Draws → String → Action (Unit {0})
  unfolding revoke_refresh_token
  logout_raw d raw = do
    found ← gets (find_active (lib.sha256 raw) d.checked_at)
    elim found [ none ↦ pure tt | some t ↦ revoke_refresh_token t d.revoked_at >> commit ]

  unfoldable pub logout : Draws → Option String → Action (Unit {0})
  unfolding logout_raw
  logout d none = write_cookie cleared
  logout d (some raw) =
      (if str_eq raw "" then pure tt else logout_raw d raw) >> write_cookie cleared
