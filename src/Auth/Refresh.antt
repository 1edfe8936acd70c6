-- ===== src/Auth/Refresh.antt =====
-- What `refresh` (cpa_first/auth/router.py) does to a presented token: rotation, reuse detection, errors.
use xeno_pre_test.Prelude.{ℕ, ◌+◌, ◌*◌, ◌≡◌, true, false, none, some, ◌∷◌, String, arith}
use xeno_pre_test.Auth.Model.{
  User, RefreshToken, Db, Settings, untouched, integrity_error, ok, err, run,
}
use xeno_pre_test.Auth.Library.{Library, Draws}
use xeno_pre_test.Auth.Repo.{
  find_user, find_token, find_active, is_revoked, is_active, contains_hash, revoke_hash,
  revoke_user,
}
use xeno_pre_test.Auth.Tokens.{create_access_token, micros}
use xeno_pre_test.Auth.Router.{
  TokenResponse, refresh_raw, refresh_cookie, user_out, bad_token, no_user,
}

module _ (lib : Library) (settings : Settings) where
  -- The response to a request that issued a session.
  abbrev pub session_of : Draws → User → TokenResponse
  session_of d u = record {
    access_token = create_access_token lib settings u.id u.role d;
    token_type = "bearer";
    expires_in = settings.jwt_access_ttl_seconds;
    user = user_out lib settings u;
  }

  abbrev pub minted : Draws → User → RefreshToken
  minted d u = record {
    user_id = u.id;
    token_hash = lib.sha256 d.plaintext;
    expires_at = d.minted_at + settings.jwt_refresh_ttl_seconds * micros;
    revoked_at = none;
  }

  abbrev pub rotated : Draws → String → User → Db → Db
  rotated d raw u db = record db {
    refresh_tokens = minted d u ∷ revoke_hash (lib.sha256 raw) d.revoked_at db.refresh_tokens;
  }

  pub find_active-some :
      (h : String) (now : ℕ) (db : Db) (t : RefreshToken)
      → find_active h now db ≡ some t
      → (find_token h db ≡ some t) × (is_active now t ≡ true)
  unfolding find_active
  find_active-some h now db t e = ground arith

  pub refresh_raw_rotates :
      (d : Draws) (raw : String) (db : Db) (t : RefreshToken) (u : User)
      → find_active (lib.sha256 raw) d.checked_at db ≡ some t
      → t.token_hash ≡ lib.sha256 raw
      → find_user t.user_id db ≡ some u
      → contains_hash
          (lib.sha256 d.plaintext)
          (revoke_hash t.token_hash d.revoked_at db.refresh_tokens)
        ≡ false
      → run (refresh_raw lib settings d raw) db
        ≡ (ok (session_of d u), refresh_cookie lib settings d.plaintext, rotated d raw u db)
  unfolding refresh_raw run
  refresh_raw_rotates d raw db t u found same account fresh = ground arith

  pub refresh_raw_unknown :
      (d : Draws) (raw : String) (db : Db)
      → find_active (lib.sha256 raw) d.checked_at db ≡ none
      → find_token (lib.sha256 raw) db ≡ none
      → run (refresh_raw lib settings d raw) db ≡ (err bad_token, untouched, db)
  unfolding refresh_raw run
  refresh_raw_unknown d raw db lost absent = ground arith

  -- A row that is stored, unrevoked and expired.
  pub refresh_raw_expired :
      (d : Draws) (raw : String) (db : Db) (t : RefreshToken)
      → find_active (lib.sha256 raw) d.checked_at db ≡ none
      → find_token (lib.sha256 raw) db ≡ some t
      → is_revoked t ≡ false
      → run (refresh_raw lib settings d raw) db ≡ (err bad_token, untouched, db)
  unfolding refresh_raw run
  refresh_raw_expired d raw db t lost stored unrevoked = ground arith

  pub refresh_raw_reused :
      (d : Draws) (raw : String) (db : Db) (t : RefreshToken)
      → find_active (lib.sha256 raw) d.checked_at db ≡ none
      → find_token (lib.sha256 raw) db ≡ some t
      → is_revoked t ≡ true
      → run (refresh_raw lib settings d raw) db ≡ (
        err bad_token,
        untouched,
        record db { refresh_tokens = revoke_user t.user_id d.revoked_at db.refresh_tokens },
      )
  unfolding refresh_raw run
  refresh_raw_reused d raw db t lost stored revoked = ground arith

  pub refresh_raw_orphan :
      (d : Draws) (raw : String) (db : Db) (t : RefreshToken)
      → find_active (lib.sha256 raw) d.checked_at db ≡ some t
      → find_user t.user_id db ≡ none
      → run (refresh_raw lib settings d raw) db ≡ (err no_user, untouched, db)
  unfolding refresh_raw run
  refresh_raw_orphan d raw db t found absent = ground arith

  -- The random token is one that is stored: the insert is refused and all is rolled back.
  pub refresh_raw_clash :
      (d : Draws) (raw : String) (db : Db) (t : RefreshToken) (u : User)
      → find_active (lib.sha256 raw) d.checked_at db ≡ some t
      → find_user t.user_id db ≡ some u
      → contains_hash
          (lib.sha256 d.plaintext)
          (revoke_hash t.token_hash d.revoked_at db.refresh_tokens)
        ≡ true
      → run (refresh_raw lib settings d raw) db ≡ (err integrity_error, untouched, db)
  unfolding refresh_raw run
  refresh_raw_clash d raw db t u found account clash = ground arith
