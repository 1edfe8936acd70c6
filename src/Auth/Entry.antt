-- ===== src/Auth/Entry.antt =====
-- The branches of `register`, `login` and `logout` (cpa_first/auth/router.py).
use xeno_pre_test.Prelude.{◌≡◌, true, false, none, some, String, if◌then◌else◌, arith}
use xeno_pre_test.Auth.Model.{
  User, RefreshToken, Db, Settings, untouched, integrity_error, ok, err, run,
}
use xeno_pre_test.Auth.Library.{Library, Draws}
use xeno_pre_test.Auth.Repo.{
  find_active, contains_user, contains_hash, revoke_hash, set_password, add_user, add_token,
  get_user_by_email, normalize_email,
}
use xeno_pre_test.Auth.Tokens.{verify_password, needs_rehash}
use xeno_pre_test.Auth.Router.{
  Credentials, register, login, logout_raw, first_role, refresh_cookie, conflict, bad_credentials,
}
use xeno_pre_test.Auth.Refresh.{session_of, minted}

module _ (lib : Library) (settings : Settings) (d : Draws) (c : Credentials) (db : Db) where
  -- The account that `register` adds.
  abbrev pub enrolled_user : User
  enrolled_user = record {
    id = d.user_uuid;
    email = normalize_email lib c.email;
    password_hash = lib.argon_hash d.salt c.password;
    role = first_role lib settings db;
  }

  pub register_taken :
      (u : User)
      → get_user_by_email lib c.email db ≡ some u
      → run (register lib settings d c) db ≡ (err conflict, untouched, db)
  unfolding register run
  register_taken u taken = ground arith

  pub register_clash_user :
      get_user_by_email lib c.email db ≡ none
      → contains_user d.user_uuid (normalize_email lib c.email) db.users ≡ true
      → run (register lib settings d c) db ≡ (err integrity_error, untouched, db)
  unfolding register run
  register_clash_user free clash = ground arith

  pub register_clash_token :
      get_user_by_email lib c.email db ≡ none
      → contains_user d.user_uuid (normalize_email lib c.email) db.users ≡ false
      → contains_hash (lib.sha256 d.plaintext) db.refresh_tokens ≡ true
      → run (register lib settings d c) db ≡ (err integrity_error, untouched, db)
  unfolding register run
  register_clash_token free fresh clash = ground arith

  pub register_enrolls :
      get_user_by_email lib c.email db ≡ none
      → contains_user d.user_uuid (normalize_email lib c.email) db.users ≡ false
      → contains_hash (lib.sha256 d.plaintext) db.refresh_tokens ≡ false
      → run (register lib settings d c) db ≡ (
        ok (session_of lib settings d enrolled_user),
        refresh_cookie lib settings d.plaintext,
        add_token (minted lib settings d enrolled_user) (add_user enrolled_user db),
      )
  unfolding register run
  register_enrolls free fresh new = ground arith

  pub login_unknown :
      get_user_by_email lib c.email db ≡ none
      → run (login lib settings d c) db ≡ (err bad_credentials, untouched, db)
  unfolding login run
  login_unknown absent = ground arith

  pub login_wrong :
      (u : User)
      → get_user_by_email lib c.email db ≡ some u
      → verify_password lib u.password_hash c.password ≡ false
      → run (login lib settings d c) db ≡ (err bad_credentials, untouched, db)
  unfolding login run
  login_wrong u found wrong = ground arith

  pub login_clash :
      (u : User)
      → get_user_by_email lib c.email db ≡ some u
      → verify_password lib u.password_hash c.password ≡ true
      → contains_hash (lib.sha256 d.plaintext) db.refresh_tokens ≡ true
      → run (login lib settings d c) db ≡ (err integrity_error, untouched, db)
  unfolding login run
  login_clash u found right clash = ground arith

  -- The rows once an outdated password hash has been renewed.
  abbrev pub renewed : User → Db
  renewed u =
      if needs_rehash lib u.password_hash
      then record db { users = set_password u.id (lib.argon_hash d.salt c.password) db.users }
      else db

  pub login_opens :
      (u : User)
      → get_user_by_email lib c.email db ≡ some u
      → verify_password lib u.password_hash c.password ≡ true
      → contains_hash (lib.sha256 d.plaintext) db.refresh_tokens ≡ false
      → run (login lib settings d c) db ≡ (
        ok (session_of lib settings d u),
        refresh_cookie lib settings d.plaintext,
        add_token (minted lib settings d u) (renewed u),
      )
  unfolding login run
  login_opens u found right new = ground arith

module _ (lib : Library) (settings : Settings) (d : Draws) (raw : String) (db : Db) where
  pub logout_raw_lost :
      find_active (lib.sha256 raw) d.checked_at db ≡ none
      → run (logout_raw lib settings d raw) db ≡ (ok tt, untouched, db)
  unfolding logout_raw run
  logout_raw_lost lost = ground arith

  pub logout_raw_ends :
      (t : RefreshToken)
      → find_active (lib.sha256 raw) d.checked_at db ≡ some t
      → run (logout_raw lib settings d raw) db ≡ (
        ok tt,
        untouched,
        record db { refresh_tokens = revoke_hash t.token_hash d.revoked_at db.refresh_tokens },
      )
  unfolding logout_raw run
  logout_raw_ends t found = ground arith
