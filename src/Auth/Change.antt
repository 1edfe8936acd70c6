-- ===== src/Auth/Change.antt =====
-- The primitive writes to the stored rows of which the endpoints of cpa_first/auth/router.py are made, whatever
-- the request, the clock and the random draws.
use xeno_pre_test.Prelude.{
  ℕ, ◌≡◌, ◌∙◌, inl, inr, true, false, Option, none, some, str_eq, String, arith, Bool-cases,
  Option-cases,
}
use xeno_pre_test.Auth.Model.{User, RefreshToken, Db, Settings, run}
use xeno_pre_test.Auth.Library.{Library, Draws}
use xeno_pre_test.Auth.Repo.{
  find_user, find_token, find_active, is_revoked, contains_user, contains_hash, revoke_hash,
  revoke_user, set_password, add_user, add_token, get_user_by_email, normalize_email,
}
use xeno_pre_test.Auth.Tokens.{verify_password, needs_rehash}
use xeno_pre_test.Auth.Router.{
  Credentials, register, login, refresh, refresh_raw, logout, logout_raw,
}
use xeno_pre_test.Auth.Rows.{
  known, first-hash_eq, first-id_known, first-email_known, known-set_password,
}
use xeno_pre_test.Auth.Entry.{
  enrolled_user, renewed, register_taken, register_clash_user, register_clash_token,
  register_enrolls, login_unknown, login_wrong, login_clash, login_opens, logout_raw_lost,
  logout_raw_ends,
}
use xeno_pre_test.Auth.Refresh.{
  minted, rotated, find_active-some, refresh_raw_unknown, refresh_raw_reused, refresh_raw_expired,
  refresh_raw_orphan, refresh_raw_clash, refresh_raw_rotates,
}

pub data Change : Db → Db → Type 0 where
  same : (db : Db) → Change db db
  revoked_one :
      (db : Db) (h : String) (now : ℕ)
      → Change db (record db { refresh_tokens = revoke_hash h now db.refresh_tokens })
  revoked_all :
      (db : Db) (i now : ℕ)
      → Change db (record db { refresh_tokens = revoke_user i now db.refresh_tokens })
  issued :
      (db : Db) (t : RefreshToken)
      → contains_hash t.token_hash db.refresh_tokens ≡ false
      → known t.user_id db.users ≡ true
      → Change db (add_token t db)
  enrolled :
      (db : Db) (u : User) → contains_user u.id u.email db.users ≡ false → Change db (add_user u db)
  rehashed :
      (db : Db) (i : ℕ) (p : String) → Change db (record db { users = set_password i p db.users })
  both : {db mid end : Db} → Change db mid → Change mid end → Change db end

module _ (lib : Library) (settings : Settings) where
  rotation-Change :
      (d : Draws) (raw h : String) (db : Db) (u : User)
      → h ≡ lib.sha256 raw
      → contains_hash (lib.sha256 d.plaintext) (revoke_hash h d.revoked_at db.refresh_tokens)
        ≡ false
      → known u.id db.users ≡ true
      → Change db (rotated lib settings d raw u db)
  rotation-Change d raw h db u same_hash fresh account =
      both (revoked_one db (lib.sha256 raw) d.revoked_at) (
        issued
          (record db {
            refresh_tokens = revoke_hash (lib.sha256 raw) d.revoked_at db.refresh_tokens;
          })
          (minted lib settings d u) (rw (← same_hash) fresh) account)

  refresh_found-Change :
      (d : Draws) (raw : String) (db : Db) (t : RefreshToken)
      → find_active (lib.sha256 raw) d.checked_at db ≡ some t
      → Change db (run (refresh_raw lib settings d raw) db).2
  refresh_found-Change d raw db t e = elim (Option-cases (find_user t.user_id db)) [
    | inl f ↦ rw (refresh_raw_orphan lib settings d raw db t e f) (same db)
    | inr (u, f) ↦
        let h_eq =
          first-hash_eq (lib.sha256 raw) db.refresh_tokens t
            (find_active-some lib settings (lib.sha256 raw) d.checked_at db t e).0 in
        elim (Bool-cases (
          contains_hash (lib.sha256 d.plaintext)
            (revoke_hash t.token_hash d.revoked_at db.refresh_tokens))) [
              | inl c ↦ rw (refresh_raw_clash lib settings d raw db t u e f c) (same db)
              | inr c ↦ rw (refresh_raw_rotates lib settings d raw db t u e h_eq f c) (
                  rotation-Change d raw t.token_hash db u h_eq c
                    (first-id_known t.user_id db.users u f))
            ]
  ]

  refresh_lost-Change :
      (d : Draws) (raw : String) (db : Db)
      → find_active (lib.sha256 raw) d.checked_at db ≡ none
      → Change db (run (refresh_raw lib settings d raw) db).2
  refresh_lost-Change d raw db e = elim (Option-cases (find_token (lib.sha256 raw) db)) [
    | inl f ↦ rw (refresh_raw_unknown lib settings d raw db e f) (same db)
    | inr (t, f) ↦ elim (Bool-cases (is_revoked t)) [
      | inl r ↦
          rw (refresh_raw_reused lib settings d raw db t e f r)
            (revoked_all db t.user_id d.revoked_at)
      | inr r ↦ rw (refresh_raw_expired lib settings d raw db t e f r) (same db)
    ]
  ]

  refresh_raw-Change :
      (d : Draws) (raw : String) (db : Db) → Change db (run (refresh_raw lib settings d raw) db).2
  refresh_raw-Change d raw db = elim (Option-cases (find_active (lib.sha256 raw) d.checked_at db)) [
    | inl e ↦ refresh_lost-Change d raw db e
    | inr (t, e) ↦ refresh_found-Change d raw db t e
  ]

  pub refresh-Change :
      (d : Draws) (raw : Option String) (db : Db)
      → Change db (run (refresh lib settings d raw) db).2
  unfolding refresh run
  refresh-Change d none db = same db
  refresh-Change d (some raw) db = elim (Bool-cases (str_eq raw "")) [
    | inl e ↦ rw e (same db)
    | inr e ↦ rw e (refresh_raw-Change d raw db)
  ]

  logout_raw-Change :
      (d : Draws) (raw : String) (db : Db) → Change db (run (logout_raw lib settings d raw) db).2
  logout_raw-Change d raw db = elim (Option-cases (find_active (lib.sha256 raw) d.checked_at db)) [
    | inl e ↦ rw (logout_raw_lost lib settings d raw db e) (same db)
    | inr (t, e) ↦
        rw (logout_raw_ends lib settings d raw db t e) (revoked_one db t.token_hash d.revoked_at)
  ]

  -- The cookie is cleared behind the revocation, and the rows stay as `logout_raw` left them.
  logout-raw :
      (d : Draws) (raw : String) (db : Db)
      → str_eq raw "" ≡ false
      → (run (logout lib settings d (some raw)) db).2 ≡ (run (logout_raw lib settings d raw) db).2
  unfolding logout run
  logout-raw d raw db e = ground arith

  pub logout-Change :
      (d : Draws) (raw : Option String) (db : Db) → Change db (run (logout lib settings d raw) db).2
  unfolding logout run
  logout-Change d none db = same db
  logout-Change d (some raw) db = elim (Bool-cases (str_eq raw "")) [
    | inl e ↦ rw e (same db)
    | inr e ↦ rw (logout-raw d raw db e) (logout_raw-Change d raw db)
  ]

  opened-Change :
      (d : Draws) (c : Credentials) (db : Db) (u : User)
      → contains_hash (lib.sha256 d.plaintext) db.refresh_tokens ≡ false
      → known u.id db.users ≡ true
      → Change db (add_token (minted lib settings d u) (renewed lib settings d c db u))
  opened-Change d c db u k h =
      let password : String = lib.argon_hash d.salt c.password in
      elim (Bool-cases (needs_rehash lib u.password_hash)) [
        | inr e ↦ rw e (issued db (minted lib settings d u) k h)
        | inl e ↦ rw e (
            both (rehashed db u.id password) (
              issued (record db { users = set_password u.id password db.users })
                (minted lib settings d u) k (known-set_password u.id u.id password db.users ∙ h)))
      ]

  email_owner :
      (c : Credentials) (db : Db) (u : User)
      → get_user_by_email lib c.email db ≡ some u
      → known u.id db.users ≡ true
  unfolding get_user_by_email
  email_owner c db u e = first-email_known _ db.users u e

  pub login-Change :
      (d : Draws) (c : Credentials) (db : Db) → Change db (run (login lib settings d c) db).2
  login-Change d c db = elim (Option-cases (get_user_by_email lib c.email db)) [
    | inl e ↦ rw (login_unknown lib settings d c db e) (same db)
    | inr (u, e) ↦ elim (Bool-cases (verify_password lib u.password_hash c.password)) [
      | inr w ↦ rw (login_wrong lib settings d c db u e w) (same db)
      | inl v ↦ elim (Bool-cases (contains_hash (lib.sha256 d.plaintext) db.refresh_tokens)) [
        | inl k ↦ rw (login_clash lib settings d c db u e v k) (same db)
        | inr k ↦
            rw (login_opens lib settings d c db u e v k)
              (opened-Change d c db u k (email_owner c db u e))
      ]
    ]
  ]

  pub register-Change :
      (d : Draws) (c : Credentials) (db : Db) → Change db (run (register lib settings d c) db).2
  register-Change d c db = elim (Option-cases (get_user_by_email lib c.email db)) [
    | inr (u, e) ↦ rw (register_taken lib settings d c db u e) (same db)
    | inl e ↦ elim (Bool-cases (contains_user d.user_uuid (normalize_email lib c.email) db.users)) [
      | inl k ↦ rw (register_clash_user lib settings d c db e k) (same db)
      | inr k ↦ elim (Bool-cases (contains_hash (lib.sha256 d.plaintext) db.refresh_tokens)) [
        | inl n ↦ rw (register_clash_token lib settings d c db e k n) (same db)
        | inr n ↦ rw (register_enrolls lib settings d c db e k n) (
            both (enrolled db (enrolled_user lib settings d c db) k) (
              issued (add_user (enrolled_user lib settings d c db) db)
                (minted lib settings d (enrolled_user lib settings d c db)) n (ground arith)))
      ]
    ]
  ]
