-- ===== src/Auth/Security.antt =====
-- The refresh flow of cpa_first/auth/router.py under stolen and rotated tokens.
use xeno_pre_test.Prelude.{
  ℕ, ◌+◌, ◌*◌, ◌≤◌, ◌≡◌, ◌≢◌, refl, sym, ◌∙◌, ap, true, false, inl, inr, none, some, List, [], ◌∷◌,
  first, str_eq, String, arith, eq_iff, eq_refl, Bool-cases, Option-cases,
}
use xeno_pre_test.Auth.Model.{
  User, RefreshToken, Db, Settings, Cookie, untouched, Result, ok, err, run,
}
use xeno_pre_test.Auth.Library.{Library, Draws}
use xeno_pre_test.Auth.Repo.{
  find_user, find_token, find_active, has_id, is_revoked, is_active, contains_hash,
}
use xeno_pre_test.Auth.Tokens.{micros}
use xeno_pre_test.Auth.Router.{TokenResponse, refresh, refresh_raw, refresh_cookie, bad_token}
use xeno_pre_test.Auth.Rows.{
  dead, owner, contains_hash-first, first-hash_eq, dead-revoke_hash_self, dead-revoke_user_own,
  owner-revoke_hash, owner-revoke_user, contains_hash-revoke_hash,
}
use xeno_pre_test.Auth.Refresh.{
  session_of, minted, rotated, find_active-some, refresh_raw_rotates, refresh_raw_reused,
}
use xeno_pre_test.Auth.History.{Reach, Spent, Reach-Spent}

-- The request is refused, its response sends no cookie, and the token of hash `k` of account `i` is revoked.
abbrev pub LocksOut : String → ℕ → Result TokenResponse × Cookie × Db → Type 0
LocksOut k i (r, cookie, after) = (r ≡ err bad_token) × (cookie ≡ untouched) × Spent k i after

module _ (lib : Library) (settings : Settings) where
  refresh-raw :
      (d : Draws) (raw : String) (db : Db)
      → raw ≢ ""
      → run (refresh lib settings d (some raw)) db ≡ run (refresh_raw lib settings d raw) db
  unfolding refresh run
  refresh-raw d raw db h = elim (Bool-cases (str_eq raw "")) [
    | inl e ↦ absurd (h ((eq_iff raw "").0 e))
    | inr e ↦ rw e
  ]

  Spent-row :
      (h : String) (i : ℕ) (db : Db)
      → Spent h i db
      → (t : RefreshToken) × (find_token h db ≡ some t) × (is_revoked t ≡ true) × (t.user_id ≡ i)
  Spent-row h i db (gone, own) = elim (Option-cases (find_token h db)) [
    | inl e ↦ ground arith
    | inr (t, e) ↦ (t, e, ground arith, ground arith)
  ]

  spent_inactive :
      (h : String) (now : ℕ) (db : Db)
      → dead h db.refresh_tokens ≡ true
      → find_active h now db ≡ none
  unfolding find_active is_active
  spent_inactive h now db gone = ground arith

  -- A non-empty refresh token whose row is revoked and belongs to account `i` is refused when it is
  -- presented: the answer is the error for a bad token and leaves the client's cookie as it is, and every stored
  -- token `k` of that account is stored as revoked afterwards.
  pub refresh-LocksOut :
      (d : Draws) (raw k : String) (db : Db) (i : ℕ)
      → raw ≢ ""
      → Spent (lib.sha256 raw) i db
      → owner k db.refresh_tokens ≡ some i
      → LocksOut k i (run (refresh lib settings d (some raw)) db)
  refresh-LocksOut d raw k db i nonempty spent own =
      let (t, stored, revoked, mine) = Spent-row (lib.sha256 raw) i db spent in
      let lost = spent_inactive (lib.sha256 raw) d.checked_at db spent.0 in
      rw (refresh-raw d raw db nonempty) (
        rw (refresh_raw_reused lib settings d raw db t lost stored revoked) (
          refl,
          refl,
          (
            dead-revoke_user_own t.user_id d.revoked_at k db.refresh_tokens
                (own ∙ ap some (sym mine)),
            owner-revoke_user t.user_id d.revoked_at k db.refresh_tokens ∙ own,
          ),
        ))

  refresh_bad :
      (d : Draws) (raw : String) (db : Db) (i : ℕ)
      → raw ≢ ""
      → Spent (lib.sha256 raw) i db
      → (run (refresh lib settings d (some raw)) db).0 ≡ err bad_token
  refresh_bad d raw db i nonempty spent =
      (refresh-LocksOut d raw (lib.sha256 raw) db i nonempty spent spent.1).0

  -- Once a non-empty revoked token of account `i` has been presented, a non-empty token that this account had
  -- then is answered with the error for a bad token, whatever requests come between.
  pub reuse_is_final :
      (d d' : Draws) (raw other : String) (db end : Db) (i : ℕ)
      → raw ≢ ""
      → other ≢ ""
      → Spent (lib.sha256 raw) i db
      → owner (lib.sha256 other) db.refresh_tokens ≡ some i
      → Reach lib settings (run (refresh lib settings d (some raw)) db).2 end
      → (run (refresh lib settings d' (some other)) end).0 ≡ err bad_token
  reuse_is_final d d' raw other db end i nonempty nonempty' spent own r =
      refresh_bad d' other end i nonempty' (
        Reach-Spent lib settings (lib.sha256 other) i _ end r
          ((refresh-LocksOut d raw (lib.sha256 other) db i nonempty spent own).2))

  active_stored :
      (h : String) (now : ℕ) (db : Db) (t : RefreshToken)
      → find_active h now db ≡ some t
      → contains_hash h db.refresh_tokens ≡ true
  active_stored h now db t e =
      rw (contains_hash-first h db.refresh_tokens, (find_active-some lib settings h now db t e).0)

  id_of_found : (i : ℕ) (us : List User) (u : User) → first (has_id i) us ≡ some u → u.id ≡ i
  id_of_found i [] u e = ground arith
  id_of_found i (x ∷ us) u e = ground (arith, id_of_found i us u)

  -- A session for `u`, a cookie with the new token, the old token revoked, and the new one accepted at
  -- the time `now`.
  abbrev pub Rotates : Draws → String → User → ℕ → Result TokenResponse × Cookie × Db → Type 0
  Rotates d raw u now (r, cookie, after) =
      (r ≡ ok (session_of lib settings d u))
      × (cookie ≡ refresh_cookie lib settings d.plaintext)
      × Spent (lib.sha256 raw) u.id after
      × (find_active (lib.sha256 d.plaintext) now after ≡ some (minted lib settings d u))

  rotated-Spent :
      (d : Draws) (raw : String) (db : Db) (t : RefreshToken) (u : User)
      → find_active (lib.sha256 raw) d.checked_at db ≡ some t
      → find_user t.user_id db ≡ some u
      → contains_hash (lib.sha256 d.plaintext) db.refresh_tokens ≡ false
      → Spent (lib.sha256 raw) u.id (rotated lib settings d raw u db)
  rotated-Spent d raw db t u found account fresh =
      let h : String = lib.sha256 raw in
      let stored = active_stored h d.checked_at db t found in
      let row = (find_active-some lib settings h d.checked_at db t found).0 in
      ground (
        arith,
        stored,
        row,
        fresh,
        eq_iff (lib.sha256 d.plaintext) h,
        dead-revoke_hash_self h d.revoked_at db.refresh_tokens stored,
        owner-revoke_hash h d.revoked_at h db.refresh_tokens,
        id_of_found t.user_id db.users u account,
      )

  minted_active :
      (d : Draws) (raw : String) (db : Db) (u : User) (now : ℕ)
      → now ≤ d.minted_at + settings.jwt_refresh_ttl_seconds * micros
      → find_active (lib.sha256 d.plaintext) now (rotated lib settings d raw u db)
        ≡ some (minted lib settings d u)
  unfolding find_active is_active
  minted_active d raw db u now h = ground (arith, eq_refl (lib.sha256 d.plaintext))

  -- A non-empty refresh token that is active and whose account `u` is stored is rotated, where the hash of
  -- the new token is not stored yet: the answer is a session for `u`, the cookie carries the new token, the
  -- old one is stored as revoked, and the new one is active at any time `now` up to its expiry.
  pub refresh-Rotates :
      (d : Draws) (raw : String) (db : Db) (t : RefreshToken) (u : User) (now : ℕ)
      → raw ≢ ""
      → find_active (lib.sha256 raw) d.checked_at db ≡ some t
      → find_user t.user_id db ≡ some u
      → contains_hash (lib.sha256 d.plaintext) db.refresh_tokens ≡ false
      → now ≤ d.minted_at + settings.jwt_refresh_ttl_seconds * micros
      → Rotates d raw u now (run (refresh lib settings d (some raw)) db)
  refresh-Rotates d raw db t u now nonempty found account fresh alive =
      let h : String = lib.sha256 raw in
      let same =
        first-hash_eq h db.refresh_tokens t
          (find_active-some lib settings h d.checked_at db t found).0 in
      let new =
        contains_hash-revoke_hash t.token_hash d.revoked_at (lib.sha256 d.plaintext)
          db.refresh_tokens
        ∙ fresh in
      rw (refresh-raw d raw db nonempty) (
        rw (refresh_raw_rotates lib settings d raw db t u found same account new) (
          refl,
          refl,
          rotated-Spent d raw db t u found account fresh,
          minted_active d raw db u now alive,
        ))
