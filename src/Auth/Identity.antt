-- ===== src/Auth/Identity.antt =====
-- Who a request may act as: access tokens and their reading (cpa_first/auth/tokens.py, dependencies.py),
-- and accounts under register and login (cpa_first/auth/router.py).
use xeno_pre_test.Prelude.{
  ℕ, ◌+◌, ◌*◌, ◌≤◌, ◌≡◌, ◌≢◌, refl, ◌∙◌, true, false, inl, inr, Option, none, some, List, [], ◌∷◌,
  first, str_eq, String, if◌then◌else◌, arith, eq_iff, eq_refl, Bool-cases, Option-cases,
}
use xeno_pre_test.Auth.Model.{User, Db, Settings, Result, ok, err, run}
use xeno_pre_test.Auth.Library.{Library, Draws}
use xeno_pre_test.Auth.Repo.{
  find_user, has_id, contains_user, contains_hash, set_password, add_user, add_token,
  get_user_by_email, normalize_email,
}
use xeno_pre_test.Auth.Tokens.{
  AccessClaims, Decoded, claims, rejected, not_access, invalid_subject, access_payload,
  create_access_token, decode_access_token, micros, verify_password,
}
use xeno_pre_test.Auth.Router.{Credentials, TokenResponse, register, login}
use xeno_pre_test.Auth.Guard.{get_current_user, current_user_of, require_admin, admit_role}
use xeno_pre_test.Auth.Refresh.{session_of, minted}
use xeno_pre_test.Auth.Entry.{
  enrolled_user, register_taken, register_clash_user, register_clash_token, register_enrolls,
  login_opens,
}
use xeno_pre_test.Auth.Change.{
  Change, same, revoked_one, revoked_all, issued, enrolled, rehashed, both,
}
use xeno_pre_test.Auth.History.{Reach, Reach-Change}

admit_role-ok :
    (role : String) (r : Result User) (u : User)
    → admit_role role r ≡ ok u
    → (r ≡ ok u) × (u.role ≡ role)
admit_role-ok role (ok v) u e = ground (arith, eq_iff v.role role)
admit_role-ok role (err x) u e = absurd (ground arith)

module _ (lib : Library) (settings : Settings) where
  open lib use {jwt_decode-encode, uuid_parse-text, argon_verify-hash}

  pub decode-create :
      (d : Draws) (i now : ℕ) (role : String)
      → d.issued_at ≤ now
      → now + micros ≤ d.issued_at + settings.jwt_access_ttl_seconds * micros
      → decode_access_token lib settings now (create_access_token lib settings i role d)
        ≡ claims (record { user_id = i; role = role; jti = d.jti })
  unfolding create_access_token decode_access_token
  decode-create d i now role begun unexpired = ground (
    arith,
    jwt_decode-encode settings.jwt_secret now (access_payload lib settings i role d) (omega arith)
        (omega arith),
    uuid_parse-text i,
    eq_refl "access",
  )

  -- A non-empty access token that was issued for a stored account `u` gives `u` as the current user, at any time
  -- from its issue until a second before the end of its lifetime.
  pub get_current_user-create :
      (d : Draws) (u : User) (db : Db) (now : ℕ)
      → create_access_token lib settings u.id u.role d ≢ ""
      → d.issued_at ≤ now
      → now + micros ≤ d.issued_at + settings.jwt_access_ttl_seconds * micros
      → find_user u.id db ≡ some u
      → get_current_user lib settings now (some (create_access_token lib settings u.id u.role d)) db
        ≡ ok u
  unfolding get_current_user current_user_of
  get_current_user-create d u db now nonempty begun unexpired stored = ground (
    arith,
    eq_iff (create_access_token lib settings u.id u.role d) "",
    decode-create d u.id now u.role begun unexpired,
  )

  current_user_of-ok :
      (now : ℕ) (token : String) (db : Db) (u : User)
      → current_user_of lib settings now token db ≡ ok u
      → (c : AccessClaims) × (decode_access_token lib settings now token ≡ claims c)
        × (find_user c.user_id db ≡ some u)
  unfolding current_user_of
  current_user_of-ok now token db u e = read (decode_access_token lib settings now token) refl
    where
      read :
          (o : Decoded)
          → decode_access_token lib settings now token ≡ o
          → (c : AccessClaims) × (decode_access_token lib settings now token ≡ claims c)
            × (find_user c.user_id db ≡ some u)
      read (claims c) f = (c, f, ground arith)
      read rejected f = absurd (ground arith)
      read not_access f = absurd (ground arith)
      read invalid_subject f = absurd (ground arith)

  nonempty_ok :
      (now : ℕ) (token : String) (db : Db) (u : User)
      → get_current_user lib settings now (some token) db ≡ ok u
      → current_user_of lib settings now token db ≡ ok u
  unfolding get_current_user
  nonempty_ok now token db u e = elim (Bool-cases (str_eq token "")) [
    | inl h ↦ absurd (ground (arith, rw h at e))
    | inr h ↦ rw h at e
  ]

  -- Where `require_admin` lets a request pass as `u`, the stored role of `u` is admin, and the request carried a
  -- token that decodes to claims for whose user id `u` is the stored account.
  pub require_admin_sound :
      (now : ℕ) (creds : Option String) (db : Db) (u : User)
      → require_admin lib settings now creds db ≡ ok u
      → (u.role ≡ "admin")
        × ((token : String) × (c : AccessClaims) × (creds ≡ some token)
            × (decode_access_token lib settings now token ≡ claims c)
            × (find_user c.user_id db ≡ some u))
  unfolding require_admin get_current_user
  require_admin_sound now none db u e = ground arith
  require_admin_sound now (some token) db u e =
      let (found, role) = admit_role-ok "admin" _ u e in
      let (c, decoded, stored) =
        current_user_of-ok now token db u (nonempty_ok now token db u found) in
      (role, (token, c, refl, decoded, stored))

  register_ok :
      (d : Draws) (c : Credentials) (db : Db) (r : TokenResponse)
      → (run (register lib settings d c) db).0 ≡ ok r
      → (run (register lib settings d c) db).2
        ≡ add_token
            (minted lib settings d (enrolled_user lib settings d c db))
            (add_user (enrolled_user lib settings d c db) db)
  register_ok d c db r done = elim (Option-cases (get_user_by_email lib c.email db)) [
    | inr (u, e) ↦ let f = register_taken lib settings d c db u e in absurd (ground arith)
    | inl e ↦ elim (Bool-cases (contains_user d.user_uuid (normalize_email lib c.email) db.users)) [
      | inl k ↦ let f = register_clash_user lib settings d c db e k in absurd (ground arith)
      | inr k ↦ elim (Bool-cases (contains_hash (lib.sha256 d.plaintext) db.refresh_tokens)) [
        | inl n ↦ let f = register_clash_token lib settings d c db e k n in absurd (ground arith)
        | inr n ↦ rw (register_enrolls lib settings d c db e k n)
      ]
    ]
  ]

  email_self :
      (d : Draws) (c : Credentials) (db : Db)
      → get_user_by_email lib c.email (
          add_token
            (minted lib settings d (enrolled_user lib settings d c db))
            (add_user (enrolled_user lib settings d c db) db))
        ≡ some (enrolled_user lib settings d c db)
  unfolding get_user_by_email
  email_self d c db = ground (arith, eq_refl (normalize_email lib c.email))

  -- Where a registration succeeded and the hash of the next refresh token is not stored after it, a login
  -- with the same credentials right afterwards succeeds, with a session for the account registered.
  pub login-register :
      (d d' : Draws) (c : Credentials) (db : Db) (r : TokenResponse)
      → (run (register lib settings d c) db).0 ≡ ok r
      → contains_hash
          (lib.sha256 d'.plaintext)
          (run (register lib settings d c) db).2.refresh_tokens
        ≡ false
      → (run (login lib settings d' c) (run (register lib settings d c) db).2).0
        ≡ ok (session_of lib settings d' (enrolled_user lib settings d c db))
  unfolding verify_password
  login-register d d' c db r done fresh =
      let u : User = enrolled_user lib settings d c db in
      let after : Db = add_token (minted lib settings d u) (add_user u db) in
      let stored = register_ok d c db r done in
      rw stored (
        rw (
          login_opens lib settings d' c after u (email_self d c db)
            (argon_verify-hash d.salt c.password) (rw stored at fresh)))

-- Account `i` is stored with this address and role.
abbrev pub Account : ℕ → String → String → Db → Type 0
Account i email role db =
    (u : User) × (find_user i db ≡ some u) × (u.email ≡ email) × (u.role ≡ role)

find_user-set_password :
    (i j : ℕ) (p : String) (us : List User) (u : User)
    → first (has_id i) us ≡ some u
    → (v : User) × (first (has_id i) (set_password j p us) ≡ some v)
      × (v.email ≡ u.email)
      × (v.role ≡ u.role)
unfolding set_password
find_user-set_password i j p [] u e = ground arith
find_user-set_password i j p (x ∷ us) u e = elim (Bool-cases (has_id i x)) [
  | inl h ↦ (
    if has_id j x then record x { password_hash = p } else x,
    ground arith,
    ground arith,
    ground arith,
  )
  | inr h ↦
      let (v, e', m, r) = find_user-set_password i j p us u (ground arith) in
      (v, ground arith, m, r)
]

contains_user-first :
    (i : ℕ) (m : String) (us : List User) (u : User)
    → first (has_id i) us ≡ some u
    → contains_user i m us ≡ true
contains_user-first i m [] u e = ground arith
contains_user-first i m (x ∷ us) u e = ground (arith, contains_user-first i m us u)

Change-Account :
    (i : ℕ) (email role : String) {db end : Db}
    → Change db end
    → Account i email role db
    → Account i email role end
Change-Account i email role (same db) a = a
Change-Account i email role (revoked_one db h now) a = a
Change-Account i email role (revoked_all db j now) a = a
Change-Account i email role (issued db t fresh account) a = a
Change-Account i email role (enrolled db v fresh) (u, e, m, r) =
    (u, ground (arith, contains_user-first i v.email db.users u e), m, r)
Change-Account i email role (rehashed db j p) (u, e, m, r) =
    let (v, e', m', r') = find_user-set_password i j p db.users u e in (v, e', m' ∙ m, r' ∙ r)
Change-Account i email role (both c e) a =
    Change-Account i email role e (Change-Account i email role c a)

module _ (lib : Library) (settings : Settings) where
  -- Account `i`, once stored with an address and a role, is stored with these after any sequence of
  -- requests.
  pub Reach-Account :
      (i : ℕ) (email role : String) (db end : Db)
      → Reach lib settings db end
      → Account i email role db
      → Account i email role end
  Reach-Account i email role db end r a =
      Change-Account i email role (Reach-Change lib settings r) a
