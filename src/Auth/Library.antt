-- ===== src/Auth/Library.antt =====
-- What cpa_first/auth calls and does not implement: argon2, PyJWT, hashlib, uuid and the text methods
-- `strip` and `lower`, with what their documentation promises. A call that may raise returns `none`.
use xeno_pre_test.Prelude.{ℕ, ◌<◌, ◌*◌, ◌+◌, ◌≡◌, Bool, true, Option, some, String}

-- The JWT's payload. `role` and `jti` are read by `payload.get`, with a default.
pub record Claims : Type 0 where
  pub sub : String
  pub role : Option String
  pub kind : String
  pub iat : ℕ
  pub exp : ℕ
  pub jti : Option String

pub record Library : Type 0 where
  -- `str.strip` and `str.lower`
  pub strip : String → String
  pub lower : String → String
  -- hashlib.sha256(...).hexdigest()
  pub sha256 : String → String
  -- argon2: the hash under a salt, `verify` (false: it raises), `check_needs_rehash`
  pub argon_hash : String → String → String
  pub argon_verify : String → String → Bool
  pub argon_check_needs_rehash : String → Option Bool
  pub argon_verify-hash :
      (salt password : String) → argon_verify (argon_hash salt password) password ≡ true
  -- PyJWT, at a time in microseconds: `none` where it raises `PyJWTError`
  pub jwt_encode : String → Claims → String
  pub jwt_decode : String → ℕ → String → Option Claims
  pub jwt_decode-encode :
      (secret : String) (now : ℕ) (c : Claims)
      → now < c.exp * 1_000_000
      → c.iat * 1_000_000 < now + 1
      → jwt_decode secret now (jwt_encode secret c) ≡ some c
  -- `str(u)` and `uuid.UUID(text)`
  pub uuid_text : ℕ → String
  pub uuid_parse : String → Option ℕ
  pub uuid_parse-text : (u : ℕ) → uuid_parse (uuid_text u) ≡ some u

-- What a request reads from the clock and the random sources, in the order of the calls.
pub record Draws : Type 0 where
  -- `get_active_refresh_token`, `revoke_refresh_token`, `create_access_token`,
  -- `generate_refresh_token`
  pub checked_at : ℕ
  pub revoked_at : ℕ
  pub issued_at : ℕ
  pub minted_at : ℕ
  pub user_uuid : ℕ
  pub jti : String
  pub plaintext : String
  pub salt : String
