-- ===== src/Auth/Tokens.antt =====
-- cpa_first/auth/tokens.py and cpa_first/auth/passwords.py: the access token is a JWT, the refresh token
-- is random text of which only the hash is stored.
use xeno_pre_test.Prelude.{ℕ, ◌+◌, ◌*◌, ◌/◌, Bool, true, none, some, String, str_eq, if◌then◌else◌}
use xeno_pre_test.Auth.Model.{Settings}
use xeno_pre_test.Auth.Library.{Library, Claims, Draws}
use mathlib.Core.Option.{get_or}

abbrev pub micros : ℕ
micros = 1_000_000

pub record AccessClaims : Type 0 where
  pub user_id : ℕ
  pub role : String
  pub jti : String

-- `decode_access_token` raises `TokenError` for one of three reasons.
pub data Decoded : Type 0 where
  claims : AccessClaims → Decoded
  rejected not_access invalid_subject : Decoded

pub record RefreshTokenMaterial : Type 0 where
  pub plaintext : String
  pub token_hash : String
  pub expires_at : ℕ

module _ (lib : Library) (settings : Settings) where
  abbrev pub access_payload : ℕ → String → Draws → Claims
  access_payload user_id role d = record {
    sub = lib.uuid_text user_id;
    role = some role;
    kind = "access";
    iat = d.issued_at / micros;
    exp = (d.issued_at + settings.jwt_access_ttl_seconds * micros) / micros;
    jti = some d.jti;
  }

  unfoldable pub create_access_token : ℕ → String → Draws → String
  create_access_token user_id role d =
      lib.jwt_encode settings.jwt_secret (access_payload user_id role d)

  -- The payload's subject, once its type is right.
  unfoldable pub read_claims : Claims → Decoded
  read_claims c = elim (lib.uuid_parse c.sub) [
    | none ↦ invalid_subject
    | some u ↦ claims (record { user_id = u; role = get_or c.role "user"; jti = get_or c.jti "" })
  ]

  unfoldable pub decode_access_token : ℕ → String → Decoded
  unfolding read_claims
  decode_access_token now token = elim (lib.jwt_decode settings.jwt_secret now token) [
    | none ↦ rejected
    | some c ↦ if str_eq c.kind "access" then read_claims c else not_access
  ]

  unfoldable pub generate_refresh_token : Draws → RefreshTokenMaterial
  generate_refresh_token d = record {
    plaintext = d.plaintext;
    token_hash = lib.sha256 d.plaintext;
    expires_at = d.minted_at + settings.jwt_refresh_ttl_seconds * micros;
  }

-- passwords.py: every Argon2 error counts as a failed check, and as a reason to hash again. The stored hashes come
-- from `hash_password`; argon2's InvalidHash, a ValueError for a text that is no Argon2 hash, which the
-- source does not catch, is left out.
module _ (lib : Library) where
  unfoldable pub verify_password : String → String → Bool
  verify_password password_hash password = lib.argon_verify password_hash password

  unfoldable pub needs_rehash : String → Bool
  needs_rehash password_hash = get_or (lib.argon_check_needs_rehash password_hash) true
