-- ===== src/Auth/Guard.antt =====
-- cpa_first/auth/dependencies.py: who the caller is, from the access token alone.
use xeno_pre_test.Prelude.{ℕ, Option, none, some, String, str_eq, if◌then◌else◌}
use xeno_pre_test.Auth.Model.{User, Db, Settings, Error, http, Result, ok, err}
use xeno_pre_test.Auth.Library.{Library}
use xeno_pre_test.Auth.Repo.{find_user}
use xeno_pre_test.Auth.Tokens.{claims, decode_access_token}

abbrev pub unauthenticated : Error
unauthenticated = http 401 "authentication required"

abbrev pub bad_access : Error
bad_access = http 401 "invalid or expired token"

abbrev pub forbidden : Error
forbidden = http 403 "admin privilege required"

-- The account, if its role is the one that is asked for.
abbrev pub admit_role : String → Result User → Result User
admit_role role (ok u) = if str_eq u.role role then ok u else err forbidden
admit_role role (err e) = err e

module _ (lib : Library) (settings : Settings) where
  unfoldable pub current_user_of : ℕ → String → Db → Result User
  current_user_of now token db = elim (decode_access_token lib settings now token) [
    | claims c ↦ elim (find_user c.user_id db) [ none ↦ err unauthenticated | some u ↦ ok u ]
    | _ ↦ err bad_access
  ]

  -- The credentials of the Authorization header, if there are any.
  unfoldable pub get_current_user : ℕ → Option String → Db → Result User
  unfolding current_user_of
  get_current_user now none db = err unauthenticated
  get_current_user now (some token) db =
      if str_eq token "" then err unauthenticated else current_user_of now token db

  unfoldable pub optional_user_of : ℕ → String → Db → Option User
  optional_user_of now token db = elim (decode_access_token lib settings now token) [
    | claims c ↦ find_user c.user_id db
    | _ ↦ none
  ]

  unfoldable pub get_current_user_optional : ℕ → Option String → Db → Option User
  unfolding optional_user_of
  get_current_user_optional now none db = none
  get_current_user_optional now (some token) db =
      if str_eq token "" then none else optional_user_of now token db

  -- The role is the stored row's, never the token's.
  unfoldable pub require_admin : ℕ → Option String → Db → Result User
  unfolding get_current_user
  require_admin now creds db = admit_role "admin" (get_current_user now creds db)
