-- ===== src/Auth/Repo.antt =====
-- cpa_first/db/repositories.py, users and refresh tokens. An insert is flushed at once, and the
-- unique columns (users.email, refresh_tokens.token_hash) and the users' key refuse a duplicate.
use xeno_pre_test.Prelude.{
  ℕ, ◌==◌, ltb, Bool, true, false, not, ◌&&◌, ◌||◌, Option, none, some, List, [], ◌∷◌, first,
  str_eq, String, if◌then◌else◌,
}
use xeno_pre_test.Auth.Model.{
  User, RefreshToken, Db, integrity_error, Action, pure, gets, ◌>>=◌, ◌>>◌, modify, raise_if,
}
use xeno_pre_test.Auth.Library.{Library}

abbrev pub has_email : String → User → Bool
has_email email u = str_eq u.email email

abbrev pub has_id : ℕ → User → Bool
has_id i u = u.id == i

abbrev pub has_hash : String → RefreshToken → Bool
has_hash h t = str_eq t.token_hash h

abbrev pub is_revoked : RefreshToken → Bool
is_revoked t = elim t.revoked_at [ none ↦ false | some _ ↦ true ]

abbrev pub find_user : ℕ → Db → Option User
find_user i db = first (has_id i) db.users

abbrev pub find_email : String → Db → Option User
find_email email db = first (has_email email) db.users

-- `get_refresh_token_by_hash`: revoked and expired rows too.
abbrev pub find_token : String → Db → Option RefreshToken
find_token h db = first (has_hash h) db.refresh_tokens

unfoldable pub is_active : ℕ → RefreshToken → Bool
is_active now t = not (is_revoked t) && not (ltb t.expires_at now)

-- `get_active_refresh_token`
unfoldable pub find_active : String → ℕ → Db → Option RefreshToken
find_active h now db = elim (find_token h db) [
  | none ↦ none
  | some t ↦ if is_active now t then some t else none
]

abbrev pub contains_user : ℕ → String → List User → Bool
contains_user i email [] = false
contains_user i email (u ∷ us) = has_id i u || has_email email u || contains_user i email us

abbrev pub contains_hash : String → List RefreshToken → Bool
contains_hash h [] = false
contains_hash h (t ∷ ts) = has_hash h t || contains_hash h ts

abbrev pub add_user : User → Db → Db
add_user u db = record db { users = u ∷ db.users }

abbrev pub add_token : RefreshToken → Db → Db
add_token t db = record db { refresh_tokens = t ∷ db.refresh_tokens }

unfoldable pub revoke_hash : String → ℕ → List RefreshToken → List RefreshToken
revoke_hash h now [] = []
revoke_hash h now (t ∷ ts) =
    (if has_hash h t then record t { revoked_at = some now } else t) ∷ revoke_hash h now ts

unfoldable pub revoke_user : ℕ → ℕ → List RefreshToken → List RefreshToken
revoke_user i now [] = []
revoke_user i now (t ∷ ts) =
    (if t.user_id == i && not (is_revoked t) then record t { revoked_at = some now } else t)
    ∷ revoke_user i now ts

unfoldable pub set_password : ℕ → String → List User → List User
set_password i password_hash [] = []
set_password i password_hash (u ∷ us) =
    (if has_id i u then record u { password_hash = password_hash } else u)
    ∷ set_password i password_hash us

unfoldable pub create_refresh_token : ℕ → String → ℕ → Action (Unit {0})
create_refresh_token user_id token_hash expires_at = do
  clash ← gets (λ db. contains_hash token_hash db.refresh_tokens)
  raise_if clash integrity_error
  modify (
      add_token (record {
        user_id = user_id;
        token_hash = token_hash;
        expires_at = expires_at;
        revoked_at = none;
      }))

-- `revoke_refresh_token`
unfoldable pub revoke_refresh_token : RefreshToken → ℕ → Action (Unit {0})
revoke_refresh_token t now =
    modify (λ db. record db { refresh_tokens = revoke_hash t.token_hash now db.refresh_tokens })

-- `revoke_all_user_refresh_tokens`
unfoldable pub revoke_all_user_refresh_tokens : ℕ → ℕ → Action (Unit {0})
revoke_all_user_refresh_tokens user_id now =
    modify (λ db. record db { refresh_tokens = revoke_user user_id now db.refresh_tokens })

module _ (lib : Library) where
  unfoldable pub normalize_email : String → String
  normalize_email email = lib.lower (lib.strip email)

  unfoldable pub get_user_by_email : String → Db → Option User
  get_user_by_email email db = find_email (normalize_email email) db

  unfoldable pub create_user : ℕ → String → String → String → Action User
  create_user user_uuid email password_hash role = do
    let user : User = record {
      id = user_uuid;
      email = normalize_email email;
      password_hash = password_hash;
      role = role;
    }
    clash ← gets (λ db. contains_user user.id user.email db.users)
    raise_if clash integrity_error
    modify (add_user user)
    pure user
