-- ===== src/Auth/Tests.antt =====
-- Runs of the endpoints of cpa_first/auth on sample rows, and the theorems at them.
use xeno_pre_test.Prelude.{
  ◌≡◌, refl, sym, ◌∙◌, ◌≢◌, true, false, none, some, [], ◌∷◌, String, str_eq, eq_iff, arith,
}
use mathlib.Core.Bool.{false≢true}
use xeno_pre_test.Auth.Model.{User, RefreshToken, Db, Settings, ok, err, run}
use xeno_pre_test.Auth.Library.{Draws}
use xeno_pre_test.Auth.Repo.{
  find_user, find_active, is_active, contains_hash, get_user_by_email, normalize_email, create_user,
  create_refresh_token,
}
use xeno_pre_test.Auth.Tokens.{
  create_access_token, decode_access_token, read_claims, generate_refresh_token, claims,
  AccessClaims,
}
use xeno_pre_test.Auth.Router.{
  Credentials, issue_session, register, login, refresh, logout, bad_token,
}
use xeno_pre_test.Auth.Guard.{get_current_user, current_user_of, require_admin}
use xeno_pre_test.Auth.Refresh.{session_of}
use xeno_pre_test.Auth.Entry.{enrolled_user}
use xeno_pre_test.Auth.History.{
  Reach, here, next, registers, logs_in, logs_out, IsValid, Reach-IsValid,
}
use xeno_pre_test.Auth.Security.{
  LocksOut, Rotates, refresh-LocksOut, refresh-Rotates, reuse_is_final,
}
use xeno_pre_test.Auth.Identity.{
  get_current_user-create, require_admin_sound, login-register, Account, Reach-Account,
}
use xeno_pre_test.Auth.Sample.{sample}

abbrev settings : Settings
settings = record {
  jwt_secret = "k";
  jwt_access_ttl_seconds = 2;
  jwt_refresh_ttl_seconds = 9;
  bootstrap_first_user_admin = true;
  cookie_secure = true;
  cookie_samesite = "lax";
}

abbrev ada : User
ada = record { id = 1; email = "ada@cpa.kr"; password_hash = "password"; role = "admin" }

abbrev live_token : RefreshToken
live_token = record { user_id = 1; token_hash = "live"; expires_at = 9_000_000; revoked_at = none }

abbrev old_token : RefreshToken
old_token = record { user_id = 1; token_hash = "old"; expires_at = 9_000_000; revoked_at = some 5 }

abbrev rows : Db
rows = record { users = ada ∷ []; refresh_tokens = live_token ∷ old_token ∷ [] }

abbrev draws : String → Draws
draws plaintext = record {
  checked_at = 10;
  revoked_at = 11;
  issued_at = 12;
  minted_at = 13;
  user_uuid = 2;
  jti = "j";
  plaintext = plaintext;
  salt = "s";
}

abbrev bob : Credentials
bob = record { email = "bob@cpa.kr"; password = "long enough" }

differs : (s t : String) → str_eq s t ≡ false → s ≢ t
differs s t h e = false≢true (sym h ∙ (eq_iff s t).1 e)

rows-IsValid : IsValid rows
rows-IsValid = record {
  users = (refl, tt);
  hashes = (refl, (refl, tt));
  owned = (refl, (refl, tt));
}

live_is_active : find_active "live" 10 rows ≡ some live_token
unfolding find_active is_active
live_is_active = refl

abbrev later : Db
later = (run (refresh sample settings (draws "new") (some "old")) rows).2

after_lockout : Reach sample settings later (run (login sample settings (draws "next") bob) later).2
after_lockout = next here (logs_in (draws "next") bob)

two_requests :
    Reach sample settings rows
      (run
        (logout sample settings (draws "b") (some "live"))
        (run (register sample settings (draws "a") bob) rows).2).2
two_requests = next (next here (registers (draws "a") bob)) (logs_out (draws "b") (some "live"))

abbrev ada_token : String
ada_token = create_access_token sample settings 1 "admin" (draws "new")

ada_token_text : str_eq ada_token "" ≡ false
unfolding create_access_token
ada_token_text = refl

ada_is_admin : require_admin sample settings 20 (some ada_token) rows ≡ ok ada
unfolding require_admin get_current_user current_user_of decode_access_token read_claims
    create_access_token
ada_is_admin = refl

bob_registers :
    (run (register sample settings (draws "a") bob) rows).0
    ≡ ok (
        session_of sample settings (draws "a") (enrolled_user sample settings (draws "a") bob rows))
unfolding run register issue_session get_user_by_email normalize_email create_user
    create_refresh_token generate_refresh_token
bob_registers = refl

bob_is_new :
    contains_hash "b" (run (register sample settings (draws "a") bob) rows).2.refresh_tokens ≡ false
unfolding run register issue_session get_user_by_email normalize_email create_user
    create_refresh_token generate_refresh_token
bob_is_new = refl

refresh-Rotates_example :
    Rotates sample settings
      (draws "new")
      "live"
      ada
      9_000_013
      (run (refresh sample settings (draws "new") (some "live")) rows)
refresh-Rotates_example =
    refresh-Rotates sample settings (draws "new") "live" rows live_token ada 9_000_013
      (differs "live" "" refl) live_is_active refl refl (omega arith)

refresh-LocksOut_example :
    LocksOut "live" 1 (run (refresh sample settings (draws "new") (some "old")) rows)
refresh-LocksOut_example =
    refresh-LocksOut sample settings (draws "new") "old" "live" rows 1 (differs "old" "" refl)
      (refl, refl) refl

reuse_is_final_example :
    (run
      (refresh sample settings (draws "last") (some "live"))
      (run (login sample settings (draws "next") bob) later).2).0
    ≡ err bad_token
reuse_is_final_example =
    reuse_is_final sample settings (draws "new") (draws "last") "old" "live" rows
      (run (login sample settings (draws "next") bob) later).2 1 (differs "old" "" refl)
      (differs "live" "" refl) (refl, refl) refl after_lockout

Reach-IsValid_example :
    IsValid
      (run
        (logout sample settings (draws "b") (some "live"))
        (run (register sample settings (draws "a") bob) rows).2).2
Reach-IsValid_example =
    Reach-IsValid sample settings rows
      (run (logout sample settings (draws "b") (some "live"))
        (run (register sample settings (draws "a") bob) rows).2).2
      two_requests rows-IsValid

Reach-Account_example :
    Account 1 "ada@cpa.kr" "admin"
      (run
        (logout sample settings (draws "b") (some "live"))
        (run (register sample settings (draws "a") bob) rows).2).2
Reach-Account_example =
    Reach-Account sample settings 1 "ada@cpa.kr" "admin" rows
      (run (logout sample settings (draws "b") (some "live"))
        (run (register sample settings (draws "a") bob) rows).2).2
      two_requests (ada, refl, refl, refl)

get_current_user-create_example : get_current_user sample settings 20 (some ada_token) rows ≡ ok ada
get_current_user-create_example =
    get_current_user-create sample settings (draws "new") ada rows 20
      (differs ada_token "" ada_token_text) (omega arith) (omega arith) refl

require_admin_sound_example :
    (ada.role ≡ "admin")
    × ((token : String) × (c : AccessClaims) × (some ada_token ≡ some token)
        × (decode_access_token sample settings 20 token ≡ claims c)
        × (find_user c.user_id rows ≡ some ada))
require_admin_sound_example =
    require_admin_sound sample settings 20 (some ada_token) rows ada ada_is_admin

login-register_example :
    (run
      (login sample settings (draws "b") bob)
      (run (register sample settings (draws "a") bob) rows).2).0
    ≡ ok (
        session_of sample settings (draws "b") (enrolled_user sample settings (draws "a") bob rows))
login-register_example =
    login-register sample settings (draws "a") (draws "b") bob rows
      (session_of sample settings (draws "a") (enrolled_user sample settings (draws "a") bob rows))
      bob_registers bob_is_new
