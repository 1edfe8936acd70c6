-- ===== src/Auth/Model.antt =====
-- The rows of users and refresh_tokens (cpa_first/db/models.py), the settings that the endpoints read
-- (cpa_first/config.py), and a request's work: a session over the database with its transaction
-- (cpa_first/db/session.py) and the cookie of the response. A UUID is a number, a time is in
-- microseconds. A token row is found by its hash, a unique column, in place of its own id.
use xeno_pre_test.Prelude.{ℕ, Bool, Option, none, some, List, String, if◌then◌else◌}

pub record User : Type 0 where
  pub id : ℕ
  pub email : String
  pub password_hash : String
  pub role : String

pub record RefreshToken : Type 0 where
  pub user_id : ℕ
  pub token_hash : String
  pub expires_at : ℕ
  pub revoked_at : Option ℕ

pub record Db : Type 0 where
  pub users : List User
  pub refresh_tokens : List RefreshToken

pub record Settings : Type 0 where
  pub jwt_secret : String
  pub jwt_access_ttl_seconds : ℕ
  pub jwt_refresh_ttl_seconds : ℕ
  pub bootstrap_first_user_admin : Bool
  pub cookie_secure : Bool
  pub cookie_samesite : String

-- What `response.set_cookie` is given.
pub record CookieValue : Type 0 where
  pub value : String
  pub max_age : ℕ
  pub httponly : Bool
  pub secure : Bool
  pub samesite : String
  pub path : String

pub data Cookie : Type 0 where
  untouched cleared : Cookie
  assigned : CookieValue → Cookie

-- An `HTTPException`, or the database's refusal of a duplicate in a unique column.
pub data Error : Type 0 where
  http : ℕ → String → Error
  integrity_error : Error

pub data Result {ℓ} (A : Type ℓ) : Type ℓ where
  ok : A → Result A
  err : Error → Result A

-- What the request has done: the rows as its transaction sees them, the rows last committed, and
-- the refresh cookie written to the response.
pub record Session : Type 0 where
  pub db : Db
  pub saved : Db
  pub cookie : Cookie

abbrev pub Action : Type 0 → Type 0
Action A = Session → Result A × Session

module _ {A : Type 0} where
  abbrev pub pure : A → Action A
  pure a s = (ok a, s)

  abbrev pub raise : Error → Action A
  raise e s = (err e, s)

  abbrev pub gets : (Db → A) → Action A
  gets f s = (ok (f s.db), s)

  -- The value, or the exception where there is `None`.
  abbrev pub or_raise : Option A → Error → Action A
  or_raise none e = raise e
  or_raise (some a) e = pure a

infixl 5 ◌>>=◌ ◌>>◌
abbrev pub ◌>>=◌ : {A B : Type 0} → Action A → (A → Action B) → Action B
◌>>=◌ m f s = let (r, s') = m s in elim r [ ok a ↦ f a s' | err e ↦ (err e, s') ]

abbrev pub ◌>>◌ : {A B : Type 0} → Action A → Action B → Action B
m >> k = m >>= λ _. k

abbrev pub modify : (Db → Db) → Action (Unit {0})
modify f s = (ok tt, record s { db = f s.db })

abbrev pub raise_if : Bool → Error → Action (Unit {0})
raise_if c e s = (if c then err e else ok tt, s)

abbrev pub when : Bool → Action (Unit {0}) → Action (Unit {0})
when c m s = if c then m s else (ok tt, s)

abbrev pub commit : Action (Unit {0})
commit s = (ok tt, record s { saved = s.db })

abbrev pub write_cookie : Cookie → Action (Unit {0})
write_cookie c s = (ok tt, record s { cookie = c })

-- The cookie that is sent: the handler of an exception answers with a response of its own
-- (cpa_first/api/main.py: _http_exc_handler), so what was written before a raise is lost.
abbrev pub sent : {A : Type 0} → Result A → Cookie → Cookie
sent (ok a) c = c
sent (err e) c = untouched

-- `get_db`: a request begins at the stored rows. What it did not commit is rolled back when it
-- raises, and dropped when the session closes.
unfoldable pub run : {A : Type 0} → Action A → Db → Result A × Cookie × Db
run m db =
    let (r, s) = m (record { db = db; saved = db; cookie = untouched }) in
    (r, sent r s.cookie, s.saved)
