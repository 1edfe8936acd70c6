-- ===== src/Auth/History.antt =====
-- The life of the stored rows under any sequence of requests to cpa_first/auth/router.py.
use xeno_pre_test.Prelude.{
  ℕ, ◌≡◌, refl, ◌∙◌, true, Option, some, List, [], ◌∷◌, String, arith, eq_iff,
}
use xeno_pre_test.Auth.Model.{User, RefreshToken, Db, Settings, run}
use xeno_pre_test.Auth.Library.{Library, Draws}
use xeno_pre_test.Auth.Repo.{contains_user, contains_hash, set_password}
use xeno_pre_test.Auth.Router.{Credentials, register, login, refresh, logout}
use xeno_pre_test.Auth.Rows.{
  dead, owner, Owned, UniqueHashes, UniqueUsers, contains_hash-first, known-set_password,
  UniqueHashes-revoke_hash, UniqueHashes-revoke_user, Owned-revoke_hash, Owned-revoke_user,
  dead-revoke_hash, dead-revoke_user, owner-revoke_hash, owner-revoke_user,
}
use xeno_pre_test.Auth.Change.{
  Change, same, revoked_one, revoked_all, issued, enrolled, rehashed, both, register-Change,
  login-Change, refresh-Change, logout-Change,
}

-- One request, with whatever it presents and draws.
pub data Step (lib : Library) (settings : Settings) (db : Db) : Db → Type 0 where
  registers :
      (d : Draws) (c : Credentials) → Step lib settings db (run (register lib settings d c) db).2
  logs_in : (d : Draws) (c : Credentials) → Step lib settings db (run (login lib settings d c) db).2
  refreshes :
      (d : Draws) (raw : Option String)
      → Step lib settings db (run (refresh lib settings d raw) db).2
  logs_out :
      (d : Draws) (raw : Option String)
      → Step lib settings db (run (logout lib settings d raw) db).2

pub data Reach (lib : Library) (settings : Settings) (db : Db) : Db → Type 0 where
  here : Reach lib settings db db
  next :
      {mid end : Db}
      → Reach lib settings db mid
      → Step lib settings mid end
      → Reach lib settings db end

-- Addresses, ids and token hashes are stored once, and each token's owner is a stored account.
pub record IsValid (db : Db) : Type 0 where
  pub users : UniqueUsers db.users
  pub hashes : UniqueHashes db.refresh_tokens
  pub owned : Owned db.users db.refresh_tokens

module _ (i : ℕ) (p : String) where
  contains_user-set_password :
      (j : ℕ) (m : String) (us : List User)
      → contains_user j m (set_password i p us) ≡ contains_user j m us
  unfolding set_password
  contains_user-set_password j m [] = refl
  contains_user-set_password j m (u ∷ us) = ground (arith, contains_user-set_password j m us)

  UniqueUsers-set_password : (us : List User) → UniqueUsers us → UniqueUsers (set_password i p us)
  unfolding set_password
  UniqueUsers-set_password [] h = tt
  UniqueUsers-set_password (u ∷ us) h =
      ground (arith, UniqueUsers-set_password us h.1, contains_user-set_password u.id u.email us)

  Owned-set_password :
      (us : List User) (ts : List RefreshToken) → Owned us ts → Owned (set_password i p us) ts
  Owned-set_password us [] h = tt
  Owned-set_password us (t ∷ ts) h =
      (known-set_password t.user_id i p us ∙ h.0, Owned-set_password us ts h.1)

Owned-cons : (u : User) (us : List User) (ts : List RefreshToken) → Owned us ts → Owned (u ∷ us) ts
Owned-cons u us [] h = tt
Owned-cons u us (t ∷ ts) h = (ground arith, Owned-cons u us ts h.1)

Change-IsValid : {db end : Db} → Change db end → IsValid db → IsValid end
Change-IsValid (same db) v = v
Change-IsValid (revoked_one db h now) v = record {
  users = v.users;
  hashes = UniqueHashes-revoke_hash h now db.refresh_tokens v.hashes;
  owned = Owned-revoke_hash h now db.users db.refresh_tokens v.owned;
}
Change-IsValid (revoked_all db i now) v = record {
  users = v.users;
  hashes = UniqueHashes-revoke_user i now db.refresh_tokens v.hashes;
  owned = Owned-revoke_user i now db.users db.refresh_tokens v.owned;
}
Change-IsValid (issued db t fresh account) v = record {
  users = v.users;
  hashes = (fresh, v.hashes);
  owned = (account, v.owned);
}
Change-IsValid (enrolled db u fresh) v = record {
  users = (fresh, v.users);
  hashes = v.hashes;
  owned = Owned-cons u db.users db.refresh_tokens v.owned;
}
Change-IsValid (rehashed db i p) v = record {
  users = UniqueUsers-set_password i p db.users v.users;
  hashes = v.hashes;
  owned = Owned-set_password i p db.users db.refresh_tokens v.owned;
}
Change-IsValid (both c e) v = Change-IsValid e (Change-IsValid c v)

module _ (lib : Library) (settings : Settings) where
  pub Step-Change : {db end : Db} → Step lib settings db end → Change db end
  Step-Change {db} (registers d c) = register-Change lib settings d c db
  Step-Change {db} (logs_in d c) = login-Change lib settings d c db
  Step-Change {db} (refreshes d raw) = refresh-Change lib settings d raw db
  Step-Change {db} (logs_out d raw) = logout-Change lib settings d raw db

  pub Reach-Change : {db end : Db} → Reach lib settings db end → Change db end
  Reach-Change {db} here = same db
  Reach-Change (next r s) = both (Reach-Change r) (Step-Change s)

  -- Whatever requests follow one another, failed ones included, valid rows stay valid: each id, address and
  -- token hash is stored once, and each token belongs to a stored account.
  pub Reach-IsValid : (db end : Db) → Reach lib settings db end → IsValid db → IsValid end
  Reach-IsValid db end r v = Change-IsValid (Reach-Change r) v

-- The row of this hash is stored, is revoked and belongs to account `i`.
abbrev pub Spent : String → ℕ → Db → Type 0
Spent h i db = (dead h db.refresh_tokens ≡ true) × (owner h db.refresh_tokens ≡ some i)

dead_stored : (h : String) (ts : List RefreshToken) → dead h ts ≡ true → contains_hash h ts ≡ true
dead_stored h ts e = rw (contains_hash-first h ts) (ground arith)

Change-Spent : (h : String) (i : ℕ) {db end : Db} → Change db end → Spent h i db → Spent h i end
Change-Spent h i (same db) v = v
Change-Spent h i (revoked_one db k now) v = (
  dead-revoke_hash k now h db.refresh_tokens v.0,
  owner-revoke_hash k now h db.refresh_tokens ∙ v.1,
)
Change-Spent h i (revoked_all db j now) v = (
  dead-revoke_user j now h db.refresh_tokens v.0,
  owner-revoke_user j now h db.refresh_tokens ∙ v.1,
)
Change-Spent h i (issued db t fresh account) v =
    ground (arith, dead_stored h db.refresh_tokens v.0, eq_iff t.token_hash h)
Change-Spent h i (enrolled db u fresh) v = v
Change-Spent h i (rehashed db j p) v = v
Change-Spent h i (both c e) v = Change-Spent h i e (Change-Spent h i c v)

module _ (lib : Library) (settings : Settings) where
  pub Reach-Spent :
      (h : String) (i : ℕ) (db end : Db) → Reach lib settings db end → Spent h i db → Spent h i end
  Reach-Spent h i db end r v = Change-Spent h i (Reach-Change lib settings r) v
