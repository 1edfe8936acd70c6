-- ===== src/Auth/Rows.antt =====
-- How the searches of Auth/Repo.antt see the rows after each write.
use xeno_pre_test.Prelude.{
  ℕ, ◌≡◌, refl, Bool, true, false, Option, none, some, List, [], ◌∷◌, first, String, All, arith,
  eq_iff,
}
use xeno_pre_test.Auth.Model.{User, RefreshToken}
use xeno_pre_test.Auth.Repo.{
  has_id, has_email, has_hash, is_revoked, contains_user, contains_hash, revoke_hash, revoke_user,
  set_password,
}

-- The row of this hash is revoked.
abbrev pub dead : String → List RefreshToken → Bool
dead h ts = elim (first (has_hash h) ts) [ none ↦ false | some t ↦ is_revoked t ]

abbrev pub owner : String → List RefreshToken → Option ℕ
owner h ts = elim (first (has_hash h) ts) [ none ↦ none | some t ↦ some t.user_id ]

abbrev pub known : ℕ → List User → Bool
known i us = elim (first (has_id i) us) [ none ↦ false | some _ ↦ true ]

-- Each token's owner is a stored account.
abbrev pub Owned : List User → List RefreshToken → Type 0
Owned us = All (λ t. known t.user_id us ≡ true)

-- Each hash is stored once.
abbrev pub UniqueHashes : List RefreshToken → Type 0
UniqueHashes [] = Unit
UniqueHashes (t ∷ ts) = (contains_hash t.token_hash ts ≡ false) × UniqueHashes ts

-- Each id and each address is stored once.
abbrev pub UniqueUsers : List User → Type 0
UniqueUsers [] = Unit
UniqueUsers (u ∷ us) = (contains_user u.id u.email us ≡ false) × UniqueUsers us

pub contains_hash-first :
    (h : String) (ts : List RefreshToken)
    → contains_hash h ts ≡ elim (first (has_hash h) ts) [ none ↦ false | some _ ↦ true ]
contains_hash-first h [] = refl
contains_hash-first h (t ∷ ts) = ground (arith, contains_hash-first h ts)

pub first-hash_eq :
    (h : String) (ts : List RefreshToken) (t : RefreshToken)
    → first (has_hash h) ts ≡ some t
    → t.token_hash ≡ h
first-hash_eq h [] t e = ground arith
first-hash_eq h (x ∷ ts) t e = ground (arith, eq_iff x.token_hash h, first-hash_eq h ts t)

pub first-id_known :
    (i : ℕ) (us : List User) (u : User) → first (has_id i) us ≡ some u → known u.id us ≡ true
first-id_known i [] u e = ground arith
first-id_known i (x ∷ us) u e = ground (arith, first-id_known i us u)

pub first-email_known :
    (m : String) (us : List User) (u : User)
    → first (has_email m) us ≡ some u
    → known u.id us ≡ true
first-email_known m [] u e = ground arith
first-email_known m (x ∷ us) u e = ground (arith, first-email_known m us u)

pub known-set_password :
    (i j : ℕ) (p : String) (us : List User) → known i (set_password j p us) ≡ known i us
unfolding set_password
known-set_password i j p [] = refl
known-set_password i j p (u ∷ us) = ground (arith, known-set_password i j p us)

module _ (h : String) (now : ℕ) where
  pub contains_hash-revoke_hash :
      (k : String) (ts : List RefreshToken)
      → contains_hash k (revoke_hash h now ts) ≡ contains_hash k ts
  unfolding revoke_hash
  contains_hash-revoke_hash k [] = refl
  contains_hash-revoke_hash k (t ∷ ts) = ground (arith, contains_hash-revoke_hash k ts)

  pub UniqueHashes-revoke_hash :
      (ts : List RefreshToken) → UniqueHashes ts → UniqueHashes (revoke_hash h now ts)
  unfolding revoke_hash
  UniqueHashes-revoke_hash [] u = tt
  UniqueHashes-revoke_hash (t ∷ ts) u =
      ground (arith, UniqueHashes-revoke_hash ts u.1, contains_hash-revoke_hash t.token_hash ts)

  pub Owned-revoke_hash :
      (us : List User) (ts : List RefreshToken) → Owned us ts → Owned us (revoke_hash h now ts)
  unfolding revoke_hash
  Owned-revoke_hash us [] o = tt
  Owned-revoke_hash us (t ∷ ts) o = ground (arith, Owned-revoke_hash us ts o.1)

  -- The row is revoked; the others stay as they are.
  pub dead-revoke_hash_self :
      (ts : List RefreshToken) → contains_hash h ts ≡ true → dead h (revoke_hash h now ts) ≡ true
  unfolding revoke_hash
  dead-revoke_hash_self [] c = ground arith
  dead-revoke_hash_self (t ∷ ts) c = ground (arith, dead-revoke_hash_self ts)

  pub dead-revoke_hash :
      (k : String) (ts : List RefreshToken)
      → dead k ts ≡ true
      → dead k (revoke_hash h now ts) ≡ true
  unfolding revoke_hash
  dead-revoke_hash k [] c = c
  dead-revoke_hash k (t ∷ ts) c = ground (arith, dead-revoke_hash k ts)

  pub owner-revoke_hash :
      (k : String) (ts : List RefreshToken) → owner k (revoke_hash h now ts) ≡ owner k ts
  unfolding revoke_hash
  owner-revoke_hash k [] = refl
  owner-revoke_hash k (t ∷ ts) = ground (arith, owner-revoke_hash k ts)

module _ (i now : ℕ) where
  pub contains_hash-revoke_user :
      (k : String) (ts : List RefreshToken)
      → contains_hash k (revoke_user i now ts) ≡ contains_hash k ts
  unfolding revoke_user
  contains_hash-revoke_user k [] = refl
  contains_hash-revoke_user k (t ∷ ts) = ground (arith, contains_hash-revoke_user k ts)

  pub UniqueHashes-revoke_user :
      (ts : List RefreshToken) → UniqueHashes ts → UniqueHashes (revoke_user i now ts)
  unfolding revoke_user
  UniqueHashes-revoke_user [] u = tt
  UniqueHashes-revoke_user (t ∷ ts) u =
      ground (arith, UniqueHashes-revoke_user ts u.1, contains_hash-revoke_user t.token_hash ts)

  pub Owned-revoke_user :
      (us : List User) (ts : List RefreshToken) → Owned us ts → Owned us (revoke_user i now ts)
  unfolding revoke_user
  Owned-revoke_user us [] o = tt
  Owned-revoke_user us (t ∷ ts) o = ground (arith, Owned-revoke_user us ts o.1)

  pub dead-revoke_user :
      (k : String) (ts : List RefreshToken)
      → dead k ts ≡ true
      → dead k (revoke_user i now ts) ≡ true
  unfolding revoke_user
  dead-revoke_user k [] c = c
  dead-revoke_user k (t ∷ ts) c = ground (arith, dead-revoke_user k ts)

  pub owner-revoke_user :
      (k : String) (ts : List RefreshToken) → owner k (revoke_user i now ts) ≡ owner k ts
  unfolding revoke_user
  owner-revoke_user k [] = refl
  owner-revoke_user k (t ∷ ts) = ground (arith, owner-revoke_user k ts)

  -- No token of the account is left unrevoked.
  pub dead-revoke_user_own :
      (k : String) (ts : List RefreshToken)
      → owner k ts ≡ some i
      → dead k (revoke_user i now ts) ≡ true
  unfolding revoke_user
  dead-revoke_user_own k [] e = ground arith
  dead-revoke_user_own k (t ∷ ts) e = ground (arith, dead-revoke_user_own k ts)

  -- The tokens of other accounts are untouched.
  pub first-revoke_user_other :
      (k : String) (ts : List RefreshToken) (t : RefreshToken)
      → first (has_hash k) ts ≡ some t
      → (t.user_id ≡ i → ⊥)
      → first (has_hash k) (revoke_user i now ts) ≡ some t
  unfolding revoke_user
  first-revoke_user_other k [] t e n = ground arith
  first-revoke_user_other k (x ∷ ts) t e n = ground (arith, first-revoke_user_other k ts t)
