-- ===== src/Prelude/Sort.antt =====
-- Python's `sorted`: stable, so it gives what insertion behind the equal items gives. The comparison
-- is a Boolean "may stand before".
use mathlib.Core.Path.{◌≡◌, refl, ap, ◌∙◌}
use mathlib.Core.Bool.{Bool, true, false}
use Prim.Native.Nat.{suc}
use native.Mathlib.Omega.{arith}
use mathlib.Core.List.{List, [], ◌∷◌, Perm}
use mathlib.Core.List.Perm
use xeno_pre_test.Prelude.Tests.{if◌then◌else◌, Bool-cases}
use xeno_pre_test.Prelude.Lists.{All, length}
use mathlib.Core.Logic.{inl, inr}

module _ {ℓ} {A : Type ℓ} (before : A → A → Bool) where
  unfoldable pub insort : A → List A → List A
  insort x [] = x ∷ []
  insort x (y ∷ ys) = if before x y then x ∷ y ∷ ys else y ∷ insort x ys

  unfoldable pub sorted : List A → List A
  unfolding insort
  sorted [] = []
  sorted (x ∷ xs) = insort x (sorted xs)

  insort-perm : (x : A) (xs : List A) → Perm (insort x xs) (x ∷ xs)
  unfolding insort
  insort-perm x [] = Perm.refl _
  insort-perm x (y ∷ ys) = elim (Bool-cases (before x y)) [
    | inl h ↦ rw h (Perm.refl _)
    | inr h ↦ rw h (Perm.trans (Perm.cons y (insort-perm x ys)) (Perm.swap x y ys))
  ]

  pub sorted-perm : (xs : List A) → Perm (sorted xs) xs
  unfolding sorted
  sorted-perm [] = Perm.refl _
  sorted-perm (x ∷ xs) = Perm.trans (insort-perm x (sorted xs)) (Perm.cons x (sorted-perm xs))

  -- Each item may stand before every later one.
  abbrev pub IsSorted : List A → Type ℓ
  IsSorted [] = Unit
  IsSorted (x ∷ xs) = All (λ y. before x y ≡ true) xs × IsSorted xs

  insort-All {κ} : (P : A → Type κ) (x : A) (xs : List A) → P x → All P xs → All P (insort x xs)
  unfolding insort
  insort-All P x [] p h = (p, tt)
  insort-All P x (y ∷ ys) p h = elim (Bool-cases (before x y)) [
    | inl e ↦ rw e (p, h)
    | inr e ↦ rw e (h.0, insort-All P x ys p h.1)
  ]

  pub sorted-All {κ} : (P : A → Type κ) (xs : List A) → All P xs → All P (sorted xs)
  unfolding sorted
  sorted-All P [] h = tt
  sorted-All P (x ∷ xs) h = insort-All P x (sorted xs) h.0 (sorted-All P xs h.1)

  length-insort : (x : A) (xs : List A) → length (insort x xs) ≡ suc (length xs)
  unfolding insort
  length-insort x [] = refl
  length-insort x (y ∷ ys) = ground (arith, length-insort x ys)

  pub length-sorted : (xs : List A) → length (sorted xs) ≡ length xs
  unfolding sorted
  length-sorted [] = refl
  length-sorted (x ∷ xs) = length-insort x (sorted xs) ∙ ap suc (length-sorted xs)

-- A total and transitive comparison sorts.
module _ {ℓ} {A : Type ℓ} (before : A → A → Bool)
    (total : (x y : A) → before x y ≡ false → before y x ≡ true)
    (trans : (x y z : A) → before x y ≡ true → before y z ≡ true → before x z ≡ true) where
  insort_behind :
      (x y : A) (ys : List A)
      → before x y ≡ true
      → All (λ z. before y z ≡ true) ys
      → All (λ z. before x z ≡ true) ys
  insort_behind x y [] h a = tt
  insort_behind x y (z ∷ zs) h a = (trans x y z h a.0, insort_behind x y zs h a.1)

  insort-IsSorted :
      (x : A) (xs : List A) → IsSorted before xs → IsSorted before (insort before x xs)
  unfolding insort
  insort-IsSorted x [] h = (tt, tt)
  insort-IsSorted x (y ∷ ys) h = elim (Bool-cases (before x y)) [
    | inl e ↦ rw e ((e, insort_behind x y ys e h.0), h)
    | inr e ↦ rw e (
      insort-All before (λ z. before y z ≡ true) x ys (total x y e) h.0,
      insort-IsSorted x ys h.1,
    )
  ]

  pub sorted-IsSorted : (xs : List A) → IsSorted before (sorted before xs)
  unfolding sorted
  sorted-IsSorted [] = tt
  sorted-IsSorted (x ∷ xs) = insort-IsSorted x (sorted before xs) (sorted-IsSorted xs)
