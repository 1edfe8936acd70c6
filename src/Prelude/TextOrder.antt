-- ===== src/Prelude/TextOrder.antt =====
-- The order of texts by their code points is total and transitive, as Python's is.
use Prim.Native.Nat.{ℕ, compare as compare_ℕ, Ordering}
use Prim.Native.Char.{code}
use Prim.Native.String.{String, compare, then, [] as nil, ◌∷◌}
use Prim.Native.String.compare as by_compare
use mathlib.Core.Path.{◌≡◌, refl, sym, ap, ◌∙◌}
use mathlib.Core.Bool.{Bool, true, false, false≢true, ◌&&◌, ◌||◌}
use native.Mathlib.Omega.{arith}
use xeno_pre_test.Prelude.Tests.{◌==◌, ltb}
use xeno_pre_test.Prelude.Text.{str_leb}

-- Whether an outcome lets the left text stand first.
abbrev may_stand : Ordering → Bool
may_stand o = elim o [ Ordering.gt ↦ false | _ ↦ true ]

may_stand-then :
    (m n : ℕ) (o : Ordering)
    → may_stand (then (compare_ℕ m n) o) ≡ (ltb m n || ((m == n) && may_stand o))
may_stand-then m n Ordering.lt = ground arith
may_stand-then m n Ordering.eq = ground arith
may_stand-then m n Ordering.gt = ground arith

-- The first characters decide, or the rests.
str_leb-cons :
    (m n : ℕ) (o o' : Ordering)
    → o ≡ then (compare_ℕ m n) o'
    → may_stand o ≡ (ltb m n || ((m == n) && may_stand o'))
str_leb-cons m n o o' e = ap may_stand e ∙ may_stand-then m n o'

pub str_leb-total : (s t : String) → str_leb s t ≡ false → str_leb t s ≡ true
str_leb-total nil nil h = ap may_stand by_compare.nil-nil
str_leb-total nil (d ∷ t) h = absurd (false≢true (sym h ∙ ap may_stand (by_compare.nil-cons d t)))
str_leb-total (c ∷ s) nil h = ap may_stand (by_compare.nil-cons c s)
str_leb-total (c ∷ s) (d ∷ t) h =
    let forth =
      str_leb-cons (code c) (code d) (compare (c ∷ s) (d ∷ t)) (compare s t)
        (by_compare.cons-cons c d s t) in
    let back =
      str_leb-cons (code d) (code c) (compare (d ∷ t) (c ∷ s)) (compare t s)
        (by_compare.cons-cons d c t s) in
    back
    ∙ other_way (code c) (code d) (may_stand (compare s t)) (may_stand (compare t s))
        (str_leb-total s t) (sym forth ∙ h)
  where
    other_way :
        (m n : ℕ) (a b : Bool)
        → (a ≡ false → b ≡ true)
        → (ltb m n || ((m == n) && a)) ≡ false
        → (ltb n m || ((n == m) && b)) ≡ true
    other_way m n true b k e = ground arith
    other_way m n false b k e = ground (arith, k refl)

pub str_leb_trans : (s t u : String) → str_leb s t ≡ true → str_leb t u ≡ true → str_leb s u ≡ true
str_leb_trans nil t nil h k = ap may_stand by_compare.nil-nil
str_leb_trans nil t (e ∷ u) h k = ap may_stand (by_compare.nil-cons e u)
str_leb_trans (c ∷ s) nil u h k =
    absurd (false≢true (sym (ap may_stand (by_compare.cons-nil c s)) ∙ h))
str_leb_trans (c ∷ s) (d ∷ t) nil h k =
    absurd (false≢true (sym (ap may_stand (by_compare.cons-nil d t)) ∙ k))
str_leb_trans (c ∷ s) (d ∷ t) (e ∷ u) h k =
    let first =
      str_leb-cons (code c) (code d) (compare (c ∷ s) (d ∷ t)) (compare s t)
        (by_compare.cons-cons c d s t) in
    let second =
      str_leb-cons (code d) (code e) (compare (d ∷ t) (e ∷ u)) (compare t u)
        (by_compare.cons-cons d e t u) in
    let both =
      str_leb-cons (code c) (code e) (compare (c ∷ s) (e ∷ u)) (compare s u)
        (by_compare.cons-cons c e s u) in
    both
    ∙ onwards (code c) (code d) (code e) (may_stand (compare s t)) (may_stand (compare t u))
        (may_stand (compare s u)) (str_leb_trans s t u) (sym first ∙ h) (sym second ∙ k)
  where
    onwards :
        (m n p : ℕ) (a b x : Bool)
        → (a ≡ true → b ≡ true → x ≡ true)
        → (ltb m n || ((m == n) && a)) ≡ true
        → (ltb n p || ((n == p) && b)) ≡ true
        → (ltb m p || ((m == p) && x)) ≡ true
    onwards m n p true true x f v w = ground (arith, f refl refl)
    onwards m n p true false x f v w = ground arith
    onwards m n p false b x f v w = ground arith

-- The key `(-score, id)`: the higher score first, and of equal scores the smaller id.
abbrev pub higher_first : ℕ → String → ℕ → String → Bool
higher_first a i b j = ltb b a || ((a == b) && str_leb i j)

pub higher_first-total :
    (a b : ℕ) (i j : String) → higher_first a i b j ≡ false → higher_first b j a i ≡ true
higher_first-total a b i j h = by_id (str_leb i j) (str_leb j i) (str_leb-total i j) h
  where
    by_id :
        (x y : Bool)
        → (x ≡ false → y ≡ true)
        → (ltb b a || ((a == b) && x)) ≡ false
        → (ltb a b || ((b == a) && y)) ≡ true
    by_id true y f e = ground arith
    by_id false y f e = ground (arith, f refl)

pub higher_first_trans :
    (a b c : ℕ) (i j k : String)
    → higher_first a i b j ≡ true
    → higher_first b j c k ≡ true
    → higher_first a i c k ≡ true
higher_first_trans a b c i j k h g =
    by_ids (str_leb i j) (str_leb j k) (str_leb i k) (str_leb_trans i j k) h g
  where
    by_ids :
        (x y z : Bool)
        → (x ≡ true → y ≡ true → z ≡ true)
        → (ltb b a || ((a == b) && x)) ≡ true
        → (ltb c b || ((b == c) && y)) ≡ true
        → (ltb c a || ((a == c) && z)) ≡ true
    by_ids true true z f v w = ground (arith, f refl refl)
    by_ids true false z f v w = ground arith
    by_ids false y z f v w = ground arith
