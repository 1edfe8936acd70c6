-- ===== src/Api/Order.antt =====
-- The practice questions of cpa_first/api/main.py in the order of their ids, and what a page cuts off.
use text.Mathlib.TextPositions.{compare_refl}
use xeno_pre_test.Prelude.{
  ℕ, zero, suc, ◌≡◌, ◌≢◌, refl, ap, Bool, true, false, ◌==◌, List, [], ◌∷◌, ◌++◌, map, String,
  str_eq, eq_iff, str_leb, length, take, keep, All, arith, Bool-cases, inl, inr,
}
use xeno_pre_test.Api.Model.{Question, id_of}
use xeno_pre_test.Api.Practice.{practice_brief, Filters, passes, is_after, collect}

-- The ids are not empty, and each stands before all later ones.
abbrev pub Ascending : List Question → Type 0
Ascending [] = Unit
Ascending (m ∷ ms) =
    (id_of m ≢ "")
    × All (λ y. (str_leb (id_of m) (id_of y) ≡ true) × (str_leb (id_of y) (id_of m) ≡ false)) ms
    × Ascending ms

pub collect_lem :
    (f : Filters) (after : String) (n : ℕ) (ms : List Question)
    → collect f after n ms
      ≡ map practice_brief (take n (keep (is_after after) (keep (passes f) ms)))
unfolding collect
collect_lem f after zero ms = refl
collect_lem f after (suc n) [] = refl
collect_lem f after (suc n) (m ∷ ms) = elim (Bool-cases (passes f m)) [
  | inl p ↦ elim (Bool-cases (is_after after m)) [
    | inl a ↦ rw (p, a) (ap (λ bs. practice_brief m ∷ bs) (collect_lem f after n ms))
    | inr a ↦ rw (p, a) (collect_lem f after (suc n) ms)
  ]
  | inr p ↦ rw p (collect_lem f after (suc n) ms)
]

All-keep_of {ℓ} :
    (P : Question → Type ℓ) (p : Question → Bool) (ms : List Question)
    → All P ms
    → All P (keep p ms)
All-keep_of P p [] h = tt
All-keep_of P p (m ∷ ms) h = elim (Bool-cases (p m)) [
  | inl e ↦ rw e (h.0, All-keep_of P p ms h.1)
  | inr e ↦ rw e (All-keep_of P p ms h.1)
]

pub Ascending-keep :
    (p : Question → Bool) (ms : List Question) → Ascending ms → Ascending (keep p ms)
Ascending-keep p [] h = tt
Ascending-keep p (m ∷ ms) (e, b, h) = elim (Bool-cases (p m)) [
  | inl t ↦ rw t (e, All-keep_of _ p ms b, Ascending-keep p ms h)
  | inr t ↦ rw t (Ascending-keep p ms h)
]

-- All questions behind the cursor, and none up to it.
keep_every :
    (c : String) (ms : List Question)
    → All (λ y. str_leb (id_of y) c ≡ false) ms
    → keep (is_after c) ms ≡ ms
keep_every c [] h = refl
keep_every c (m ∷ ms) h = ground (arith, keep_every c ms h.1, h.0)

All-second : (P Q : Question → Type 0) (ms : List Question) → All (λ y. P y × Q y) ms → All Q ms
All-second P Q [] h = tt
All-second P Q (m ∷ ms) h = (h.0.1, All-second P Q ms h.1)

All-at :
    (P : Question → Type 0) (before : List Question) (m : Question) (later : List Question)
    → All P (before ++ m ∷ later)
    → P m
All-at P [] m later h = h.0
All-at P (b ∷ bs) m later h = All-at P bs m later h.1

Ascending-at :
    (before later : List Question) (m : Question) → Ascending (before ++ m ∷ later) → id_of m ≢ ""
Ascending-at [] later m h = h.0
Ascending-at (x ∷ before) later m h = Ascending-at before later m h.2

leb_refl : (s : String) → str_leb s s ≡ true
leb_refl s = rw (compare_refl s, str_leb) refl

not_after : (c : String) (x : Question) → c ≢ "" → str_leb (id_of x) c ≡ true → is_after c x ≡ false
not_after c x n h = elim (Bool-cases (str_eq c "")) [
  | inl s ↦ absurd (n ((eq_iff c "").0 s))
  | inr s ↦ rw (s, h) refl
]

pub keep_behind :
    (before later : List Question) (m : Question)
    → Ascending (before ++ m ∷ later)
    → keep (is_after (id_of m)) (before ++ m ∷ later) ≡ later
keep_behind [] later m (e, b, h) =
    let first_out = not_after (id_of m) m e (leb_refl (id_of m)) in
    rw first_out (keep_every (id_of m) later (All-second _ _ later b))
keep_behind (x ∷ before) later m (e, b, h) =
    let first_out =
      not_after (id_of m) x (Ascending-at before later m h) (All-at _ before m later b).0 in
    rw first_out (keep_behind before later m h)

-- The last item of a full page, and what stands before and behind it.
pub record Cut (n : ℕ) (ms : List Question) : Type 0 where
  pub before : List Question
  pub final : Question
  pub later : List Question
  pub split : ms ≡ before ++ final ∷ later
  pub page : take n ms ≡ before ++ final ∷ []

pub take-Cut : (k : ℕ) (ms : List Question) → length (take (suc k) ms) ≡ suc k → Cut (suc k) ms
take-Cut k [] h = absurd (omega (arith, h))
take-Cut zero (m ∷ ms) h = record { before = []; final = m; later = ms; split = refl; page = refl }
take-Cut (suc k) (m ∷ ms) h =
    let c = take-Cut k ms (omega (arith, h)) in
    record {
      before = m ∷ c.before;
      final = c.final;
      later = c.later;
      split = ap (λ l. m ∷ l) c.split;
      page = ap (λ l. m ∷ l) c.page;
    }

pub take_short : (n : ℕ) (ms : List Question) → (length (take n ms) == n) ≡ false → take n ms ≡ ms
take_short zero ms h = absurd (ground arith)
take_short (suc n) [] h = refl
take_short (suc n) (m ∷ ms) h = ap (λ l. m ∷ l) (take_short n ms (ground (arith, h)))
