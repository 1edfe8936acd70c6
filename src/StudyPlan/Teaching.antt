-- ===== src/StudyPlan/Teaching.antt =====
-- The tutorials of a subject in the weeks of a plan (`_assign_week_content` of
-- cpa_first/engine/study_plan.py).
use xeno_pre_test.Prelude.{
  ℕ, zero, suc, ◌+◌, ◌-◌, ◌*◌, ◌/◌, ◌≤◌, ◌≡◌, refl, ◌∙◌, ap, inl, inr, Bool, true, false, ◌||◌,
  ◌==◌, List, [], ◌∷◌, ◌++◌, map, length, drop, keep, arith, Bool-cases, String, str_eq,
  take-append-drop, length-drop, length-map, All, All-take, All-drop, All-keep, sorted-All,
}
use xeno_pre_test.StudyPlan.Stage.{is_teaching}
use xeno_pre_test.StudyPlan.Content.{
  Tutorial, Item, tutorial, practice_set, real_exam_set, mock_exam_item, wrong_answer_review, Slot,
  chunks, ceil_div, teaching_count, hand_out, teach_with, tutorials_of, tutorial_before,
}
use native.Mathlib.Nat.{div-add-mod', mod-lt}

abbrev pub concat {ℓ} : {A : Type ℓ} → List (List A) → List A
concat [] = []
concat (x ∷ xs) = x ++ concat xs

-- A tutorial of this subject.
abbrev pub teaches : String → Item → Bool
teaches s (tutorial t) = str_eq t.subject s
teaches s (practice_set _ _) = false
teaches s (real_exam_set _ _ _) = false
teaches s (mock_exam_item _) = false
teaches s wrong_answer_review = false

-- The subject's tutorials, over the weeks in order.
unfoldable pub taught : String → List Slot → List Item
taught s [] = []
taught s (w ∷ ws) = keep (teaches s) w.content ++ taught s ws

module _ {ℓ} {A : Type ℓ} where
  -- With a chunk size of at least one, the rounds suffice and nothing is lost.
  concat-chunks :
      (rounds per : ℕ) (xs : List A)
      → 1 ≤ per
      → length xs ≤ rounds
      → concat (chunks rounds per xs) ≡ xs
  unfolding chunks
  concat-chunks zero per [] h r = refl
  concat-chunks zero per (x ∷ xs) h r = absurd (omega arith)
  concat-chunks (suc rounds) per [] h r = refl
  concat-chunks (suc rounds) per (x ∷ xs) h r =
      rw (concat-chunks rounds per (drop per (x ∷ xs)) h (omega (arith, length-drop per (x ∷ xs))))
        (take-append-drop per (x ∷ xs))

  length-chunks :
      (rounds per weeks : ℕ) (xs : List A)
      → 1 ≤ per
      → length xs ≤ per * weeks
      → length (chunks rounds per xs) ≤ weeks
  unfolding chunks
  length-chunks zero per weeks xs h r = omega arith
  length-chunks (suc rounds) per weeks [] h r = omega arith
  length-chunks (suc rounds) per zero (x ∷ xs) h r = absurd (omega arith)
  length-chunks (suc rounds) per (suc weeks) (x ∷ xs) h r =
      let rest =
        length-chunks rounds per weeks (drop per (x ∷ xs)) h
          (omega (arith, length-drop per (x ∷ xs))) in
      omega (arith, rest)

keep-append {ℓ} :
    {A : Type ℓ} (p : A → Bool) (xs ys : List A) → keep p (xs ++ ys) ≡ keep p xs ++ keep p ys
keep-append p [] ys = refl
keep-append p (x ∷ xs) ys = elim (Bool-cases (p x)) [
  | inl e ↦ rw (e, keep-append p xs ys)
  | inr e ↦ rw (e, keep-append p xs ys)
]

keep-All {ℓ} : {A : Type ℓ} (p : A → Bool) (xs : List A) → All (λ x. p x ≡ true) xs → keep p xs ≡ xs
keep-All p [] h = refl
keep-All p (x ∷ xs) h = rw (h.0, keep-All p xs h.1)

-- No week has a tutorial of this subject yet.
abbrev pub Untaught : String → List Slot → Type 0
Untaught s = All (λ w. keep (teaches s) w.content ≡ [])

Untaught-nil : (s : String) (ws : List Slot) → Untaught s ws → taught s ws ≡ []
unfolding taught
Untaught-nil s [] h = refl
Untaught-nil s (w ∷ ws) h = rw (h.0, Untaught-nil s ws h.1)

taught-hand_out :
    (s : String) (cs : List (List Item)) (ws : List Slot)
    → All (All (λ i. teaches s i ≡ true)) cs
    → Untaught s ws
    → length cs ≤ teaching_count ws
    → taught s (hand_out cs ws) ≡ concat cs
unfolding hand_out taught teaching_count
taught-hand_out s [] [] a u h = refl
taught-hand_out s (c ∷ cs) [] a u h = absurd (omega arith)
taught-hand_out s [] (w ∷ ws) a u h = Untaught-nil s (w ∷ ws) u
taught-hand_out s (c ∷ cs) (w ∷ ws) a u h = elim (Bool-cases (is_teaching w.stage)) [
  | inl e ↦ rw e (
      rw (keep-append (teaches s) w.content c) (
        rw (u.0, keep-All (teaches s) c a.0)
          (ap (λ l. c ++ l) (taught-hand_out s cs ws a.1 u.1 (ground (arith, e))))))
  | inr e ↦ rw e (rw u.0 (taught-hand_out s (c ∷ cs) ws a u.1 (ground (arith, e))))
]

pub All-chunks {ℓ} :
    {A : Type ℓ} (P : A → Type 0) (rounds per : ℕ) (xs : List A)
    → All P xs
    → All (All P) (chunks rounds per xs)
unfolding chunks
All-chunks P zero per xs h = tt
All-chunks P (suc rounds) per [] h = tt
All-chunks P (suc rounds) per (x ∷ xs) h = (
  All-take P per (x ∷ xs) h,
  All-chunks P rounds per (drop per (x ∷ xs)) (All-drop P per (x ∷ xs) h),
)

pub own_tutorials :
    (s : String) (ts : List Tutorial) → All (λ t. str_eq t.subject s ≡ true) (tutorials_of s ts)
unfolding tutorials_of
own_tutorials s ts =
    sorted-All tutorial_before (λ t. str_eq t.subject s ≡ true) (keep (λ t. str_eq t.subject s) ts)
      (All-keep (λ t. str_eq t.subject s) ts)

pub map-teaches :
    (s : String) (ts : List Tutorial)
    → All (λ t. str_eq t.subject s ≡ true) ts
    → All (λ i. teaches s i ≡ true) (map tutorial ts)
map-teaches s [] h = tt
map-teaches s (t ∷ ts) h = (h.0, map-teaches s ts h.1)

ceil_div_bounds : (m n : ℕ) → 1 ≤ m → 1 ≤ n → (1 ≤ ceil_div m n) × (m ≤ ceil_div m n * n)
ceil_div_bounds m n h k =
    let x = m + n - 1 in
    let enough : m ≤ x / n * n = omega (arith, div-add-mod' x n, mod-lt x k) in
    let some_each : 1 ≤ x / n = grind arith in (some_each, enough)

pub taught-teach_with :
    (s : String) (tuts : List Tutorial) (ws : List Slot)
    → All (λ t. str_eq t.subject s ≡ true) tuts
    → 1 ≤ teaching_count ws
    → Untaught s ws
    → taught s (teach_with tuts ws) ≡ map tutorial tuts
unfolding teach_with
taught-teach_with s [] ws own h u = Untaught-nil s ws u
taught-teach_with s (t ∷ ts) ws own h u =
    let tuts = t ∷ ts in
    let n = teaching_count ws in
    let per = ceil_div (length tuts) n in
    let items = map tutorial tuts in
    let size : length items ≡ length tuts = length-map tuts tutorial in
    let (some_each, enough) = ceil_div_bounds (length tuts) n (omega arith) h in
    let busy : ((length tuts == 0) || (n == 0)) ≡ false = ground arith in
    rw busy (
      taught-hand_out s (chunks (length tuts) per items) ws
        (All-chunks (λ i. teaches s i ≡ true) (length tuts) per items (map-teaches s tuts own)) u
        (length-chunks (length tuts) per n items some_each (omega (arith, size, enough)))
      ∙ concat-chunks (length tuts) per items some_each (omega (arith, size)))
