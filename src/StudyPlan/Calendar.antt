-- ===== src/StudyPlan/Calendar.antt =====
-- The weeks of a plan (cpa_first/engine/study_plan.py): their number, their order and their days.
use xeno_pre_test.Prelude.{
  ℕ, zero, suc, ◌+◌, ◌*◌, ◌≤◌, ◌<◌, ◌≡◌, refl, ◌∙◌, sym, ap, subst, Option, none, some, List, [],
  ◌∷◌, ◌++◌, length, drop, arith, length-append, String, ◌↔◌,
}
use xeno_pre_test.StudyPlan.Stage.{
  Stage, stage_order, stage_index, stage_index-lt, remaining_stages,
}
use xeno_pre_test.StudyPlan.Schedule.{sum, total_weeks, days_range, distribute_stage_weeks}
use xeno_pre_test.StudyPlan.Distribution.{Distributes, distribute-Distributes, counts_of}
use xeno_pre_test.StudyPlan.Weeks.{final_week, Week, stage_weeks, all_weeks, mark_last, plan_weeks}

length-stage_weeks :
    (days : ℕ) (s : Stage) (count i done left : ℕ)
    → length (stage_weeks days s count i done left) ≡ left
unfolding stage_weeks
length-stage_weeks days s count i done zero = refl
length-stage_weeks days s count i done (suc left) =
    ap suc (length-stage_weeks days s count (i + 1) (done + 1) left)

length-all_weeks :
    (days done : ℕ) (plan : List (Stage × ℕ))
    → length (all_weeks days done plan) ≡ sum (counts_of plan)
unfolding all_weeks sum
length-all_weeks days done [] = refl
length-all_weeks days done ((s, c) ∷ rest) = omega (
  arith,
  length-append (stage_weeks days s c 1 done c) (all_weeks days (done + c) rest),
  length-stage_weeks days s c 1 done c,
  length-all_weeks days (done + c) rest,
)

length-mark_last : (ws : List Week) → length (mark_last ws) ≡ length ws
unfolding mark_last
length-mark_last [] = refl
length-mark_last (w ∷ []) = refl
length-mark_last (w ∷ v ∷ ws) = ap suc (length-mark_last (v ∷ ws))

-- The weeks are numbered on from `done`, with the days of their numbers.
abbrev pub Numbered : ℕ → ℕ → List Week → Type 0
Numbered days done [] = Unit
Numbered days done (w ∷ ws) =
    (w.week_no ≡ done + 1) × (w.days ≡ days_range days (done + 1)) × Numbered days (done + 1) ws

Numbered-append :
    (days done : ℕ) (xs ys : List Week)
    → Numbered days done xs
    → Numbered days (done + length xs) ys
    → Numbered days done (xs ++ ys)
Numbered-append days done [] ys h k =
    subst (λ n. Numbered days n ys) (let e : done + 0 ≡ done = omega arith in e) k
Numbered-append days done (x ∷ xs) ys h k = (
  h.0,
  h.1,
  Numbered-append days (done + 1) xs ys h.2 (
      subst (λ n. Numbered days n ys)
        (let e : done + suc (length xs) ≡ done + 1 + length xs = omega arith in e) k),
)

stage_weeks-Numbered :
    (days : ℕ) (s : Stage) (count i done left : ℕ)
    → Numbered days done (stage_weeks days s count i done left)
unfolding stage_weeks
stage_weeks-Numbered days s count i done zero = tt
stage_weeks-Numbered days s count i done (suc left) =
    (refl, refl, stage_weeks-Numbered days s count (i + 1) (done + 1) left)

all_weeks-Numbered :
    (days done : ℕ) (plan : List (Stage × ℕ)) → Numbered days done (all_weeks days done plan)
unfolding all_weeks
all_weeks-Numbered days done [] = tt
all_weeks-Numbered days done ((s, c) ∷ rest) =
    Numbered-append days done (stage_weeks days s c 1 done c) (all_weeks days (done + c) rest)
      (stage_weeks-Numbered days s c 1 done c)
      (subst (λ n. Numbered days (done + n) (all_weeks days (done + c) rest))
        (sym (length-stage_weeks days s c 1 done c)) (all_weeks-Numbered days (done + c) rest))

mark_last-Numbered :
    (days done : ℕ) (ws : List Week) → Numbered days done ws → Numbered days done (mark_last ws)
unfolding mark_last
mark_last-Numbered days done [] h = tt
mark_last-Numbered days done (w ∷ []) h = h
mark_last-Numbered days done (w ∷ v ∷ ws) h =
    (h.0, h.1, mark_last-Numbered days (done + 1) (v ∷ ws) h.2)

-- The stages of the weeks, in order.
abbrev pub week_stages : List Week → List Stage
week_stages [] = []
week_stages (w ∷ ws) = w.stage ∷ week_stages ws

-- The last week, of a plan that has one.
abbrev pub last_week : List Week → Option Week
last_week [] = none
last_week (w ∷ []) = some w
last_week (w ∷ v ∷ ws) = last_week (v ∷ ws)

abbrev pub EndsFinal : Option Week → Type 0
EndsFinal none = ⊥
EndsFinal (some w) = w.milestone ≡ final_week

last-mark_last : (ws : List Week) → 0 < length ws → EndsFinal (last_week (mark_last ws))
unfolding mark_last
last-mark_last [] h = elim h [ ]
last-mark_last (w ∷ []) h = refl
last-mark_last (w ∷ v ∷ []) h = refl
last-mark_last (w ∷ v ∷ u ∷ ws) h = last-mark_last (v ∷ u ∷ ws) (omega arith)

drop-stage_order : (i : ℕ) → i < 6 → (s : Stage) × (ss : List Stage) × (drop i stage_order ≡ s ∷ ss)
drop-stage_order zero h = (_, _, refl)
drop-stage_order (suc zero) h = (_, _, refl)
drop-stage_order (suc (suc zero)) h = (_, _, refl)
drop-stage_order (suc (suc (suc zero))) h = (_, _, refl)
drop-stage_order (suc (suc (suc (suc zero)))) h = (_, _, refl)
drop-stage_order (suc (suc (suc (suc (suc zero))))) h = (_, _, refl)
drop-stage_order (suc (suc (suc (suc (suc (suc i)))))) h = absurd (omega arith)

-- `_remaining_stages` is never empty.
remaining_cons :
    (current : String) → (s : Stage) × (ss : List Stage) × (remaining_stages current ≡ s ∷ ss)
unfolding remaining_stages
remaining_cons current = drop-stage_order (stage_index current) (stage_index-lt current)

remaining-Distributes :
    (current : String) (weeks : ℕ)
    → Distributes
        (remaining_stages current)
        weeks
        (distribute_stage_weeks (remaining_stages current) weeks)
remaining-Distributes current weeks =
    let (s, ss, e) = remaining_cons current in rw e (distribute-Distributes s ss weeks)

total_weeks_pos : (days max_weeks : ℕ) → 0 < total_weeks days max_weeks
unfolding total_weeks
total_weeks_pos days max_weeks = omega arith

-- A plan has `_total_weeks` weeks, numbered from 1 on, each with the days range of its number, and its last
-- week has the milestone of the final check.
pub plan_weeks_lem :
    (days max_weeks : ℕ) (current : String)
    → let plan = plan_weeks days max_weeks current in
      (length plan ≡ total_weeks days max_weeks) × Numbered days 0 plan × EndsFinal (last_week plan)
unfolding plan_weeks
plan_weeks_lem days max_weeks current =
    let weeks = total_weeks days max_weeks in
    let spread = distribute_stage_weeks (remaining_stages current) weeks in
    let raw = all_weeks days 0 spread in
    let exact : length raw ≡ weeks =
      length-all_weeks days 0 spread ∙ (remaining-Distributes current weeks).exact in
    (
      length-mark_last raw ∙ exact,
      mark_last-Numbered days 0 raw (all_weeks-Numbered days 0 spread),
      last-mark_last raw (omega (arith, exact, total_weeks_pos days max_weeks)),
    )

-- Where week `k`, from 1 on, has 7 full days before the exam, it ends the day before the next week begins.
pub days_range-next :
    (days k : ℕ) → 1 ≤ k → 7 * k ≤ days → (days_range days k).1 ≡ (days_range days (k + 1)).0 + 1
unfolding days_range
days_range-next days k h g = omega arith

-- Where a plan may have a week at least, its last week ends on D-1 or D-0 exactly when the days until the
-- exam are at most 7 times the greatest number of weeks.
pub plan_reaches_eve :
    (days max_weeks : ℕ)
    → 1 ≤ max_weeks
    → ((days_range days (total_weeks days max_weeks)).1 ≤ 1) ↔ (days ≤ 7 * max_weeks)
unfolding days_range total_weeks
plan_reaches_eve days max_weeks h = (λ e. omega arith, λ e. omega arith)
