-- ===== src/StudyPlan/Spread.antt =====
-- Which weeks of a plan get the tutorials of a subject (`_assign_week_content` of
-- cpa_first/engine/study_plan.py).
use xeno_pre_test.Prelude.{
  ℕ, zero, suc, ◌≤◌, ◌≡◌, ◌⊎◌, refl, sym, inl, inr, true, ◌||◌, ◌==◌, List, [], ◌∷◌, ◌++◌, map,
  String, str_eq, drop, length, length-take, All, arith, Bool-cases,
}
use mathlib.Core.List.{append-nil}
use xeno_pre_test.StudyPlan.Stage.{is_teaching}
use xeno_pre_test.StudyPlan.Content.{
  Tutorial, Item, tutorial, Slot, chunks, ceil_div, teaching_count, hand_out, teach_with,
  teach_subject, tutorials_of,
}
use xeno_pre_test.StudyPlan.Teaching.{
  teaches, taught, Untaught, All-chunks, own_tutorials, map-teaches, taught-teach_with,
}

-- The stages are those of before, and behind its content each week has new tutorials of the subject: at most `per`,
-- and in a week that is not of a teaching stage none.
abbrev pub Spread : String → ℕ → List Slot → List Slot → Type 0
Spread s per [] [] = Unit
Spread s per [] (v ∷ vs) = ⊥
Spread s per (w ∷ ws) [] = ⊥
Spread s per (w ∷ ws) (v ∷ vs) =
    (v.stage ≡ w.stage)
    × ((added : List Item) × (v.content ≡ w.content ++ added)
        × All (λ i. teaches s i ≡ true) added
        × (length added ≤ per)
        × ((is_teaching w.stage ≡ true) ⊎ (added ≡ [])))
    × Spread s per ws vs

module _ (s : String) (per : ℕ) where
  Spread-same : (ws : List Slot) → Spread s per ws ws
  Spread-same [] = tt
  Spread-same (w ∷ ws) =
      (refl, ([], sym (append-nil w.content), tt, omega arith, inr refl), Spread-same ws)

  hand_out-Spread :
      (cs : List (List Item)) (ws : List Slot)
      → All (All (λ i. teaches s i ≡ true)) cs
      → All (λ c. length c ≤ per) cs
      → Spread s per ws (hand_out cs ws)
  unfolding hand_out
  hand_out-Spread [] [] own small = tt
  hand_out-Spread (c ∷ cs) [] own small = tt
  hand_out-Spread [] (w ∷ ws) own small = Spread-same (w ∷ ws)
  hand_out-Spread (c ∷ cs) (w ∷ ws) own small = elim (Bool-cases (is_teaching w.stage)) [
    | inl e ↦ rw e (refl, (c, refl, own.0, small.0, inl e), hand_out-Spread cs ws own.1 small.1)
    | inr e ↦ rw e (
      refl,
      ([], sym (append-nil w.content), tt, omega arith, inr refl),
      hand_out-Spread (c ∷ cs) ws own small,
    )
  ]

small_chunks {ℓ} :
    {A : Type ℓ} (rounds per : ℕ) (xs : List A) → All (λ c. length c ≤ per) (chunks rounds per xs)
unfolding chunks
small_chunks zero per xs = tt
small_chunks (suc rounds) per [] = tt
small_chunks (suc rounds) per (x ∷ xs) =
    (omega (arith, length-take per (x ∷ xs)), small_chunks rounds per (drop per (x ∷ xs)))

teach_with-Spread :
    (s : String) (tuts : List Tutorial) (ws : List Slot)
    → All (λ t. str_eq t.subject s ≡ true) tuts
    → Spread s (ceil_div (length tuts) (teaching_count ws)) ws (teach_with tuts ws)
unfolding teach_with
teach_with-Spread s tuts ws own =
    let per = ceil_div (length tuts) (teaching_count ws) in
    elim (Bool-cases ((length tuts == 0) || (teaching_count ws == 0))) [
      | inl e ↦ rw e (Spread-same s per ws)
      | inr e ↦ rw e (
          hand_out-Spread s per (chunks (length tuts) per (map tutorial tuts)) ws
            (All-chunks (λ i. teaches s i ≡ true) (length tuts) per (map tutorial tuts)
              (map-teaches s tuts own))
            (small_chunks (length tuts) per (map tutorial tuts)))
    ]

-- Where there is a week of a teaching stage and no week has a tutorial of subject `s` yet, the weeks together
-- get exactly the tutorials of `s`, each once and in their order; and each week keeps its stage and its
-- content and gets tutorials of `s` behind it, at most as many as there are tutorials for each teaching week,
-- rounded up, and none if its stage is not a teaching one.
pub taught-teach_subject :
    (s : String) (ts : List Tutorial) (ws : List Slot)
    → 1 ≤ teaching_count ws
    → Untaught s ws
    → (taught s (teach_subject ts s ws) ≡ map tutorial (tutorials_of s ts))
      × Spread s
          (ceil_div (length (tutorials_of s ts)) (teaching_count ws))
          ws
          (teach_subject ts s ws)
unfolding teach_subject
taught-teach_subject s ts ws h u =
    let own = own_tutorials s ts in
    (
      taught-teach_with s (tutorials_of s ts) ws own h u,
      teach_with-Spread s (tutorials_of s ts) ws own,
    )
