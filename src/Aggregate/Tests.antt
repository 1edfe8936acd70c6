-- ===== src/Aggregate/Tests.antt =====
-- The signals of two logs (cpa_first/engine/aggregate.py).
use xeno_pre_test.Prelude.{
  ◌≡◌, ◌≤◌, min, true, false, none, some, List, [], ◌∷◌, ◌++◌, String, length, tally, ℕ, ◌*◌, ◌/◌,
  str_eq, str_leb, keep, map, IsSorted,
}
use xeno_pre_test.Aggregate.Signals.{
  Log, Problem, explicit_tags, explicit_counts, subject_risk_tags, infer_current_stage,
}
use xeno_pre_test.Aggregate.Tags.{subject_risk_tags_lem}
use xeno_pre_test.Aggregate.State.{aggregate_subject_state, aggregate_user_state}
use xeno_pre_test.Aggregate.Subjects.{state_of, is_log_of, aggregate_user_state_lem}
use xeno_pre_test.Aggregate.Level.{
  place, place_of_count, place_of_accuracy, infer_current_stage_lem,
}

abbrev logs : List Log
logs =
    record {
      problem_id = "p1";
      correct = true;
      time_seconds = some 90;
      mistake_categories = "trap" ∷ [];
    }
    ∷ record { problem_id = "p2"; correct = false; time_seconds = none; mistake_categories = [] }
    ∷ []

abbrev problems : List Problem
problems =
    record {
      problem_id = "p1";
      subject = "tax";
      concept_tags = "a:b" ∷ [];
      skip_threshold_seconds = some 60;
    }
    ∷ []

subject_risk_tags_lem_example :
    (length (subject_risk_tags logs problems (("a:b", 3000) ∷ [])) ≤ 3)
    × ((rest : List String) × (subject_risk_tags logs problems (("a:b", 3000) ∷ [])
          ≡ explicit_tags (explicit_counts logs []) ++ rest))
subject_risk_tags_lem_example = subject_risk_tags_lem logs problems (("a:b", 3000) ∷ [])

infer_current_stage_lem_example :
    place (infer_current_stage logs)
    ≡ min
        (place_of_count (length logs))
        (place_of_accuracy (length logs) (tally (λ l. l.correct) logs))
infer_current_stage_lem_example = infer_current_stage_lem logs

-- A quotient in ten-thousandths, rounded down.
abbrev rounded : ℕ → ℕ → ℕ
rounded part whole = 10000 * part / whole

aggregate_user_state_lem_example :
    let states = (aggregate_user_state (str_eq "a:b") rounded logs problems none).subject_states in
    ((s : String)
      → state_of s states
        ≡ aggregate_subject_state
            (str_eq "a:b")
            rounded
            (keep (is_log_of problems s) logs)
            problems
            s)
    × IsSorted str_leb (map (λ t. t.subject) states)
aggregate_user_state_lem_example =
    aggregate_user_state_lem (str_eq "a:b") rounded logs problems none
