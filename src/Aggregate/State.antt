-- ===== src/Aggregate/State.antt =====
-- `aggregate_user_state` of cpa_first/engine/aggregate.py, with the mastery of concepts and the states of subjects. Whether
-- a tag has a colon, and `round(a / b, 4)` in ten-thousandths, are parameters. The user's id, exam and
-- hours, which are passed on, are left out.
use xeno_pre_test.Prelude.{
  ℕ, suc, Bool, ◌&&◌, ◌||◌, not, ◌==◌, ltb, if◌then◌else◌, Option, none, some, List, [], ◌∷◌, ◌++◌,
  map, String, str_eq, str_leb, tally, length, sorted,
}
use xeno_pre_test.StudyPlan.Stage.{Stage}
use xeno_pre_test.Prescribe.Subjects.{is_known_subject}
use xeno_pre_test.Aggregate.Signals.{
  Log, Problem, problem_by_id, has_threshold, is_overrun, subject_risk_tags, infer_current_stage,
}

pub record SubjectState : Type 0 where
  pub subject : String
  pub accuracy : ℕ
  pub time_overrun_rate : ℕ
  pub risk_tags : List String
  -- Empty where the source leaves it out.
  pub concept_mastery : List (String × ℕ)

pub record UserState : Type 0 where
  pub current_stage : Stage
  pub subject_states : List SubjectState

-- `subject` of a log, where its problem is known and has one that is registered.
abbrev pub subject_of : List Problem → Log → Option String
unfolding problem_by_id
subject_of ps l = elim (problem_by_id l.problem_id ps) [
  | none ↦ none
  | some p ↦
      if not (str_eq p.subject "") && is_known_subject p.subject then some p.subject else none
]

-- `by_subject.setdefault(subject, []).append(log)`
unfoldable pub append_log : String → Log → List (String × List Log) → List (String × List Log)
append_log s l [] = (s, l ∷ []) ∷ []
append_log s l ((t, ls) ∷ groups) =
    if str_eq s t then (t, ls ++ l ∷ []) ∷ groups else (t, ls) ∷ append_log s l groups

abbrev pub append_to : Option String → Log → List (String × List Log) → List (String × List Log)
unfolding append_log
append_to none l groups = groups
append_to (some s) l groups = append_log s l groups

unfoldable pub by_subject :
    List Problem → List Log → List (String × List Log) → List (String × List Log)
unfolding append_log problem_by_id
by_subject ps [] groups = groups
by_subject ps (l ∷ ls) groups = by_subject ps ls (append_to (subject_of ps l) l groups)

-- `by_subject[subject]`
unfoldable pub logs_of : String → List (String × List Log) → List Log
logs_of s [] = []
logs_of s ((t, ls) ∷ groups) = if str_eq s t then ls else logs_of s groups

abbrev pub group_names : List (String × List Log) → List String
group_names = map (λ g. g.0)

abbrev pub with_state : Option SubjectState → List SubjectState → List SubjectState
with_state none states = states
with_state (some s) states = s ∷ states

module _ (has_colon : String → Bool) (share : ℕ → ℕ → ℕ) where
  unfoldable pub primary_concept : List String → Option String
  primary_concept [] = none
  primary_concept (t ∷ ts) = if has_colon t then some t else primary_concept ts

  abbrev pub concept_of : List Problem → Log → Option String
  unfolding problem_by_id primary_concept
  concept_of ps l = elim (problem_by_id l.problem_id ps) [
    | none ↦ none
    | some p ↦ primary_concept p.concept_tags
  ]

  -- A concept's `correct` and `total`, with one log more.
  unfoldable pub count_concept : String → Bool → List (String × ℕ × ℕ) → List (String × ℕ × ℕ)
  count_concept c ok [] = (c, (if ok then 1 else 0), 1) ∷ []
  count_concept c ok ((k, right, total) ∷ counts) =
      if str_eq k c
      then (k, (if ok then suc right else right), suc total) ∷ counts
      else (k, right, total) ∷ count_concept c ok counts

  unfoldable pub concept_counts :
      List Problem → List Log → List (String × ℕ × ℕ) → List (String × ℕ × ℕ)
  unfolding count_concept problem_by_id primary_concept
  concept_counts ps [] counts = counts
  concept_counts ps (l ∷ ls) counts =
      concept_counts ps ls
        (elim (concept_of ps l) [ none ↦ counts | some c ↦ count_concept c l.correct counts ])

  abbrev pub weaker : String × ℕ → String × ℕ → Bool
  weaker (a, m) (b, n) = ltb m n || ((m == n) && str_leb a b)

  -- `_aggregate_concept_mastery`
  unfoldable pub aggregate_concept_mastery : List Log → List Problem → List (String × ℕ)
  unfolding concept_counts
  aggregate_concept_mastery logs ps =
      sorted weaker (map (λ (c, right, total). (c, share right total)) (concept_counts ps logs []))

  unfoldable pub aggregate_subject_state : List Log → List Problem → String → Option SubjectState
  unfolding aggregate_concept_mastery subject_risk_tags
  aggregate_subject_state [] ps s = none
  aggregate_subject_state (l ∷ ls) ps s =
      let logs = l ∷ ls in
      let overruns = tally (is_overrun ps) logs in
      let with_threshold = tally (has_threshold ps) logs in
      let mastery = aggregate_concept_mastery logs ps in
      some record {
        subject = s;
        accuracy = share (tally (λ l. l.correct) logs) (length logs);
        time_overrun_rate = if with_threshold == 0 then 0 else share overruns with_threshold;
        risk_tags = subject_risk_tags logs ps mastery;
        concept_mastery = mastery;
      }

  -- The loop over the sorted subjects.
  unfoldable pub subject_states :
      List (String × List Log) → List Problem → List String → List SubjectState
  unfolding aggregate_subject_state logs_of
  subject_states groups ps [] = []
  subject_states groups ps (s ∷ ss) =
      with_state (aggregate_subject_state (logs_of s groups) ps s) (subject_states groups ps ss)

  unfoldable pub aggregate_user_state : List Log → List Problem → Option Stage → UserState
  unfolding subject_states by_subject infer_current_stage
  aggregate_user_state logs ps stage =
      let groups = by_subject ps logs [] in
      record {
        current_stage = elim stage [ none ↦ infer_current_stage logs | some t ↦ t ];
        subject_states = subject_states groups ps (sorted str_leb (group_names groups));
      }
