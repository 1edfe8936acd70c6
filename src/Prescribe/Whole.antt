-- ===== src/Prescribe/Whole.antt =====
-- `prescribe` of cpa_first/engine/prescribe.py, with its tasks, its concepts to review and its references. The text of
-- a risk, the importance of a concept, which is rounded from floats, and the digest of an id are parameters. The summary and the notes are left
-- out, and so are the problems and the plan, which are what Recommend and StudyPlan give.
use xeno_pre_test.Prelude.{
  ℕ, suc, max, Bool, ◌&&◌, ◌||◌, ◌==◌, ltb, if◌then◌else◌, Option, none, some, List, [], ◌∷◌, ◌++◌,
  map, String, str_eq, str_leb, mem_str, keep, take, sorted, higher_first,
}
use xeno_pre_test.Recommend.Score.{is_part}
use xeno_pre_test.Prescribe.Rules.{
  Rule, SubjectState, UserState, user_risk_tags, matches, task_subject, estimated_minutes,
}
use xeno_pre_test.Prescribe.Risk.{Driver, Level, risk_score, risk_level}

-- The key `(-confidence, rule_key)`.
abbrev pub goes_first : Rule → Rule → Bool
goes_first r q = higher_first r.confidence r.rule_key q.confidence q.rule_key

unfoldable pub matched_rules : List Rule → UserState → List Rule
unfolding matches
matched_rules rules u = sorted goes_first (keep (λ r. matches r u) rules)

pub record Task : Type 0 where
  pub task_text : String
  pub subject : String
  pub estimated_minutes : ℕ

unfoldable pub task_of : UserState → Rule → Task
unfolding task_subject estimated_minutes
task_of u r = record {
  task_text = r.action_text;
  subject = task_subject r u;
  estimated_minutes = estimated_minutes r;
}

unfoldable pub daily_tasks : List Rule → UserState → List Task
unfolding task_subject estimated_minutes
daily_tasks [] u =
    record {
      task_text = "오늘은 풀이 로그를 30건 이상 남기고, 각 풀이의 오답 원인을 분류한다.";
      subject = "mixed";
      estimated_minutes = 60;
    }
    ∷ []
daily_tasks (r ∷ rs) u = map (task_of u) (r ∷ rs)

-- `freq[tag] = freq.get(tag, 0) + 1`
unfoldable pub count_tag : String → List (String × ℕ) → List (String × ℕ)
count_tag t [] = (t, 1) ∷ []
count_tag t ((k, n) ∷ freq) = if str_eq k t then (k, suc n) ∷ freq else (k, n) ∷ count_tag t freq

unfoldable pub count_tags : List String → List (String × ℕ) → List (String × ℕ)
unfolding count_tag
count_tags [] freq = freq
count_tags (t ∷ ts) freq = count_tags ts (count_tag t freq)

-- Of each problem, its `concept_tags`.
unfoldable pub concept_frequency : List (List String) → List (String × ℕ) → List (String × ℕ)
unfolding count_tags
concept_frequency [] freq = freq
concept_frequency (tags ∷ problems) freq = concept_frequency problems (count_tags tags freq)

abbrev pub max_frequency : List (String × ℕ) → ℕ
max_frequency [] = 0
max_frequency ((t, n) ∷ freq) = max n (max_frequency freq)

-- The frequencies of the tags that are a part of the concept, or that it is a part of.
abbrev pub matched_frequency : String → List (String × ℕ) → ℕ
matched_frequency c freq = max_frequency (keep (λ (t, n). is_part t c || is_part c t) freq)

pub record Candidate : Type 0 where
  pub importance : ℕ
  pub concept : String
  pub subject : String

-- The key `(-score, concept, subject)`.
abbrev pub more_important : Candidate → Candidate → Bool
more_important a b =
    ltb b.importance a.importance
    || ((a.importance == b.importance)
        && (if str_eq a.concept b.concept
            then str_leb a.subject b.subject
            else str_leb a.concept b.concept))

-- `dict.fromkeys`: each text once, past those seen.
unfoldable pub unique : List String → List String → List String
unique seen [] = []
unique seen (x ∷ xs) =
    let rest = unique (x ∷ seen) xs in if mem_str x seen then unique seen xs else x ∷ rest

-- `_evidence_refs`, by kind and id.
unfoldable pub evidence_refs : List Rule → UserState → List (String × String)
evidence_refs matched u =
    ("user_state", u.user_id) ∷ map (λ r. ("decision_rule", r.rule_key)) matched

pub record Diagnosis : Type 0 where
  pub risk_level : Level
  pub risk_drivers : List String

-- The risks, the rules' names and the sorted tags.
unfoldable pub diagnosis : (Driver → String) → UserState → List Rule → Diagnosis
unfolding risk_score risk_level user_risk_tags unique
diagnosis driver_text u matched = record {
  risk_level = risk_level (risk_score u matched).0;
  risk_drivers = unique [] (
      map driver_text (risk_score u matched).1
      ++ (map (λ r. r.rule_name) matched
          ++ sorted str_leb (unique [] (user_risk_tags u.subject_states))));
}

-- The text of the first rule, where there is one.
abbrev pub weekly_goal : List Rule → Option String
weekly_goal [] = none
weekly_goal (r ∷ rs) = some r.action_text

pub record Prescription : Type 0 where
  pub prescription_id : String
  pub user_id : String
  pub generated_at : ℕ
  pub diagnosis : Diagnosis
  pub weekly_goal : Option String
  pub daily_tasks : List Task
  pub concepts_to_review : List String
  pub triggered_rule_keys : List String
  pub evidence_refs : List (String × String)

module _ (driver_text : Driver → String) (importance : ℕ → ℕ → ℕ → ℕ)
    (digest : String → String → List String → String) where
  abbrev pub candidate : List (String × ℕ) → String → String × ℕ → Candidate
  candidate freq s (c, mastery) = record {
    importance = importance mastery (matched_frequency c freq) (max_frequency freq);
    concept = c;
    subject = s;
  }

  unfoldable pub review_candidates : List (String × ℕ) → List SubjectState → List Candidate
  review_candidates freq [] = []
  review_candidates freq (s ∷ states) =
      map (candidate freq s.subject) s.concept_mastery ++ review_candidates freq states

  unfoldable pub concepts_to_review : UserState → List (List String) → ℕ → List String
  unfolding concept_frequency review_candidates unique
  concepts_to_review u problems n = take n (
      unique [] (
        map (λ c. c.concept)
          (sorted more_important
            (review_candidates (concept_frequency problems []) u.subject_states))))

  unfoldable pub prescribe : UserState → List Rule → ℕ → List (List String) → Prescription
  unfolding matched_rules diagnosis daily_tasks concepts_to_review evidence_refs
  prescribe u rules now problems =
      let matched = matched_rules rules u in
      record {
        prescription_id =
            digest u.user_id u.current_stage (sorted str_leb (map (λ r. r.rule_key) matched));
        user_id = u.user_id;
        generated_at = now;
        diagnosis = diagnosis driver_text u matched;
        weekly_goal = weekly_goal matched;
        daily_tasks = daily_tasks matched u;
        concepts_to_review = concepts_to_review u problems 3;
        triggered_rule_keys = map (λ r. r.rule_key) matched;
        evidence_refs = evidence_refs matched u;
      }
