-- ===== src/Recommend/Score.antt =====
-- `_score_item` of cpa_first/engine/recommend.py. Rates and scores are in ten-thousandths, the precision to which
-- the source rounds them. A score may be negative: it is what is added less what is taken off.
use xeno_pre_test.Prelude.{
  ℕ, ◌+◌, ◌-◌, Bool, true, false, ◌&&◌, ◌||◌, ltb, leb, min, if◌then◌else◌, Option, none, some,
  List, String, mem_str, any, keep,
}
use text.Mathlib.Text.{find?}

pub record Item : Type 0 where
  pub question_id : String
  pub subject : String
  pub unit : String
  pub concept_tags : List String
  pub expected_seconds : Option ℕ

pub record SubjectState : Type 0 where
  pub subject : String
  pub accuracy : ℕ
  pub concept_mastery : List (String × ℕ)
  pub risk_tags : List String

pub record Score : Type 0 where
  pub added : ℕ
  pub taken : ℕ

-- `a in b`, of texts.
abbrev pub is_part : String → String → Bool
is_part a b = elim (find? b a) [ none ↦ false | some i ↦ true ]

-- The concepts below WEAK_CONCEPT_MASTERY, 0.50; their order plays no part in the score.
abbrev pub weak_concepts : SubjectState → List (String × ℕ)
weak_concepts s = keep (λ c. ltb c.1 5000) s.concept_mastery

-- Whether `_matched_weak_concepts` finds a concept.
abbrev pub is_matched : List (String × ℕ) → List String → Bool
is_matched weak tags = any (λ c. any (λ t. is_part c.0 t || is_part t c.0) tags) weak

-- Below FAIL_RISK_ACCURACY, 0.40.
abbrev pub is_failing : SubjectState → Bool
is_failing s = ltb s.accuracy 4000

-- An expected time of at most SHORT_PROBLEM_SECONDS.
abbrev pub is_short : Option ℕ → Bool
is_short none = false
is_short (some s) = leb s 90

-- The weights: 1.0 for what is missing to a full accuracy, 1.5 for a subject at risk, 0.8 for a weak
-- concept, 0.2 for a short problem under time pressure; 0.5 is taken off for an attempted one.
unfoldable pub score_item : Item → Option SubjectState → List String → Score
score_item item none attempted = record {
  added = 10_000 - 5000;
  taken = if mem_str item.question_id attempted then 5000 else 0;
}
score_item item (some s) attempted = record {
  added =
      10_000
      - min 10_000 s.accuracy
      + (if is_failing s then 15_000 else 0)
      + (if is_matched (weak_concepts s) item.concept_tags then 8000 else 0)
      + (if mem_str "time_pressure" s.risk_tags && is_short item.expected_seconds then 2000 else 0);
  taken = if mem_str item.question_id attempted then 5000 else 0;
}

-- `a < b` and `a <= b`, of scores.
abbrev pub lower : Score → Score → Bool
lower a b = ltb (a.added + b.taken) (b.added + a.taken)

abbrev pub not_higher : Score → Score → Bool
not_higher a b = leb (a.added + b.taken) (b.added + a.taken)
