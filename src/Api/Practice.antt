-- ===== src/Api/Practice.antt =====
-- The public list of practice questions of cpa_first/api/main.py: `list_practice` and `get_practice_question`.
-- A limit below one counts as one, so limits are natural numbers; a year of 0 is no filter.
use xeno_pre_test.Prelude.{
  ℕ, zero, suc, min, max, Bool, not, ◌&&◌, ◌||◌, ◌==◌, if◌then◌else◌, Option, none, some, List, [],
  ◌∷◌, String, str_eq, str_leb, length,
}
use xeno_pre_test.Api.Model.{Question, id_of, question_by_id, Answer, ok, http_error}

pub record Brief : Type 0 where
  pub question_id : String
  pub subject : String
  pub unit : String
  pub applicable_year : Option ℕ
  pub concept_tags : List String
  pub tutorial_id : Option String
  pub source : String
  pub has_explanation : Bool
  pub quality_flags : Option (Bool × Bool)

abbrev source_of : Option String → String
source_of none = "synthetic"
source_of (some s) = s

unfoldable pub practice_brief : Question → Brief
practice_brief m = record {
  question_id = id_of m;
  subject = m.problem.subject;
  unit = m.problem.unit;
  applicable_year = m.applicable_year;
  concept_tags = m.concept_tags;
  tutorial_id = m.problem.tutorial_id;
  source = source_of m.source;
  has_explanation = not (str_eq m.explanation "");
  quality_flags =
      if m.table_lossy || m.math_lossy then some (m.table_lossy, m.math_lossy) else none;
}

pub record Filters : Type 0 where
  pub subject : String
  pub unit : String
  pub source : String
  pub year : ℕ

-- `not (wanted and value != wanted)`
abbrev pub wants : String → String → Bool
wants wanted value = str_eq wanted "" || str_eq value wanted

abbrev pub wants_year : ℕ → Option ℕ → Bool
wants_year year none = year == 0
wants_year year (some y) = (year == 0) || (y == year)

unfoldable pub passes : Filters → Question → Bool
passes f m =
    wants f.subject m.problem.subject
    && wants f.unit m.problem.unit
    && wants f.source (source_of m.source)
    && wants_year f.year m.applicable_year

-- `not (after and question_id <= after)`
abbrev pub is_after : String → Question → Bool
is_after after m = str_eq after "" || not (str_leb (id_of m) after)

-- The loop of `list_practice`, with so many items to append before it breaks.
unfoldable pub collect : Filters → String → ℕ → List Question → List Brief
unfolding passes practice_brief
collect f after zero ms = []
collect f after (suc n) [] = []
collect f after (suc n) (m ∷ ms) =
    if passes f m && is_after after m
    then practice_brief m ∷ collect f after n ms
    else collect f after (suc n) ms

unfoldable pub capped : ℕ → ℕ
capped limit = max 1 (min limit 50)

-- `out[-1]["question_id"]`
unfoldable pub last_id : List Brief → Option String
last_id [] = none
last_id (b ∷ []) = some b.question_id
last_id (b ∷ c ∷ bs) = last_id (c ∷ bs)

pub record Page : Type 0 where
  pub questions : List Brief
  pub next_cursor : Option String

unfoldable pub list_practice : List Question → Filters → ℕ → String → Page
unfolding collect last_id capped
list_practice questions f limit after =
    let out = collect f after (capped limit) questions in
    record {
      questions = out;
      next_cursor = if length out == capped limit then last_id out else none;
    }

-- A question as it is shown before an attempt: its brief, its stem and its choices.
unfoldable pub get_practice_question :
    List Question → String → Answer (Brief × String × List String)
unfolding question_by_id practice_brief
get_practice_question questions i = elim (question_by_id i questions) [
  | none ↦ http_error 404
  | some m ↦ ok (practice_brief m, m.stem, m.problem.choices)
]
