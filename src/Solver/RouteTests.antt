-- ===== src/Solver/RouteTests.antt =====
-- Routes, taxes, choices and a question with a known answer (cpa_first/solver).
use xeno_pre_test.Prelude.{
  ℕ, ◌-◌, ◌≡◌, ◌⊎◌, refl, Option, none, some, List, [], ◌∷◌, str_eq, All, if◌then◌else◌, leb,
}
use xeno_pre_test.EvalGen.Generate.{index_of}
use xeno_pre_test.Solver.Routing.{Text, Routes, parse_routes}
use xeno_pre_test.Solver.RouteText.{IsPlain, print_routes, parse_routes-print_routes}
use xeno_pre_test.Solver.Closest.{closest_index}
use xeno_pre_test.Solver.Nearest.{IsNearest, closest_index-IsNearest}
use xeno_pre_test.Solver.Reasoned.{
  Question, ReasonedTrace, Texts, first_trace, known_choice, known_solution_trace,
  unsupported_trace, to_result, solve_reasoned,
}
use xeno_pre_test.Solver.Answers.{Answers, solve_reasoned_lem}

-- "tax" to "codex", and "law" to "ai".
abbrev routes : Routes
routes =
    (b't' ∷ b'a' ∷ b'x' ∷ [], b'c' ∷ b'o' ∷ b'd' ∷ b'e' ∷ b'x' ∷ [])
    ∷ (b'l' ∷ b'a' ∷ b'w' ∷ [], b'a' ∷ b'i' ∷ [])
    ∷ []

abbrev same : Text → Text
same t = t

-- The two routes are plain.
IsPlain-tax : IsPlain same same (b't' ∷ b'a' ∷ b'x' ∷ []) (b'c' ∷ b'o' ∷ b'd' ∷ b'e' ∷ b'x' ∷ [])
IsPlain-tax = record {
  subject = refl;
  backend = refl;
  stripped = refl;
  subject_stripped = refl;
  backend_stripped = refl;
  backend_lower = refl;
  subject_comma = (refl, (refl, (refl, tt)));
  backend_comma = (refl, (refl, (refl, (refl, (refl, tt)))));
  subject_colon = (refl, (refl, (refl, tt)));
}

IsPlain-law : IsPlain same same (b'l' ∷ b'a' ∷ b'w' ∷ []) (b'a' ∷ b'i' ∷ [])
IsPlain-law = record {
  subject = refl;
  backend = refl;
  stripped = refl;
  subject_stripped = refl;
  backend_stripped = refl;
  backend_lower = refl;
  subject_comma = (refl, (refl, (refl, tt)));
  backend_comma = (refl, (refl, tt));
  subject_colon = (refl, (refl, (refl, tt)));
}

parse_routes-print_routes_example :
    parse_routes same same (some (print_routes routes)) ≡ some routes
parse_routes-print_routes_example =
    parse_routes-print_routes same same routes (IsPlain-tax, (IsPlain-law, tt))
      ((refl, tt), (tt, tt))

-- The distance from 10, where the choice has a number.
abbrev from_ten : Option ℕ → Option ℕ
from_ten none = none
from_ten (some n) = some (if leb n 10 then 10 - n else n - 10)

closest_index-IsNearest_example :
    ((closest_index from_ten (none ∷ some 14 ∷ some 9 ∷ some 11 ∷ []) ≡ none)
      × All (λ c. from_ten c ≡ none) (none ∷ some 14 ∷ some 9 ∷ some 11 ∷ []))
    ⊎ ((i : ℕ) × (d : ℕ) × (closest_index from_ten (none ∷ some 14 ∷ some 9 ∷ some 11 ∷ [])
          ≡ some i)
        × IsNearest from_ten (none ∷ some 14 ∷ some 9 ∷ some 11 ∷ []) i d)
closest_index-IsNearest_example =
    closest_index-IsNearest from_ten (none ∷ some 14 ∷ some 9 ∷ some 11 ∷ [])

abbrev texts : Texts
texts = record {
  is_blank = λ s. str_eq s "";
  stem_signals = λ s. s ∷ [];
  split_explanation = λ s. s ∷ [];
  fallback_signals = λ q. q.unit ∷ [];
  entry_point = λ tags unit. unit;
  answer = λ i c. c;
  known_note = λ chosen i c. c;
  held_note = λ i c. c;
  item = λ s. s;
  titled = λ title s. s;
  answer_line = λ i. "ANSWER";
  join_lines = λ lines. "";
}

-- The key is wrong and the text of the answer is the third choice.
abbrev question : Question
question = record {
  question_id = "q1";
  subject = "tax";
  applicable_year = some 2026;
  stem = "tax";
  unit = "vat";
  choices = "10" ∷ "20" ∷ "30" ∷ [];
  concept_tags = [];
  correct_choice = some 0;
  correct_answer = some "30";
  explanation = "";
  attractor_traps = none ∷ [];
}

abbrev trace : ReasonedTrace
trace = record {
  rule_id = "vat";
  chosen_index = some 1;
  answer_text = "20";
  signals = [];
  concepts = [];
  formula_steps = [];
  choice_notes = [];
  entry_point = "";
  trap_patterns = [];
}

-- A rule for questions on leases, and one for those on taxes.
abbrev rules : List (Question → Option ReasonedTrace)
rules =
    (λ q. if str_eq q.stem "lease" then some trace else none)
    ∷ (λ q. if str_eq q.stem "tax" then some trace else none)
    ∷ []

second_rule : (solve_reasoned texts rules question).chosen_index ≡ some 1
unfolding solve_reasoned first_trace to_result
second_rule = refl

text_wins : (solve_reasoned texts [] question).chosen_index ≡ some 2
unfolding solve_reasoned first_trace to_result known_solution_trace unsupported_trace known_choice
    index_of
text_wins = refl

solve_reasoned_lem_example : Answers texts rules question (solve_reasoned texts rules question)
solve_reasoned_lem_example = solve_reasoned_lem texts rules question
