-- ===== src/Solver/ModeTests.antt =====
-- A mock solver, and a model that answers to the second request (cpa_first/solver/solver.py).
use xeno_pre_test.Prelude.{
  ℕ, zero, suc, ◌≡◌, refl, true, inl, none, some, [], ◌∷◌, str_eq, if◌then◌else◌, arith,
}
use xeno_pre_test.Rag.Index.{TextTests}
use xeno_pre_test.Solver.Reasoned.{Question, Texts}
use xeno_pre_test.Solver.Modes.{
  Attempt, responded, retriable, replied, Solver, LiveTexts, attempts_from, call_anthropic,
  solve_by_mode,
}
use xeno_pre_test.Solver.Range.{AnswerInRange, solve_by_mode-InRange}
use xeno_pre_test.Solver.Retry.{Ends, call_anthropic-Ends}

abbrev live_texts : LiveTexts
live_texts = record {
  join = λ ts. elim ts [ [] ↦ "" | t ∷ more ↦ t ];
  message = λ q. q.stem;
  query = λ q. q.stem;
  format_context = λ hits. "";
  with_context = λ c m. m;
  system_prompt = λ b. "";
  tail = λ s. s;
  find_answer = λ s. if str_eq s "ANSWER: 1" then some 1 else none;
  first_byte = λ s. 8;
}

abbrev text_tests : TextTests
text_tests = record {
  contains = str_eq;
  is_in = str_eq;
  len = λ s. 2;
  lower = λ s. s;
  tokenize = λ s. s ∷ [];
  join = λ s ts. s;
}

abbrev texts : Texts
texts = record {
  is_blank = λ s. str_eq s "";
  stem_signals = λ s. s ∷ [];
  split_explanation = λ s. s ∷ [];
  fallback_signals = λ q. q.unit ∷ [];
  entry_point = λ tags unit. unit;
  answer = λ i c. c;
  known_note = λ chosen i c. c;
  held_note = λ i c. c;
  item = λ s. s;
  titled = λ title s. s;
  answer_line = λ i. "ANSWER";
  join_lines = λ lines. "";
}

abbrev question : Question
question = record {
  question_id = "q1";
  subject = "tax";
  applicable_year = none;
  stem = "?";
  unit = "vat";
  choices = "10" ∷ "20" ∷ "30" ∷ [];
  concept_tags = [];
  correct_choice = none;
  correct_answer = none;
  explanation = "";
  attractor_traps = [];
}

abbrev live : Solver
live = record {
  mode = "live";
  model = "m";
  invoke = none;
  rag_chunks = [];
  rag_top_k = 3;
  calc_scaffold = true;
}

-- The first request meets a limit of rates.
abbrev second_time : ℕ → Attempt
second_time zero = retriable "429"
second_time (suc n) = responded (none ∷ some "ANSWER: 1" ∷ [])

answered : call_anthropic live_texts second_time ≡ replied "ANSWER: 1"
unfolding call_anthropic attempts_from
answered = refl

solve_by_mode-InRange_example :
    AnswerInRange live.mode question.choices
      (solve_by_mode live_texts text_tests texts [] (λ system message. second_time) live question)
solve_by_mode-InRange_example =
    solve_by_mode-InRange live_texts text_tests (λ system message. second_time) texts [] live
      question (inl refl) (omega arith)

call_anthropic-Ends_example :
    Ends live_texts second_time 0 2 (call_anthropic live_texts second_time)
call_anthropic-Ends_example = call_anthropic-Ends live_texts second_time
