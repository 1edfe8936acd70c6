-- ===== src/Solver/Modes.antt =====
-- `Solver.solve` of cpa_first/solver/solver.py in its modes, with the attempts of `_call_anthropic`. Prompts, formats, regular
-- expressions and the digest are parameters, and so is what the model answers to each attempt; the pauses between
-- attempts are left out.
use xeno_pre_test.Prelude.{
  ℕ, zero, suc, ◌%◌, Bool, ltb, if◌then◌else◌, Option, none, some, List, [], ◌∷◌, String, str_eq,
  length,
}
use xeno_pre_test.Rag.Index.{TextTests}
use xeno_pre_test.Rag.Search.{RagChunk, RetrievalHit, retrieve}
use xeno_pre_test.Solver.Reasoned.{Question, ReasonedTrace, SolveResult, Texts, solve_reasoned}

-- What one request gives: blocks, each with its text where it is a text block, or an error that another attempt may
-- mend, or any other error.
pub data Attempt : Type 0 where
  responded : List (Option String) → Attempt
  retriable failed : String → Attempt

pub data Reply : Type 0 where
  replied raised : String → Reply

pub data Answered : Type 0 where
  solved : SolveResult → Answered
  call_error : String → Answered
  value_error : Answered
  -- The mock solver divides by the number of choices.
  zero_division : Answered

abbrev pub text_parts : List (Option String) → List String
text_parts [] = []
text_parts (none ∷ blocks) = text_parts blocks
text_parts (some t ∷ blocks) = t ∷ text_parts blocks

pub record Solver : Type 0 where
  pub mode : String
  pub model : String
  -- Where it is given, it answers or raises.
  pub invoke : Option (String → String → Reply)
  pub rag_chunks : List RagChunk
  pub rag_top_k : ℕ
  pub calc_scaffold : Bool

pub record LiveTexts : Type 0 where
  pub join : List String → String
  pub message : Question → String
  -- The stem, with the choices.
  pub query : Question → String
  pub format_context : List RetrievalHit → String
  pub with_context : String → String → String
  pub system_prompt : Bool → String
  -- `raw[-2000:]`
  pub tail : String → String
  -- The number behind the first "ANSWER:".
  pub find_answer : String → Option ℕ
  -- The first byte of the digest.
  pub first_byte : String → ℕ

module _ (L : LiveTexts) where
  -- An attempt, with what is done after an error that another one may mend.
  abbrev pub attempt : Attempt → (String → Reply) → Reply
  attempt (responded blocks) again = replied (L.join (text_parts blocks))
  attempt (retriable e) again = again e
  attempt (failed e) again = raised e

  -- The loop from the attempt `i` on, with so many more behind it; the error of the last one is raised.
  unfoldable pub attempts_from : (ℕ → Attempt) → ℕ → ℕ → Reply
  attempts_from client i zero = attempt (client i) (λ e. raised e)
  attempts_from client i (suc behind) =
      let later = attempts_from client (suc i) behind in attempt (client i) (λ e. later)

  -- `for attempt in range(3)`
  unfoldable pub call_anthropic : (ℕ → Attempt) → Reply
  unfolding attempts_from
  call_anthropic client = attempts_from client 0 2

  unfoldable pub extract_answer_index : String → ℕ → Option ℕ
  extract_answer_index raw max_choices = elim (L.find_answer raw) [
    | none ↦ none
    | some i ↦ if ltb i max_choices then some i else none
  ]

  abbrev pub mock_of : Question → List String → Answered
  mock_of q [] = zero_division
  mock_of q (c ∷ cs) = solved record {
    question_id = q.question_id;
    chosen_index = some (L.first_byte q.question_id % length (c ∷ cs));
    rationale = "[MOCK] question_id 해시 기반 선택. 실제 추론 없음. 운영에서는 CPA_SOLVER_MODE=live 로 전환.";
    mode = "mock";
    model = none;
    raw_response = "";
    rule_id = none;
  }

  unfoldable pub solve_mock : Question → Answered
  solve_mock q = mock_of q q.choices

  abbrev pub stub : Question → SolveResult
  stub q = record {
    question_id = q.question_id;
    chosen_index = some 0;
    rationale = "stub: 항상 첫 보기.";
    mode = "stub";
    model = none;
    raw_response = "";
    rule_id = none;
  }

  module _ (R : TextTests) where
    -- `_build_rag_context`; `retrieve` has its default least score, 0.5.
    unfoldable pub build_rag_context : Solver → Question → String
    unfolding retrieve
    build_rag_context s q = elim s.rag_chunks [
      | [] ↦ ""
      | c ∷ cs ↦
          L.format_context (retrieve R (L.query q) q.subject q.unit none s.rag_top_k 5000 (c ∷ cs))
    ]

    abbrev pub user_message : Solver → Question → String
    unfolding build_rag_context
    user_message s q =
        let context = build_rag_context s q in
        if str_eq context "" then L.message q else L.with_context context (L.message q)

    -- The injected callback, or the client's attempts with the same prompts.
    abbrev pub reply_of : (String → String → ℕ → Attempt) → Solver → Question → Reply
    unfolding build_rag_context call_anthropic
    reply_of client s q = elim s.invoke [
      | some f ↦ f (L.system_prompt s.calc_scaffold) (user_message s q)
      | none ↦ call_anthropic (client (L.system_prompt s.calc_scaffold) (user_message s q))
    ]

    abbrev pub live_result : Solver → Question → Reply → Answered
    unfolding extract_answer_index
    live_result s q (raised e) = call_error e
    live_result s q (replied raw) = solved record {
      question_id = q.question_id;
      chosen_index = extract_answer_index raw (length q.choices);
      rationale = L.tail raw;
      mode = "live";
      model = some s.model;
      raw_response = raw;
      rule_id = none;
    }

    unfoldable pub solve_live : (String → String → ℕ → Attempt) → Solver → Question → Answered
    unfolding build_rag_context call_anthropic extract_answer_index
    solve_live client s q = live_result s q (reply_of client s q)

    -- `Solver.solve`
    unfoldable pub solve_by_mode :
        Texts
        → List (Question → Option ReasonedTrace)
        → (String → String → ℕ → Attempt)
        → Solver
        → Question
        → Answered
    unfolding solve_live solve_mock solve_reasoned
    solve_by_mode T rules client s q =
        if str_eq s.mode "reasoned"
        then solved (solve_reasoned T rules q)
        else if str_eq s.mode "mock"
        then solve_mock q
        else if str_eq s.mode "live"
        then solve_live client s q
        else if str_eq s.mode "stub"
        then solved (stub q)
        else value_error
