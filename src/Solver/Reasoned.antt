-- ===== src/Solver/Reasoned.antt =====
-- `solve_reasoned` of cpa_first/solver/reasoned.py: the first rule that applies, then the solutions that are known,
-- and no answer else. The rules are a parameter, and so are the texts: formats, signals and the splitting of an
-- explanation. Computed values and confidences are left out.
use xeno_pre_test.Prelude.{
  ℕ, suc, Bool, false, ltb, if◌then◌else◌, Option, none, some, List, [], ◌∷◌, ◌++◌, map, String,
  str_eq, length, get_elem?,
}
use xeno_pre_test.EvalGen.Generate.{index_of}

-- A missing text is "", and a trap that is no text is none.
pub record Question : Type 0 where
  pub question_id : String
  pub subject : String
  pub applicable_year : Option ℕ
  pub stem : String
  pub unit : String
  pub choices : List String
  pub concept_tags : List String
  pub correct_choice : Option ℕ
  pub correct_answer : Option String
  pub explanation : String
  pub attractor_traps : List (Option String)

pub record ReasonedTrace : Type 0 where
  pub rule_id : String
  -- -1 is none.
  pub chosen_index : Option ℕ
  pub answer_text : String
  pub signals : List String
  pub concepts : List String
  pub formula_steps : List String
  pub choice_notes : List String
  pub entry_point : String
  pub trap_patterns : List String

pub record SolveResult : Type 0 where
  pub question_id : String
  pub chosen_index : Option ℕ
  pub rationale : String
  pub mode : String
  pub model : Option String
  pub raw_response : String
  -- That of the tool call, where there is one.
  pub rule_id : Option String

pub record Texts : Type 0 where
  pub is_blank : String → Bool
  pub stem_signals : String → List String
  pub split_explanation : String → List String
  pub fallback_signals : Question → List String
  pub entry_point : List String → String → String
  -- `f"{index + 1}번 {choice}"`, and the note on a choice of an index under the chosen one.
  pub answer : ℕ → String → String
  pub known_note : Option ℕ → ℕ → String → String
  pub held_note : ℕ → String → String
  pub item : String → String
  pub titled : String → String → String
  pub answer_line : ℕ → String
  pub join_lines : List String → String

-- `choices[i] == answer`
abbrev pub is_choice_text : Option String → Option String → Bool
is_choice_text none answer = false
is_choice_text (some c) none = false
is_choice_text (some c) (some a) = str_eq c a

-- `correct_choice`, where it is an index of the choices.
abbrev pub key_in_range : Question → Option ℕ
key_in_range q = elim q.correct_choice [
  | none ↦ none
  | some k ↦ if ltb k (length q.choices) then some k else none
]

abbrev pub choice_at : List String → Option ℕ → Option String
choice_at choices none = none
choice_at choices (some i) = get_elem? choices i

abbrev pub or_key : Question → Option ℕ → Option ℕ
or_key q none = key_in_range q
or_key q (some i) = some i

-- `choices.index(correct_answer)`, where it is a choice.
abbrev pub index_of_answer : Question → Option ℕ
unfolding index_of
index_of_answer q = elim q.correct_answer [ none ↦ none | some a ↦ index_of a q.choices ]

-- `chosen` of `_known_solution_trace`.
unfoldable pub known_choice : Question → Option ℕ
unfolding index_of
known_choice q =
    if is_choice_text (choice_at q.choices (key_in_range q)) q.correct_answer
    then key_in_range q
    else or_key q (index_of_answer q)

abbrev pub if_none : List String → List String → List String
if_none [] ys = ys
if_none (x ∷ xs) ys = x ∷ xs

abbrev pub text_or_empty : Option String → String
text_or_empty none = ""
text_or_empty (some t) = t

module _ (T : Texts) where
  -- `[f(index, choice) for index, choice in enumerate(choices)]`
  abbrev pub notes_from : (ℕ → String → String) → ℕ → List String → List String
  notes_from f i [] = []
  notes_from f i (c ∷ cs) = f i c ∷ notes_from f (suc i) cs

  abbrev pub not_blank : Option String → List String
  not_blank none = []
  not_blank (some t) = if T.is_blank t then [] else t ∷ []

  unfoldable pub trap_patterns : List (Option String) → List String
  trap_patterns [] = []
  trap_patterns (t ∷ ts) = not_blank t ++ trap_patterns ts

  unfoldable pub known_solution_trace : Question → Option ReasonedTrace
  unfolding known_choice trap_patterns
  known_solution_trace q = elim (known_choice q) [
    | none ↦ none
    | some i ↦ some record {
      rule_id = "known_solution_bank";
      chosen_index = some i;
      answer_text = T.answer i (text_or_empty (get_elem? q.choices i));
      signals = if_none (T.stem_signals q.stem) (T.fallback_signals q);
      concepts = if_none q.concept_tags (q.unit ∷ []);
      formula_steps =
          "지원 계산 규칙에 직접 매칭되지는 않아 검수 풀이 데이터 기반으로 재구성한다." ∷ T.split_explanation q.explanation;
      choice_notes = notes_from (T.known_note (some i)) 0 q.choices;
      entry_point = T.entry_point q.concept_tags q.unit;
      trap_patterns = trap_patterns q.attractor_traps;
    }
  ]

  unfoldable pub unsupported_trace : Question → ReasonedTrace
  unfolding trap_patterns
  unsupported_trace q = record {
    rule_id = "unsupported";
    chosen_index = none;
    answer_text = "지원 규칙 없음";
    signals = if_none (T.stem_signals q.stem) ("지원되는 계산 신호를 찾지 못함" ∷ []);
    concepts = if_none q.concept_tags (q.unit ∷ []);
    formula_steps =
        "현재 deterministic solver가 지원하는 명시 수식 패턴에 걸리지 않았다." ∷ "정답키를 베끼지 않기 위해 추측 답안을 내지 않는다." ∷ [];
    choice_notes = notes_from T.held_note 0 q.choices;
    entry_point = T.entry_point q.concept_tags q.unit;
    trap_patterns = trap_patterns q.attractor_traps;
  }

  abbrev pub section : String → List String → List String
  section title items = title ∷ map T.item items

  abbrev pub section_if : String → List String → List String
  section_if title [] = []
  section_if title (x ∷ xs) = section title (x ∷ xs)

  abbrev pub entry_lines : String → List String
  entry_lines e = if str_eq e "" then [] else section "출제 의도:" (e ∷ [])

  -- The last line of a rationale.
  abbrev pub verdict_line : Option ℕ → String
  verdict_line none = "INSUFFICIENT EVIDENCE"
  verdict_line (some i) = T.answer_line i

  abbrev pub rationale_of : ReasonedTrace → String
  rationale_of t = T.join_lines (
      (T.titled "규칙: " t.rule_id ∷ entry_lines t.entry_point)
      ++ (section "문항 신호:" t.signals
          ++ (section "떠올려야 할 주제:" t.concepts
              ++ (section_if "숨겨진 함정:" t.trap_patterns
                  ++ (section "풀이식:" t.formula_steps
                      ++ (section "오답 제거:" t.choice_notes
                          ++ (T.titled "정답 확정: " t.answer_text
                              ∷ verdict_line t.chosen_index
                              ∷ [])))))))

  unfoldable pub to_result : Question → ReasonedTrace → SolveResult
  to_result q t = record {
    question_id = q.question_id;
    chosen_index = t.chosen_index;
    rationale = rationale_of t;
    mode = "reasoned";
    model = some "deterministic-rules-v1";
    raw_response = rationale_of t;
    rule_id = some t.rule_id;
  }

  -- The trace of the first rule that gives one.
  unfoldable pub first_trace :
      List (Question → Option ReasonedTrace) → Question → Option ReasonedTrace
  first_trace [] q = none
  first_trace (rule ∷ rules) q =
      let later = first_trace rules q in elim (rule q) [ none ↦ later | some t ↦ some t ]

  abbrev pub trace_or : Option ReasonedTrace → ReasonedTrace → ReasonedTrace
  trace_or none t = t
  trace_or (some s) t = s

  unfoldable pub solve_reasoned : List (Question → Option ReasonedTrace) → Question → SolveResult
  unfolding first_trace known_solution_trace unsupported_trace to_result
  solve_reasoned rules q = elim (first_trace rules q) [
    | some t ↦ to_result q t
    | none ↦ to_result q (trace_or (known_solution_trace q) (unsupported_trace q))
  ]
