-- ===== src/Benchmark/Grade.antt =====
-- `grade` of cpa_first/benchmark/runner.py: a solver's result held against a question. The regular expressions and
-- the other tests on texts are parameters. A negative `chosen_index` is `none`.
use xeno_pre_test.Prelude.{
  ℕ, Bool, true, false, ◌&&◌, ◌==◌, leb, if◌then◌else◌, Option, none, some, List, [], ◌∷◌, String,
  str_eq, any, get_elem?,
}

-- `_count_citations`, the two patterns, `len`, `re.split` with `strip`, and `in` on texts.
pub record TextTests : Type 0 where
  pub count_citations : String → ℕ
  pub is_insufficient : String → Bool
  pub has_answer_line : String → Bool
  pub len : String → ℕ
  pub tokens : String → List String
  pub is_in : String → String → Bool

pub record Question : Type 0 where
  pub question_id : String
  pub subject : String
  pub unit : String
  pub choices : List String
  pub correct_choice : ℕ
  pub difficulty : Option String
  pub bloom_level : Option String
  -- A trap that is no text is `none`.
  pub attractor_traps : List (Option String)
  pub flagged_questionable : Bool
  pub questionable_reason : Option String

pub record SolveResult : Type 0 where
  pub chosen_index : Option ℕ
  pub rationale : String
  pub raw_response : String

pub record QuestionScore : Type 0 where
  pub question_id : String
  pub subject : String
  pub unit : String
  pub correct : Bool
  pub chosen_index : Option ℕ
  pub correct_index : ℕ
  pub rationale : String
  pub difficulty : Option String
  pub bloom_level : Option String
  pub rationale_chars : ℕ
  pub citation_count : ℕ
  pub insufficient_evidence : Bool
  pub answer_parse_ok : Bool
  pub attractor_hit : Option Bool
  pub flagged_questionable : Bool
  pub questionable_reason : Option String

-- `result.chosen_index == question["correct_choice"]`
abbrev pub is_choice : ℕ → Option ℕ → Bool
is_choice correct none = false
is_choice correct (some c) = c == correct

abbrev pub is_some {ℓ} : {A : Type ℓ} → Option A → Bool
is_some none = false
is_some (some _) = true

-- `question["choices"][chosen_index]`, where the index is in range.
abbrev pub chosen_text : Question → Option ℕ → Option String
chosen_text q none = none
chosen_text q (some c) = get_elem? q.choices c

module _ (T : TextTests) where
  abbrev pub hits : String → Option String → Bool
  hits text none = false
  hits text (some trap) = any (λ t. leb 4 (T.len t) && T.is_in t text) (T.tokens trap)

  unfoldable pub attractor_hit : Question → Option ℕ → Bool → Option Bool
  attractor_hit q chosen correct = elim q.attractor_traps [
    | [] ↦ none
    | t ∷ ts ↦ if correct then some false else (elim (chosen_text q chosen) [
      | none ↦ some false
      | some text ↦ some (any (hits text) (t ∷ ts))
    ])
  ]

  unfoldable pub grade : Question → SolveResult → QuestionScore
  unfolding attractor_hit
  grade q r =
      let correct = is_choice q.correct_choice r.chosen_index in
      let raw = if str_eq r.raw_response "" then r.rationale else r.raw_response in
      record {
        question_id = q.question_id;
        subject = q.subject;
        unit = q.unit;
        correct = correct;
        chosen_index = r.chosen_index;
        correct_index = q.correct_choice;
        rationale = raw;
        difficulty = q.difficulty;
        bloom_level = q.bloom_level;
        rationale_chars = T.len raw;
        citation_count = T.count_citations raw;
        insufficient_evidence = T.is_insufficient raw;
        answer_parse_ok = T.has_answer_line raw && is_some r.chosen_index;
        attractor_hit = attractor_hit q r.chosen_index correct;
        flagged_questionable = q.flagged_questionable;
        questionable_reason = q.questionable_reason;
      }
