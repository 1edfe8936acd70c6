-- ===== src/Explain/Gate.antt =====
-- `build_practice_entry` of cpa_first/real_exams.py: which explanation of a real exam question is shown. The
-- fields of the question are passed on as they are.
use xeno_pre_test.Prelude.{Bool, true, false, if◌then◌else◌, Option, none, some, [], String}
use xeno_pre_test.Explain.Dict.{Value, texts, is_text}
use xeno_pre_test.Explain.Generate.{
  Status, verified_answer_match, answer_mismatch, answer_parse_failed, backend_error, Explanation,
  Judgment,
}

pub data Kind : Type 0 where
  no_explanation : Kind
  ai_answer_and_reasoning_verified : Kind
  ai_answer_verified_reasoning_unreviewed : Kind
  ai_answer_verified_reasoning_rejected : Kind

abbrev pub is_verified_status : Status → Bool
is_verified_status verified_answer_match = true
is_verified_status answer_mismatch = false
is_verified_status answer_parse_failed = false
is_verified_status backend_error = false

-- `verified`
abbrev pub is_verified : Option Explanation → Bool
is_verified none = false
is_verified (some e) = is_verified_status e.status

abbrev pub has_verdict : String → Option Judgment → Bool
has_verdict v none = false
has_verdict v (some j) = is_text v j.verdict

-- `kind` and `show_body`.
unfoldable pub kind_of : Option Explanation → Option Judgment → Kind
kind_of e j =
    if is_verified e
    then if has_verdict "pass" j
      then ai_answer_and_reasoning_verified
      else if has_verdict "fail" j
      then ai_answer_verified_reasoning_rejected
      else ai_answer_verified_reasoning_unreviewed
    else no_explanation

abbrev pub show_body : Kind → Bool
show_body no_explanation = false
show_body ai_answer_and_reasoning_verified = true
show_body ai_answer_verified_reasoning_rejected = false
show_body ai_answer_verified_reasoning_unreviewed = true

abbrev body_of : Option Explanation → String
body_of none = ""
body_of (some e) = e.walkthrough

abbrev status_in : Option Explanation → Option Status
status_in none = none
status_in (some e) = some e.status

abbrev verdict_of : Option Judgment → Option Value
verdict_of none = none
verdict_of (some j) = some j.verdict

-- The errors are shown where the verdict is "fail".
abbrev errors_of : Option Judgment → Option Value
errors_of none = none
errors_of (some j) = some (if is_text "fail" j.verdict then j.errors else texts [])

-- A question as it is served: its own fields, and what the explanation and its judgment add.
pub record Entry (Q : Type 0) : Type 0 where
  pub question : Q
  pub explanation : String
  pub explanation_kind : Kind
  pub explanation_status : Option Status
  pub reasoning_verdict : Option Value
  pub reasoning_errors : Option Value

unfoldable pub build_practice_entry :
    {Q : Type 0} → Q → Option Explanation → Option Judgment → Entry Q
unfolding kind_of
build_practice_entry q e j = record {
  question = q;
  explanation = if show_body (kind_of e j) then body_of e else "";
  explanation_kind = kind_of e j;
  explanation_status = status_in e;
  reasoning_verdict = verdict_of j;
  reasoning_errors = errors_of j;
}
