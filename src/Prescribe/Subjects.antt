-- ===== src/Prescribe/Subjects.antt =====
-- The registry of subjects, cpa_first/subjects.py, by the ids. A set is the list of its members.
use xeno_pre_test.Prelude.{
  Bool, true, false, ◌&&◌, if◌then◌else◌, List, [], ◌∷◌, String, str_eq, mem_str, keep, all,
}

-- SUBJECTS
abbrev pub subjects : List String
subjects =
    "accounting" ∷ "tax" ∷ "business" ∷ "economics" ∷ "corporate_law" ∷ "management" ∷ "finance"
    ∷ "cost_accounting" ∷ []

abbrev pub is_known_subject : String → Bool
is_known_subject s = mem_str s subjects

-- GROUPS has one group, and its members.
abbrev pub is_group : String → Bool
is_group s = str_eq s "accounting_tax"

abbrev pub group_members : List String
group_members = "accounting" ∷ "tax" ∷ []

unfoldable pub matches_rule_subject : String → List String → Bool
matches_rule_subject s user =
    if str_eq s "general"
    then true
    else if is_group s
    then all (λ g. mem_str g user) group_members
    else if is_known_subject s
    then mem_str s user
    else false

abbrev single_or_mixed : List String → String
single_or_mixed (s ∷ []) = s
single_or_mixed _ = "mixed"

unfoldable pub primary_subject : List String → List String → String
primary_subject rule_subjects user =
    single_or_mixed (keep (λ s. is_known_subject s && mem_str s user) rule_subjects)
