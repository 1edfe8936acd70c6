-- ===== src/Aggregate/Subjects.antt =====
-- What `aggregate_user_state` of cpa_first/engine/aggregate.py says of each subject.
use xeno_pre_test.Prelude.{
  ℕ, ◌≡◌, refl, sym, ap, ◌∙◌, subst, Bool, true, false, ◌||◌, if◌then◌else◌, Option, none, some,
  List, [], ◌∷◌, ◌++◌, map, All, String, str_eq, eq_iff, str_leb, str_leb-total, str_leb_trans,
  mem_str, keep, insort, sorted, IsSorted, sorted-IsSorted, Bool-cases, inl, inr,
}
use mathlib.Core.Bool.{false≢true}
use mathlib.Core.List.{append_assoc, append-nil}
use xeno_pre_test.StudyPlan.Stage.{Stage}
use xeno_pre_test.Aggregate.Signals.{Log, Problem, problem_by_id}
use xeno_pre_test.Aggregate.State.{
  SubjectState, subject_of, append_log, append_to, by_subject, logs_of, group_names,
  aggregate_subject_state, with_state, subject_states, aggregate_user_state,
}

-- The first state of a subject.
abbrev pub state_of : String → List SubjectState → Option SubjectState
state_of s [] = none
state_of s (t ∷ ts) = if str_eq s t.subject then some t else state_of s ts

abbrev pub is_subject : String → Option String → Bool
is_subject s none = false
is_subject s (some t) = str_eq s t

-- A log on a problem of the subject.
abbrev pub is_log_of : List Problem → String → Log → Bool
unfolding problem_by_id
is_log_of ps s l = is_subject s (subject_of ps l)

str_eq_sym : (s t : String) → str_eq s t ≡ true → str_eq t s ≡ true
str_eq_sym s t h = (eq_iff t s).1 (sym ((eq_iff s t).0 h))

str_eq_apart : (s t u : String) → str_eq t u ≡ false → str_eq s u ≡ true → str_eq s t ≡ false
str_eq_apart s t u h k = elim (Bool-cases (str_eq s t)) [
  | inr e ↦ e
  | inl e ↦ absurd (false≢true (sym h ∙ (eq_iff t u).1 (sym ((eq_iff s t).0 e) ∙ (eq_iff s u).0 k)))
]

logs_of-append_log :
    (s t : String) (l : Log) (groups : List (String × List Log))
    → logs_of s (append_log t l groups)
      ≡ (if str_eq s t then logs_of s groups ++ l ∷ [] else logs_of s groups)
unfolding logs_of append_log
logs_of-append_log s t l [] = refl
logs_of-append_log s t l ((u, ls) ∷ groups) = elim (Bool-cases (str_eq t u)) [
  | inl e ↦
      rw (e, (eq_iff t u).0 e)
        (elim (Bool-cases (str_eq s u)) [ inl k ↦ rw k refl | inr k ↦ rw k refl ])
  | inr e ↦ elim (Bool-cases (str_eq s u)) [
    | inl k ↦ rw (e, str_eq_apart s t u e k) (rw k refl)
    | inr k ↦ rw (e, k) (logs_of-append_log s t l groups)
  ]
]

logs_of-by_subject :
    (ps : List Problem) (s : String) (ls : List Log) (groups : List (String × List Log))
    → logs_of s (by_subject ps ls groups) ≡ logs_of s groups ++ keep (is_log_of ps s) ls
unfolding by_subject
logs_of-by_subject ps s [] groups = sym (append-nil (logs_of s groups))
logs_of-by_subject ps s (l ∷ ls) groups =
    logs_of-by_subject ps s ls (append_to (subject_of ps l) l groups)
    ∙ by_subject_of (subject_of ps l)
  where
    by_subject_of :
        (o : Option String)
        → logs_of s (append_to o l groups) ++ keep (is_log_of ps s) ls
          ≡ logs_of s groups
            ++ (if is_subject s o then l ∷ keep (is_log_of ps s) ls else keep (is_log_of ps s) ls)
    by_subject_of none = refl
    by_subject_of (some t) =
        ap (λ x. x ++ keep (is_log_of ps s) ls) (logs_of-append_log s t l groups)
        ∙ elim (Bool-cases (str_eq s t)) [
          | inl e ↦ rw e (append_assoc (logs_of s groups) (l ∷ []) (keep (is_log_of ps s) ls))
          | inr e ↦ rw e refl
        ]

logs_of_absent :
    (s : String) (groups : List (String × List Log))
    → mem_str s (group_names groups) ≡ false
    → logs_of s groups ≡ []
unfolding logs_of
logs_of_absent s [] h = refl
logs_of_absent s ((t, ls) ∷ groups) h = elim (Bool-cases (str_eq s t)) [
  | inl e ↦ absurd (false≢true (sym (rw e at h)))
  | inr e ↦ rw e (logs_of_absent s groups (rw e at h))
]

mem_str-insort :
    (s x : String) (xs : List String)
    → mem_str s (insort str_leb x xs) ≡ (str_eq s x || mem_str s xs)
unfolding insort
mem_str-insort s x [] = refl
mem_str-insort s x (y ∷ ys) = elim (Bool-cases (str_leb x y)) [
  | inl e ↦ rw e refl
  | inr e ↦ rw (e, mem_str-insort s x ys) (or_swap (str_eq s y) (str_eq s x) (mem_str s ys))
]
  where
    or_swap : (a b c : Bool) → (a || (b || c)) ≡ (b || (a || c))
    or_swap true true c = refl
    or_swap true false c = refl
    or_swap false true c = refl
    or_swap false false c = refl

mem_str-sorted : (s : String) (xs : List String) → mem_str s (sorted str_leb xs) ≡ mem_str s xs
unfolding sorted
mem_str-sorted s [] = refl
mem_str-sorted s (x ∷ xs) =
    mem_str-insort s x (sorted str_leb xs) ∙ ap (λ b. str_eq s x || b) (mem_str-sorted s xs)

module _ (has_colon : String → Bool) (share : ℕ → ℕ → ℕ) where
  state_of-with_state :
      (s t : String) (ls : List Log) (ps : List Problem) (rest : List SubjectState)
      → state_of s (with_state (aggregate_subject_state has_colon share ls ps t) rest) ≡ (
          if str_eq s t
          then elim (aggregate_subject_state has_colon share ls ps t) [
            | none ↦ state_of s rest
            | some u ↦ some u
          ]
          else state_of s rest)
  unfolding aggregate_subject_state
  state_of-with_state s t [] ps rest = elim (Bool-cases (str_eq s t)) [
    | inl e ↦ rw e refl
    | inr e ↦ rw e refl
  ]
  state_of-with_state s t (l ∷ ls) ps rest = refl

  state_of-subject_states :
      (s : String) (groups : List (String × List Log)) (ps : List Problem) (ss : List String)
      → state_of s (subject_states has_colon share groups ps ss) ≡ (
          if mem_str s ss
          then aggregate_subject_state has_colon share (logs_of s groups) ps s
          else none)
  unfolding subject_states
  state_of-subject_states s groups ps [] = refl
  state_of-subject_states s groups ps (t ∷ ss) =
      state_of-with_state s t (logs_of t groups) ps (subject_states has_colon share groups ps ss)
      ∙ elim (Bool-cases (str_eq s t)) [
        | inr e ↦ rw e (state_of-subject_states s groups ps ss)
        | inl e ↦
            subst
              (λ u.
                (if str_eq s u
                  then elim (aggregate_subject_state has_colon share (logs_of u groups) ps u) [
                    | none ↦ state_of s (subject_states has_colon share groups ps ss)
                    | some v ↦ some v
                  ]
                  else state_of s (subject_states has_colon share groups ps ss))
                ≡ (if str_eq s u || mem_str s ss
                    then aggregate_subject_state has_colon share (logs_of s groups) ps s
                    else none))
              ((eq_iff s t).0 e)
              (rw ((eq_iff s s).1 refl) (
                or_none (aggregate_subject_state has_colon share (logs_of s groups) ps s)
                  (state_of s (subject_states has_colon share groups ps ss)) (mem_str s ss)
                  (state_of-subject_states s groups ps ss)))
      ]
    where
      or_none :
          (o later : Option SubjectState) (b : Bool)
          → later ≡ (if b then o else none)
          → elim o [ none ↦ later | some v ↦ some v ] ≡ o
      or_none (some v) later b h = refl
      or_none none later true h = h
      or_none none later false h = h

  abbrev names : List SubjectState → List String
  names = map (λ t. t.subject)

  with_state-All :
      (P : String → Type 0) (s : String) (ls : List Log) (ps : List Problem)
      (rest : List SubjectState)
      → P s
      → All P (names rest)
      → All P (names (with_state (aggregate_subject_state has_colon share ls ps s) rest))
  unfolding aggregate_subject_state
  with_state-All P s [] ps rest p h = h
  with_state-All P s (l ∷ ls) ps rest p h = (p, h)

  with_state-IsSorted :
      (s : String) (ls : List Log) (ps : List Problem) (rest : List SubjectState)
      → All (λ t. str_leb s t ≡ true) (names rest)
      → IsSorted str_leb (names rest)
      → IsSorted str_leb (names (with_state (aggregate_subject_state has_colon share ls ps s) rest))
  unfolding aggregate_subject_state
  with_state-IsSorted s [] ps rest a h = h
  with_state-IsSorted s (l ∷ ls) ps rest a h = (a, h)

  subject_states-All :
      (P : String → Type 0) (groups : List (String × List Log)) (ps : List Problem)
      (ss : List String)
      → All P ss
      → All P (names (subject_states has_colon share groups ps ss))
  unfolding subject_states
  subject_states-All P groups ps [] h = tt
  subject_states-All P groups ps (s ∷ ss) h =
      with_state-All P s (logs_of s groups) ps _ h.0 (subject_states-All P groups ps ss h.1)

  subject_states-IsSorted :
      (groups : List (String × List Log)) (ps : List Problem) (ss : List String)
      → IsSorted str_leb ss
      → IsSorted str_leb (names (subject_states has_colon share groups ps ss))
  unfolding subject_states
  subject_states-IsSorted groups ps [] h = tt
  subject_states-IsSorted groups ps (s ∷ ss) h =
      with_state-IsSorted s (logs_of s groups) ps _
        (subject_states-All (λ t. str_leb s t ≡ true) groups ps ss h.0)
        (subject_states-IsSorted groups ps ss h.1)

  -- A group that is not there has no log and so no state.
  present_or_none :
      (s : String) (groups : List (String × List Log)) (ps : List Problem)
      → (if mem_str s (group_names groups)
          then aggregate_subject_state has_colon share (logs_of s groups) ps s
          else none)
        ≡ aggregate_subject_state has_colon share (logs_of s groups) ps s
  unfolding aggregate_subject_state
  present_or_none s groups ps = elim (Bool-cases (mem_str s (group_names groups))) [
    | inl e ↦ rw e refl
    | inr e ↦ rw (e, logs_of_absent s groups e) refl
  ]

  -- The state of a subject is what its own logs alone give, in their order, and there is one only where there is such
  -- a log; the states stand in the order of their subjects.
  pub aggregate_user_state_lem :
      (logs : List Log) (ps : List Problem) (stage : Option Stage)
      → let states = (aggregate_user_state has_colon share logs ps stage).subject_states in
        ((s : String)
          → state_of s states
            ≡ aggregate_subject_state has_colon share (keep (is_log_of ps s) logs) ps s)
        × IsSorted str_leb (map (λ t. t.subject) states)
  unfolding aggregate_user_state
  aggregate_user_state_lem logs ps stage =
      let groups = by_subject ps logs [] in
      (
        λ s.
            state_of-subject_states s groups ps (sorted str_leb (group_names groups))
            ∙ ap
                (λ b.
                  if b
                  then aggregate_subject_state has_colon share (logs_of s groups) ps s
                  else none)
                (mem_str-sorted s (group_names groups))
            ∙ present_or_none s groups ps
            ∙ ap (λ ls. aggregate_subject_state has_colon share ls ps s)
                (logs_of-by_subject ps s logs []),
        subject_states-IsSorted groups ps (sorted str_leb (group_names groups))
            (sorted-IsSorted str_leb str_leb-total str_leb_trans (group_names groups)),
      )
