-- ===== src/EvalGen/Key.antt =====
-- The key that `reconcile_correct_choice` and `generate_batch` of cpa_first/eval_gen/generator.py leave in a
-- question.
use xeno_pre_test.Prelude.{
  ℕ, zero, suc, ◌≡◌, ◌≢◌, refl, sym, ap, ◌∙◌, subst, Bool, true, false, ==_iff, Option, none, some,
  List, [], ◌∷◌, map, String, str_eq, eq_iff, eq_refl, mem_str, get_elem?, All, arith, Bool-cases,
  Option-cases, inl, inr,
}
use mathlib.Core.Bool.{false≢true}
use xeno_pre_test.Explain.Dict.{get, has, put, Value, text, number, texts, null, other, Dict}
use xeno_pre_test.Explain.Verified.{get-put_other}
use xeno_pre_test.EvalGen.Generate.{
  index_of, is_number, choices_of, Reconciled, matched, unverified, repaired, dropped,
  reconcile_with, reconcile_correct_choice, set_default, hydrate, BatchSpec,
}

abbrev is_some {ℓ} : {A : Type ℓ} → Option A → Bool
is_some none = false
is_some (some _) = true

none≢some {ℓ} : {A : Type ℓ} (a : A) → none ≡ some a → ⊥
none≢some a e = false≢true (ap is_some e)

some_eq {ℓ} : {A : Type ℓ} (a b : A) → some a ≡ some b → a ≡ b
some_eq a b e = ap (λ o. elim o [ none ↦ a | some c ↦ c ]) e

get-put : (k : String) (v : Value) (d : Dict) → get k (put k v d) ≡ some v
unfolding put
get-put k v [] = rw (eq_refl k) refl
get-put k v ((j, w) ∷ d) = elim (Bool-cases (str_eq k j)) [
  | inl e ↦ rw (e, put) (rw e refl)
  | inr e ↦ rw (e, put) (rw e (get-put k v d))
]

pub get_elem?-index_of :
    (t : String) (cs : List String) (i : ℕ) → index_of t cs ≡ some i → get_elem? cs i ≡ some t
unfolding index_of
get_elem?-index_of t [] i e = absurd (none≢some i e)
get_elem?-index_of t (c ∷ cs) i e = elim (Bool-cases (str_eq c t)) [
  | inl h ↦
      let at_start : zero ≡ i = some_eq zero i (rw (h, index_of) at e) in
      subst (λ j. get_elem? (c ∷ cs) j ≡ some t) at_start (ap some ((eq_iff c t).0 h))
  | inr h ↦ elim (Option-cases (index_of t cs)) [
    | inl n ↦ absurd (none≢some i (rw (h, n, index_of) at e))
    | inr (k, n) ↦
        let later : suc k ≡ i = some_eq (suc k) i (rw (h, n, index_of) at e) in
        subst (λ j. get_elem? (c ∷ cs) j ≡ some t) later (get_elem?-index_of t cs k n)
  ]
]

is_number_eq : (i : ℕ) (v : Option Value) → is_number i v ≡ true → v ≡ some (number i)
is_number_eq i none e = absurd (false≢true e)
is_number_eq i (some (number k)) e = ap (λ n. some (number n)) (sym ((==_iff i k).0 e))
is_number_eq i (some (text t)) e = absurd (false≢true e)
is_number_eq i (some (texts ts)) e = absurd (false≢true e)
is_number_eq i (some null) e = absurd (false≢true e)
is_number_eq i (some (other t)) e = absurd (false≢true e)

get-set_default :
    (j k : String) (v : Value) (d : Dict) → str_eq j k ≡ false → get j (set_default k v d) ≡ get j d
unfolding set_default
get-set_default j k v d h = elim (Bool-cases (has k d)) [
  | inl e ↦ rw e refl
  | inr e ↦ rw e (get-put_other j k v d h)
]

-- The keys that `_hydrate` may write, the last one first.
abbrev hydrated_keys : List String
hydrated_keys =
    "review_status" ∷ "rights_status" ∷ "concept_tags" ∷ "bloom_level" ∷ "difficulty_score"
    ∷ "expected_seconds" ∷ "applicable_year" ∷ "difficulty" ∷ "unit" ∷ "subject" ∷ "exam" ∷ []

others : (j : String) (ks : List String) → mem_str j ks ≡ false → All (λ k. str_eq j k ≡ false) ks
others j [] h = tt
others j (k ∷ ks) h = (ground (arith, h), others j ks (ground (arith, h)))

-- What the model gave under another key is kept.
get-hydrate :
    (j : String) (spec : BatchSpec) (q : Dict)
    → mem_str j hydrated_keys ≡ false
    → get j (hydrate spec q) ≡ get j q
unfolding hydrate
get-hydrate j spec q h =
    let o = others j hydrated_keys h in
    get-put_other j "review_status" _ _ o.0
    ∙ get-put_other j "rights_status" _ _ o.1.0
    ∙ get-set_default j "concept_tags" _ _ o.1.1.0
    ∙ get-set_default j "bloom_level" _ _ o.1.1.1.0
    ∙ get-set_default j "difficulty_score" _ _ o.1.1.1.1.0
    ∙ get-set_default j "expected_seconds" _ _ o.1.1.1.1.1.0
    ∙ get-set_default j "applicable_year" _ _ o.1.1.1.1.1.1.0
    ∙ get-set_default j "difficulty" _ _ o.1.1.1.1.1.1.1.0
    ∙ get-set_default j "unit" _ _ o.1.1.1.1.1.1.1.1.0
    ∙ get-set_default j "subject" _ _ o.1.1.1.1.1.1.1.1.1.0
    ∙ get-set_default j "exam" _ _ o.1.1.1.1.1.1.1.1.1.1.0

module _ (norm : String → String) (norm_value : Value → String) where
  -- The key of `r` is the index of a choice with the text of the answer.
  abbrev pub IsKeyed : Value → Dict → Type 0
  IsKeyed answer r =
      (i : ℕ) × (get "correct_choice" r ≡ some (number i))
      × (get_elem? (map norm (choices_of (get "choices" r))) i ≡ some (norm_value answer))

  -- Where a question has an answer, its key is the index of a choice with that text.
  abbrev pub AnswerKeyed : Dict → Type 0
  AnswerKeyed r =
      (answer : Value) → get "correct_answer" r ≡ some answer → answer ≢ null → IsKeyed answer r

  -- What is kept of a question.
  abbrev pub kept : Reconciled → Option Dict
  kept (matched r) = some r
  kept (repaired r) = some r
  kept (unverified r) = some r
  kept dropped = none

  IsKeyed-same :
      (answer : Value) (q r : Dict)
      → get "correct_choice" r ≡ get "correct_choice" q
      → get "choices" r ≡ get "choices" q
      → IsKeyed answer q
      → IsKeyed answer r
  IsKeyed-same answer q r c d (i, a, b) = (
    i,
    c ∙ a,
    subst (λ v. get_elem? (map norm (choices_of v)) i ≡ some (norm_value answer)) (sym d) b,
  )

  reconcile_with-IsKeyed :
      (answer : Value) (q r : Dict)
      → kept (reconcile_with norm norm_value answer q) ≡ some r
      → IsKeyed answer r × (get "correct_answer" r ≡ get "correct_answer" q)
  unfolding reconcile_with
  reconcile_with-IsKeyed answer q r e =
      let choices = map norm (choices_of (get "choices" q)) in
      elim (Option-cases (index_of (norm_value answer) choices)) [
        | inl n ↦ absurd (none≢some r (rw (n, reconcile_with) at e))
        | inr (i, n) ↦
            let found = get_elem?-index_of (norm_value answer) choices i n in
            elim (Bool-cases (is_number i (get "correct_choice" q))) [
              | inl m ↦
                  let same : q ≡ r = some_eq q r (rw (n, m, reconcile_with) at e) in
                  subst (λ x. IsKeyed answer x × (get "correct_answer" x ≡ get "correct_answer" q))
                    same ((i, is_number_eq i (get "correct_choice" q) m, found), refl)
              | inr m ↦
                  let keyed = put "correct_choice" (number i) q in
                  let new = put "key_repair_note" (text "repaired") keyed in
                  let same : new ≡ r = some_eq new r (rw (n, m, reconcile_with) at e) in
                  let at_choices : get "choices" new ≡ get "choices" q =
                    get-put_other "choices" "key_repair_note" _ keyed refl
                    ∙ get-put_other "choices" "correct_choice" _ q refl in
                  subst (λ x. IsKeyed answer x × (get "correct_answer" x ≡ get "correct_answer" q))
                    same
                    (
                      (
                        i,
                        get-put_other "correct_choice" "key_repair_note" _ keyed refl
                            ∙ get-put "correct_choice" (number i) q,
                        subst
                            (λ v. get_elem? (map norm (choices_of v)) i ≡ some (norm_value answer))
                            (sym at_choices) found,
                      ),
                      get-put_other "correct_answer" "key_repair_note" _ keyed refl
                          ∙ get-put_other "correct_answer" "correct_choice" _ q refl,
                    )
            ]
      ]

  reconcile_with-AnswerKeyed :
      (v : Value) (q r : Dict)
      → get "correct_answer" q ≡ some v
      → kept (reconcile_with norm norm_value v q) ≡ some r
      → AnswerKeyed r
  reconcile_with-AnswerKeyed v q r g e answer a n =
      let (keyed, same) = reconcile_with-IsKeyed v q r e in
      subst (λ x. IsKeyed x r) (some_eq v answer (sym g ∙ sym same ∙ a)) keyed

  -- By the answer that the question has.
  by_answer :
      (q r : Dict) (given : Option Value)
      → get "correct_answer" q ≡ given
      → kept (reconcile_correct_choice norm norm_value q) ≡ some r
      → AnswerKeyed r
  unfolding reconcile_correct_choice
  by_answer q r none g e answer a n =
      let same : q ≡ r = some_eq q r (rw (g, reconcile_correct_choice) at e) in
      absurd (none≢some answer (sym g ∙ ap (get "correct_answer") same ∙ a))
  by_answer q r (some null) g e answer a n =
      let same : q ≡ r = some_eq q r (rw (g, reconcile_correct_choice) at e) in
      absurd (n (some_eq answer null (sym a ∙ ap (get "correct_answer") (sym same) ∙ g)))
  by_answer q r (some (text t)) g e answer a n =
      reconcile_with-AnswerKeyed (text t) q r g (rw (g, reconcile_correct_choice) at e) answer a n
  by_answer q r (some (number k)) g e answer a n =
      reconcile_with-AnswerKeyed (number k) q r g (rw (g, reconcile_correct_choice) at e) answer a n
  by_answer q r (some (texts ts)) g e answer a n =
      reconcile_with-AnswerKeyed (texts ts) q r g (rw (g, reconcile_correct_choice) at e) answer a n
  by_answer q r (some (other t)) g e answer a n =
      reconcile_with-AnswerKeyed (other t) q r g (rw (g, reconcile_correct_choice) at e) answer a n

  pub reconcile_correct_choice-AnswerKeyed :
      (q r : Dict) → kept (reconcile_correct_choice norm norm_value q) ≡ some r → AnswerKeyed r
  reconcile_correct_choice-AnswerKeyed q r e = by_answer q r (get "correct_answer" q) refl e

  pub hydrate-AnswerKeyed :
      (spec : BatchSpec) (q : Dict) → AnswerKeyed q → AnswerKeyed (hydrate spec q)
  hydrate-AnswerKeyed spec q h answer a n =
      IsKeyed-same answer q (hydrate spec q) (get-hydrate "correct_choice" spec q refl)
        (get-hydrate "choices" spec q refl)
        (h answer (sym (get-hydrate "correct_answer" spec q refl) ∙ a) n)
