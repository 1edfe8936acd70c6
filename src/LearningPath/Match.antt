-- ===== src/LearningPath/Match.antt =====
-- `_surface_forms` and `_match_concept` of cpa_first/engine/learning_path.py. A label comes with its variants,
-- what `_label_variants` gives; a term's forms are its name and aliases of two characters at least.
use Prim.Native.String.{count}
use text.Mathlib.Text.{find?}
use xeno_pre_test.Prelude.{
  ℕ, ◌≡◌, refl, sym, subst, ap, ◌∙◌, Bool, true, false, ◌&&◌, ◌||◌, ◌==◌, ltb, leb, if◌then◌else◌,
  Option, none, some, List, [], ◌∷◌, ◌++◌, String, str_eq, str_leb, keep, sorted, any, All,
  All-append, sorted-All, arith, Bool-cases, Option-cases, inl, inr,
}
use xeno_pre_test.LearningPath.Trace.{Term}
use xeno_pre_test.LearningPath.Visit.{known}

-- A term's id with its forms.
pub record Forms : Type 0 where
  pub term_id : String
  pub forms : List String

-- `_surface_forms`
unfoldable pub surface_forms : Option String → List String → List String
surface_forms name aliases =
    keep (λ f. leb 2 (count f)) (elim name [ none ↦ aliases | some n ↦ n ∷ aliases ])

abbrev pub is_part : String → String → Bool
is_part a b = elim (find? b a) [ none ↦ false | some i ↦ true ]

pub record Candidate : Type 0 where
  pub rank : ℕ
  pub size : ℕ
  pub term_id : String

abbrev pub candidate : String → String → String → List Candidate
candidate variant i form =
    if str_eq variant form
    then record { rank = 0; size = count form; term_id = i } ∷ []
    else if is_part form variant
    then record { rank = 1; size = count form; term_id = i } ∷ []
    else if is_part variant form
    then record { rank = 2; size = count form; term_id = i } ∷ []
    else []

unfoldable pub candidates_of : String → String → List String → List Candidate
candidates_of variant i [] = []
candidates_of variant i (f ∷ fs) = candidate variant i f ++ candidates_of variant i fs

unfoldable pub candidates : String → List Forms → List Candidate
unfolding candidates_of
candidates variant [] = []
candidates variant (t ∷ ts) = candidates_of variant t.term_id t.forms ++ candidates variant ts

-- The order of `(rank, length_key, term_id)`: longer forms first, shorter ones at rank 2.
abbrev pub better : Candidate → Candidate → Bool
better a b =
    ltb a.rank b.rank
    || ((a.rank == b.rank)
        && ((if a.rank == 2 then ltb a.size b.size else ltb b.size a.size)
            || ((a.size == b.size) && str_leb a.term_id b.term_id)))

abbrev best : List Candidate → Option String
best [] = none
best (c ∷ cs) = some c.term_id

unfoldable pub match_concept : List String → List Forms → Option String
unfolding candidates
match_concept [] terms = none
match_concept (v ∷ vs) terms = elim (best (sorted better (candidates v terms))) [
  | some i ↦ some i
  | none ↦ match_concept vs terms
]

-- The id is one of these terms'.
abbrev pub has_forms : String → List Forms → Bool
has_forms i = any (λ t. str_eq i t.term_id)

candidates_of-All :
    (P : String → Type 0) (variant i : String) (fs : List String)
    → P i
    → All (λ c. P c.term_id) (candidates_of variant i fs)
unfolding candidates_of
candidates_of-All P variant i [] h = tt
candidates_of-All P variant i (f ∷ fs) h =
    All-append _ (candidate variant i f) (candidates_of variant i fs) one
      (candidates_of-All P variant i fs h)
  where
    one : All (λ c. P c.term_id) (candidate variant i f)
    one = elim (Bool-cases (str_eq variant f)) [
      | inl e ↦ rw e (h, tt)
      | inr e ↦ elim (Bool-cases (is_part f variant)) [
        | inl e' ↦ rw (e, e') (h, tt)
        | inr e' ↦ elim (Bool-cases (is_part variant f)) [
          | inl e'' ↦ rw (e, e', e'') (h, tt)
          | inr e'' ↦ rw (e, e', e'') tt
        ]
      ]
    ]

candidates-All :
    (P : String → Type 0) (variant : String) (ts : List Forms)
    → All (λ t. P t.term_id) ts
    → All (λ c. P c.term_id) (candidates variant ts)
unfolding candidates
candidates-All P variant [] h = tt
candidates-All P variant (t ∷ ts) h =
    All-append _ (candidates_of variant t.term_id t.forms) (candidates variant ts)
      (candidates_of-All P variant t.term_id t.forms h.0) (candidates-All P variant ts h.1)

best-All :
    (P : String → Type 0) (i : String) (cs : List Candidate)
    → All (λ c. P c.term_id) cs
    → best cs ≡ some i
    → P i
best-All P i [] h e = absurd (ground arith)
best-All P i (c ∷ cs) h e = subst P (ap (λ o. elim o [ none ↦ c.term_id | some x ↦ x ]) e) h.0

-- Where each term with forms is a term of the graph, the term that a label's variants match is one.
pub match_concept-known :
    (variants : List String) (forms : List Forms) (terms : List Term) (i : String)
    → All (λ t. known t.term_id terms ≡ true) forms
    → match_concept variants forms ≡ some i
    → known i terms ≡ true
unfolding match_concept
match_concept-known [] forms terms i h e = absurd (ground arith)
match_concept-known (v ∷ vs) forms terms i h e =
    elim (Option-cases (best (sorted better (candidates v forms)))) [
      | inr (j, f) ↦
          best-All (λ x. known x terms ≡ true) i (sorted better (candidates v forms))
            (sorted-All better _ (candidates v forms)
              (candidates-All (λ x. known x terms ≡ true) v forms h))
            (f ∙ sym (rest_some j f) ∙ e)
      | inl f ↦ match_concept-known vs forms terms i h (sym (rest_none f) ∙ e)
    ]
  where
    rest_some :
        (j : String)
        → best (sorted better (candidates v forms)) ≡ some j
        → match_concept (v ∷ vs) forms ≡ some j
    rest_some j f = rw (match_concept, f) refl

    rest_none :
        best (sorted better (candidates v forms)) ≡ none
        → match_concept (v ∷ vs) forms ≡ match_concept vs forms
    rest_none f = rw (match_concept, f) refl
