-- ===== src/Api/Terms.antt =====
-- The public endpoints of cpa_first/api/main.py on terms, tutorials and the questions of the second exam. A missing text
-- is ""; `strip`, `in`, `startswith` and `endswith` are parameters, weights are in hundredths, and titles and other
-- fields that are only shown are left out.
use xeno_pre_test.Prelude.{
  ℕ, max, Bool, not, ◌&&◌, ◌||◌, ◌==◌, if◌then◌else◌, Option, none, some, List, [], ◌∷◌, map,
  String, str_eq, str_leb, any, first, keep, take, sorted, higher_first,
}
use xeno_pre_test.Api.Model.{Answer, ok, http_error}

pub record FullTerm : Type 0 where
  pub term_id : String
  pub name_ko : String
  pub subject : String
  pub aliases : List String
  -- The terms and the reasons.
  pub confusable_with : List (String × String)
  pub prerequisite_terms : List String

pub record TermEdge : Type 0 where
  pub from_term : String
  pub to_kind : String
  pub to_id : String
  pub relation : String
  pub weight : ℕ

-- Texts of the record, in this order: `query in form`, `name.startswith(query)`, `sid.endswith("_" + subject)`.
pub record TermTests : Type 0 where
  pub strip : String → String
  pub is_in : String → String → Bool
  pub starts_with : String → String → Bool
  pub ends_with_subject : String → String → Bool

-- `terms_full.get(term_id)`: the ids are the keys of a dict.
abbrev pub full_term : String → List FullTerm → Option FullTerm
full_term i = first (λ t. str_eq t.term_id i)

module _ (T : TermTests) where
  abbrev pub is_hit : String → FullTerm → Bool
  is_hit query t = any (λ f. not (str_eq f "") && T.is_in query f) (t.name_ko ∷ t.aliases)

  -- The key `(0 if m["name_ko"].startswith(query) else 1, m["term_id"])`.
  abbrev pub shown_before : String → FullTerm → FullTerm → Bool
  shown_before query t u =
      let a = T.starts_with query t.name_ko in
      let b = T.starts_with query u.name_ko in
      higher_first (if a then 1 else 0) t.term_id (if b then 1 else 0) u.term_id

  unfoldable pub search_terms : String → ℕ → List FullTerm → List FullTerm
  search_terms q limit terms =
      let query = T.strip q in
      if str_eq query ""
      then []
      else take (max 1 limit) (sorted (shown_before query) (keep (is_hit query) terms))

  pub record Tutorial : Type 0 where
    pub tutorial_id : String
    pub subject_id : String
    pub level : String
    pub ontology_node : String
    pub n_steps : ℕ

  abbrev pub tutorial_matches_subject : Tutorial → String → Bool
  tutorial_matches_subject t subject =
      str_eq t.subject_id subject || T.ends_with_subject t.subject_id subject

  -- `not wanted or value == wanted`
  abbrev pub is_wanted : String → String → Bool
  is_wanted wanted value = str_eq wanted "" || str_eq value wanted

  unfoldable pub list_tutorials : String → String → String → List Tutorial → List Tutorial
  list_tutorials subject level node tutorials =
      sorted (λ t u. str_leb t.tutorial_id u.tutorial_id)
        (keep
          (λ t.
            (str_eq subject "" || tutorial_matches_subject t subject)
            && is_wanted level t.level
            && is_wanted node t.ontology_node)
          tutorials)

-- What `_resolve_term_brief` gives: the name and the subject, where the term is in the seed.
pub record TermBrief : Type 0 where
  pub term_id : String
  pub in_seed : Option (String × String)

unfoldable pub resolve_term_brief : List FullTerm → String → TermBrief
resolve_term_brief terms i = record {
  term_id = i;
  in_seed = elim (full_term i terms) [ none ↦ none | some t ↦ some (t.name_ko, t.subject) ];
}

pub record TermPage : Type 0 where
  pub term : FullTerm
  pub chunks : List (String × ℕ)
  pub problems : List (String × ℕ)
  pub tutorials : List (String × ℕ)
  pub confusable_terms : List (TermBrief × String)
  pub prerequisite_terms : List TermBrief

abbrev pub heavier : String × ℕ → String × ℕ → Bool
heavier (i, m) (j, n) = higher_first m i n j

abbrev pub leads_to : String → String → String → (String → Bool) → TermEdge → Bool
leads_to term kind relation is_known e =
    str_eq e.from_term term
    && str_eq e.to_kind kind
    && str_eq e.relation relation
    && is_known e.to_id

-- The ids that a term's edges of a kind lead to and that are known, the heaviest first.
unfoldable pub related :
    String → String → String → (String → Bool) → List TermEdge → List (String × ℕ)
related term kind relation is_known edges =
    sorted heavier
      (map (λ e. (e.to_id, e.weight)) (keep (leads_to term kind relation is_known) edges))

-- `is_chunk`, `is_problem` and `is_tutorial` tell the ids of the three dicts.
unfoldable pub get_term :
    List FullTerm
    → List TermEdge
    → (String → Bool)
    → (String → Bool)
    → (String → Bool)
    → String
    → Answer TermPage
unfolding related resolve_term_brief
get_term terms edges is_chunk is_problem is_tutorial i = elim (full_term i terms) [
  | none ↦ http_error 404
  | some t ↦ ok record {
    term = t;
    chunks = related i "rag_chunk" "defined_in" is_chunk edges;
    problems = related i "problem" "tested_in" is_problem edges;
    tutorials = related i "tutorial" "explained_in" is_tutorial edges;
    confusable_terms = map (λ (j, reason). (resolve_term_brief terms j, reason)) t.confusable_with;
    prerequisite_terms = map (resolve_term_brief terms) t.prerequisite_terms;
  }
]

pub record SecondQuestion : Type 0 where
  pub question_id : String
  pub subject : String
  pub applicable_year : Option ℕ
  pub number : Option ℕ
  pub n_sub_questions : ℕ

-- `not year or q.get("applicable_year") == year`
abbrev pub of_year : ℕ → Option ℕ → Bool
of_year year none = year == 0
of_year year (some y) = (year == 0) || (y == year)

unfoldable pub list_cpa2_practice : String → ℕ → List SecondQuestion → List SecondQuestion
list_cpa2_practice subject year questions =
    keep (λ q. (str_eq subject "" || str_eq q.subject subject) && of_year year q.applicable_year)
      questions

unfoldable pub get_cpa2_practice : String → List SecondQuestion → Answer SecondQuestion
get_cpa2_practice i questions = elim (first (λ q. str_eq q.question_id i) questions) [
  | none ↦ http_error 404
  | some q ↦ ok q
]
