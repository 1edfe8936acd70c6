-- ===== src/Rag/Index.antt =====
-- `TermIndex` of cpa_first/rag/term_index.py. A set is a list of its members, with each once where it is counted or
-- put in order. What the code asks of texts, regular expressions included, is the record `TextTests`.
use xeno_pre_test.Prelude.{
  ℕ, Bool, ◌&&◌, leb, if◌then◌else◌, Option, none, some, List, [], ◌∷◌, ◌++◌, map, String, str_eq,
  any, keep,
}

-- `_contains`, `in`, `len`, `lower`, `_tokenize`, and the query joined with its expansions by spaces.
pub record TextTests : Type 0 where
  pub contains : String → String → Bool
  pub is_in : String → String → Bool
  pub len : String → ℕ
  pub lower : String → String
  pub tokenize : String → List String
  pub join : String → List String → String

pub record Term : Type 0 where
  pub term_id : String
  pub name_ko : String
  pub aliases : List String
  pub confusable_with : List String

pub record Edge : Type 0 where
  pub from_term : String
  pub to_kind : String
  pub to_id : String
  pub relation : String

pub record TermIndex : Type 0 where
  pub terms : List Term
  pub edges : List Edge

-- `_by_id.get(i)`: of equal ids the last term.
unfoldable pub term_by_id : String → List Term → Option Term
term_by_id i [] = none
term_by_id i (t ∷ ts) = elim (term_by_id i ts) [
  | some u ↦ some u
  | none ↦ if str_eq t.term_id i then some t else none
]

-- An edge that `__post_init__` enters in both dicts.
abbrev pub is_defining : Edge → Bool
is_defining e = str_eq e.to_kind "rag_chunk" && str_eq e.relation "defined_in"

unfoldable pub chunk_defined_by : String → TermIndex → List String
chunk_defined_by chunk x =
    map (λ e. e.from_term) (keep (λ e. is_defining e && str_eq e.to_id chunk) x.edges)

unfoldable pub related_chunks : String → TermIndex → List String
related_chunks term x =
    map (λ e. e.to_id) (keep (λ e. is_defining e && str_eq e.from_term term) x.edges)

module _ (T : TextTests) where
  unfoldable pub surface_forms : Term → List String
  surface_forms t = keep (λ f. leb 2 (T.len f)) (t.name_ko ∷ t.aliases)

  abbrev pub is_matched : String → Term → Bool
  unfolding surface_forms
  is_matched query t = any (T.contains query) (surface_forms t)

  unfoldable pub matched_terms : String → TermIndex → List String
  unfolding surface_forms
  matched_terms query x = map (λ t. t.term_id) (keep (is_matched query) x.terms)

  abbrev pub forms_of : Option Term → List String
  unfolding surface_forms
  forms_of none = []
  forms_of (some t) = surface_forms t

  abbrev pub forms_of_all : TermIndex → List String → List String
  unfolding surface_forms term_by_id
  forms_of_all x [] = []
  forms_of_all x (i ∷ ids) = forms_of (term_by_id i x.terms) ++ forms_of_all x ids

  abbrev pub confusables : Option Term → List String
  confusables none = []
  confusables (some t) = t.confusable_with

  -- The forms of these terms and of those that are confused with them.
  abbrev pub expand_terms : TermIndex → List String → List String
  unfolding surface_forms term_by_id
  expand_terms x [] = []
  expand_terms x (i ∷ ids) =
      let t = term_by_id i x.terms in
      (forms_of t ++ forms_of_all x (confusables t)) ++ expand_terms x ids

  unfoldable pub expand_query : String → TermIndex → List String
  unfolding matched_terms surface_forms term_by_id
  expand_query query x = expand_terms x (matched_terms query x)
