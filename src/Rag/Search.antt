-- ===== src/Rag/Search.antt =====
-- `retrieve` and `_score_chunk` of cpa_first/rag/search.py. Scores are in ten-thousandths, to which the source rounds
-- them; the share of the query's tokens in a text is rounded half to even, where the source rounds
-- the nearest float.
use xeno_pre_test.Prelude.{
  ℕ, suc, ◌+◌, ◌*◌, ◌/◌, ◌%◌, min, max, Bool, ◌&&◌, ◌||◌, ◌==◌, ltb, leb, if◌then◌else◌, Option,
  none, some, List, [], ◌∷◌, map, String, str_eq, str_leb, mem_str, any, keep, take, length, tally,
  sorted, higher_first,
}
use xeno_pre_test.Rag.Index.{TextTests, TermIndex, chunk_defined_by, matched_terms, expand_query}

-- Without the source's title, reference and year, which the search does not read. A missing unit is "".
pub record RagChunk : Type 0 where
  pub chunk_id : String
  pub subject : String
  pub unit : String
  pub topic_tags : List String
  pub text : String
  pub keywords : List String

pub record RetrievalHit : Type 0 where
  pub chunk : RagChunk
  pub score : ℕ

-- `set(xs)`
unfoldable pub distinct : List String → List String
distinct [] = []
distinct (x ∷ xs) = let rest = distinct xs in if mem_str x xs then rest else x ∷ rest

-- `xs & ys`, as a test.
abbrev pub overlaps : List String → List String → Bool
overlaps xs ys = any (λ x. mem_str x ys) xs

-- `round(part / whole, 4)`, of a quotient in ten-thousandths.
unfoldable pub round_share : ℕ → ℕ → ℕ
round_share part whole =
    let q = part / whole in
    let r = part % whole in
    if ltb whole (2 * r) || ((2 * r == whole) && (q % 2 == 1)) then suc q else q

abbrev pub is_blank : String → Bool
is_blank s = str_eq s ""

module _ (T : TextTests) where
  abbrev pub keyword_score : List String → String → String → ℕ
  keyword_score tokens query kw =
      if T.is_in kw query || T.is_in (T.lower kw) query
      then 20000
      else if overlaps (T.tokenize kw) tokens
      then 10000
      else 0

  abbrev pub keywords_score : List String → String → List String → ℕ
  keywords_score tokens query [] = 0
  keywords_score tokens query (kw ∷ kws) =
      keyword_score tokens query kw + keywords_score tokens query kws

  abbrev pub body_score : List String → String → ℕ
  unfolding distinct round_share
  body_score tokens text =
      let overlap = tally (λ t. mem_str t tokens) (distinct (T.tokenize text)) in
      if overlap == 0
      then 0
      else round_share (15000 * min overlap (max (length tokens) 1)) (max (length tokens) 1)

  abbrev pub unit_score : String → String → ℕ
  unit_score wanted unit =
      if is_blank wanted || is_blank unit
      then 0
      else if str_eq wanted unit
      then 10000
      else if T.is_in wanted unit || T.is_in unit wanted
      then 5000
      else 0

  -- `query_tokens` are distinct; an empty unit is none.
  unfoldable pub score_chunk : RagChunk → List String → String → String → ℕ
  unfolding distinct round_share
  score_chunk c query_tokens raw_query unit =
      keywords_score query_tokens raw_query c.keywords
      + 8000 * tally (λ t. overlaps (T.tokenize t) query_tokens) c.topic_tags
      + body_score query_tokens c.text
      + unit_score unit c.unit

  -- `if subject and chunk.subject not in (subject, "general")`
  abbrev pub is_candidate : String → RagChunk → Bool
  is_candidate subject c =
      is_blank subject || str_eq c.subject subject || str_eq c.subject "general"

  -- The terms of the query, and the query with their forms.
  abbrev pub terms_in : String → Option TermIndex → List String
  unfolding matched_terms
  terms_in query none = []
  terms_in query (some x) = matched_terms T query x

  abbrev pub effective_query : String → Option TermIndex → String
  unfolding expand_query distinct
  effective_query query none = query
  effective_query query (some x) = elim (sorted str_leb (distinct (expand_query T query x))) [
    | [] ↦ query
    | e ∷ es ↦ T.join query (e ∷ es)
  ]

  abbrev pub term_bonus : List String → Option TermIndex → RagChunk → ℕ
  unfolding chunk_defined_by
  term_bonus terms none c = 0
  term_bonus terms (some x) c = if overlaps (chunk_defined_by c.chunk_id x) terms then 5000 else 0

  module _ (query subject unit : String) (index : Option TermIndex) where
    abbrev pub tokens_of : List String
    unfolding distinct
    tokens_of = distinct (T.tokenize (effective_query query index))

    -- The chunk with its score and the bonus of its terms.
    unfoldable pub hit_of : RagChunk → RetrievalHit
    unfolding score_chunk chunk_defined_by
    hit_of c = record {
      chunk = c;
      score =
          score_chunk c tokens_of (effective_query query index) unit
          + term_bonus (terms_in query index) index c;
    }

    unfoldable pub candidates : ℕ → List RagChunk → List RetrievalHit
    unfolding hit_of
    candidates min_score chunks =
        keep (λ h. leb min_score h.score) (map hit_of (keep (is_candidate subject) chunks))

    abbrev pub ranks_before : RetrievalHit → RetrievalHit → Bool
    ranks_before g h = higher_first g.score g.chunk.chunk_id h.score h.chunk.chunk_id

    unfoldable pub retrieve : ℕ → ℕ → List RagChunk → List RetrievalHit
    unfolding candidates distinct
    retrieve top_k min_score chunks = elim tokens_of [
      | [] ↦ []
      | t ∷ ts ↦ take top_k (sorted ranks_before (candidates min_score chunks))
    ]
