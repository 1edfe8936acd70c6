-- ===== src/Rag/Tests.antt =====
-- A query over two reference texts and a general one (cpa_first/rag).
use xeno_pre_test.Prelude.{◌≡◌, refl, some, List, [], ◌∷◌, map, String, str_eq, All, sorted, arith}
use xeno_pre_test.Rag.Index.{
  TextTests, TermIndex, expand_query, matched_terms, surface_forms, term_by_id, chunk_defined_by,
}
use xeno_pre_test.Rag.Search.{
  RagChunk, candidates, retrieve, hit_of, score_chunk, distinct, round_share,
}
use xeno_pre_test.Rag.TopK.{IsHit, IsTop, retrieve-IsTop}

abbrev text_tests : TextTests
text_tests = record {
  contains = str_eq;
  is_in = str_eq;
  len = λ s. 2;
  lower = λ s. s;
  tokenize = λ s. s ∷ [];
  join = λ s ts. s;
}

abbrev chunk : String → String → String → RagChunk
chunk i subject keyword = record {
  chunk_id = i;
  subject = subject;
  unit = "";
  topic_tags = [];
  text = "lease";
  keywords = keyword ∷ [];
}

abbrev chunks : List RagChunk
chunks = chunk "c1" "tax" "vat" ∷ chunk "c2" "general" "lease" ∷ chunk "c3" "law" "lease" ∷ []

abbrev index : TermIndex
index = record {
  terms =
      record { term_id = "t1"; name_ko = "lease"; aliases = []; confusable_with = "t9" ∷ [] } ∷ [];
  edges =
      record { from_term = "t1"; to_kind = "rag_chunk"; to_id = "c1"; relation = "defined_in" }
      ∷ [];
}

ranked :
    map (λ h. h.score) (retrieve text_tests "lease" "tax" "" (some index) 2 5000 chunks)
    ≡ 35000 ∷ 20000 ∷ []
unfolding retrieve hit_of candidates score_chunk expand_query matched_terms term_by_id surface_forms
    chunk_defined_by distinct round_share sorted
ranked = refl

retrieve-IsTop_example :
    All
      (IsHit text_tests "lease" "tax" "" (some index) 5000)
      (retrieve text_tests "lease" "tax" "" (some index) 2 5000 chunks)
    × IsTop text_tests "lease" "tax" ""
        (some index)
        2
        (candidates text_tests "lease" "tax" "" (some index) 5000 chunks)
        (retrieve text_tests "lease" "tax" "" (some index) 2 5000 chunks)
unfolding distinct expand_query matched_terms term_by_id surface_forms
retrieve-IsTop_example =
    retrieve-IsTop text_tests "lease" "tax" "" (some index) 2 5000 chunks (omega arith)
