-- ===== src/Rag/TopK.antt =====
-- What `retrieve` of cpa_first/rag/search.py gives and what it leaves out.
use xeno_pre_test.Prelude.{
  ℕ, ◌≡◌, ◌≤◌, ◌<◌, sym, ap, ◌∙◌, subst, min, true, leb, leb→le, Option, List, [], ◌∷◌, ◌++◌,
  String, take, drop, length, take-append-drop, length-take, length-sorted, sorted, sorted-perm,
  IsSorted, sorted-IsSorted, All, All-take, sorted-All, higher_first-total, higher_first_trans,
  Perm, arith, Bool-cases, inl, inr,
}
use xeno_pre_test.Rag.Index.{TextTests, TermIndex}
use xeno_pre_test.Rag.Search.{
  RagChunk, RetrievalHit, is_candidate, tokens_of, hit_of, candidates, ranks_before, retrieve,
}

module _ (T : TextTests) (query subject unit : String) (index : Option TermIndex) where
  -- A hit of a chunk of the subject, or a general one, with the least score at least.
  abbrev pub IsHit : ℕ → RetrievalHit → Type 0
  IsHit min_score h = (is_candidate T subject h.chunk ≡ true) × (min_score ≤ h.score)

  candidates-IsHit :
      (min_score : ℕ) (chunks : List RagChunk)
      → All (IsHit min_score) (candidates T query subject unit index min_score chunks)
  unfolding candidates hit_of
  candidates-IsHit min_score [] = tt
  candidates-IsHit min_score (c ∷ chunks) = elim (Bool-cases (is_candidate T subject c)) [
    | inr n ↦ rw n (candidates-IsHit min_score chunks)
    | inl y ↦ elim (Bool-cases (leb min_score (hit_of T query subject unit index c).score)) [
      | inl e ↦ rw y (rw e ((y, leb→le _ _ e), candidates-IsHit min_score chunks))
      | inr e ↦ rw y (rw e (candidates-IsHit min_score chunks))
    ]
  ]

  -- The first `top_k` of a pool in the order of the ranks.
  pub record IsTop (top_k : ℕ) (pool hits : List RetrievalHit) : Type 0 where
    pub rest : List RetrievalHit
    pub all_of : Perm (hits ++ rest) pool
    pub in_order : IsSorted (ranks_before T query subject unit index) (hits ++ rest)
    pub count : length hits ≡ min top_k (length pool)

  take-IsTop :
      (top_k : ℕ) (pool : List RetrievalHit)
      → IsTop top_k pool (take top_k (sorted (ranks_before T query subject unit index) pool))
  take-IsTop top_k pool =
      let ranks = ranks_before T query subject unit index in
      let whole = take-append-drop top_k (sorted ranks pool) in
      record {
        rest = drop top_k (sorted ranks pool);
        all_of = subst (λ l. Perm l pool) (sym whole) (sorted-perm ranks pool);
        in_order =
            subst (λ l. IsSorted ranks l) (sym whole)
              (sorted-IsSorted ranks
                (λ g h. higher_first-total g.score h.score g.chunk.chunk_id h.chunk.chunk_id)
                (λ f g h.
                  higher_first_trans f.score g.score h.score f.chunk.chunk_id g.chunk.chunk_id
                    h.chunk.chunk_id)
                pool);
        count =
            length-take top_k (sorted ranks pool)
            ∙ ap (λ n. min top_k n) (length-sorted ranks pool);
      }

  -- For a query with a token, the hits are of chunks of the subject or general ones, each with the least score at
  -- least, and they are the first `top_k` of all such hits by score and then by id.
  pub retrieve-IsTop :
      (top_k min_score : ℕ) (chunks : List RagChunk)
      → 0 < length (tokens_of T query subject unit index)
      → let hits = retrieve T query subject unit index top_k min_score chunks in
        All (IsHit min_score) hits
        × IsTop top_k (candidates T query subject unit index min_score chunks) hits
  unfolding retrieve
  retrieve-IsTop top_k min_score chunks h = by_tokens (tokens_of T query subject unit index) h
    where
      by_tokens :
          (ts : List String)
          → 0 < length ts
          → let hits : List RetrievalHit = elim ts [
            | [] ↦ []
            | u ∷ us ↦ take top_k (
                sorted
                  (ranks_before T query subject unit index)
                  (candidates T query subject unit index min_score chunks))
          ] in
            All (IsHit min_score) hits
            × IsTop top_k (candidates T query subject unit index min_score chunks) hits
      by_tokens [] k = absurd (omega arith)
      by_tokens (t ∷ ts) k = (
        All-take (IsHit min_score) top_k _ (
            sorted-All (ranks_before T query subject unit index) (IsHit min_score) _
              (candidates-IsHit min_score chunks)),
        take-IsTop top_k _,
      )
