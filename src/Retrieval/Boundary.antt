-- ===== src/Retrieval/Boundary.antt =====
-- Whatever route a retrieval takes, its hits are chunks that the store gave for the filter, and no more
-- than the limit.
use go_rag_agent.Base.{
  ℕ, ◌≤◌, Bool, false, ◌||◌, List, [], ◌∷◌, ◌++◌, Option, none, some, ◌≡◌, refl, sym, ap, subst,
  ◌∙◌, ◌⊎◌, inl, inr, Text, is_empty, length, any, any-append, is_neg, arith, Bool-cases,
  trim_space,
}
use go_rag_agent.Access.Filter.{ChunkRecord, SearchFilter}
use go_rag_agent.Access.Search.{SearchHit}
use go_rag_agent.Retrieval.{
  Scores, Unicode, Options, normalize_options, candidate_limit, rerank_shortlist_size,
  lexical_search, fuse_rrf_with_k, rerank_shortlist_with_limit,
}
use go_rag_agent.Retrieval.Subset.{
  on_chunk, any-lexical_search, any-rerank, any-fuse, length-rerank,
}
use go_rag_agent.Retrieval.Pipeline.{
  RetrievalError, Fallback, invalid_rerank, Metrics, Reranker, Retriever, cut, after_vector,
  rule_based_reranker, vector_only, vector_fallback, after_rerank, over_threshold, safe_rerank,
  rerank_fused, fuse_all, after_all, search_row, after_embed, search_detailed,
}
use go_rag_agent.Retrieval.Inside.{
  RetrieverLaws, IsInside, error-IsInside, hits-IsInside, if-IsInside, cut-inside,
}

module _ {F K : Type 0} (sc : Scores F K) (u : Unicode) (out : ChunkRecord → Bool) where
  over_threshold-inside :
      (t : F) (limit : ℕ) (kept hits : List (SearchHit F))
      → any (on_chunk out) kept ≡ false
      → any (on_chunk out) hits ≡ false
      → any (on_chunk out) (over_threshold sc u t limit kept hits) ≡ false
  unfolding over_threshold any
  over_threshold-inside t limit kept [] a b = a
  over_threshold-inside t limit kept (h ∷ hits) a b =
      let more : any (on_chunk out) (kept ++ h ∷ []) ≡ false =
        any-append (on_chunk out) kept (h ∷ []) ∙ ground (arith, a, b) in
      ground (
        arith,
        b,
        more,
        over_threshold-inside t limit kept hits a,
        over_threshold-inside t limit (kept ++ h ∷ []) hits more,
      )

  module _ (r : Retriever F K) (filter : SearchFilter) (laws : RetrieverLaws r filter out)
      (own : (rerank : Reranker F)
        → r.reranker ≡ some rerank
        → rerank ≡ rule_based_reranker sc u) where
    vector_only-IsInside :
        (answer : Text ⊎ List (SearchHit F)) (row : List F) (t : F)
        → r.search row (some r.top_k) t filter ≡ answer
        → IsInside out r.top_k (vector_only answer)
    unfolding vector_only
    vector_only-IsInside (inl err) row t e = error-IsInside out r.top_k _ _ _
    vector_only-IsInside (inr hits) row t e =
        hits-IsInside out r.top_k hits _ _ (laws.search_inside row (some r.top_k) t hits e)
          (laws.search_limited row r.top_k t hits e)

    vector_fallback-IsInside :
        (answer : Text ⊎ List (SearchHit F)) (row : List F) (t : F)
        → r.search row (some r.top_k) t filter ≡ answer
        → IsInside out r.top_k (vector_fallback answer)
    unfolding vector_fallback
    vector_fallback-IsInside (inl err) row t e = error-IsInside out r.top_k _ _ _
    vector_fallback-IsInside (inr hits) row t e =
        hits-IsInside out r.top_k hits _ _ (laws.search_inside row (some r.top_k) t hits e)
          (laws.search_limited row r.top_k t hits e)

    after_vector-IsInside :
        (fallback : Fallback) (answer : Text ⊎ List (SearchHit F)) (x : RetrievalError)
        → (row : List F) (t : F) → r.search row (some r.top_k) t filter ≡ answer
        → IsInside out r.top_k (after_vector fallback answer x)
    unfolding after_vector
    after_vector-IsInside fallback (inl err) x row t e = error-IsInside out r.top_k _ _ _
    after_vector-IsInside fallback (inr hits) x row t e =
        hits-IsInside out r.top_k hits _ _ (laws.search_inside row (some r.top_k) t hits e)
          (laws.search_limited row r.top_k t hits e)

    cut-IsInside :
        (fused : List (SearchHit F)) (m : Metrics) (f : List Fallback)
        → any (on_chunk out) fused ≡ false
        → IsInside out r.top_k (inr (cut r.top_k fused), m, f)
    cut-IsInside fused m f h =
        let (a, b) = cut-inside out r.top_k fused h in
        hits-IsInside out r.top_k (cut r.top_k fused) m f a b

    after_rerank-IsInside :
        (fused : List (SearchHit F)) (m : Metrics) (answer : Text ⊎ List (SearchHit F))
        → any (on_chunk out) fused ≡ false
        → ((hits : List (SearchHit F)) → answer ≡ inr hits → any (on_chunk out) hits ≡ false)
        → ((hits : List (SearchHit F)) → answer ≡ inr hits → length hits ≤ r.top_k)
        → IsInside out r.top_k (after_rerank r.top_k fused m answer)
    unfolding after_rerank
    after_rerank-IsInside fused m (inl err) h a b = cut-IsInside fused m _ h
    after_rerank-IsInside fused m (inr hits) h a b =
        hits-IsInside out r.top_k hits m [] (a hits refl) (b hits refl)

    rule_based_reranker-inside :
        (query : Text) (fused hits : List (SearchHit F)) (n : ℕ)
        → any (on_chunk out) fused ≡ false
        → rule_based_reranker sc u query fused n r.top_k ≡ inr hits
        → (any (on_chunk out) hits ≡ false) × (length hits ≤ r.top_k)
    unfolding rule_based_reranker
    rule_based_reranker-inside query fused hits n h e =
        let same : rerank_shortlist_with_limit sc u query fused n r.top_k ≡ hits =
          ground (arith, e) in
        (
          ap (λ l. any (on_chunk out) l) (sym same) ∙ any-rerank sc out u query fused n r.top_k h,
          subst (λ l. length l ≤ r.top_k) same (length-rerank sc u query fused n r.top_k),
        )

    safe_rerank-inside :
        (o : Option (Reranker F)) (query : Text) (fused hits : List (SearchHit F)) (n : ℕ)
        → r.reranker ≡ o
        → any (on_chunk out) fused ≡ false
        → safe_rerank sc u o query fused n r.top_k ≡ inr hits
        → (any (on_chunk out) hits ≡ false) × (length hits ≤ r.top_k)
    unfolding safe_rerank rule_based_reranker
    safe_rerank-inside none query fused hits n o h e =
        rule_based_reranker-inside query fused hits n h e
    safe_rerank-inside (some rerank) query fused hits n o h e =
        let built_in : rule_based_reranker sc u query fused n r.top_k ≡ inr hits =
          ap (λ (f : Reranker F). f query fused n r.top_k) (sym (own rerank o)) ∙ e in
        rule_based_reranker-inside query fused hits n h built_in

    rerank_fused-IsInside :
        (query : Text) (fused : List (SearchHit F)) (m : Metrics)
        → any (on_chunk out) fused ≡ false
        → IsInside out r.top_k (rerank_fused sc u r query fused m)
    unfolding rerank_fused
    rerank_fused-IsInside query fused m h =
        let n = rerank_shortlist_size sc (normalize_options sc r.opts) r.top_k (length fused) in
        let m' : Metrics = record m { shortlist_count = n } in
        if-IsInside out r.top_k (is_neg r.opts.rerank_multiplier)
          (inr (cut r.top_k fused), m, invalid_rerank ∷ [])
          (after_rerank r.top_k fused m' (safe_rerank sc u r.reranker query fused n r.top_k))
          (cut-IsInside fused m (invalid_rerank ∷ []) h)
          (after_rerank-IsInside fused m' (safe_rerank sc u r.reranker query fused n r.top_k) h
            (λ hits g. (safe_rerank-inside r.reranker query fused hits n refl h g).0)
            (λ hits g. (safe_rerank-inside r.reranker query fused hits n refl h g).1))

    fuse_all-IsInside :
        (query : Text) (all : List (SearchHit F))
        → any (on_chunk out) all ≡ false
        → IsInside out r.top_k (fuse_all sc u r query all)
    unfolding fuse_all any
    fuse_all-IsInside query all h =
        let opts : Options K = normalize_options sc r.opts in
        let limit : ℕ = candidate_limit sc opts r.top_k in
        let fused : List (SearchHit F) =
          fuse_rrf_with_k sc (over_threshold sc u r.threshold limit [] all)
            (lexical_search sc u query all limit) limit opts.rrf_k in
        let inside : any (on_chunk out) fused ≡ false =
          any-fuse sc out (over_threshold sc u r.threshold limit [] all)
            (lexical_search sc u query all limit) limit opts.rrf_k
            (over_threshold-inside r.threshold limit [] all refl h)
            (any-lexical_search sc out u query all limit h) in
        elim (Bool-cases r.rerank) [
          | inl e ↦ rw e (rerank_fused-IsInside query fused _ inside)
          | inr e ↦ rw e (cut-IsInside fused _ [] inside)
        ]

    after_all-IsInside :
        (query : Text) (row : List F) (only answer : Text ⊎ List (SearchHit F))
        → r.search row (some r.top_k) r.threshold filter ≡ only
        → r.search row none sc.minus_one filter ≡ answer
        → IsInside out r.top_k (after_all sc u r query only answer)
    unfolding after_all any
    after_all-IsInside query row only (inl err) a b =
        after_vector-IsInside _ only _ row r.threshold a
    after_all-IsInside query row only (inr []) a b =
        hits-IsInside out r.top_k [] _ [] refl (omega arith)
    after_all-IsInside query row only (inr (h ∷ all)) a b =
        fuse_all-IsInside query (h ∷ all) (laws.search_inside row none sc.minus_one (h ∷ all) b)

    search_row-IsInside :
        (query : Text) (row : List F) → IsInside out r.top_k (search_row sc u r query filter row)
    unfolding search_row
    search_row-IsInside query row =
        let only = r.search row (some r.top_k) r.threshold filter in
        elim (Bool-cases r.hybrid) [
          | inr e ↦ rw e (vector_only-IsInside only row r.threshold refl)
          | inl e ↦
              elim (Bool-cases
                (is_neg r.opts.candidate_multiplier || sc.is_negative_k r.opts.rrf_k)) [
                  | inl g ↦ rw (e, g) (vector_fallback-IsInside only row r.threshold refl)
                  | inr g ↦
                      rw (e, g)
                        (after_all-IsInside query row only (r.search row none sc.minus_one filter)
                          refl refl)
                ]
        ]

    after_embed-IsInside :
        (query : Text) (rows : Text ⊎ List (List F))
        → IsInside out r.top_k (after_embed sc u r query filter rows)
    unfolding after_embed
    after_embed-IsInside query (inl err) = error-IsInside out r.top_k _ _ _
    after_embed-IsInside query (inr []) = error-IsInside out r.top_k _ _ _
    after_embed-IsInside query (inr (row ∷ [])) = elim (Bool-cases (is_empty row)) [
      | inl e ↦ rw e (error-IsInside out r.top_k _ _ _)
      | inr e ↦ rw e (search_row-IsInside query row)
    ]
    after_embed-IsInside query (inr (row ∷ next ∷ rows)) = error-IsInside out r.top_k _ _ _

    -- A retrieval that returns hits, by whatever route (vectors alone, a fallback to them, the
    -- fusion with or without a reranking, or the fallback from it), returns chunks inside the
    -- filter only, and at most as many as its limit, where the store does what it documents and the
    -- reranker, if one is set, is the rule-based one that `New` takes by default.
    pub search_detailed-IsInside :
        (query : Text) → IsInside out r.top_k (search_detailed sc u r query filter)
    unfolding search_detailed
    search_detailed-IsInside query = elim (Bool-cases (is_empty (trim_space query))) [
      | inl e ↦ rw e (error-IsInside out r.top_k _ _ _)
      | inr e ↦ rw e (after_embed-IsInside query (r.embed (query ∷ [])))
    ]
