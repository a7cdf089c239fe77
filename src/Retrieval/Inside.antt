-- ===== src/Retrieval/Inside.antt =====
-- Answers of a retrieval that stay inside a filter and within a limit, and what they rest on.
use go_rag_agent.Base.{
  ℕ, ◌≤◌, Bool, true, false, List, Option, some, ◌≡◌, sym, ap, subst, ◌∙◌, inl, inr, if◌then◌else◌,
  length, any, any-take, length-take, arith,
}
use go_rag_agent.Access.Filter.{ChunkRecord, SearchFilter}
use go_rag_agent.Access.Search.{SearchHit}
use go_rag_agent.Retrieval.Subset.{on_chunk}
use go_rag_agent.Retrieval.Pipeline.{RetrievalError, Fallback, Metrics, Retriever, Found, cut}

module _ {F K : Type 0} where
  -- What the store documents: a search gives no chunk that fails the filter, here one that `out`
  -- tells, and no more than its limit.
  pub record RetrieverLaws (r : Retriever F K) (filter : SearchFilter) (out : ChunkRecord → Bool)
      : Type 0 where
    pub search_inside :
        (row : List F) (k : Option ℕ) (t : F) (hits : List (SearchHit F))
        → r.search row k t filter ≡ inr hits
        → any (on_chunk out) hits ≡ false
    pub search_limited :
        (row : List F) (k : ℕ) (t : F) (hits : List (SearchHit F))
        → r.search row (some k) t filter ≡ inr hits
        → length hits ≤ k

module _ {F : Type 0} (out : ChunkRecord → Bool) where
  -- an answer that is no error is inside the filter and within the limit
  pub record IsInside (top_k : ℕ) (found : Found F) : Type 0 where
    pub inside : (hits : List (SearchHit F)) → found.0 ≡ inr hits → any (on_chunk out) hits ≡ false
    pub limited : (hits : List (SearchHit F)) → found.0 ≡ inr hits → length hits ≤ top_k

  pub error-IsInside :
      (top_k : ℕ) (e : RetrievalError) (m : Metrics) (f : List Fallback)
      → IsInside top_k (inl e, m, f)
  error-IsInside top_k e m f = record {
    inside = λ hits h. absurd (ground (arith, h));
    limited = λ hits h. absurd (ground (arith, h));
  }

  pub hits-IsInside :
      (top_k : ℕ) (hits : List (SearchHit F)) (m : Metrics) (f : List Fallback)
      → any (on_chunk out) hits ≡ false
      → length hits ≤ top_k
      → IsInside top_k (inr hits, m, f)
  hits-IsInside top_k hits m f a b = record {
    inside = λ other h.
        let same : hits ≡ other = ground (arith, h) in
        ap (λ l. any (on_chunk out) l) (sym same) ∙ a;
    limited = λ other h.
        let same : hits ≡ other = ground (arith, h) in subst (λ l. length l ≤ top_k) same b;
  }

  pub if-IsInside :
      (top_k : ℕ) (b : Bool) (x y : Found F)
      → IsInside top_k x
      → IsInside top_k y
      → IsInside top_k (if b then x else y)
  if-IsInside top_k true x y h g = h
  if-IsInside top_k false x y h g = g

  pub cut-inside :
      (top_k : ℕ) (hits : List (SearchHit F))
      → any (on_chunk out) hits ≡ false
      → (any (on_chunk out) (cut top_k hits) ≡ false) × (length (cut top_k hits) ≤ top_k)
  unfolding cut
  cut-inside top_k hits h =
      ground (arith, h, any-take (on_chunk out) top_k hits h, length-take top_k hits)
