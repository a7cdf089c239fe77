-- ===== src/Retrieval/Pipeline.antt =====
-- agent.go: the retriever that embeds a query, searches the store, and fuses and reranks what it
-- finds, with the fallbacks it takes where a step fails. The store, the embedder and the reranker are
-- interfaces; limits are not negative, as a valid configuration has them.
use go_rag_agent.Base.{
  ℕ, Bool, not, ◌||◌, ltb, ◌==◌, List, [], ◌∷◌, ◌++◌, Option, none, some, ◌⊎◌, inl, inr,
  if◌then◌else◌, is_neg, Text, trim_space, is_empty, length, take,
}
use go_rag_agent.Access.Filter.{SearchFilter}
use go_rag_agent.Access.Search.{SearchHit}
use go_rag_agent.Retrieval.{
  Scores, Unicode, Options, normalize_options, candidate_limit, rerank_shortlist_size,
  lexical_search, fuse_rrf_with_k, rerank_shortlist_with_limit,
}

pub data RetrievalError : Type 0 where
  empty_query empty_embedding : RetrievalError
  embed_error store_error hybrid_error : Text → RetrievalError

pub data Fallback : Type 0 where
  invalid_hybrid invalid_rerank : Fallback
  hybrid_failed rerank_failed : Text → Fallback

pub record Metrics : Type 0 where
  pub raw_count : ℕ
  pub vector_count : ℕ
  pub lexical_count : ℕ
  pub fused_count : ℕ
  pub shortlist_count : ℕ

-- a reranker: the query, the candidates, the size of the shortlist and the limit
abbrev pub Reranker : Type 0 → Type 0
Reranker F = Text → List (SearchHit F) → ℕ → ℕ → Text ⊎ List (SearchHit F)

-- `topK` is none for `math.MaxInt`
pub record Retriever (F K : Type 0) : Type 0 where
  pub search : List F → Option ℕ → F → SearchFilter → Text ⊎ List (SearchHit F)
  pub embed : List Text → Text ⊎ List (List F)
  pub reranker : Option (Reranker F)
  pub top_k : ℕ
  pub threshold : F
  pub hybrid : Bool
  pub rerank : Bool
  pub opts : Options K

abbrev pub Found : Type 0 → Type 0
Found F = (RetrievalError ⊎ List (SearchHit F)) × Metrics × List Fallback

abbrev pub no_metrics : Metrics
no_metrics = record {
  raw_count = 0;
  vector_count = 0;
  lexical_count = 0;
  fused_count = 0;
  shortlist_count = 0;
}

module _ {F : Type 0} where
  -- `hits[:topK]` where there are more
  unfoldable pub cut : ℕ → List (SearchHit F) → List (SearchHit F)
  cut top_k hits = if ltb top_k (length hits) then take top_k hits else hits

  unfoldable pub after_vector : Fallback → Text ⊎ List (SearchHit F) → RetrievalError → Found F
  after_vector fallback (inl err) e = (inl e, no_metrics, [])
  after_vector fallback (inr hits) e =
      (inr hits, record no_metrics { vector_count = length hits }, fallback ∷ [])

  unfoldable pub vector_only : Text ⊎ List (SearchHit F) → Found F
  vector_only (inl err) = (inl (store_error err), no_metrics, [])
  vector_only (inr hits) = (inr hits, record no_metrics { vector_count = length hits }, [])

  -- with options that are out of range
  unfoldable pub vector_fallback : Text ⊎ List (SearchHit F) → Found F
  vector_fallback (inl err) = (inl (store_error err), no_metrics, [])
  vector_fallback (inr hits) =
      (inr hits, record no_metrics { vector_count = length hits }, invalid_hybrid ∷ [])

  unfoldable pub after_rerank :
      ℕ → List (SearchHit F) → Metrics → Text ⊎ List (SearchHit F) → Found F
  unfolding cut
  after_rerank top_k fused m (inl err) = (inr (cut top_k fused), m, rerank_failed err ∷ [])
  after_rerank top_k fused m (inr hits) = (inr hits, m, [])

module _ {F K : Type 0} (sc : Scores F K) (u : Unicode) where
  -- the loop over all hits, up to the limit
  unfoldable pub over_threshold :
      F → ℕ → List (SearchHit F) → List (SearchHit F) → List (SearchHit F)
  over_threshold threshold limit kept [] = kept
  over_threshold threshold limit kept (h ∷ hits) =
      let skipped = over_threshold threshold limit kept hits in
      let more = over_threshold threshold limit (kept ++ h ∷ []) hits in
      if sc.less h.score threshold
      then skipped
      else if length (kept ++ h ∷ []) == limit
      then kept ++ h ∷ []
      else more

  -- the reranker that `New` takes where none is given
  unfoldable pub rule_based_reranker : Reranker F
  unfolding rerank_shortlist_with_limit
  rule_based_reranker query hits shortlist top_k =
      inr (rerank_shortlist_with_limit sc u query hits shortlist top_k)

  unfoldable pub safe_rerank :
      Option (Reranker F) → Text → List (SearchHit F) → ℕ → ℕ → Text ⊎ List (SearchHit F)
  unfolding rerank_shortlist_with_limit
  safe_rerank none query hits shortlist top_k =
      inr (rerank_shortlist_with_limit sc u query hits shortlist top_k)
  safe_rerank (some rerank) query hits shortlist top_k = rerank query hits shortlist top_k

  unfoldable pub rerank_fused : Retriever F K → Text → List (SearchHit F) → Metrics → Found F
  unfolding after_rerank safe_rerank rerank_shortlist_size
  rerank_fused r query fused m =
      let shortlist =
        rerank_shortlist_size sc (normalize_options sc r.opts) r.top_k (length fused) in
      if is_neg r.opts.rerank_multiplier
      then (inr (cut r.top_k fused), m, invalid_rerank ∷ [])
      else after_rerank r.top_k fused (record m { shortlist_count = shortlist })
          (safe_rerank r.reranker query fused shortlist r.top_k)

  unfoldable pub fuse_all : Retriever F K → Text → List (SearchHit F) → Found F
  unfolding over_threshold lexical_search fuse_rrf_with_k rerank_fused cut candidate_limit
  fuse_all r query all =
      let opts = normalize_options sc r.opts in
      let limit = candidate_limit sc opts r.top_k in
      let vector_hits = over_threshold r.threshold limit [] all in
      let lexical_hits = lexical_search sc u query all limit in
      let fused = fuse_rrf_with_k sc vector_hits lexical_hits limit opts.rrf_k in
      let m : Metrics = record {
        raw_count = length all;
        vector_count = length vector_hits;
        lexical_count = length lexical_hits;
        fused_count = length fused;
        shortlist_count = 0;
      } in
      if r.rerank then rerank_fused r query fused m else (inr (cut r.top_k fused), m, [])

  unfoldable pub after_all :
      Retriever F K → Text → Text ⊎ List (SearchHit F) → Text ⊎ List (SearchHit F) → Found F
  unfolding fuse_all after_vector
  after_all r query only (inl err) = after_vector (hybrid_failed err) only (hybrid_error err)
  after_all r query only (inr all) =
      if is_empty all then (inr [], no_metrics, []) else fuse_all r query all

  unfoldable pub search_row : Retriever F K → Text → SearchFilter → List F → Found F
  unfolding vector_only vector_fallback after_all
  search_row r query filter row =
      let only = r.search row (some r.top_k) r.threshold filter in
      if not r.hybrid
      then vector_only only
      else if is_neg r.opts.candidate_multiplier || sc.is_negative_k r.opts.rrf_k
      then vector_fallback only
      else after_all r query only (r.search row none sc.minus_one filter)

  unfoldable pub after_embed : Retriever F K → Text → SearchFilter → Text ⊎ List (List F) → Found F
  unfolding search_row
  after_embed r query filter (inl err) = (inl (embed_error err), no_metrics, [])
  after_embed r query filter (inr []) = (inl empty_embedding, no_metrics, [])
  after_embed r query filter (inr (row ∷ [])) =
      if is_empty row then (inl empty_embedding, no_metrics, []) else search_row r query filter row
  after_embed r query filter (inr (row ∷ next ∷ rows)) = (inl empty_embedding, no_metrics, [])

  unfoldable pub search_detailed : Retriever F K → Text → SearchFilter → Found F
  unfolding after_embed
  search_detailed r query filter =
      if is_empty (trim_space query)
      then (inl empty_query, no_metrics, [])
      else after_embed r query filter (r.embed (query ∷ []))
