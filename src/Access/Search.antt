-- ===== src/Access/Search.antt =====
-- `SearchWithFilter` of internal/storage/chromem_store.go: the third-party collection answers with
-- the results nearest to the query, here already read as chunks (`resultToChunk` copies the fields),
-- and the loop keeps those over the threshold that pass the filter.
use go_rag_agent.Base.{
  Bool, true, false, not, ◌&&◌, ◌||◌, List, [], ◌∷◌, ◌++◌, ℕ, zero, suc, ◌≡◌, refl, ◌<◌, min,
  if◌then◌else◌, Text, codes, length, take, filter, is_empty, ltb, ◌==◌, ◌⊎◌, inl, inr, arith,
  length-append, Bool-cases, ◌+◌, ap, sym, ◌∙◌,
}
use mathlib.Core.List.{append-nil, append_assoc}
use go_rag_agent.Access.Filter.{SearchFilter, ChunkRecord, is_zero, matches_chunk, normalize_filter}

-- A score stands for a float32, of which the store asks only whether it is below the threshold.
module _ {ℓ} (Score : Type ℓ) where
  pub record SearchHit : Type ℓ where
    pub chunk : ChunkRecord
    pub score : Score

  -- What the store uses of a chromem collection. Its answer may fail, with a message.
  pub record Collection : Type ℓ where
    pub count : ℕ
    pub query_embedding : List Score → ℕ → Text ⊎ List SearchHit

module _ {ℓ} {Score : Type ℓ} (is_below : Score → Bool) where
  -- the tests of the loop on one result
  unfoldable pub passes : SearchFilter → SearchHit Score → Bool
  passes f hit = not (is_below hit.score) && (is_zero f || matches_chunk f hit.chunk)

  unfoldable pub search_loop :
      ℕ → SearchFilter → List (SearchHit Score) → List (SearchHit Score) → List (SearchHit Score)
  unfolding passes
  search_loop top_k f hits [] = hits
  search_loop top_k f hits (r ∷ rs) =
      let skipped = search_loop top_k f hits rs in
      let more = search_loop top_k f (hits ++ r ∷ []) rs in
      if is_below r.score
      then skipped
      else if not (is_zero f) && not (matches_chunk f r.chunk)
      then skipped
      else if length (hits ++ r ∷ []) == top_k
      then hits ++ r ∷ []
      else more

  unfoldable pub search_with_filter :
      Collection Score → List Score → ℕ → SearchFilter → Text ⊎ List (SearchHit Score)
  unfolding search_loop
  search_with_filter c embedding top_k filter =
      if is_empty embedding
      then inl (codes "query embedding is empty")
      else if top_k == 0
      then inl (codes "topK must be > 0")
      else if c.count == 0
      then inr []
      else let f = normalize_filter filter in
        let k = if ltb c.count top_k then c.count else top_k in
        elim (c.query_embedding embedding (if is_zero f then k else c.count)) [
          | inl err ↦ inl err
          | inr results ↦ inr (search_loop k f [] results)
        ]

module _ {ℓ} {Score : Type ℓ} (is_below : Score → Bool) where
  search_loop-step :
      (k : ℕ) (f : SearchFilter) (hits : List (SearchHit Score)) (r : SearchHit Score)
      → (rs : List (SearchHit Score))
      → search_loop is_below k f hits (r ∷ rs) ≡ (
          if passes is_below f r
          then if suc (length hits) == k
            then hits ++ r ∷ []
            else search_loop is_below k f (hits ++ r ∷ []) rs
          else search_loop is_below k f hits rs)
  unfolding search_loop passes
  search_loop-step k f hits r rs = ground (arith, length-append hits (r ∷ []))

  -- with `suc n` hits still to find, the loop adds the first `suc n` of those that pass
  search_loop_lem :
      (n k : ℕ) (f : SearchFilter) (hits rs : List (SearchHit Score))
      → length hits + suc n ≡ k
      → search_loop is_below k f hits rs ≡ hits ++ take (suc n) (filter (passes is_below f) rs)
  unfolding search_loop filter
  search_loop_lem n k f hits [] h = sym (append-nil hits)
  search_loop_lem zero k f hits (r ∷ rs) h = elim (Bool-cases (passes is_below f r)) [
    | inl e ↦
        let full : (suc (length hits) == k) ≡ true = ground arith in
        rw (search_loop-step k f hits r rs, e, full) refl
    | inr e ↦ rw (search_loop-step k f hits r rs, e) (search_loop_lem zero k f hits rs h)
  ]
  search_loop_lem (suc n) k f hits (r ∷ rs) h = elim (Bool-cases (passes is_below f r)) [
    | inl e ↦
        let room : (suc (length hits) == k) ≡ false = ground arith in
        rw (search_loop-step k f hits r rs, e, room)
          (search_loop_lem n k f (hits ++ r ∷ []) rs (omega (arith, length-append hits (r ∷ [])))
            ∙ append_assoc hits (r ∷ []) (take (suc n) (filter (passes is_below f) rs)))
    | inr e ↦ rw (search_loop-step k f hits r rs, e) (search_loop_lem (suc n) k f hits rs h)
  ]

  search_loop-take :
      (k : ℕ) (f : SearchFilter) (rs : List (SearchHit Score))
      → 0 < k
      → search_loop is_below k f [] rs ≡ take k (filter (passes is_below f) rs)
  search_loop-take zero f rs h = absurd (omega arith)
  search_loop-take (suc n) f rs h = search_loop_lem n (suc n) f [] rs (omega arith)

  clamp_lem : (top_k count : ℕ) → (if ltb count top_k then count else top_k) ≡ min top_k count
  clamp_lem top_k count = ground arith

  -- A search with a query and a bound answers with the first `top_k` of the results that are not
  -- below the threshold and pass the normalized filter, where the collection, asked for `top_k` of
  -- its chunks or for all of them when there is a filter, answers with these results.
  search-take :
      (c : Collection Score) (embedding : List Score) (top_k : ℕ) (filter_of : SearchFilter)
      → (results : List (SearchHit Score)) → is_empty embedding ≡ false
      → 0 < min top_k c.count
      → c.query_embedding embedding
          (if is_zero (normalize_filter filter_of) then min top_k c.count else c.count)
        ≡ inr results
      → search_with_filter is_below c embedding top_k filter_of
        ≡ inr (
            take
              (min top_k c.count)
              (filter (passes is_below (normalize_filter filter_of)) results))
  unfolding search_with_filter
  search-take c embedding top_k filter_of results he hk hq =
      let a : (top_k == 0) ≡ false = ground arith in
      let b : (c.count == 0) ≡ false = ground arith in
      rw (he, a, b, clamp_lem top_k c.count, hq, clamp_lem top_k c.count)
        (ap inr (search_loop-take (min top_k c.count) (normalize_filter filter_of) results hk))
