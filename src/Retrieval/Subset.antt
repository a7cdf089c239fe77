-- ===== src/Retrieval/Subset.antt =====
-- Neither ranking brings up a chunk that its input did not have, nor more hits than its limit.
use go_rag_agent.Base.{
  ℕ, ◌≤◌, suc, Bool, true, false, ◌||◌, List, [], ◌∷◌, map, Option, none, some, ◌≡◌, refl, sym, ap,
  ◌∙◌, inl, inr, Text, text_eq, length, take, any, any-take, any-sort_by, length-take, length-map,
  sort_by, Map, find, put, arith, Bool-cases,
}
use go_rag_agent.Access.Filter.{ChunkRecord}
use go_rag_agent.Access.Search.{SearchHit}
use go_rag_agent.Retrieval.{
  Scores, Unicode, Scored, FusedHit, tokenize_query, score_candidates, lexical_before, rescored,
  lexical_search, start_fused, or_start, added, add_hit, add_hits, fused_before, fused_hit,
  fused_items, fuse_rrf_with_k, rescore, rerank_before, rerank_shortlist_with_limit,
}

any-map :
    {A B : Type 0} (p : B → Bool) (f : A → B) (l : List A) → any p (map f l) ≡ any (λ x. p (f x)) l
unfolding any
any-map p f [] = refl
any-map p f (x ∷ l) = ap (λ b. p (f x) || b) (any-map p f l)

-- a test of the chunk of a hit
abbrev pub on_chunk : {F : Type 0} → (ChunkRecord → Bool) → SearchHit F → Bool
on_chunk q h = q h.chunk

module _ {V : Type 0} where
  abbrev pub values : Map V → List V
  values m = map (λ e. e.1) m

  any-put :
      (p : V → Bool) (k : Text) (v : V) (m : Map V)
      → any p (values m) ≡ false
      → p v ≡ false
      → any p (values (put k v m)) ≡ false
  unfolding any put
  any-put p k v [] h g = ground (arith, g)
  any-put p k v (e ∷ m) h g = ground (arith, h, g, any-put p k v m)

  any-find :
      (p : V → Bool) (k : Text) (v : V) (m : Map V)
      → any p (values m) ≡ false
      → find k m ≡ some v
      → p v ≡ false
  unfolding any find
  any-find p k v [] h g = absurd (ground (arith, g))
  any-find p k v (e ∷ m) h g = elim (Bool-cases (text_eq k e.0)) [
    | inl b ↦ let same : e.1 ≡ v = ground (arith, b, g) in ap p (sym same) ∙ ground (arith, h)
    | inr b ↦ any-find p k v m (ground (arith, h)) (ground (arith, b, g))
  ]

module _ {F K : Type 0} (sc : Scores F K) where
  any-score_candidates :
      (q : ChunkRecord → Bool) (u : Unicode) (tokens : List Text) (l : List (SearchHit F))
      → any (on_chunk q) l ≡ false
      → any (λ s. q s.hit.chunk) (score_candidates sc u tokens l) ≡ false
  unfolding any score_candidates
  any-score_candidates q u tokens [] h = refl
  any-score_candidates q u tokens (x ∷ l) h = ground (arith, h, any-score_candidates q u tokens l)

  any-rescore :
      (q : ChunkRecord → Bool) (u : Unicode) (tokens : List Text) (l : List (SearchHit F))
      → any (on_chunk q) l ≡ false
      → any (λ s. q s.hit.chunk) (rescore sc u tokens l) ≡ false
  unfolding any rescore
  any-rescore q u tokens [] h = refl
  any-rescore q u tokens (x ∷ l) h = ground (arith, h, any-rescore q u tokens l)

  -- the hits of the best that were scored
  any-best :
      (q : ChunkRecord → Bool) (before : Scored F → Scored F → Bool) (k : ℕ) (l : List (Scored F))
      → any (λ s. q s.hit.chunk) l ≡ false
      → any (on_chunk q) (map rescored (take k (sort_by before l))) ≡ false
  unfolding rescored
  any-best q before k l h =
      any-map (on_chunk q) rescored (take k (sort_by before l))
      ∙ any-take (λ s. q s.hit.chunk) k (sort_by before l)
          (any-sort_by before (λ s. q s.hit.chunk) l ∙ h)

  pub any-lexical_search :
      (q : ChunkRecord → Bool) (u : Unicode) (query : Text) (l : List (SearchHit F)) (k : ℕ)
      → any (on_chunk q) l ≡ false
      → any (on_chunk q) (lexical_search sc u query l k) ≡ false
  unfolding lexical_search any
  any-lexical_search q u query l k h = ground (
    arith,
    any-best q (lexical_before sc) k (score_candidates sc u (tokenize_query u query) l)
        (any-score_candidates q u (tokenize_query u query) l h),
  )

  pub any-rerank :
      (q : ChunkRecord → Bool) (u : Unicode) (query : Text) (l : List (SearchHit F))
      → (shortlist k : ℕ) → any (on_chunk q) l ≡ false
      → any (on_chunk q) (rerank_shortlist_with_limit sc u query l shortlist k) ≡ false
  unfolding rerank_shortlist_with_limit any
  any-rerank q u query l shortlist k h = ground (
    arith,
    any-best q (rerank_before sc) k (rescore sc u (tokenize_query u query) (take shortlist l)) (
        any-rescore q u (tokenize_query u query) (take shortlist l)
          (any-take (on_chunk q) shortlist l h)),
  )

  pub length-rerank :
      (u : Unicode) (query : Text) (l : List (SearchHit F)) (shortlist k : ℕ)
      → length (rerank_shortlist_with_limit sc u query l shortlist k) ≤ k
  unfolding rerank_shortlist_with_limit
  length-rerank u query l shortlist k =
      let sorted : List (Scored F) =
        sort_by (rerank_before sc) (rescore sc u (tokenize_query u query) (take shortlist l)) in
      ground (arith, length-map rescored (take k sorted), length-take k sorted)

  or_start-chunk :
      (q : ChunkRecord → Bool) (h : SearchHit F) (vector : Bool) (o : Option (FusedHit F))
      → q h.chunk ≡ false
      → ((item : FusedHit F) → o ≡ some item → q item.hit.chunk ≡ false)
      → q (or_start sc h vector o).hit.chunk ≡ false
  unfolding or_start start_fused
  or_start-chunk q h true none e found = e
  or_start-chunk q h false none e found = e
  or_start-chunk q h vector (some item) e found = ground (arith, e, found item refl)

  any-add_hits :
      (q : ChunkRecord → Bool) (k : K) (rank : ℕ) (l : List (SearchHit F)) (vector : Bool)
      → (m : Map (FusedHit F)) → any (on_chunk q) l ≡ false
      → any (λ item. q item.hit.chunk) (values m) ≡ false
      → any (λ item. q item.hit.chunk) (values (add_hits sc k rank l vector m)) ≡ false
  unfolding add_hits add_hit added any
  any-add_hits q k rank [] vector m h g = g
  any-add_hits q k rank (x ∷ l) vector m h g =
      any-add_hits q k (suc rank) l vector (add_hit sc k rank x vector m) (ground (arith, h)) (
        any-put (λ item. q item.hit.chunk) x.chunk.chunk_id
          (added sc k rank x vector (find x.chunk.chunk_id m)) m g
          (or_start-chunk q x vector (find x.chunk.chunk_id m) (ground (arith, h))
            (λ item e. any-find (λ i. q i.hit.chunk) x.chunk.chunk_id item m g e)))

  pub any-fuse :
      (q : ChunkRecord → Bool) (a b : List (SearchHit F)) (top_k : ℕ) (k : K)
      → any (on_chunk q) a ≡ false
      → any (on_chunk q) b ≡ false
      → any (on_chunk q) (fuse_rrf_with_k sc a b top_k k) ≡ false
  unfolding fuse_rrf_with_k any fused_hit fused_items
  any-fuse q a b top_k k h g =
      let items : List (FusedHit F) = fused_items sc k a b in
      ground (
        arith,
        any-map (on_chunk q) fused_hit (take top_k (sort_by (fused_before sc) items))
            ∙ any-take (λ item. q item.hit.chunk) top_k (sort_by (fused_before sc) items)
                (any-sort_by (fused_before sc) (λ item. q item.hit.chunk) items
                  ∙ any-add_hits q k 0 b false (add_hits sc k 0 a true []) g
                      (any-add_hits q k 0 a true [] h refl)),
      )
