-- ===== src/Retrieval/Fused.antt =====
-- What the fusion of two rankings promises: each chunk once, the best first, none from elsewhere.
use go_rag_agent.Base.{
  ℕ, ◌≤◌, ◌<◌, Bool, true, false, ◌||◌, List, ◌≡◌, Text, text_eq, length, any, is_sorted,
  is_distinct_by,
}
use go_rag_agent.Access.Filter.{ChunkRecord}
use go_rag_agent.Access.Search.{SearchHit}
use go_rag_agent.Retrieval.{Scores}
use go_rag_agent.Retrieval.Subset.{on_chunk}
use go_rag_agent.Retrieval.Shares.{points}
use go_rag_agent.Retrieval.Entries.{hit_id}

module _ {F K : Type 0} (sc : Scores F K) where
  -- a hit has more points than another one
  abbrev pub has_more : SearchHit F → SearchHit F → Bool
  has_more a b = sc.less b.score a.score

  -- the points of a chunk in two rankings
  abbrev pub total_points : K → List (SearchHit F) → List (SearchHit F) → Text → F
  total_points k a b x = points sc k 0 x b (points sc k 0 x a sc.none_score)

  -- a chunk has a hit
  abbrev pub has_hit : Text → List (SearchHit F) → Bool
  has_hit x l = any (λ h. text_eq (hit_id h) x) l

  -- What a list of hits is as the fusion of two: `scored` says of each hit that any test which the
  -- points of its chunk pass, its score passes, and `complete` that none is missing below the limit.
  pub record IsFusion (top_k : ℕ) (k : K) (a b out : List (SearchHit F)) : Type 0 where
    pub limited : length out ≤ top_k
    pub each_once : is_distinct_by hit_id out ≡ true
    pub best_first : is_sorted has_more out ≡ true
    pub only_theirs :
        (q : ChunkRecord → Bool)
        → any (on_chunk q) a ≡ false
        → any (on_chunk q) b ≡ false
        → any (on_chunk q) out ≡ false
    pub scored :
        (q : Text → F → Bool)
        → ((x : Text) → q x (total_points k a b x) ≡ false)
        → any (λ h. q (hit_id h) h.score) out ≡ false
    pub complete :
        (x : Text) → (has_hit x a || has_hit x b) ≡ true → length out < top_k → has_hit x out ≡ true
