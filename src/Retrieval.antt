-- ===== src/Retrieval.antt =====
-- internal/retrieval: lexical search over candidates, the fusion of two rankings, and the rules that
-- rerank a shortlist. Floats and the tables of package unicode are interfaces here; `less` is the
-- order of `cmp.Compare`. Chunk ids are distinct, so the sorts leave no ties to chance.
pub mod Fused
pub mod Shares
pub mod Entries
pub mod Subset
pub mod Pipeline
pub mod Inside
pub mod Boundary
use go_rag_agent.Base.{
  ℕ, zero, suc, ◌+◌, ◌*◌, max, min, Bool, true, false, not, ◌&&◌, ◌||◌, leb, List, [], ◌∷◌, ◌++◌,
  map, Option, none, some, if◌then◌else◌, ℤ, pos, negsuc, is_neg, to_nat, Text, codes, trim_space,
  is_empty, contains, fields_func, sort_texts, compact, text_lt, length, take, Map, find, put,
  sort_by, filter,
}
use go_rag_agent.Access.Filter.{ChunkRecord}
use go_rag_agent.Access.Search.{SearchHit}

-- float32 (F) and float64 (K): `share k rank` is `float32(1.0 / (k + float64(rank+1)))`
pub record Scores (F K : Type 0) : Type 0 where
  pub none_score : F
  pub one : F
  pub minus_one : F
  pub add : F → F → F
  pub less : F → F → Bool
  pub share : K → ℕ → F
  pub is_zero_k : K → Bool
  pub is_negative_k : K → Bool
  pub sixty : K

pub record Unicode : Type 0 where
  pub to_lower : Text → Text
  pub is_letter : ℕ → Bool
  pub is_number : ℕ → Bool

pub record Options (K : Type 0) : Type 0 where
  pub candidate_multiplier : ℤ
  pub rrf_k : K
  pub rerank_multiplier : ℤ

-- `cmp.Or(n, default)`
unfoldable pub or_number : ℤ → ℕ → ℤ
or_number n default = if not (is_neg n) && leb (to_nat n) 0 then pos default else n

-- a limit and its product with a multiplier, the greater one
unfoldable pub widened : ℕ → ℤ → ℕ
widened top_k multiplier = max top_k (top_k * to_nat multiplier)

module _ {F K : Type 0} (sc : Scores F K) where
  unfoldable pub normalize_options : Options K → Options K
  unfolding or_number
  normalize_options o = record {
    candidate_multiplier = or_number o.candidate_multiplier 4;
    rrf_k = if sc.is_zero_k o.rrf_k then sc.sixty else o.rrf_k;
    rerank_multiplier = or_number o.rerank_multiplier 2;
  }

  -- of a limit that is not negative
  unfoldable pub candidate_limit : Options K → ℕ → ℕ
  unfolding normalize_options widened
  candidate_limit o top_k = widened top_k (normalize_options o).candidate_multiplier

  unfoldable pub rerank_shortlist_size : Options K → ℕ → ℕ → ℕ
  unfolding normalize_options widened
  rerank_shortlist_size o top_k count =
      min (widened top_k (normalize_options o).rerank_multiplier) count

-- the tokens of a query, sorted, each once
unfoldable pub tokenize_query : Unicode → Text → List Text
unfolding fields_func filter sort_texts compact
tokenize_query u raw =
    let input = u.to_lower (trim_space raw) in
    if is_empty input
    then []
    else compact (
        sort_texts (
          filter (λ token. not (is_empty (trim_space token)))
            (fields_func (λ c. not (u.is_letter c) && not (u.is_number c)) input)))

pub record Scored (F : Type 0) : Type 0 where
  pub hit : SearchHit F
  pub score : F

pub record FusedHit (F : Type 0) : Type 0 where
  pub hit : SearchHit F
  pub score : F
  pub tie_break : F

module _ {F : Type 0} where
  -- the hit with its new score
  unfoldable pub rescored : Scored F → SearchHit F
  rescored s = record { chunk = s.hit.chunk; score = s.score }

  unfoldable pub fused_hit : FusedHit F → SearchHit F
  fused_hit item = record { chunk = item.hit.chunk; score = item.score }

module _ {F K : Type 0} (sc : Scores F K) where
  -- the loop over the tokens
  unfoldable pub count_tokens : Text → List Text → F → F
  unfolding contains
  count_tokens text [] score = score
  count_tokens text (token ∷ tokens) score =
      count_tokens text tokens (if contains text token then sc.add score sc.one else score)

  unfoldable pub lexical_score : Unicode → List Text → Text → F
  unfolding count_tokens
  lexical_score u tokens text =
      if is_empty tokens then sc.none_score else count_tokens (u.to_lower text) tokens sc.none_score

  unfoldable pub text_of : SearchHit F → Text
  text_of h = h.chunk.title ++ codes " " ++ h.chunk.text

  -- the loop over the candidates; `score <= 0` drops one
  unfoldable pub score_candidates : Unicode → List Text → List (SearchHit F) → List (Scored F)
  unfolding lexical_score text_of
  score_candidates u tokens [] = []
  score_candidates u tokens (h ∷ candidates) =
      let rest = score_candidates u tokens candidates in
      let score = lexical_score u tokens (text_of h) in
      if sc.less sc.none_score score then record { hit = h; score = score } ∷ rest else rest

  unfoldable pub lexical_before : Scored F → Scored F → Bool
  lexical_before a b =
      if sc.less b.score a.score
      then true
      else if sc.less a.score b.score
      then false
      else if sc.less b.hit.score a.hit.score
      then true
      else if sc.less a.hit.score b.hit.score
      then false
      else text_lt a.hit.chunk.chunk_id b.hit.chunk.chunk_id

  unfoldable pub lexical_search : Unicode → Text → List (SearchHit F) → ℕ → List (SearchHit F)
  unfolding tokenize_query score_candidates lexical_before sort_by rescored
  lexical_search u query candidates top_k =
      let tokens = tokenize_query u query in
      if leb top_k 0 || is_empty candidates || is_empty tokens
      then []
      else map rescored (take top_k (sort_by lexical_before (score_candidates u tokens candidates)))

  -- the entry of a chunk on its first hit, and as it stands
  unfoldable pub start_fused : SearchHit F → Bool → FusedHit F
  start_fused h vector = record {
    hit = if vector then h else record h { score = sc.none_score };
    score = sc.none_score;
    tie_break = sc.none_score;
  }

  unfoldable pub or_start : SearchHit F → Bool → Option (FusedHit F) → FusedHit F
  unfolding start_fused
  or_start h vector none = start_fused h vector
  or_start h vector (some item) =
      if is_empty item.hit.chunk.chunk_id
      then record item { hit = (start_fused h vector).hit }
      else item

  -- the entry of a chunk behind one hit
  unfoldable pub added : K → ℕ → SearchHit F → Bool → Option (FusedHit F) → FusedHit F
  unfolding or_start
  added k rank h vector o =
      let item = or_start h vector o in
      record item {
        score = sc.add item.score (sc.share k rank);
        tie_break = if vector then h.score else item.tie_break;
      }

  unfoldable pub add_hit : K → ℕ → SearchHit F → Bool → Map (FusedHit F) → Map (FusedHit F)
  unfolding added find put
  add_hit k rank h vector scores =
      put h.chunk.chunk_id (added k rank h vector (find h.chunk.chunk_id scores)) scores

  -- the loop over one ranking
  unfoldable pub add_hits : K → ℕ → List (SearchHit F) → Bool → Map (FusedHit F) → Map (FusedHit F)
  unfolding add_hit
  add_hits k rank [] vector scores = scores
  add_hits k rank (h ∷ hits) vector scores =
      add_hits k (suc rank) hits vector (add_hit k rank h vector scores)

  unfoldable pub fused_before : FusedHit F → FusedHit F → Bool
  fused_before a b =
      if sc.less b.score a.score
      then true
      else if sc.less a.score b.score
      then false
      else if sc.less b.tie_break a.tie_break
      then true
      else if sc.less a.tie_break b.tie_break
      then false
      else text_lt a.hit.chunk.chunk_id b.hit.chunk.chunk_id

  unfoldable pub fused_items : K → List (SearchHit F) → List (SearchHit F) → List (FusedHit F)
  unfolding add_hits
  fused_items k vector_hits lexical_hits =
      map (λ e. e.1) (add_hits k 0 lexical_hits false (add_hits k 0 vector_hits true []))

  unfoldable pub fuse_rrf_with_k :
      List (SearchHit F) → List (SearchHit F) → ℕ → K → List (SearchHit F)
  unfolding fused_items fused_before sort_by fused_hit
  fuse_rrf_with_k vector_hits lexical_hits top_k k =
      if leb top_k 0
      then []
      else map fused_hit
          (take top_k (sort_by fused_before (fused_items k vector_hits lexical_hits)))

  -- the loop over the shortlist
  unfoldable pub rescore : Unicode → List Text → List (SearchHit F) → List (Scored F)
  unfolding lexical_score text_of
  rescore u tokens [] = []
  rescore u tokens (h ∷ hits) =
      record {
        hit = h;
        score =
            if is_empty tokens
            then h.score
            else sc.add h.score (lexical_score u tokens (text_of h));
      }
      ∷ rescore u tokens hits

  unfoldable pub rerank_before : Scored F → Scored F → Bool
  rerank_before a b =
      if sc.less b.score a.score
      then true
      else if sc.less a.score b.score
      then false
      else text_lt a.hit.chunk.chunk_id b.hit.chunk.chunk_id

  unfoldable pub rerank_shortlist_with_limit :
      Unicode → Text → List (SearchHit F) → ℕ → ℕ → List (SearchHit F)
  unfolding tokenize_query rescore rerank_before sort_by rescored
  rerank_shortlist_with_limit u query candidates shortlist top_k =
      if leb top_k 0 || is_empty candidates || leb shortlist 0
      then []
      else map rescored (
          take top_k (
            sort_by rerank_before (rescore u (tokenize_query u query) (take shortlist candidates))))
