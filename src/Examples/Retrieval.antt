-- ===== src/Examples/Retrieval.antt =====
-- Two rankings of three chunks, and a store that holds them; scores are natural numbers.
use go_rag_agent.Base.{
  ℕ, ◌+◌, ◌/◌, ◌≤◌, Bool, true, false, not, ◌==◌, ltb, List, [], ◌∷◌, ◌≡◌, refl, ap, sym, subst,
  ◌∙◌, Option, none, some, inr, pos, Text, codes, text_eq, any, any-take, length, take, length-take,
  arith,
}
use go_rag_agent.Access.Filter.{ChunkRecord, SearchFilter}
use go_rag_agent.Access.Search.{SearchHit}
use go_rag_agent.Retrieval.{Scores, Unicode}
use go_rag_agent.Retrieval.Subset.{on_chunk}
use go_rag_agent.Retrieval.Pipeline.{Retriever, rule_based_reranker, search_detailed}
use go_rag_agent.Retrieval.Inside.{RetrieverLaws, IsInside}
use go_rag_agent.Retrieval.Boundary.{search_detailed-IsInside}

abbrev scores : Scores ℕ ℕ
scores = record {
  none_score = 0;
  one = 1;
  minus_one = 0;
  add = λ a b. a + b;
  less = ltb;
  share = λ k rank. 1000 / (k + rank + 1);
  is_zero_k = λ k. k == 0;
  is_negative_k = λ k. false;
  sixty = 60;
}

abbrev hit : Text → ℕ → SearchHit ℕ
hit id score = record {
  chunk = record {
    chunk_id = id;
    parent_id = id;
    source_path = codes "/d/a";
    title = id;
    text = codes "ab";
    start_rune = 0;
    end_rune = 2;
    metadata = [];
  };
  score = score;
}

abbrev vector_hits : List (SearchHit ℕ)
vector_hits = hit (codes "a") 9 ∷ hit (codes "b") 7 ∷ []

abbrev lexical_hits : List (SearchHit ℕ)
lexical_hits = hit (codes "b") 2 ∷ hit (codes "c") 1 ∷ []

abbrev found : Option ℕ → List (SearchHit ℕ)
found none = vector_hits
found (some k) = take k vector_hits

abbrev unicode : Unicode
unicode = record { to_lower = λ text. text; is_letter = λ c. true; is_number = λ c. false }

abbrev retriever : Retriever ℕ ℕ
retriever = record {
  search = λ row k t filter. inr (found k);
  embed = λ texts. inr ((1 ∷ []) ∷ []);
  reranker = some (rule_based_reranker scores unicode);
  top_k = 1;
  threshold = 1;
  hybrid = true;
  rerank = true;
  opts = record { candidate_multiplier = pos 0; rrf_k = 0; rerank_multiplier = pos 0 };
}

abbrev filter : SearchFilter
filter = record { source_paths = codes "/d/a" ∷ []; source_prefixes = []; metadata = [] }

abbrev outside : ChunkRecord → Bool
outside chunk = not (text_eq chunk.source_path (codes "/d/a"))

none_outside : any (on_chunk outside) vector_hits ≡ false
unfolding any text_eq
none_outside = refl

found-inside : (k : Option ℕ) → any (on_chunk outside) (found k) ≡ false
found-inside none = none_outside
found-inside (some k) = any-take (on_chunk outside) k vector_hits none_outside

found-limited : (k : ℕ) → length (found (some k)) ≤ k
found-limited k = omega (arith, length-take k vector_hits)

retriever-RetrieverLaws : RetrieverLaws retriever filter outside
retriever-RetrieverLaws = record {
  search_inside = λ row k t hits e.
      let same : found k ≡ hits = ground (arith, e) in
      ap (λ l. any (on_chunk outside) l) (sym same) ∙ found-inside k;
  search_limited = λ row k t hits e.
      let same : found (some k) ≡ hits = ground (arith, e) in
      subst (λ l. length l ≤ k) same (found-limited k);
}

search_detailed-IsInside_example :
    IsInside outside 1 (search_detailed scores unicode retriever (codes "ab") filter)
search_detailed-IsInside_example =
    search_detailed-IsInside scores unicode outside retriever filter retriever-RetrieverLaws
      (λ rerank e. ground (arith, e)) (codes "ab")
