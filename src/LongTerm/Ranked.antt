-- ===== src/LongTerm/Ranked.antt =====
-- A search answers with the best hits, the best one first.
use go_rag_agent.Base.{
  lex-IsOrder, on-IsOrder, flip-IsOrder, text_lt-IsOrder, IsOrder, is_sorted, none_before,
  any-sort_by, length-sort_by, sort_by-sorted, take-sorted, take-none_before, ℕ, min, Bool, true,
  false, ◌||◌, leb, List, ◌≡◌, refl, sym, ap, ◌∙◌, ◌⊎◌, inr, none, ℤ, to_nat, Text, is_empty,
  length, take, drop, any, any-append, length-take, take-append-drop, text_lt,
}
use go_rag_agent.LongTerm.{
  Floats, MemoryRecord, MemoryHit, MemoryError, goes_before, sort_hits, hits_of, search,
}

module _ {F D : Type 0} (fl : Floats F D) where
  goes_before-IsOrder : IsOrder fl.lt → IsOrder (goes_before fl)
  unfolding goes_before
  goes_before-IsOrder order =
      lex-IsOrder (λ (a b : MemoryHit F). fl.lt b.score a.score)
        (λ a b. text_lt a.memory.id b.memory.id)
        (on-IsOrder (λ a b. fl.lt b a) (λ (h : MemoryHit F). h.score) (flip-IsOrder fl.lt order))
        (on-IsOrder text_lt (λ (h : MemoryHit F). h.memory.id) text_lt-IsOrder)

  -- The answer of a search among all the hits that match: those returned and the others.
  pub record IsBest (k : ℕ) (found : List (MemoryHit F)) (answer : MemoryError ⊎ List (MemoryHit F))
      : Type 0 where
    pub hits : List (MemoryHit F)
    pub out : List (MemoryHit F)
    pub is_answer : answer ≡ inr hits
    pub same_hits : (p : MemoryHit F → Bool) → (any p hits || any p out) ≡ any p found
    pub best_first : is_sorted (goes_before fl) hits ≡ true
    pub none_better : none_before (goes_before fl) out hits ≡ true
    pub how_many : length hits ≡ min k (length found)

  -- A search with a limit and an embedding answers with the best of the hits that match, as many as the
  -- limit lets through, the best one first: none that it leaves out goes before one that it returns,
  -- where the scores are ordered.
  pub search-IsBest :
      IsOrder fl.lt
      → (session : Text) (query : List F) (top_k : ℤ) (threshold : F) (now : ℕ)
      → (s : List (MemoryRecord F)) → leb (to_nat top_k) 0 ≡ false
      → is_empty query ≡ false
      → IsBest
          (to_nat top_k)
          (hits_of fl session query threshold now s)
          (search fl none session query top_k threshold now s)
  unfolding search sort_hits
  search-IsBest order session query top_k threshold now s hk hq =
      let k : ℕ = to_nat top_k in
      let found : List (MemoryHit F) = hits_of fl session query threshold now s in
      let sorted : List (MemoryHit F) = sort_hits fl found in
      record {
        hits = take k sorted;
        out = drop k sorted;
        is_answer = rw (hk, hq) refl;
        same_hits = λ p.
            sym (any-append p (take k sorted) (drop k sorted))
            ∙ (ap (λ l. any p l) (take-append-drop k sorted)
                ∙ any-sort_by (goes_before fl) p found);
        best_first =
            take-sorted (goes_before fl) k sorted
              (sort_by-sorted (goes_before fl) (goes_before-IsOrder order) found);
        none_better =
            take-none_before (goes_before fl) k sorted
              (sort_by-sorted (goes_before fl) (goes_before-IsOrder order) found);
        how_many = length-take k sorted ∙ ap (λ n. min k n) (length-sort_by (goes_before fl) found);
      }
