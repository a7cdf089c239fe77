-- ===== src/Retrieval/Shares.antt =====
-- internal/retrieval: what a chunk has in the map of scores behind the loops over the rankings.
use go_rag_agent.Base.{
  ℕ, suc, Bool, true, false, ◌||◌, List, [], ◌∷◌, Option, none, some, ◌≡◌, refl, sym, ap, ◌∙◌, inl,
  inr, if◌then◌else◌, Text, text_eq, text_eq→eq, text_eq_refl, is_empty, any, is_distinct_by, Map,
  find, find-put, find-put_ne, any_key-put, arith, Bool-cases,
}
use go_rag_agent.Access.Search.{SearchHit}
use go_rag_agent.Retrieval.{Scores, FusedHit, start_fused, or_start, added, add_hit, add_hits}

module _ {V : Type 0} where
  find-any :
      (k : Text) (v : V) (m : Map V)
      → find k m ≡ some v
      → any (λ (e : Text × V). text_eq e.0 k) m ≡ true
  unfolding find any
  find-any k v [] h = absurd (ground (arith, h))
  find-any k v (e ∷ m) h = elim (Bool-cases (text_eq k e.0)) [
    | inl b ↦
        let same : text_eq e.0 k ≡ true =
          ap (λ x. text_eq x k) (sym (text_eq→eq k e.0 b)) ∙ text_eq_refl k in
        ground (arith, same)
    | inr b ↦ ground (arith, find-any k v m (ground (arith, b, h)))
  ]

  -- a test of the entries of a map whose keys are distinct, by looking them up
  pub any-found :
      (p : Text × V → Bool) (m : Map V)
      → is_distinct_by (λ (e : Text × V). e.0) m ≡ true
      → ((k : Text) (v : V) → find k m ≡ some v → p (k, v) ≡ false)
      → any p m ≡ false
  unfolding find any is_distinct_by
  any-found p [] d f = refl
  any-found p (e ∷ m) d f =
      let here : p e ≡ false = f e.0 e.1 (ground (arith, text_eq_refl e.0)) in
      let rest : any p m ≡ false = any-found p m (ground (arith, d)) (λ k v g.
        elim (Bool-cases (text_eq k e.0)) [
          | inl b ↦
              let key : any (λ (x : Text × V). text_eq x.0 e.0) m ≡ true =
                ap (λ y. any (λ (x : Text × V). text_eq x.0 y) m) (sym (text_eq→eq k e.0 b))
                ∙ find-any k v m g in
              absurd (ground (arith, d, key))
          | inr b ↦ f k v (ground (arith, b, g))
        ]) in
      ground (arith, here, rest)

module _ {F K : Type 0} (sc : Scores F K) where
  -- The points of a chunk: a share for each of its hits in a ranking, by the rank, added in order.
  unfoldable pub points : K → ℕ → Text → List (SearchHit F) → F → F
  points k rank x [] score = score
  points k rank x (h ∷ l) score =
      points k (suc rank) x l
        (if text_eq x h.chunk.chunk_id then sc.add score (sc.share k rank) else score)

  abbrev pub score_or : Option (FusedHit F) → F
  score_or none = sc.none_score
  score_or (some item) = item.score

  or_start-score :
      (h : SearchHit F) (vector : Bool) (o : Option (FusedHit F))
      → (or_start sc h vector o).score ≡ score_or o
  unfolding or_start start_fused
  or_start-score h vector none = refl
  or_start-score h vector (some item) = elim (Bool-cases (is_empty item.hit.chunk.chunk_id)) [
    | inl e ↦ rw e refl
    | inr e ↦ rw e refl
  ]

  add_hit-score :
      (k : K) (rank : ℕ) (h : SearchHit F) (vector : Bool) (m : Map (FusedHit F)) (x : Text)
      → score_or (find x (add_hit sc k rank h vector m)) ≡ (
          if text_eq x h.chunk.chunk_id
          then sc.add (score_or (find x m)) (sc.share k rank)
          else score_or (find x m))
  unfolding add_hit added
  add_hit-score k rank h vector m x =
      let id = h.chunk.chunk_id in
      let item : FusedHit F = added sc k rank h vector (find id m) in
      elim (Bool-cases (text_eq x id)) [
        | inl e ↦
            let same : x ≡ id = text_eq→eq x id e in
            rw (same, find-put id item m, text_eq_refl id)
              (ap (λ s. sc.add s (sc.share k rank)) (or_start-score h vector (find id m)))
        | inr e ↦ rw (find-put_ne x id item m e, e) refl
      ]

  pub add_hits-score :
      (k : K) (rank : ℕ) (l : List (SearchHit F)) (vector : Bool) (m : Map (FusedHit F)) (x : Text)
      → score_or (find x (add_hits sc k rank l vector m)) ≡ points k rank x l (score_or (find x m))
  unfolding add_hits points
  add_hits-score k rank [] vector m x = refl
  add_hits-score k rank (h ∷ l) vector m x =
      add_hits-score k (suc rank) l vector (add_hit sc k rank h vector m) x
      ∙ ap (points k (suc rank) x l) (add_hit-score k rank h vector m x)

  -- a chunk is in the map behind a loop if it was there before or has a hit
  pub add_hits-key :
      (k : K) (rank : ℕ) (l : List (SearchHit F)) (vector : Bool) (m : Map (FusedHit F)) (x : Text)
      → any (λ (e : Text × FusedHit F). text_eq e.0 x) (add_hits sc k rank l vector m) ≡ (
          any (λ (e : Text × FusedHit F). text_eq e.0 x) m
          || any (λ (h : SearchHit F). text_eq h.chunk.chunk_id x) l)
  unfolding add_hits add_hit any
  add_hits-key k rank [] vector m x = ground arith
  add_hits-key k rank (h ∷ l) vector m x =
      let id = h.chunk.chunk_id in
      ground (
        arith,
        add_hits-key k (suc rank) l vector (add_hit sc k rank h vector m) x,
        any_key-put x id (added sc k rank h vector (find id m)) m,
      )
