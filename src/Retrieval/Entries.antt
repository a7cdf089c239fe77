-- ===== src/Retrieval/Entries.antt =====
-- The entries of the map of scores behind a fusion, and the hits that they become.
use go_rag_agent.Base.{
  ℕ, ◌<◌, zero, suc, Bool, true, false, not, ◌||◌, List, [], ◌∷◌, map, some, ◌≡◌, refl, sym, ap,
  ◌∙◌, inl, inr, Text, text_eq, text_eq→eq, length, take, any, is_distinct_by, Map, find, arith,
  Bool-cases,
}
use go_rag_agent.Access.Search.{SearchHit}
use go_rag_agent.Retrieval.{FusedHit, fused_hit}

module _ {F : Type 0} where
  abbrev pub item_id : FusedHit F → Text
  item_id item = item.hit.chunk.chunk_id

  abbrev pub hit_id : SearchHit F → Text
  hit_id h = h.chunk.chunk_id

  -- an entry whose key is not the id of its chunk
  abbrev pub misplaced : Text × FusedHit F → Bool
  misplaced e = not (text_eq e.0 (item_id e.1))

  -- The entries of the map of scores: each chunk once, under its id.
  pub record Keyed (m : Map (FusedHit F)) : Type 0 where
    pub distinct : is_distinct_by (λ (e : Text × FusedHit F). e.0) m ≡ true
    pub placed : any misplaced m ≡ false

  pub find-placed :
      (k : Text) (item : FusedHit F) (m : Map (FusedHit F))
      → any misplaced m ≡ false
      → find k m ≡ some item
      → text_eq k (item_id item) ≡ true
  unfolding any find
  find-placed k item [] h g = absurd (ground (arith, g))
  find-placed k item (e ∷ m) h g = elim (Bool-cases (text_eq k e.0)) [
    | inl b ↦
        let same : e.1 ≡ item = ground (arith, b, g) in
        ap (λ i. text_eq k (item_id i)) (sym same) ∙ rw (text_eq→eq k e.0 b) (ground (arith, h))
    | inr b ↦ find-placed k item m (ground (arith, h)) (ground (arith, b, g))
  ]

  pub map-any :
      (x : Text) (l : List (FusedHit F))
      → any (λ h. text_eq (hit_id h) x) (map fused_hit l) ≡ any (λ j. text_eq (item_id j) x) l
  unfolding any fused_hit
  map-any x [] = refl
  map-any x (j ∷ l) = ap (λ b. text_eq (item_id j) x || b) (map-any x l)

  pub values-any :
      (x : Text) (m : Map (FusedHit F))
      → any misplaced m ≡ false
      → any (λ i. text_eq (item_id i) x) (map (λ e. e.1) m) ≡ any (λ e. text_eq e.0 x) m
  unfolding any
  values-any x [] h = refl
  values-any x (e ∷ m) h = ground (
    arith,
    h,
    values-any x m,
    λ (g : text_eq e.0 (item_id e.1) ≡ true).
        ap (λ a. text_eq a x) (text_eq→eq e.0 (item_id e.1) g),
  )

  pub values-scored :
      (q : Text → F → Bool) (m : Map (FusedHit F))
      → any misplaced m ≡ false
      → any (λ i. q (item_id i) i.score) (map (λ e. e.1) m) ≡ any (λ e. q e.0 e.1.score) m
  unfolding any
  values-scored q [] h = refl
  values-scored q (e ∷ m) h = ground (
    arith,
    h,
    values-scored q m,
    λ (g : text_eq e.0 (item_id e.1) ≡ true).
        ap (λ a. q a e.1.score) (text_eq→eq e.0 (item_id e.1) g),
  )

  pub map-scored :
      (q : Text → F → Bool) (l : List (FusedHit F))
      → any (λ h. q (hit_id h) h.score) (map fused_hit l) ≡ any (λ i. q (item_id i) i.score) l
  unfolding any fused_hit
  map-scored q [] = refl
  map-scored q (i ∷ l) = ap (λ b. q (item_id i) i.score || b) (map-scored q l)

  pub take-all : (n : ℕ) (l : List (FusedHit F)) → length (take n l) < n → take n l ≡ l
  take-all zero l h = absurd (omega (arith, h))
  take-all (suc n) [] h = refl
  take-all (suc n) (x ∷ l) h = ap (λ t. x ∷ t) (take-all n l (omega (arith, h)))

  pub values-distinct :
      (m : Map (FusedHit F))
      → is_distinct_by (λ (e : Text × FusedHit F). e.0) m ≡ true
      → any misplaced m ≡ false
      → is_distinct_by item_id (map (λ e. e.1) m) ≡ true
  unfolding is_distinct_by any
  values-distinct [] h g = refl
  values-distinct (e ∷ m) h g =
      let same : e.0 ≡ item_id e.1 = text_eq→eq e.0 (item_id e.1) (ground (arith, g)) in
      let rest : any misplaced m ≡ false = ground (arith, g) in
      ground (
        arith,
        h,
        values-distinct m (ground (arith, h)) rest,
        values-any (item_id e.1) m rest,
        ap (λ a. any (λ (x : Text × FusedHit F). text_eq x.0 a) m) same,
      )

  pub map-distinct :
      (l : List (FusedHit F)) → is_distinct_by hit_id (map fused_hit l) ≡ is_distinct_by item_id l
  unfolding is_distinct_by any fused_hit
  map-distinct [] = refl
  map-distinct (i ∷ l) = ground (arith, map-distinct l, map-any (item_id i) l)
