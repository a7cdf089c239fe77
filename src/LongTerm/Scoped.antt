-- ===== src/LongTerm/Scoped.antt =====
-- Which records a search can return, and what the other calls change for it.
use go_rag_agent.Base.{
  any-take, any-sort_by, ℕ, Bool, true, false, not, ◌&&◌, ◌||◌, leb, List, [], ◌∷◌, ◌≡◌, refl, sym,
  ◌∙◌, Option, none, some, inl, inr, ℤ, to_nat, Text, text_eq, is_empty, take, any, arith,
  Bool-cases,
}
use go_rag_agent.LongTerm.{
  Floats, MemoryRecord, MemoryHit, is_expired, cosine_similarity, scored, hit_of, push_hit, hits_of,
  sort_hits, search, goes_before,
}

module _ {F D : Type 0} (fl : Floats F D) where
  -- a hit of the session that is not expired and reaches the threshold
  unfoldable pub permits_hit : Text → F → ℕ → MemoryHit F → Bool
  permits_hit session threshold now h =
      text_eq h.memory.session_id session
      && not (is_expired h.memory now)
      && not (fl.lt h.score threshold)

  abbrev fails : Text → F → ℕ → MemoryHit F → Bool
  fails session threshold now h = not (permits_hit session threshold now h)

  -- what a test says of a hit that may be missing
  abbrev holds : (MemoryHit F → Bool) → Option (MemoryHit F) → Bool
  holds p none = false
  holds p (some h) = p h

  any-push_hit :
      (p : MemoryHit F → Bool) (o : Option (MemoryHit F)) (l : List (MemoryHit F))
      → any p (push_hit fl o l) ≡ (holds p o || any p l)
  unfolding push_hit any
  any-push_hit p none l = refl
  any-push_hit p (some h) l = refl

  scored-permits :
      (session : Text) (threshold : F) (now : ℕ) (r : MemoryRecord F) (o : Option F)
      → (text_eq r.session_id session && not (is_expired r now)) ≡ true
      → holds (fails session threshold now) (scored fl r threshold o) ≡ false
  unfolding scored permits_hit
  scored-permits session threshold now r none h = refl
  scored-permits session threshold now r (some score) h =
      elim (Bool-cases (fl.lt score threshold)) [
        | inl e ↦ rw e refl
        | inr e ↦ rw e (ground (arith, h, e))
      ]

  hit_of-permits :
      (session : Text) (query : List F) (threshold : F) (now : ℕ) (r : MemoryRecord F)
      → holds (fails session threshold now) (hit_of fl session query threshold now r) ≡ false
  unfolding hit_of
  hit_of-permits session query threshold now r =
      elim (Bool-cases (text_eq r.session_id session && not (is_expired r now))) [
        | inl e ↦
            rw e (scored-permits session threshold now r (cosine_similarity fl query r.embedding) e)
        | inr e ↦ rw e refl
      ]

  scored-memory :
      (q : MemoryRecord F → Bool) (threshold : F) (r : MemoryRecord F) (o : Option F)
      → holds (λ h. q h.memory) (scored fl r threshold o) ≡ true
      → q r ≡ true
  unfolding scored
  scored-memory q threshold r none h = absurd (ground (arith, h))
  scored-memory q threshold r (some score) h = elim (Bool-cases (fl.lt score threshold)) [
    | inl e ↦ absurd (ground (arith, h, e))
    | inr e ↦ ground (arith, h, e)
  ]

  hit_of-memory :
      (q : MemoryRecord F → Bool) (session : Text) (query : List F) (threshold : F) (now : ℕ)
      → (r : MemoryRecord F)
      → holds (λ h. q h.memory) (hit_of fl session query threshold now r) ≡ true
      → q r ≡ true
  unfolding hit_of
  hit_of-memory q session query threshold now r h =
      elim (Bool-cases (text_eq r.session_id session && not (is_expired r now))) [
        | inl e ↦
            scored-memory q threshold r (cosine_similarity fl query r.embedding)
              (ground (arith, h, e))
        | inr e ↦ absurd (ground (arith, h, e))
      ]

  hits_of-permits :
      (session : Text) (query : List F) (threshold : F) (now : ℕ) (s : List (MemoryRecord F))
      → any (fails session threshold now) (hits_of fl session query threshold now s) ≡ false
  unfolding hits_of any
  hits_of-permits session query threshold now [] = refl
  hits_of-permits session query threshold now (r ∷ s) =
      any-push_hit (fails session threshold now) (hit_of fl session query threshold now r)
        (hits_of fl session query threshold now s)
      ∙ rw (hit_of-permits session query threshold now r)
          (hits_of-permits session query threshold now s)

  hits_of-memory :
      (q : MemoryRecord F → Bool) (session : Text) (query : List F) (threshold : F) (now : ℕ)
      → (s : List (MemoryRecord F))
      → any (λ h. q h.memory) (hits_of fl session query threshold now s) ≡ true
      → any q s ≡ true
  unfolding hits_of any
  hits_of-memory q session query threshold now [] h = h
  hits_of-memory q session query threshold now (r ∷ s) h = ground (
    arith,
    h,
    any-push_hit (λ h. q h.memory) (hit_of fl session query threshold now r)
        (hits_of fl session query threshold now s),
    hit_of-memory q session query threshold now r,
    hits_of-memory q session query threshold now s,
  )

  any-take-true :
      (p : MemoryHit F → Bool) (k : ℕ) (l : List (MemoryHit F))
      → any p (take k l) ≡ true
      → any p l ≡ true
  any-take-true p k l h = elim (Bool-cases (any p l)) [
    | inl e ↦ e
    | inr e ↦ absurd (ground (arith, h, any-take p k l e))
  ]

  -- Every hit that a search returns is of the session asked for, not expired and not under the
  -- threshold, and its record is one of those stored.
  pub search-permits :
      (ctx : Option Text) (session : Text) (query : List F) (top_k : ℤ) (threshold : F) (now : ℕ)
      → (s : List (MemoryRecord F)) (hits : List (MemoryHit F))
      → search fl ctx session query top_k threshold now s ≡ inr hits
      → (any (λ h. not (permits_hit session threshold now h)) hits ≡ false)
        × ((q : MemoryRecord F → Bool) → any (λ h. q h.memory) hits ≡ true → any q s ≡ true)
  unfolding search any sort_hits
  search-permits (some err) session query top_k threshold now s hits e = absurd (ground (arith, e))
  search-permits none session query top_k threshold now s hits e =
      let found : List (MemoryHit F) = hits_of fl session query threshold now s in
      let best : List (MemoryHit F) = take (to_nat top_k) (sort_hits fl found) in
      elim (Bool-cases (leb (to_nat top_k) 0 || is_empty query)) [
        | inl b ↦
            let none_found : [] ≡ hits = ground (arith, e, b) in
            rw (sym none_found) (refl, λ q h. absurd (ground (arith, h)))
        | inr b ↦
            let same : best ≡ hits = ground (arith, e, b) in
            rw (sym same) (
              any-take (fails session threshold now) (to_nat top_k) (sort_hits fl found) (
                  any-sort_by (goes_before fl) (fails session threshold now) found
                  ∙ hits_of-permits session query threshold now s),
              λ q h. hits_of-memory q session query threshold now s (
                  sym (any-sort_by (goes_before fl) (λ x. q x.memory) found)
                  ∙ any-take-true (λ x. q x.memory) (to_nat top_k) (sort_hits fl found) h),
            )
      ]
