-- ===== src/LongTerm/Forgotten.antt =====
-- What a search sees of the calls that drop records.
use go_rag_agent.Base.{
  ℕ, ◌≤◌, zero, suc, ◌+◌, Bool, true, false, not, ◌||◌, leb, List, [], ◌∷◌, ◌≡◌, refl, ap, ◌∙◌,
  Option, none, some, inl, inr, ℤ, to_nat, Text, text_eq, text_eq→eq, is_empty, filter, arith,
  Bool-cases, length, take,
}
use go_rag_agent.LongTerm.{
  Floats, MemoryRecord, MemoryHit, is_expired, clear_session, prune_loop, hit_of, push_hit, hits_of,
  sort_hits, search,
}
use go_rag_agent.LongTerm.Records.{prune_loop-filter, prune_loop-count}

other_session :
    {F : Type 0} (session other : Text) (r : MemoryRecord F)
    → text_eq session other ≡ false
    → text_eq r.session_id session ≡ true
    → text_eq r.session_id other ≡ false
other_session session other r h e = rw (text_eq→eq r.session_id session e) h

module _ {F D : Type 0} (fl : Floats F D) where
  expired_later :
      (r : MemoryRecord F) (earlier now : ℕ)
      → earlier ≤ now
      → is_expired r earlier ≡ true
      → is_expired r now ≡ true
  unfolding is_expired
  expired_later r earlier now le h = ground (arith, le, h)

  hit_of-expired :
      (session : Text) (query : List F) (threshold : F) (now : ℕ) (r : MemoryRecord F)
      → is_expired r now ≡ true
      → hit_of fl session query threshold now r ≡ none
  unfolding hit_of
  hit_of-expired session query threshold now r h =
      elim (Bool-cases (text_eq r.session_id session)) [
        | inl e ↦ rw (e, h) refl
        | inr e ↦ rw e refl
      ]

  hit_of-other :
      (session : Text) (query : List F) (threshold : F) (now : ℕ) (r : MemoryRecord F)
      → text_eq r.session_id session ≡ false
      → hit_of fl session query threshold now r ≡ none
  unfolding hit_of
  hit_of-other session query threshold now r h = rw h refl

  -- records that give no hit can be dropped
  hits_of-filter :
      (session : Text) (query : List F) (threshold : F) (now : ℕ) (p : MemoryRecord F → Bool)
      → ((r : MemoryRecord F) → p r ≡ false → hit_of fl session query threshold now r ≡ none)
      → (s : List (MemoryRecord F))
      → hits_of fl session query threshold now (filter p s)
        ≡ hits_of fl session query threshold now s
  unfolding hits_of filter push_hit
  hits_of-filter session query threshold now p drops [] = refl
  hits_of-filter session query threshold now p drops (r ∷ s) = elim (Bool-cases (p r)) [
    | inl e ↦ rw e (
        ap (λ l. push_hit fl (hit_of fl session query threshold now r) l)
          (hits_of-filter session query threshold now p drops s))
    | inr e ↦ rw (e, drops r e) (hits_of-filter session query threshold now p drops s)
  ]

  search-same_hits :
      (ctx : Option Text) (session : Text) (query : List F) (top_k : ℤ) (threshold : F) (now : ℕ)
      → (s t : List (MemoryRecord F))
      → hits_of fl session query threshold now s ≡ hits_of fl session query threshold now t
      → search fl ctx session query top_k threshold now s
        ≡ search fl ctx session query top_k threshold now t
  unfolding search
  search-same_hits (some err) session query top_k threshold now s t h = refl
  search-same_hits none session query top_k threshold now s t h = rw h refl

  -- Pruning the records that were expired at some time changes no search from that time on, and
  -- removes as many records as it counts.
  search-prune :
      (ctx : Option Text) (session : Text) (query : List F) (top_k : ℤ) (threshold : F)
      → (pruned_at now : ℕ) (s : List (MemoryRecord F)) → pruned_at ≤ now
      → (search fl ctx session query top_k threshold now (prune_loop pruned_at s).1
          ≡ search fl ctx session query top_k threshold now s)
        × ((prune_loop pruned_at s).0 + length (prune_loop pruned_at s).1 ≡ length s)
  search-prune ctx session query top_k threshold pruned_at now s le =
      let kept : MemoryRecord F → Bool = λ r. not (is_expired r pruned_at) in
      (
        search-same_hits ctx session query top_k threshold now (prune_loop pruned_at s).1 s (
            ap (λ l. hits_of fl session query threshold now l) (prune_loop-filter pruned_at s)
            ∙ hits_of-filter session query threshold now kept
                (λ r e.
                  hit_of-expired session query threshold now r
                    (expired_later r pruned_at now le (ground (arith, e))))
                s),
        prune_loop-count pruned_at s,
      )

  no_hits :
      (session : Text) (query : List F) (threshold : F) (now : ℕ) (s : List (MemoryRecord F))
      → hits_of fl session query threshold now (filter (λ r. not (text_eq r.session_id session)) s)
        ≡ []
  unfolding hits_of filter push_hit
  no_hits session query threshold now [] = refl
  no_hits session query threshold now (r ∷ s) = elim (Bool-cases (text_eq r.session_id session)) [
    | inl e ↦ rw e (no_hits session query threshold now s)
    | inr e ↦
        rw (e, hit_of-other session query threshold now r e) (no_hits session query threshold now s)
  ]

  take_nil : (k : ℕ) → take {A = MemoryHit F} k [] ≡ []
  take_nil zero = refl
  take_nil (suc k) = refl

  search_nil :
      (session : Text) (query : List F) (top_k : ℤ) (threshold : F) (now : ℕ)
      → search fl none session query top_k threshold now [] ≡ inr []
  unfolding search hits_of sort_hits
  search_nil session query top_k threshold now =
      elim (Bool-cases (leb (to_nat top_k) 0 || is_empty query)) [
        | inl e ↦ rw e refl
        | inr e ↦ rw (e, take_nil (to_nat top_k)) refl
      ]

  -- Clearing a session leaves nothing to find in it, and changes no search of another session.
  search-clear_session :
      (session other : Text) (query : List F) (top_k : ℤ) (threshold : F) (now : ℕ)
      → (s : List (MemoryRecord F)) → text_eq session other ≡ false
      → (search fl none session query top_k threshold now (clear_session none session s).1 ≡ inr [])
        × (search fl none other query top_k threshold now (clear_session none session s).1
            ≡ search fl none other query top_k threshold now s)
  unfolding clear_session hits_of
  search-clear_session session other query top_k threshold now s h =
      let kept : MemoryRecord F → Bool = λ r. not (text_eq r.session_id session) in
      (
        search-same_hits none session query top_k threshold now (filter kept s) []
              (no_hits session query threshold now s)
            ∙ search_nil session query top_k threshold now,
        search-same_hits none other query top_k threshold now (filter kept s) s (
            hits_of-filter other query threshold now kept
              (λ r e.
                hit_of-other other query threshold now r
                  (other_session session other r h (ground (arith, e))))
              s),
      )
