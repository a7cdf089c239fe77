-- ===== src/LongTerm/Records.antt =====
-- The records behind any calls: one for each id, the last one stored, and what the calls that drop
-- records leave of a search.
use go_rag_agent.Base.{
  ℕ, ◌+◌, Bool, true, false, not, ◌&&◌, ◌||◌, List, [], ◌∷◌, ◌≡◌, refl, sym, ap, ◌∙◌, Option, none,
  some, ◌⊎◌, inl, inr, if◌then◌else◌, Text, text_eq, text_eq→eq, text_eq_sym, length, any, filter,
  arith, Option-cases,
}
use go_rag_agent.LongTerm.{
  MemoryRecord, MemoryError, is_expired, validate, replace, store_loop, store, clear_session, close,
  prune_loop, prune_expired,
}

pub data MemoryCall (F : Type 0) : Type 0 where
  stored : Option Text → List (MemoryRecord F) → MemoryCall F
  cleared : Option Text → Text → MemoryCall F
  pruned : Option Text → ℕ → MemoryCall F
  closed : MemoryCall F

module _ {F : Type 0} where
  unfoldable pub has_id : Text → List (MemoryRecord F) → Bool
  unfolding any
  has_id id s = any (λ r. text_eq r.id id) s

  unfoldable pub is_distinct : List (MemoryRecord F) → Bool
  unfolding has_id
  is_distinct [] = true
  is_distinct (r ∷ s) = not (has_id r.id s) && is_distinct s

  unfoldable pub pruned_records :
      List (MemoryRecord F) → MemoryError ⊎ ℕ × List (MemoryRecord F) → List (MemoryRecord F)
  pruned_records s (inl err) = s
  pruned_records s (inr (count, kept)) = kept

  unfoldable pub perform : MemoryCall F → List (MemoryRecord F) → List (MemoryRecord F)
  unfolding store clear_session close prune_expired pruned_records
  perform (stored ctx rs) s = (store ctx rs s).1
  perform (cleared ctx session) s = (clear_session ctx session s).1
  perform (pruned ctx now) s = pruned_records s (prune_expired ctx now s)
  perform closed s = (close s).1

  unfoldable pub perform_all : List (MemoryCall F) → List (MemoryRecord F) → List (MemoryRecord F)
  unfolding perform
  perform_all [] s = s
  perform_all (c ∷ cs) s = perform_all cs (perform c s)

  has_id_congr :
      (a b : Text) (s : List (MemoryRecord F)) → text_eq a b ≡ true → has_id a s ≡ has_id b s
  has_id_congr a b s h = ap (λ id. has_id id s) (text_eq→eq a b h)

  has_id-replace :
      (id : Text) (r : MemoryRecord F) (s : List (MemoryRecord F))
      → has_id id (replace r s) ≡ (has_id id s || text_eq r.id id)
  unfolding has_id replace any
  has_id-replace id r [] = ground arith
  has_id-replace id r (x ∷ s) = ground (
    arith,
    has_id-replace id r s,
    λ (h : text_eq x.id r.id ≡ true). ap (λ a. text_eq a id) (text_eq→eq x.id r.id h),
  )

  replace-is_distinct :
      (r : MemoryRecord F) (s : List (MemoryRecord F))
      → is_distinct s ≡ true
      → is_distinct (replace r s) ≡ true
  unfolding is_distinct replace has_id any
  replace-is_distinct r [] h = refl
  replace-is_distinct r (x ∷ s) h = ground (
    arith,
    h,
    replace-is_distinct r s,
    has_id-replace x.id r s,
    text_eq_sym x.id r.id,
    has_id_congr x.id r.id s,
  )

  store_loop-is_distinct :
      (rs s : List (MemoryRecord F)) → is_distinct s ≡ true → is_distinct (store_loop rs s).1 ≡ true
  unfolding store_loop
  store_loop-is_distinct [] s h = h
  store_loop-is_distinct (r ∷ rs) s h = elim (Option-cases (validate r)) [
    | inl e ↦
        rw (store_loop, e) (store_loop-is_distinct rs (replace r s) (replace-is_distinct r s h))
    | inr (err, e) ↦ rw (store_loop, e) h
  ]

  has_id-filter :
      (id : Text) (p : MemoryRecord F → Bool) (s : List (MemoryRecord F))
      → has_id id s ≡ false
      → has_id id (filter p s) ≡ false
  unfolding has_id filter any
  has_id-filter id p [] h = refl
  has_id-filter id p (r ∷ s) h = ground (arith, h, has_id-filter id p s)

  filter-is_distinct :
      (p : MemoryRecord F → Bool) (s : List (MemoryRecord F))
      → is_distinct s ≡ true
      → is_distinct (filter p s) ≡ true
  unfolding is_distinct filter
  filter-is_distinct p [] h = refl
  filter-is_distinct p (r ∷ s) h = ground (arith, h, filter-is_distinct p s, has_id-filter r.id p s)

  pub prune_loop-filter :
      (now : ℕ) (s : List (MemoryRecord F))
      → (prune_loop now s).1 ≡ filter (λ r. not (is_expired r now)) s
  unfolding prune_loop filter
  prune_loop-filter now [] = refl
  prune_loop-filter now (r ∷ s) = ground (arith, prune_loop-filter now s)

  pub prune_loop-count :
      (now : ℕ) (s : List (MemoryRecord F))
      → (prune_loop now s).0 + length (prune_loop now s).1 ≡ length s
  unfolding prune_loop
  prune_loop-count now [] = refl
  prune_loop-count now (r ∷ s) = ground (arith, prune_loop-count now s)

  perform-is_distinct :
      (c : MemoryCall F) (s : List (MemoryRecord F))
      → is_distinct s ≡ true
      → is_distinct (perform c s) ≡ true
  unfolding perform store clear_session close prune_expired pruned_records is_distinct
  perform-is_distinct (stored (some err) rs) s h = h
  perform-is_distinct (stored none rs) s h = store_loop-is_distinct rs s h
  perform-is_distinct (cleared (some err) session) s h = h
  perform-is_distinct (cleared none session) s h =
      filter-is_distinct (λ r. not (text_eq r.session_id session)) s h
  perform-is_distinct (pruned (some err) now) s h = h
  perform-is_distinct (pruned none now) s h =
      rw (prune_loop-filter now s) (filter-is_distinct (λ r. not (is_expired r now)) s h)
  perform-is_distinct closed s h = refl

  perform_all-distinct_from :
      (cs : List (MemoryCall F)) (s : List (MemoryRecord F))
      → is_distinct s ≡ true
      → is_distinct (perform_all cs s) ≡ true
  unfolding perform_all
  perform_all-distinct_from [] s h = h
  perform_all-distinct_from (c ∷ cs) s h =
      perform_all-distinct_from cs (perform c s) (perform-is_distinct c s h)

  -- the record of an id, the first one in the list
  unfoldable pub find_record : Text → List (MemoryRecord F) → Option (MemoryRecord F)
  find_record id [] = none
  find_record id (r ∷ s) = if text_eq r.id id then some r else find_record id s

  -- the last record of a list with an id, or else a given one
  unfoldable pub last_record :
      Text → List (MemoryRecord F) → Option (MemoryRecord F) → Option (MemoryRecord F)
  last_record id [] old = old
  last_record id (r ∷ rs) old = last_record id rs (if text_eq r.id id then some r else old)

  find_record-replace :
      (id : Text) (r : MemoryRecord F) (s : List (MemoryRecord F))
      → find_record id (replace r s) ≡ (if text_eq r.id id then some r else find_record id s)
  unfolding find_record replace
  find_record-replace id r [] = refl
  find_record-replace id r (x ∷ s) = ground (
    arith,
    find_record-replace id r s,
    λ (h : text_eq x.id r.id ≡ true). ap (λ a. text_eq a id) (text_eq→eq x.id r.id h),
    λ (h : text_eq r.id id ≡ true). ap (λ a. text_eq x.id a) (text_eq→eq r.id id h),
  )

  store_loop-find :
      (id : Text) (rs s s' : List (MemoryRecord F))
      → store_loop rs s ≡ (none, s')
      → find_record id s' ≡ last_record id rs (find_record id s)
  unfolding store_loop last_record
  store_loop-find id [] s s' h = ap (λ l. find_record id l) (sym (ground (arith, h)))
  store_loop-find id (r ∷ rs) s s' h = elim (Option-cases (validate r)) [
    | inl e ↦
        store_loop-find id rs (replace r s) s' (ground (arith, e, h))
        ∙ ap (λ o. last_record id rs o) (find_record-replace id r s)
    | inr (err, e) ↦ absurd (ground (arith, e, h))
  ]

  -- Behind any calls on a new memory, a batch of records that is stored without an error leaves one
  -- record for each id, and that of an id is the last one of the batch with it, or the one that it had.
  store-last :
      (cs : List (MemoryCall F)) (rs s' : List (MemoryRecord F)) (id : Text)
      → store none rs (perform_all cs []) ≡ (none, s')
      → (is_distinct s' ≡ true)
        × (find_record id s' ≡ last_record id rs (find_record id (perform_all cs [])))
  unfolding store is_distinct
  store-last cs rs s' id h =
      let s : List (MemoryRecord F) = perform_all cs [] in
      let after : (store_loop rs s).1 ≡ s' =
        ap (λ (r : Option MemoryError × List (MemoryRecord F)). r.1) h in
      (
        ap (λ l. is_distinct l) (sym after)
            ∙ store_loop-is_distinct rs s (perform_all-distinct_from cs [] refl),
        store_loop-find id rs s s' h,
      )
