-- ===== src/LongTerm.antt =====
-- long_term_memory.go: the memory of past turns that is kept in the process. A call holds the lock
-- throughout, so it is one step on the list of records. A time is a number, 0 for the zero time, and
-- the clock stands still while one search runs. Floats are those of the machine, an interface here.
pub mod Ranked
pub mod Scoped
pub mod Records
pub mod Forgotten
pub mod Compress
pub mod Provider
pub mod Recall
pub mod Isolation
pub mod Tenants
pub mod Vector
pub mod VectorFilter
use go_rag_agent.Base.{
  sort_by, ℕ, zero, suc, ◌+◌, Bool, true, false, not, ◌&&◌, ◌||◌, ◌==◌, leb, List, [], ◌∷◌, ◌++◌,
  Option, none, some, ◌⊎◌, inl, inr, if◌then◌else◌, ℤ, to_nat, Text, text_eq, is_empty, length,
  take, filter, text_lt,
}

-- the operations of Go on float32 (F) and float64 (D)
pub record Floats (F D : Type 0) : Type 0 where
  pub mul : F → F → F
  pub widen : F → D
  pub zero_wide : D
  pub add_wide : D → D → D
  pub mul_wide : D → D → D
  pub div_wide : D → D → D
  pub sqrt : D → D
  pub is_zero_wide : D → Bool
  pub narrow : D → F
  pub lt : F → F → Bool

pub record MemoryRecord (F : Type 0) : Type 0 where
  pub id : Text
  pub session_id : Text
  pub user_id : Text
  pub tenant : Text
  pub user : Text
  pub assistant : Text
  pub embedding : List F
  pub created_at : ℕ
  pub expires_at : ℕ

pub record MemoryHit (F : Type 0) : Type 0 where
  pub memory : MemoryRecord F
  pub score : F

pub data MemoryError : Type 0 where
  missing_id missing_session missing_embedding missing_store : MemoryError
  context_error store_error embed_error : Text → MemoryError
  empty_embedding : MemoryError

module _ {F : Type 0} where
  unfoldable pub is_expired : MemoryRecord F → ℕ → Bool
  is_expired r now = not (r.expires_at == 0) && leb r.expires_at now

  unfoldable pub validate : MemoryRecord F → Option MemoryError
  validate r =
      if is_empty r.id
      then some missing_id
      else if is_empty r.session_id
      then some missing_session
      else if is_empty r.embedding
      then some missing_embedding
      else none

  -- the record in the place of the first one with its id, or behind all others
  unfoldable pub replace : MemoryRecord F → List (MemoryRecord F) → List (MemoryRecord F)
  replace r [] = r ∷ []
  replace r (x ∷ s) = let rest = replace r s in if text_eq x.id r.id then r ∷ s else x ∷ rest

  -- the loop over the records: those in front of a record that is refused are stored
  unfoldable pub store_loop :
      List (MemoryRecord F) → List (MemoryRecord F) → Option MemoryError × List (MemoryRecord F)
  unfolding validate
  store_loop [] s = (none, s)
  store_loop (r ∷ rs) s = elim (validate r) [
    | none ↦ store_loop rs (replace r s)
    | some err ↦ (some err, s)
  ]

  unfoldable pub store :
      Option Text
      → List (MemoryRecord F)
      → List (MemoryRecord F)
      → Option MemoryError × List (MemoryRecord F)
  unfolding store_loop
  store (some err) rs s = (some (context_error err), s)
  store none rs s = store_loop rs s

  unfoldable pub clear_session :
      Option Text → Text → List (MemoryRecord F) → Option MemoryError × List (MemoryRecord F)
  unfolding filter
  clear_session (some err) session s = (some (context_error err), s)
  clear_session none session s = (none, filter (λ r. not (text_eq r.session_id session)) s)

  unfoldable pub close : List (MemoryRecord F) → Option MemoryError × List (MemoryRecord F)
  close s = (none, [])

  unfoldable pub prune_loop : ℕ → List (MemoryRecord F) → ℕ × List (MemoryRecord F)
  prune_loop now [] = (0, [])
  prune_loop now (r ∷ s) =
      let (pruned, kept) = prune_loop now s in
      if is_expired r now then (suc pruned, kept) else (pruned, r ∷ kept)

  unfoldable pub prune_expired :
      Option Text → ℕ → List (MemoryRecord F) → MemoryError ⊎ ℕ × List (MemoryRecord F)
  unfolding prune_loop
  prune_expired (some err) now s = inl (context_error err)
  prune_expired none now s = inr (prune_loop now s)

module _ {F D : Type 0} (fl : Floats F D) where
  -- the three sums of the loop over the components
  unfoldable pub sums : List F → List F → D × D × D → D × D × D
  sums [] b acc = acc
  sums (x ∷ a) [] acc = acc
  sums (x ∷ a) (y ∷ b) (dot, norm_a, norm_b) = sums a b (
    fl.add_wide dot (fl.widen (fl.mul x y)),
    fl.add_wide norm_a (fl.widen (fl.mul x x)),
    fl.add_wide norm_b (fl.widen (fl.mul y y)),
  )

  unfoldable pub cosine_similarity : List F → List F → Option F
  unfolding sums
  cosine_similarity a b =
      let (dot, norm_a, norm_b) = sums a b (fl.zero_wide, fl.zero_wide, fl.zero_wide) in
      if is_empty a || not (length a == length b)
      then none
      else if fl.is_zero_wide norm_a || fl.is_zero_wide norm_b
      then none
      else some (fl.narrow (fl.div_wide dot (fl.mul_wide (fl.sqrt norm_a) (fl.sqrt norm_b))))

  -- the hit of a record whose score is known
  unfoldable pub scored : MemoryRecord F → F → Option F → Option (MemoryHit F)
  scored r threshold none = none
  scored r threshold (some score) =
      if fl.lt score threshold then none else some (record { memory = r; score = score })

  unfoldable pub hit_of : Text → List F → F → ℕ → MemoryRecord F → Option (MemoryHit F)
  unfolding scored cosine_similarity
  hit_of session query threshold now r =
      if text_eq r.session_id session && not (is_expired r now)
      then scored r threshold (cosine_similarity query r.embedding)
      else none

  unfoldable pub push_hit : Option (MemoryHit F) → List (MemoryHit F) → List (MemoryHit F)
  push_hit none hits = hits
  push_hit (some hit) hits = hit ∷ hits

  -- the loop over the records
  unfoldable pub hits_of : Text → List F → F → ℕ → List (MemoryRecord F) → List (MemoryHit F)
  unfolding push_hit hit_of
  hits_of session query threshold now [] = []
  hits_of session query threshold now (r ∷ s) =
      push_hit (hit_of session query threshold now r) (hits_of session query threshold now s)

  -- whether the comparison of the sort is negative
  unfoldable pub goes_before : MemoryHit F → MemoryHit F → Bool
  goes_before a b =
      if fl.lt b.score a.score
      then true
      else if fl.lt a.score b.score
      then false
      else text_lt a.memory.id b.memory.id

  unfoldable pub sort_hits : List (MemoryHit F) → List (MemoryHit F)
  unfolding goes_before sort_by
  sort_hits hits = sort_by goes_before hits

  unfoldable pub search :
      Option Text
      → Text
      → List F
      → ℤ
      → F
      → ℕ
      → List (MemoryRecord F)
      → MemoryError ⊎ List (MemoryHit F)
  unfolding hits_of sort_hits
  search (some err) session query top_k threshold now s = inl (context_error err)
  search none session query top_k threshold now s =
      if leb (to_nat top_k) 0 || is_empty query
      then inr []
      else inr (take (to_nat top_k) (sort_hits (hits_of session query threshold now s)))
