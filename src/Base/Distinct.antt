-- ===== src/Base/Distinct.antt =====
-- Lists whose elements have distinct keys.
use Prim.Native.Nat.{ℕ, zero, suc}
use mathlib.Core.Path.{◌≡◌, refl, sym, ap, ◌∙◌}
use mathlib.Core.List.{List, [], ◌∷◌}
use mathlib.Core.Bool.{Bool, true, false, not, ◌&&◌, ◌||◌}
use mathlib.Core.Logic.{inl, inr}
use native.Mathlib.Omega.{arith}
use go_rag_agent.Base.Tests.{Bool-cases}
use go_rag_agent.Base.Lists.{take, any}
use go_rag_agent.Base.Strings.{Text, text_eq, text_eq→eq}
use go_rag_agent.Base.Maps.{Map, put, text_eq_sym}
use go_rag_agent.Base.Sorts.{insert_by, sort_by, any-insert_by, any-sort_by, any-take}

pub text_eq_comm : (s t : Text) → text_eq s t ≡ text_eq t s
text_eq_comm s t = elim (Bool-cases (text_eq s t)) [
  | inl e ↦ e ∙ ground (arith, e, text_eq_sym t s)
  | inr e ↦ e ∙ sym (text_eq_sym s t e)
]

module _ {ℓ} {A : Type ℓ} (key : A → Text) where
  unfoldable pub is_distinct_by : List A → Bool
  unfolding any text_eq
  is_distinct_by [] = true
  is_distinct_by (x ∷ l) = not (any (λ y. text_eq (key y) (key x)) l) && is_distinct_by l

  insert_by-distinct :
      (before : A → A → Bool) (h : A) (l : List A)
      → is_distinct_by (insert_by before h l)
        ≡ (not (any (λ y. text_eq (key y) (key h)) l) && is_distinct_by l)
  unfolding is_distinct_by insert_by any
  insert_by-distinct before h [] = refl
  insert_by-distinct before h (x ∷ l) = ground (
    arith,
    insert_by-distinct before h l,
    any-insert_by before (λ y. text_eq (key y) (key x)) h l,
    text_eq_comm (key h) (key x),
  )

  pub sort_by-distinct :
      (before : A → A → Bool) (l : List A) → is_distinct_by (sort_by before l) ≡ is_distinct_by l
  unfolding is_distinct_by sort_by
  sort_by-distinct before [] = refl
  sort_by-distinct before (h ∷ l) =
      insert_by-distinct before h (sort_by before l)
      ∙ rw (sort_by-distinct before l, any-sort_by before (λ y. text_eq (key y) (key h)) l) refl

  pub take-distinct :
      (k : ℕ) (l : List A) → is_distinct_by l ≡ true → is_distinct_by (take k l) ≡ true
  unfolding is_distinct_by
  take-distinct zero l h = refl
  take-distinct (suc k) [] h = refl
  take-distinct (suc k) (x ∷ l) h =
      ground (arith, h, take-distinct k l, any-take (λ y. text_eq (key y) (key x)) k l)

module _ {ℓ} {V : Type ℓ} where
  -- a test of the entries of a map behind `m[k] = v`
  pub any-put :
      (p : Text × V → Bool) (k : Text) (v : V) (m : Map V)
      → any p m ≡ false
      → p (k, v) ≡ false
      → any p (put k v m) ≡ false
  unfolding any put
  any-put p k v [] h g = ground (arith, g)
  any-put p k v (e ∷ m) h g = ground (arith, h, g, any-put p k v m)

  pub any_key-put :
      (x k : Text) (v : V) (m : Map V)
      → any (λ e. text_eq e.0 x) (put k v m) ≡ (any (λ e. text_eq e.0 x) m || text_eq k x)
  unfolding any put
  any_key-put x k v [] = ground arith
  any_key-put x k v (e ∷ m) = ground (
    arith,
    any_key-put x k v m,
    λ (h : text_eq k e.0 ≡ true). ap (λ a. text_eq a x) (text_eq→eq k e.0 h),
  )

  pub put-distinct :
      (k : Text) (v : V) (m : Map V)
      → is_distinct_by (λ (e : Text × V). e.0) m ≡ true
      → is_distinct_by (λ (e : Text × V). e.0) (put k v m) ≡ true
  unfolding is_distinct_by put any
  put-distinct k v [] h = refl
  put-distinct k v (e ∷ m) h = elim (Bool-cases (text_eq k e.0)) [
    | inl b ↦
        rw (put, b)
          (ground
            (arith, h, ap (λ a. any (λ (x : Text × V). text_eq x.0 a) m) (text_eq→eq k e.0 b)))
    | inr b ↦ rw (put, b) (ground (arith, h, b, put-distinct k v m, any_key-put e.0 k v m))
  ]
