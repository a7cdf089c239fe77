-- ===== src/Base/Maps.antt =====
-- Go maps with string keys, as lists of entries; ranging over a map visits the entries in the order
-- of the list.
use mathlib.Core.Path.{◌≡◌, refl, ap}
use mathlib.Core.List.{List, [], ◌∷◌, map}
use mathlib.Core.Bool.{true, false}
use mathlib.Core.Option.{Option, none, some}
use native.Mathlib.Omega.{arith}
use go_rag_agent.Base.Tests.{if◌then◌else◌}
use go_rag_agent.Base.Strings.{Text, text_eq, text_eq_refl, text_eq→eq}

abbrev pub Map {ℓ} : Type ℓ → Type ℓ
Map V = List (Text × V)

module _ {ℓ} {V : Type ℓ} where
  abbrev pub keys : Map V → List Text
  keys m = map (λ e. e.0) m

  -- `m[key]` with its second result
  unfoldable pub find : Text → Map V → Option V
  find k [] = none
  find k (e ∷ m) = if text_eq k e.0 then some e.1 else find k m

  -- `m[key] = value`
  unfoldable pub put : Text → V → Map V → Map V
  put k v [] = (k, v) ∷ []
  put k v (e ∷ m) = if text_eq k e.0 then (k, v) ∷ m else e ∷ put k v m

  -- `delete(m, key)`
  unfoldable pub delete : Text → Map V → Map V
  delete k [] = []
  delete k (e ∷ m) = let rest = delete k m in if text_eq k e.0 then rest else e ∷ rest

pub text_eq_sym : (s t : Text) → text_eq s t ≡ false → text_eq t s ≡ false
text_eq_sym s t h = ground (arith, text_eq→eq t s, text_eq_refl s)

text_eq_congr : (q k j : Text) → text_eq k j ≡ true → text_eq q k ≡ text_eq q j
text_eq_congr q k j h = ap (text_eq q) (text_eq→eq k j h)

module _ {ℓ} {V : Type ℓ} where
  pub find-put : (k : Text) (v : V) (m : Map V) → find k (put k v m) ≡ some v
  unfolding find put
  find-put k v [] = ground (arith, text_eq_refl k)
  find-put k v (e ∷ m) = ground (arith, text_eq_refl k, find-put k v m)

  pub find-put_ne :
      (q k : Text) (v : V) (m : Map V) → text_eq q k ≡ false → find q (put k v m) ≡ find q m
  unfolding find put
  find-put_ne q k v [] h = ground arith
  find-put_ne q k v (e ∷ m) h = ground (arith, find-put_ne q k v m h, text_eq_congr q k e.0)

  pub find-delete : (k : Text) (m : Map V) → find k (delete k m) ≡ none
  unfolding find delete
  find-delete k [] = refl
  find-delete k (e ∷ m) = ground (arith, find-delete k m)

  pub find-delete_ne :
      (q k : Text) (m : Map V) → text_eq q k ≡ false → find q (delete k m) ≡ find q m
  unfolding find delete
  find-delete_ne q k [] h = refl
  find-delete_ne q k (e ∷ m) h = ground (arith, find-delete_ne q k m h, text_eq_congr q k e.0)
