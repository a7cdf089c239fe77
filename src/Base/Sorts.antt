-- ===== src/Base/Sorts.antt =====
-- `slices.SortFunc` with a comparison that is negative exactly where `before` holds.
use Prim.Native.Nat.{ℕ, zero, suc}
use mathlib.Core.Path.{◌≡◌, refl, ap, ◌∙◌}
use mathlib.Core.List.{List, [], ◌∷◌}
use mathlib.Core.Bool.{Bool, true, false, not, ◌&&◌, ◌||◌}
use native.Mathlib.Omega.{arith}
use go_rag_agent.Base.Tests.{if◌then◌else◌}
use go_rag_agent.Base.Strings.{Text}
use go_rag_agent.Base.Paths.{text_lt}
use go_rag_agent.Base.Lists.{length, take, drop, any}

module _ {ℓ} {A : Type ℓ} where
  pub any-drop : (p : A → Bool) (k : ℕ) (l : List A) → any p l ≡ false → any p (drop k l) ≡ false
  unfolding any
  any-drop p zero l h = h
  any-drop p (suc k) [] h = h
  any-drop p (suc k) (x ∷ l) h = any-drop p k l (ground (arith, h))

  pub any-take : (p : A → Bool) (k : ℕ) (l : List A) → any p l ≡ false → any p (take k l) ≡ false
  unfolding any
  any-take p zero l h = refl
  any-take p (suc k) [] h = h
  any-take p (suc k) (x ∷ l) h = ground (arith, h, any-take p k l)

module _ {ℓ} {A : Type ℓ} (before : A → A → Bool) where
  unfoldable pub insert_by : A → List A → List A
  insert_by h [] = h ∷ []
  insert_by h (x ∷ l) = let rest = insert_by h l in if before x h then x ∷ rest else h ∷ x ∷ l

  unfoldable pub sort_by : List A → List A
  unfolding insert_by
  sort_by [] = []
  sort_by (h ∷ l) = insert_by h (sort_by l)

  -- What the sort needs of the comparison: it is a strict order, and incomparable is transitive.
  pub record IsOrder : Type ℓ where
    pub asym : (a b : A) → before a b ≡ true → before b a ≡ false
    pub cotrans : (a b c : A) → before a b ≡ false → before b c ≡ false → before a c ≡ false

  -- no element of the list goes before one in front of it
  unfoldable pub is_sorted : List A → Bool
  unfolding any
  is_sorted [] = true
  is_sorted (x ∷ l) = not (any (λ y. before y x) l) && is_sorted l

  -- none of the first elements goes before one of the others
  unfoldable pub none_before : List A → List A → Bool
  unfolding any
  none_before out [] = true
  none_before out (x ∷ l) = not (any (λ y. before y x) out) && none_before out l

  pub any-insert_by : (p : A → Bool) (h : A) (l : List A) → any p (insert_by h l) ≡ (p h || any p l)
  unfolding any insert_by
  any-insert_by p h [] = refl
  any-insert_by p h (x ∷ l) = ground (arith, any-insert_by p h l)

  pub any-sort_by : (p : A → Bool) (l : List A) → any p (sort_by l) ≡ any p l
  unfolding any sort_by
  any-sort_by p [] = refl
  any-sort_by p (h ∷ l) = any-insert_by p h (sort_by l) ∙ ap (λ b. p h || b) (any-sort_by p l)

  length-insert_by : (h : A) (l : List A) → length (insert_by h l) ≡ suc (length l)
  unfolding insert_by
  length-insert_by h [] = refl
  length-insert_by h (x ∷ l) = ground (arith, length-insert_by h l)

  pub length-sort_by : (l : List A) → length (sort_by l) ≡ length l
  unfolding sort_by
  length-sort_by [] = refl
  length-sort_by (h ∷ l) = length-insert_by h (sort_by l) ∙ ap suc (length-sort_by l)

  none_before_trans :
      IsOrder
      → (x h : A) (l : List A) → any (λ y. before y x) l ≡ false
      → before x h ≡ false
      → any (λ y. before y h) l ≡ false
  unfolding any
  none_before_trans order x h [] e g = refl
  none_before_trans order x h (y ∷ l) e g =
      ground (arith, e, g, none_before_trans order x h l, order.cotrans y x h)

  insert_by-sorted :
      IsOrder → (h : A) (l : List A) → is_sorted l ≡ true → is_sorted (insert_by h l) ≡ true
  unfolding is_sorted insert_by any
  insert_by-sorted order h [] e = refl
  insert_by-sorted order h (x ∷ l) e = ground (
    arith,
    e,
    insert_by-sorted order h l,
    any-insert_by (λ y. before y x) h l,
    order.asym x h,
    none_before_trans order x h l,
  )

  pub sort_by-sorted : IsOrder → (l : List A) → is_sorted (sort_by l) ≡ true
  unfolding sort_by is_sorted
  sort_by-sorted order [] = refl
  sort_by-sorted order (h ∷ l) = insert_by-sorted order h (sort_by l) (sort_by-sorted order l)

  pub take-sorted : (k : ℕ) (l : List A) → is_sorted l ≡ true → is_sorted (take k l) ≡ true
  unfolding is_sorted
  take-sorted zero l h = refl
  take-sorted (suc k) [] h = refl
  take-sorted (suc k) (x ∷ l) h = ground (arith, h, take-sorted k l, any-take (λ y. before y x) k l)

  pub take-none_before :
      (k : ℕ) (l : List A) → is_sorted l ≡ true → none_before (drop k l) (take k l) ≡ true
  unfolding is_sorted none_before
  take-none_before zero l h = refl
  take-none_before (suc k) [] h = refl
  take-none_before (suc k) (x ∷ l) h =
      ground (arith, h, take-none_before k l, any-drop (λ y. before y x) k l)

module _ {ℓ} {A : Type ℓ} where
  -- two comparisons, the second one where the first does not tell
  abbrev pub lex : (A → A → Bool) → (A → A → Bool) → A → A → Bool
  lex first second a b = if first a b then true else if first b a then false else second a b

  pub lex-IsOrder :
      (first second : A → A → Bool) → IsOrder first → IsOrder second → IsOrder (lex first second)
  lex-IsOrder first second p q = record {
    asym = λ a b h. ground (arith, h, p.asym a b, p.asym b a, q.asym a b);
    cotrans = λ a b c h g. ground (
      arith,
      h,
      g,
      p.cotrans a b c,
      p.cotrans b a c,
      p.cotrans a c b,
      p.cotrans c b a,
      p.cotrans b c a,
      p.cotrans c a b,
      q.cotrans a b c,
    );
  }

  pub flip-IsOrder : (before : A → A → Bool) → IsOrder before → IsOrder (λ a b. before b a)
  flip-IsOrder before p = record {
    asym = λ a b h. p.asym b a h;
    cotrans = λ a b c h g. p.cotrans c b a g h;
  }

  pub on-IsOrder {κ} :
      {B : Type κ} (before : A → A → Bool) (f : B → A)
      → IsOrder before
      → IsOrder (λ a b. before (f a) (f b))
  on-IsOrder before f p = record {
    asym = λ a b h. p.asym (f a) (f b) h;
    cotrans = λ a b c h g. p.cotrans (f a) (f b) (f c) h g;
  }

text_lt_asym : (a b : Text) → text_lt a b ≡ true → text_lt b a ≡ false
unfolding text_lt
text_lt_asym [] [] h = absurd (ground arith)
text_lt_asym [] (y ∷ b) h = refl
text_lt_asym (x ∷ a) [] h = absurd (ground arith)
text_lt_asym (x ∷ a) (y ∷ b) h = ground (arith, text_lt_asym a b)

text_lt_cotrans : (a b c : Text) → text_lt a b ≡ false → text_lt b c ≡ false → text_lt a c ≡ false
unfolding text_lt
text_lt_cotrans [] [] c h g = g
text_lt_cotrans [] (y ∷ b) c h g = absurd (ground arith)
text_lt_cotrans (x ∷ a) b [] h g = refl
text_lt_cotrans (x ∷ a) [] (z ∷ c) h g = absurd (ground arith)
text_lt_cotrans (x ∷ a) (y ∷ b) (z ∷ c) h g = ground (arith, text_lt_cotrans a b c)

pub text_lt-IsOrder : IsOrder text_lt
text_lt-IsOrder = record { asym = text_lt_asym; cotrans = text_lt_cotrans }
