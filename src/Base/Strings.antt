-- ===== src/Base/Strings.antt =====
-- Go strings as lists of code points, with the tests of package strings that the program uses.
use Prim.Native.Nat.{ℕ}
use Prim.Native.Char.{code}
use Prim.Native.String.{String}
use mathlib.Core.Path.{◌≡◌, refl, sym, ap, ◌∙◌}
use mathlib.Core.Logic.{◌↔◌, ◌⊎◌, inl, inr}
use mathlib.Core.List.{List, [], ◌∷◌, ◌++◌, reverse, reverse-cons, reverse-append, reverse-reverse}
use mathlib.Core.Bool.{Bool, true, false, ◌&&◌, ◌||◌}
use native.Mathlib.Omega.{arith}
use go_rag_agent.Base.Lists.{is_empty}
use go_rag_agent.Base.Tests.{◌==◌, leb, if◌then◌else◌, Bool-cases}

abbrev pub Text : Type 0
Text = List ℕ

abbrev pub codes : String → Text
codes String.[] = []
codes (String.◌∷◌ c s) = code c ∷ codes s

unfoldable pub text_eq : Text → Text → Bool
text_eq [] [] = true
text_eq [] (b ∷ t) = false
text_eq (a ∷ s) [] = false
text_eq (a ∷ s) (b ∷ t) = a == b && text_eq s t

-- `strings.HasPrefix(s, prefix)`
unfoldable pub has_prefix : Text → Text → Bool
has_prefix s [] = true
has_prefix [] (b ∷ t) = false
has_prefix (a ∷ s) (b ∷ t) = a == b && has_prefix s t

-- `strings.Contains(s, sub)`
unfoldable pub contains : Text → Text → Bool
unfolding has_prefix
contains [] sub = has_prefix [] sub
contains (a ∷ s) sub = has_prefix (a ∷ s) sub || contains s sub

-- `unicode.IsSpace`, over the Latin-1 range
unfoldable pub is_space : ℕ → Bool
is_space c = (leb 9 c && leb c 13) || c == 32 || c == 133 || c == 160

unfoldable pub trim_left : Text → Text
trim_left [] = []
trim_left (c ∷ s) = if is_space c then trim_left s else c ∷ s

-- `strings.TrimSpace`, for the spaces up to U+00FF
unfoldable pub trim_space : Text → Text
trim_space s = reverse (trim_left (reverse (trim_left s)))

-- the parts of a text between separators, the one read so far reversed
unfoldable parts_onto : (ℕ → Bool) → Text → Text → List Text
parts_onto is_separator part [] = if is_empty part then [] else reverse part ∷ []
parts_onto is_separator part (c ∷ s) =
    let next = parts_onto is_separator [] s in
    let more = parts_onto is_separator (c ∷ part) s in
    if is_separator c then (if is_empty part then next else reverse part ∷ next) else more

-- `strings.FieldsFunc(s, is_separator)`
unfoldable pub fields_func : (ℕ → Bool) → Text → List Text
unfolding parts_onto
fields_func is_separator s = parts_onto is_separator [] s

-- `strings.Fields`
unfoldable pub fields : Text → List Text
unfolding fields_func is_space
fields s = fields_func is_space s

-- `strings.Join(parts, separator)`
unfoldable pub join : Text → List Text → Text
join separator [] = []
join separator (part ∷ []) = part
join separator (part ∷ next ∷ parts) = part ++ separator ++ join separator (next ∷ parts)

-- a rune in front of the first of the lines
unfoldable push_rune : ℕ → List Text → List Text
push_rune c [] = (c ∷ []) ∷ []
push_rune c (line ∷ lines) = (c ∷ line) ∷ lines

-- `strings.Split(s, "\n")`
unfoldable pub split_lines : Text → List Text
unfolding push_rune
split_lines [] = [] ∷ []
split_lines (c ∷ s) = let rest = split_lines s in if c == 10 then [] ∷ rest else push_rune c rest

pub text_eq→eq : (s t : Text) → text_eq s t ≡ true → s ≡ t
unfolding text_eq
text_eq→eq [] [] h = refl
text_eq→eq [] (b ∷ t) h = ground arith
text_eq→eq (a ∷ s) [] h = ground arith
text_eq→eq (a ∷ s) (b ∷ t) h = ground (arith, text_eq→eq s t)

pub text_eq_refl : (s : Text) → text_eq s s ≡ true
unfolding text_eq
text_eq_refl [] = refl
text_eq_refl (a ∷ s) = ground (arith, text_eq_refl s)

pub text_eq_iff : (s t : Text) → (text_eq s t ≡ true) ↔ (s ≡ t)
text_eq_iff s t = (text_eq→eq s t, λ e. rw e (text_eq_refl t))

pub has_prefix-append : (s t : Text) → has_prefix (s ++ t) s ≡ true
unfolding has_prefix
has_prefix-append [] t = refl
has_prefix-append (a ∷ s) t = ground (arith, has_prefix-append s t)

trim_left-snoc :
    (l : Text) (x : ℕ) → is_space x ≡ false → trim_left (l ++ x ∷ []) ≡ trim_left l ++ x ∷ []
unfolding trim_left
trim_left-snoc [] x h = ground arith
trim_left-snoc (c ∷ l) x h = ground (arith, trim_left-snoc l x h)

trim_left-cases :
    (s : Text)
    → (trim_left s ≡ []) ⊎ ((x : ℕ) × (t : Text) × (trim_left s ≡ x ∷ t) × (is_space x ≡ false))
unfolding trim_left
trim_left-cases [] = inl refl
trim_left-cases (c ∷ s) = elim (Bool-cases (is_space c)) [
  | inl e ↦ rw e (trim_left-cases s)
  | inr e ↦ rw e (inr (c, s, refl, e))
]

trim_left-cons : (x : ℕ) (s : Text) → is_space x ≡ false → trim_left (x ∷ s) ≡ x ∷ s
unfolding trim_left
trim_left-cons x s h = rw h refl

abbrev trim_right : Text → Text
trim_right l = reverse (trim_left (reverse l))

trim_right-cons : (x : ℕ) (s : Text) → is_space x ≡ false → trim_right (x ∷ s) ≡ x ∷ trim_right s
trim_right-cons x s h =
    rw (reverse-cons x s, trim_left-snoc (reverse s) x h)
      (reverse-append (trim_left (reverse s)) (x ∷ []))

trim_left-nil : trim_left [] ≡ []
unfolding trim_left
trim_left-nil = refl

trim_left_idem : (s : Text) → trim_left (trim_left s) ≡ trim_left s
trim_left_idem s = elim (trim_left-cases s) [
  | inl e ↦ rw e trim_left-nil
  | inr (x, t, e, h) ↦ rw e (trim_left-cons x t h)
]

trim_right_idem : (s : Text) → trim_right (trim_right s) ≡ trim_right s
trim_right_idem s = rw (reverse-reverse (trim_left (reverse s)), trim_left_idem (reverse s)) refl

trim_left-trim_right : (s : Text) → trim_left (trim_right (trim_left s)) ≡ trim_right (trim_left s)
unfolding trim_left
trim_left-trim_right s = elim (trim_left-cases s) [
  | inl e ↦ rw e refl
  | inr (x, t, e, h) ↦ rw (e, trim_right-cons x t h) (trim_left-cons x (trim_right t) h)
]

pub trim_space_idem : (s : Text) → trim_space (trim_space s) ≡ trim_space s
unfolding trim_space
trim_space_idem s = ap trim_right (trim_left-trim_right s) ∙ trim_right_idem (trim_left s)

trim_left-append : (l t : Text) → trim_left l ≡ l → is_empty l ≡ false → trim_left (l ++ t) ≡ l ++ t
trim_left-append l t h g = elim (trim_left-cases l) [
  | inl e ↦ absurd (ground (arith, g, ap is_empty (sym h ∙ e)))
  | inr (y, w, e, hy) ↦ rw (sym h ∙ e) (trim_left-cons y (w ++ t) hy)
]

is_empty-snoc : (s : Text) (x : ℕ) → is_empty (s ++ x ∷ []) ≡ false
is_empty-snoc [] x = refl
is_empty-snoc (c ∷ s) x = refl

is_empty-reverse : (s : Text) → is_empty (reverse s) ≡ is_empty s
is_empty-reverse [] = refl
is_empty-reverse (c ∷ s) = rw (reverse-cons c s) (is_empty-snoc (reverse s) c)

trim_right-append :
    (p t : Text) → trim_right t ≡ t → is_empty t ≡ false → trim_right (p ++ t) ≡ p ++ t
trim_right-append p t h g =
    let fixed : trim_left (reverse t) ≡ reverse t =
      sym (reverse-reverse (trim_left (reverse t))) ∙ ap reverse h in
    rw
      (
        reverse-append p t,
        trim_left-append (reverse t) (reverse p) fixed (is_empty-reverse t ∙ g),
        sym (reverse-append p t),
      )
      (reverse-reverse (p ++ t))

-- A text that ends in a trimmed text, not empty, behind one that starts with no space is trimmed.
pub trim_space-append :
    (x : ℕ) (p s : Text)
    → is_space x ≡ false
    → is_empty (trim_space s) ≡ false
    → trim_space (x ∷ p ++ trim_space s) ≡ x ∷ p ++ trim_space s
unfolding trim_space
trim_space-append x p s hx hs =
    rw (trim_left-cons x (p ++ trim_right (trim_left s)) hx)
      (trim_right-append (x ∷ p) (trim_right (trim_left s)) (trim_right_idem (trim_left s)) hs)
