-- ===== src/Base/Paths.antt =====
-- `filepath.Clean` of the standard library, on systems whose separator is the slash, and the sorted
-- slices of package slices.
use Prim.Native.Nat.{ℕ}
use mathlib.Core.Path.{◌≡◌, refl, ap}
use mathlib.Core.List.{List, [], ◌∷◌, ◌++◌, reverse}
use mathlib.Core.Bool.{Bool, true, false, not, ◌&&◌, ◌||◌}
use native.Mathlib.Omega.{arith}
use go_rag_agent.Base.Tests.{◌==◌, ltb, if◌then◌else◌}
use go_rag_agent.Base.Lists.{is_empty, any}
use go_rag_agent.Base.Strings.{Text, codes, text_eq, text_eq→eq, has_prefix}

abbrev pub slash : ℕ
slash = 47

abbrev dot : Text
dot = codes "."

abbrev dots : Text
dots = codes ".."

-- the elements of a path, the text read so far reversed
unfoldable elements : Text → Text → List Text
elements seen [] = reverse seen ∷ []
elements seen (c ∷ s) =
    let next = elements [] s in
    let more = elements (c ∷ seen) s in if c == slash then reverse seen ∷ next else more

-- one element on the stack of those kept, the last one first
unfoldable push_element : Bool → List Text → Text → List Text
push_element rooted [] e = if text_eq e dots && rooted then [] else e ∷ []
push_element rooted (top ∷ stack) e =
    if text_eq e dots && not (text_eq top dots) then stack else e ∷ top ∷ stack

unfoldable keep_elements : Bool → List Text → List Text → List Text
unfolding push_element
keep_elements rooted stack [] = stack
keep_elements rooted stack (e ∷ rest) =
    keep_elements rooted
      (if is_empty e || text_eq e dot then stack else push_element rooted stack e) rest

-- the elements joined by slashes, from the stack
unfoldable join_elements : Text → List Text → Text
join_elements out [] = out
join_elements out (e ∷ []) = e ++ out
join_elements out (e ∷ f ∷ stack) = join_elements (slash ∷ e ++ out) (f ∷ stack)

unfoldable pub is_rooted : Text → Bool
is_rooted [] = false
is_rooted (c ∷ s) = c == slash

-- `filepath.Clean`
unfoldable pub clean : Text → Text
unfolding elements keep_elements join_elements is_rooted
clean path =
    let body = join_elements [] (keep_elements (is_rooted path) [] (elements [] path)) in
    if is_rooted path then slash ∷ body else if is_empty body then dot else body

-- the order of strings, which is that of their code points
unfoldable pub text_lt : Text → Text → Bool
text_lt [] [] = false
text_lt [] (b ∷ t) = true
text_lt (a ∷ s) [] = false
text_lt (a ∷ s) (b ∷ t) = ltb a b || (a == b && text_lt s t)

unfoldable insert_text : Text → List Text → List Text
unfolding text_lt
insert_text x [] = x ∷ []
insert_text x (y ∷ l) = let rest = insert_text x l in if text_lt y x then y ∷ rest else x ∷ y ∷ l

-- `slices.Sort`
unfoldable pub sort_texts : List Text → List Text
unfolding insert_text
sort_texts [] = []
sort_texts (x ∷ l) = insert_text x (sort_texts l)

-- `slices.Compact`
unfoldable pub compact : List Text → List Text
compact [] = []
compact (x ∷ []) = x ∷ []
compact (x ∷ y ∷ l) = let rest = compact (y ∷ l) in if text_eq x y then rest else x ∷ rest

-- Neither sorting nor dropping repetitions changes which tests an element of the slice passes.
any-insert_text :
    (p : Text → Bool) (x : Text) (l : List Text) → any p (insert_text x l) ≡ (p x || any p l)
unfolding insert_text any
any-insert_text p x [] = refl
any-insert_text p x (y ∷ l) = ground (arith, any-insert_text p x l)

pub any-sort_texts : (p : Text → Bool) (l : List Text) → any p (sort_texts l) ≡ any p l
unfolding sort_texts any
any-sort_texts p [] = refl
any-sort_texts p (x ∷ l) = rw (any-insert_text p x (sort_texts l), any-sort_texts p l)

pub any-compact : (p : Text → Bool) (l : List Text) → any p (compact l) ≡ any p l
unfolding compact any
any-compact p [] = refl
any-compact p (x ∷ []) = refl
any-compact p (x ∷ y ∷ l) =
    ground (arith, any-compact p (y ∷ l), λ (h : text_eq x y ≡ true). ap p (text_eq→eq x y h))

pub clean-rooted :
    (path : Text) → is_rooted path ≡ true → has_prefix (clean path) (slash ∷ []) ≡ true
unfolding clean has_prefix
clean-rooted path h = rw h refl

pub clean_root : clean (slash ∷ []) ≡ slash ∷ []
unfolding clean elements keep_elements push_element join_elements is_rooted text_eq
clean_root = refl
