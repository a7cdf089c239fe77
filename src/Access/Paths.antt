-- ===== src/Access/Paths.antt =====
-- What the boundary on source paths promises: the limits of the configuration hold for every chunk
-- that passes a filter which `apply_to_retrieval` made, whatever the caller and the hook asked for.
use go_rag_agent.Base.{
  Bool, true, false, not, ◌&&◌, ◌||◌, List, [], ◌∷◌, ◌≡◌, refl, sym, ap, ◌∙◌, Text, text_eq,
  text_eq→eq, trim_space, trim_space_idem, is_empty, any, filter, ◌⊎◌, inl, inr, arith, clean,
  any-compact, any-sort_texts, sort_texts, Option, none, some,
}
use go_rag_agent.Access.{
  AccessBoundary, PolicyRequest, AccessPolicy, no_match_source, normalize_strings,
  normalize_boundary, apply_static_to_root_filter, constrain, after_policy, apply_to_retrieval,
}
use go_rag_agent.Access.Filter.{SearchFilter, clean_paths, normalize_paths}

-- a test of an element of the cleaned list is one of an element that is not blank
abbrev pub on_clean : (Text → Bool) → Text → Bool
on_clean p path = not (is_empty (trim_space path)) && p (clean (trim_space path))

any-clean_paths : (p : Text → Bool) (l : List Text) → any p (clean_paths l) ≡ any (on_clean p) l
unfolding any clean_paths
any-clean_paths p [] = refl
any-clean_paths p (x ∷ l) = ground (arith, any-clean_paths p l)

pub any-normalize_paths :
    (p : Text → Bool) (l : List Text) → any p (normalize_paths l) ≡ any (on_clean p) l
unfolding normalize_paths
any-normalize_paths p l =
    any-compact p (sort_texts (clean_paths l))
    ∙ (any-sort_texts p (clean_paths l) ∙ any-clean_paths p l)

-- a list one of whose elements passes a test is not empty
any-nonempty : (p : Text → Bool) (l : List Text) → any p l ≡ true → is_empty l ≡ false
unfolding any
any-nonempty p [] h = sym h
any-nonempty p (x ∷ l) h = refl

pub any_elem :
    (p : Text → Bool) (x : Text) (l : List Text)
    → any (text_eq x) l ≡ true
    → p x ≡ true
    → any p l ≡ true
unfolding any
any_elem p x [] h g = absurd (ground arith)
any_elem p x (y ∷ l) h g = ground (arith, any_elem p x l, text_eq→eq x y)

abbrev is_blank : Text → Bool
is_blank path = is_empty (trim_space path)

pub normalize_strings-blank : (l : List Text) → any is_blank (normalize_strings l) ≡ false
unfolding any normalize_strings
normalize_strings-blank [] = refl
normalize_strings-blank (x ∷ l) =
    ground (arith, normalize_strings-blank l, ap is_empty (trim_space_idem x))

first_nonblank :
    (l : List Text)
    → is_empty l ≡ false
    → any is_blank l ≡ false
    → any (on_clean (λ x. true)) l ≡ true
unfolding any
first_nonblank [] h g = absurd (ground arith)
first_nonblank (x ∷ l) h g = ground arith

pub nonblank-kept :
    (l : List Text)
    → is_empty l ≡ false
    → any is_blank l ≡ false
    → is_empty (normalize_paths l) ≡ false
nonblank-kept l h g =
    any-nonempty (λ x. true) (normalize_paths l)
      (any-normalize_paths (λ x. true) l ∙ first_nonblank l h g)

after_policy-static :
    (c : AccessBoundary) (r : Text ⊎ SearchFilter) (f : SearchFilter)
    → after_policy c r ≡ inr f
    → (g : SearchFilter) × (apply_static_to_root_filter c g ≡ f)
unfolding after_policy
after_policy-static c (inl err) f h = absurd (ground arith)
after_policy-static c (inr next) f h = (next, ground arith)

constrain-static :
    (c : AccessBoundary) (policy : Option AccessPolicy) (req : PolicyRequest) (f : SearchFilter)
    → constrain c policy req (apply_static_to_root_filter c req.filter) ≡ inr f
    → (g : SearchFilter) × (apply_static_to_root_filter c g ≡ f)
unfolding constrain
constrain-static c none req f h = (req.filter, ground arith)
constrain-static c (some policy) req f h =
    after_policy-static c
      (policy.constrain_retrieval
        (record req { filter = apply_static_to_root_filter c req.filter }))
      f h

-- A filter that the boundary makes is the static limits over some filter.
pub apply_to_retrieval-static :
    (c : AccessBoundary) (req : PolicyRequest) (f : SearchFilter)
    → apply_to_retrieval c req ≡ inr f
    → (g : SearchFilter) × (apply_static_to_root_filter (normalize_boundary c) g ≡ f)
unfolding apply_to_retrieval
apply_to_retrieval-static c req f h =
    constrain-static (normalize_boundary c) (normalize_boundary c).policy req f h

-- the chunk's path is one of the allowed, both cleaned, or the one that stands for no match
unfoldable pub permits_path : AccessBoundary → Text → Bool
permits_path c path =
    any (on_clean (text_eq (clean path))) c.allowed_source_paths
    || on_clean (text_eq (clean path)) no_match_source
