-- ===== src/Tools/Registered.antt =====
-- What a registry holds after its registrations, and where it finds a tool.
use go_rag_agent.Base.{
  Bool, true, false, not, ◌&&◌, ◌||◌, List, [], ◌∷◌, ◌++◌, ◌≡◌, refl, ap, ◌∙◌, Option, none, some,
  if◌then◌else◌, Text, text_eq, text_eq_refl, text_eq_sym, is_empty, any, map, Map, find, put,
  arith, Bool-cases, inl, inr,
}
use mathlib.Core.List.{append-nil, append_assoc}
use go_rag_agent.Tools.Registry.{
  Tool, ToolRegistry, register, register_all, new_tool_registry, registered_tools, is_some,
}

-- the tools that are not nil and have a name, the first of each name
unfoldable pub first_named : List Text → List (Option Tool) → List Tool
first_named seen [] = []
first_named seen (none ∷ ts) = first_named seen ts
first_named seen (some t ∷ ts) =
    let skipped = first_named seen ts in
    let kept = t ∷ first_named (seen ++ t.name ∷ []) ts in
    if is_empty t.name || any (text_eq t.name) seen then skipped else kept

unfoldable names : List Tool → List Text
names [] = []
names (t ∷ l) = t.name ∷ names l

unfoldable entries : List Tool → Map Tool
entries [] = []
entries (t ∷ l) = (t.name, t) ∷ entries l

abbrev of_tools : List Tool → ToolRegistry
of_tools l = record { tools = entries l; order = names l }

unfoldable is_distinct : List Text → Bool
is_distinct [] = true
is_distinct (n ∷ ns) = not (any (text_eq n) ns) && is_distinct ns

find-entries : (n : Text) (l : List Tool) → is_some (find n (entries l)) ≡ any (text_eq n) (names l)
unfolding find entries names any
find-entries n [] = refl
find-entries n (t ∷ l) = ground (arith, find-entries n l)

put-entries :
    (t : Tool) (l : List Tool)
    → any (text_eq t.name) (names l) ≡ false
    → put t.name t (entries l) ≡ entries (l ++ t ∷ [])
unfolding put entries names any
put-entries t [] h = refl
put-entries t (s ∷ l) h = ground (arith, put-entries t l)

names-snoc : (t : Tool) (l : List Tool) → names (l ++ t ∷ []) ≡ names l ++ t.name ∷ []
unfolding names
names-snoc t [] = refl
names-snoc t (s ∷ l) = ap (◌∷◌ s.name) (names-snoc t l)

any-snoc : (p : Text → Bool) (ns : List Text) (n : Text) → any p (ns ++ n ∷ []) ≡ (any p ns || p n)
unfolding any
any-snoc p [] n = ground arith
any-snoc p (m ∷ ns) n = ground (arith, any-snoc p ns n)

distinct-snoc :
    (n : Text) (ns : List Text)
    → is_distinct ns ≡ true
    → any (text_eq n) ns ≡ false
    → is_distinct (ns ++ n ∷ []) ≡ true
unfolding is_distinct any
distinct-snoc n [] d h = refl
distinct-snoc n (m ∷ ns) d h =
    ground (arith, distinct-snoc n ns, any-snoc (text_eq m) ns n, text_eq_sym n m)

register-fresh :
    (t : Tool) (l : List Tool)
    → (is_empty t.name || any (text_eq t.name) (names l)) ≡ false
    → (register (of_tools l) (some t)).0 ≡ of_tools (l ++ t ∷ [])
unfolding register
register-fresh t l h = ground (arith, find-entries t.name l, put-entries t l, names-snoc t l)

register-known :
    (t : Tool) (l : List Tool)
    → (is_empty t.name || any (text_eq t.name) (names l)) ≡ true
    → (register (of_tools l) (some t)).0 ≡ of_tools l
unfolding register
register-known t l h = ground (arith, find-entries t.name l)

register_all_lem :
    (l : List Tool) (ts : List (Option Tool))
    → is_distinct (names l) ≡ true
    → (register_all (of_tools l) ts ≡ of_tools (l ++ first_named (names l) ts))
      × (is_distinct (names (l ++ first_named (names l) ts)) ≡ true)
unfolding register_all first_named
register_all_lem l [] d = rw (append-nil l) (refl, d)
register_all_lem l (none ∷ ts) d = register_all_lem l ts d
register_all_lem l (some t ∷ ts) d =
    elim (Bool-cases (is_empty t.name || any (text_eq t.name) (names l))) [
      | inl e ↦ rw (register-known t l e, e) (register_all_lem l ts d)
      | inr e ↦
          rw
            (
              register-fresh t l e,
              e,
              ← names-snoc t l,
              ← append_assoc l (t ∷ []) (first_named (names (l ++ t ∷ [])) ts),
            )
            (register_all_lem (l ++ t ∷ []) ts
              (rw (names-snoc t l) (distinct-snoc t.name (names l) d (ground arith))))
    ]

skip-find :
    (n : Text) (t : Tool) (m : Map Tool) (ns : List Text)
    → any (text_eq n) ns ≡ false
    → map (λ k. find k ((n, t) ∷ m)) ns ≡ map (λ k. find k m) ns
unfolding find any
skip-find n t m [] h = refl
skip-find n t m (k ∷ ns) h =
    rw (text_eq_sym n k (ground arith)) (ap (◌∷◌ (find k m)) (skip-find n t m ns (ground arith)))

tools_lem :
    (l : List Tool) → is_distinct (names l) ≡ true → registered_tools (of_tools l) ≡ map some l
unfolding registered_tools names entries is_distinct find
tools_lem [] d = refl
tools_lem (t ∷ l) d = rw (text_eq_refl t.name) (
    ap (◌∷◌ (some t))
      (skip-find t.name t (entries l) (names l) (ground arith) ∙ tools_lem l (ground arith)))

-- A new registry lists, in their order, the tools given that are not nil and have a name, the first
-- of each name.
registered_tools-new :
    (ts : List (Option Tool))
    → registered_tools (new_tool_registry ts) ≡ map some (first_named [] ts)
unfolding new_tool_registry names entries is_distinct
registered_tools-new ts =
    let (e, d) = register_all_lem [] ts refl in
    ap registered_tools e ∙ tools_lem (first_named [] ts) d
