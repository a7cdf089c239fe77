-- ===== src/Rag/Context/Budget.antt =====
-- The context keeps to its limit, and names each chunk once.
use go_rag_agent.Base.{
  ℕ, ◌+◌, ◌-◌, ◌≤◌, ◌≡◌, refl, sym, ap, subst, Bool, true, false, List, [], ◌∷◌, ◌++◌, map, reverse,
  arith, ltb, leb, ℤ, to_nat, length, take, is_empty, Text, text_eq→eq, text_eq_refl, ◌&&◌, ◌⊎◌,
  take_of_length-le, Bool-cases, inl, inr, length-append,
}
use go_rag_agent.Rag.Chunker.{Chunk}
use go_rag_agent.Rag.Context.{
  Loop, Context, ok, is_seen, prefix_of, separator, next_part, keep, assemble_loop, empty_loop,
  finish, assemble_context,
}

-- A rule for the loop: what the two changes of the variables keep, the loop keeps.
module _ {ℓ} (P : Loop → Type ℓ) (max_chars : ℕ)
    (on_seen : (c : Chunk) (l : Loop) → P l → P (record l { seen = c.chunk_id ∷ l.seen }))
    (on_keep : (c : Chunk) (l : Loop)
      → P l
      → is_seen c.chunk_id l.seen ≡ false
      → let l' = record l { seen = c.chunk_id ∷ l.seen } in
        let next = next_part max_chars c l' in
        l.count + length next ≤ max_chars → P (keep c next l')) where
  assemble_loop-rule : (cs : List Chunk) (l : Loop) → P l → P (assemble_loop max_chars cs l)
  unfolding assemble_loop
  assemble_loop-rule [] l p = p
  assemble_loop-rule (c ∷ cs) l p =
      let l' = record l { seen = c.chunk_id ∷ l.seen } in
      let next = next_part max_chars c l' in
      elim (Bool-cases (is_seen c.chunk_id l.seen)) [
        | inl old ↦ rw old (assemble_loop-rule cs l p)
        | inr new ↦ elim (Bool-cases (ltb max_chars (l.count + length next))) [
          | inl over ↦ elim (Bool-cases (is_empty l.kept)) [
            | inl first ↦ rw (new, over, first) (assemble_loop-rule cs l' (on_seen c l p))
            | inr later ↦ rw (new, over, later) (on_seen c l p)
          ]
          | inr fits ↦
              rw (new, fits)
                (assemble_loop-rule cs (keep c next l') (on_keep c l p new (ground arith)))
        ]
      ]

-- The text of the chunks kept, latest first: the first one may be cut, the others are whole.
abbrev pub Renders : List Chunk → Text → Type 0
Renders [] t = t ≡ []
Renders (c ∷ []) t = (n : ℕ) × (t ≡ prefix_of c ++ take n c.text)
Renders (c ∷ d ∷ ks) t =
    (u : Text) × Renders (d ∷ ks) u × (t ≡ u ++ (10 ∷ 10 ∷ (prefix_of c ++ c.text)))

-- The identifiers of the chunks kept differ.
abbrev pub Distinct : List Chunk → Type 0
Distinct [] = Unit
Distinct (c ∷ ks) = (is_seen c.chunk_id (map (λ k. k.chunk_id) ks) ≡ false) × Distinct ks

abbrev pub AllSeen : List Text → List Chunk → Type 0
AllSeen seen [] = Unit
AllSeen seen (c ∷ ks) = (is_seen c.chunk_id seen ≡ true) × AllSeen seen ks

pub record Inv (max_chars : ℕ) (l : Loop) : Type 0 where
  pub counted : l.count ≡ length l.builder
  pub within : l.count ≤ max_chars
  pub rendered : Renders l.kept l.builder
  pub known : AllSeen l.seen l.kept
  pub distinct : Distinct l.kept

AllSeen-cons :
    (id : Text) (seen : List Text) (ks : List Chunk) → AllSeen seen ks → AllSeen (id ∷ seen) ks
unfolding is_seen
AllSeen-cons id seen [] a = tt
AllSeen-cons id seen (c ∷ ks) a = (ground arith, AllSeen-cons id seen ks a.1)

is_seen-kept :
    (id : Text) (seen : List Text) (ks : List Chunk)
    → AllSeen seen ks
    → is_seen id seen ≡ false
    → is_seen id (map (λ k. k.chunk_id) ks) ≡ false
unfolding is_seen
is_seen-kept id seen [] a h = refl
is_seen-kept id seen (c ∷ ks) a h =
    ground (arith, text_eq→eq c.chunk_id id, is_seen-kept id seen ks a.1 h)

is_seen_self : (id : Text) (seen : List Text) → is_seen id (id ∷ seen) ≡ true
unfolding is_seen
is_seen_self id seen = ground (arith, text_eq_refl id)

first_of_cut : (a b c : Bool) → (a && (b && c)) ≡ true → b ≡ true
first_of_cut a b c h = ground arith

take_all : (xs : Text) → take (length xs) xs ≡ xs
take_all xs = take_of_length-le (length xs) xs (omega arith)

separator-append : (u : Text) (x : ℕ) (xs : Text) → separator (u ++ x ∷ xs) ≡ 10 ∷ 10 ∷ []
separator-append [] x xs = refl
separator-append (y ∷ u) x xs = refl

separator-Renders :
    (c : Chunk) (ks : List Chunk) (t : Text) → Renders (c ∷ ks) t → separator t ≡ 10 ∷ 10 ∷ []
separator-Renders c [] t (n, e) = rw e
separator-Renders c (d ∷ ks) t (u, r, e) = rw e (separator-append u 10 _)

-- Whole, or, for the first chunk kept, cut.
next_part-cases :
    (max_chars : ℕ) (c : Chunk) (l : Loop)
    → (next_part max_chars c l ≡ separator l.builder ++ (prefix_of c ++ c.text))
      ⊎ ((n : ℕ) × (is_empty l.kept ≡ true)
          × (next_part max_chars c l ≡ (separator l.builder ++ prefix_of c) ++ take n c.text))
unfolding next_part
next_part-cases max_chars c l =
    let whole = separator l.builder ++ (prefix_of c ++ c.text) in
    let available = max_chars - length (separator l.builder ++ prefix_of c) in
    elim (Bool-cases
      (ltb max_chars (l.count + length whole) && (is_empty l.kept && ltb 0 available))) [
        | inl cut ↦ inr (available, first_of_cut _ _ _ cut, rw cut)
        | inr fits ↦ inl (rw fits)
      ]

Renders-next :
    (max_chars : ℕ) (c : Chunk) (l : Loop) (ks : List Chunk)
    → l.kept ≡ ks
    → Renders ks l.builder
    → Renders (c ∷ ks) (l.builder ++ next_part max_chars c l)
Renders-next max_chars c l [] e r = elim (next_part-cases max_chars c l) [
  | inl whole ↦ (length c.text, rw (whole, r, take_all c.text))
  | inr (n, _, cut) ↦ (n, rw (cut, r))
]
Renders-next max_chars c l (d ∷ ks) e r = elim (next_part-cases max_chars c l) [
  | inl whole ↦ (l.builder, r, rw (whole, separator-Renders d ks l.builder r))
  | inr (n, first, _) ↦ absurd (not_first first (rw e))
]
  where
    not_first : is_empty l.kept ≡ true → is_empty l.kept ≡ false → ⊥
    not_first a b = cc

seen-Inv :
    (max_chars : ℕ) (c : Chunk) (l : Loop)
    → Inv max_chars l
    → Inv max_chars (record l { seen = c.chunk_id ∷ l.seen })
seen-Inv max_chars c l v = record {
  counted = v.counted;
  within = v.within;
  rendered = v.rendered;
  known = AllSeen-cons c.chunk_id l.seen l.kept v.known;
  distinct = v.distinct;
}

keep-Inv :
    (max_chars : ℕ) (c : Chunk) (l : Loop)
    → Inv max_chars l
    → is_seen c.chunk_id l.seen ≡ false
    → let l' = record l { seen = c.chunk_id ∷ l.seen } in
      let next = next_part max_chars c l' in
      l.count + length next ≤ max_chars → Inv max_chars (keep c next l')
unfolding keep
keep-Inv max_chars c l v new h = record {
  counted = omega (
    arith,
    v.counted,
    length-append l.builder (next_part max_chars c (record l { seen = c.chunk_id ∷ l.seen })),
  );
  within = h;
  rendered =
      Renders-next max_chars c (record l { seen = c.chunk_id ∷ l.seen }) l.kept refl v.rendered;
  known = (is_seen_self c.chunk_id l.seen, AllSeen-cons c.chunk_id l.seen l.kept v.known);
  distinct = (is_seen-kept c.chunk_id l.seen l.kept v.known new, v.distinct);
}

assemble_loop-Inv :
    (max_chars : ℕ) (cs : List Chunk) (l : Loop)
    → Inv max_chars l
    → Inv max_chars (assemble_loop max_chars cs l)
assemble_loop-Inv max_chars =
    assemble_loop-rule (Inv max_chars) max_chars (seen-Inv max_chars) (keep-Inv max_chars)

empty-Inv : (max_chars : ℕ) → Inv max_chars empty_loop
empty-Inv max_chars = record {
  counted = refl;
  within = omega arith;
  rendered = refl;
  known = tt;
  distinct = tt;
}

finish-ok :
    (l : Loop) {ctx : Context}
    → finish l ≡ ok ctx
    → (ctx.kept ≡ reverse l.kept) × (ctx.text ≡ l.builder) × (is_empty l.kept ≡ false)
unfolding finish
finish-ok l h = ground arith

-- A context that is assembled has at most `maxChars` runes; it is the text of the chunks kept, each
-- named once, in order and separated by blank lines, where only the first may be cut short.
pub assemble_context-ok :
    (chunks : List Chunk) (max_chars : ℤ) {ctx : Context}
    → assemble_context chunks max_chars ≡ ok ctx
    → (length ctx.text ≤ to_nat max_chars)
      × (ks : List Chunk) × (ctx.kept ≡ reverse ks)
      × (is_empty ks ≡ false)
      × Renders ks ctx.text
      × Distinct ks
unfolding assemble_context
assemble_context-ok chunks max_chars {ctx} h = elim (Bool-cases (leb (to_nat max_chars) 0)) [
  | inl e ↦ ground arith
  | inr e ↦
      let l = assemble_loop (to_nat max_chars) chunks empty_loop in
      let v =
        assemble_loop-Inv (to_nat max_chars) chunks empty_loop (empty-Inv (to_nat max_chars)) in
      let (kept, text, some_kept) = finish-ok l (rw e at h) in
      (
        omega (arith, v.counted, v.within, ap length text),
        l.kept,
        kept,
        some_kept,
        subst (Renders l.kept) (sym text) v.rendered,
        v.distinct,
      )
]
