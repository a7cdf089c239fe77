-- ===== src/Rag/Rewrite.antt =====
-- internal/rag/rewrite.go: a question that refers to an earlier one is put behind it. The tables of
-- package unicode are an argument.
use go_rag_agent.Base.{
  ℕ, Bool, true, false, not, ◌≡◌, ◌||◌, List, [], ◌∷◌, ◌++◌, reverse, if◌then◌else◌, Bool-cases,
  Text, codes, is_empty, is_space, any, text_eq, trim_space, fields, fields_func, join, inl, inr,
  refl, arith,
}

pub record RuneTables : Type 0 where
  pub to_lower : Text → Text
  pub is_punct : ℕ → Bool

unfoldable pub normalize_query_text : Text → Text
normalize_query_text input = join (codes " ") (fields (trim_space input))

unfoldable pub words_of : RuneTables → Text → List Text
words_of u text = fields_func (λ r. is_space r || u.is_punct r) text

-- `_, ok := set[word]`
unfoldable pub is_one_of : List Text → Text → Bool
is_one_of set word = any (text_eq word) set

abbrev pub pronouns : List Text
pronouns = fields (codes "it they them he she him her former latter")

abbrev pub demonstratives : List Text
demonstratives = fields (codes "this that these those")

abbrev pub pronoun_followers : List Text
pronoun_followers =
    fields (codes "about is are was were am be been being do does did can could will would should ")
    ++ fields (codes "may might must has have had one ones to for of with in on at as")

abbrev pub non_informative : List Text
non_informative = fields (codes "tell me more go on continue details what about please the a an")

abbrev pub ambiguous_phrases : List Text
ambiguous_phrases =
    codes "tell me more" ∷ codes "go on" ∷ codes "continue" ∷ codes "more details" ∷ []

-- the words behind a demonstrative
unfoldable pub is_demonstrative_pronoun_usage : List Text → Bool
unfolding is_one_of
is_demonstrative_pronoun_usage [] = true
is_demonstrative_pronoun_usage (next ∷ words) = is_one_of pronoun_followers next

unfoldable pub has_reference : List Text → Bool
unfolding is_demonstrative_pronoun_usage
has_reference [] = false
has_reference (word ∷ words) =
    let rest = has_reference words in
    if is_one_of pronouns word
    then true
    else if is_one_of demonstratives word
    then (if is_demonstrative_pronoun_usage words then true else rest)
    else rest

unfoldable pub looks_referential : RuneTables → Text → Bool
unfolding words_of has_reference
looks_referential u query = has_reference (words_of u (u.to_lower query))

unfoldable pub is_concrete_history_item : RuneTables → Text → Bool
unfolding looks_referential
is_concrete_history_item u item =
    let lower_item = u.to_lower item in
    if looks_referential u lower_item
    then false
    else if is_one_of ambiguous_phrases lower_item
    then false
    else any (λ word. not (is_one_of non_informative word)) (words_of u lower_item)

-- whether an earlier question can stand for what the query refers to
unfoldable pub is_usable : RuneTables → Text → Bool
unfolding is_concrete_history_item normalize_query_text
is_usable u h =
    let item = normalize_query_text h in
    if is_empty item then false else is_concrete_history_item u item

-- the loop over `slices.Backward(history)`: the last question first
unfoldable pub rewrite_loop : RuneTables → Text → List Text → Text
unfolding is_usable
rewrite_loop u query [] = query
rewrite_loop u query (h ∷ history) =
    let rest = rewrite_loop u query history in
    if is_usable u h then normalize_query_text h ++ codes " " ++ query else rest

unfoldable pub rewrite_follow_up : RuneTables → Text → List Text → Text
unfolding rewrite_loop looks_referential
rewrite_follow_up u query history =
    let normalized = normalize_query_text query in
    if is_empty normalized
    then []
    else if not (looks_referential u normalized)
    then normalized
    else rewrite_loop u normalized (reverse history)

-- What a query becomes, given the earlier ones, the latest first: itself, where it does not refer to
-- another or none of them can be used, and else the latest that can be used and the query.
pub data IsRewrite (u : RuneTables) (query : Text) : List Text → Text → Type 0 where
  independent :
      (latest : List Text) → looks_referential u query ≡ false → IsRewrite u query latest query
  unresolved :
      (latest : List Text) → any (is_usable u) latest ≡ false → IsRewrite u query latest query
  resolved :
      (newer older : List Text) (h : Text)
      → any (is_usable u) newer ≡ false
      → is_usable u h ≡ true
      → IsRewrite u query (newer ++ h ∷ older) (normalize_query_text h ++ codes " " ++ query)

newer-IsRewrite :
    (u : RuneTables) (query h : Text) (latest : List Text) (out : Text)
    → is_usable u h ≡ false
    → looks_referential u query ≡ true
    → IsRewrite u query latest out
    → IsRewrite u query (h ∷ latest) out
unfolding any
newer-IsRewrite u query h latest out f r (independent l e) = absurd (ground (arith, r, e))
newer-IsRewrite u query h latest out f r (unresolved l e) = unresolved (h ∷ l) (rw (f, e) refl)
newer-IsRewrite u query h latest out f r (resolved newer older g e t) =
    resolved (h ∷ newer) older g (rw (f, e) refl) t

loop-IsRewrite :
    (u : RuneTables) (query : Text) (latest : List Text)
    → looks_referential u query ≡ true
    → IsRewrite u query latest (rewrite_loop u query latest)
unfolding rewrite_loop any
loop-IsRewrite u query [] r = unresolved [] refl
loop-IsRewrite u query (h ∷ latest) r = elim (Bool-cases (is_usable u h)) [
  | inl e ↦ rw e (resolved [] latest h refl e)
  | inr e ↦ rw e (newer-IsRewrite u query h latest _ e r (loop-IsRewrite u query latest r))
]

-- A query that is not blank becomes, once its spaces are normalized, itself where it does not refer to
-- an earlier one or none of these can be used, and else the latest one that can be used, followed by
-- the query.
pub rewrite_follow_up-IsRewrite :
    (u : RuneTables) (query : Text) (history : List Text)
    → is_empty (normalize_query_text query) ≡ false
    → IsRewrite u (normalize_query_text query) (reverse history) (rewrite_follow_up u query history)
unfolding rewrite_follow_up
rewrite_follow_up-IsRewrite u query history h =
    elim (Bool-cases (looks_referential u (normalize_query_text query))) [
      | inl e ↦ rw (h, e) (loop-IsRewrite u (normalize_query_text query) (reverse history) e)
      | inr e ↦ rw (h, e) (independent (reverse history) e)
    ]
