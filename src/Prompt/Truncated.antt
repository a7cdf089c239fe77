-- ===== src/Prompt/Truncated.antt =====
-- internal/graph/prompt_governance.go: the binary search of `truncateTextToTokens`, for a tokenizer of
-- which nothing is assumed.
use go_rag_agent.Base.{
  ℕ, zero, suc, ◌+◌, ◌-◌, ◌/◌, ◌≤◌, ◌<◌, ◌≡◌, refl, sym, subst, ◌⊎◌, inl, inr, [], ◌∷◌, leb, ltb,
  Bool-cases, le-or-lt, ℤ, to_nat, length, take, take_of_length-le, Text, trim_space, trim_left,
  arith,
}
use go_rag_agent.Prompt.{
  Tokenizer, estimate_text_tokens, is_blank, Search, search_step, search_prefix, longest_prefix,
  truncate_text_to_tokens,
}

-- What a text is cut to: nothing, where there is no budget; itself, where it fits; else, trimmed, a
-- prefix that fits and that does not fit with one more rune.
pub data IsTruncation (t : Tokenizer) (text : Text) (budget : ℕ) : Text → Type 0 where
  no_budget : budget ≡ 0 → IsTruncation t text budget []
  whole : estimate_text_tokens t text ≤ budget → IsTruncation t text budget text
  longest :
      (k : ℕ)
      → k < length text
      → estimate_text_tokens t (take k text) ≤ budget
      → budget < estimate_text_tokens t (take (suc k) text)
      → IsTruncation t text budget (trim_space (take k text))

estimate-nil : (t : Tokenizer) → estimate_text_tokens t [] ≡ 0
unfolding estimate_text_tokens is_blank trim_space trim_left
estimate-nil t = refl

take-zero : (text : Text) → take 0 text ≡ []
take-zero [] = refl
take-zero (c ∷ text) = refl

pred-suc : (m : ℕ) → suc m - 1 ≡ m
pred-suc m = omega arith

module _ (t : Tokenizer) (budget : ℕ) (text : Text) where
  -- what the search knows
  record IsSearch (s : Search) : Type 0 where
    ordered : s.low ≤ s.bound
    inside : s.bound ≤ suc (length text)
    kept : s.best ≡ take (s.low - 1) text
    fits : estimate_text_tokens t (take (s.low - 1) text) ≤ budget
    above : (s.bound ≡ suc (length text)) ⊎ (budget < estimate_text_tokens t (take s.bound text))

  step-IsSearch :
      (s : Search) → IsSearch s → s.low < s.bound → IsSearch (search_step t budget text s)
  unfolding search_step
  step-IsSearch s i h =
      elim (Bool-cases
        (leb (estimate_text_tokens t (take ((s.low + s.bound - 1) / 2) text)) budget)) [
          | inl e ↦ rw e (record {
            ordered = omega (arith, h);
            inside = i.inside;
            kept = rw (pred-suc ((s.low + s.bound - 1) / 2)) refl;
            fits = rw (pred-suc ((s.low + s.bound - 1) / 2)) (ground (arith, e));
            above = i.above;
          })
          | inr e ↦ rw e (record {
            ordered = omega (arith, h);
            inside = omega (arith, h, i.inside);
            kept = i.kept;
            fits = i.fits;
            above = inr (ground (arith, e));
          })
        ]

  step-shrinks :
      (s : Search) (fuel : ℕ)
      → s.low < s.bound
      → s.bound - s.low ≤ suc fuel
      → (search_step t budget text s).bound - (search_step t budget text s).low ≤ fuel
  unfolding search_step
  step-shrinks s fuel h g = ground arith

  -- Enough fuel takes the search to its end.
  search-ends :
      (fuel : ℕ) (s : Search)
      → IsSearch s
      → s.bound - s.low ≤ fuel
      → IsSearch (search_prefix t budget text fuel s)
        × ((search_prefix t budget text fuel s).bound ≤ (search_prefix t budget text fuel s).low)
  unfolding search_prefix
  search-ends zero s i h = (i, omega (arith, h))
  search-ends (suc fuel) s i h = elim (Bool-cases (ltb s.low s.bound)) [
    | inl e ↦ rw e (
        search-ends fuel (search_step t budget text s) (step-IsSearch s i (ground (arith, e)))
          (step-shrinks s fuel (ground (arith, e)) h))
    | inr e ↦ rw e (i, ground (arith, e))
  ]

  start-IsSearch : IsSearch (record { low = 0; bound = suc (length text); best = [] })
  start-IsSearch =
      let fits : estimate_text_tokens t [] ≤ budget = rw (estimate-nil t) (omega arith) in
      record {
        ordered = omega arith;
        inside = omega arith;
        kept = sym (take-zero text);
        fits = rw (take-zero text) fits;
        above = inl refl;
      }

  -- where the search ends, a rune is left over
  end-short :
      (s : Search) → IsSearch s → budget < estimate_text_tokens t text → s.low - 1 < length text
  end-short s i over = elim (le-or-lt (length text) (s.low - 1)) [
    | inl h ↦
        let all : take (s.low - 1) text ≡ text = take_of_length-le (s.low - 1) text h in
        let fits : estimate_text_tokens t text ≤ budget =
          subst (λ p. estimate_text_tokens t p ≤ budget) all i.fits in
        absurd (omega (arith, fits, over))
    | inr h ↦ h
  ]

  -- and does not fit
  end-tight :
      (s : Search)
      → IsSearch s
      → s.bound ≤ s.low
      → s.low - 1 < length text
      → budget < estimate_text_tokens t (take (suc (s.low - 1)) text)
  end-tight s i h short = elim i.above [
    | inl e ↦ absurd (omega (arith, e, h, short))
    | inr over ↦ elim (le-or-lt s.bound 0) [
      | inl z ↦
          let none_taken : take s.bound text ≡ [] =
            (let e : s.bound ≡ 0 = omega (arith, z) in rw e (take-zero text)) in
          let nothing : estimate_text_tokens t (take s.bound text) ≡ 0 =
            rw none_taken (estimate-nil t) in
          absurd (omega (arith, over, nothing))
      | inr z ↦ let e : suc (s.low - 1) ≡ s.bound = omega (arith, z, h, i.ordered) in rw e over
    ]
  ]

  end-longest :
      (s : Search)
      → IsSearch s
      → s.bound ≤ s.low
      → budget < estimate_text_tokens t text
      → IsTruncation t text budget (trim_space s.best)
  end-longest s i h over =
      let short = end-short s i over in
      rw i.kept (longest (s.low - 1) short i.fits (end-tight s i h short))

-- However the tokenizer counts, the search ends, and what it leaves of a text is the whole of it where
-- it fits, and else the trimmed prefix of it that fits and does not fit with one more rune.
pub truncate-IsTruncation :
    (t : Tokenizer) (text : Text) (max_tokens : ℤ)
    → IsTruncation t text (to_nat max_tokens) (truncate_text_to_tokens t text max_tokens)
unfolding truncate_text_to_tokens longest_prefix
truncate-IsTruncation t text max_tokens =
    let budget = to_nat max_tokens in
    elim (Bool-cases (leb (to_nat max_tokens) 0)) [
      | inl e ↦ rw e (no_budget (ground (arith, e)))
      | inr e ↦ elim (Bool-cases (leb (estimate_text_tokens t text) (to_nat max_tokens))) [
        | inl f ↦ rw (e, f) (whole (ground (arith, f)))
        | inr f ↦
            let done =
              search-ends t budget text (suc (length text))
                (record { low = 0; bound = suc (length text); best = [] })
                (start-IsSearch t budget text) (omega arith) in
            rw (e, f) (end-longest t budget text _ done.0 done.1 (ground (arith, f)))
      ]
    ]
