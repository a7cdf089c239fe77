-- ===== src/Prompt/Compacted.antt =====
-- internal/graph/prompt_governance.go: which turns of the history a prompt keeps.
use go_rag_agent.Base.{
  Bool, false, ℕ, ◌+◌, ◌≤◌, ◌≡◌, refl, sym, inl, inr, List, [], ◌∷◌, leb, ltb, Bool-cases, ℤ,
  to_nat, any, arith,
}
use go_rag_agent.Memory.{Turn}
use go_rag_agent.Prompt.{
  Tokenizer, Compaction, turn_tokens, keep_or_drop, compact_turns, compact_history_for_prompt,
}

-- Two lists that make up a third, each in its order.
pub data IsShuffle : List Turn → List Turn → List Turn → Type 0 where
  shuffle_nil : IsShuffle [] [] []
  shuffle_left :
      (turn : Turn) (all left right : List Turn)
      → IsShuffle all left right
      → IsShuffle (turn ∷ all) (turn ∷ left) right
  shuffle_right :
      (turn : Turn) (all left right : List Turn)
      → IsShuffle all left right
      → IsShuffle (turn ∷ all) left (turn ∷ right)

abbrev pub total_tokens : Tokenizer → List Turn → ℕ
total_tokens t [] = 0
total_tokens t (turn ∷ turns) = total_tokens t turns + turn_tokens t turn

-- the turns that would fit beside those kept
abbrev pub fits_beside : Tokenizer → ℕ → ℕ → Turn → Bool
fits_beside t budget used turn = leb (used + turn_tokens t turn) budget

pub record IsCompaction (t : Tokenizer) (budget : ℕ) (history : List Turn) (kept : List Turn)
    : Type 0 where
  pub dropped : List Turn
  pub shuffle : IsShuffle history kept dropped
  pub within : total_tokens t kept ≤ budget
  pub full : any (fits_beside t budget (total_tokens t kept)) dropped ≡ false

any-fits-more :
    (t : Tokenizer) (budget used more : ℕ) (turns : List Turn)
    → any (fits_beside t budget used) turns ≡ false
    → any (fits_beside t budget (used + more)) turns ≡ false
unfolding any
any-fits-more t budget used more [] h = refl
any-fits-more t budget used more (turn ∷ turns) h =
    ground (arith, any-fits-more t budget used more turns)

module _ (t : Tokenizer) (budget : ℕ) where
  -- what the loop knows, with the tokens counted so far
  record IsLoop (history : List Turn) (c : Compaction) : Type 0 where
    counted : c.used ≡ total_tokens t c.kept
    parts : IsShuffle history c.kept c.dropped
    bounded : c.used ≤ budget
    tight : any (fits_beside t budget c.used) c.dropped ≡ false

  step-IsLoop :
      (turn : Turn) (history : List Turn) (c : Compaction)
      → IsLoop history c
      → IsLoop (turn ∷ history) (keep_or_drop t budget turn c)
  unfolding keep_or_drop any
  step-IsLoop turn history c i = elim (Bool-cases (ltb budget (c.used + turn_tokens t turn))) [
    | inl e ↦ rw e (record {
      counted = i.counted;
      parts = shuffle_right turn history c.kept c.dropped i.parts;
      bounded = i.bounded;
      tight = ground (arith, e, i.tight);
    })
    | inr e ↦ rw e (record {
      counted = rw i.counted refl;
      parts = shuffle_left turn history c.kept c.dropped i.parts;
      bounded = ground (arith, e);
      tight = any-fits-more t budget c.used (turn_tokens t turn) c.dropped i.tight;
    })
  ]

  compact_turns-IsLoop : (history : List Turn) → IsLoop history (compact_turns t budget history)
  unfolding compact_turns any
  compact_turns-IsLoop [] = record {
    counted = refl;
    parts = shuffle_nil;
    bounded = omega arith;
    tight = refl;
  }
  compact_turns-IsLoop (turn ∷ history) =
      step-IsLoop turn history (compact_turns t budget history) (compact_turns-IsLoop history)

-- The turns that a prompt keeps and those it drops make up the history, each in its order; those kept
-- stay within the budget, where there is one, and none of those dropped would fit beside them.
pub compact-IsCompaction :
    (t : Tokenizer) (history : List Turn) (max_history max_summary : ℤ)
    → 1 ≤ to_nat max_history
    → IsCompaction t
        (to_nat max_history)
        history
        (compact_history_for_prompt t history max_history max_summary).0
unfolding compact_history_for_prompt any
compact-IsCompaction t [] max_history max_summary h = record {
  dropped = [];
  shuffle = shuffle_nil;
  within = omega arith;
  full = refl;
}
compact-IsCompaction t (turn ∷ history) max_history max_summary h =
    let positive : leb (to_nat max_history) 0 ≡ false = ground arith in
    let i = compact_turns-IsLoop t (to_nat max_history) (turn ∷ history) in
    rw positive (record {
      dropped = (compact_turns t (to_nat max_history) (turn ∷ history)).dropped;
      shuffle = i.parts;
      within = rw (sym i.counted) i.bounded;
      full = rw (sym i.counted) i.tight;
    })
