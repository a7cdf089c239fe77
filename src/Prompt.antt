-- ===== src/Prompt.antt =====
-- internal/graph/prompt_governance.go: what of the history goes into a prompt, and how a text is cut to
-- a number of tokens. The tokenizer is a third-party package; a text is its runes.
pub mod Messages
pub mod Truncated
pub mod Compacted
pub mod Budgets
pub mod Roles
use go_rag_agent.Base.{
  Bool, true, false, ℕ, zero, suc, ◌+◌, ◌-◌, ◌/◌, max, List, [], ◌∷◌, ◌++◌, map, Option, none, some,
  if◌then◌else◌, leb, ltb, ℤ, to_nat, length, take, is_empty, Text, codes, trim_space, fields, join,
  ◌&&◌,
}
use go_rag_agent.Memory.{Turn}

-- tiktoken-go: the encodings it finds, each as the number of tokens it makes of a text
pub record Tokenizer : Type 0 where
  pub for_model : Option (Text → ℕ)
  pub base : Option (Text → ℕ)

-- `strings.TrimSpace(text) == ""`
unfoldable pub is_blank : Text → Bool
is_blank text = is_empty (trim_space text)

-- where no encoding is found
unfoldable pub by_base : Option (Text → ℕ) → Text → ℕ
by_base none text = max 1 (length text / 4)
by_base (some count) text = count text

unfoldable pub encoded : Tokenizer → Option (Text → ℕ) → Text → ℕ
unfolding by_base
encoded t none text = by_base t.base text
encoded t (some count) text = count text

unfoldable pub estimate_text_tokens : Tokenizer → Text → ℕ
unfolding is_blank encoded
estimate_text_tokens t text = if is_blank text then 0 else encoded t t.for_model text

-- The search of `truncateTextToTokens`. `bound` is `high + 1`: `high` is -1 where not even the empty
-- prefix fits.
pub record Search : Type 0 where
  pub low : ℕ
  pub bound : ℕ
  pub best : Text

unfoldable pub search_step : Tokenizer → ℕ → Text → Search → Search
search_step t max_tokens runes s =
    let mid = (s.low + s.bound - 1) / 2 in
    let candidate = take mid runes in
    if leb (estimate_text_tokens t candidate) max_tokens
    then record s { best = candidate; low = suc mid }
    else record s { bound = mid }

-- the loop, on fuel
unfoldable pub search_prefix : Tokenizer → ℕ → Text → ℕ → Search → Search
search_prefix t max_tokens runes zero s = s
search_prefix t max_tokens runes (suc fuel) s =
    let rest = search_prefix t max_tokens runes fuel (search_step t max_tokens runes s) in
    if ltb s.low s.bound then rest else s

unfoldable pub longest_prefix : Tokenizer → ℕ → Text → Text
unfolding search_prefix
longest_prefix t max_tokens runes =
    (search_prefix t max_tokens runes (suc (length runes))
      (record { low = 0; bound = suc (length runes); best = [] })).best

unfoldable pub truncate_text_to_tokens : Tokenizer → Text → ℤ → Text
unfolding longest_prefix
truncate_text_to_tokens t text max_tokens =
    if leb (to_nat max_tokens) 0
    then []
    else if leb (estimate_text_tokens t text) (to_nat max_tokens)
    then text
    else trim_space (longest_prefix t (to_nat max_tokens) text)

unfoldable pub trim_for_summary : Text → Text
trim_for_summary input =
    let trimmed = join (codes " ") (fields (trim_space input)) in
    if leb (length trimmed) 80 then trimmed else take 80 trimmed ++ codes "..."

unfoldable pub summary_line : Turn → Text
unfolding trim_for_summary
summary_line turn =
    codes "- User: "
    ++ trim_for_summary turn.user
    ++ codes " | Assistant: "
    ++ trim_for_summary turn.assistant

unfoldable pub summarize_turns : Tokenizer → List Turn → ℤ → Text
unfolding summary_line truncate_text_to_tokens
summarize_turns t turns max_tokens =
    if is_empty turns
    then []
    else if leb (to_nat max_tokens) 0
    then []
    else truncate_text_to_tokens t
        (codes "Conversation summary:\n" ++ join (codes "\n") (map summary_line turns)) max_tokens

pub record Compaction : Type 0 where
  pub used : ℕ
  pub kept : List Turn
  pub dropped : List Turn

unfoldable pub turn_tokens : Tokenizer → Turn → ℕ
turn_tokens t turn = estimate_text_tokens t turn.user + estimate_text_tokens t turn.assistant

unfoldable pub keep_or_drop : Tokenizer → ℕ → Turn → Compaction → Compaction
unfolding turn_tokens
keep_or_drop t max_tokens turn c =
    if ltb max_tokens (c.used + turn_tokens t turn)
    then record c { dropped = turn ∷ c.dropped }
    else record c { used = c.used + turn_tokens t turn; kept = turn ∷ c.kept }

-- the loop over `slices.Backward(history)`: the last turn first
unfoldable pub compact_turns : Tokenizer → ℕ → List Turn → Compaction
unfolding keep_or_drop
compact_turns t max_tokens [] = record { used = 0; kept = []; dropped = [] }
compact_turns t max_tokens (turn ∷ history) =
    keep_or_drop t max_tokens turn (compact_turns t max_tokens history)

unfoldable pub compact_history_for_prompt : Tokenizer → List Turn → ℤ → ℤ → List Turn × Text
unfolding compact_turns summarize_turns
compact_history_for_prompt t history max_history max_summary =
    if is_empty history
    then ([], [])
    else if leb (to_nat max_history) 0
    then ([], summarize_turns t history max_summary)
    else let c = compact_turns t (to_nat max_history) history in
      (c.kept, summarize_turns t c.dropped max_summary)
