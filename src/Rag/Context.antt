-- ===== src/Rag/Context.antt =====
-- internal/rag/context.go: the chunks that fit into the context of a prompt, and their text.
pub mod Budget
use go_rag_agent.Base.{
  ℕ, zero, suc, ◌+◌, ◌-◌, Bool, true, false, not, ◌&&◌, ◌||◌, List, [], ◌∷◌, ◌++◌, ltb, leb,
  if◌then◌else◌, ℤ, to_nat, length, take, is_empty, Text, text_eq,
}
use go_rag_agent.Rag.Chunker.{Chunk}

pub data AssembleError : Type 0 where
  invalid_context_limit no_context_assembled : AssembleError

pub record Context : Type 0 where
  pub kept : List Chunk
  pub text : Text

pub data Assembled : Type 0 where
  ok : Context → Assembled
  err : AssembleError → Assembled

unfoldable pub is_seen : Text → List Text → Bool
is_seen id [] = false
is_seen id (i ∷ ids) = text_eq i id || is_seen id ids

-- `fmt.Sprintf("[%s] ", chunk.ChunkID)`
abbrev pub prefix_of : Chunk → Text
prefix_of c = b'[' ∷ (c.chunk_id ++ b']' ∷ b' ' ∷ [])

-- The variables of the loop. `kept` and `seen` hold the latest first; `count` is
-- `contextRuneCount`.
pub record Loop : Type 0 where
  pub seen : List Text
  pub kept : List Chunk
  pub builder : Text
  pub count : ℕ

abbrev newline : ℕ
newline = 10

abbrev pub separator : Text → Text
separator [] = []
separator (r ∷ rs) = newline ∷ newline ∷ []

-- What is written for a chunk: its text whole, or cut to the room left if it is the first.
unfoldable pub next_part : ℕ → Chunk → Loop → Text
next_part max_chars c l =
    let whole = separator l.builder ++ (prefix_of c ++ c.text) in
    let head = separator l.builder ++ prefix_of c in
    let available = max_chars - length head in
    if ltb max_chars (l.count + length whole) && (is_empty l.kept && ltb 0 available)
    then head ++ take available c.text
    else whole

unfoldable pub keep : Chunk → Text → Loop → Loop
keep c next l = record l {
  kept = c ∷ l.kept;
  builder = l.builder ++ next;
  count = l.count + length next;
}

unfoldable pub assemble_loop : ℕ → List Chunk → Loop → Loop
assemble_loop max_chars [] l = l
assemble_loop max_chars (c ∷ cs) l =
    let l' = record l { seen = c.chunk_id ∷ l.seen } in
    let next = next_part max_chars c l' in
    let skip = assemble_loop max_chars cs l in
    let pass = assemble_loop max_chars cs l' in
    let take_it = assemble_loop max_chars cs (keep c next l') in
    if is_seen c.chunk_id l.seen
    then skip
    else if ltb max_chars (l.count + length next)
    then (if is_empty l.kept then pass else l')
    else take_it

abbrev pub empty_loop : Loop
empty_loop = record { seen = []; kept = []; builder = []; count = 0 }

unfoldable pub finish : Loop → Assembled
finish l =
    if is_empty l.kept
    then err no_context_assembled
    else ok (record { kept = mathlib.Core.List.reverse l.kept; text = l.builder })

unfoldable pub assemble_context : List Chunk → ℤ → Assembled
assemble_context chunks max_chars =
    if leb (to_nat max_chars) 0
    then err invalid_context_limit
    else finish (assemble_loop (to_nat max_chars) chunks empty_loop)
