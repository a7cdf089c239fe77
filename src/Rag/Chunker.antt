-- ===== src/Rag/Chunker.antt =====
-- internal/rag/chunker.go: a document is cut into windows of runes that overlap. A text is its
-- runes here, so `[]rune(content)` and `string(runes)` change nothing.
pub mod Windows
use go_rag_agent.Base.{
  ℕ, zero, suc, ◌+◌, ◌-◌, ◌/◌, ◌%◌, List, [], ◌∷◌, ◌++◌, min, ltb, leb, ◌==◌, if◌then◌else◌, ℤ, pos,
  negsuc, to_nat, is_neg, length, slice, Text, codes,
}

pub record Document : Type 0 where
  pub id : Text
  pub source_path : Text
  pub title : Text
  pub metadata : List (Text × Text)
  pub content : Text

pub record Chunk : Type 0 where
  pub chunk_id : Text
  pub parent_id : Text
  pub source_path : Text
  pub title : Text
  pub metadata : List (Text × Text)
  pub text : Text
  pub start_rune : ℕ
  pub end_rune : ℕ

pub record Chunker : Type 0 where
  pub size : ℕ
  pub overlap : ℕ

pub data ChunkerError : Type 0 where
  invalid_size invalid_overlap overlap_too_large : ChunkerError

pub data NewChunker : Type 0 where
  ok : Chunker → NewChunker
  err : ChunkerError → NewChunker

unfoldable pub new_chunker : ℤ → ℤ → NewChunker
new_chunker size overlap =
    if leb (to_nat size) 0
    then err invalid_size
    else if is_neg overlap
    then err invalid_overlap
    else if leb (to_nat size) (to_nat overlap)
    then err overlap_too_large
    else ok (record { size = to_nat size; overlap = to_nat overlap })

-- `%d`; a number has at most as many digits as its value and one.
unfoldable pub decimal_onto : ℕ → ℕ → Text → Text
decimal_onto zero n acc = acc
decimal_onto (suc fuel) n acc =
    let digit = (b'0' + n % 10) ∷ acc in
    let rest = decimal_onto fuel (n / 10) digit in if ltb n 10 then digit else rest

unfoldable pub decimal : ℕ → Text
unfolding decimal_onto
decimal n = decimal_onto (suc n) n []

unfoldable pub chunk_at : Chunker → Document → ℕ → ℕ → Chunk
unfolding decimal
chunk_at c doc start index =
    let end = min (start + c.size) (length doc.content) in
    record {
      chunk_id = doc.id ++ b':' ∷ decimal index;
      parent_id = doc.id;
      source_path = doc.source_path;
      title = doc.title;
      metadata = doc.metadata;
      text = slice start end doc.content;
      start_rune = start;
      end_rune = end;
    }

-- The loop over `start`; the fuel is an upper bound of the rounds.
unfoldable pub split_from : Chunker → Document → ℕ → ℕ → ℕ → List Chunk
unfolding chunk_at
split_from c doc zero start index = []
split_from c doc (suc fuel) start index =
    let chunk = chunk_at c doc start index in
    let rest = split_from c doc fuel (start + (c.size - c.overlap)) (index + 1) in
    let more = if chunk.end_rune == length doc.content then [] else rest in
    if ltb start (length doc.content) then chunk ∷ more else []

-- of a content that is valid UTF-8, so that it is its runes
unfoldable pub split : Chunker → Document → List Chunk
unfolding split_from
split c doc = split_from c doc (length doc.content) 0 0
