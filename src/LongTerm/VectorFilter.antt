-- ===== src/LongTerm/VectorFilter.antt =====
-- Which remembered turns the filter of a session lets through, and what a chunk keeps of a turn.
use go_rag_agent.Base.{
  ℕ, true, false, ◌==◌, [], ◌∷◌, ◌≡◌, refl, some, inl, inr, Text, codes, text_eq, trim_space,
  is_empty, any, find, clean, sort_texts, compact, arith, Bool-cases, trim_space-append, is_space,
}
use go_rag_agent.Access.Filter.{
  or_empty, value_at, matches_metadata, matches_chunk, clean_paths, normalize_paths, normalize_keys,
  normalize_metadata, normalize_filter,
}
use go_rag_agent.LongTerm.{MemoryRecord}
use go_rag_agent.LongTerm.Vector.{
  Clock, memory_path, format_time, or_zero, read_time, chunk_of, record_of, memory_filter,
}

-- What the standard library documents of a time up to the year 9999 and its text: it is read back.
pub record ClockLaws (clock : Clock) (at : ℕ) : Type 0 where
  pub parse-format : clock.parse (clock.format at) ≡ some at
  pub format-nonempty : is_empty (clock.format at) ≡ false

read_time-format :
    (clock : Clock) (at : ℕ) → ClockLaws clock at → read_time clock (clock.format at) ≡ at
unfolding read_time or_zero
read_time-format clock at laws = rw (laws.format-nonempty, laws.parse-format) refl

zero_time : (clock : Clock) (at : ℕ) → (at == 0) ≡ true → read_time clock [] ≡ at
unfolding read_time
zero_time clock at e = ground (arith, e)

read_time-format_time :
    (clock : Clock) (at : ℕ) → ClockLaws clock at → read_time clock (format_time clock at) ≡ at
unfolding format_time
read_time-format_time clock at laws = elim (Bool-cases (at == 0)) [
  | inl e ↦ rw e (zero_time clock at e)
  | inr e ↦ rw e (read_time-format clock at laws)
]

module _ {F : Type 0} where
  -- A turn that is kept as a chunk is read back as it was, given its session id and its embedding,
  -- which the reader has from elsewhere: the id, the texts, the times and the owner all come from
  -- the chunk. This is for times that the clock reads back from their text.
  pub record_of-chunk_of :
      (clock : Clock) (r : MemoryRecord F)
      → ClockLaws clock r.created_at
      → ClockLaws clock r.expires_at
      → record_of clock r.session_id (chunk_of clock r) r.embedding ≡ r
  unfolding record_of chunk_of value_at or_empty find text_eq
  record_of-chunk_of clock r created expires =
      rw
        (
          read_time-format clock r.created_at created,
          read_time-format_time clock r.expires_at expires,
        )
        refl

slash_lem : is_space 47 ≡ false
unfolding is_space
slash_lem = refl

memory_path-trimmed :
    (session : Text)
    → is_empty (trim_space session) ≡ false
    → trim_space (memory_path session) ≡ memory_path session
unfolding memory_path
memory_path-trimmed session h = trim_space-append 47 (codes "ragagent/memory/") session slash_lem h

memory_path-nonempty : (session : Text) → is_empty (memory_path session) ≡ false
unfolding memory_path
memory_path-nonempty session = refl

no_paths : normalize_paths [] ≡ []
unfolding normalize_paths clean_paths sort_texts compact
no_paths = refl

normalized_path :
    (session : Text)
    → is_empty (trim_space session) ≡ false
    → normalize_paths (memory_path session ∷ []) ≡ clean (memory_path session) ∷ []
unfolding normalize_paths clean_paths sort_texts compact
normalized_path session h = rw (memory_path-trimmed session h, memory_path-nonempty session) refl

-- The filter of a session lets a remembered turn through exactly where the paths of the two sessions
-- are the same once cleaned: `s/../t` reads, and is shown as its own, what session `t` remembers.
pub matches-memory_filter :
    {F : Type 0} (clock : Clock) (r : MemoryRecord F) (session : Text)
    → is_empty (trim_space session) ≡ false
    → matches_chunk (normalize_filter (memory_filter session)) (chunk_of clock r)
      ≡ text_eq (clean (memory_path r.session_id)) (clean (memory_path session))
unfolding matches_chunk normalize_filter memory_filter chunk_of normalize_metadata normalize_keys
    matches_metadata any
matches-memory_filter clock r session h = rw (normalized_path session h, no_paths) (ground arith)
