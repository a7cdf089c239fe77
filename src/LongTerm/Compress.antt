-- ===== src/LongTerm/Compress.antt =====
-- long_term_memory.go: the texts and the id under which a turn is remembered. A text is its runes.
use go_rag_agent.Base.{
  ◌<◌, ◌≡◌, ℕ, ◌+◌, ◌-◌, ◌/◌, ◌≤◌, [], ◌∷◌, ◌++◌, leb, if◌then◌else◌, ℤ, to_nat, Text, codes,
  trim_space, fields, join, length, take, length-take, length-append, arith,
}
use go_rag_agent.Access.{MemoryScope}

-- the words of a text with one space between them
unfoldable pub squeeze : Text → Text
squeeze s = join (codes " ") (fields (trim_space s))

unfoldable pub trim_runes : Text → ℕ → Text
trim_runes input max =
    if leb max 0
    then []
    else if leb (length input) max
    then input
    else if leb max 3
    then take max input
    else take (max - 3) input ++ codes "..."

unfoldable pub compress_turn : Text → Text → ℤ → Text × Text
unfolding squeeze trim_runes
compress_turn raw_user raw_assistant max_runes =
    let user = squeeze raw_user in
    let assistant = squeeze raw_assistant in
    let max = to_nat max_runes in
    if leb max 0
    then (user, assistant)
    else if leb (length user + length assistant) max
    then (user, assistant)
    else (trim_runes user (max / 2), trim_runes assistant (max - max / 2))

-- `hash` is the SHA-256 sum in hexadecimal digits, cut to its first 16 bytes
unfoldable pub build_memory_id : (Text → Text) → Text → MemoryScope → Text → Text → Text
unfolding squeeze
build_memory_id hash session scope user assistant =
    codes "mem_"
    ++ hash (
        join (codes "\n") (
          trim_space scope.tenant
          ∷ trim_space scope.user_id
          ∷ trim_space session
          ∷ squeeze user
          ∷ squeeze assistant
          ∷ []))

length-trim_runes : (input : Text) (max : ℕ) → length (trim_runes input max) ≤ max
unfolding trim_runes
length-trim_runes input max = ground (
  arith,
  length-take max input,
  length-take (max - 3) input,
  length-append (take (max - 3) input) (codes "..."),
)

-- With a bound, the two texts of a turn that is remembered have at most that many runes together, and
-- a turn that fits is kept whole but for its spaces.
length-compress_turn :
    (user assistant : Text) (max_runes : ℤ)
    → 0 < to_nat max_runes
    → let (u, a) = compress_turn user assistant max_runes in
      (length u + length a ≤ to_nat max_runes)
      × (length (squeeze user) + length (squeeze assistant) ≤ to_nat max_runes
          → (u ≡ squeeze user) × (a ≡ squeeze assistant))
unfolding compress_turn
length-compress_turn user assistant max_runes h =
    let max : ℕ = to_nat max_runes in
    ground (
      arith,
      h,
      length-trim_runes (squeeze user) (max / 2),
      length-trim_runes (squeeze assistant) (max - max / 2),
    )
