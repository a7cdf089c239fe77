-- ===== src/Examples/LongTerm.antt =====
-- Two turns of one session in a memory whose floats are natural numbers.
use go_rag_agent.Base.{
  IsOrder, sort_by, insert_by, ℕ, zero, suc, ap, ◌-◌, ◌+◌, ◌*◌, ◌/◌, true, false, ◌==◌, ltb, List,
  [], ◌∷◌, ◌≡◌, refl, none, some, inr, pos, Text, codes, text_eq, is_empty, length, filter, map,
  clean, text_lt, trim_space, trim_left, is_space, fields, join, arith,
}
use go_rag_agent.Access.{MemoryScope}
use go_rag_agent.Access.Filter.{matches_chunk, normalize_filter}
use go_rag_agent.LongTerm.{
  Floats, MemoryRecord, is_expired, validate, replace, store_loop, store, sums, cosine_similarity,
  scored, hit_of, push_hit, hits_of, goes_before, sort_hits, search,
}
use go_rag_agent.LongTerm.Ranked.{IsBest, search-IsBest}
use go_rag_agent.LongTerm.Records.{stored, perform, perform_all}
use go_rag_agent.LongTerm.Compress.{squeeze, compress_turn}
use go_rag_agent.LongTerm.Provider.{
  Provider, RetrieveRequest, MemorizeRequest, in_process, retrieve, is_in_scope, filter_hits,
  render_hit, render_hits, single_row, after_embedding, after_search, search_row, memorize,
}
use go_rag_agent.LongTerm.Isolation.{Recalls, retrieve-Recalls}
use go_rag_agent.LongTerm.Tenants.{memorize_all}
use go_rag_agent.LongTerm.Vector.{Clock, chunk_of, record_of, memory_path, memory_filter}
use go_rag_agent.LongTerm.VectorFilter.{ClockLaws, record_of-chunk_of, matches-memory_filter}

abbrev floats : Floats ℕ ℕ
floats = record {
  mul = λ a b. a * b;
  widen = λ a. a;
  zero_wide = 0;
  add_wide = λ a b. a + b;
  mul_wide = λ a b. a * b;
  div_wide = λ a b. a / b;
  sqrt = λ a. a;
  is_zero_wide = λ a. a == 0;
  narrow = λ a. a;
  lt = ltb;
}

floats-IsOrder : IsOrder floats.lt
floats-IsOrder = record {
  asym = λ a b h. ground (arith, h);
  cotrans = λ a b c h g. ground (arith, h, g);
}

abbrev turn : Text → Text → ℕ → MemoryRecord ℕ
turn id session expires_at = record {
  id = id;
  session_id = session;
  user_id = codes "u";
  tenant = codes "t";
  user = codes "hi";
  assistant = codes "yo";
  embedding = 1 ∷ [];
  created_at = 1;
  expires_at = expires_at;
}

abbrev turns : List (MemoryRecord ℕ)
turns = turn (codes "b") (codes "s") 0 ∷ turn (codes "a") (codes "s") 9 ∷ []

search-IsBest_example :
    IsBest floats 1
      (hits_of floats (codes "s") (1 ∷ []) 1 5 turns)
      (search floats none (codes "s") (1 ∷ []) (pos 1) 1 5 turns)
search-IsBest_example =
    search-IsBest floats floats-IsOrder (codes "s") (1 ∷ []) (pos 1) 1 5 turns refl refl

found_first :
    search floats none (codes "s") (1 ∷ []) (pos 1) 1 5 turns
    ≡ inr (record { memory = turn (codes "a") (codes "s") 9; score = 1 } ∷ [])
unfolding search hits_of push_hit hit_of is_expired scored cosine_similarity sums sort_hits sort_by
    insert_by goes_before text_eq text_lt
found_first = refl

stored_lem :
    store none (turn (codes "b") (codes "s") 3 ∷ []) (perform_all (stored none turns ∷ []) [])
    ≡ (none, turn (codes "b") (codes "s") 3 ∷ turn (codes "a") (codes "s") 9 ∷ [])
unfolding store store_loop validate replace perform_all perform text_eq
stored_lem = refl

abbrev scope : MemoryScope
scope = record { user_id = codes "u"; tenant = codes "t" }

abbrev other_scope : MemoryScope
other_scope = record { user_id = codes "v"; tenant = codes "t" }

abbrev provider : Provider ℕ
provider = record {
  embed = λ texts. inr (map (λ t. 1 ∷ []) texts);
  hash = λ text. text;
  cfg = record { top_k = pos 3; threshold = 1; ttl = pos 0; max_runes = pos 512 };
}

abbrev request : RetrieveRequest
request = record { session_id = codes "s"; query = codes "q"; scope = scope }

retrieved :
    retrieve (in_process floats 5) provider 5 request (turn (codes "b") (codes "s") 0 ∷ [])
    ≡ inr (codes "- User: hi\n  Assistant: yo")
unfolding retrieve in_process search hits_of push_hit hit_of is_expired scored cosine_similarity
    sums sort_hits sort_by insert_by text_eq trim_space trim_left is_space search_row
    after_embedding single_row after_search filter_hits filter is_in_scope render_hits render_hit
    join
retrieved = refl

retrieve-Recalls_example :
    Recalls floats
      (codes "s")
      scope
      5
      (turn (codes "b") (codes "s") 0 ∷ [])
      (codes "- User: hi\n  Assistant: yo")
retrieve-Recalls_example =
    retrieve-Recalls floats provider 5 request (turn (codes "b") (codes "s") 0 ∷ [])
      (codes "- User: hi\n  Assistant: yo") retrieved

abbrev others : List (ℕ × MemorizeRequest)
others =
    (
      3,
      record {
        session_id = codes "s";
        scope = other_scope;
        user = codes "hi";
        assistant = codes "yo";
      },
    )
    ∷ []

nothing_retrieved :
    retrieve (in_process floats 5) provider 5 request (memorize_all floats provider others [])
    ≡ inr []
unfolding retrieve in_process search hits_of push_hit hit_of is_expired scored cosine_similarity
    sums sort_hits sort_by insert_by text_eq trim_space trim_left is_space search_row
    after_embedding single_row after_search filter_hits filter is_in_scope render_hits render_hit
    join memorize_all memorize store store_loop validate replace compress_turn squeeze fields
nothing_retrieved = refl

-- a time is written as a text of that many letters and one more
abbrev letters : ℕ → Text
letters zero = codes "a"
letters (suc n) = 97 ∷ letters n

abbrev clock : Clock
clock = record { format = letters; parse = λ t. some (length t - 1) }

letters-nonempty : (n : ℕ) → is_empty (letters n) ≡ false
letters-nonempty zero = refl
letters-nonempty (suc n) = refl

length-letters : (n : ℕ) → length (letters n) ≡ n + 1
length-letters zero = refl
length-letters (suc n) = omega (arith, length-letters n)

clock-ClockLaws : (n : ℕ) → ClockLaws clock n
clock-ClockLaws n = record {
  parse-format = ap some (omega (arith, length-letters n));
  format-nonempty = letters-nonempty n;
}

record_of-chunk_of_example :
    record_of clock (codes "s") (chunk_of clock (turn (codes "b") (codes "s") 3)) (1 ∷ [])
    ≡ turn (codes "b") (codes "s") 3
record_of-chunk_of_example =
    record_of-chunk_of clock (turn (codes "b") (codes "s") 3) (clock-ClockLaws _)
      (clock-ClockLaws _)

-- the session `x/../s` reads what `s` remembers
matches-memory_filter_example :
    matches_chunk
      (normalize_filter (memory_filter (codes "x/../s")))
      (chunk_of clock (turn (codes "b") (codes "s") 3))
    ≡ text_eq (clean (memory_path (codes "s"))) (clean (memory_path (codes "x/../s")))
unfolding trim_space trim_left is_space
matches-memory_filter_example =
    matches-memory_filter clock (turn (codes "b") (codes "s") 3) (codes "x/../s") refl

same_paths : text_eq (clean (memory_path (codes "s"))) (clean (memory_path (codes "x/../s"))) ≡ true
unfolding clean memory_path trim_space trim_left is_space text_eq
same_paths = refl
