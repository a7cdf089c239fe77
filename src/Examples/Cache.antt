-- ===== src/Examples/Cache.antt =====
-- A cache of two entries whose prompts are kept for ten nanoseconds; a message is a text.
use go_rag_agent.Base.{
  false, List, [], ◌∷◌, ◌≡◌, refl, none, some, pos, Text, codes, text_eq, find, delete,
}
use go_rag_agent.Cache.{
  PromptCacheConfig, normalize_config, Entry, PromptCache, new_prompt_cache, expiry, is_expired,
  get_found, get, drop_back, evict_back, set_found, set, remove_expired, stats,
}
use go_rag_agent.Cache.Reads.{Call, got, put_in, perform, perform_all, latest, get-latest}
use go_rag_agent.Cache.TwoLevel.{Level, in_memory, read_level}

abbrev config : PromptCacheConfig
config = record { max_entries = pos 2; ttl = pos 10 }

abbrev empty : PromptCache Text
empty = new_prompt_cache config

-- the third entry evicts "b", which was used before "a"
abbrev calls : List (Call Text)
calls =
    put_in 1 (codes "a") (codes "x" ∷ [])
    ∷ put_in 2 (codes "b") (codes "y" ∷ [])
    ∷ got 3 (codes "a")
    ∷ put_in 4 (codes "c") (codes "z" ∷ [])
    ∷ []

a_stays :
    ((get 5 (codes "a") (perform_all calls empty)).1 ≡ some (codes "x" ∷ []))
    × ((get 5 (codes "b") (perform_all calls empty)).1 ≡ none)
    × ((get 11 (codes "a") (perform_all calls empty)).1 ≡ none)
    × ((stats 12 (perform_all calls empty)).1 ≡ 1)
unfolding get get_found set set_found perform perform_all stats remove_expired new_prompt_cache
    normalize_config expiry is_expired evict_back drop_back find delete text_eq
a_stays = (refl, refl, refl, refl)

a_read : (get 5 (codes "a") (perform_all calls empty)).1 ≡ some (codes "x" ∷ [])
a_read = a_stays.0

get-latest_example :
    (e : Entry Text) × (latest (normalize_config config) (codes "a") calls none ≡ some e)
    × (e.messages ≡ codes "x" ∷ [])
    × (is_expired 5 e ≡ false)
get-latest_example = get-latest config calls 5 (codes "a") (codes "x" ∷ []) a_read

abbrev level : Level (PromptCache Text) Text
level = in_memory Text 5

-- a remote level that has "a"
abbrev remote_state : PromptCache Text
remote_state = set 4 (codes "a") (codes "x" ∷ []) empty

missed : (level.read (codes "a") empty).1 ≡ none
unfolding get get_found find new_prompt_cache
missed = refl

found : (read_level (some level) (codes "a") remote_state).1 ≡ some (codes "x" ∷ [])
unfolding read_level get get_found set set_found new_prompt_cache normalize_config expiry is_expired
    evict_back find text_eq
found = refl
