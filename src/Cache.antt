-- ===== src/Cache.antt =====
-- prompt_cache.go: the prompt cache in memory, bounded and with expiry. The list of the source and its
-- map hold the same elements, which stand here once, with their keys, the one used last first. A time
-- is a number of nanoseconds, 0 the zero time; a prompt is a list of messages of any type.
pub mod Finds
pub mod Reads
pub mod Size
pub mod TwoLevel
use go_rag_agent.Base.{
  Bool, true, false, ◌&&◌, List, [], ◌∷◌, ℕ, zero, suc, ◌+◌, ◌-◌, Option, none, some, if◌then◌else◌,
  ltb, leb, ℤ, to_nat, Text, length, take, Map, find, delete,
}

pub record PromptCacheConfig : Type 0 where
  pub max_entries : ℤ
  pub ttl : ℤ

unfoldable pub normalize_config : PromptCacheConfig → PromptCacheConfig
normalize_config c =
    if leb (to_nat c.max_entries) 0 then record c { max_entries = ℤ.pos 1024 } else c

unfoldable pub expiry : PromptCacheConfig → ℕ → ℕ
expiry cfg now = if leb (to_nat cfg.ttl) 0 then 0 else now + to_nat cfg.ttl

module _ {ℓ} (M : Type ℓ) where
  pub record Entry : Type ℓ where
    pub messages : List M
    pub expires_at : ℕ

  pub record PromptCache : Type ℓ where
    pub lru : Map Entry
    pub cfg : PromptCacheConfig

module _ {ℓ} {M : Type ℓ} where
  unfoldable pub new_prompt_cache : PromptCacheConfig → PromptCache M
  unfolding normalize_config
  new_prompt_cache cfg = record { lru = []; cfg = normalize_config cfg }

  unfoldable pub is_expired : ℕ → Entry M → Bool
  is_expired now e = ltb 0 e.expires_at && leb e.expires_at now

  unfoldable pub get_found :
      ℕ → Text → Option (Entry M) → PromptCache M → PromptCache M × Option (List M)
  get_found now key none c = (c, none)
  get_found now key (some e) c =
      if is_expired now e
      then (record c { lru = delete key c.lru }, none)
      else (record c { lru = (key, e) ∷ delete key c.lru }, some e.messages)

  -- `Get`
  unfoldable pub get : ℕ → Text → PromptCache M → PromptCache M × Option (List M)
  get now key c = get_found now key (find key c.lru) c

  -- the list without its last element
  unfoldable pub drop_back : Map (Entry M) → Map (Entry M)
  drop_back l = take (length l - 1) l

  -- The loop that evicts; the fuel is the number of elements.
  unfoldable pub evict_back : ℕ → ℕ → Map (Entry M) → Map (Entry M)
  evict_back zero max l = l
  evict_back (suc fuel) max l =
      let rest = evict_back fuel max (drop_back l) in if ltb max (length l) then rest else l

  unfoldable pub set_found : Text → Entry M → Option (Entry M) → PromptCache M → PromptCache M
  set_found key e (some old) c = record c { lru = (key, e) ∷ delete key c.lru }
  set_found key e none c =
      let l : Map (Entry M) = (key, e) ∷ c.lru in
      record c { lru = evict_back (length l) (to_nat c.cfg.max_entries) l }

  -- `Set`
  unfoldable pub set : ℕ → Text → List M → PromptCache M → PromptCache M
  set now key messages c =
      set_found key (record { messages = messages; expires_at = expiry c.cfg now }) (find key c.lru)
        c

  -- `Delete`, on a context that is not done
  unfoldable pub delete_keys : List Text → PromptCache M → PromptCache M
  delete_keys [] c = c
  delete_keys (key ∷ keys) c = delete_keys keys (record c { lru = delete key c.lru })

  -- `Clear`, on a context that is not done
  unfoldable pub clear_cache : PromptCache M → PromptCache M
  clear_cache c = record c { lru = [] }

  unfoldable pub remove_expired : ℕ → Map (Entry M) → Map (Entry M)
  remove_expired now [] = []
  remove_expired now (x ∷ l) =
      let rest = remove_expired now l in if is_expired now x.1 then delete x.0 rest else x ∷ rest

  -- `Stats`, on a context that is not done
  unfoldable pub stats : ℕ → PromptCache M → PromptCache M × ℕ
  stats now c = let l = remove_expired now c.lru in (record c { lru = l }, length l)
