-- ===== src/Cache/Size.antt =====
-- The bound of the prompt cache, and a read right after a write.
use go_rag_agent.Base.{
  false, List, [], ◌∷◌, ◌≡◌, refl, ◌∙◌, subst, ℕ, zero, suc, ◌+◌, ◌-◌, ◌≤◌, ◌<◌, Option, none, some,
  if◌then◌else◌, ltb, leb, to_nat, Text, text_eq_refl, length, take, Map, find, delete, arith,
  Bool-cases, inl, inr, length-take,
}
use go_rag_agent.Cache.{
  PromptCacheConfig, normalize_config, Entry, PromptCache, new_prompt_cache, expiry, is_expired,
  get_found, get, drop_back, evict_back, set_found, set, delete_keys, clear_cache, remove_expired,
  stats,
}
use go_rag_agent.Cache.Finds.{evict_zero, evict_back-more, evict_back-done}
use go_rag_agent.Cache.Reads.{
  Call, got, put_in, deleted, cleared, counted, perform, perform_all, perform-cfg,
}

module _ {ℓ} {M : Type ℓ} where
  length-delete : (k : Text) (l : Map (Entry M)) → length (delete k l) ≤ length l
  unfolding delete
  length-delete k [] = omega arith
  length-delete k (x ∷ l) = ground (arith, length-delete k l)

  -- a key that is there leaves room
  length-delete_found :
      (k : Text) (l : Map (Entry M)) (e : Entry M)
      → find k l ≡ some e
      → suc (length (delete k l)) ≤ length l
  unfolding delete find
  length-delete_found k [] e h = absurd (ground arith)
  length-delete_found k (x ∷ l) e h = ground (arith, length-delete_found k l e, length-delete k l)

  length-remove_expired : (now : ℕ) (l : Map (Entry M)) → length (remove_expired now l) ≤ length l
  unfolding remove_expired
  length-remove_expired now [] = omega arith
  length-remove_expired now (x ∷ l) =
      ground (arith, length-remove_expired now l, length-delete x.0 (remove_expired now l))

  length-drop_back : (l : Map (Entry M)) (n : ℕ) → length l ≤ suc n → length (drop_back l) ≤ n
  unfolding drop_back
  length-drop_back l n h = omega (arith, length-take (length l - 1) l)

  length-evict_back :
      (fuel max : ℕ) (l : Map (Entry M))
      → length l ≤ max + fuel
      → length (evict_back fuel max l) ≤ max
  unfolding evict_back
  length-evict_back zero max l h = omega arith
  length-evict_back (suc fuel) max l h =
      let shorter = length-drop_back l (max + fuel) (omega arith) in
      ground (arith, length-evict_back fuel max (drop_back l) shorter)

  get_found-length :
      (now : ℕ) (k : Text) (c : PromptCache M) (o : Option (Entry M))
      → find k c.lru ≡ o
      → length (get_found now k o c).0.lru ≤ length c.lru
  unfolding get_found
  get_found-length now k c none f = omega arith
  get_found-length now k c (some x) f = ground (arith, length-delete_found k c.lru x f)

  set_found-length :
      (k : Text) (x : Entry M) (c : PromptCache M) (o : Option (Entry M))
      → find k c.lru ≡ o
      → length c.lru ≤ to_nat c.cfg.max_entries
      → length (set_found k x o c).lru ≤ to_nat c.cfg.max_entries
  unfolding set_found
  set_found-length k x c none f b =
      length-evict_back (length ((k, x) ∷ c.lru)) (to_nat c.cfg.max_entries) ((k, x) ∷ c.lru)
        (omega arith)
  set_found-length k x c (some old) f b = omega (arith, length-delete_found k c.lru old f)

  delete_keys-length :
      (ks : List Text) (c : PromptCache M) → length (delete_keys ks c).lru ≤ length c.lru
  unfolding delete_keys
  delete_keys-length [] c = omega arith
  delete_keys-length (k ∷ ks) c =
      omega
        (arith, delete_keys-length ks (record c { lru = delete k c.lru }), length-delete k c.lru)

  perform-length :
      (call : Call M) (c : PromptCache M)
      → length c.lru ≤ to_nat c.cfg.max_entries
      → length (perform call c).lru ≤ to_nat c.cfg.max_entries
  unfolding perform get set clear_cache stats
  perform-length (got now k) c b = omega (arith, get_found-length now k c (find k c.lru) refl)
  perform-length (put_in now k messages) c b =
      set_found-length k (record { messages = messages; expires_at = expiry c.cfg now }) c
        (find k c.lru) refl b
  perform-length (deleted ks) c b = omega (arith, delete_keys-length ks c)
  perform-length cleared c b = omega arith
  perform-length (counted now) c b = omega (arith, length-remove_expired now c.lru)

  perform_all-length :
      (calls : List (Call M)) (cfg : PromptCacheConfig) (c : PromptCache M)
      → c.cfg ≡ cfg
      → length c.lru ≤ to_nat cfg.max_entries
      → length (perform_all calls c).lru ≤ to_nat cfg.max_entries
  unfolding perform_all
  perform_all-length [] cfg c e b = b
  perform_all-length (call ∷ calls) cfg c e b =
      let room : length (perform call c).lru ≤ to_nat cfg.max_entries =
        subst (λ g. length (perform call c).lru ≤ to_nat g.max_entries) e
          (perform-length call c (rw e b)) in
      perform_all-length calls cfg (perform call c) (perform-cfg call c ∙ e) room

  -- After any calls, a new cache holds at most as many entries as its configuration allows, or 1024
  -- where that is not positive.
  perform_all-bounded :
      (cfg : PromptCacheConfig) (calls : List (Call M))
      → length (perform_all calls (new_prompt_cache cfg)).lru
        ≤ (if leb (to_nat cfg.max_entries) 0 then 1024 else to_nat cfg.max_entries)
  unfolding new_prompt_cache normalize_config
  perform_all-bounded cfg calls = ground (
    arith,
    perform_all-length calls (normalize_config cfg) (new_prompt_cache cfg) refl (omega arith),
  )

  find_front : (k : Text) (x : Entry M) (l : Map (Entry M)) → find k ((k, x) ∷ l) ≡ some x
  unfolding find
  find_front k x l = rw (text_eq_refl k) refl

  drop_back-front :
      (k : Text) (x : Entry M) (y : Text × Entry M) (l : Map (Entry M))
      → drop_back ((k, x) ∷ y ∷ l) ≡ (k, x) ∷ take (length l) (y ∷ l)
  unfolding drop_back
  drop_back-front k x y l =
      let one_less : length ((k, x) ∷ y ∷ l) - 1 ≡ suc (length l) = omega arith in rw one_less refl

  -- an eviction to a bound that is not 0 keeps the front
  evict_back-front :
      (fuel max : ℕ) (k : Text) (x : Entry M) (l : Map (Entry M))
      → 0 < max
      → find k (evict_back fuel max ((k, x) ∷ l)) ≡ some x
  evict_back-front zero max k x l h = rw (evict_zero max ((k, x) ∷ l)) (find_front k x l)
  evict_back-front (suc fuel) max k x [] h =
      let small : ltb max 1 ≡ false = ground arith in
      rw (evict_back-done (suc fuel) max ((k, x) ∷ []) small) (find_front k x [])
  evict_back-front (suc fuel) max k x (y ∷ l) h =
      elim (Bool-cases (ltb max (length ((k, x) ∷ y ∷ l)))) [
        | inl t ↦
            rw (evict_back-more fuel max ((k, x) ∷ y ∷ l) t, drop_back-front k x y l)
              (evict_back-front fuel max k x (take (length l) (y ∷ l)) h)
        | inr t ↦ rw (evict_back-done (suc fuel) max ((k, x) ∷ y ∷ l) t) (find_front k x (y ∷ l))
      ]

  set_found-find :
      (k : Text) (x : Entry M) (o : Option (Entry M)) (c : PromptCache M)
      → 0 < to_nat c.cfg.max_entries
      → find k (set_found k x o c).lru ≡ some x
  unfolding set_found
  set_found-find k x none c h =
      evict_back-front (length ((k, x) ∷ c.lru)) (to_nat c.cfg.max_entries) k x c.lru h
  set_found-find k x (some old) c h = find_front k x (delete k c.lru)

  get_found_fresh :
      (now : ℕ) (k : Text) (x : Entry M) (c : PromptCache M)
      → is_expired now x ≡ false
      → (get_found now k (some x) c).1 ≡ some x.messages
  unfolding get_found
  get_found_fresh now k x c h = rw h refl

  -- With room for an entry, a read of a key right after it was set returns what was set, where that
  -- is not expired.
  pub get-set :
      (at now : ℕ) (k : Text) (messages : List M) (c : PromptCache M)
      → 0 < to_nat c.cfg.max_entries
      → is_expired now (record { messages = messages; expires_at = expiry c.cfg at }) ≡ false
      → (get now k (set at k messages c)).1 ≡ some messages
  unfolding get set
  get-set at now k messages c room fresh =
      let x : Entry M = record { messages = messages; expires_at = expiry c.cfg at } in
      rw (set_found-find k x (find k c.lru) c room) (get_found_fresh now k x _ fresh)
