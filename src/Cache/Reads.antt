-- ===== src/Cache/Reads.antt =====
-- What a read of the prompt cache returns, after any sequence of calls.
use go_rag_agent.Base.{
  true, false, List, [], ◌∷◌, ◌≡◌, refl, ap, ◌∙◌, subst, ℕ, Option, none, some, if◌then◌else◌,
  to_nat, Text, text_eq, any, Map, find, delete, arith, Bool-cases, inl, inr,
}
use go_rag_agent.Cache.{
  PromptCacheConfig, normalize_config, Entry, PromptCache, new_prompt_cache, expiry, is_expired,
  get_found, get, set_found, set, delete_keys, clear_cache, stats,
}
use go_rag_agent.Cache.Finds.{
  find-evict_back, find-delete_sound, find-remove_expired, found_first, found_at, delete_keys-found,
  find-nil,
}

module _ {ℓ} (M : Type ℓ) where
  -- A call, with the time at which it comes.
  pub data Call : Type ℓ where
    got : ℕ → Text → Call
    put_in : ℕ → Text → List M → Call
    deleted : List Text → Call
    cleared : Call
    counted : ℕ → Call

module _ {ℓ} {M : Type ℓ} where
  unfoldable pub perform : Call M → PromptCache M → PromptCache M
  perform (got now key) c = (get now key c).0
  perform (put_in now key messages) c = set now key messages c
  perform (deleted keys) c = delete_keys keys c
  perform cleared c = clear_cache c
  perform (counted now) c = (stats now c).0

  unfoldable pub perform_all : List (Call M) → PromptCache M → PromptCache M
  perform_all [] c = c
  perform_all (call ∷ calls) c = perform_all calls (perform call c)

  -- the entry of the last `Set` of a key that no `Delete` or `Clear` came after
  unfoldable pub latest :
      PromptCacheConfig → Text → List (Call M) → Option (Entry M) → Option (Entry M)
  latest cfg key [] known = known
  latest cfg key (got now k ∷ calls) known = latest cfg key calls known
  latest cfg key (put_in now k messages ∷ calls) known = latest cfg key calls (
      if text_eq key k
      then some (record { messages = messages; expires_at = expiry cfg now })
      else known)
  latest cfg key (deleted ks ∷ calls) known =
      latest cfg key calls (if any (text_eq key) ks then none else known)
  latest cfg key (cleared ∷ calls) known = latest cfg key calls none
  latest cfg key (counted now ∷ calls) known = latest cfg key calls known

  -- what the cache finds is what is known
  abbrev Sound : Text → Option (Entry M) → Map (Entry M) → Type ℓ
  Sound key known l = (e : Entry M) → find key l ≡ some e → known ≡ some e

  front-Sound :
      (key k : Text) (x : Entry M) (l : Map (Entry M)) (known : Option (Entry M))
      → (text_eq key k ≡ true → known ≡ some x)
      → (text_eq key k ≡ false → Sound key known l)
      → Sound key known ((k, x) ∷ delete k l)
  front-Sound key k x l known a s e h = elim (found_first key k x (delete k l) e h) [
    | inl (t, same) ↦ a t ∙ ap some same
    | inr (t, g) ↦ s t e (find-delete_sound key k l e g).1
  ]

  -- what is known of a key once another call set one
  abbrev after_set : Text → Text → Entry M → Option (Entry M) → Option (Entry M)
  after_set key k x known = if text_eq key k then some x else known

  set_found-Sound :
      (key k : Text) (x : Entry M) (c : PromptCache M) (known o : Option (Entry M))
      → Sound key known c.lru
      → Sound key (after_set key k x known) (set_found k x o c).lru
  unfolding set_found
  set_found-Sound key k x c known (some old) s =
      front-Sound key k x c.lru (after_set key k x known) (λ t. rw t refl) (λ t. rw t s)
  set_found-Sound key k x c known none s = λ e h.
      elim (found_first key k x c.lru e
        (find-evict_back key _ (to_nat c.cfg.max_entries) ((k, x) ∷ c.lru) e h)) [
          | inl (t, same) ↦ rw t (ap some same)
          | inr (t, g) ↦ rw t (s e g)
        ]

  get_found-Sound :
      (key k : Text) (now : ℕ) (c : PromptCache M) (known o : Option (Entry M))
      → find k c.lru ≡ o
      → Sound key known c.lru
      → Sound key known (get_found now k o c).0.lru
  unfolding get_found
  get_found-Sound key k now c known none f s = s
  get_found-Sound key k now c known (some x) f s = elim (Bool-cases (is_expired now x)) [
    | inl t ↦ rw t (λ e h. s e (find-delete_sound key k c.lru e h).1)
    | inr t ↦
        rw t (front-Sound key k x c.lru known (λ t. s x (found_at key k c.lru x t f)) (λ t. s))
  ]

  -- the same for one call
  call-Sound :
      (key : Text) (call : Call M) (c : PromptCache M) (known : Option (Entry M))
      → Sound key known c.lru
      → Sound key (latest c.cfg key (call ∷ []) known) (perform call c).lru
  unfolding perform latest get set clear_cache stats
  call-Sound key (got now k) c known s = get_found-Sound key k now c known (find k c.lru) refl s
  call-Sound key (put_in now k messages) c known s =
      set_found-Sound key k (record { messages = messages; expires_at = expiry c.cfg now }) c known
        (find k c.lru) s
  call-Sound key (deleted ks) c known s =
      λ e h. let (a, f) = delete_keys-found key ks c e h in rw a (s e f)
  call-Sound key cleared c known s = λ e h. absurd (find-nil key e h)
  call-Sound key (counted now) c known s = λ e h. s e (find-remove_expired key now c.lru e h)

  latest-cons :
      (cfg : PromptCacheConfig) (key : Text) (call : Call M) (calls : List (Call M))
      → (known : Option (Entry M))
      → latest cfg key (call ∷ calls) known
        ≡ latest cfg key calls (latest cfg key (call ∷ []) known)
  unfolding latest
  latest-cons cfg key (got now k) calls known = refl
  latest-cons cfg key (put_in now k messages) calls known = refl
  latest-cons cfg key (deleted ks) calls known = refl
  latest-cons cfg key cleared calls known = refl
  latest-cons cfg key (counted now) calls known = refl

  delete_keys-cfg : (ks : List Text) (c : PromptCache M) → (delete_keys ks c).cfg ≡ c.cfg
  unfolding delete_keys
  delete_keys-cfg [] c = refl
  delete_keys-cfg (k ∷ ks) c = delete_keys-cfg ks (record c { lru = delete k c.lru })

  pub get_found-cfg :
      (now : ℕ) (k : Text) (o : Option (Entry M)) (c : PromptCache M)
      → (get_found now k o c).0.cfg ≡ c.cfg
  unfolding get_found
  get_found-cfg now k none c = refl
  get_found-cfg now k (some x) c = ground arith

  set_found-cfg :
      (k : Text) (x : Entry M) (o : Option (Entry M)) (c : PromptCache M)
      → (set_found k x o c).cfg ≡ c.cfg
  unfolding set_found
  set_found-cfg k x none c = refl
  set_found-cfg k x (some old) c = refl

  pub perform-cfg : (call : Call M) (c : PromptCache M) → (perform call c).cfg ≡ c.cfg
  unfolding perform get set clear_cache stats
  perform-cfg (got now k) c = get_found-cfg now k (find k c.lru) c
  perform-cfg (put_in now k messages) c = set_found-cfg k _ (find k c.lru) c
  perform-cfg (deleted ks) c = delete_keys-cfg ks c
  perform-cfg cleared c = refl
  perform-cfg (counted now) c = refl

  perform_all-Sound :
      (cfg : PromptCacheConfig) (key : Text) (calls : List (Call M)) (c : PromptCache M)
      → (known : Option (Entry M)) → c.cfg ≡ cfg
      → Sound key known c.lru
      → Sound key (latest cfg key calls known) (perform_all calls c).lru
  unfolding perform_all latest
  perform_all-Sound cfg key [] c known p s = s
  perform_all-Sound cfg key (call ∷ calls) c known p s =
      let known' : Option (Entry M) = latest cfg key (call ∷ []) known in
      let s' : Sound key known' (perform call c).lru =
        subst (λ g. Sound key (latest g key (call ∷ []) known) (perform call c).lru) p
          (call-Sound key call c known s) in
      rw (latest-cons cfg key call calls known)
        (perform_all-Sound cfg key calls (perform call c) known' (perform-cfg call c ∙ p) s')

  get_found-read :
      (now : ℕ) (key : Text) (o : Option (Entry M)) (c : PromptCache M) (messages : List M)
      → (get_found now key o c).1 ≡ some messages
      → (e : Entry M) × (o ≡ some e) × (e.messages ≡ messages) × (is_expired now e ≡ false)
  unfolding get_found
  get_found-read now key none c messages h = absurd (ground arith)
  get_found-read now key (some x) c messages h = (x, refl, ground arith, ground arith)

  -- After any calls on a new cache, a read that finds a prompt returns the one that the last `Set`
  -- of its key stored, no `Delete` of it and no `Clear` came since, and it is not expired.
  pub get-latest :
      (cfg : PromptCacheConfig) (calls : List (Call M)) (now : ℕ) (key : Text) (messages : List M)
      → (get now key (perform_all calls (new_prompt_cache cfg))).1 ≡ some messages
      → (e : Entry M) × (latest (normalize_config cfg) key calls none ≡ some e)
        × (e.messages ≡ messages)
        × (is_expired now e ≡ false)
  unfolding get new_prompt_cache
  get-latest cfg calls now key messages h =
      let start : PromptCache M = new_prompt_cache cfg in
      let c : PromptCache M = perform_all calls start in
      let (e, f, m, fresh) = get_found-read now key (find key c.lru) c messages h in
      (
        e,
        perform_all-Sound (normalize_config cfg) key calls start none refl
            (λ e h. absurd (find-nil key e h)) e f,
        m,
        fresh,
      )
