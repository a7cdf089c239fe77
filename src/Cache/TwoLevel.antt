-- ===== src/Cache/TwoLevel.antt =====
-- prompt_cache.go: the cache in two levels, a local cache before a remote one. Either may be missing.
-- A level is anything with the two operations of the interface `PromptCache` and the laws that the
-- reads rely on; the cache in memory is one.
use go_rag_agent.Base.{
  Bool, true, false, List, ◌≡◌, refl, ap, ◌∙◌, ℕ, ◌<◌, Option, none, some, ltb, to_nat, Text, arith,
  find,
}
use go_rag_agent.Cache.{PromptCacheConfig, PromptCache, expiry, is_expired, get, set}
use go_rag_agent.Cache.Size.{get-set}
use go_rag_agent.Cache.Reads.{get_found-cfg}

module _ {ℓ κ} (S : Type κ) (M : Type ℓ) where
  pub record Level : Type (ℓ ⊔ κ) where
    pub read : Text → S → S × Option (List M)
    pub write : Text → List M → S → S

  -- what the two levels rely on of the local one
  pub record LevelLaws (level : Level) : Type (ℓ ⊔ κ) where
    pub is_good : S → Bool
    pub read-is_good : (k : Text) (s : S) → is_good s ≡ true → is_good (level.read k s).0 ≡ true
    pub read-write :
        (k : Text) (messages : List M) (s : S)
        → is_good s ≡ true
        → (level.read k (level.write k messages s)).1 ≡ some messages

module _ {ℓ} (M : Type ℓ) where
  -- The cache in memory at one time.
  abbrev pub in_memory : ℕ → Level (PromptCache M) M
  in_memory now = record { read = get now; write = set now }

  fresh_now :
      (now : ℕ) (messages : List M) (cfg : PromptCacheConfig)
      → is_expired now (record { messages = messages; expires_at = expiry cfg now }) ≡ false
  unfolding is_expired expiry
  fresh_now now messages cfg = ground arith

  get-cfg : (now : ℕ) (k : Text) (c : PromptCache M) → (get now k c).0.cfg ≡ c.cfg
  unfolding get
  get-cfg now k c = get_found-cfg now k (find k c.lru) c

  pub in_memory-LevelLaws : (now : ℕ) → LevelLaws (PromptCache M) M (in_memory now)
  in_memory-LevelLaws now = record {
    is_good = λ c. ltb 0 (to_nat c.cfg.max_entries);
    read-is_good = λ k c h. rw (get-cfg now k c) h;
    read-write = λ k messages c h.
        get-set now now k messages c (ground arith) (fresh_now now messages c.cfg);
  }

  pub in_memory-is_good :
      (now : ℕ) (c : PromptCache M)
      → 0 < to_nat c.cfg.max_entries
      → (in_memory-LevelLaws now).is_good c ≡ true
  unfolding in_memory-LevelLaws
  in_memory-is_good now c h = ground arith

module _ {ℓ κ} {M : Type ℓ} {S : Type κ} where
  unfoldable pub read_level : Option (Level S M) → Text → S → S × Option (List M)
  read_level none k s = (s, none)
  read_level (some level) k s = level.read k s

  unfoldable pub write_level : Option (Level S M) → Text → List M → S → S
  write_level none k messages s = s
  write_level (some level) k messages s = level.write k messages s

module _ {ℓ κ ι} {M : Type ℓ} {L : Type κ} {R : Type ι} where
  unfoldable pub fill :
      Option (Level L M) → Text → L → R × Option (List M) → (L × R) × Option (List M)
  fill local k l (r, none) = ((l, r), none)
  fill local k l (r, some messages) = ((write_level local k messages l, r), some messages)

  unfoldable pub after_local :
      Option (Level L M)
      → Option (Level R M)
      → Text
      → L × Option (List M)
      → R
      → (L × R) × Option (List M)
  after_local local remote k (l, some messages) r = ((l, r), some messages)
  after_local local remote k (l, none) r = fill local k l (read_level remote k r)

  -- `Get`
  unfoldable pub two_level_get :
      Option (Level L M) → Option (Level R M) → Text → L × R → (L × R) × Option (List M)
  two_level_get local remote k s = after_local local remote k (read_level local k s.0) s.1

  -- `Set`
  unfoldable pub two_level_set :
      Option (Level L M) → Option (Level R M) → Text → List M → L × R → L × R
  two_level_set local remote k messages s =
      (write_level local k messages s.0, write_level remote k messages s.1)

module _ {ℓ κ ι} {M : Type ℓ} {L : Type κ} {R : Type ι} where
  after_local-hit :
      (local : Option (Level L M)) (remote : Option (Level R M)) (k : Text)
      → (x : L × Option (List M)) (r : R) (messages : List M) → x.1 ≡ some messages
      → after_local local remote k x r ≡ ((x.0, r), some messages)
  unfolding after_local
  after_local-hit local remote k (l, none) r messages h = absurd (ground arith)
  after_local-hit local remote k (l, some m) r messages h = ap (λ o. ((l, r), o)) h

  after_local-miss :
      (local : Option (Level L M)) (remote : Option (Level R M)) (k : Text)
      → (x : L × Option (List M)) (r : R) → x.1 ≡ none
      → after_local local remote k x r ≡ fill local k x.0 (read_level remote k r)
  unfolding after_local
  after_local-miss local remote k (l, none) r h = refl
  after_local-miss local remote k (l, some m) r h = absurd (ground arith)

  fill-found :
      (local : Option (Level L M)) (k : Text) (l : L) (y : R × Option (List M)) (messages : List M)
      → y.1 ≡ some messages
      → fill local k l y ≡ ((write_level local k messages l, y.0), some messages)
  unfolding fill
  fill-found local k l (r, none) messages h = absurd (ground arith)
  fill-found local k l (r, some m) messages h = ap (λ o. fill local k l (r, o)) h

module _ {ℓ κ ι} {M : Type ℓ} {L : Type κ} {R : Type ι} (local : Level L M)
    (laws : LevelLaws L M local) (remote : Option (Level R M)) where
  -- the local level answers with what was written to it
  read_back :
      (k : Text) (messages : List M) (l : L) (r : R)
      → laws.is_good l ≡ true
      → two_level_get (some local) remote k (local.write k messages l, r)
        ≡ (((local.read k (local.write k messages l)).0, r), some messages)
  unfolding two_level_get read_level
  read_back k messages l r good =
      after_local-hit (some local) remote k (local.read k (local.write k messages l)) r messages
        (laws.read-write k messages l good)

  filled :
      (k : Text) (messages : List M) (l : L) (r : R)
      → (local.read k l).1 ≡ none
      → (read_level remote k r).1 ≡ some messages
      → two_level_get (some local) remote k (l, r)
        ≡ ((local.write k messages (local.read k l).0, (read_level remote k r).0), some messages)
  unfolding two_level_get read_level write_level
  filled k messages l r missed found =
      after_local-miss (some local) remote k (local.read k l) r missed
      ∙ fill-found (some local) k (local.read k l).0 (read_level remote k r) messages found

  -- A prompt that only the remote level has is served by the local one from then on: the next read
  -- of the key returns the same messages and leaves the remote level as it was.
  two_level_get-filled :
      (k : Text) (messages : List M) (l : L) (r : R)
      → laws.is_good l ≡ true
      → (local.read k l).1 ≡ none
      → (read_level remote k r).1 ≡ some messages
      → let s = (two_level_get (some local) remote k (l, r)).0 in
        ((two_level_get (some local) remote k s).1 ≡ some messages)
        × ((two_level_get (some local) remote k s).0.1 ≡ s.1)
  two_level_get-filled k messages l r good missed found =
      let back =
        read_back k messages (local.read k l).0 (read_level remote k r).0
          (laws.read-is_good k l good) in
      rw (filled k messages l r missed found, back) (refl, refl)
