-- ===== src/Cache/Finds.antt =====
-- What the cache still finds after a deletion, an eviction and a move to the front.
use go_rag_agent.Base.{
  true, false, List, [], ◌∷◌, ◌≡◌, refl, sym, ap, ◌∙◌, ℕ, zero, suc, ◌-◌, some, ltb, Text, text_eq,
  text_eq→eq, any, length, take, Map, find, delete, find-delete, find-delete_ne, arith, Bool-cases,
  ◌⊎◌, inl, inr,
}
use go_rag_agent.Cache.{
  Entry, PromptCache, is_expired, drop_back, evict_back, delete_keys, remove_expired,
}

module _ {ℓ} {M : Type ℓ} where
  pub find-take :
      (key : Text) (n : ℕ) (l : Map (Entry M)) (e : Entry M)
      → find key (take n l) ≡ some e
      → find key l ≡ some e
  unfolding find
  find-take key zero l e h = absurd (ground arith)
  find-take key (suc n) [] e h = h
  find-take key (suc n) (x ∷ l) e h = ground (arith, find-take key n l e)

  pub evict_back-more :
      (fuel max : ℕ) (l : Map (Entry M))
      → ltb max (length l) ≡ true
      → evict_back (suc fuel) max l ≡ evict_back fuel max (drop_back l)
  unfolding evict_back
  evict_back-more fuel max l t = rw t refl

  pub evict_back-done :
      (fuel max : ℕ) (l : Map (Entry M)) → ltb max (length l) ≡ false → evict_back fuel max l ≡ l
  unfolding evict_back
  evict_back-done zero max l t = refl
  evict_back-done (suc fuel) max l t = rw t refl

  pub evict_zero : (max : ℕ) (l : Map (Entry M)) → evict_back zero max l ≡ l
  unfolding evict_back
  evict_zero max l = refl

  pub find-evict_back :
      (key : Text) (fuel max : ℕ) (l : Map (Entry M)) (e : Entry M)
      → find key (evict_back fuel max l) ≡ some e
      → find key l ≡ some e
  unfolding drop_back
  find-evict_back key zero max l e h = sym (ap (find key) (evict_zero max l)) ∙ h
  find-evict_back key (suc fuel) max l e h = elim (Bool-cases (ltb max (length l))) [
    | inl t ↦ find-take key (length l - 1) l e (
        find-evict_back key fuel max (drop_back l) e
          (sym (ap (find key) (evict_back-more fuel max l t)) ∙ h))
    | inr t ↦ sym (ap (find key) (evict_back-done (suc fuel) max l t)) ∙ h
  ]

  pub find-delete_sound :
      (key k : Text) (l : Map (Entry M)) (e : Entry M)
      → find key (delete k l) ≡ some e
      → (text_eq key k ≡ false) × (find key l ≡ some e)
  find-delete_sound key k l e h = elim (Bool-cases (text_eq key k)) [
    | inl t ↦
        absurd
          (ground (arith, ap (λ k. find key (delete k l)) (text_eq→eq key k t), find-delete key l))
    | inr t ↦ (t, sym (find-delete_ne key k l t) ∙ h)
  ]

  find-cons_ne :
      (key : Text) (x : Text × Entry M) (l : Map (Entry M))
      → text_eq key x.0 ≡ false
      → find key (x ∷ l) ≡ find key l
  unfolding find
  find-cons_ne key x l t = rw t refl

  find-kept :
      (key : Text) (x : Text × Entry M) (l l' : Map (Entry M)) (e : Entry M)
      → (find key l' ≡ some e → find key l ≡ some e)
      → find key (x ∷ l') ≡ some e
      → find key (x ∷ l) ≡ some e
  unfolding find
  find-kept key x l l' e f h = elim (Bool-cases (text_eq key x.0)) [
    | inl t ↦ ground arith
    | inr t ↦ ground (arith, f)
  ]

  removed :
      (now : ℕ) (x : Text × Entry M) (l : Map (Entry M))
      → is_expired now x.1 ≡ true
      → remove_expired now (x ∷ l) ≡ delete x.0 (remove_expired now l)
  unfolding remove_expired
  removed now x l t = rw t refl

  kept :
      (now : ℕ) (x : Text × Entry M) (l : Map (Entry M))
      → is_expired now x.1 ≡ false
      → remove_expired now (x ∷ l) ≡ x ∷ remove_expired now l
  unfolding remove_expired
  kept now x l t = rw t refl

  removed_none : (now : ℕ) → remove_expired {M = M} now [] ≡ []
  unfolding remove_expired
  removed_none now = refl

  pub find-remove_expired :
      (key : Text) (now : ℕ) (l : Map (Entry M)) (e : Entry M)
      → find key (remove_expired now l) ≡ some e
      → find key l ≡ some e
  find-remove_expired key now [] e h = sym (ap (find key) (removed_none now)) ∙ h
  find-remove_expired key now (x ∷ l) e h = elim (Bool-cases (is_expired now x.1)) [
    | inl t ↦
        let rest : Map (Entry M) = remove_expired now l in
        let (ne, f) =
          find-delete_sound key x.0 rest e (sym (ap (find key) (removed now x l t)) ∙ h) in
        find-cons_ne key x l ne ∙ find-remove_expired key now l e f
    | inr t ↦
        find-kept key x l (remove_expired now l) e (find-remove_expired key now l e)
          (sym (ap (find key) (kept now x l t)) ∙ h)
  ]

  -- A moved or replaced entry comes first, the others as before.
  pub found_first :
      (key k : Text) (x : Entry M) (l : Map (Entry M)) (e : Entry M)
      → find key ((k, x) ∷ l) ≡ some e
      → ((text_eq key k ≡ true) × (x ≡ e)) ⊎ ((text_eq key k ≡ false) × (find key l ≡ some e))
  unfolding find
  found_first key k x l e h = elim (Bool-cases (text_eq key k)) [
    | inl t ↦ inl (t, ground arith)
    | inr t ↦ inr (t, ground arith)
  ]

  pub found_at :
      (key k : Text) (l : Map (Entry M)) (x : Entry M)
      → text_eq key k ≡ true
      → find k l ≡ some x
      → find key l ≡ some x
  found_at key k l x t f = ap (λ j. find j l) (text_eq→eq key k t) ∙ f

  pub delete_keys-found :
      (key : Text) (ks : List Text) (c : PromptCache M) (e : Entry M)
      → find key (delete_keys ks c).lru ≡ some e
      → (any (text_eq key) ks ≡ false) × (find key c.lru ≡ some e)
  unfolding delete_keys any
  delete_keys-found key [] c e h = (refl, h)
  delete_keys-found key (k ∷ ks) c e h =
      let (a, f) = delete_keys-found key ks (record c { lru = delete k c.lru }) e h in
      let (ne, f') = find-delete_sound key k c.lru e f in (ground arith, f')

  pub find-nil : (key : Text) (e : Entry M) → ¬ (find key [] ≡ some e)
  unfolding find
  find-nil key e h = ground arith
