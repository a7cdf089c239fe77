-- ===== src/LongTerm/Isolation.antt =====
-- A request recalls turns of its own session, user and tenant only.
use go_rag_agent.Base.{
  ℕ, Bool, true, false, not, ◌&&◌, ◌||◌, leb, List, [], ◌∷◌, ◌≡◌, refl, sym, none, ◌⊎◌, inl, inr, ℤ,
  to_nat, Text, text_eq, trim_space, is_empty, any, filter, join, arith, Bool-cases,
}
use go_rag_agent.Access.{MemoryScope}
use go_rag_agent.LongTerm.{Floats, MemoryRecord, MemoryHit, MemoryError, is_expired, search}
use go_rag_agent.LongTerm.Provider.{
  Provider, ProviderConfig, RetrieveRequest, in_process, is_in_scope, filter_hits, render_hits,
  after_embedding, after_search, search_row, retrieve,
}
use go_rag_agent.LongTerm.Scoped.{permits_hit, search-permits}

-- texts that are both empty, or neither, and equal where they are not
same_text :
    (a b : Text)
    → (not (is_empty b) && not (text_eq a b)) ≡ false
    → (is_empty b && not (is_empty a)) ≡ false
    → text_eq a b ≡ true
unfolding text_eq
same_text [] [] h g = refl
same_text (x ∷ a) [] h g = absurd (ground (arith, g))
same_text a (y ∷ b) h g = ground (arith, h)

module _ {F : Type 0} where
  -- the record is of the user and of the tenant, none being one of its own
  unfoldable pub belongs : MemoryScope → MemoryRecord F → Bool
  belongs scope r = text_eq r.user_id scope.user_id && text_eq r.tenant scope.tenant

  -- a record that a request may recall
  unfoldable pub is_recallable : Text → MemoryScope → ℕ → MemoryRecord F → Bool
  unfolding belongs
  is_recallable session scope now r =
      text_eq r.session_id session && not (is_expired r now) && belongs scope r

  -- the tests of the filter come down to equal users and equal tenants
  is_in_scope-belongs :
      (scope : MemoryScope) (now : ℕ) (h : MemoryHit F)
      → is_in_scope scope now h ≡ true
      → belongs scope h.memory ≡ true
  unfolding is_in_scope belongs
  is_in_scope-belongs scope now h e =
      ground
        (arith, e, same_text h.memory.user_id scope.user_id, same_text h.memory.tenant scope.tenant)

  any-filter_hits :
      (p : MemoryHit F → Bool) (scope : MemoryScope) (now : ℕ) (hits : List (MemoryHit F))
      → any p hits ≡ false
      → any p (filter_hits scope now hits) ≡ false
  unfolding filter_hits filter any
  any-filter_hits p scope now [] h = refl
  any-filter_hits p scope now (x ∷ hits) h = ground (arith, h, any-filter_hits p scope now hits)

  filter_hits-any :
      (p : MemoryHit F → Bool) (scope : MemoryScope) (now : ℕ) (hits : List (MemoryHit F))
      → any p (filter_hits scope now hits) ≡ true
      → any p hits ≡ true
  filter_hits-any p scope now hits h = elim (Bool-cases (any p hits)) [
    | inl e ↦ e
    | inr e ↦ absurd (ground (arith, h, any-filter_hits p scope now hits e))
  ]

module _ {F D : Type 0} (fl : Floats F D) where
  filter_hits-recallable :
      (session : Text) (scope : MemoryScope) (threshold : F) (now : ℕ) (hits : List (MemoryHit F))
      → any (λ h. not (permits_hit fl session threshold now h)) hits ≡ false
      → any (λ h. not (is_recallable session scope now h.memory)) (filter_hits scope now hits)
        ≡ false
  unfolding filter_hits filter any permits_hit is_recallable
  filter_hits-recallable session scope threshold now [] h = refl
  filter_hits-recallable session scope threshold now (x ∷ hits) h = ground (
    arith,
    h,
    filter_hits-recallable session scope threshold now hits,
    is_in_scope-belongs scope now x,
  )

  -- What a text recalls: records that are stored and that the request may see.
  pub record Recalls (session : Text) (scope : MemoryScope) (now : ℕ) (s : List (MemoryRecord F))
      (text : Text) : Type 0 where
    pub hits : List (MemoryHit F)
    pub is_rendered : text ≡ render_hits hits
    pub all_recallable : any (λ h. not (is_recallable session scope now h.memory)) hits ≡ false
    pub all_stored :
        (q : MemoryRecord F → Bool) → any (λ h. q h.memory) hits ≡ true → any q s ≡ true

  nothing-Recalls :
      (session : Text) (scope : MemoryScope) (now : ℕ) (s : List (MemoryRecord F))
      → Recalls session scope now s []
  unfolding render_hits join any
  nothing-Recalls session scope now s = record {
    hits = [];
    is_rendered = refl;
    all_recallable = refl;
    all_stored = λ q h. absurd (ground (arith, h));
  }

  after_search-Recalls :
      (session : Text) (scope : MemoryScope) (query : List F) (top_k : ℤ) (threshold : F) (now : ℕ)
      → (s : List (MemoryRecord F)) (r : MemoryError ⊎ List (MemoryHit F)) (text : Text)
      → search fl none session query top_k threshold now s ≡ r
      → after_search scope now r ≡ inr text
      → Recalls session scope now s text
  unfolding after_search
  after_search-Recalls session scope query top_k threshold now s (inl err) text e h =
      absurd (ground (arith, h))
  after_search-Recalls session scope query top_k threshold now s (inr found) text e h =
      let (permits, stored) = search-permits fl none session query top_k threshold now s found e in
      record {
        hits = filter_hits scope now found;
        is_rendered = ground (arith, h);
        all_recallable = filter_hits-recallable session scope threshold now found permits;
        all_stored = λ q g. stored q (filter_hits-any (λ x. q x.memory) scope now found g);
      }

  search_row-Recalls :
      (cfg : ProviderConfig F) (session : Text) (scope : MemoryScope) (now : ℕ)
      → (r : MemoryError ⊎ List F) (s : List (MemoryRecord F)) (text : Text)
      → search_row (in_process fl now) cfg session scope now r s ≡ inr text
      → Recalls session scope now s text
  unfolding search_row in_process
  search_row-Recalls cfg session scope now (inl err) s text h = absurd (ground (arith, h))
  search_row-Recalls cfg session scope now (inr row) s text h =
      after_search-Recalls session scope row cfg.top_k cfg.threshold now s
        (search fl none session row cfg.top_k cfg.threshold now s) text refl h

  -- The text that a request retrieves from the memory in the process renders records that are stored
  -- and of its session, its user and its tenant, and not expired; a request without a user or a tenant
  -- sees the records that have none.
  pub retrieve-Recalls :
      (p : Provider F) (now : ℕ) (req : RetrieveRequest) (s : List (MemoryRecord F)) (text : Text)
      → retrieve (in_process fl now) p now req s ≡ inr text
      → Recalls req.session_id req.scope now s text
  unfolding retrieve
  retrieve-Recalls p now req s text h =
      elim (Bool-cases (leb (to_nat p.cfg.top_k) 0 || is_empty (trim_space req.query))) [
        | inl e ↦
            let none_found : [] ≡ text = ground (arith, h, e) in
            rw (sym none_found) (nothing-Recalls req.session_id req.scope now s)
        | inr e ↦
            search_row-Recalls p.cfg req.session_id req.scope now
              (after_embedding (p.embed (trim_space req.query ∷ []))) s text (ground (arith, h, e))
      ]
