-- ===== src/LongTerm/Tenants.antt =====
-- What others remember in the same memory, under whatever session, stays hidden from a request.
use go_rag_agent.Base.{
  ℕ, Bool, true, false, not, ◌&&◌, List, [], ◌∷◌, ◌++◌, ◌≡◌, refl, ◌∙◌, none, ◌⊎◌, inl, inr, Text,
  codes, text_eq, trim_space, any, join, arith, Option-cases,
}
use go_rag_agent.Access.{MemoryScope}
use go_rag_agent.LongTerm.{
  Floats, MemoryRecord, MemoryHit, MemoryError, validate, replace, store_loop, store,
}
use go_rag_agent.LongTerm.Compress.{compress_turn}
use go_rag_agent.LongTerm.Provider.{
  Provider, RetrieveRequest, MemorizeRequest, in_process, render_hits, after_embedding, retrieve,
  memory_of, store_row, memorize,
}
use go_rag_agent.LongTerm.Isolation.{belongs, is_recallable, retrieve-Recalls}

unfoldable pub same_scope : MemoryScope → MemoryScope → Bool
same_scope a b = text_eq a.user_id b.user_id && text_eq a.tenant b.tenant

module _ {F : Type 0} where
  replace-others :
      (scope : MemoryScope) (r : MemoryRecord F) (s : List (MemoryRecord F))
      → belongs scope r ≡ false
      → any (belongs scope) s ≡ false
      → any (belongs scope) (replace r s) ≡ false
  unfolding replace any
  replace-others scope r [] h g = ground (arith, h)
  replace-others scope r (x ∷ s) h g = ground (arith, h, g, replace-others scope r s h)

  store-others :
      (scope : MemoryScope) (r : MemoryRecord F) (s : List (MemoryRecord F))
      → belongs scope r ≡ false
      → any (belongs scope) s ≡ false
      → any (belongs scope) (store none (r ∷ []) s).1 ≡ false
  unfolding store store_loop
  store-others scope r s h g = elim (Option-cases (validate r)) [
    | inl e ↦ rw (store_loop, e) (replace-others scope r s h g)
    | inr (err, e) ↦ rw (store_loop, e) g
  ]

  memory_of-others :
      (scope : MemoryScope) (p : Provider F) (now : ℕ) (req : MemorizeRequest)
      → (turn : Text × Text) (row : List F) → same_scope req.scope scope ≡ false
      → belongs scope (memory_of p now req turn row) ≡ false
  unfolding same_scope belongs memory_of
  memory_of-others scope p now req turn row h = h

module _ {F D : Type 0} (fl : Floats F D) where
  store_row-others :
      (scope : MemoryScope) (p : Provider F) (now : ℕ) (req : MemorizeRequest)
      → (turn : Text × Text) (r : MemoryError ⊎ List F) (s : List (MemoryRecord F))
      → same_scope req.scope scope ≡ false
      → any (belongs scope) s ≡ false
      → any (belongs scope) (store_row (in_process fl now) p now req turn r s).1 ≡ false
  unfolding store_row in_process
  store_row-others scope p now req turn (inl err) s h g = g
  store_row-others scope p now req turn (inr row) s h g =
      store-others scope (memory_of p now req turn row) s
        (memory_of-others scope p now req turn row h) g

  -- turns remembered one after the other, each at its time
  unfoldable pub memorize_all :
      Provider F → List (ℕ × MemorizeRequest) → List (MemoryRecord F) → List (MemoryRecord F)
  unfolding memorize in_process
  memorize_all p [] s = s
  memorize_all p ((now, req) ∷ turns) s =
      memorize_all p turns (memorize (in_process fl now) p now req s).1

  memorize_all-others :
      (scope : MemoryScope) (p : Provider F) (turns : List (ℕ × MemorizeRequest))
      → (s : List (MemoryRecord F)) → any (λ t. same_scope t.1.scope scope) turns ≡ false
      → any (belongs scope) s ≡ false
      → any (belongs scope) (memorize_all p turns s) ≡ false
  unfolding memorize_all memorize any
  memorize_all-others scope p [] s h g = g
  memorize_all-others scope p ((now, req) ∷ turns) s h g =
      let turn : Text × Text = compress_turn req.user req.assistant p.cfg.max_runes in
      let content : Text = trim_space turn.0 ++ codes "\n" ++ trim_space turn.1 in
      memorize_all-others scope p turns (memorize (in_process fl now) p now req s).1
        (ground (arith, h))
        (store_row-others scope p now req turn (after_embedding (p.embed (content ∷ []))) s
          (ground (arith, h)) g)

  no_hits-render :
      (session : Text) (scope : MemoryScope) (now : ℕ) (s : List (MemoryRecord F))
      → (hits : List (MemoryHit F))
      → any (λ h. not (is_recallable session scope now h.memory)) hits ≡ false
      → (any (λ h. belongs scope h.memory) hits ≡ true → any (belongs scope) s ≡ true)
      → any (belongs scope) s ≡ false
      → render_hits hits ≡ []
  unfolding any is_recallable render_hits join
  no_hits-render session scope now s [] a b c = refl
  no_hits-render session scope now s (x ∷ hits) a b c = absurd (ground (arith, a, b, c))

  -- Whatever turns others remember, with another user or another tenant, in a memory that holds nothing
  -- of a request's scope, the request retrieves the empty text, or an error.
  retrieve-others :
      (p : Provider F) (turns : List (ℕ × MemorizeRequest)) (now : ℕ) (req : RetrieveRequest)
      → (s : List (MemoryRecord F)) (text : Text)
      → any (λ t. same_scope t.1.scope req.scope) turns ≡ false
      → any (belongs req.scope) s ≡ false
      → retrieve (in_process fl now) p now req (memorize_all p turns s) ≡ inr text
      → text ≡ []
  retrieve-others p turns now req s text h g e =
      let t : List (MemoryRecord F) = memorize_all p turns s in
      let r = retrieve-Recalls fl p now req t text e in
      r.is_rendered
      ∙ no_hits-render req.session_id req.scope now t r.hits r.all_recallable
          (r.all_stored (belongs req.scope)) (memorize_all-others req.scope p turns s h g)
