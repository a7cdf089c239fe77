-- ===== src/LongTerm/Recall.antt =====
-- agent.go: what the agent does with its memory around an answer, with a provider or with a long-term
-- memory of its own.
use go_rag_agent.Base.{
  ℕ, Bool, not, ◌&&◌, leb, List, [], ◌∷◌, ◌++◌, Option, none, some, ◌⊎◌, inl, inr, if◌then◌else◌,
  is_neg, to_nat, Text, codes, trim_space, is_empty, join,
}
use go_rag_agent.LongTerm.{MemoryError}
use go_rag_agent.LongTerm.Compress.{compress_turn}
use go_rag_agent.LongTerm.Provider.{
  MemoryStore, Provider, MemorizeRequest, RetrieveRequest, normalize_scope, after_embedding,
  search_row, store_row,
}

pub record RetrieveResult : Type 0 where
  pub memory_text : Text
  pub messages : List (Text × Text)

-- `MemoryProvider`, and whether its errors fail the request
pub record MemoryProvider (S : Type 0) : Type 0 where
  pub retrieve : RetrieveRequest → S → MemoryError ⊎ RetrieveResult
  pub memorize : MemorizeRequest → S → Option MemoryError × S
  pub fail_open : Bool

-- the loop over the messages of a result
unfoldable pub join_messages : List (Text × Text) → List Text
join_messages [] = []
join_messages ((role, content) ∷ messages) =
    let rest = join_messages messages in
    if is_empty (trim_space content)
    then rest
    else (role ++ codes ": " ++ trim_space content) ∷ rest

unfoldable pub join_result : RetrieveResult → Text
unfolding join_messages join
join_result r =
    let parts = join_messages r.messages in
    join (codes "\n\n")
      (if is_empty (trim_space r.memory_text) then parts else trim_space r.memory_text ∷ parts)

unfoldable pub recalled : Bool → MemoryError ⊎ RetrieveResult → MemoryError ⊎ Text
unfolding join_result
recalled fail_open (inl err) = if fail_open then inr [] else inl err
recalled fail_open (inr r) = inr (trim_space (join_result r))

module _ {F S : Type 0} where
  -- the agent's own memory: a store, or none, with its configuration
  unfoldable pub retrieve_long_term :
      Option (MemoryStore F S) → Provider F → Text → ℕ → RetrieveRequest → S → MemoryError ⊎ Text
  unfolding search_row after_embedding normalize_scope
  retrieve_long_term none p namespace now req s = inr []
  retrieve_long_term (some st) p namespace now req s =
      if not (is_neg p.cfg.top_k) && leb (to_nat p.cfg.top_k) 0
      then inr []
      else search_row st p.cfg req.session_id (normalize_scope namespace req.scope) now
          (after_embedding (p.embed (req.query ∷ []))) s

  unfoldable pub store_long_term :
      Option (MemoryStore F S)
      → Provider F
      → Text
      → ℕ
      → MemorizeRequest
      → S
      → Option MemoryError × S
  unfolding store_row compress_turn after_embedding normalize_scope
  store_long_term none p namespace now req s = (none, s)
  store_long_term (some st) p namespace now req s =
      let (user, assistant) = compress_turn req.user req.assistant p.cfg.max_runes in
      let content = trim_space user ++ codes "\n" ++ trim_space assistant in
      store_row st p now (record req { scope = normalize_scope namespace req.scope })
        (user, assistant) (after_embedding (p.embed (content ∷ []))) s

  unfoldable pub retrieve_memory_text :
      Option (MemoryProvider S)
      → Option (MemoryStore F S)
      → Provider F
      → Text
      → ℕ
      → RetrieveRequest
      → S
      → MemoryError ⊎ Text
  unfolding retrieve_long_term recalled normalize_scope
  retrieve_memory_text none st p namespace now req s = retrieve_long_term st p namespace now req s
  retrieve_memory_text (some provider) st p namespace now req s =
      recalled provider.fail_open
        (provider.retrieve (record req { scope = normalize_scope namespace req.scope }) s)

  unfoldable pub store_memory :
      Option (MemoryProvider S)
      → Option (MemoryStore F S)
      → Provider F
      → Text
      → ℕ
      → MemorizeRequest
      → S
      → Option MemoryError × S
  unfolding store_long_term normalize_scope
  store_memory none st p namespace now req s = store_long_term st p namespace now req s
  store_memory (some provider) st p namespace now req s =
      provider.memorize (record req { scope = normalize_scope namespace req.scope }) s
