-- ===== src/LongTerm/Provider.antt =====
-- memory_provider.go, and the methods of agent.go that remember and recall turns: they embed a text,
-- ask a `LongTermMemoryStore`, an interface here, and render what the scope of the request permits.
use go_rag_agent.Base.{
  ℕ, ◌+◌, Bool, true, false, not, ◌&&◌, ◌||◌, leb, List, [], ◌∷◌, ◌++◌, map, Option, none, some,
  ◌⊎◌, inl, inr, if◌then◌else◌, ℤ, pos, is_neg, to_nat, Text, codes, text_eq, trim_space, is_empty,
  filter, join,
}
use go_rag_agent.Access.{MemoryScope}
use go_rag_agent.LongTerm.{
  Floats, MemoryRecord, MemoryHit, MemoryError, embed_error, empty_embedding, is_expired, store,
  search,
}
use go_rag_agent.LongTerm.Compress.{compress_turn, build_memory_id}

-- `LongTermMemoryStore` on contexts that are not done
pub record MemoryStore (F S : Type 0) : Type 0 where
  pub store_records : List (MemoryRecord F) → S → Option MemoryError × S
  pub search_records : Text → List F → ℤ → F → S → MemoryError ⊎ List (MemoryHit F)

-- the memory in the process, at one time of the clock
unfoldable pub in_process : {F D : Type 0} → Floats F D → ℕ → MemoryStore F (List (MemoryRecord F))
unfolding store search
in_process fl now = record {
  store_records = store none;
  search_records =
      λ session query top_k threshold s. search fl none session query top_k threshold now s;
}

pub record ProviderConfig (F : Type 0) : Type 0 where
  pub top_k : ℤ
  pub threshold : F
  pub ttl : ℤ
  pub max_runes : ℤ

pub record Provider (F : Type 0) : Type 0 where
  pub embed : List Text → Text ⊎ List (List F)
  pub hash : Text → Text
  pub cfg : ProviderConfig F

pub record RetrieveRequest : Type 0 where
  pub session_id : Text
  pub query : Text
  pub scope : MemoryScope

pub record MemorizeRequest : Type 0 where
  pub session_id : Text
  pub scope : MemoryScope
  pub user : Text
  pub assistant : Text

-- `MemoryScope.normalized`
unfoldable pub normalize_scope : Text → MemoryScope → MemoryScope
normalize_scope default_tenant scope = record {
  user_id = trim_space scope.user_id;
  tenant =
      if is_empty (trim_space scope.tenant)
      then trim_space default_tenant
      else trim_space scope.tenant;
}

unfoldable pub or_default : ℤ → ℕ → ℤ
or_default n default = if not (is_neg n) && leb (to_nat n) 0 then pos default else n

unfoldable pub expiry_of : ℤ → ℕ → ℕ
expiry_of ttl now = if leb (to_nat ttl) 0 then 0 else now + to_nat ttl

-- `NewLongTermMemoryProvider`
unfoldable pub with_defaults : {F : Type 0} → ProviderConfig F → ProviderConfig F
unfolding or_default
with_defaults cfg = record cfg {
  top_k = or_default cfg.top_k 3;
  max_runes = or_default cfg.max_runes 512;
}

module _ {F : Type 0} where
  -- one round of `filterLongTermMemoryHits`, whose tests are those of the source in their order
  unfoldable pub is_in_scope : MemoryScope → ℕ → MemoryHit F → Bool
  is_in_scope scope now h =
      if is_expired h.memory now
      then false
      else if not (is_empty scope.user_id) && not (text_eq h.memory.user_id scope.user_id)
      then false
      else if not (is_empty scope.tenant) && not (text_eq h.memory.tenant scope.tenant)
      then false
      else if is_empty scope.user_id && not (is_empty h.memory.user_id)
      then false
      else if is_empty scope.tenant && not (is_empty h.memory.tenant)
      then false
      else true

  unfoldable pub filter_hits : MemoryScope → ℕ → List (MemoryHit F) → List (MemoryHit F)
  unfolding filter is_in_scope
  filter_hits scope now hits = filter (is_in_scope scope now) hits

  unfoldable pub render_hit : MemoryHit F → Text
  render_hit h =
      codes "- User: "
      ++ trim_space h.memory.user
      ++ codes "\n  Assistant: "
      ++ trim_space h.memory.assistant

  -- the hits with an empty line between them
  unfoldable pub render_hits : List (MemoryHit F) → Text
  unfolding join render_hit
  render_hits hits = join (codes "\n\n") (map render_hit hits)

  unfoldable pub memory_of :
      Provider F → ℕ → MemorizeRequest → Text × Text → List F → MemoryRecord F
  unfolding build_memory_id expiry_of
  memory_of p now req (user, assistant) row = record {
    id = build_memory_id p.hash req.session_id req.scope user assistant;
    session_id = req.session_id;
    user_id = req.scope.user_id;
    tenant = req.scope.tenant;
    user = user;
    assistant = assistant;
    embedding = row;
    created_at = now;
    expires_at = expiry_of p.cfg.ttl now;
  }

  -- the only row, where it is not empty
  unfoldable pub single_row : List (List F) → Option (List F)
  single_row [] = none
  single_row (row ∷ []) = if is_empty row then none else some row
  single_row (row ∷ next ∷ rows) = none

  unfoldable pub after_embedding : Text ⊎ List (List F) → MemoryError ⊎ List F
  unfolding single_row
  after_embedding (inl err) = inl (embed_error err)
  after_embedding (inr rows) = elim (single_row rows) [
    | none ↦ inl empty_embedding
    | some row ↦ inr row
  ]

  unfoldable pub after_search :
      MemoryScope → ℕ → MemoryError ⊎ List (MemoryHit F) → MemoryError ⊎ Text
  unfolding filter_hits render_hits
  after_search scope now (inl err) = inl err
  after_search scope now (inr hits) = inr (render_hits (filter_hits scope now hits))

  module _ {S : Type 0} where
    unfoldable pub search_row :
        MemoryStore F S
        → ProviderConfig F
        → Text
        → MemoryScope
        → ℕ
        → MemoryError ⊎ List F
        → S
        → MemoryError ⊎ Text
    unfolding after_search
    search_row st cfg session scope now (inl err) s = inl err
    search_row st cfg session scope now (inr row) s =
        after_search scope now (st.search_records session row cfg.top_k cfg.threshold s)

    -- the text of `MemoryRetrieveResult`, which has no messages
    unfoldable pub retrieve :
        MemoryStore F S → Provider F → ℕ → RetrieveRequest → S → MemoryError ⊎ Text
    unfolding search_row after_embedding
    retrieve st p now req s =
        let query = trim_space req.query in
        if leb (to_nat p.cfg.top_k) 0 || is_empty query
        then inr []
        else search_row st p.cfg req.session_id req.scope now
            (after_embedding (p.embed (query ∷ []))) s

    unfoldable pub store_row :
        MemoryStore F S
        → Provider F
        → ℕ
        → MemorizeRequest
        → Text × Text
        → MemoryError ⊎ List F
        → S
        → Option MemoryError × S
    unfolding memory_of
    store_row st p now req turn (inl err) s = (some err, s)
    store_row st p now req turn (inr row) s = st.store_records (memory_of p now req turn row ∷ []) s

    unfoldable pub memorize :
        MemoryStore F S → Provider F → ℕ → MemorizeRequest → S → Option MemoryError × S
    unfolding store_row compress_turn after_embedding
    memorize st p now req s =
        let (user, assistant) = compress_turn req.user req.assistant p.cfg.max_runes in
        let content = trim_space user ++ codes "\n" ++ trim_space assistant in
        store_row st p now req (user, assistant) (after_embedding (p.embed (content ∷ []))) s
