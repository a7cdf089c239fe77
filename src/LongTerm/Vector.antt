-- ===== src/LongTerm/Vector.antt =====
-- long_term_memory.go: the long-term memory that is kept in a vector store, an interface here, as
-- chunks whose metadata holds what a chunk has no field for. `format` and `parse` are those of the
-- standard library for the layout RFC3339Nano.
use go_rag_agent.Base.{
  ℕ, ◌||◌, ◌==◌, leb, List, [], ◌∷◌, ◌++◌, Option, none, some, ◌⊎◌, inl, inr, if◌then◌else◌, ℤ,
  to_nat, Text, codes, trim_space, is_empty, length,
}
use go_rag_agent.Access.Filter.{SearchFilter, ChunkRecord, value_at}
use go_rag_agent.LongTerm.{
  MemoryRecord, MemoryHit, MemoryError, missing_store, context_error, store_error, is_expired,
  validate,
}

abbrev pub user_id_key : Text
user_id_key = codes "rag_memory_user_id"

abbrev pub tenant_key : Text
tenant_key = codes "rag_memory_tenant"

abbrev pub user_key : Text
user_key = codes "rag_memory_user"

abbrev pub reply_key : Text
reply_key = codes "rag_memory_assistant"

abbrev pub time_key : Text
time_key = codes "rag_memory_created_at"

abbrev pub expire_key : Text
expire_key = codes "rag_memory_expires_at"

abbrev pub source_prefix : Text
source_prefix = codes "/ragagent/memory/"

unfoldable pub memory_path : Text → Text
memory_path session = source_prefix ++ trim_space session

pub record Clock : Type 0 where
  pub format : ℕ → Text
  pub parse : Text → Option ℕ

unfoldable pub format_time : Clock → ℕ → Text
format_time clock at = if at == 0 then [] else clock.format at

-- a time that is missing or cannot be read is the zero time
unfoldable pub or_zero : Option ℕ → ℕ
or_zero none = 0
or_zero (some at) = at

unfoldable pub read_time : Clock → Text → ℕ
unfolding or_zero
read_time clock text = if is_empty text then 0 else or_zero (clock.parse text)

pub record VectorHit (F : Type 0) : Type 0 where
  pub chunk : ChunkRecord
  pub embedding : List F
  pub score : F

-- `VectorStore`, as far as the memory calls it
pub record VectorStore (F S : Type 0) : Type 0 where
  pub upsert : List (ChunkRecord × List F) → S → Option Text × S
  pub search_with_filter : List F → ℤ → F → SearchFilter → S → Text ⊎ List (VectorHit F)
  pub delete_by_source_paths : List Text → S → Option Text × S

module _ {F : Type 0} (clock : Clock) where
  -- the chunk without its embedding, which is kept beside it
  unfoldable pub chunk_of : MemoryRecord F → ChunkRecord
  unfolding memory_path format_time
  chunk_of r =
      let text = trim_space r.user ++ codes "\n" ++ trim_space r.assistant in
      record {
        chunk_id = r.id;
        parent_id = r.id;
        source_path = memory_path r.session_id;
        title = codes "long_term_memory";
        text = text;
        start_rune = 0;
        end_rune = length text;
        metadata =
            (user_id_key, r.user_id)
            ∷ (tenant_key, r.tenant)
            ∷ (user_key, r.user)
            ∷ (reply_key, r.assistant)
            ∷ (time_key, clock.format r.created_at)
            ∷ (expire_key, format_time clock r.expires_at)
            ∷ [];
      }

  unfoldable pub record_of : Text → ChunkRecord → List F → MemoryRecord F
  unfolding value_at read_time
  record_of session chunk embedding = record {
    id = chunk.chunk_id;
    session_id = session;
    user_id = value_at user_id_key chunk.metadata;
    tenant = value_at tenant_key chunk.metadata;
    user = value_at user_key chunk.metadata;
    assistant = value_at reply_key chunk.metadata;
    embedding = embedding;
    created_at = read_time clock (value_at time_key chunk.metadata);
    expires_at = read_time clock (value_at expire_key chunk.metadata);
  }

  -- the loop over the records, which stops at one that is refused
  unfoldable pub chunks_of : List (MemoryRecord F) → MemoryError ⊎ List (ChunkRecord × List F)
  unfolding chunk_of
  chunks_of [] = inr []
  chunks_of (r ∷ rs) =
      let rest = chunks_of rs in
      elim (validate r) [
        | some err ↦ inl err
        | none ↦ elim rest [
          | inl err ↦ inl err
          | inr chunks ↦ inr ((chunk_of r, r.embedding) ∷ chunks)
        ]
      ]

  -- the loop over the hits
  unfoldable pub memory_hits : Text → ℕ → List (VectorHit F) → List (MemoryHit F)
  unfolding record_of
  memory_hits session now [] = []
  memory_hits session now (h ∷ hits) =
      let rest = memory_hits session now hits in
      let r = record_of session h.chunk h.embedding in
      if is_expired r now then rest else record { memory = r; score = h.score } ∷ rest

  unfoldable pub vector_found :
      Text → ℕ → Text ⊎ List (VectorHit F) → MemoryError ⊎ List (MemoryHit F)
  unfolding memory_hits
  vector_found session now (inl err) = inl (store_error err)
  vector_found session now (inr hits) = inr (memory_hits session now hits)

module _ {S : Type 0} where
  unfoldable pub wrap_error : Option Text × S → Option MemoryError × S
  wrap_error (none, s) = (none, s)
  wrap_error (some err, s) = (some (store_error err), s)

unfoldable pub memory_filter : Text → SearchFilter
unfolding memory_path
memory_filter session = record {
  source_paths = memory_path session ∷ [];
  source_prefixes = [];
  metadata = [];
}

module _ {F S : Type 0} (clock : Clock) where
  unfoldable pub upsert_chunks :
      VectorStore F S → MemoryError ⊎ List (ChunkRecord × List F) → S → Option MemoryError × S
  unfolding wrap_error
  upsert_chunks v (inl err) s = (some err, s)
  upsert_chunks v (inr chunks) s = wrap_error (v.upsert chunks s)

  unfoldable pub vector_store :
      Option (VectorStore F S) → Option Text → List (MemoryRecord F) → S → Option MemoryError × S
  unfolding upsert_chunks chunks_of
  vector_store v (some err) rs s = (some (context_error err), s)
  vector_store none none rs s = (some missing_store, s)
  vector_store (some v) none rs s =
      if is_empty rs then (none, s) else upsert_chunks v (chunks_of clock rs) s

  unfoldable pub vector_search :
      Option (VectorStore F S)
      → Option Text
      → Text
      → List F
      → ℤ
      → F
      → ℕ
      → S
      → MemoryError ⊎ List (MemoryHit F)
  unfolding vector_found memory_filter
  vector_search v (some err) session query top_k threshold now s = inl (context_error err)
  vector_search none none session query top_k threshold now s = inl missing_store
  vector_search (some v) none session query top_k threshold now s =
      if leb (to_nat top_k) 0 || is_empty query || is_empty (trim_space session)
      then inr []
      else vector_found clock session now
          (v.search_with_filter query top_k threshold (memory_filter session) s)

module _ {F S : Type 0} where
  unfoldable pub vector_clear :
      Option (VectorStore F S) → Option Text → Text → S → Option MemoryError × S
  unfolding wrap_error memory_path
  vector_clear v (some err) session s = (some (context_error err), s)
  vector_clear none none session s = (some missing_store, s)
  vector_clear (some v) none session s =
      if is_empty (trim_space session)
      then (none, s)
      else wrap_error (v.delete_by_source_paths (memory_path session ∷ []) s)
