-- ===== src/Knowledge/Indexed.antt =====
-- The paths at which a list of stored chunks stands.
use go_rag_agent.Base.{Bool, List, Text, text_eq, any}
use go_rag_agent.Knowledge.Ingest.{Stored}

module _ {V : Type 0} where
  unfoldable pub stored_at : Text → List (Stored V) → Bool
  unfolding any
  stored_at path records = any (λ r. text_eq path r.chunk.source_path) records
