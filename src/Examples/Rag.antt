-- ===== src/Examples/Rag.antt =====
-- Examples for internal/rag.
use go_rag_agent.Base.{
  ℕ, ◌≤◌, ◌≡◌, refl, List, [], ◌∷◌, pos, length, reverse, is_empty, false, codes, text_eq, map,
  join, fields, fields_func, trim_space, trim_left, is_space, any, ◌==◌,
}
use go_rag_agent.Rag.Chunker.{Chunker, Chunk, Document, new_chunker, split, decimal}
use go_rag_agent.Rag.Chunker.Windows.{glue, split-glue}
use go_rag_agent.Rag.Context.{
  Context, assemble_context, ok, assemble_loop, finish, is_seen, next_part, keep,
}
use go_rag_agent.Provider.Classify
use go_rag_agent.Rag.Rewrite.{
  RuneTables, normalize_query_text, words_of, is_one_of, is_demonstrative_pronoun_usage,
  has_reference, looks_referential, is_concrete_history_item, is_usable, rewrite_loop,
  rewrite_follow_up, IsRewrite, rewrite_follow_up-IsRewrite,
}
use go_rag_agent.Rag.Context.Budget.{Renders, Distinct, assemble_context-ok}

abbrev note : Document
note = record {
  id = codes "n";
  source_path = codes "/n.md";
  title = codes "n";
  metadata = [];
  content = codes "abcdefgh";
}

abbrev by_four : Chunker
by_four = record { size = 4; overlap = 1 }

split-glue_example : glue 1 (split by_four note) ≡ codes "abcdefgh"
unfolding new_chunker
split-glue_example = split-glue (pos 4) (pos 1) note {c = by_four} refl

abbrev texts : List Chunk → List (List ℕ)
texts = mathlib.Core.List.map (λ c. c.text)

note_chunks : texts (split by_four note) ≡ codes "abcd" ∷ codes "defg" ∷ codes "gh" ∷ []
unfolding split
note_chunks = refl

tenth : decimal 10 ≡ codes "10"
unfolding decimal
tenth = refl

abbrev first_chunk : Chunk
first_chunk = record {
  chunk_id = codes "n:0";
  parent_id = codes "n";
  source_path = codes "/n.md";
  title = codes "n";
  metadata = [];
  text = codes "abcd";
  start_rune = 0;
  end_rune = 4;
}

abbrev short_context : Context
short_context = record { kept = first_chunk ∷ []; text = codes "[n:0] abcd" }

abbrev twice : List Chunk
twice = first_chunk ∷ first_chunk ∷ []

twice_assembled : assemble_context twice (pos 12) ≡ ok short_context
unfolding assemble_context assemble_loop finish is_seen next_part keep text_eq
twice_assembled = refl

assemble_context-ok_example :
    (length short_context.text ≤ 12)
    × (ks : List Chunk) × (short_context.kept ≡ reverse ks)
    × (is_empty ks ≡ false)
    × Renders ks short_context.text
    × Distinct ks
assemble_context-ok_example = assemble_context-ok twice (pos 12) twice_assembled

-- the letters A to Z, and the question mark
abbrev ascii : RuneTables
ascii = record {
  to_lower = λ text. map go_rag_agent.Provider.Classify.to_lower text;
  is_punct = λ c. c == 63;
}

abbrev asked : List (List ℕ)
asked = codes "What is RAG?" ∷ codes "tell  me more" ∷ codes "Is it fast?" ∷ []

rewrite_it :
    rewrite_follow_up ascii (codes " How does  it work?") asked
    ≡ codes "What is RAG? How does it work?"
unfolding rewrite_follow_up rewrite_loop is_usable is_concrete_history_item looks_referential
    has_reference is_demonstrative_pronoun_usage is_one_of words_of normalize_query_text fields
    fields_func join any trim_space trim_left is_space text_eq
    go_rag_agent.Provider.Classify.to_lower
rewrite_it = refl

-- a demonstrative in front of a noun refers to nothing
rewrite_that : rewrite_follow_up ascii (codes "explain that idea") asked ≡ codes "explain that idea"
unfolding rewrite_follow_up rewrite_loop is_usable is_concrete_history_item looks_referential
    has_reference is_demonstrative_pronoun_usage is_one_of words_of normalize_query_text fields
    fields_func join any trim_space trim_left is_space text_eq
    go_rag_agent.Provider.Classify.to_lower
rewrite_that = refl

query_shown : is_empty (normalize_query_text (codes "why is it?")) ≡ false
unfolding normalize_query_text fields fields_func join trim_space trim_left is_space
query_shown = refl

rewrite_follow_up-IsRewrite_example :
    IsRewrite ascii
      (normalize_query_text (codes "why is it?"))
      (reverse asked)
      (rewrite_follow_up ascii (codes "why is it?") asked)
rewrite_follow_up-IsRewrite_example =
    rewrite_follow_up-IsRewrite ascii (codes "why is it?") asked query_shown
