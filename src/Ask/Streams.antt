-- ===== src/Ask/Streams.antt =====
-- agent.go: how a streamed question can end, and where it differs from one that is answered at once.
use go_rag_agent.Base.{◌≡◌, refl, [], ◌∷◌, ap, none, some, ◌⊎◌, inl, inr, Text}
use go_rag_agent.Rag.Rewrite.{rewrite_follow_up}
use go_rag_agent.Ask.{
  AskError, Log, Host, done, emitted, memorized, committed, recorded, pure, load_history, load_from,
  access_boundary_filter, user_queries,
}
use go_rag_agent.Ask.Answer.{unless_done, ask_with_format, ask_body, answered, prepare, traced}
use go_rag_agent.Ask.Streaming.{stream_prepare, stream_answered, ask_stream}
use go_rag_agent.Ask.Keeps.{Calls}
use go_rag_agent.Ask.Commits.{IsOpen, turn_of}

-- The ways in which a stream can end, with its calls, the latest first.
pub data StreamOutcome (h : Host) (query : Text) : (AskError ⊎ Text) × Log → Type 0 where
  cut_short : (err : AskError) → h.context_error [] ≡ some err → StreamOutcome h query (inl err, [])
  refused : (err : AskError) (log : Log) → Calls IsOpen log → StreamOutcome h query (inl err, log)
  undone :
      (err : AskError) (log : Log)
      → Calls IsOpen log
      → h.emit log done ≡ some err
      → StreamOutcome h query (inl err, emitted done ∷ log)
  unrecorded :
      (err : AskError) (log : Log)
      → Calls IsOpen log
      → h.emit log done ≡ none
      → h.record_trace (emitted done ∷ log) none ≡ some err
      → StreamOutcome h query (inl err, recorded none ∷ emitted done ∷ log)
  unremembered :
      (err : AskError) (text : Text) (log : Log)
      → Calls IsOpen log
      → h.emit log done ≡ none
      → h.record_trace (emitted done ∷ log) none ≡ none
      → h.memorize (recorded none ∷ emitted done ∷ log) (turn_of query text) ≡ some err
      → StreamOutcome h query
          (inl err, memorized (turn_of query text) ∷ recorded none ∷ emitted done ∷ log)
  uncommitted :
      (err : AskError) (text : Text) (log : Log)
      → Calls IsOpen log
      → h.emit log done ≡ none
      → h.record_trace (emitted done ∷ log) none ≡ none
      → h.memorize (recorded none ∷ emitted done ∷ log) (turn_of query text) ≡ none
      → h.commit
          (memorized (turn_of query text) ∷ recorded none ∷ emitted done ∷ log)
          (turn_of query text)
        ≡ some err
      → StreamOutcome h query (
        inl err,
        committed (turn_of query text)
            ∷ memorized (turn_of query text)
            ∷ recorded none
            ∷ emitted done
            ∷ log,
      )
  streamed :
      (text : Text) (log : Log)
      → Calls IsOpen log
      → h.emit log done ≡ none
      → h.record_trace (emitted done ∷ log) none ≡ none
      → h.memorize (recorded none ∷ emitted done ∷ log) (turn_of query text) ≡ none
      → h.commit
          (memorized (turn_of query text) ∷ recorded none ∷ emitted done ∷ log)
          (turn_of query text)
        ≡ none
      → StreamOutcome h query (
        inr text,
        committed (turn_of query text)
            ∷ memorized (turn_of query text)
            ∷ recorded none
            ∷ emitted done
            ∷ log,
      )

module _ (h : Host) (query : Text) where
  load_local : h.store_load ≡ none → load_history h ≡ pure h.local_history
  unfolding load_history load_from
  load_local l = ap (load_from h) l

  -- A question that the access boundary denies calls nothing as a stream: no event tells of the error and
  -- no trace records it. Answered at once, it records the error. This is for a history in the process,
  -- and a context that is not done.
  pub stream_denied :
      (format : Text) (err : AskError)
      → h.context_error [] ≡ none
      → h.store_load ≡ none
      → access_boundary_filter h (rewrite_follow_up h.runes query (user_queries h.local_history))
        ≡ inl err
      → (ask_stream h query ≡ (inl err, []))
        × ((ask_with_format h query format).1 ≡ recorded (some err) ∷ [])
  unfolding ask_stream unless_done stream_answered stream_prepare ask_with_format ask_body answered
      prepare traced
  stream_denied format err c l d = (rw (c, load_local l, d) refl, rw (c, load_local l, d) refl)
