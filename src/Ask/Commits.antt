-- ===== src/Ask/Commits.antt =====
-- agent.go: how a question can end, and what it has stored then.
use go_rag_agent.Base.{false, ◌≡◌, [], ◌∷◌, none, some, ◌⊎◌, inl, inr, Text}
use go_rag_agent.Memory.{Turn}
use go_rag_agent.Ask.{AskError, Call, Log, Host, emitted, memorized, committed, recorded}
use go_rag_agent.Ask.Answer.{Answer, after_record}
use go_rag_agent.Ask.Keeps.{Calls}
use go_rag_agent.Ask.Parts.{Admits, is_done}

-- a call that stores nothing and does not end the question
abbrev pub IsOpen : Call → Type 0
IsOpen c = elim c [
  | memorized turn ↦ ⊥
  | committed turn ↦ ⊥
  | emitted event ↦ is_done event ≡ false
  | recorded err ↦ elim err [ none ↦ ⊥ | some e ↦ Unit {0} ]
  | _ ↦ Unit {0}
]

pub IsOpen-Admits : (h : Host) → Admits h IsOpen
IsOpen-Admits h = record {
  loads = tt;
  hooks = λ k. tt;
  searches = λ query f ok. tt;
  recalls = λ query. tt;
  asks = λ request. tt;
  emits = λ event e. e;
  records = λ err. tt;
}

abbrev pub turn_of : Text → Text → Turn
turn_of query text = record { user = query; assistant = text }

-- The ways in which a question that is answered at once can end, with its calls, the latest first.
-- What the trace records is the error that the question had; an error of the recorder itself is what
-- the caller sees.
pub data AskOutcome (h : Host) (query : Text) : (AskError ⊎ Answer) × Log → Type 0 where
  cut_short : (err : AskError) → h.context_error [] ≡ some err → AskOutcome h query (inl err, [])
  refused :
      (err : AskError) (log : Log)
      → Calls IsOpen log
      → AskOutcome h query
          (after_record (inl err) (h.record_trace log (some err)), recorded (some err) ∷ log)
  unremembered :
      (err : AskError) (text : Text) (log : Log)
      → Calls IsOpen log
      → h.memorize log (turn_of query text) ≡ some err
      → AskOutcome h query (
        after_record (inl err) (h.record_trace (memorized (turn_of query text) ∷ log) (some err)),
        recorded (some err) ∷ memorized (turn_of query text) ∷ log,
      )
  uncommitted :
      (err : AskError) (text : Text) (log : Log)
      → Calls IsOpen log
      → h.memorize log (turn_of query text) ≡ none
      → h.commit (memorized (turn_of query text) ∷ log) (turn_of query text) ≡ some err
      → AskOutcome h query (
        after_record (inl err) (
            h.record_trace
              (committed (turn_of query text) ∷ memorized (turn_of query text) ∷ log)
              (some err)),
        recorded (some err) ∷ committed (turn_of query text) ∷ memorized (turn_of query text) ∷ log,
      )
  kept :
      (a : Answer) (log : Log)
      → Calls IsOpen log
      → h.memorize log (turn_of query a.text) ≡ none
      → h.commit (memorized (turn_of query a.text) ∷ log) (turn_of query a.text) ≡ none
      → AskOutcome h query (
        after_record (inr a) (
            h.record_trace
              (committed (turn_of query a.text) ∷ memorized (turn_of query a.text) ∷ log)
              none),
        recorded none ∷ committed (turn_of query a.text) ∷ memorized (turn_of query a.text) ∷ log,
      )
