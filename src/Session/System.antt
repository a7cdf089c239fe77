-- ===== src/Session/System.antt =====
-- One session under its callers: at most one execution holds the slot, and any number of other
-- callers clear the history or close the session between its steps.
use go_rag_agent.Base.{Bool, true, false, List, [], ◌∷◌, ◌++◌, none, some, if◌then◌else◌, ℤ}
use go_rag_agent.Memory.{Turn, new_history}
use go_rag_agent.Session.{
  Mode, local, external, Session, clear_now, begin_execution, end_execution, mark_history_clear,
  take_pending_clear, take_idle_clear, close,
}

-- Where the execution that holds the slot stands. `committed` is behind `commitHistory` of an
-- external store; `flushing` is behind `endExecution` of a failed execution.
pub data Phase : Type 0 where
  free running : Phase
  committed : Turn → Phase
  answered : Turn → Phase
  broken flushing : Phase

pub record System : Type 0 where
  pub session : Session
  pub phase : Phase
  pub mode : Mode
  pub store : List Turn
  -- Callers of `ClearHistory` that have still to clear the store.
  pub clearers : List (Unit {0})

-- The steps of the execution, and those of other callers. A store call that fails is a step that
-- leaves the store as it is.
pub data Event : Type 0 where
  begins : Event
  answers : Turn → Event
  commits : Bool → Event
  breaks : Event
  ends : Event
  flushes : Bool → Event
  clears : Bool → Event
  clears_store : Bool → Event
  closes : Event

unfoldable pub start : Mode → ℤ → System
unfolding new_history
start mode max_rounds = record {
  session = record {
    history = new_history max_rounds;
    closed = false;
    executing = false;
    pending_clear = false;
    pending_close = false;
  };
  phase = free;
  mode = mode;
  store = [];
  clearers = [];
}

unfoldable pub begin : System → System
unfolding begin_execution
begin y =
    let (s, e) = begin_execution y.session in
    elim e [ none ↦ record y { session = s; phase = running } | some x ↦ y ]

-- `commitHistory` with an external store: it clears in place of the append if a clear is pending.
unfoldable pub commit : Turn → Bool → System → System
unfolding take_pending_clear
commit t stored y =
    let (s, wipe) = take_pending_clear y.session in
    let written = if wipe then [] else y.store ++ t ∷ [] in
    record y { session = s; phase = committed t; store = if stored then written else y.store }

-- A store that fails to commit fails the execution under the policy `fail_closed`; the step
-- `breaks` may follow. In local mode `commitHistory` does nothing.
unfoldable pub commit_in : Mode → Turn → Bool → System → System
unfolding commit
commit_in local t stored y = record y { phase = committed t }
commit_in external t stored y = commit t stored y

unfoldable pub finish : Turn → Bool → Phase → System → System
unfolding end_execution
finish t ok next y = record y { session = end_execution y.mode t ok y.session; phase = next }

unfoldable pub flush : Mode → Bool → System → System
unfolding take_idle_clear
flush local stored y = record y { phase = free }
flush external stored y =
    let (s, wipe) = take_idle_clear y.session in
    record y {
      session = s;
      phase = free;
      store = if wipe then (if stored then [] else y.store) else y.store;
    }

unfoldable pub mark : Bool → System → System
unfolding mark_history_clear
mark done y =
    let (s, answer) = mark_history_clear done y.mode y.session in
    record y {
      session = s;
      clearers = elim answer [ clear_now ↦ tt ∷ y.clearers | _ ↦ y.clearers ];
    }

unfoldable pub clear_store : Bool → List (Unit {0}) → System → System
clear_store stored [] y = y
clear_store stored (c ∷ cs) y = record y { clearers = cs; store = if stored then [] else y.store }

abbrev no_turn : Turn
no_turn = record { user = []; assistant = [] }

-- An event that the phase does not allow does nothing.
unfoldable pub step_in : Phase → Event → System → System
unfolding begin commit_in finish flush mark clear_store close
step_in free begins y = begin y
step_in running (answers t) y = record y { phase = answered t }
step_in running breaks y = record y { phase = broken }
step_in (answered t) (commits stored) y = commit_in y.mode t stored y
step_in (answered t) breaks y = record y { phase = broken }
step_in (committed t) ends y = finish t true free y
step_in (committed t) breaks y = record y { phase = broken }
step_in broken ends y = finish no_turn false flushing y
step_in flushing (flushes stored) y = flush y.mode stored y
step_in phase (clears done) y = mark done y
step_in phase (clears_store stored) y = clear_store stored y.clearers y
step_in phase closes y = record y { session = close y.session }
step_in phase event y = y

unfoldable pub step : Event → System → System
unfolding step_in
step e y = step_in y.phase e y

unfoldable pub run : List Event → System → System
unfolding step
run [] y = y
run (e ∷ es) y = run es (step e y)
