-- ===== src/Session.antt =====
-- session.go: the state of one session. Each definition is one critical section under `s.mu`; the
-- external history store, where one is configured, is called between them, outside the lock.
pub mod System
pub mod Closing
pub mod Clearing
use go_rag_agent.Base.{Bool, true, false, not, ◌&&◌, Option, none, some, if◌then◌else◌}
use go_rag_agent.Memory.{Turn, History, append, clear}

-- Where the history lives: in the session, or in the store of the configuration.
pub data Mode : Type 0 where
  local external : Mode

pub data SessionError : Type 0 where
  session_closed context_done : SessionError

pub record Session : Type 0 where
  pub history : History
  pub closed : Bool
  pub executing : Bool
  pub pending_clear : Bool
  pub pending_close : Bool

-- `beginExecution`
unfoldable pub begin_execution : Session → Session × Option SessionError
begin_execution s =
    if s.closed then (s, some session_closed) else (record s { executing = true }, none)

-- `endExecution` in three steps, in the order of the source.
unfoldable pub keep_turn : Mode → Turn → Bool → Session → Session
unfolding append clear
keep_turn external t ok s = s
keep_turn local t ok s =
    let s' = if ok then record s { history = append t s.history } else s in
    if s'.pending_clear then record s' { history = clear s'.history; pending_clear = false } else s'

unfoldable pub settle_close : Session → Session
settle_close s = if s.pending_close then record s { closed = true; pending_close = false } else s

unfoldable pub end_execution : Mode → Turn → Bool → Session → Session
unfolding keep_turn settle_close
end_execution mode t ok s = record (settle_close (keep_turn mode t ok s)) { executing = false }

-- What `markHistoryClear` answers: an error, nothing left to do, or that the caller is to clear the
-- store.
pub data Marked : Type 0 where
  failed : SessionError → Marked
  settled clear_now : Marked

unfoldable pub mark_idle : Mode → Session → Session × Marked
unfolding clear
mark_idle local s = (record s { history = clear s.history }, settled)
mark_idle external s = (s, clear_now)

unfoldable pub mark_history_clear : Bool → Mode → Session → Session × Marked
unfolding mark_idle
mark_history_clear done mode s =
    if done
    then (s, failed context_done)
    else if s.closed
    then (s, failed session_closed)
    else if s.executing
    then (record s { pending_clear = true }, settled)
    else mark_idle mode s

-- The locked part of `commitHistory`: is a clear pending?
unfoldable pub take_pending_clear : Session → Session × Bool
take_pending_clear s = (record s { pending_clear = false }, s.pending_clear)

-- The locked part of `flushPendingHistoryClear`.
unfoldable pub take_idle_clear : Session → Session × Bool
take_idle_clear s =
    let flush = s.pending_clear && not s.executing in
    (if flush then record s { pending_clear = false } else s, flush)

-- `Close`
unfoldable pub close : Session → Session
close s = if s.executing then record s { pending_close = true } else record s { closed = true }
