-- ===== src/Agent.antt =====
-- agent.go: the life of an agent. Operations are counted, sessions are handed out, and `Close` waits
-- for the operations in flight and then closes the sessions. The flag `closed` is read and set outside
-- the two locks, so what a caller does under a lock after it read the flag is a step of its own.
pub mod Lifecycle
use go_rag_agent.Base.{
  Bool, true, false, List, [], ◌∷◌, ◌≡◌, ℕ, zero, suc, ◌-◌, Option, none, some, if◌then◌else◌, leb,
  ltb, ℤ, to_nat, Text, text_eq, any,
}

-- How far `Close` is: not called; waiting for the operations in flight; past the wait; with the
-- sessions taken out of their map; returned.
pub data Phase : Type 0 where
  running waiting drained collected done : Phase

pub record Agent : Type 0 where
  pub closed : Bool
  -- a caller of `beginOperation` holds the lock and found the agent open
  pub begins : Bool
  pub in_flight : ℕ
  -- a caller of `GetSession` holds the lock and found the agent open
  pub gets : Bool
  -- the open sessions that were handed out
  pub sessions : List Text
  pub phase : Phase

abbrev pub new_agent : Agent
new_agent = record {
  closed = false;
  begins = false;
  in_flight = 0;
  gets = false;
  sessions = [];
  phase = running;
}

-- `beginOperation` counts the operation
unfoldable pub count_begin : Agent → Agent
count_begin a = record a { begins = false; in_flight = suc a.in_flight }

-- `endOperation`
unfoldable pub end_operation : Agent → Agent
end_operation a = if leb a.in_flight 0 then a else record a { in_flight = a.in_flight - 1 }

-- `GetSession` looks the session up, or adds it
unfoldable pub add_session : Text → Agent → Agent
add_session id a = record a {
  gets = false;
  sessions = if any (text_eq id) a.sessions then a.sessions else id ∷ a.sessions;
}

-- What the goroutines of a program do, one critical section at a time. Left out: a `Close` from a
-- callback, which the guard on `callbackDepth` refuses, a second `Close`, which returns at once, and
-- the wake-up of a `Close` that waits, which goes on here whenever nothing runs.
pub data Step : Agent → Agent → Type 0 where
  -- `beginOperation` takes the lock and reads the flag a second time
  begin_checks :
      (a : Agent) → a.begins ≡ false → a.closed ≡ false → Step a (record a { begins = true })
  begin_counts : (a : Agent) → a.begins ≡ true → Step a (count_begin a)
  ends : (a : Agent) → a.begins ≡ false → Step a (end_operation a)
  get_checks : (a : Agent) → a.gets ≡ false → a.closed ≡ false → Step a (record a { gets = true })
  get_adds : (a : Agent) (id : Text) → a.gets ≡ true → Step a (add_session id a)
  -- `Close`: the swap of the flag, the wait, the map of sessions, each session, the return
  close_swaps :
      (a : Agent) → a.closed ≡ false → Step a (record a { closed = true; phase = waiting })
  close_waits :
      (a : Agent)
      → a.phase ≡ waiting
      → a.begins ≡ false
      → a.in_flight ≡ 0
      → Step a (record a { phase = drained })
  close_collects :
      (a : Agent) → a.phase ≡ drained → a.gets ≡ false → Step a (record a { phase = collected })
  close_closes :
      (a : Agent) (id : Text) (rest : List Text)
      → a.phase ≡ collected
      → a.sessions ≡ id ∷ rest
      → Step a (record a { sessions = rest })
  close_returns :
      (a : Agent) → a.phase ≡ collected → a.sessions ≡ [] → Step a (record a { phase = done })

-- any number of steps
pub data Run : Agent → Agent → Type 0 where
  stop : (a : Agent) → Run a a
  then_step : (a b c : Agent) → Run a b → Step b c → Run a c

pub record ToolCallBudget : Type 0 where
  pub limit : ℕ
  pub used : ℕ

unfoldable pub new_tool_call_budget : ℤ → ToolCallBudget
new_tool_call_budget limit = record {
  limit = if leb (to_nat limit) 0 then 4 else to_nat limit;
  used = 0;
}

-- `Acquire`: whether the call is within the budget
unfoldable pub acquire_call : ToolCallBudget → ToolCallBudget × Bool
acquire_call b = if leb b.limit b.used then (b, false) else (record b { used = suc b.used }, true)
