-- ===== src/Agent/Lifecycle.antt =====
-- What `Close` waits for, and what is left when it returns.
use go_rag_agent.Base.{true, false, [], ◌≡◌, ℕ, ◌≤◌, arith}
use go_rag_agent.Agent.{
  Phase, running, waiting, drained, collected, done, Agent, new_agent, count_begin, end_operation,
  add_session, Step, begin_checks, begin_counts, ends, get_checks, get_adds, close_swaps,
  close_waits, close_collects, close_closes, close_returns, Run, stop, then_step,
}

-- how far `Close` is, as a number
abbrev pub rank : Phase → ℕ
rank running = 0
rank waiting = 1
rank drained = 2
rank collected = 3
rank done = 4

abbrev Inv : Agent → Type 0
Inv a =
    (1 ≤ rank a.phase → a.closed ≡ true)
    × (2 ≤ rank a.phase → a.begins ≡ false)
    × (2 ≤ rank a.phase → a.in_flight ≡ 0)
    × (3 ≤ rank a.phase → a.gets ≡ false)
    × (4 ≤ rank a.phase → a.sessions ≡ [])

Step-Inv : (a b : Agent) → Step a b → Inv a → Inv b
unfolding count_begin end_operation add_session
Step-Inv a b (begin_checks a' x y) v = ground arith
Step-Inv a b (begin_counts a' x) v = ground arith
Step-Inv a b (ends a' x) v = ground arith
Step-Inv a b (get_checks a' x y) v = ground arith
Step-Inv a b (get_adds a' id x) v = ground arith
Step-Inv a b (close_swaps a' x) v = ground arith
Step-Inv a b (close_waits a' x y z) v = ground arith
Step-Inv a b (close_collects a' x y) v = ground arith
Step-Inv a b (close_closes a' id rest x y) v = ground arith
Step-Inv a b (close_returns a' x y) v = ground arith

Run-Inv : (a b : Agent) → Run a b → Inv a → Inv b
Run-Inv a b (stop a') v = v
Run-Inv a b (then_step a' m b' r s) v = Step-Inv m b s (Run-Inv a m r v)

new_agent-Inv : Inv new_agent
new_agent-Inv = ground arith

-- In every run of a new agent: once `Close` is past its wait, no operation is in flight and none is
-- about to start; once it has taken the sessions out of their map, no caller is about to add one;
-- and once it has returned, no session is open.
pub close_waits_for :
    (a : Agent)
    → Run new_agent a
    → (2 ≤ rank a.phase → (a.begins ≡ false) × (a.in_flight ≡ 0))
      × (3 ≤ rank a.phase → a.gets ≡ false)
      × (a.phase ≡ done → a.sessions ≡ [])
close_waits_for a r = let v = Run-Inv new_agent a r new_agent-Inv in ground (arith, v)
