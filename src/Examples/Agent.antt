-- ===== src/Examples/Agent.antt =====
-- An agent that is closed with an operation in flight and a session open.
use go_rag_agent.Base.{true, false, [], ◌≡◌, refl, ◌≤◌, pos, codes, any}
use go_rag_agent.Agent.{
  Agent, waiting, drained, collected, done, new_agent, count_begin, end_operation, add_session,
  begin_checks, begin_counts, get_checks, get_adds, close_swaps, close_waits, close_collects,
  close_closes, close_returns, ends, Run, stop, then_step, new_tool_call_budget, acquire_call,
}
use go_rag_agent.Agent.Lifecycle.{rank, close_waits_for}

abbrev begun : Agent
begun = record new_agent { begins = true }

abbrev counted : Agent
counted = count_begin begun

abbrev asked : Agent
asked = record counted { gets = true }

abbrev served : Agent
served = add_session (codes "s") asked

abbrev closing : Agent
closing = record served { closed = true; phase = waiting }

closing-Run : Run new_agent closing
unfolding count_begin add_session any
closing-Run =
    then_step new_agent served closing
      (then_step new_agent asked served
        (then_step new_agent counted asked
          (then_step new_agent begun counted
            (then_step new_agent new_agent begun (stop new_agent)
              (begin_checks new_agent refl refl))
            (begin_counts begun refl))
          (get_checks counted refl refl))
        (get_adds asked (codes "s") refl))
      (close_swaps served refl)

-- the same, once the operation has ended and `Close` has returned
abbrev ended : Agent
ended = end_operation closing

abbrev past_wait : Agent
past_wait = record ended { phase = drained }

abbrev taken : Agent
taken = record past_wait { phase = collected }

abbrev shut : Agent
shut = record taken { sessions = [] }

abbrev returned : Agent
returned = record shut { phase = done }

returned-Run : Run new_agent returned
unfolding count_begin add_session end_operation any
returned-Run =
    then_step new_agent shut returned
      (then_step new_agent taken shut
        (then_step new_agent past_wait taken
          (then_step new_agent ended past_wait
            (then_step new_agent closing ended closing-Run (ends closing refl))
            (close_waits ended refl refl refl))
          (close_collects past_wait refl refl))
        (close_closes taken (codes "s") [] refl refl))
      (close_returns shut refl refl)

close_waits_for_example :
    (2 ≤ rank returned.phase → (returned.begins ≡ false) × (returned.in_flight ≡ 0))
    × (3 ≤ rank returned.phase → returned.gets ≡ false)
    × (returned.phase ≡ done → returned.sessions ≡ [])
close_waits_for_example = close_waits_for returned returned-Run

budget_of_one :
    ((acquire_call (new_tool_call_budget (pos 1))).1 ≡ true)
    × ((acquire_call (acquire_call (new_tool_call_budget (pos 1))).0).1 ≡ false)
unfolding acquire_call new_tool_call_budget
budget_of_one = (refl, refl)
