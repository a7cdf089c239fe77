-- ===== src/Session/Clearing.antt =====
-- What a call of `ClearHistory` does to the history, by the moment at which it comes.
use go_rag_agent.Base.{true, false, List, [], ◌∷◌, ◌≡◌, arith, ℤ}
use go_rag_agent.Memory.{Turn}
use go_rag_agent.Session.{local, external, settled, mark_history_clear}
use go_rag_agent.Session.System.{
  free, committed, answered, broken, System, Event, begins, answers, commits, ends, flushes, clears,
  start, step, run,
}
use go_rag_agent.Session.Closing.{Inv, start-Inv, step-Inv, run-Inv, busy}

-- In local mode a clear is pending during an execution only.
abbrev Deferred : System → Type 0
Deferred y = (y.mode ≡ local) × (y.session.pending_clear ≡ true → y.session.executing ≡ true)

step-Deferred : (e : Event) (y : System) → Inv y → Deferred y → Deferred (step e y)
unfolding step
step-Deferred e y v d = ground arith

run-Deferred : (es : List Event) (y : System) → Inv y → Deferred y → Deferred (run es y)
unfolding run
run-Deferred [] y v d = d
run-Deferred (e ∷ es) y v d = run-Deferred es (step e y) (step-Inv e y v) (step-Deferred e y v d)

start-Deferred : (max_rounds : ℤ) → Deferred (start local max_rounds)
unfolding start
start-Deferred max_rounds = ground arith

reached :
    (max_rounds : ℤ) (es : List Event)
    → Inv (run es (start local max_rounds)) × Deferred (run es (start local max_rounds))
reached max_rounds es = (
  run-Inv es (start local max_rounds) (start-Inv local max_rounds),
  run-Deferred es (start local max_rounds) (start-Inv local max_rounds) (start-Deferred max_rounds),
)

-- With the history in the session, a clear on an open session empties it at once when nothing
-- executes, and otherwise by the end of the execution, whatever turn that one adds.
local-clear :
    (max_rounds : ℤ) (es : List Event)
    → let y = run es (start local max_rounds) in
      y.session.closed ≡ false
      → (busy y.phase ≡ false → (step (clears false) y).session.history.turns ≡ [])
        × ((t : Turn)
            → y.phase ≡ committed t
            → (step ends (step (clears false) y)).session.history.turns ≡ [])
        × (y.phase ≡ broken → (step ends (step (clears false) y)).session.history.turns ≡ [])
unfolding step
local-clear max_rounds es is_open =
    let (v, d) = reached max_rounds es in
    (λ idle. ground arith, λ t done. ground arith, λ failed. ground arith)

-- With an external store, a clear that comes before the turn is committed empties the store in
-- place of the commit, and the turn is dropped; one that comes in a failed execution empties it
-- when that one flushes. No clear is left pending either way.
external-clear :
    (y : System) (t : Turn)
    → Inv y
    → y.mode ≡ external
    → (y.phase ≡ answered t
        → let z = step (commits true) (step (clears false) y) in
          (z.store ≡ []) × (z.phase ≡ committed t) × (z.session.pending_clear ≡ false))
      × (y.phase ≡ broken
          → let z = step (flushes true) (step ends (step (clears false) y)) in
            (z.store ≡ []) × (z.phase ≡ free) × (z.session.pending_clear ≡ false))
unfolding step
external-clear y t v m = (λ before. ground arith, λ failed. ground arith)

-- The gap: a clear that comes between the commit and the end of an execution is answered with
-- success, yet the store keeps its turns; the clear stays pending, and the next execution that
-- commits loses its own turn to it.
pub late_clear :
    (y : System) (t u : Turn)
    → Inv y
    → y.mode ≡ external
    → y.phase ≡ committed t
    → y.session.pending_close ≡ false
    → let z = step ends (step (clears false) y) in
      ((mark_history_clear false y.mode y.session).1 ≡ settled)
      × (z.store ≡ y.store)
      × (z.phase ≡ free)
      × (z.clearers ≡ y.clearers)
      × ((step (commits true) (step (answers u) (step begins z))).store ≡ [])
unfolding step mark_history_clear
late_clear y t u v m done stays = ground arith
