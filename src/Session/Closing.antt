-- ===== src/Session/Closing.antt =====
-- Closing a session: no execution starts afterwards, and one under way is not cut off.
use go_rag_agent.Base.{Bool, true, false, List, [], ◌∷◌, ◌≡◌, arith, ◌⊎◌, ℤ}
use go_rag_agent.Session.{Mode}
use go_rag_agent.Session.System.{
  Phase, free, flushing, System, Event, begins, closes, start, step, run,
}

-- The phases in which `executing` is set.
abbrev pub busy : Phase → Bool
busy free = false
busy flushing = false
busy _ = true

pub record Inv (y : System) : Type 0 where
  pub marked : y.session.executing ≡ busy y.phase
  pub alive : y.session.executing ≡ true → y.session.closed ≡ false
  pub deferred : y.session.pending_close ≡ true → y.session.executing ≡ true

pub start-Inv : (mode : Mode) (max_rounds : ℤ) → Inv (start mode max_rounds)
unfolding start
start-Inv mode max_rounds = ground arith

pub step-Inv : (e : Event) (y : System) → Inv y → Inv (step e y)
unfolding step
step-Inv e y v = ground arith

pub run-Inv : (es : List Event) (y : System) → Inv y → Inv (run es y)
unfolding run
run-Inv [] y v = v
run-Inv (e ∷ es) y v = run-Inv es (step e y) (step-Inv e y v)

-- `Close` has been called.
abbrev Shut : System → Type 0
Shut y = (y.session.closed ≡ true) ⊎ (y.session.pending_close ≡ true)

step-Shut : (e : Event) (y : System) → Inv y → Shut y → Shut (step e y)
unfolding step
step-Shut e y v s = ground arith

run-Shut : (es : List Event) (y : System) → Inv y → Shut y → Shut (run es y)
unfolding run
run-Shut [] y v s = s
run-Shut (e ∷ es) y v s = run-Shut es (step e y) (step-Inv e y v) (step-Shut e y v s)

closes-Shut : (y : System) → Inv y → Shut (step closes y)
unfolding step
closes-Shut y v = ground arith

Shut-refuses :
    (y : System) → Inv y → Shut y → y.phase ≡ free → (y.session.closed ≡ true) × (step begins y ≡ y)
unfolding step
Shut-refuses y v s f = ground arith

-- Once `Close` has been called on a session, at any moment and whatever follows, the session is
-- closed whenever no execution holds its slot, and an attempt to start one there changes nothing.
pub close_is_final :
    (mode : Mode) (max_rounds : ℤ) (before after : List Event)
    → let y = run after (step closes (run before (start mode max_rounds))) in
      y.phase ≡ free → (y.session.closed ≡ true) × (step begins y ≡ y)
close_is_final mode max_rounds before after free_slot =
    let v = run-Inv before (start mode max_rounds) (start-Inv mode max_rounds) in
    let y = step closes (run before (start mode max_rounds)) in
    let v' = step-Inv closes (run before (start mode max_rounds)) v in
    Shut-refuses (run after y) (run-Inv after y v')
      (run-Shut after y v' (closes-Shut (run before (start mode max_rounds)) v)) free_slot
