-- ===== src/Provider/Breaker/Recovery.antt =====
-- How the breaker trips, rejects, and recovers.
use go_rag_agent.Base.{
  ℕ, ◌+◌, ◌≤◌, ◌<◌, ◌≡◌, ◌⊎◌, ◌↔◌, true, List, [], ◌∷◌, Option, none, some, arith, length, Text,
}
use go_rag_agent.Provider.Config.{BreakerConfig}
use go_rag_agent.Provider.Classify.{ErrorClass, canceled}
use go_rag_agent.Provider.Breaker.{
  Breaker, Reservation, closed, opened, half_open, reserve, finish, is_circuit_failure_class,
  new_breaker,
}
use go_rag_agent.Provider.Breaker.System.{Event, run, Inv, run-Inv, probes}

-- Whatever the callers of a fresh breaker do, in whatever order, the counter of probes in flight is
-- the number of probes that callers hold, and the failure count stays below the threshold.
pub shared-Inv :
    (provider : Text) (cfg : BreakerConfig) (es : List Event) {b : Breaker}
    → new_breaker provider cfg ≡ some b
    → 1 ≤ cfg.failure_threshold
    → Inv (run es (record { breaker = b; live = [] }))
unfolding new_breaker probes
shared-Inv provider cfg es {b} fresh h =
    run-Inv es (record { breaker = b; live = [] }) (ground arith)

-- A call is rejected in two cases and no other: the breaker is open and its timeout has not passed,
-- or it is half open with as many probes in flight as it allows.
reserve-rejects :
    (now : ℕ) (b : Breaker)
    → ((reserve now b).1.reservation ≡ none) ↔ (
        ((b.state ≡ opened) × (now < b.opened_at + b.cfg.open_timeout))
        ⊎ ((b.state ≡ half_open) × (b.cfg.half_open_max_calls ≤ b.half_open_in_flight)))
unfolding reserve
reserve-rejects now b = (λ h. ground arith, λ h. ground arith)

-- The calls of one caller at a time, each with the class of its error.
pub finish_held : Option Reservation → ErrorClass → ℕ → Breaker → Breaker
finish_held none class now b = b
finish_held (some r) class now b = finish r class now b

unfoldable pub call : ℕ → ErrorClass → Breaker → Breaker
unfolding finish_held
call now class b =
    let (b', reserved) = reserve now b in finish_held reserved.reservation class now b'

unfoldable pub calls : ℕ → List ErrorClass → Breaker → Breaker
unfolding call
calls now [] b = b
calls now (class ∷ classes) b = calls now classes (call now class b)

abbrev pub AllFail : List ErrorClass → Type 0
AllFail [] = Unit
AllFail (class ∷ classes) = (is_circuit_failure_class class ≡ true) × AllFail classes

abbrev counted : Breaker → Breaker
counted b = record b { consecutive_failure = b.consecutive_failure + 1 }

call-fails :
    (now : ℕ) (class : ErrorClass) (b : Breaker)
    → b.state ≡ closed
    → is_circuit_failure_class class ≡ true
    → b.consecutive_failure + 1 < b.cfg.failure_threshold
    → call now class b ≡ counted b
unfolding call reserve finish
call-fails now class b s f h = ground arith

call-trips :
    (now : ℕ) (class : ErrorClass) (b : Breaker)
    → b.state ≡ closed
    → is_circuit_failure_class class ≡ true
    → b.cfg.failure_threshold ≤ b.consecutive_failure + 1
    → call now class b ≡ record b { consecutive_failure = 0; opened_at = now; state = opened }
unfolding call reserve finish
call-trips now class b s f h = ground arith

-- Failing calls in a row, one at a time, leave a closed breaker closed and counted while they are
-- fewer than the threshold, and open it, with the count reset and the time noted, when they reach it.
calls-trip :
    (now : ℕ) (classes : List ErrorClass) (b : Breaker)
    → b.state ≡ closed
    → AllFail classes
    → b.consecutive_failure < b.cfg.failure_threshold
    → (b.consecutive_failure + length classes < b.cfg.failure_threshold
        → calls now classes b
          ≡ record b { consecutive_failure = b.consecutive_failure + length classes })
      × (b.consecutive_failure + length classes ≡ b.cfg.failure_threshold
          → calls now classes b
            ≡ record b { consecutive_failure = 0; opened_at = now; state = opened })
unfolding calls
calls-trip now [] b s f below = (λ h. ground arith, λ h. absurd (omega arith))
calls-trip now (class ∷ []) b s f below = (
  λ h. ground (arith, call-fails now class b s f.0),
  λ h. ground (arith, call-trips now class b s f.0),
)
calls-trip now (class ∷ next ∷ rest) b s f below = (
  λ h.
      let ih = calls-trip now (next ∷ rest) (counted b) s f.1 (omega arith) in
      rw (call-fails now class b s f.0 (omega arith)) (ground (arith, ih.0)),
  λ h.
      let ih = calls-trip now (next ∷ rest) (counted b) s f.1 (omega arith) in
      rw (call-fails now class b s f.0 (omega arith)) (ground (arith, ih.1)),
)

-- Once open, the breaker lets no call through before its timeout, and the first one after it as a
-- probe.
pub opened-cooldown :
    (now : ℕ) (b : Breaker)
    → b.state ≡ opened
    → (now < b.opened_at + b.cfg.open_timeout
        → reserve now b ≡ (b, record { reservation = none; state = opened }))
      × (b.opened_at + b.cfg.open_timeout ≤ now
          → reserve now b ≡ (
            record b { state = half_open; half_open_in_flight = b.half_open_in_flight + 1 },
            record { reservation = some (record { probe = true }); state = half_open },
          ))
unfolding reserve
opened-cooldown now b s = (λ h. ground arith, λ h. ground arith)

-- A cancelled call changes nothing: neither the state nor any counter of a closed breaker.
pub canceled-neutral : (now : ℕ) (b : Breaker) → b.state ≡ closed → call now canceled b ≡ b
unfolding call reserve finish
canceled-neutral now b s = ground arith
