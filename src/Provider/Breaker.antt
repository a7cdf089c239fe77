-- ===== src/Provider/Breaker.antt =====
-- The circuit breaker of provider_governor.go. Each method runs under the breaker's mutex, so it
-- is one step on the record; the time that it reads is an argument. The log line of
-- `transitionLocked` is left out. The field `state` only ever holds the three constants, so the
-- `default` branch of `reserve` has no counterpart.
pub mod System
pub mod Recovery
use go_rag_agent.Base.{
  ℕ, ◌+◌, ◌-◌, Bool, true, false, ◌&&◌, Option, none, some, ltb, leb, if◌then◌else◌, Text,
}
use go_rag_agent.Provider.Config.{BreakerConfig, breaker_enabled, breaker_normalized}
use go_rag_agent.Provider.Classify.{ErrorClass, canceled, transient, rate_limit}

pub data CircuitState : Type 0 where
  closed opened half_open : CircuitState

pub record Breaker : Type 0 where
  pub provider : Text
  pub cfg : BreakerConfig
  pub state : CircuitState
  pub consecutive_failure : ℕ
  pub opened_at : ℕ
  pub half_open_in_flight : ℕ

-- The admission that `reserve` hands out; `probe` is its field `halfOpen`.
pub record Reservation : Type 0 where
  pub probe : Bool

pub record Reserved : Type 0 where
  pub reservation : Option Reservation
  pub state : CircuitState

unfoldable pub new_breaker : Text → BreakerConfig → Option Breaker
unfolding breaker_enabled breaker_normalized
new_breaker provider cfg =
    if breaker_enabled cfg
    then some (record {
      provider = provider;
      cfg = breaker_normalized cfg;
      state = closed;
      consecutive_failure = 0;
      opened_at = 0;
      half_open_in_flight = 0;
    })
    else none

abbrev transition : CircuitState → Breaker → Breaker
transition next b = record b { state = next }

-- The end of `reserve`: the admission, counted as a probe if the breaker is half open.
unfoldable pub admit : CircuitState → Breaker → Breaker × Reserved
admit half_open b = (
  record b { half_open_in_flight = b.half_open_in_flight + 1 },
  record { reservation = some (record { probe = true }); state = half_open },
)
admit s b = (b, record { reservation = some (record { probe = false }); state = s })

unfoldable pub reserve_in : CircuitState → ℕ → Breaker → Breaker × Reserved
unfolding admit
reserve_in opened now b =
    if ltb now (b.opened_at + b.cfg.open_timeout)
    then (b, record { reservation = none; state = opened })
    else admit half_open (transition half_open b)
reserve_in half_open now b =
    if leb b.cfg.half_open_max_calls b.half_open_in_flight
    then (b, record { reservation = none; state = half_open })
    else admit half_open b
reserve_in closed now b = admit closed b

-- `reserve`: no reservation stands for the error `ErrProviderCircuitOpen`.
unfoldable pub reserve : ℕ → Breaker → Breaker × Reserved
unfolding reserve_in
reserve now b = reserve_in b.state now b

unfoldable pub release_probe : Reservation → Breaker → Breaker
release_probe r b =
    if r.probe && ltb 0 b.half_open_in_flight
    then record b { half_open_in_flight = b.half_open_in_flight - 1 }
    else b

unfoldable pub abort : Reservation → Breaker → Breaker
unfolding release_probe
abort r b = release_probe r b

unfoldable pub is_circuit_failure_class : ErrorClass → Bool
is_circuit_failure_class transient = true
is_circuit_failure_class rate_limit = true
is_circuit_failure_class _ = false

-- The `switch` of `finish`, for a call that was not cancelled.
unfoldable pub settle : CircuitState → Bool → ℕ → Breaker → Breaker
settle closed true now b =
    if leb b.cfg.failure_threshold (b.consecutive_failure + 1)
    then record b { consecutive_failure = 0; opened_at = now; state = opened }
    else record b { consecutive_failure = b.consecutive_failure + 1 }
settle closed false now b = record b { consecutive_failure = 0 }
settle half_open true now b = record b { opened_at = now; state = opened }
settle half_open false now b = record b { consecutive_failure = 0; state = closed }
settle opened failed now b = b

unfoldable pub is_canceled : ErrorClass → Bool
is_canceled canceled = true
is_canceled _ = false

unfoldable pub finish : Reservation → ErrorClass → ℕ → Breaker → Breaker
unfolding release_probe is_circuit_failure_class settle is_canceled
finish r class now b =
    let b' = release_probe r b in
    if is_canceled class then b' else settle b'.state (is_circuit_failure_class class) now b'
