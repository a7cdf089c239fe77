-- ===== src/Provider/Governor/Leaks.antt =====
-- No admission of the breaker is lost between `acquire` and `finish`.
use go_rag_agent.Base.{ℕ, ◌+◌, ◌≡◌, refl, Option, none, some, arith}
use go_rag_agent.Provider.Classify.{ErrorClass}
use go_rag_agent.Provider.Breaker.{Breaker, Reservation, CircuitState, reserve, finish, abort}
use go_rag_agent.Provider.Breaker.System.{probe_count}
use go_rag_agent.Provider.Limiter.{Limiter, Waited, admitted, interrupted, blocked, wait}
use go_rag_agent.Provider.Governor.{
  Governor, Handle, Acquired, granted, refused, waiting, Moment, acquire, acquire_breaker,
  after_reserve, acquire_token, after_wait, finish_handle, abort_handle, fresh_handle,
}

abbrev pub in_flight : Governor → ℕ
in_flight g = elim g.circuit_breaker [ none ↦ 0 | some b ↦ b.half_open_in_flight ]

abbrev pub held : Option Reservation → ℕ
held none = 0
held (some r) = probe_count r

-- The probes that an acquired handle holds.
abbrev pub owed : Acquired → ℕ
owed (granted h) = held h.reservation
owed (refused h e) = 0
owed waiting = 0

-- A call that is still waiting holds its probe, but has not returned the handle yet.
abbrev pub Settled : Acquired → Type 0
Settled (granted h) = Unit {0}
Settled (refused h e) = Unit {0}
Settled waiting = ⊥

abort_handle-in_flight :
    (h : Handle) (g : Governor) (base : ℕ)
    → in_flight g ≡ base + held h.reservation
    → in_flight (abort_handle h g) ≡ base
unfolding abort_handle abort
abort_handle-in_flight h g base e = ground arith

after_wait-owed :
    (h : Handle) (w : Limiter × Waited) (g : Governor) (base : ℕ)
    → in_flight g ≡ base + held h.reservation
    → Settled (after_wait h w g).1
    → in_flight (after_wait h w g).0 ≡ base + owed (after_wait h w g).1
unfolding after_wait
after_wait-owed h (l, admitted d) g base e s = e
after_wait-owed h (l, interrupted d x) g base e s =
    omega (arith, abort_handle-in_flight h (record g { rate_limiter = some l }) base e)
after_wait-owed h (l, blocked) g base e s = absurd s

acquire_token-owed :
    (h : Handle) (m : Moment) (o : Option Limiter) (g : Governor) (base : ℕ)
    → in_flight g ≡ base + held h.reservation
    → Settled (acquire_token h m o g).1
    → in_flight (acquire_token h m o g).0 ≡ base + owed (acquire_token h m o g).1
unfolding acquire_token
acquire_token-owed h m none g base e s = e
acquire_token-owed h m (some l) g base e s =
    after_wait-owed h (wait m.wait_from m.rounds l) g base e s

after_reserve-owed :
    (m : Moment) (b : Breaker) (o : Option Reservation) (c : CircuitState) (g : Governor) (base : ℕ)
    → b.half_open_in_flight ≡ base + held o
    → Settled (after_reserve m (b, record { reservation = o; state = c }) g).1
    → in_flight (after_reserve m (b, record { reservation = o; state = c }) g).0
      ≡ base + owed (after_reserve m (b, record { reservation = o; state = c }) g).1
unfolding after_reserve
after_reserve-owed m b none c g base e s = e
after_reserve-owed m b (some r) c g base e s =
    acquire_token-owed (record { throttle_delay = 0; circuit_state = c; reservation = some r }) m
      g.rate_limiter (record g { circuit_breaker = some b }) base e s

reserve-held :
    (now : ℕ) (b : Breaker)
    → (reserve now b).0.half_open_in_flight
      ≡ b.half_open_in_flight + held (reserve now b).1.reservation
unfolding reserve
reserve-held now b = ground arith

acquire_breaker-owed :
    (m : Moment) (o : Option Breaker) (g : Governor)
    → g.circuit_breaker ≡ o
    → Settled (acquire_breaker m o g).1
    → in_flight (acquire_breaker m o g).0 ≡ in_flight g + owed (acquire_breaker m o g).1
unfolding acquire_breaker
acquire_breaker-owed m none g e s =
    acquire_token-owed fresh_handle m g.rate_limiter g (in_flight g) (omega arith) s
acquire_breaker-owed m (some b) g e s =
    let (b', reserved) = reserve m.reserve_at b in
    after_reserve-owed m b' reserved.reservation reserved.state g (in_flight g)
      (rw (e, in_flight) (reserve-held m.reserve_at b)) s

-- An acquire that is granted owes the breaker exactly the probe in its handle, and one that is
-- refused, by the breaker or by an interrupted wait for a token, owes nothing.
pub acquire-owed :
    (m : Moment) (g : Governor)
    → Settled (acquire m g).1
    → in_flight (acquire m g).0 ≡ in_flight g + owed (acquire m g).1
unfolding acquire
acquire-owed m g s = acquire_breaker-owed m g.circuit_breaker g refl s

pub finish_handle-in_flight :
    (h : Handle) (class : ErrorClass) (now : ℕ) (g : Governor) (base : ℕ)
    → in_flight g ≡ base + held h.reservation
    → in_flight (finish_handle h class now g) ≡ base
unfolding finish_handle finish
finish_handle-in_flight h class now g base e = ground arith
