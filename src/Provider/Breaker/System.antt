-- ===== src/Provider/Breaker/System.antt =====
-- A breaker shared by many calls: each call reserves, and later finishes or aborts, in any order.
use go_rag_agent.Base.{
  ℕ, zero, suc, ◌+◌, ◌-◌, ◌≤◌, ◌<◌, ◌≡◌, List, [], ◌∷◌, Option, none, some, arith, if◌then◌else◌,
  Option-cases, inl, inr,
}
use go_rag_agent.Provider.Classify.{ErrorClass}
use go_rag_agent.Provider.Breaker.{Breaker, Reservation, reserve, finish, abort}

-- A breaker with the admissions that its callers hold.
pub record System : Type 0 where
  pub breaker : Breaker
  pub live : List Reservation

-- What the callers do: the number picks one of the admissions held.
pub data Event : Type 0 where
  reserves : ℕ → Event
  finishes : ℕ → ErrorClass → ℕ → Event
  aborts : ℕ → Event

pub pick : ℕ → List Reservation → Option (Reservation × List Reservation)
pick i [] = none
pick zero (r ∷ rs) = some (r, rs)
pick (suc i) (r ∷ rs) = elim (pick i rs) [ none ↦ none | some (p, rest) ↦ some (p, r ∷ rest) ]

pub hold : Option Reservation → List Reservation → List Reservation
hold none live = live
hold (some r) live = r ∷ live

pub hand_back :
    Option (Reservation × List Reservation) → (Reservation → Breaker → Breaker) → System → System
hand_back none use_up s = s
hand_back (some (r, rest)) use_up s = record { breaker = use_up r s.breaker; live = rest }

unfoldable pub step : Event → System → System
unfolding pick hold hand_back
step (reserves now) s =
    let (b, reserved) = reserve now s.breaker in
    record { breaker = b; live = hold reserved.reservation s.live }
step (finishes i class now) s = hand_back (pick i s.live) (λ r b. finish r class now b) s
step (aborts i) s = hand_back (pick i s.live) abort s

unfoldable pub run : List Event → System → System
unfolding step
run [] s = s
run (e ∷ es) s = run es (step e s)

abbrev pub probe_count : Reservation → ℕ
probe_count r = if r.probe then 1 else 0

unfoldable pub probes : List Reservation → ℕ
probes [] = 0
probes (r ∷ rs) = probe_count r + probes rs

-- The counter counts the probes that are out, and the failures counted stay below the threshold.
pub record Inv (s : System) : Type 0 where
  pub counted : s.breaker.half_open_in_flight ≡ probes s.live
  pub positive : 1 ≤ s.breaker.cfg.failure_threshold
  pub below : s.breaker.consecutive_failure < s.breaker.cfg.failure_threshold

probes-pick :
    (i : ℕ) (rs : List Reservation) {r : Reservation} {rest : List Reservation}
    → pick i rs ≡ some (r, rest)
    → probes rs ≡ probe_count r + probes rest
unfolding pick probes
probes-pick i [] h = ground arith
probes-pick zero (p ∷ rs) h = ground arith
probes-pick (suc i) (p ∷ rs) h = grind (arith, probes-pick i rs)

finish_lem :
    (r : Reservation) (class : ErrorClass) (now : ℕ) (b : Breaker)
    → b.consecutive_failure < b.cfg.failure_threshold
    → ((finish r class now b).half_open_in_flight ≡ b.half_open_in_flight - probe_count r)
      × ((finish r class now b).cfg ≡ b.cfg)
      × ((finish r class now b).consecutive_failure < b.cfg.failure_threshold)
unfolding finish
finish_lem r class now b h = ground arith

reserve_lem :
    (now : ℕ) (b : Breaker)
    → ((reserve now b).0.half_open_in_flight
        ≡ b.half_open_in_flight + probes (hold (reserve now b).1.reservation []))
      × ((reserve now b).0.cfg ≡ b.cfg)
      × ((reserve now b).0.consecutive_failure ≡ b.consecutive_failure)
unfolding reserve hold probes
reserve_lem now b = ground arith

probes-hold :
    (o : Option Reservation) (rs : List Reservation)
    → probes (hold o rs) ≡ probes (hold o []) + probes rs
unfolding hold probes
probes-hold o rs = ground arith

abort_lem :
    (r : Reservation) (b : Breaker)
    → ((abort r b).half_open_in_flight ≡ b.half_open_in_flight - probe_count r)
      × ((abort r b).cfg ≡ b.cfg)
      × ((abort r b).consecutive_failure ≡ b.consecutive_failure)
unfolding abort
abort_lem r b = ground arith

finishes-Inv :
    (i : ℕ) (class : ErrorClass) (now : ℕ) (s : System)
    → Inv s
    → Inv (step (finishes i class now) s)
unfolding step
finishes-Inv i class now s v = elim (Option-cases (pick i s.live)) [
  | inl e ↦ rw (e, hand_back) v
  | inr ((r, rest), e) ↦
      ground (arith, e, probes-pick i s.live e, finish_lem r class now s.breaker v.below)
]

aborts-Inv : (i : ℕ) (s : System) → Inv s → Inv (step (aborts i) s)
unfolding step
aborts-Inv i s v = elim (Option-cases (pick i s.live)) [
  | inl e ↦ rw (e, hand_back) v
  | inr ((r, rest), e) ↦ ground (arith, e, probes-pick i s.live e, abort_lem r s.breaker)
]

step-Inv : (e : Event) (s : System) → Inv s → Inv (step e s)
unfolding step
step-Inv (reserves now) s v =
    ground
      (arith, reserve_lem now s.breaker, probes-hold (reserve now s.breaker).1.reservation s.live)
step-Inv (finishes i class now) s v = finishes-Inv i class now s v
step-Inv (aborts i) s v = aborts-Inv i s v

pub run-Inv : (es : List Event) (s : System) → Inv s → Inv (run es s)
unfolding run
run-Inv [] s v = v
run-Inv (e ∷ es) s v = run-Inv es (step e s) (step-Inv e s v)
