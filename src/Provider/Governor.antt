-- ===== src/Provider/Governor.antt =====
-- providerGovernor and providerGovernors of provider_governor.go: a breaker and a token bucket
-- for each provider. `none` is the nil pointer.
pub mod Leaks
use Prim.Native.String.{String}
use go_rag_agent.Base.{
  ℕ, Bool, true, false, List, [], ◌∷◌, ◌++◌, Option, none, some, if◌then◌else◌, Text, text_eq,
  codes,
}
use go_rag_agent.Provider.Config.{GovernanceConfig, governance_normalized}
use go_rag_agent.Provider.Classify.{Error, ErrorClass, Sentinel, circuit_open}
use go_rag_agent.Provider.Breaker.{
  Breaker, Reservation, Reserved, CircuitState, closed, reserve, finish, abort, new_breaker,
}
use go_rag_agent.Provider.Limiter.{
  Limiter, Round, Waited, admitted, interrupted, blocked, new_limiter, wait,
}

pub record Governor : Type 0 where
  pub rate_limiter : Option Limiter
  pub circuit_breaker : Option Breaker

unfoldable pub new_governor : ℕ → Text → GovernanceConfig → Governor
unfolding governance_normalized new_limiter new_breaker
new_governor now provider cfg =
    let cfg' = governance_normalized cfg in
    record {
      rate_limiter = new_limiter now cfg'.rate_limit;
      circuit_breaker = new_breaker provider cfg'.circuit_breaker;
    }

pub record Handle : Type 0 where
  pub throttle_delay : ℕ
  pub circuit_state : CircuitState
  pub reservation : Option Reservation

abbrev pub fresh_handle : Handle
fresh_handle = record { throttle_delay = 0; circuit_state = closed; reservation = none }

pub data Acquired : Type 0 where
  granted : Handle → Acquired
  refused : Handle → Error → Acquired
  waiting : Acquired

-- What the clock and the context do during one `acquire`.
pub record Moment : Type 0 where
  pub reserve_at : ℕ
  pub wait_from : ℕ
  pub rounds : List Round

-- `fmt.Errorf("%w: provider=%s", ErrProviderCircuitOpen, provider)`
unfoldable pub circuit_error : Text → Error
circuit_error provider = record {
  is = λ s. elim s [ circuit_open ↦ true | _ ↦ false ];
  text = codes "ragagent: provider circuit open: provider=" ++ provider;
}

abbrev on_breaker : (Breaker → Breaker) → Governor → Governor
on_breaker f g = record g { circuit_breaker = mathlib.Core.Option.map f g.circuit_breaker }

-- `handle.finish` and `handle.abort`, which do nothing without a reservation.
unfoldable pub finish_handle : Handle → ErrorClass → ℕ → Governor → Governor
finish_handle h class now g = elim h.reservation [
  | none ↦ g
  | some r ↦ on_breaker (finish r class now) g
]

unfoldable pub abort_handle : Handle → Governor → Governor
abort_handle h g = elim h.reservation [ none ↦ g | some r ↦ on_breaker (abort r) g ]

unfoldable pub after_wait : Handle → Limiter × Waited → Governor → Governor × Acquired
unfolding abort_handle
after_wait h (l, admitted d) g =
    (record g { rate_limiter = some l }, granted (record h { throttle_delay = d }))
after_wait h (l, interrupted d e) g = (
  abort_handle h (record g { rate_limiter = some l }),
  refused (record h { throttle_delay = d }) e,
)
after_wait h (l, blocked) g = (record g { rate_limiter = some l }, waiting)

unfoldable pub acquire_token : Handle → Moment → Option Limiter → Governor → Governor × Acquired
unfolding after_wait
acquire_token h m none g = (g, granted h)
acquire_token h m (some l) g = after_wait h (wait m.wait_from m.rounds l) g

unfoldable pub after_reserve : Moment → Breaker × Reserved → Governor → Governor × Acquired
unfolding acquire_token circuit_error
after_reserve m (b, reserved) g =
    let h : Handle = record fresh_handle { circuit_state = reserved.state } in
    let g' = record g { circuit_breaker = some b } in
    elim reserved.reservation [
      | none ↦ (g', refused h (circuit_error b.provider))
      | some r ↦ acquire_token (record h { reservation = some r }) m g'.rate_limiter g'
    ]

unfoldable pub acquire_breaker : Moment → Option Breaker → Governor → Governor × Acquired
unfolding after_reserve acquire_token
acquire_breaker m none g = acquire_token fresh_handle m g.rate_limiter g
acquire_breaker m (some b) g = after_reserve m (reserve m.reserve_at b) g

unfoldable pub acquire : Moment → Governor → Governor × Acquired
unfolding acquire_breaker
acquire m g = acquire_breaker m g.circuit_breaker g

-- `acquire` on a pointer that may be nil.
unfoldable pub acquire_any : Moment → Option Governor → Option Governor × Acquired
acquire_any m none = (none, granted fresh_handle)
acquire_any m (some g) = let (g', r) = acquire m g in (some g', r)

unfoldable pub finish_any : Handle → ErrorClass → ℕ → Option Governor → Option Governor
finish_any h class now none = none
finish_any h class now (some g) = some (finish_handle h class now g)

-- The governors by provider, as an association list.
pub record Governors : Type 0 where
  pub cfg : GovernanceConfig
  pub providers : List (Text × Governor)

unfoldable pub lookup : Text → List (Text × Governor) → Option Governor
lookup provider [] = none
lookup provider ((p, g) ∷ rest) = if text_eq p provider then some g else lookup provider rest

unfoldable pub for_provider : ℕ → Text → Governors → Governors × Governor
for_provider now provider gs = elim (lookup provider gs.providers) [
  | some g ↦ (gs, g)
  | none ↦
      let g = new_governor now provider gs.cfg in
      (record gs { providers = (provider, g) ∷ gs.providers }, g)
]
