-- ===== src/Provider/Limiter.antt =====
-- The token bucket of provider_governor.go. The source counts tokens in float64; here a token is
-- `unit` equal parts and the rate is a whole number of parts per nanosecond, which is exact for
-- every rate that is a fraction. Times are nanoseconds.
use go_rag_agent.Base.{
  ℕ, ◌+◌, ◌-◌, ◌*◌, ◌/◌, List, [], ◌∷◌, Option, none, some, min, ltb, leb, ◌==◌, if◌then◌else◌,
}
use go_rag_agent.Provider.Config.{RateLimitConfig, rate_limit_enabled}
use go_rag_agent.Provider.Classify.{Error}

pub record Limiter : Type 0 where
  pub unit : ℕ
  pub rate : ℕ
  pub burst : ℕ
  pub tokens : ℕ
  pub last : ℕ

abbrev pub second : ℕ
second = 1000000000

unfoldable pub new_limiter : ℕ → RateLimitConfig → Option Limiter
unfolding rate_limit_enabled
new_limiter now cfg =
    let unit = cfg.rate_den * second in
    if rate_limit_enabled cfg
    then some (record {
      unit = unit;
      rate = cfg.rate_num;
      burst = cfg.burst * unit;
      tokens = cfg.burst * unit;
      last = now;
    })
    else none

-- The fill is a float64 in the source, an exact fraction here.
unfoldable pub refill : ℕ → Limiter → Limiter
refill now l =
    if ltb l.last now
    then record l { tokens = min l.burst (l.tokens + (now - l.last) * l.rate); last = now }
    else l

-- `take`: the bucket afterwards, and how long to wait before the next try.
unfoldable pub take_token : ℕ → Limiter → Limiter × ℕ
unfolding refill
take_token now l =
    let l' = refill now l in
    if leb l'.unit l'.tokens
    then (record l' { tokens = l'.tokens - l'.unit }, 0)
    else (l', (l'.unit - l'.tokens) / l'.rate)

-- One round of the loop of `wait`: the time of `take`, what ended the wait behind it (the error of
-- the context, or the timer), and the time after it.
pub record Round : Type 0 where
  pub take_at : ℕ
  pub interrupt : Option Error
  pub ended_at : ℕ

pub data Waited : Type 0 where
  admitted : ℕ → Waited
  interrupted : ℕ → Error → Waited
  blocked : Waited

-- `wait`; it is blocked where the rounds given run out.
unfoldable pub wait : ℕ → List Round → Limiter → Limiter × Waited
wait started [] l = (l, blocked)
wait started (r ∷ rs) l =
    let (l', delay) = take_token r.take_at l in
    let rest = wait started rs l' in
    if delay == 0
    then (l', admitted (r.ended_at - started))
    else elim r.interrupt [ some e ↦ (l', interrupted (r.ended_at - started) e) | none ↦ rest ]
