-- ===== src/Provider/Backoff.antt =====
-- sleepWithBackoff of provider_resilience.go: how long the pause before the next attempt is.
-- Durations are nanoseconds and the number drawn by `rand.Int63n` is an argument. A doubled delay
-- is at most twice the maximal one, so it stays in an int64 for every maximum below 146 years.
use native.Mathlib.Nat.{pow-suc}
use go_rag_agent.Base.{
  ℕ, zero, suc, ◌+◌, ◌-◌, ◌*◌, ◌/◌, ◌%◌, ◌^◌, ◌≤◌, ◌≡◌, Option, none, arith, min, max, ltb, ◌==◌,
  if◌then◌else◌, Bool-cases, inl, inr, ltb→lt, ap, ◌∙◌,
}
use go_rag_agent.Provider.Config.{GovernanceConfig, millisecond}
use go_rag_agent.Provider.Classify.{Error}

-- The loop over the attempts made, with its `break` at the maximum.
unfoldable pub doubled : ℕ → ℕ → ℕ → ℕ
doubled zero delay max_delay = delay
doubled (suc n) delay max_delay =
    let rest = doubled n (delay * 2) max_delay in
    if ltb max_delay (delay * 2) then max_delay else rest

unfoldable pub backoff_delay : GovernanceConfig → ℕ → ℕ
unfolding doubled
backoff_delay cfg attempt = doubled (attempt - 1) cfg.retry_base_delay cfg.retry_max_delay

unfoldable pub min_duration : ℕ → ℕ → ℕ
min_duration a b = if ltb a b then a else b

unfoldable pub sleep_duration : GovernanceConfig → ℕ → ℕ → ℕ
unfolding min_duration
sleep_duration cfg attempt random =
    let delay = backoff_delay cfg attempt in
    let jitter = random % max (delay / 4) millisecond in
    if delay == 0 then 0 else min_duration (delay + jitter) cfg.retry_max_delay

-- The pause ends with the timer, or with the error of a context that is done.
unfoldable pub sleep_with_backoff : GovernanceConfig → ℕ → Option Error → Option Error
sleep_with_backoff cfg attempt interrupt =
    if backoff_delay cfg attempt == 0 then none else interrupt

pow_suc : (b n : ℕ) → b * 2 * 2 ^ n ≡ b * 2 ^ suc n
pow_suc b n = rw (pow-suc 2 n) (omega arith)

pow_pos : (n : ℕ) → 1 ≤ 2 ^ n
pow_pos zero = omega arith
pow_pos (suc n) = rw (pow-suc 2 n) (omega (arith, pow_pos n))

product_le : (b p : ℕ) → 1 ≤ p → b ≤ b * p
product_le b p h = grind arith

doubled-min : (n b m : ℕ) → b ≤ m → doubled n b m ≡ min (b * 2 ^ n) m
unfolding doubled
doubled-min zero b m h = omega arith
doubled-min (suc n) b m h = elim (Bool-cases (ltb m (b * 2))) [
  | inl over ↦
      rw over (omega (arith, ltb→lt, over, pow_suc b n, product_le (b * 2) (2 ^ n) (pow_pos n)))
  | inr fits ↦ rw fits (doubled-min n (b * 2) m (ground arith) ∙ ap (λ x. min x m) (pow_suc b n))
]

pub sleep_duration-le :
    (cfg : GovernanceConfig) (attempt random : ℕ)
    → sleep_duration cfg attempt random ≤ cfg.retry_max_delay
unfolding sleep_duration
sleep_duration-le cfg attempt random = ground arith

le-sleep_duration :
    (cfg : GovernanceConfig) (attempt random : ℕ)
    → min (backoff_delay cfg attempt) cfg.retry_max_delay ≤ sleep_duration cfg attempt random
unfolding sleep_duration
le-sleep_duration cfg attempt random = ground arith

backoff_delay-min :
    (cfg : GovernanceConfig) (n : ℕ)
    → cfg.retry_base_delay ≤ cfg.retry_max_delay
    → backoff_delay cfg (suc n) ≡ min (cfg.retry_base_delay * 2 ^ n) cfg.retry_max_delay
unfolding backoff_delay
backoff_delay-min cfg n h =
    let e : suc n - 1 ≡ n = omega arith in
    rw e (doubled-min n cfg.retry_base_delay cfg.retry_max_delay h)

-- After n + 1 failed attempts the delay is the base doubled n times, cut at the maximum; the pause
-- is at least that and never exceeds the maximum, whatever is drawn for the jitter.
backoff_exact :
    (cfg : GovernanceConfig) (n random : ℕ)
    → cfg.retry_base_delay ≤ cfg.retry_max_delay
    → (backoff_delay cfg (suc n) ≡ min (cfg.retry_base_delay * 2 ^ n) cfg.retry_max_delay)
      × (backoff_delay cfg (suc n) ≤ sleep_duration cfg (suc n) random)
      × (sleep_duration cfg (suc n) random ≤ cfg.retry_max_delay)
backoff_exact cfg n random h =
    let exact = backoff_delay-min cfg n h in
    (
      exact,
      omega (arith, le-sleep_duration cfg (suc n) random),
      sleep_duration-le cfg (suc n) random,
    )
