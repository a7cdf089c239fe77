-- ===== src/Provider/Retry/Attempts.antt =====
-- How often a governed call tries, pauses and reports.
use go_rag_agent.Base.{
  ℕ, zero, suc, ◌+◌, ◌-◌, ◌*◌, ◌≤◌, ◌≡◌, ◌≢◌, refl, inl, inr, false, List, [], ◌∷◌, Option, none,
  arith, length,
}
use go_rag_agent.Provider.Governor.{Governor}
use go_rag_agent.Provider.Backoff.{sleep_duration, sleep_duration-le}
use go_rag_agent.Provider.Retry.Steps.{
  attempt-cases, retry_loop-again, retry_loop-stop, retry_loop-stuck,
}
use go_rag_agent.Provider.Retry.{
  Wrapper, Attempt, Progress, Answer, stop, again, stuck, attempt, is_final, retry_loop, governed,
  started,
}

unfoldable pub sum : List ℕ → ℕ
sum [] = 0
sum (n ∷ ns) = n + sum ns

-- How much the rounds that are left may add to the counters.
record Bounded (w : Wrapper) (left : ℕ) (p q : Progress) : Type 0 where
  calls : q.called ≤ p.called + left
  reports : length q.traces ≤ length p.traces + 1
  pauses : length q.slept ≤ length p.slept + (left - 1)
  rest : sum q.slept ≤ sum p.slept + (left - 1) * w.cfg.retry_max_delay

one_more : (left m : ℕ) → left ≢ 0 → (left - 1) * m + m ≡ left * m
one_more zero m h = absurd (h refl)
one_more (suc left) m h = let e : suc left - 1 ≡ left = omega arith in rw e (omega arith)

module _ {A : Type 0} where
  pub attempt-again :
      (w : Wrapper) (n : ℕ) (a : Attempt A) (p : Progress) {answer : Answer A}
      → (attempt w n a p).1 ≡ again answer
      → ((attempt w n a p).0.called ≡ p.called + 1)
        × ((attempt w n a p).0.traces ≡ p.traces)
        × ((attempt w n a p).0.slept ≡ sleep_duration w.cfg n a.random ∷ p.slept)
        × (is_final w n a ≡ false)
        × (n ≢ w.cfg.retry_max_attempts)
  unfolding attempt is_final
  attempt-again w n a p h = ground arith

  pub attempt-stop :
      (w : Wrapper) (n : ℕ) (a : Attempt A) (p : Progress) {answer : Answer A}
      → (attempt w n a p).1 ≡ stop answer
      → ((attempt w n a p).0.called ≤ p.called + 1)
        × (length (attempt w n a p).0.traces ≤ length p.traces + 1)
        × ((attempt w n a p).0.slept ≡ p.slept)
  unfolding attempt
  attempt-stop w n a p h = ground arith

  pub attempt-stuck :
      (w : Wrapper) (n : ℕ) (a : Attempt A) (p : Progress)
      → (attempt w n a p).1 ≡ stuck
      → ((attempt w n a p).0.called ≡ p.called)
        × ((attempt w n a p).0.traces ≡ p.traces)
        × ((attempt w n a p).0.slept ≡ p.slept)
  unfolding attempt
  attempt-stuck w n a p h = ground arith

  retry_loop-Bounded :
      (w : Wrapper) (env : ℕ → Attempt A) (left n : ℕ) (last : Answer A) (p : Progress)
      → n + left ≡ w.cfg.retry_max_attempts + 1
      → Bounded w left p (retry_loop w env left n last p).0
  unfolding retry_loop sum
  retry_loop-Bounded w env zero n last p e = record {
    calls = omega arith;
    reports = omega arith;
    pauses = omega arith;
    rest = omega arith;
  }
  retry_loop-Bounded w env (suc left) n last p e = elim (attempt-cases w n (env n) p) [
    | inl (answer, more) ↦ rw (retry_loop-again w env left n last p more) (
        let ih =
          retry_loop-Bounded w env left (n + 1) answer (attempt w n (env n) p).0 (omega arith) in
        let facts = attempt-again w n (env n) p more in
        let nap = sleep_duration-le w.cfg n (env n).random in
        let total = one_more left w.cfg.retry_max_delay (ground arith) in ground arith)
    | inr (inl (answer, done)) ↦
        rw (retry_loop-stop w env left n last p done)
          (let facts = attempt-stop w n (env n) p done in ground arith)
    | inr (inr wait) ↦
        rw (retry_loop-stuck w env left n last p wait)
          (let facts = attempt-stuck w n (env n) p wait in ground arith)
  ]

  -- A governed call with at least one attempt calls the model at most as often as it is allowed to,
  -- reports at most one trace, and pauses between calls only, each time at most the maximal delay.
  governed-bounded :
      (w : Wrapper) (env : ℕ → Attempt A) (g : Option Governor)
      → let p = (governed w env g).0 in
        let max = w.cfg.retry_max_attempts in
        (p.called ≤ max)
        × (length p.traces ≤ 1)
        × (length p.slept ≤ max - 1)
        × (sum p.slept ≤ (max - 1) * w.cfg.retry_max_delay)
  unfolding governed sum
  governed-bounded w env g =
      let b =
        retry_loop-Bounded w env w.cfg.retry_max_attempts 1 (record { value = none; error = none })
          (started g) (omega arith) in
      (omega (arith, b.calls), b.reports, omega (arith, b.pauses), omega (arith, b.rest))
