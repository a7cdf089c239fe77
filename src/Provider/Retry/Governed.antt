-- ===== src/Provider/Retry/Governed.antt =====
-- A governed call gives back every admission that it takes.
use go_rag_agent.Base.{ℕ, zero, suc, ◌+◌, ◌≡◌, ◌≢◌, ◌∙◌, refl, inl, inr, Option, none, some, arith}
use go_rag_agent.Provider.Classify.{ErrorClass, classify}
use go_rag_agent.Provider.Governor.{
  Governor, Handle, Acquired, granted, refused, waiting, Moment, acquire_any, finish_any,
}
use go_rag_agent.Provider.Governor.Leaks.{
  in_flight, held, owed, Settled, acquire-owed, finish_handle-in_flight,
}
use go_rag_agent.Provider.Retry.Steps.{
  attempt-cases, retry_loop-again, retry_loop-stop, retry_loop-stuck,
}
use go_rag_agent.Provider.Retry.{
  Wrapper, Attempt, Progress, Answer, stuck, attempt, after_acquire, after_call, retry_loop,
  governed, started,
}

abbrev pub probes_out : Option Governor → ℕ
probes_out none = 0
probes_out (some g) = in_flight g

finish_any-probes_out :
    (h : Handle) (class : ErrorClass) (now : ℕ) (g : Option Governor) (base : ℕ)
    → probes_out g ≡ base + held h.reservation
    → probes_out (finish_any h class now g) ≡ base
unfolding finish_any
finish_any-probes_out h class now none base e = omega arith
finish_any-probes_out h class now (some g) base e = finish_handle-in_flight h class now g base e

acquire_any-owed :
    (m : Moment) (g : Option Governor)
    → Settled (acquire_any m g).1
    → probes_out (acquire_any m g).0 ≡ probes_out g + owed (acquire_any m g).1
unfolding acquire_any
acquire_any-owed m none s = omega arith
acquire_any-owed m (some g) s = acquire-owed m g s

module _ {A : Type 0} where
  after_call-governor :
      (w : Wrapper) (n : ℕ) (a : Attempt A) (h : Handle) (p : Progress)
      → (after_call w n a h p).0.governor
        ≡ finish_any h (classify a.error w.provider) a.finished_at p.governor
  unfolding after_call
  after_call-governor w n a h p = ground arith

  after_call-probes_out :
      (w : Wrapper) (n : ℕ) (a : Attempt A) (h : Handle) (p : Progress) (base : ℕ)
      → probes_out p.governor ≡ base + held h.reservation
      → probes_out (after_call w n a h p).0.governor ≡ base
  after_call-probes_out w n a h p base e =
      rw (after_call-governor w n a h p)
        (finish_any-probes_out h (classify a.error w.provider) a.finished_at p.governor base e)

  after_acquire-probes_out :
      (w : Wrapper) (n : ℕ) (a : Attempt A) (g : Option Governor) (r : Acquired) (p : Progress)
      (base : ℕ)
      → (Settled r → probes_out g ≡ base + owed r)
      → (after_acquire w n a (g, r) p).1 ≢ stuck
      → probes_out (after_acquire w n a (g, r) p).0.governor ≡ base
  unfolding after_acquire
  after_acquire-probes_out w n a g (granted h) p base e live =
      after_call-probes_out w n a h
        (record p { governor = g; throttle = p.throttle + h.throttle_delay }) base (e tt)
  after_acquire-probes_out w n a g (refused h x) p base e live = omega (arith, e tt)
  after_acquire-probes_out w n a g waiting p base e live = absurd (live refl)

  attempt-probes_out :
      (w : Wrapper) (n : ℕ) (a : Attempt A) (p : Progress)
      → (attempt w n a p).1 ≢ stuck
      → probes_out (attempt w n a p).0.governor ≡ probes_out p.governor
  unfolding attempt
  attempt-probes_out w n a p live =
      after_acquire-probes_out w n a (acquire_any a.moment p.governor).0
        (acquire_any a.moment p.governor).1 p (probes_out p.governor)
        (acquire_any-owed a.moment p.governor) live

  retry_loop-probes_out :
      (w : Wrapper) (env : ℕ → Attempt A) (left n : ℕ) (last : Answer A) (p : Progress)
      → (retry_loop w env left n last p).1 ≢ none
      → probes_out (retry_loop w env left n last p).0.governor ≡ probes_out p.governor
  unfolding retry_loop
  retry_loop-probes_out w env zero n last p done = refl
  retry_loop-probes_out w env (suc left) n last p done = elim (attempt-cases w n (env n) p) [
    | inl (answer, more) ↦
        let kept = attempt-probes_out w n (env n) p (λ e. cc) in
        let whole = retry_loop-again w env left n last p more in
        let rest =
          retry_loop-probes_out w env left (n + 1) answer (attempt w n (env n) p).0
            (rw whole at done) in
        rw whole (rest ∙ kept)
    | inr (inl (answer, ends)) ↦
        rw (retry_loop-stop w env left n last p ends) (attempt-probes_out w n (env n) p (λ e. cc))
    | inr (inr wait) ↦ absurd (done (rw (retry_loop-stuck w env left n last p wait)))
  ]

  -- Once a governed call returns, whatever happened in it (successes, errors, refusals by the
  -- breaker, waits and pauses cut short by the context), the breaker counts as many probes in
  -- flight as before the call.
  pub governed-probes_out :
      (w : Wrapper) (env : ℕ → Attempt A) (g : Option Governor)
      → (governed w env g).1 ≢ none
      → probes_out (governed w env g).0.governor ≡ probes_out g
  unfolding governed
  governed-probes_out w env g done =
      retry_loop-probes_out w env w.cfg.retry_max_attempts 1 (record { value = none; error = none })
        (started g) done
