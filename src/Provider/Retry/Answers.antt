-- ===== src/Provider/Retry/Answers.antt =====
-- Which reply a governed call returns, and when it tries again.
use go_rag_agent.Base.{
  ℕ, zero, suc, ◌+◌, ◌-◌, ◌≤◌, ◌<◌, ◌≡◌, refl, inl, inr, true, false, Option, none, some, arith,
  Text, Bool-cases, le-cases, subst, ap, ◌∙◌,
}
use go_rag_agent.Provider.Config.{GovernanceConfig}
use go_rag_agent.Provider.Classify.{classify, should_retry}
use go_rag_agent.Provider.Governor.{Governor, acquire_any, finish_any}
use go_rag_agent.Provider.Backoff.{sleep_with_backoff}
use go_rag_agent.Provider.Retry.Attempts.{attempt-again, attempt-stop, attempt-stuck}
use go_rag_agent.Provider.Retry.Steps.{
  attempt-cases, retry_loop-again, retry_loop-stop, retry_loop-stuck,
}
use go_rag_agent.Provider.Retry.{
  Wrapper, Attempt, Progress, Answer, stop, again, attempt, chunk_seen, is_final, retry_loop,
  governed, started, stream, chat_stream,
}

module _ {A : Type 0} where
  retry_loop-not_final :
      (w : Wrapper) (env : ℕ → Attempt A) (left n j : ℕ) (last : Answer A) (p : Progress)
      → p.called + 1 ≡ n
      → n ≤ j
      → j < (retry_loop w env left n last p).0.called
      → is_final w j (env j) ≡ false
  unfolding retry_loop
  retry_loop-not_final w env zero n j last p e h lt = absurd (omega arith)
  retry_loop-not_final w env (suc left) n j last p e h lt = elim (attempt-cases w n (env n) p) [
    | inl (answer, more) ↦
        let (called, _, _, open_end, _) = attempt-again w n (env n) p more in
        elim (le-cases n j h) [
          | inl same ↦ subst (λ k. is_final w k (env k) ≡ false) same open_end
          | inr later ↦
              retry_loop-not_final w env left (n + 1) j answer (attempt w n (env n) p).0
                (omega arith) later (rw (retry_loop-again w env left n last p more) at lt)
        ]
    | inr (inl (answer, done)) ↦
        let called = (attempt-stop w n (env n) p done).0 in
        absurd (omega (arith, rw (retry_loop-stop w env left n last p done) at lt))
    | inr (inr wait) ↦
        let same = (attempt-stuck w n (env n) p wait).0 in
        absurd (omega (arith, rw (retry_loop-stuck w env left n last p wait) at lt))
  ]

  chunk_seen-is_final :
      (w : Wrapper) (n : ℕ) (a : Attempt A)
      → w.streams ≡ true
      → is_final w n a ≡ false
      → (chunk_seen a.chunks ≡ false) × (should_retry (classify a.error w.provider) ≡ true)
  unfolding is_final
  chunk_seen-is_final w n a s h = ground arith

  -- A stream is tried again only after an attempt that emitted nothing but blank chunks and failed
  -- with an error that is worth another attempt: this holds of every attempt but the last, whatever
  -- the provider, the governor and the context do.
  pub stream_no_repeat :
      (cfg : GovernanceConfig) (provider model : Text) (env : ℕ → Attempt A) (g : Option Governor)
      (j : ℕ)
      → 1 ≤ j
      → j < (stream cfg provider model env g).0.called
      → (chunk_seen (env j).chunks ≡ false)
        × (should_retry (classify (env j).error provider) ≡ true)
  unfolding stream
  stream_no_repeat cfg provider model env g j h lt = chunk_seen-is_final streaming j (env j) refl (
      retry_loop-not_final streaming env cfg.retry_max_attempts 1 j
        (record { value = none; error = none }) (started g) refl h lt)
    where
      streaming : Wrapper
      streaming = record {
        cfg = cfg;
        provider = provider;
        model = model;
        operation = chat_stream;
        streams = true;
      }

  abbrev reply_of : Attempt A → Answer A
  reply_of a = record { value = some a.reply; error = a.error }

  attempt-final :
      (w : Wrapper) (n : ℕ) (a : Attempt A) (p : Progress)
      → p.governor ≡ none
      → is_final w n a ≡ true
      → ((attempt w n a p).1 ≡ stop (reply_of a)) × ((attempt w n a p).0.called ≡ p.called + 1)
  unfolding attempt acquire_any
  attempt-final w n a p g f = ground arith

  attempt-goes_on :
      (w : Wrapper) (n : ℕ) (a : Attempt A) (p : Progress)
      → p.governor ≡ none
      → a.interrupt ≡ none
      → is_final w n a ≡ false
      → ((attempt w n a p).1 ≡ again (reply_of a))
        × ((attempt w n a p).0.called ≡ p.called + 1)
        × ((attempt w n a p).0.governor ≡ none)
  unfolding attempt acquire_any finish_any sleep_with_backoff
  attempt-goes_on w n a p g i f = ground arith

  is_final-max :
      (w : Wrapper) (n : ℕ) (a : Attempt A) → n ≡ w.cfg.retry_max_attempts → is_final w n a ≡ true
  unfolding is_final
  is_final-max w n a e = ground arith

  -- The first final attempt from the n-th on.
  abbrev pub FirstFinal : Wrapper → (ℕ → Attempt A) → ℕ → ℕ → Type 0
  FirstFinal w env n k =
      (n ≤ k)
      × (k ≤ w.cfg.retry_max_attempts)
      × (is_final w k (env k) ≡ true)
      × ((j : ℕ) → n ≤ j → j < k → is_final w j (env j) ≡ false)

  FirstFinal-later :
      (w : Wrapper) (env : ℕ → Attempt A) (n k : ℕ)
      → is_final w n (env n) ≡ false
      → FirstFinal w env (n + 1) k
      → FirstFinal w env n k
  FirstFinal-later w env n k f (le, cap, final, before) = (omega arith, cap, final, earlier)
    where
      earlier : (j : ℕ) → n ≤ j → j < k → is_final w j (env j) ≡ false
      earlier j h lt = elim (le-cases n j h) [
        | inl same ↦ subst (λ m. is_final w m (env m) ≡ false) same f
        | inr later ↦ before j later lt
      ]

  abbrev Answers :
      Wrapper → (ℕ → Attempt A) → ℕ → ℕ → Progress → Progress × Option (Answer A) → Type 0
  Answers w env n k p r =
      FirstFinal w env n k × (r.1 ≡ some (reply_of (env k))) × (r.0.called + n ≡ p.called + 1 + k)

  loop-final :
      (w : Wrapper) (env : ℕ → Attempt A) (left n : ℕ) (last : Answer A) (p : Progress)
      → p.governor ≡ none
      → n ≤ w.cfg.retry_max_attempts
      → is_final w n (env n) ≡ true
      → Answers w env n n p (retry_loop w env (suc left) n last p)
  loop-final w env left n last p g cap f =
      let (ends, called) = attempt-final w n (env n) p g f in
      rw (retry_loop-stop w env left n last p ends)
        ((omega arith, cap, f, λ j h lt. absurd (omega arith)), refl, omega arith)

  retry_loop-Answers :
      (w : Wrapper) (env : ℕ → Attempt A) (left n : ℕ) (last : Answer A) (p : Progress)
      → p.governor ≡ none
      → ((m : ℕ) → (env m).interrupt ≡ none)
      → n + left ≡ w.cfg.retry_max_attempts
      → (k : ℕ) × Answers w env n k p (retry_loop w env (suc left) n last p)
  retry_loop-Answers w env zero n last p g calm e =
      (n, loop-final w env zero n last p g (omega arith) (is_final-max w n (env n) (omega arith)))
  retry_loop-Answers w env (suc left) n last p g calm e = elim (Bool-cases (is_final w n (env n))) [
    | inl f ↦ (n, loop-final w env (suc left) n last p g (omega arith) f)
    | inr f ↦
        let (goes, called, free) = attempt-goes_on w n (env n) p g (calm n) f in
        let p' = (attempt w n (env n) p).0 in
        let (k, found) =
          retry_loop-Answers w env left (n + 1) (reply_of (env n)) p' free calm (omega arith) in
        (
          k,
          rw (retry_loop-again w env (suc left) n last p goes)
              (FirstFinal-later w env n k f found.0, found.1, omega (arith, found.2)),
        )
  ]

  -- Without a governor and with a context that stays alive, a governed call with at least one
  -- attempt returns the reply of the first attempt that is final (a success, an error not worth
  -- another attempt, a stream that was seen, or the last attempt allowed), and makes just that many
  -- calls.
  pub governed-FirstFinal :
      (w : Wrapper) (env : ℕ → Attempt A)
      → 1 ≤ w.cfg.retry_max_attempts
      → ((m : ℕ) → (env m).interrupt ≡ none)
      → (k : ℕ) × FirstFinal w env 1 k
        × ((governed w env none).1 ≡ some (reply_of (env k)))
        × ((governed w env none).0.called ≡ k)
  unfolding governed
  governed-FirstFinal w env some_try calm =
      let max = w.cfg.retry_max_attempts in
      let from_one : max ≡ suc (max - 1) = omega arith in
      let first : Answer A = record { value = none; error = none } in
      let (k, found) =
        retry_loop-Answers w env (max - 1) 1 first (started none) refl calm (omega arith) in
      let whole = ap (λ left. retry_loop w env left 1 first (started none)) from_one in
      (
        k,
        found.0,
        ap (λ r. r.1) whole ∙ found.1,
        omega (arith, ap (λ r. r.0.called) whole, found.2),
      )
