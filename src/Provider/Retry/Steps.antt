-- ===== src/Provider/Retry/Steps.antt =====
-- The loop of the governed calls, one round at a time.
use go_rag_agent.Base.{ℕ, suc, ◌+◌, ◌≡◌, refl, ◌⊎◌, inl, inr, none, some}
use go_rag_agent.Provider.Retry.{
  Wrapper, Attempt, Progress, Answer, Next, stop, again, stuck, attempt, retry_loop,
}

module _ {A : Type 0} where
  -- An attempt asks for another one, or it is the last and does not pause.
  pub attempt-cases :
      (w : Wrapper) (n : ℕ) (a : Attempt A) (p : Progress)
      → ((answer : Answer A) × ((attempt w n a p).1 ≡ again answer))
        ⊎ (((answer : Answer A) × ((attempt w n a p).1 ≡ stop answer))
            ⊎ ((attempt w n a p).1 ≡ stuck))
  attempt-cases w n a p = next-cases (attempt w n a p).1
    where
      next-cases :
          (r : Next A)
          → ((answer : Answer A) × (r ≡ again answer))
            ⊎ (((answer : Answer A) × (r ≡ stop answer)) ⊎ (r ≡ stuck))
      next-cases (stop answer) = inr (inl (answer, refl))
      next-cases (again answer) = inl (answer, refl)
      next-cases stuck = inr (inr refl)

  module _ (w : Wrapper) (env : ℕ → Attempt A) (left n : ℕ) (last : Answer A) (p : Progress) where
    pub retry_loop-again :
        {answer : Answer A}
        → (attempt w n (env n) p).1 ≡ again answer
        → retry_loop w env (suc left) n last p
          ≡ retry_loop w env left (n + 1) answer (attempt w n (env n) p).0
    unfolding retry_loop
    retry_loop-again h = rw (h, retry_loop)

    pub retry_loop-stop :
        {answer : Answer A}
        → (attempt w n (env n) p).1 ≡ stop answer
        → retry_loop w env (suc left) n last p ≡ ((attempt w n (env n) p).0, some answer)
    unfolding retry_loop
    retry_loop-stop h = rw (h, retry_loop)

    pub retry_loop-stuck :
        (attempt w n (env n) p).1 ≡ stuck
        → retry_loop w env (suc left) n last p ≡ ((attempt w n (env n) p).0, none)
    unfolding retry_loop
    retry_loop-stuck h = rw (h, retry_loop)
