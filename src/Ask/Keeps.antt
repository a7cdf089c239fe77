-- ===== src/Ask/Keeps.antt =====
-- agent.go: what a question calls, by the way it is built: one rule for each part.
use go_rag_agent.Base.{Bool, true, false, ◌≡◌, refl, [], ◌∷◌, Option, ◌⊎◌, inl, inr, if◌then◌else◌}
use go_rag_agent.Ask.{
  AskError, Call, Log, Action, and_then, ◌>>=◌, pure, raise, lift, ask_for, perform,
}
use go_rag_agent.Ask.Streaming.{handled, caught}

abbrev pub Calls : (Call → Type 0) → Log → Type 0
Calls P [] = Unit {0}
Calls P (c ∷ log) = P c × Calls P log

-- `m` makes only calls in `P`, whether it returns or fails
pub record Only {A : Type 0} (P : Call → Type 0) (m : Action A) : Type 0 where
  pub at : (log : Log) → Calls P log → Calls P (m log).1

module _ {A : Type 0} {P : Call → Type 0} where
  pub Only-pure : (a : A) → Only P (pure a)
  Only-pure a = record { at = λ log k. k }

  pub Only-raise : (err : AskError) → Only P (raise {A = A} err)
  Only-raise err = record { at = λ log k. k }

  pub Only-ask_for : (c : Call) (answer : Log → AskError ⊎ A) → P c → Only P (ask_for c answer)
  unfolding ask_for
  Only-ask_for c answer p = record { at = λ log k. (p, k) }

  pub Only-if : (b : Bool) (m n : Action A) → Only P m → Only P n → Only P (if b then m else n)
  Only-if true m n km kn = km
  Only-if false m n km kn = kn

  pub Calls-handled :
      (x : (AskError ⊎ A) × Log) (handler : AskError → Action A)
      → Calls P x.1
      → ((err : AskError) → Only P (handler err))
      → Calls P (handled x handler).1
  Calls-handled (inl err, log) handler k kh = (kh err).at log k
  Calls-handled (inr a, log) handler k kh = k

  pub Only-caught :
      (m : Action A) (handler : AskError → Action A)
      → Only P m
      → ((err : AskError) → Only P (handler err))
      → Only P (caught m handler)
  Only-caught m handler km kh = record {
    at = λ log k. Calls-handled (m log) handler (km.at log k) kh;
  }

module _ {P : Call → Type 0} where
  pub Only-perform : (c : Call) (answer : Log → Option AskError) → P c → Only P (perform c answer)
  unfolding perform
  Only-perform c answer p = record { at = λ log k. (p, k) }

module _ {A B : Type 0} {P : Call → Type 0} where
  Calls-and_then :
      (x : (AskError ⊎ A) × Log) (f : A → Action B)
      → Calls P x.1
      → ((a : A) → Only P (f a))
      → Calls P (and_then x f).1
  Calls-and_then (inl err, log) f k kf = k
  Calls-and_then (inr a, log) f k kf = (kf a).at log k

  pub Only-bind :
      (m : Action A) (f : A → Action B) → Only P m → ((a : A) → Only P (f a)) → Only P (m >>= f)
  Only-bind m f km kf = record { at = λ log k. Calls-and_then (m log) f (km.at log k) kf }

  -- the rest may use that `r` is no error
  pub Only-bind-lift :
      (r : AskError ⊎ A) (f : A → Action B)
      → ((a : A) → r ≡ inr a → Only P (f a))
      → Only P (lift r >>= f)
  Only-bind-lift (inl err) f kf = record { at = λ log k. k }
  Only-bind-lift (inr a) f kf = record { at = λ log k. (kf a refl).at log k }
