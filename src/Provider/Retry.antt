-- ===== src/Provider/Retry.antt =====
-- The governed calls of provider_resilience.go: `generate`, `stream`, `EmbedTexts` and `Search`
-- run one loop, which differs in the name of the operation, in what counts as done, and in the
-- usage that is traced. What the clock, the context, the provider and the random source do in one
-- attempt is a record; the estimated cost, a float, is left out of the trace.
pub mod Steps
pub mod Attempts
pub mod Answers
pub mod Governed
use go_rag_agent.Base.{
  ℕ, zero, suc, ◌+◌, Bool, true, false, not, ◌&&◌, ◌||◌, List, [], ◌∷◌, ◌++◌, Option, none, some,
  ◌==◌, if◌then◌else◌, Text, is_empty, trim_space,
}
use go_rag_agent.Provider.Config.{GovernanceConfig}
use go_rag_agent.Provider.Classify.{Error, ErrorClass, classify, should_retry}
use go_rag_agent.Provider.Breaker.{CircuitState}
use go_rag_agent.Provider.Governor.{
  Governor, Handle, Acquired, granted, refused, waiting, Moment, acquire_any, finish_any,
}
use go_rag_agent.Provider.Backoff.{sleep_duration, sleep_with_backoff}

pub data Operation : Type 0 where
  chat_generate chat_stream embed_texts web_search : Operation

pub record Usage : Type 0 where
  pub input_tokens : ℕ
  pub output_tokens : ℕ
  pub total_tokens : ℕ

abbrev pub no_usage : Usage
no_usage = record { input_tokens = 0; output_tokens = 0; total_tokens = 0 }

pub record CallTrace : Type 0 where
  pub provider : Text
  pub operation : Operation
  pub model : Text
  pub attempts : ℕ
  pub duration : ℕ
  pub throttle_delay : ℕ
  pub circuit_state : CircuitState
  pub error_class : ErrorClass
  pub usage : Usage
  pub error : Option Error

-- What the environment does in one attempt: the reply and its error, the chunks that a stream
-- emits, the usage of the reply, and the times.
pub record Attempt (A : Type 0) : Type 0 where
  pub moment : Moment
  pub reply : A
  pub error : Option Error
  pub chunks : List Text
  pub usage : Usage
  pub finished_at : ℕ
  pub elapsed : ℕ
  pub random : ℕ
  pub interrupt : Option Error

-- `strings.TrimSpace(chunk) != ""` for one of the chunks.
unfoldable pub chunk_seen : List Text → Bool
chunk_seen [] = false
chunk_seen (c ∷ cs) = not (is_empty (trim_space c)) || chunk_seen cs

-- The fixed parts of a wrapper: its configuration, the names for the trace, and whether output that
-- was already seen forbids another attempt, as it does in `stream` alone.
pub record Wrapper : Type 0 where
  pub cfg : GovernanceConfig
  pub provider : Text
  pub model : Text
  pub operation : Operation
  pub streams : Bool

-- The variables of the loop. `called` counts the calls of the inner model, `slept` lists the
-- pauses; the last two fields observe the run and steer nothing.
pub record Progress : Type 0 where
  pub governor : Option Governor
  pub throttle : ℕ
  pub traces : List CallTrace
  pub called : ℕ
  pub slept : List ℕ

-- `(message, lastErr)`; no value is the zero value.
pub record Answer (A : Type 0) : Type 0 where
  pub value : Option A
  pub error : Option Error

pub data Next (A : Type 0) : Type 0 where
  stop : Answer A → Next A
  again : Answer A → Next A
  stuck : Next A

abbrev pub started : Option Governor → Progress
started g = record { governor = g; throttle = 0; traces = []; called = 0; slept = [] }

abbrev is_nil : Option Error → Bool
is_nil none = true
is_nil (some e) = false

module _ {A : Type 0} where
  unfoldable pub trace_of : Wrapper → ℕ → Attempt A → Handle → ℕ → Usage → Option Error → CallTrace
  trace_of w n a h throttle usage error = record {
    provider = w.provider;
    operation = w.operation;
    model = w.model;
    attempts = n;
    duration = a.elapsed;
    throttle_delay = throttle;
    circuit_state = h.circuit_state;
    error_class = classify error w.provider;
    usage = usage;
    error = error;
  }

  -- The test behind a call: no further attempt follows.
  unfoldable pub is_final : Wrapper → ℕ → Attempt A → Bool
  unfolding chunk_seen
  is_final w n a =
      is_nil a.error
      || (w.streams && chunk_seen a.chunks)
      || not (should_retry (classify a.error w.provider))
      || n == w.cfg.retry_max_attempts

  unfoldable pub after_call : Wrapper → ℕ → Attempt A → Handle → Progress → Progress × Next A
  unfolding trace_of
  after_call w n a h p =
      let class = classify a.error w.provider in
      let p' = record p {
        governor = finish_any h class a.finished_at p.governor;
        called = p.called + 1;
      } in
      let answer : Answer A = record { value = some a.reply; error = a.error } in
      if is_final w n a
      then (
        record p' { traces = trace_of w n a h p.throttle a.usage a.error ∷ p.traces },
        stop answer,
      )
      else elim (sleep_with_backoff w.cfg n a.interrupt) [
        | some e ↦ (p', stop (record { value = none; error = some e }))
        | none ↦ (record p' { slept = sleep_duration w.cfg n a.random ∷ p.slept }, again answer)
      ]

  unfoldable pub after_acquire :
      Wrapper → ℕ → Attempt A → Option Governor × Acquired → Progress → Progress × Next A
  unfolding after_call trace_of
  after_acquire w n a (g, granted h) p =
      after_call w n a h (record p { governor = g; throttle = p.throttle + h.throttle_delay })
  after_acquire w n a (g, refused h e) p =
      let throttle = p.throttle + h.throttle_delay in
      (
        record p {
          governor = g;
          throttle = throttle;
          traces = trace_of w n a h throttle no_usage (some e) ∷ p.traces;
        },
        stop (record { value = none; error = some e }),
      )
  after_acquire w n a (g, waiting) p = (record p { governor = g }, stuck)

  unfoldable pub attempt : Wrapper → ℕ → Attempt A → Progress → Progress × Next A
  unfolding after_acquire
  attempt w n a p = after_acquire w n a (acquire_any a.moment p.governor) p

  -- `for attempts = n; attempts <= RetryMaxAttempts; attempts++`, with the rounds that are left.
  -- No answer: the call still waits for a token.
  unfoldable pub retry_loop :
      Wrapper → (ℕ → Attempt A) → ℕ → ℕ → Answer A → Progress → Progress × Option (Answer A)
  retry_loop w env zero n last p = (p, some last)
  retry_loop w env (suc left) n last p =
      let (p', next) = attempt w n (env n) p in
      elim next [
        | stop answer ↦ (p', some answer)
        | again answer ↦ retry_loop w env left (n + 1) answer p'
        | stuck ↦ (p', none)
      ]

  unfoldable pub governed :
      Wrapper → (ℕ → Attempt A) → Option Governor → Progress × Option (Answer A)
  governed w env g =
      retry_loop w env w.cfg.retry_max_attempts 1 (record { value = none; error = none })
        (started g)

  -- The wrappers' methods.
  unfoldable pub generate :
      GovernanceConfig
      → Text
      → Text
      → (ℕ → Attempt A)
      → Option Governor
      → Progress × Option (Answer A)
  unfolding governed
  generate cfg provider model = governed (record {
    cfg = cfg;
    provider = provider;
    model = model;
    operation = chat_generate;
    streams = false;
  })

  unfoldable pub stream :
      GovernanceConfig
      → Text
      → Text
      → (ℕ → Attempt A)
      → Option Governor
      → Progress × Option (Answer A)
  unfolding governed
  stream cfg provider model = governed (record {
    cfg = cfg;
    provider = provider;
    model = model;
    operation = chat_stream;
    streams = true;
  })

  unfoldable pub embed :
      GovernanceConfig
      → Text
      → Text
      → (ℕ → Attempt A)
      → Option Governor
      → Progress × Option (Answer A)
  unfolding governed
  embed cfg provider model = governed (record {
    cfg = cfg;
    provider = provider;
    model = model;
    operation = embed_texts;
    streams = false;
  })

  unfoldable pub search_web :
      GovernanceConfig → Text → (ℕ → Attempt A) → Option Governor → Progress × Option (Answer A)
  unfolding governed
  search_web cfg provider = governed (record {
    cfg = cfg;
    provider = provider;
    model = [];
    operation = web_search;
    streams = false;
  })
