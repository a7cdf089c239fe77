-- ===== src/Examples/Provider.antt =====
-- Examples for provider_governor.go and provider_resilience.go.
use go_rag_agent.Base.{
  ℕ, ◌+◌, ◌*◌, ◌≤◌, ◌<◌, ◌≡◌, refl, true, false, List, [], ◌∷◌, none, some, arith, ◌==◌,
  if◌then◌else◌, Text, codes, trim_space, text_eq,
}
use go_rag_agent.Provider.Config.{BreakerConfig, RateLimitConfig, GovernanceConfig, millisecond}
use go_rag_agent.Provider.Classify.{Error, deadline_exceeded, transient, classify, should_retry}
use go_rag_agent.Provider.Breaker.{Breaker, closed, opened, half_open, new_breaker, reserve, finish}
use go_rag_agent.Provider.Breaker.System.{Event, reserves, finishes, aborts, run, Inv}
use go_rag_agent.Provider.Breaker.Recovery.{shared-Inv, opened-cooldown}
use go_rag_agent.Provider.Limiter.{Limiter, Round, second}
use go_rag_agent.Provider.Governor.{
  Moment, Governor, acquire_any, acquire, finish_any, finish_handle,
}
use go_rag_agent.Provider.Backoff.{backoff_delay, sleep_with_backoff}
use go_rag_agent.Provider.Retry.{
  Attempt, Wrapper, chat_generate, no_usage, governed, stream, chunk_seen, retry_loop, attempt,
  is_final,
}
use go_rag_agent.Provider.Retry.Answers.{governed-FirstFinal, stream_no_repeat, FirstFinal}
use go_rag_agent.Provider.Retry.Governed.{governed-probes_out, probes_out}

abbrev openai : Text
openai = codes "openai"

abbrev two_failures : BreakerConfig
two_failures = record { failure_threshold = 2; open_timeout = 30; half_open_max_calls = 1 }

abbrev fresh : Breaker
fresh = record {
  provider = openai;
  cfg = two_failures;
  state = closed;
  consecutive_failure = 0;
  opened_at = 0;
  half_open_in_flight = 0;
}

abbrev tripped : Breaker
tripped = record fresh { state = opened; opened_at = 5 }

-- Three calls overlap, and two of them fail.
abbrev overlap : List Event
overlap =
    reserves 1
    ∷ reserves 2
    ∷ reserves 3
    ∷ finishes 0 transient 4
    ∷ finishes 0 transient 5
    ∷ reserves 40
    ∷ aborts 0
    ∷ []

shared-Inv_example : Inv (run overlap (record { breaker = fresh; live = [] }))
unfolding new_breaker
shared-Inv_example = shared-Inv openai two_failures overlap {b = fresh} refl (omega arith)

opened-cooldown_example :
    (34 < tripped.opened_at + tripped.cfg.open_timeout
      → reserve 34 tripped ≡ (tripped, record { reservation = none; state = opened }))
    × (tripped.opened_at + tripped.cfg.open_timeout ≤ 34
        → reserve 34 tripped ≡ (
          record tripped {
            state = half_open;
            half_open_in_flight = tripped.half_open_in_flight + 1;
          },
          record { reservation = some (record { probe = true }); state = half_open },
        ))
opened-cooldown_example = opened-cooldown 34 tripped refl

abbrev crowded : Breaker
crowded = record tripped { half_open_in_flight = 1 }

-- How the state of the last example comes about: a call admitted before the breaker tripped fails
-- while a probe is out.
over_limit_reached :
    (run
      (reserves 1
        ∷ reserves 1
        ∷ reserves 1
        ∷ finishes 0 transient 2
        ∷ finishes 0 transient 3
        ∷ reserves 40
        ∷ finishes 1 transient 41
        ∷ reserves 80
        ∷ [])
      (record { breaker = fresh; live = [] })).breaker.half_open_in_flight
    ≡ 2
unfolding run reserve finish
over_limit_reached = refl

abbrev two_a_second : RateLimitConfig
two_a_second = record { rate_num = 2; rate_den = 1; burst = 1 }

abbrev bucket : Limiter
bucket = record { unit = second; rate = 2; burst = second; tokens = second; last = 10 }

abbrev drained : Limiter
drained = record bucket { tokens = 0 }

abbrev at_once : Round
at_once = record { take_at = 10; interrupt = none; ended_at = 500000011 }

abbrev later_round : Round
later_round = record { take_at = 500000012; interrupt = none; ended_at = 500000013 }

abbrev three_tries : GovernanceConfig
three_tries = record {
  retry_max_attempts = 3;
  retry_base_delay = 200 * millisecond;
  retry_max_delay = 2000 * millisecond;
  rate_limit = record { rate_num = 0; rate_den = 1; burst = 0 };
  circuit_breaker = two_failures;
}

abbrev timed_out : Error
timed_out = record {
  is = λ s. elim s [ deadline_exceeded ↦ true | _ ↦ false ];
  text = codes "context deadline exceeded";
}

abbrev moment : Moment
moment = record { reserve_at = 6; wait_from = 6; rounds = [] }

abbrev good : Attempt ℕ
good = record {
  moment = moment;
  reply = 7;
  error = none;
  chunks = codes "ok" ∷ [];
  usage = no_usage;
  finished_at = 9;
  elapsed = 3;
  random = 5;
  interrupt = none;
}

abbrev bad : Attempt ℕ
bad = record good { reply = 0; error = some timed_out; chunks = [] }

-- The first attempt times out, every other one succeeds.
abbrev second_try_works : ℕ → Attempt ℕ
second_try_works n = if n == 1 then bad else good

calm : (n : ℕ) → (second_try_works n).interrupt ≡ none
calm n = ground arith

abbrev wrapper : Wrapper
wrapper = record {
  cfg = three_tries;
  provider = openai;
  model = codes "gpt";
  operation = chat_generate;
  streams = false;
}

abbrev governor : Governor
governor = record { rate_limiter = none; circuit_breaker = some fresh }

governed-FirstFinal_example :
    (k : ℕ) × FirstFinal wrapper second_try_works 1 k
    × ((governed wrapper second_try_works none).1
        ≡ some (record {
          value = some (second_try_works k).reply;
          error = (second_try_works k).error;
        }))
    × ((governed wrapper second_try_works none).0.called ≡ k)
governed-FirstFinal_example = governed-FirstFinal wrapper second_try_works (omega arith) calm

second_try_called : (stream three_tries openai (codes "gpt") second_try_works none).0.called ≡ 2
unfolding stream retry_loop attempt is_final acquire_any finish_any classify should_retry
    sleep_with_backoff backoff_delay trim_space text_eq
second_try_called = refl

second_try_returns :
    (governed wrapper second_try_works (some governor)).1
    ≡ some (record { value = some 7; error = none })
unfolding governed retry_loop attempt is_final acquire_any acquire finish_any classify should_retry
    sleep_with_backoff backoff_delay reserve finish finish_handle
second_try_returns = refl

stream_no_repeat_example :
    (chunk_seen (second_try_works 1).chunks ≡ false)
    × (should_retry (classify (second_try_works 1).error openai) ≡ true)
stream_no_repeat_example =
    stream_no_repeat three_tries openai (codes "gpt") second_try_works none 1 (omega arith)
      (omega (arith, second_try_called))

governed-probes_out_example :
    probes_out (governed wrapper second_try_works (some governor)).0.governor
    ≡ probes_out (some governor)
governed-probes_out_example =
    governed-probes_out wrapper second_try_works (some governor) (λ e. cc second_try_returns)
