-- ===== src/Provider/Classify.antt =====
-- classifyProviderError and shouldRetryProviderError of provider_resilience.go. An error is its
-- text with the sentinels that `errors.Is` finds in its chain; those of the provider library and
-- of package context are named, not defined, here.
use go_rag_agent.Base.{
  ℕ, ◌+◌, Bool, true, false, ◌&&◌, ◌||◌, Option, none, some, map, leb, if◌then◌else◌, Text, codes,
  text_eq, contains,
}

pub data Sentinel : Type 0 where
  circuit_open context_canceled deadline_exceeded : Sentinel
  provider_rate_limit provider_auth provider_timeout server_error network : Sentinel
  invalid_request context_length : Sentinel

pub record Error : Type 0 where
  pub is : Sentinel → Bool
  pub text : Text

-- The class is a string in the source; `no_error` is the empty one.
pub data ErrorClass : Type 0 where
  no_error unknown rate_limit auth transient permanent circuit canceled : ErrorClass

unfoldable pub to_lower : ℕ → ℕ
to_lower c = if leb b'A' c && leb c b'Z' then c + 32 else c

unfoldable pub classify_text : Text → ErrorClass
unfolding contains
classify_text t =
    if has "429" || has "rate limit" || has "too many requests"
    then rate_limit
    else if has "401" || has "403" || has "unauthorized" || has "forbidden" || has "api key"
    then auth
    else if has "timeout"
        || has "temporarily unavailable"
        || has "connection reset"
        || has "503"
        || has "502"
        || has "504"
    then transient
    else if has "400" || has "404" || has "invalid request" || has "not found"
    then permanent
    else unknown
  where
    has : Prim.Native.String.String → Bool
    has sub = contains t (codes sub)

-- The cases of the provider library's own errors; `none` falls through to the text.
unfoldable pub classify_openai : Error → Option ErrorClass
classify_openai e =
    if e.is provider_rate_limit
    then some rate_limit
    else if e.is provider_auth
    then some auth
    else if e.is provider_timeout || e.is server_error || e.is network
    then some transient
    else if e.is invalid_request || e.is context_length
    then some permanent
    else none

abbrev or_text : Option ErrorClass → Error → ErrorClass
or_text (some class) e = class
or_text none e = classify_text (map to_lower e.text)

unfoldable pub classify_error : Error → Text → ErrorClass
unfolding classify_openai
classify_error e provider =
    if e.is circuit_open
    then circuit
    else if e.is context_canceled
    then canceled
    else if e.is deadline_exceeded
    then transient
    else or_text (if text_eq provider (codes "openai") then classify_openai e else none) e

unfoldable pub classify : Option Error → Text → ErrorClass
unfolding classify_error
classify none provider = no_error
classify (some e) provider = classify_error e provider

unfoldable pub should_retry : ErrorClass → Bool
should_retry transient = true
should_retry rate_limit = true
should_retry _ = false
