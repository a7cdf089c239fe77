-- ===== src/Config/Usable.antt =====
-- config.go: what a configuration that `Validate` accepts gives the parts of the agent.
use go_rag_agent.Base.{
  Bool, true, false, not, ◌&&◌, ◌||◌, ℕ, zero, suc, ◌≤◌, ◌≡◌, ◌≢◌, refl, List, [], ◌∷◌, ◌++◌,
  Option, none, leb, ltb, ℤ, pos, negsuc, is_neg, to_nat, Text, arith,
}
use go_rag_agent.Rag.Chunker.{new_chunker, ok}
use go_rag_agent.Config.Governance.{RawGovernance, IsNatural, positive}
use go_rag_agent.Config.Bridges.{
  ConfigError, first_failed, image_checks, ocr_checks, web_search_checks,
}
use go_rag_agent.Config.Options.{Config, with_defaults, normalized, defaulted}
use go_rag_agent.Config.Checks.{
  Url, provider_checks, limit_checks, governance_checks, feature_checks, checks, validate, has_tool,
}

-- whether the check at a place holds
abbrev holds_at : ℕ → List (Bool × ConfigError) → Bool
holds_at n [] = true
holds_at zero (check ∷ checks) = check.0
holds_at (suc n) (check ∷ checks) = holds_at n checks

passed-at :
    (n : ℕ) (checks : List (Bool × ConfigError))
    → first_failed checks ≡ none
    → holds_at n checks ≡ true
unfolding first_failed
passed-at n [] h = refl
passed-at zero (check ∷ checks) h = ground (arith, h)
passed-at (suc n) (check ∷ checks) h = passed-at n checks (ground (arith, h))

passed-left :
    (xs ys : List (Bool × ConfigError)) → first_failed (xs ++ ys) ≡ none → first_failed xs ≡ none
unfolding first_failed
passed-left [] ys h = refl
passed-left (x ∷ xs) ys h = ground (arith, h, passed-left xs ys)

passed-right :
    (xs ys : List (Bool × ConfigError)) → first_failed (xs ++ ys) ≡ none → first_failed ys ≡ none
unfolding first_failed
passed-right [] ys h = h
passed-right (x ∷ xs) ys h = passed-right xs ys (ground (arith, h))

-- the three groups that the parts of the agent rely on
passed-groups {ℓ} :
    {A : Type ℓ} (models limits governance features others : List (Bool × ConfigError))
    → first_failed (models ++ (limits ++ (governance ++ (features ++ others)))) ≡ none
    → (first_failed limits ≡ none
        → first_failed governance ≡ none
        → first_failed features ≡ none
        → A)
    → A
passed-groups models limits governance features others h next =
    let behind_models = passed-right models (limits ++ (governance ++ (features ++ others))) h in
    let behind_limits = passed-right limits (governance ++ (features ++ others)) behind_models in
    let behind_governance = passed-right governance (features ++ others) behind_limits in
    next (passed-left limits (governance ++ (features ++ others)) behind_models)
      (passed-left governance (features ++ others) behind_limits)
      (passed-left features others behind_governance)

-- what the agent's parts rely on
pub record IsUsable (c : Config) : Type 0 where
  pub chunker :
      new_chunker c.chunk_size c.chunk_overlap
      ≡ ok (record { size = to_nat c.chunk_size; overlap = to_nat c.chunk_overlap })
  pub chunk_fits : to_nat c.chunk_size ≤ 4000
  pub prompt : 1 ≤ to_nat c.max_prompt_tokens
  pub history : 1 ≤ to_nat c.max_history_tokens
  pub evidence : 1 ≤ to_nat c.max_evidence_tokens
  pub rounds : 1 ≤ to_nat c.max_history_rounds
  pub results : 1 ≤ to_nat c.top_k
  pub tool_calls : 1 ≤ to_nat c.max_tool_calls
  pub ttl : is_neg c.long_term_memory_ttl ≡ false
  pub attempts : 1 ≤ to_nat c.provider_governance.retry_max_attempts
  pub limits : IsNatural c.provider_governance
  pub tools : c.enable_tool_calling ≡ true → has_tool c.registered_tools ≡ true
  pub rerank : c.enable_rerank ≡ true → c.enable_hybrid_search ≡ true

not-true : (b : Bool) → not b ≡ true → b ≡ false
not-true b h = ground (arith, h)

positive-not_neg : (n : ℤ) → positive n ≡ true → is_neg n ≡ false
positive-not_neg (pos n) h = refl
positive-not_neg (negsuc n) h = ground arith

positive-le : (n : ℤ) → positive n ≡ true → 1 ≤ to_nat n
positive-le n h = ground (arith, h)

implied : (a b : Bool) → (not a || b) ≡ true → a ≡ true → b ≡ true
implied a b h g = ground (arith, h, g)

governance-IsNatural : (g : RawGovernance) → first_failed (governance_checks g) ≡ none → IsNatural g
unfolding governance_checks
governance-IsNatural g h =
    let at : (n : ℕ) → holds_at n (governance_checks g) ≡ true =
      λ n. passed-at n (governance_checks g) h in
    record {
      attempts = positive-not_neg g.retry_max_attempts (at 0);
      base_delay = positive-not_neg g.retry_base_delay (at 1);
      max_delay = positive-not_neg g.retry_max_delay (at 2);
      rate = not-true _ (at 3);
      tokens = not-true _ (at 4);
      threshold = not-true _ (at 7);
      timeout = not-true _ (at 8);
      probes = not-true _ (at 9);
    }

governance-attempts :
    (g : RawGovernance)
    → first_failed (governance_checks g) ≡ none
    → 1 ≤ to_nat g.retry_max_attempts
unfolding governance_checks
governance-attempts g h = positive-le g.retry_max_attempts (passed-at 0 (governance_checks g) h)

new_chunker-ok :
    (size overlap : ℤ)
    → positive size ≡ true
    → (not (is_neg overlap) && ltb (to_nat overlap) (to_nat size)) ≡ true
    → new_chunker size overlap ≡ ok (record { size = to_nat size; overlap = to_nat overlap })
unfolding new_chunker
new_chunker-ok size overlap h g =
    let some_size : leb (to_nat size) 0 ≡ false = ground (arith, h) in
    let overlap_pos : is_neg overlap ≡ false = ground (arith, g) in
    let smaller : leb (to_nat size) (to_nat overlap) ≡ false = ground (arith, g) in
    rw (some_size, overlap_pos, smaller) refl

checked-IsUsable :
    (parse : Text → Option Url) (c : Config)
    → first_failed (limit_checks c) ≡ none
    → first_failed (governance_checks c.provider_governance) ≡ none
    → first_failed (feature_checks c) ≡ none
    → IsUsable c
unfolding limit_checks feature_checks
checked-IsUsable parse c limits governance features =
    let limit : (n : ℕ) → holds_at n (limit_checks c) ≡ true =
      λ n. passed-at n (limit_checks c) limits in
    let feature : (n : ℕ) → holds_at n (feature_checks c) ≡ true =
      λ n. passed-at n (feature_checks c) features in
    record {
      chunker = new_chunker-ok c.chunk_size c.chunk_overlap (limit 9) (limit 11);
      chunk_fits = (let h = limit 10 in ground (arith, h));
      prompt = positive-le c.max_prompt_tokens (limit 2);
      history = positive-le c.max_history_tokens (limit 3);
      evidence = positive-le c.max_evidence_tokens (limit 4);
      rounds = positive-le c.max_history_rounds (limit 13);
      results = positive-le c.top_k (limit 12);
      tool_calls = positive-le c.max_tool_calls (limit 16);
      ttl = not-true _ (limit 7);
      attempts = governance-attempts c.provider_governance governance;
      limits = governance-IsNatural c.provider_governance governance;
      tools = implied c.enable_tool_calling (has_tool c.registered_tools) (feature 1);
      rerank = implied c.enable_rerank c.enable_hybrid_search (feature 3);
    }

-- A configuration that `Validate` accepts can be used with its defaults: its chunker is made and its
-- chunks fit the context, its limits on prompt, history, evidence, rounds, results and tool calls are
-- positive, a provider is tried at least once under limits none of which is negative, tools are there
-- where they are called, and a reranking has a hybrid search.
pub validate-IsUsable :
    (parse : Text → Option Url) (c : Config) → validate parse c ≡ none → IsUsable (with_defaults c)
unfolding validate checks
validate-IsUsable parse c h =
    let d = with_defaults c in
    let others =
      web_search_checks d.web_search d.enable_web_search
      ++ (ocr_checks d.pdf_ocr_bridge ++ image_checks d.image_text_bridge) in
    passed-groups (provider_checks parse d) (limit_checks d)
      (governance_checks d.provider_governance) (feature_checks d) others h
      (checked-IsUsable parse d)

-- `Validate` refuses a negative lifetime of memories, whatever else is configured.
validate-ttl :
    (parse : Text → Option Url) (c : Config)
    → is_neg c.long_term_memory_ttl ≡ true
    → validate parse c ≢ none
unfolding with_defaults normalized defaulted
validate-ttl parse c h valid =
    let ttl : is_neg c.long_term_memory_ttl ≡ false = (validate-IsUsable parse c valid).ttl in
    absurd (ground (arith, h, ttl))
