-- ===== src/Prompt/Budgets.antt =====
-- internal/graph/prompt_governance.go: evidence and memory share what the prompt has left.
use go_rag_agent.Base.{
  false, ℕ, ◌+◌, ◌≤◌, ◌≡◌, max, ℤ, pos, negsuc, is_neg, to_nat, ◌-ℤ◌, less, difference, arith,
}
use go_rag_agent.Prompt.Messages.{within, share, effective_budgets}

-- Where the prompt's limit is positive and the evidence's is not negative, the messages so far, the
-- evidence and the memory together get no more tokens than the limit, or than the messages so far
-- where these alone are over it.
effective_budgets-bounded :
    (prompt base : ℕ) (evidence memory : ℤ)
    → 1 ≤ prompt
    → is_neg evidence ≡ false
    → base
        + to_nat (effective_budgets (pos prompt) base evidence memory).0
        + to_nat (effective_budgets (pos prompt) base evidence memory).1
      ≤ max base prompt
unfolding effective_budgets share within ◌-ℤ◌ less difference
effective_budgets-bounded prompt base (pos e) (pos m) h n = ground arith
effective_budgets-bounded prompt base (pos e) (negsuc m) h n = ground arith
effective_budgets-bounded prompt base (negsuc e) m h n = ground arith
