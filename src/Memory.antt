-- ===== src/Memory.antt =====
-- internal/memory/history.go: the bounded history of one session. Its methods run under the
-- history's lock, so each is one step on the record.
pub mod Window
use go_rag_agent.Base.{
  ℕ, ◌-◌, List, [], ◌∷◌, ◌++◌, map, ltb, leb, if◌then◌else◌, ℤ, to_nat, length, drop, Text,
}

pub record Turn : Type 0 where
  pub user : Text
  pub assistant : Text

pub record History : Type 0 where
  pub max_rounds : ℤ
  pub turns : List Turn

unfoldable pub new_history : ℤ → History
new_history max_rounds = record { max_rounds = max_rounds; turns = [] }

-- The cut behind the append: `turns[len(turns)-max:]` where there are more.
unfoldable pub trim : ℕ → List Turn → List Turn
trim max turns = if ltb max (length turns) then drop (length turns - max) turns else turns

unfoldable pub append : Turn → History → History
unfolding trim
append t h =
    if leb (to_nat h.max_rounds) 0
    then record h { turns = [] }
    else record h { turns = trim (to_nat h.max_rounds) (h.turns ++ t ∷ []) }

unfoldable pub clear : History → History
clear h = record h { turns = [] }

unfoldable pub last_user_queries : History → List Text
last_user_queries h = map (λ t. t.user) h.turns
