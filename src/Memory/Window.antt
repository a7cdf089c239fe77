-- ===== src/Memory/Window.antt =====
-- The history is a window on what was appended since it was last cleared.
use go_rag_agent.Base.{
  ℕ, ◌≡◌, sym, last-zero, ◌∙◌, ap, List, [], ◌∷◌, ◌++◌, arith, ltb, leb, ℤ, to_nat, length, last,
  last-append, last_of_length-le, Bool-cases, inl, inr,
}
use go_rag_agent.Memory.{Turn, History, new_history, append, trim, clear}

pub data Change : Type 0 where
  appended : Turn → Change
  cleared : Change

unfoldable pub apply : Change → History → History
unfolding append clear
apply (appended t) h = append t h
apply cleared h = clear h

unfoldable pub apply_all : List Change → History → History
unfolding apply
apply_all [] h = h
apply_all (c ∷ cs) h = apply_all cs (apply c h)

-- The turns since the last clear, all of them, with those before the changes.
unfoldable pub kept : List Change → List Turn → List Turn
kept [] ts = ts
kept (appended t ∷ cs) ts = kept cs (ts ++ t ∷ [])
kept (cleared ∷ cs) ts = kept cs []

trim-last : (max : ℕ) (ts : List Turn) → trim max ts ≡ last max ts
unfolding trim
trim-last max ts = elim (Bool-cases (ltb max (length ts))) [
  | inl e ↦ rw e
  | inr e ↦ rw e (sym (last_of_length-le max ts (ground arith)))
]

append-last :
    (t : Turn) (h : History) → (append t h).turns ≡ last (to_nat h.max_rounds) (h.turns ++ t ∷ [])
unfolding append
append-last t h = elim (Bool-cases (leb (to_nat h.max_rounds) 0)) [
  | inl e ↦ rw e (sym (last-zero (to_nat h.max_rounds) (h.turns ++ t ∷ []) (ground arith)))
  | inr e ↦ rw e (trim-last (to_nat h.max_rounds) (h.turns ++ t ∷ []))
]

nothing : (h : History) → (clear h).turns ≡ last (to_nat h.max_rounds) []
unfolding clear
nothing h = sym (last_of_length-le (to_nat h.max_rounds) [] (omega arith))

max_rounds-append : (t : Turn) (h : History) → (append t h).max_rounds ≡ h.max_rounds
unfolding append
max_rounds-append t h = ground arith

apply_all-window :
    (cs : List Change) (h : History) (ts : List Turn)
    → h.turns ≡ last (to_nat h.max_rounds) ts
    → (apply_all cs h).turns ≡ last (to_nat h.max_rounds) (kept cs ts)
unfolding apply_all kept
apply_all-window [] h ts e = e
apply_all-window (appended t ∷ cs) h ts e =
    let same = max_rounds-append t h in
    let now : (append t h).turns ≡ last (to_nat h.max_rounds) (ts ++ t ∷ []) =
      append-last t h
      ∙ (ap (λ us. last (to_nat h.max_rounds) (us ++ t ∷ [])) e
          ∙ last-append (to_nat h.max_rounds) ts (t ∷ [])) in
    rw same at (apply_all-window cs (append t h) (ts ++ t ∷ []) (rw same now))
apply_all-window (cleared ∷ cs) h ts e = apply_all-window cs (clear h) [] (nothing h)

-- After any sequence of appends and clears a new history holds the last `max_rounds` turns of those
-- appended since the last clear, oldest first, and none where the bound is not positive.
pub history-window :
    (max_rounds : ℤ) (cs : List Change)
    → (apply_all cs (new_history max_rounds)).turns ≡ last (to_nat max_rounds) (kept cs [])
unfolding new_history
history-window max_rounds cs =
    apply_all-window cs (new_history max_rounds) []
      (sym (last_of_length-le (to_nat max_rounds) [] (omega arith)))
