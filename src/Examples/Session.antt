-- ===== src/Examples/Session.antt =====
-- Examples for session.go and internal/memory/history.go.
use go_rag_agent.Base.{true, false, List, [], ◌∷◌, ◌≡◌, refl, pos, to_nat, last, codes}
use go_rag_agent.Memory.{Turn, new_history}
use go_rag_agent.Memory.Window.{Change, appended, cleared, apply_all, kept, history-window}
use go_rag_agent.Session.{local, external, settled, mark_history_clear}
use go_rag_agent.Session.System.{
  free, Event, begins, answers, commits, ends, clears, closes, start, step, run,
}
use go_rag_agent.Session.Closing.{start-Inv, run-Inv, close_is_final}
use go_rag_agent.Session.Clearing.{late_clear}

abbrev greeting : Turn
greeting = record { user = codes "hi"; assistant = codes "hello" }

abbrev farewell : Turn
farewell = record { user = codes "bye"; assistant = codes "see you" }

abbrev talk : List Change
talk = appended greeting ∷ cleared ∷ appended greeting ∷ appended greeting ∷ appended farewell ∷ []

history-window_example :
    (apply_all talk (new_history (pos 2))).turns ≡ last (to_nat (pos 2)) (kept talk [])
history-window_example = history-window (pos 2) talk

talk_kept : last 2 (kept talk []) ≡ greeting ∷ farewell ∷ []
unfolding kept
talk_kept = refl

abbrev asked : List Event
asked = begins ∷ answers greeting ∷ []

close_is_final_example :
    let y = run (commits true ∷ ends ∷ []) (step closes (run asked (start local (pos 2)))) in
    (y.session.closed ≡ true) × (step begins y ≡ y)
unfolding run step start
close_is_final_example = close_is_final local (pos 2) asked (commits true ∷ ends ∷ []) refl

abbrev stored_run : List Event
stored_run = begins ∷ answers greeting ∷ []

abbrev stored : List Event
stored = begins ∷ answers greeting ∷ commits true ∷ []

late_clear_example :
    let y = run stored (start external (pos 2)) in
    let z = step ends (step (clears false) y) in
    ((mark_history_clear false y.mode y.session).1 ≡ settled)
    × (z.store ≡ y.store)
    × (z.phase ≡ free)
    × (z.clearers ≡ y.clearers)
    × ((step (commits true) (step (answers farewell) (step begins z))).store ≡ [])
unfolding run step start
late_clear_example =
    late_clear (run stored (start external (pos 2))) greeting farewell
      (run-Inv stored (start external (pos 2)) (start-Inv external (pos 2))) refl refl refl

late_clear_store : (run stored (start external (pos 2))).store ≡ greeting ∷ []
unfolding run step start
late_clear_store = refl
