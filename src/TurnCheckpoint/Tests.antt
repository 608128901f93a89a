-- ===== src/TurnCheckpoint/Tests.antt =====
-- A short log, and the theorems on turn_checkpoint.py at it.
use youk.Prelude.{arith, String, List, [], ◌∷◌, ◌≡◌, refl}
use youk.TurnCheckpoint.{Note, empty_note, pending_notes, render_and_consume}
use youk.TurnCheckpoint.Notes.{new_note}
use youk.TurnCheckpoint.Queue.{
  write, read, wrote, rendered, perform_all, serve_all, StandsFor, perform_all_refines,
}

abbrev log : List Note
log = new_note "use sqlite" "t1" "claude" "s1" ∷ []

render_it : (render_and_consume log).0 ≡ "- [claude] use sqlite" ∷ []
unfolding render_and_consume
render_it = refl

-- Stands for str.strip on a text with no white space at its ends.
abbrev strip : String → String
strip s = s

refused_then_read :
    (perform_all strip (write "t2" "" "a" "s" ∷ read ∷ read ∷ []) log).0
    ≡ wrote empty_note ∷ rendered ("- [claude] use sqlite" ∷ []) ∷ rendered [] ∷ []
unfolding perform_all
refused_then_read = refl

perform_all_refines_example :
    ((perform_all strip (write "t2" "next" "codex" "s2" ∷ read ∷ []) log).0
      ≡ (serve_all strip (write "t2" "next" "codex" "s2" ∷ read ∷ []) log).0)
    × StandsFor strip
        (perform_all strip (write "t2" "next" "codex" "s2" ∷ read ∷ []) log).1
        (serve_all strip (write "t2" "next" "codex" "s2" ∷ read ∷ []) log).1
unfolding pending_notes
perform_all_refines_example =
    perform_all_refines strip (write "t2" "next" "codex" "s2" ∷ read ∷ []) log log
      (record { unread_notes = refl; bounded = omega arith })
