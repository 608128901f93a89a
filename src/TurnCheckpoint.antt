-- ===== src/TurnCheckpoint.antt =====
-- servers/core/src/turn_checkpoint.py: the log of one-line notes between the heavy checkpoints.
pub mod Notes
pub mod Queue
mod Tests
use Prim.Native.String.{len, ◌++◌ as str_append}
use youk.Prelude.{
  ℕ, zero, suc, ◌-◌, String, Bool, true, false, not, List, [], ◌∷◌, ◌++◌, map, ◌==◌, if◌then◌else◌,
  length, select, leb, ltb, nat_eq,
}

abbrev pub max_note : ℕ
max_note = 280

abbrev pub max_records : ℕ
max_records = 200

pub record Note : Type 0 where
  pub note : String
  pub agent : String
  pub session_slug : String
  pub ts : String
  pub consumed : Bool

abbrev pub unread : Note → Bool
unread r = not r.consumed

abbrev pub is_consumed : Note → Bool
is_consumed r = r.consumed

-- `xs[-k:]` for k > 0
unfoldable pub drop {ℓ} : {A : Type ℓ} → ℕ → List A → List A
drop zero xs = xs
drop (suc n) [] = []
drop (suc n) (x ∷ xs) = drop n xs

unfoldable pub last_of {ℓ} : {A : Type ℓ} → ℕ → List A → List A
unfolding drop
last_of k xs = drop (length xs - k) xs

-- `_prune`: `max(0, a - b)` is the subtraction of ℕ.
unfoldable pub prune : List Note → List Note
unfolding select last_of
prune records =
    if leb (length records) max_records
    then records
    else (let unconsumed = select unread records in
        let keep = max_records - length unconsumed in
        if nat_eq keep 0
        then unconsumed
        else unconsumed ++ last_of keep (select is_consumed records))

pub data WriteReply : Type 0 where
  empty_note too_long : WriteReply
  written : (pending : ℕ) → WriteReply

-- `strip` is str.strip, `now` the time; the log is the records that `_read` parses.
unfoldable pub write_note :
    (String → String) → String → String → String → String → List Note → WriteReply × List Note
unfolding prune select
write_note strip now text agent session_slug log =
    let note = strip text in
    if note == ""
    then (empty_note, log)
    else if ltb max_note (len note)
    then (too_long, log)
    else (let records =
          log
          ++ record {
            note = note;
            agent = agent;
            session_slug = session_slug;
            ts = now;
            consumed = false;
          }
            ∷ [] in
        (written (length (select unread records)), prune records))

unfoldable pub pending_notes : List Note → List Note
unfolding select
pending_notes = select unread

abbrev pub line_of : Note → String
line_of r =
    str_append "- "
      (str_append (if r.agent == "" then "" else str_append "[" (str_append r.agent "] ")) r.note)

abbrev pub consume : Note → Note
consume r = if unread r then record r { consumed = true } else r

-- The rendered lines, and the log afterwards.
unfoldable pub render_and_consume : List Note → List String × List Note
unfolding pending_notes prune
render_and_consume log = elim (pending_notes log) [
  | [] ↦ ([], log)
  | r ∷ rs ↦ (map line_of (r ∷ rs), prune (map consume log))
]
