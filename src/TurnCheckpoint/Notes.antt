-- ===== src/TurnCheckpoint/Notes.antt =====
-- No note of turn_checkpoint.py is lost before it is read, and the log stays bounded.
use mathlib.Core.List.{append-nil}
use Prim.Native.String.{len}
use youk.Prelude.{
  ℕ, zero, suc, ◌-◌, ◌≤◌, ◌<◌, max, String, Bool, false, List, [], ◌∷◌, ◌++◌, map, ◌==◌, length,
  length-append, select, select-append, leb, ltb, nat_eq, ◌≡◌, ◌≢◌, inl, inr, refl, sym, ap, ◌∙◌,
  subst, arith, eq_iff, Bool-cases, List-cases,
}
use youk.TurnCheckpoint.{
  max_note, max_records, Note, unread, is_consumed, drop, last_of, prune, WriteReply, empty_note,
  too_long, written, write_note, pending_notes, line_of, consume, render_and_consume,
}

module _ {ℓ} {A : Type ℓ} where
  select_twice : (p : A → Bool) (xs : List A) → select p (select p xs) ≡ select p xs
  unfolding select
  select_twice p [] = refl
  select_twice p (x ∷ xs) = elim (Bool-cases (p x)) [
    | inl h ↦ rw h (rw h (ap (λ l. x ∷ l) (select_twice p xs)))
    | inr h ↦ rw h (select_twice p xs)
  ]

  length-drop : (n : ℕ) (xs : List A) → length (drop n xs) ≡ length xs - n
  unfolding drop
  length-drop zero xs = omega arith
  length-drop (suc n) [] = omega arith
  length-drop (suc n) (x ∷ xs) = omega (arith, length-drop n xs)

  select-drop : (p : A → Bool) (n : ℕ) (xs : List A) → select p xs ≡ [] → select p (drop n xs) ≡ []
  unfolding drop select
  select-drop p zero xs e = e
  select-drop p (suc n) [] e = e
  select-drop p (suc n) (x ∷ xs) e = elim (Bool-cases (p x)) [
    | inl h ↦ let e' = rw h at e in cc
    | inr h ↦ select-drop p n xs (rw h at e)
  ]

unread-consumed : (rs : List Note) → select unread (select is_consumed rs) ≡ []
unfolding select
unread-consumed [] = refl
unread-consumed (r ∷ rs) = elim (Bool-cases (r.consumed)) [
  | inl h ↦ rw h (unread-consumed rs)
  | inr h ↦ rw h (unread-consumed rs)
]

pub unread-map-consume : (rs : List Note) → select unread (map consume rs) ≡ []
unfolding select
unread-map-consume [] = refl
unread-map-consume (r ∷ rs) = elim (Bool-cases (r.consumed)) [
  | inl h ↦ rw h (unread-map-consume rs)
  | inr h ↦ rw h (unread-map-consume rs)
]

prune-unread : (rs : List Note) → select unread (prune rs) ≡ select unread rs
unfolding prune last_of
prune-unread rs = elim (Bool-cases (leb (length rs) max_records)) [
  | inl small ↦ rw (small, prune)
  | inr large ↦
      let kept = select unread rs in
      elim (Bool-cases (nat_eq (max_records - length kept) 0)) [
        | inl none_left ↦ rw (large, prune, none_left) (select_twice unread rs)
        | inr some_left ↦
            let read = select is_consumed rs in
            let tail = drop (length read - (max_records - length kept)) read in
            rw (large, prune, some_left)
              (select-append unread kept tail
                ∙ ap (λ l. select unread kept ++ l) (select-drop unread _ read (unread-consumed rs))
                ∙ append-nil (select unread kept)
                ∙ select_twice unread rs)
      ]
]

pub length-prune :
    (rs : List Note) → length (prune rs) ≤ max max_records (length (select unread rs))
unfolding prune last_of
length-prune rs = elim (Bool-cases (leb (length rs) max_records)) [
  | inl small ↦ rw (small, prune) (ground arith)
  | inr large ↦
      let kept = select unread rs in
      elim (Bool-cases (nat_eq (max_records - length kept) 0)) [
        | inl none_left ↦ rw (large, prune, none_left) (omega arith)
        | inr some_left ↦
            let read = select is_consumed rs in
            let n = length read - (max_records - length kept) in
            let left : 0 < max_records - length kept = ground arith in
            rw (large, prune, some_left)
              (omega (arith, left, length-append kept (drop n read), length-drop n read))
      ]
]

-- What write_note does: it refuses and leaves the log alone, for a note that is empty or longer
-- than the cap once it is stripped; or the notes pending are those from before and the new one,
-- at the end, and their number is the answer.
pub data Wrote (note : Note) (log : List Note) : WriteReply × List Note → Type 0 where
  blank : note.note ≡ "" → Wrote note log (empty_note, log)
  over : max_note < len note.note → Wrote note log (too_long, log)
  noted :
      (pending : ℕ) (after : List Note)
      → pending ≡ length (pending_notes after)
      → note.note ≢ ""
      → len note.note ≤ max_note
      → pending_notes after ≡ pending_notes log ++ note ∷ []
      → length after ≤ max max_records (length (pending_notes after))
      → Wrote note log (written pending, after)

abbrev pub new_note : String → String → String → String → Note
new_note text now agent session_slug = record {
  note = text;
  agent = agent;
  session_slug = session_slug;
  ts = now;
  consumed = false;
}

-- write_note refuses and leaves the log alone when the stripped note is empty or over the cap;
-- otherwise the notes pending afterwards are those from before with the new one at the end, their
-- number is the answer, and the log is no longer than the bound or than the notes pending.
pub write_note_lem :
    (strip : String → String) (now text agent session_slug : String) (log : List Note)
    → Wrote
        (new_note (strip text) now agent session_slug)
        log
        (write_note strip now text agent session_slug log)
unfolding write_note pending_notes prune
write_note_lem strip now text agent session_slug log = elim (Bool-cases (strip text == "")) [
  | inl empty ↦ rw (empty, write_note) (blank ((eq_iff (strip text) "").0 empty))
  | inr full ↦
      let named : strip text ≢ "" = λ e. cc (full, (eq_iff (strip text) "").1 e) in
      elim (Bool-cases (ltb max_note (len (strip text)))) [
        | inl long ↦ rw (full, write_note, long) (over (ground arith))
        | inr short ↦
            let note = new_note (strip text) now agent session_slug in
            let records = log ++ note ∷ [] in
            let kept = prune-unread records in
            rw (full, write_note, short)
              (noted (length (select unread records)) (prune records) (sym (ap length kept)) named
                (ground arith) (kept ∙ select-append unread log (note ∷ []))
                (omega (arith, length-prune records, ap length kept)))
      ]
]

-- What render_and_consume does.
pub record Rendered (log : List Note) (r : List String × List Note) : Type 0 where
  pub lines : r.0 ≡ map line_of (pending_notes log)
  pub drained : pending_notes r.1 ≡ []
  pub again : render_and_consume r.1 ≡ ([], r.1)

drained-again : (log : List Note) → pending_notes log ≡ [] → render_and_consume log ≡ ([], log)
unfolding render_and_consume
drained-again log e = rw (render_and_consume, e)

-- render_and_consume answers the line of each pending note, oldest first; afterwards no note is
-- pending, and a second call answers no line and changes nothing.
pub render_and_consume-Rendered : (log : List Note) → Rendered log (render_and_consume log)
unfolding render_and_consume
render_and_consume-Rendered log = elim (List-cases (pending_notes log)) [
  | inl nothing ↦ subst (Rendered log) (sym (drained-again log nothing)) (record {
    lines = ap (map line_of) (sym nothing);
    drained = nothing;
    again = drained-again log nothing;
  })
  | inr (r, rest, h) ↦
      let after = prune (map consume log) in
      let drained : pending_notes after ≡ [] =
        unfold pending_notes in prune-unread (map consume log) ∙ unread-map-consume log in
      let e : render_and_consume log ≡ (map line_of (r ∷ rest), after) =
        rw (render_and_consume, h) in
      subst (Rendered log) (sym e) (record {
        lines = ap (map line_of) (sym h);
        drained = drained;
        again = drained-again after drained;
      })
]
