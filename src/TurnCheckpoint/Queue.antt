-- ===== src/TurnCheckpoint/Queue.antt =====
-- The log of turn_checkpoint.py behaves as a first-in first-out queue of its unread notes.
use Prim.Native.String.{len}
use youk.Prelude.{
  ◌≤◌, ◌<◌, max, String, true, false, List, [], ◌∷◌, ◌++◌, map, ◌==◌, if◌then◌else◌, length, ltb,
  ◌≡◌, ◌≢◌, inl, inr, refl, ap, ◌∙◌, subst, arith, eq_iff, List-cases,
}
use youk.TurnCheckpoint.{
  max_note, max_records, Note, WriteReply, empty_note, too_long, written, write_note, pending_notes,
  line_of, consume, render_and_consume,
}
use youk.TurnCheckpoint.Notes.{
  Wrote, blank, over, noted, new_note, write_note_lem, render_and_consume-Rendered, length-prune,
  unread-map-consume,
}

unnamed-false : (text : String) → text ≢ "" → (text == "") ≡ false
unnamed-false text h = ground (arith, eq_iff text "")

pub data Reply : Type 0 where
  wrote : WriteReply → Reply
  rendered : List String → Reply

cons-eq : {x y : Reply} {a b : List Reply} → x ≡ y → a ≡ b → x ∷ a ≡ y ∷ b
cons-eq p q = cc (p, q)

pub data Call : Type 0 where
  write : (now text agent session_slug : String) → Call
  read : Call

module _ (strip : String → String) where
  unfoldable pub perform : Call → List Note → Reply × List Note
  unfolding write_note render_and_consume
  perform (write now text agent session_slug) log =
      let (reply, after) = write_note strip now text agent session_slug log in (wrote reply, after)
  perform read log = let (lines, after) = render_and_consume log in (rendered lines, after)

  unfoldable pub perform_all : List Call → List Note → List Reply × List Note
  unfolding perform
  perform_all [] log = ([], log)
  perform_all (c ∷ cs) log =
      let (reply, after) = perform c log in
      let (replies, last) = perform_all cs after in (reply ∷ replies, last)

  -- The queue that the log stands for: a note joins at the end, a read takes them all.
  unfoldable pub serve : Call → List Note → Reply × List Note
  serve (write now text agent session_slug) queue =
      let note = strip text in
      let joined = queue ++ new_note note now agent session_slug ∷ [] in
      if note == ""
      then (wrote empty_note, queue)
      else if ltb max_note (len note)
      then (wrote too_long, queue)
      else (wrote (written (length joined)), joined)
  serve read queue = (rendered (map line_of queue), [])

  unfoldable pub serve_all : List Call → List Note → List Reply × List Note
  unfolding serve
  serve_all [] queue = ([], queue)
  serve_all (c ∷ cs) queue =
      let (reply, after) = serve c queue in
      let (replies, last) = serve_all cs after in (reply ∷ replies, last)

  -- The log stands for its unread notes, and keeps few others.
  pub record StandsFor (log queue : List Note) : Type 0 where
    pub unread_notes : pending_notes log ≡ queue
    pub bounded : length log ≤ max max_records (length queue)

  pub record Agrees (r a : Reply × List Note) : Type 0 where
    pub reply : r.0 ≡ a.0
    pub after : StandsFor r.1 a.1

  write-Agrees :
      (now text agent session_slug : String) (log queue : List Note) (r : WriteReply × List Note)
      → StandsFor log queue
      → Wrote (new_note (strip text) now agent session_slug) log r
      → Agrees (wrote r.0, r.1) (serve (write now text agent session_slug) queue)
  unfolding serve
  write-Agrees now text agent session_slug log queue r rel (blank e) =
      let h = (eq_iff (strip text) "").1 e in rw (h, serve) (record { reply = refl; after = rel })
  write-Agrees now text agent session_slug log queue r rel (over long) =
      let full : (strip text == "") ≡ false = unnamed-false (strip text) λ e.
        let h : max_note < len "" = subst (λ t. max_note < len t) e long in
        absurd (omega (arith, h)) in
      let h : ltb max_note (len (strip text)) ≡ true = ground arith in
      rw (full, serve, h) (record { reply = refl; after = rel })
  write-Agrees now text agent session_slug log queue r rel
        (noted pending after count named short joins few) =
      let full = unnamed-false (strip text) named in
      let h : ltb max_note (len (strip text)) ≡ false = ground arith in
      let same =
        joins ∙ ap (λ q. q ++ new_note (strip text) now agent session_slug ∷ []) rel.unread_notes in
      rw (full, serve, h)
        (record {
          reply = ap (λ n. wrote (written n)) (count ∙ ap length same);
          after = record {
            unread_notes = same;
            bounded = subst (λ q. length after ≤ max max_records (length q)) same few;
          };
        })

  render-bounded :
      (log : List Note)
      → length log ≤ max max_records (length (pending_notes log))
      → length (render_and_consume log).1 ≤ max_records
  unfolding render_and_consume pending_notes
  render-bounded log few = elim (List-cases (pending_notes log)) [
    | inl nothing ↦
        let h = ap length nothing in rw (render_and_consume, nothing) (omega (arith, few, h))
    | inr (x, rest, some_unread) ↦
        rw (render_and_consume, some_unread)
          (omega (arith, length-prune (map consume log), ap length (unread-map-consume log)))
  ]

  read-Agrees :
      (log queue : List Note) → StandsFor log queue → Agrees (perform read log) (serve read queue)
  unfolding perform serve
  read-Agrees log queue rel =
      let r = render_and_consume-Rendered log in
      let few = render-bounded log (omega (arith, rel.bounded, ap length rel.unread_notes)) in
      record {
        reply = ap rendered (r.lines ∙ ap (map line_of) rel.unread_notes);
        after = record { unread_notes = r.drained; bounded = omega (arith, few) };
      }

  perform-Agrees :
      (c : Call) (log queue : List Note)
      → StandsFor log queue
      → Agrees (perform c log) (serve c queue)
  unfolding perform
  perform-Agrees (write now text agent session_slug) log queue rel =
      write-Agrees now text agent session_slug log queue
        (write_note strip now text agent session_slug log) rel
        (write_note_lem strip now text agent session_slug log)
  perform-Agrees read log queue rel = read-Agrees log queue rel

  -- A sequence of writes and reads answers, call for call, what it would on a queue that holds the
  -- unread notes in the order of writing and that a read empties; no note is lost, doubled or out of
  -- turn, and the log is never longer than the bound or than the notes that are unread.
  pub perform_all_refines :
      (cs : List Call) (log queue : List Note)
      → StandsFor log queue
      → ((perform_all cs log).0 ≡ (serve_all cs queue).0)
        × StandsFor (perform_all cs log).1 (serve_all cs queue).1
  unfolding perform_all serve_all
  perform_all_refines [] log queue rel = (refl, rel)
  perform_all_refines (c ∷ cs) log queue rel =
      let now = perform-Agrees c log queue rel in
      let (later, last) = perform_all_refines cs (perform c log).1 (serve c queue).1 now.after in
      (cons-eq now.reply later, last)
