-- ===== src/Experiments/Pending.antt =====
-- The pending reactions of ab_experiments.py: one marker a session, good for one message.
use youk.Prelude.{
  ℕ, String, Option, none, some, List, [], ◌∷◌, ◌==◌, if◌then◌else◌, ◌≡◌, inl, inr, refl, sym, ap,
  ◌∙◌, arith, eq_iff, Bool-cases, Option-cases,
}
use youk.Experiments.{
  Marker, Markers, set_marker, find_marker, drop_marker, write_pending_reaction,
  consume_pending_reaction,
}

find_marker-set_marker :
    (key other : String) (mark : Marker) (markers : Markers)
    → find_marker other (set_marker key mark markers)
      ≡ (if key == other then some mark else find_marker other markers)
unfolding find_marker set_marker
find_marker-set_marker key other mark [] = refl
find_marker-set_marker key other mark ((k, old) ∷ rest) = ground (
  arith,
  eq_iff k key,
  eq_iff k other,
  eq_iff key other,
  find_marker-set_marker key other mark rest,
)

-- A dictionary has a key once.
abbrev pub HasOnce : Markers → Type 0
HasOnce [] = Unit
HasOnce ((k, mark) ∷ rest) = (find_marker k rest ≡ none) × HasOnce rest

find_marker-drop_marker :
    (key other : String) (markers : Markers)
    → HasOnce markers
    → find_marker other (drop_marker key markers)
      ≡ (if key == other then none else find_marker other markers)
unfolding find_marker drop_marker
find_marker-drop_marker key other [] once = ground arith
find_marker-drop_marker key other ((k, old) ∷ rest) (absent, once) = ground (
  arith,
  absent,
  eq_iff k key,
  eq_iff k other,
  eq_iff key other,
  find_marker-drop_marker key other rest once,
)

HasOnce-set_marker :
    (key : String) (mark : Marker) (markers : Markers)
    → HasOnce markers
    → HasOnce (set_marker key mark markers)
unfolding set_marker find_marker
HasOnce-set_marker key mark [] once = (refl, tt)
HasOnce-set_marker key mark ((k, old) ∷ rest) (absent, once) = elim (Bool-cases (k == key)) [
  | inl here ↦ rw here (absent, once)
  | inr away ↦ rw away (
    ground (arith, eq_iff key k, eq_iff k key, absent, find_marker-set_marker key k mark rest),
    HasOnce-set_marker key mark rest once,
  )
]

HasOnce-drop_marker :
    (key : String) (markers : Markers) → HasOnce markers → HasOnce (drop_marker key markers)
unfolding drop_marker find_marker
HasOnce-drop_marker key [] once = tt
HasOnce-drop_marker key ((k, old) ∷ rest) (absent, once) = elim (Bool-cases (k == key)) [
  | inl here ↦ rw here once
  | inr away ↦ rw away (
    ground (arith, absent, find_marker-drop_marker key k rest once),
    HasOnce-drop_marker key rest once,
  )
]

pub data Call : Type 0 where
  expose : (session_slug experiment skill : String) → Call
  message : (session_slug : String) → Call

module _ (first_byte : String → ℕ) (hash : String → String) where
  unfoldable pub perform : Call → Markers → Option Marker × Markers
  unfolding write_pending_reaction consume_pending_reaction
  perform (expose slug experiment skill) markers =
      (none, write_pending_reaction first_byte hash slug experiment skill markers)
  perform (message slug) markers = consume_pending_reaction first_byte hash slug markers

  unfoldable pub perform_all : List Call → Markers → List (Option Marker) × Markers
  unfolding perform
  perform_all [] markers = ([], markers)
  perform_all (c ∷ cs) markers =
      let (reply, after) = perform c markers in
      let (replies, last) = perform_all cs after in (reply ∷ replies, last)

  -- What each session waits for: the last exposure, until a message takes it.
  abbrev pub Waiting : Type 0
  Waiting = String → Option Marker

  unfoldable pub serve : Call → Waiting → Option Marker × Waiting
  serve (expose slug experiment skill) waiting = (
    none,
    λ h.
        if hash slug == h
        then some (record { experiment = experiment; skill = skill })
        else waiting h,
  )
  serve (message slug) waiting =
      (waiting (hash slug), λ h. if hash slug == h then none else waiting h)

  unfoldable pub serve_all : List Call → Waiting → List (Option Marker) × Waiting
  unfolding serve
  serve_all [] waiting = ([], waiting)
  serve_all (c ∷ cs) waiting =
      let (reply, after) = serve c waiting in
      let (replies, last) = serve_all cs after in (reply ∷ replies, last)

  pub record Represents (markers : Markers) (waiting : Waiting) : Type 0 where
    pub once : HasOnce markers
    pub finds : (h : String) → find_marker h markers ≡ waiting h

  record Agrees (r : Option Marker × Markers) (a : Option Marker × Waiting) : Type 0 where
    reply : r.0 ≡ a.0
    after : Represents r.1 a.1

  message-Agrees :
      (slug : String) (markers : Markers) (waiting : Waiting)
      → Represents markers waiting
      → Agrees (perform (message slug) markers) (serve (message slug) waiting)
  unfolding perform serve consume_pending_reaction
  message-Agrees slug markers waiting rel = elim (Option-cases (find_marker (hash slug) markers)) [
    | inl nothing ↦
        rw (consume_pending_reaction, nothing)
          (record {
            reply = sym nothing ∙ rel.finds (hash slug);
            after = record {
              once = rel.once;
              finds = λ h. elim (Bool-cases (hash slug == h)) [
                | inl here ↦
                    let same = (eq_iff (hash slug) h).0 here in
                    rw here (ap (λ k. find_marker k markers) (sym same) ∙ nothing)
                | inr away ↦ rw away (rel.finds h)
              ];
            };
          })
    | inr (mark, found) ↦
        rw (consume_pending_reaction, found)
          (record {
            reply = sym found ∙ rel.finds (hash slug);
            after = record {
              once = HasOnce-drop_marker (hash slug) markers rel.once;
              finds = λ h.
                  ground
                    (arith, find_marker-drop_marker (hash slug) h markers rel.once, rel.finds h);
            };
          })
  ]

  perform-Agrees :
      (c : Call) (markers : Markers) (waiting : Waiting)
      → Represents markers waiting
      → Agrees (perform c markers) (serve c waiting)
  unfolding perform serve write_pending_reaction
  perform-Agrees (message slug) markers waiting rel = message-Agrees slug markers waiting rel
  perform-Agrees (expose slug experiment skill) markers waiting rel =
      let mark : Marker = record { experiment = experiment; skill = skill } in
      record {
        reply = refl;
        after = record {
          once = HasOnce-set_marker (hash slug) mark markers rel.once;
          finds =
              λ h. ground (arith, find_marker-set_marker (hash slug) h mark markers, rel.finds h);
        };
      }

  cons-eq : {x y : Option Marker} {a b : List (Option Marker)} → x ≡ y → a ≡ b → x ∷ a ≡ y ∷ b
  cons-eq p q = cc (p, q)

  -- A sequence of exposures and messages answers, call for call, what it would on a table that has
  -- for each session the last exposure until a message takes it: a message is the reaction to the
  -- last exposure of its session, and to none when another message has come in between.
  pub markers_refine :
      (cs : List Call) (markers : Markers) (waiting : Waiting)
      → Represents markers waiting
      → ((perform_all cs markers).0 ≡ (serve_all cs waiting).0)
        × Represents (perform_all cs markers).1 (serve_all cs waiting).1
  unfolding perform_all serve_all
  markers_refine [] markers waiting rel = (refl, rel)
  markers_refine (c ∷ cs) markers waiting rel =
      let now = perform-Agrees c markers waiting rel in
      let (later, last) = markers_refine cs (perform c markers).1 (serve c waiting).1 now.after in
      (cons-eq now.reply later, last)
