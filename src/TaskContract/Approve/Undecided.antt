-- ===== src/TaskContract/Approve/Undecided.antt =====
-- Which provocations approve_task_contract of task_contract.py takes to be unresolved.
use youk.Prelude.Memᴰ
use youk.Prelude.{
  String, true, some, List, [], ◌∷◌, Texts, within, ◌≡◌, inl, inr, refl, sym, ap, ◌∙◌, Memᴰ,
  Bool-cases, Option-cases, ◌↔◌,
}
use youk.TaskContract.Desk.{open_mark, Formats}
use youk.TaskContract.Approve.{unresolved_in}

module _ (texts : Texts) (formats : Formats) where
  abbrev pub open_keys : String → List String
  open_keys as_approved = unresolved_in texts formats (formats.splitlines as_approved)

  -- A line that begins with the key of a provocation and still shows the whole vocabulary.
  pub record Undecided (lines : List String) (key : String) : Type 0 where
    pub line : String
    pub among : Memᴰ line lines
    pub shows : within "→ IN-SCOPE | DEFER | ACCEPT-RISK | ESCALATE | N/A" line ≡ true
    pub keyed : formats.provocation_key line ≡ some key

  Undecided-cons :
      (line : String) (lines : List String) {key : String}
      → Undecided lines key
      → Undecided (line ∷ lines) key
  Undecided-cons line lines u = record {
    line = u.line;
    among = Memᴰ.tail u.among;
    shows = u.shows;
    keyed = u.keyed;
  }

  pub unresolved_in-Undecided :
      (lines : List String) {key : String}
      → Memᴰ key (unresolved_in texts formats lines)
      → Undecided lines key
  unfolding unresolved_in
  unresolved_in-Undecided [] i = elim i [ ]
  unresolved_in-Undecided (line ∷ lines) {key} i = elim (Bool-cases (within open_mark line)) [
    | inr decided ↦ Undecided-cons line lines (unresolved_in-Undecided lines (rw decided at i))
    | inl shows ↦ elim (Option-cases (formats.provocation_key line)) [
      | inl unkeyed ↦
          Undecided-cons line lines (unresolved_in-Undecided lines (rw (shows, unkeyed) at i))
      | inr (k, keyed) ↦
          let j : Memᴰ key (k ∷ unresolved_in texts formats lines) = rw (shows, keyed) at i in
          elim (Memᴰ.cases_cons j) [
            | inl same ↦ record {
              line = line;
              among = Memᴰ.head refl;
              shows = shows;
              keyed = keyed ∙ ap some (sym same);
            }
            | inr later ↦ Undecided-cons line lines (unresolved_in-Undecided lines later)
          ]
    ]
  ]

  Undecided-unresolved_in :
      (lines : List String) {key line : String}
      → Memᴰ line lines
      → within open_mark line ≡ true
      → formats.provocation_key line ≡ some key
      → Memᴰ key (unresolved_in texts formats lines)
  unfolding unresolved_in
  Undecided-unresolved_in [] i shows keyed = elim i [ ]
  Undecided-unresolved_in (x ∷ lines) {key} (Memᴰ.head e) shows keyed =
      let shows' : within open_mark x ≡ true = ap (within open_mark) (sym e) ∙ shows in
      let keyed' : formats.provocation_key x ≡ some key =
        ap formats.provocation_key (sym e) ∙ keyed in
      rw (shows', keyed') (Memᴰ.head refl)
  Undecided-unresolved_in (x ∷ lines) (Memᴰ.tail i) shows keyed =
      let later = Undecided-unresolved_in lines i shows keyed in
      elim (Bool-cases (within open_mark x)) [
        | inr decided ↦ rw decided later
        | inl open_x ↦ elim (Option-cases (formats.provocation_key x)) [
          | inl unkeyed ↦ rw (open_x, unkeyed) later
          | inr (k, named) ↦ rw (open_x, named) (Memᴰ.tail later)
        ]
      ]

  pub unresolved_in_iff :
      (lines : List String) (key : String)
      → Memᴰ key (unresolved_in texts formats lines) ↔ Undecided lines key
  unresolved_in_iff lines key = (
    λ i. unresolved_in-Undecided lines i,
    λ u. Undecided-unresolved_in lines u.among u.shows u.keyed,
  )
