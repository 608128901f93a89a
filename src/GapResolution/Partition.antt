-- ===== src/GapResolution/Partition.antt =====
-- No gap is lost, for reverify_gap_signals of servers/core/src/gap_resolution.py.
use youk.Prelude.Memᴰ
use youk.Prelude.{
  String, Bool, true, false, List, [], ◌∷◌, ◌++◌, map, not, select, select-mem, mem-select, ◌==◌,
  if◌then◌else◌, ◌≡◌, ◌⊎◌, ◌↔◌, inl, inr, refl, sym, ap, ◌∙◌, subst, Memᴰ, Bool-cases,
}
use youk.GapResolution.{
  is_resolved, Signal, Split, ResolvedGap, classify_gap, split_gaps, reopened, reverify_gap_signals,
}

-- The gap is recorded for the skill.
pub record Recorded (name gap : String) (signals : List Signal) : Type 0 where
  pub signal : Signal
  pub among : Memᴰ signal signals
  pub named : signal.skill ≡ name
  pub has : Memᴰ gap signal.gaps

Recorded-later :
    {n g : String} {s : Signal} {signals : List Signal}
    → Recorded n g signals
    → Recorded n g (s ∷ signals)
Recorded-later r = record {
  signal = r.signal;
  among = Memᴰ.tail r.among;
  named = r.named;
  has = r.has;
}

Recorded-cases :
    {n g : String} {s : Signal} {signals : List Signal}
    → Recorded n g (s ∷ signals)
    → ((s.skill ≡ n) × Memᴰ g s.gaps) ⊎ Recorded n g signals
Recorded-cases {n} {g} r = elim r.among [
  | Memᴰ.head h ↦ inl (
    ap (λ (x : Signal). x.skill) (sym h) ∙ r.named,
    subst (λ (x : Signal). Memᴰ g x.gaps) h r.has,
  )
  | Memᴰ.tail i ↦ inr (record { signal = r.signal; among = i; named = r.named; has = r.has })
]

not-true : (b : Bool) → not b ≡ true → b ≡ false
not-true true h = sym h
not-true false h = refl

module _ (tokens : String → List String) (strip : String → String)
    (skill_text : String → String) where
  -- The skill has a text, and by it the gap is resolved.
  unfoldable pub settled : String → String → Bool
  unfolding classify_gap
  settled name gap =
      if skill_text name == ""
      then false
      else is_resolved (classify_gap tokens strip skill_text gap (skill_text name))

  pub record Partition (name gap : String) (signals : List Signal) : Type 0 where
    pub closed :
        Memᴰ
          (record { skill = name; gap = gap })
          (reverify_gap_signals tokens strip skill_text signals).resolved_gaps
        ↔ (Recorded name gap signals × (settled name gap ≡ true))
    pub still_open :
        Recorded name gap (reverify_gap_signals tokens strip skill_text signals).open_signals
        ↔ (Recorded name gap signals × (settled name gap ≡ false))

  abbrev as_resolved : String → String → ResolvedGap
  as_resolved name gap = record { skill = name; gap = gap }

  abbrev resolves : String → String → Bool
  resolves text gap = is_resolved (classify_gap tokens strip skill_text gap text)

  split_gaps_lem :
      (name text : String) (gaps : List String)
      → split_gaps tokens strip skill_text name text gaps ≡ (
        map (as_resolved name) (select (resolves text) gaps),
        select (λ gap. not (resolves text gap)) gaps,
      )
  unfolding split_gaps select
  split_gaps_lem name text [] = refl
  split_gaps_lem name text (gap ∷ gaps) = elim (Bool-cases (resolves text gap)) [
    | inl h ↦ rw (split_gaps, h, split_gaps_lem name text gaps) refl
    | inr h ↦ rw (split_gaps, h, split_gaps_lem name text gaps) refl
  ]

  settled_blank : (name gap : String) → (skill_text name == "") ≡ true → settled name gap ≡ false
  unfolding settled
  settled_blank name gap h = rw (settled, h) refl

  settled_given :
      (name gap : String)
      → (skill_text name == "") ≡ false
      → settled name gap ≡ resolves (skill_text name) gap
  unfolding settled
  settled_given name gap h = rw (settled, h) refl

  -- What the first signal adds: its gaps with that verdict.
  abbrev Adds : Bool → String → String → Signal → Type 0
  Adds verdict name gap s = (s.skill ≡ name) × Memᴰ gap s.gaps × (settled name gap ≡ verdict)

  abbrev run : List Signal → Split
  run signals = reverify_gap_signals tokens strip skill_text signals

  reopened-Recorded :
      (n g name : String) (gaps : List String) (later : List Signal)
      → Recorded n g (reopened tokens strip skill_text name gaps ++ later)
        ↔ (((name ≡ n) × Memᴰ g gaps) ⊎ Recorded n g later)
  reopened-Recorded n g name [] later = (inr, λ r. elim r [ inl (e, m) ↦ elim m [ ] | inr k ↦ k ])
  reopened-Recorded n g name (gap ∷ gaps) later = (
    λ r. Recorded-cases r,
    λ r. elim r [
      | inl (e, m) ↦ record {
        signal = record { skill = name; gaps = gap ∷ gaps };
        among = Memᴰ.head refl;
        named = e;
        has = m;
      }
      | inr k ↦ Recorded-later k
    ],
  )

  closed_step :
      (n g : String) (s : Signal) (signals : List Signal)
      → Memᴰ (as_resolved n g) (run (s ∷ signals)).resolved_gaps
        ↔ (Adds true n g s ⊎ Memᴰ (as_resolved n g) (run signals).resolved_gaps)
  unfolding reverify_gap_signals
  closed_step n g s signals = elim (Bool-cases (skill_text s.skill == "")) [
    | inl blank ↦
        rw (reverify_gap_signals, blank)
          (
            inr,
            λ r. elim r [
              | inr i ↦ i
              | inl (e, m, h) ↦
                  let no_text =
                    settled_blank n g (subst (λ t. (skill_text t == "") ≡ true) e blank) in
                  cc (h, no_text)
            ],
          )
    | inr given ↦
        rw (reverify_gap_signals, given, split_gaps_lem s.skill (skill_text s.skill) s.gaps)
          (
            λ i.
                elim (Memᴰ.append_cases
                  (map (as_resolved s.skill) (select (resolves (skill_text s.skill)) s.gaps)) i) [
                    | inr j ↦ inr j
                    | inl j ↦
                        let (gap, k, e) = Memᴰ.of_map (as_resolved s.skill) _ j in
                        let (m, h) = select-mem (resolves (skill_text s.skill)) s.gaps k in
                        let named : s.skill ≡ n = ap (λ (x : ResolvedGap). x.skill) e in
                        let same : gap ≡ g = ap (λ (x : ResolvedGap). x.gap) e in
                        let verdict : settled s.skill gap ≡ true =
                          settled_given s.skill gap given ∙ h in
                        inl (
                          named,
                          subst (λ t. Memᴰ t s.gaps) same m,
                          sym (λ k. settled (named k) (same k)) ∙ verdict,
                        )
                  ],
            λ r. elim r [
              | inr j ↦ Memᴰ.append_right _ j
              | inl (e, m, h) ↦
                  let verdict : resolves (skill_text s.skill) g ≡ true =
                    sym (settled_given s.skill g given) ∙ ap (λ t. settled t g) e ∙ h in
                  Memᴰ.append_left _ (
                    subst
                      (λ t.
                        Memᴰ (as_resolved t g) (
                          map (as_resolved s.skill)
                            (select (resolves (skill_text s.skill)) s.gaps)))
                      e
                      (Memᴰ.map (as_resolved s.skill)
                        (mem-select (resolves (skill_text s.skill)) s.gaps m verdict)))
            ],
          )
  ]

  open_step :
      (n g : String) (s : Signal) (signals : List Signal)
      → Recorded n g (run (s ∷ signals)).open_signals
        ↔ (Adds false n g s ⊎ Recorded n g (run signals).open_signals)
  unfolding reverify_gap_signals
  open_step n g s signals = elim (Bool-cases (skill_text s.skill == "")) [
    | inl blank ↦
        rw (reverify_gap_signals, blank)
          (
            λ r. elim (Recorded-cases r) [
              | inl (e, m) ↦
                  inl (e, m, settled_blank n g (subst (λ t. (skill_text t == "") ≡ true) e blank))
              | inr k ↦ inr k
            ],
            λ r. elim r [
              | inl (e, m, h) ↦ record { signal = s; among = Memᴰ.head refl; named = e; has = m }
              | inr k ↦ Recorded-later k
            ],
          )
    | inr given ↦
        rw (reverify_gap_signals, given, split_gaps_lem s.skill (skill_text s.skill) s.gaps)
          (
            λ r. elim ((reopened-Recorded n g s.skill _ (run signals).open_signals).0 r) [
              | inr k ↦ inr k
              | inl (e, i) ↦
                  let (m, h) = select-mem (λ t. not (resolves (skill_text s.skill) t)) s.gaps i in
                  inl (
                    e,
                    m,
                    sym (ap (λ t. settled t g) e) ∙ settled_given s.skill g given ∙ not-true _ h,
                  )
            ],
            λ r. (reopened-Recorded n g s.skill _ (run signals).open_signals).1 (elim r [
              | inr k ↦ inr k
              | inl (e, m, h) ↦
                  let verdict : resolves (skill_text s.skill) g ≡ false =
                    sym (settled_given s.skill g given) ∙ ap (λ t. settled t g) e ∙ h in
                  inl (
                    e,
                    mem-select (λ t. not (resolves (skill_text s.skill) t)) s.gaps m
                        (ap not verdict),
                  )
            ]),
          )
  ]

  merge :
      {n g : String} {A B : Type 0} (verdict : Bool) (s : Signal) (signals : List Signal)
      → A ↔ (Adds verdict n g s ⊎ B)
      → B ↔ (Recorded n g signals × (settled n g ≡ verdict))
      → A ↔ (Recorded n g (s ∷ signals) × (settled n g ≡ verdict))
  merge verdict s signals (split, unsplit) (known, recorded) = (
    λ a. elim (split a) [
      | inl (e, m, h) ↦ (record { signal = s; among = Memᴰ.head refl; named = e; has = m }, h)
      | inr b ↦ let (r, h) = known b in (Recorded-later r, h)
    ],
    λ (r, h). elim (Recorded-cases r) [
      | inl (e, m) ↦ unsplit (inl (e, m, h))
      | inr k ↦ unsplit (inr (recorded (k, h)))
    ],
  )

  -- A gap is reported as resolved for a skill exactly when it was recorded for that skill, the skill
  -- has a text and the gap is resolved by it; it stays among the open signals exactly when it was
  -- recorded and that does not hold.
  pub reverify_gap_signals-Partition :
      (name gap : String) (signals : List Signal) → Partition name gap signals
  unfolding reverify_gap_signals
  reverify_gap_signals-Partition name gap [] = record {
    closed = (λ i. elim i [ ], λ (r, h). elim r.among [ ]);
    still_open = (λ r. elim r.among [ ], λ (r, h). elim r.among [ ]);
  }
  reverify_gap_signals-Partition name gap (s ∷ signals) =
      let later = reverify_gap_signals-Partition name gap signals in
      record {
        closed = merge true s signals (closed_step name gap s signals) later.closed;
        still_open = merge false s signals (open_step name gap s signals) later.still_open;
      }
