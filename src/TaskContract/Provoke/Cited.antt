-- ===== src/TaskContract/Provoke/Cited.antt =====
-- The count in the citation of an accepted risk, in _generate_provocations of task_contract.py.
use youk.Prelude.{
  ℕ, String, Bool, false, List, [], ◌∷◌, length, any, select-none, ltb, Texts, within, ◌≡◌, inl,
  inr, refl, ap, ◌∙◌, arith, Memᴰ, Bool-cases, Option-cases,
}
use youk.Routing.Size.{TaskSize}
use youk.TaskContract.Frames.{Frame, frame_id, FrameCheck}
use youk.TaskContract.Provoke.{
  RiskEntry, Provocation, Citation, no_citation, accepted_before, recurring_gap, prior_failed,
  space_join, times_accepted, cite, personalize, generate_provocations, risk_matches, first_theme,
}
use youk.TaskContract.Provoke.Chosen.{generate_provocations-Chosen}

any-none :
    {A : Type 0} (p : A → Bool) (items : List A)
    → ((x : A) → Memᴰ x items → p x ≡ false)
    → any p items ≡ false
unfolding any
any-none p [] h = refl
any-none p (x ∷ items) h =
    let e = h x (Memᴰ.head refl) in
    let later = any-none p items (λ y i. h y (Memᴰ.tail i)) in ground arith

abbrev pub count_of : Citation → ℕ
count_of (accepted_before n) = n
count_of no_citation = 0
count_of (recurring_gap t) = 0
count_of (prior_failed t) = 0

module _ (texts : Texts) where
  -- No lower-case text has the id of a frame in it, in capitals as it is.
  abbrev pub Lowers : List RiskEntry → Type 0
  Lowers risks =
      (frame : Frame) (e : RiskEntry)
      → Memᴰ e risks
      → within (frame_id frame) (texts.lower (space_join e.frame e.risk)) ≡ false

  times_accepted-zero :
      (frame : Frame) (risks : List RiskEntry) → Lowers risks → times_accepted texts frame risks ≡ 0
  unfolding times_accepted
  times_accepted-zero frame risks h = ap length (select-none _ risks (h frame))

  cite-count :
      (frame : Frame) (task_lower : String) (risks : List RiskEntry) (gaps causes : List String)
      → Lowers risks
      → count_of (cite texts frame task_lower risks gaps causes) ≡ 0
  unfolding cite
  cite-count frame task_lower risks gaps causes h =
      elim (Bool-cases (any (risk_matches texts frame task_lower) risks)) [
        | inl hit ↦ rw (cite, hit) (times_accepted-zero frame risks h)
        | inr miss ↦ elim (Option-cases (first_theme texts task_lower gaps)) [
          | inr (gap, found) ↦ rw (cite, miss, found) refl
          | inl no_gap ↦ elim (Option-cases (first_theme texts task_lower causes)) [
            | inr (cause, found) ↦ rw (cite, miss, no_gap, found) refl
            | inl no_cause ↦ rw (cite, miss, no_gap, no_cause) refl
          ]
        ]
      ]

  personalize-citation :
      (c : FrameCheck) (citation : Citation) → (personalize texts c citation).citation ≡ citation
  unfolding personalize
  personalize-citation c no_citation = refl
  personalize-citation c (accepted_before n) = refl
  personalize-citation c (recurring_gap t) = refl
  personalize-citation c (prior_failed t) = refl

  member-count :
      (task : String) (size : TaskSize) (risks : List RiskEntry) (gaps causes : List String)
      → Lowers risks
      → (p : Provocation) → Memᴰ p (generate_provocations texts task size risks gaps causes)
      → count_of p.citation ≡ 0
  member-count task size risks gaps causes h p i =
      let (c, j, met, e) =
        (generate_provocations-Chosen texts task size risks gaps causes).only p i in
      let cited =
        personalize-citation c (cite texts c.frame (texts.lower task) risks gaps causes) in
      ap (λ (q : Provocation). count_of q.citation) e
      ∙ ap count_of cited
      ∙ cite-count c.frame (texts.lower task) risks gaps causes h

  -- Where no entry of the ledger has a frame's id in it once it is lower-cased, no provocation says
  -- that a risk was accepted more than zero times.
  generate_provocations-count :
      (task : String) (size : TaskSize) (risks : List RiskEntry) (gaps causes : List String)
      → Lowers risks
      → any
          (λ (p : Provocation). ltb 0 (count_of p.citation))
          (generate_provocations texts task size risks gaps causes)
        ≡ false
  generate_provocations-count task size risks gaps causes h =
      any-none _ (generate_provocations texts task size risks gaps causes)
        λ p i. let e = member-count task size risks gaps causes h p i in ground arith
