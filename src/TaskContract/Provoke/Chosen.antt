-- ===== src/TaskContract/Provoke/Chosen.antt =====
-- Which provocations _generate_provocations of task_contract.py answers, and in what order.
use mathlib.Core.List.{append-nil}
use youk.Prelude.Memᴰ
use youk.Prelude.{
  ℕ, zero, suc, ◌-◌, ◌≤◌, String, true, false, not, List, [], ◌∷◌, ◌++◌, if◌then◌else◌, length,
  any-of_mem, select, ltb, nat_eq, take, length-take, take_all, take-mem, take-first, take-Sorted,
  sort_on, sort_on-mem, mem-sort_on, length-sort_on, Sorted, sort_on-Sorted, Texts, ◌≡◌, ◌≢◌, ◌⊎◌,
  inl, inr, refl, sym, ap, ◌∙◌, subst, arith, eq_refl, Memᴰ, Bool-cases,
}
use youk.Routing.Size.{TaskSize, m, xs, s, l, xl, rank}
use youk.TaskContract.Frames.{frame_id, FrameCheck, frame_checks}
use youk.TaskContract.Provoke.{
  RiskEntry, Provocation, sort_key, among, cite, personalize, provoke_all, pad, trim,
  generate_provocations,
}

module _ (texts : Texts) where
  module _ (task_lower : String) (risks : List RiskEntry) (gaps causes : List String) where
    abbrev pub provocation_of : FrameCheck → Provocation
    provocation_of c = personalize texts c (cite texts c.frame task_lower risks gaps causes)

    length-provoke_all :
        (cs : List FrameCheck)
        → length (provoke_all texts task_lower risks gaps causes cs) ≤ length cs
    unfolding provoke_all
    length-provoke_all [] = omega arith
    length-provoke_all (c ∷ cs) = elim (Bool-cases c.check.0) [
      | inl here ↦ rw here (omega (arith, length-provoke_all cs))
      | inr away ↦ rw away (omega (arith, length-provoke_all cs))
    ]

    provoke_all-mem :
        (cs : List FrameCheck) {p : Provocation}
        → Memᴰ p (provoke_all texts task_lower risks gaps causes cs)
        → (c : FrameCheck) × Memᴰ c cs × (c.check.0 ≡ true) × (p ≡ provocation_of c)
    unfolding provoke_all
    provoke_all-mem [] i = elim i [ ]
    provoke_all-mem (c ∷ cs) i = elim (Bool-cases c.check.0) [
      | inl here ↦ elim (Memᴰ.cases_cons (rw here at i)) [
        | inl e ↦ (c, Memᴰ.head refl, here, e)
        | inr j ↦ let (d, k, h, e) = provoke_all-mem cs j in (d, Memᴰ.tail k, h, e)
      ]
      | inr away ↦ let (d, k, h, e) = provoke_all-mem cs (rw away at i) in (d, Memᴰ.tail k, h, e)
    ]

    mem-provoke_all :
        (cs : List FrameCheck) {c : FrameCheck}
        → Memᴰ c cs
        → c.check.0 ≡ true
        → Memᴰ (provocation_of c) (provoke_all texts task_lower risks gaps causes cs)
    unfolding provoke_all
    mem-provoke_all [] i h = elim i [ ]
    mem-provoke_all (d ∷ cs) {c} (Memᴰ.head e) h =
        let here : d.check.0 ≡ true = sym (ap (λ (x : FrameCheck). x.check.0) e) ∙ h in
        rw here (Memᴰ.head (ap provocation_of e))
    mem-provoke_all (d ∷ cs) (Memᴰ.tail i) h = elim (Bool-cases d.check.0) [
      | inl here ↦ rw here (Memᴰ.tail (mem-provoke_all cs i h))
      | inr away ↦ rw away (mem-provoke_all cs i h)
    ]

take_nil : (n : ℕ) → take {A = Provocation} n [] ≡ []
unfolding take
take_nil zero = refl
take_nil (suc n) = refl

-- At most three provocations for size M, seven for any other.
abbrev pub limit : TaskSize → ℕ
limit size = if nat_eq (rank size) 3 then 3 else 7

limit-large : (size : TaskSize) → size ≢ m → limit size ≡ 7
limit-large xs h = refl
limit-large s h = refl
limit-large m h = absurd (h refl)
limit-large l h = refl
limit-large xl h = refl

among_self : (p : Provocation) (ps : List Provocation) → Memᴰ p ps → among p ps ≡ true
unfolding among
among_self p ps i = any-of_mem _ ps i (eq_refl (frame_id p.frame))

select-among :
    (left ps : List Provocation)
    → ((p : Provocation) → Memᴰ p left → Memᴰ p ps)
    → select (λ p. not (among p ps)) left ≡ []
unfolding select
select-among [] ps h = refl
select-among (x ∷ left) ps h =
    rw (among_self x ps (h x (Memᴰ.head refl))) (select-among left ps λ p i. h p (Memᴰ.tail i))

module _ (texts : Texts) where
  pad_zero : (sorted result : List Provocation) → pad texts 0 sorted result ≡ result
  unfolding pad
  pad_zero sorted result =
      let enough : ltb (length result) 0 ≡ false = ground arith in rw enough refl

  pad_self : (wanted : ℕ) (sorted : List Provocation) → pad texts wanted sorted sorted ≡ sorted
  unfolding pad take
  pad_self wanted sorted = elim (Bool-cases (ltb (length sorted) wanted)) [
    | inl fewer ↦
        let none_left = select-among sorted sorted (λ p i. i) in
        rw (fewer, pad, none_left)
          (ap (λ l. sorted ++ l) (take_nil (wanted - length sorted)) ∙ append-nil sorted)
    | inr enough ↦ rw (pad, enough) refl
  ]

  -- The padding adds nothing: there are seven frames at most, and all are kept but for size M.
  trim_lem :
      (size : TaskSize) (sorted : List Provocation)
      → length sorted ≤ 7
      → trim texts size sorted ≡ take (limit size) sorted
  unfolding trim
  trim_lem m sorted few = pad_zero sorted (take 3 sorted)
  trim_lem xs sorted few = pad_zero sorted (take 7 sorted)
  trim_lem s sorted few = pad_zero sorted (take 7 sorted)
  trim_lem l sorted few =
      ap (pad texts 5 sorted) (take_all 7 sorted few)
      ∙ pad_self 5 sorted
      ∙ sym (take_all 7 sorted few)
  trim_lem xl sorted few =
      ap (pad texts 5 sorted) (take_all 7 sorted few)
      ∙ pad_self 5 sorted
      ∙ sym (take_all 7 sorted few)

  -- What is true of the provocations that a task of some size meets.
  pub record Chosen (task : String) (size : TaskSize) (risks : List RiskEntry)
      (gaps causes : List String) (ps : List Provocation) : Type 0 where
    pub few : length ps ≤ limit size
    pub sorted : Sorted sort_key ps
    pub only :
        (p : Provocation)
        → Memᴰ p ps
        → (c : FrameCheck) × Memᴰ c (frame_checks (texts.lower task) size)
          × (c.check.0 ≡ true)
          × (p ≡ provocation_of texts (texts.lower task) risks gaps causes c)
    pub every :
        size ≢ m
        → (c : FrameCheck) → Memᴰ c (frame_checks (texts.lower task) size)
        → c.check.0 ≡ true
        → Memᴰ (provocation_of texts (texts.lower task) risks gaps causes c) ps
    pub first :
        (p : Provocation) (c : FrameCheck)
        → Memᴰ p ps
        → Memᴰ c (frame_checks (texts.lower task) size)
        → c.check.0 ≡ true
        → Memᴰ (provocation_of texts (texts.lower task) risks gaps causes c) ps
          ⊎ (sort_key p ≤ sort_key (provocation_of texts (texts.lower task) risks gaps causes c))

  -- _generate_provocations answers provocations of frames that the task meets, in the order of the
  -- sort key: at most three for size M, and then none that it leaves out comes before one that it
  -- answers; at most seven for any other size, and then none is left out.
  pub generate_provocations-Chosen :
      (task : String) (size : TaskSize) (risks : List RiskEntry) (gaps causes : List String)
      → Chosen task size risks gaps causes (generate_provocations texts task size risks gaps causes)
  unfolding generate_provocations frame_checks
  generate_provocations-Chosen task size risks gaps causes =
      let low = texts.lower task in
      let checks = frame_checks low size in
      let all = provoke_all texts low risks gaps causes checks in
      let sorted = sort_on sort_key all in
      let few : length sorted ≤ 7 = omega (
        arith,
        length-sort_on sort_key all,
        length-provoke_all texts low risks gaps causes checks,
      ) in
      subst (Chosen task size risks gaps causes) (sym (trim_lem size sorted few)) (record {
        few = length-take (limit size) sorted;
        sorted = take-Sorted sort_key (limit size) sorted (sort_on-Sorted sort_key all);
        only = λ p i.
            provoke_all-mem texts low risks gaps causes checks
              (sort_on-mem sort_key all (take-mem (limit size) sorted i));
        every = λ large c i h.
            let whole : take (limit size) sorted ≡ sorted =
              ap (λ n. take n sorted) (limit-large size large) ∙ take_all 7 sorted few in
            subst (Memᴰ _) (sym whole)
              (mem-sort_on sort_key all (mem-provoke_all texts low risks gaps causes checks i h));
        first = λ p c i j h.
            take-first sort_key (limit size) sorted (sort_on-Sorted sort_key all) i
              (mem-sort_on sort_key all (mem-provoke_all texts low risks gaps causes checks j h));
      })
