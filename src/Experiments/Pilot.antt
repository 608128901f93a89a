-- ===== src/Experiments/Pilot.antt =====
-- The exposures that ab_experiments.py logs, and the counts of a pilot.
use youk.Prelude.Memᴰ
use youk.Prelude.{
  ℕ, ◌+◌, ◌≤◌, ◌<◌, max, String, Bool, true, false, ◌&&◌, List, [], ◌∷◌, ◌++◌, ◌==◌, if◌then◌else◌,
  length, length-append, any, any-false, select, select-append, select-none, select-mem,
  select-found, ◌≡◌, ◌↔◌, ◌⊎◌, inl, inr, refl, sym, ap, ◌∙◌, subst, arith, eq_iff, eq_refl, Memᴰ,
  Bool-cases,
}
use Prim.Native.String.{◌++◌ as str_append}
use youk.Experiments.{
  is_odd, Exposure, control, treatment, read_exposures, pilot_status, assign_variant, is_exposed,
  log_exposure,
}

-- A skill that meets an experiment in a session.
pub record Meeting : Type 0 where
  pub session_slug : String
  pub experiment : String
  pub skill : String

module _ (first_byte : String → ℕ) (hash : String → String) where
  unfoldable pub log_all : List Meeting → List Exposure → List Exposure
  unfolding log_exposure assign_variant
  log_all [] log = log
  log_all (m ∷ ms) log = log_all ms (
      log_exposure first_byte hash m.session_slug m.experiment m.skill
        (assign_variant first_byte hash m.session_slug m.experiment) log)

  abbrev pub times : String → String → String → List Exposure → ℕ
  times h experiment skill log = length (select (is_exposed first_byte hash h experiment skill) log)

  abbrev same : String → String → String → String → String → String → Bool
  same a b c h e k = a == h && (b == e && c == k)

  one :
      (x : Exposure) (h e k : String)
      → same x.session_hash x.experiment x.skill h e k ≡ true
      → times h e k (x ∷ []) ≡ 1
  unfolding select
  one x h e k here = rw here refl

  no_one :
      (x : Exposure) (h e k : String)
      → same x.session_hash x.experiment x.skill h e k ≡ false
      → times h e k (x ∷ []) ≡ 0
  unfolding select
  no_one x h e k away = rw away refl

  same-times :
      (a b c h e k : String) (log : List Exposure)
      → same a b c h e k ≡ true
      → times a b c log ≡ times h e k log
  same-times a b c h e k log yes_same =
      let p : a ≡ h = ground (arith, eq_iff a h) in
      let q : b ≡ e = ground (arith, eq_iff b e) in
      let r : c ≡ k = ground (arith, eq_iff c k) in
      ap (λ x. times x b c log) p ∙ ap (λ x. times h x c log) q ∙ ap (λ x. times h e x log) r

  times-append :
      (h e k : String) (log : List Exposure) (x : Exposure)
      → times h e k (log ++ x ∷ []) ≡ times h e k log + times h e k (x ∷ [])
  times-append h e k log x =
      ap length (select-append (is_exposed first_byte hash h e k) log (x ∷ []))
      ∙ length-append (select (is_exposed first_byte hash h e k) log)
          (select (is_exposed first_byte hash h e k) (x ∷ []))

  -- One more exposure counts once, and only where none was.
  log_exposure-times :
      (slug experiment skill variant h e k : String) (log : List Exposure)
      → times h e k (log_exposure first_byte hash slug experiment skill variant log) ≡ (
          if same (hash slug) experiment skill h e k
          then max 1 (times h e k log)
          else times h e k log)
  unfolding log_exposure
  log_exposure-times slug experiment skill variant h e k log =
      elim (Bool-cases (any (is_exposed first_byte hash (hash slug) experiment skill) log)) [
        | inl dup ↦
            let some_there : 0 < times (hash slug) experiment skill log = select-found _ log dup in
            elim (Bool-cases (same (hash slug) experiment skill h e k)) [
              | inl here ↦
                  rw (dup, here)
                    (omega
                      (arith, some_there, same-times (hash slug) experiment skill h e k log here))
              | inr away ↦ rw (dup, away) refl
            ]
        | inr new ↦
            let x : Exposure = record {
              session_hash = hash slug;
              experiment = experiment;
              skill = skill;
              variant = variant;
            } in
            let none_there : times (hash slug) experiment skill log ≡ 0 =
              ap length (select-none _ log λ x i. any-false _ log new i) in
            elim (Bool-cases (same (hash slug) experiment skill h e k)) [
              | inl here ↦
                  let grown = times-append h e k log x in
                  let fresh = one x h e k here in
                  rw (new, here)
                    (omega (
                      arith,
                      none_there,
                      same-times (hash slug) experiment skill h e k log here,
                      grown,
                      fresh,
                    ))
              | inr away ↦
                  rw (new, away) (omega (arith, times-append h e k log x, no_one x h e k away))
            ]
      ]

  -- Every exposure is of one of the two variants.
  abbrev pub Varied : List Exposure → Type 0
  Varied log = (x : Exposure) → Memᴰ x log → (x.variant ≡ control) ⊎ (x.variant ≡ treatment)

  assign_variant-cases :
      (slug experiment : String)
      → (assign_variant first_byte hash slug experiment ≡ control)
        ⊎ (assign_variant first_byte hash slug experiment ≡ treatment)
  unfolding assign_variant
  assign_variant-cases slug experiment =
      elim (Bool-cases (is_odd (first_byte (str_append slug (str_append ":" experiment))))) [
        | inl odd ↦ rw odd (inr refl)
        | inr even ↦ rw even (inl refl)
      ]

  log_exposure-Varied :
      (slug experiment skill variant : String) (log : List Exposure)
      → (variant ≡ control) ⊎ (variant ≡ treatment)
      → Varied log
      → Varied (log_exposure first_byte hash slug experiment skill variant log)
  unfolding log_exposure
  log_exposure-Varied slug experiment skill variant log new old =
      elim (Bool-cases (any (is_exposed first_byte hash (hash slug) experiment skill) log)) [
        | inl dup ↦ rw dup old
        | inr fresh ↦ rw fresh λ x i. elim (Memᴰ.append_cases log i) [
          | inl j ↦ old x j
          | inr j ↦
              let e : x.variant ≡ variant =
                ap (λ (y : Exposure). y.variant) (Memᴰ.eq_of_singleton j) in
              elim new [ inl c ↦ inl (e ∙ c) | inr t ↦ inr (e ∙ t) ]
        ]
      ]

  split :
      (log : List Exposure)
      → Varied log
      → length (select (λ (e : Exposure). e.variant == control) log)
          + length (select (λ (e : Exposure). e.variant == treatment) log)
        ≡ length log
  unfolding select
  split [] v = refl
  split (x ∷ log) v =
      let later = split log (λ y i. v y (Memᴰ.tail i)) in
      elim (v x (Memᴰ.head refl)) [
        | inl c ↦ rw c (omega (arith, later))
        | inr t ↦ rw t (omega (arith, later))
      ]

  same_self : (a b c : String) → same a b c a b c ≡ true
  same_self a b c = rw (eq_refl a) (rw (eq_refl b) (rw (eq_refl c) refl))

  stays_small : (b : Bool) (old new : ℕ) → new ≡ (if b then max 1 old else old) → old ≤ 1 → new ≤ 1
  stays_small true old new e h = omega (arith, e, h)
  stays_small false old new e h = omega (arith, e, h)

  stays_one : (b : Bool) (old new : ℕ) → new ≡ (if b then max 1 old else old) → old ≡ 1 → new ≡ 1
  stays_one true old new e h = omega (arith, e, h)
  stays_one false old new e h = omega (arith, e, h)

  becomes_one :
      (b : Bool) (old new : ℕ) → new ≡ (if b then max 1 old else old) → b ≡ true → old ≤ 1 → new ≡ 1
  becomes_one true old new e h small = omega (arith, e, small)
  becomes_one false old new e h small = cc h

  -- What a pilot's log and its status say.
  pub record Counted (ms : List Meeting) (log : List Exposure) : Type 0 where
    pub once : (h experiment skill : String) → times h experiment skill log ≤ 1
    pub logged :
        (m : Meeting) → Memᴰ m ms → times (hash m.session_slug) m.experiment m.skill log ≡ 1
    pub varied : Varied log

  Counted-log_exposure :
      (m : Meeting) (done : List Meeting) (log : List Exposure)
      → Counted done log
      → Counted (m ∷ done) (
          log_exposure first_byte hash m.session_slug m.experiment m.skill
            (assign_variant first_byte hash m.session_slug m.experiment)
            log)
  Counted-log_exposure m done log c =
      let v = assign_variant first_byte hash m.session_slug m.experiment in
      let step = log_exposure-times m.session_slug m.experiment m.skill v in
      record {
        once = λ h e k.
            stays_small (same (hash m.session_slug) m.experiment m.skill h e k) (times h e k log) _
              (step h e k log) (c.once h e k);
        logged = λ n i. elim (Memᴰ.cases_cons i) [
          | inl e ↦
              let now =
                becomes_one
                  (same (hash m.session_slug) m.experiment m.skill (hash m.session_slug)
                    m.experiment m.skill)
                  _ _ (step (hash m.session_slug) m.experiment m.skill log)
                  (same_self (hash m.session_slug) m.experiment m.skill)
                  (c.once (hash m.session_slug) m.experiment m.skill) in
              subst
                (λ (o : Meeting).
                  times (hash o.session_slug) o.experiment o.skill
                    (log_exposure first_byte hash m.session_slug m.experiment m.skill v log)
                  ≡ 1)
                (sym e) now
          | inr j ↦
              stays_one
                (same (hash m.session_slug) m.experiment m.skill (hash n.session_slug) n.experiment
                  n.skill)
                _ _ (step (hash n.session_slug) n.experiment n.skill log) (c.logged n j)
        ];
        varied =
            log_exposure-Varied m.session_slug m.experiment m.skill v log
              (assign_variant-cases m.session_slug m.experiment) c.varied;
      }

  Counted-fewer :
      {ms ns : List Meeting} {log : List Exposure}
      → ((n : Meeting) → Memᴰ n ns → Memᴰ n ms)
      → Counted ms log
      → Counted ns log
  Counted-fewer sub c = record {
    once = c.once;
    logged = λ n i. c.logged n (sub n i);
    varied = c.varied;
  }

  moved :
      (m : Meeting) (ms done : List Meeting) (n : Meeting)
      → Memᴰ n (m ∷ ms ++ done)
      → Memᴰ n (ms ++ m ∷ done)
  moved m ms done n i = elim (Memᴰ.cases_cons i) [
    | inl e ↦ Memᴰ.append_right ms (Memᴰ.head e)
    | inr j ↦ elim (Memᴰ.append_cases ms j) [
      | inl k ↦ Memᴰ.append_left (m ∷ done) k
      | inr k ↦ Memᴰ.append_right ms (Memᴰ.tail k)
    ]
  ]

  log_all-Counted :
      (ms done : List Meeting) (log : List Exposure)
      → Counted done log
      → Counted (ms ++ done) (log_all ms log)
  unfolding log_all
  log_all-Counted [] done log c = c
  log_all-Counted (m ∷ ms) done log c =
      Counted-fewer (moved m ms done)
        (log_all-Counted ms (m ∷ done) _ (Counted-log_exposure m done log c))

  -- The status of a pilot.
  pub record Status (experiment : String) (threshold : ℕ) (log : List Exposure) : Type 0 where
    pub total :
        (pilot_status experiment threshold log).total ≡ length (read_exposures experiment log)
    pub split_up :
        (pilot_status experiment threshold log).in_control
          + (pilot_status experiment threshold log).in_treatment
        ≡ (pilot_status experiment threshold log).total
    pub ready :
        ((pilot_status experiment threshold log).ready ≡ true)
        ↔ ((pilot_status experiment threshold log).remaining ≡ 0)
    pub enough :
        ((pilot_status experiment threshold log).ready ≡ true)
        ↔ (threshold ≤ length (read_exposures experiment log))

  pilot_status-Status :
      (experiment : String) (threshold : ℕ) (log : List Exposure)
      → Varied log
      → Status experiment threshold log
  unfolding pilot_status read_exposures
  pilot_status-Status experiment threshold log v = record {
    total = refl;
    split_up = split (read_exposures experiment log) λ x i. v x (select-mem _ log i).0;
    ready = ground arith;
    enough = ground arith;
  }

  Counted-nil : Counted [] []
  unfolding select
  Counted-nil = record {
    once = λ h e k. omega arith;
    logged = λ m i. elim i [ ];
    varied = λ x i. elim i [ ];
  }

  -- After any sequence of meetings, logged with the variant that assign_variant gives, each session,
  -- experiment and skill that met is on the log once and no other one twice; the status of an
  -- experiment counts its exposures, each in one of the two variants, and it is ready exactly when
  -- they reach the threshold, which is when none remains.
  pub log_all_lem :
      (ms : List Meeting) (experiment : String) (threshold : ℕ)
      → Counted ms (log_all ms []) × Status experiment threshold (log_all ms [])
  log_all_lem ms experiment threshold =
      let c = log_all-Counted ms [] [] Counted-nil in
      (
        Counted-fewer (λ n i. Memᴰ.append_left [] i) c,
        pilot_status-Status experiment threshold (log_all ms []) c.varied,
      )
