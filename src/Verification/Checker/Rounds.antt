-- ===== src/Verification/Checker/Rounds.antt =====
-- run_rework_loop of verification_contract.py returns, and its answer says how it ended.
use youk.Prelude.Memᴰ
use youk.Prelude.{
  ℕ, zero, suc, ◌+◌, ◌≤◌, String, Bool, true, false, some, List, [], ◌∷◌, ◌++◌, ◌==◌, ◌≡◌, ◌≢◌, ◌⊎◌,
  inl, inr, refl, sym, ◌∙◌, ap, subst, arith, eq_iff, Memᴰ, sort_by, set_of, length, length-append,
  List-cases,
}
use youk.Verification.Stage.{
  Stage, verify, Reason, new_findings, Run, Result, ok, rework, reworked_to, >>=-of-ok,
}
use youk.Verification.Stage.Walks.{arrives, fails, walk_forward_to_lem}
use youk.Verification.SubClaims.{Graph, unresolved, generate_sub_claims, from_sorted}
use youk.Verification.Gate.{to_dict}
use youk.Verification.Gate.Stored.{Says, to_dict-Says}
use youk.Verification.Checker.{
  Disk, ids, scanned, after_round, ReworkRound, ReworkOutcome, Loop, scan, current, findings_of,
  round_of, rework_round, went_dry, hit_cap, rework_loop, run_rework_loop,
}
use youk.Verification.Checker.Targets.{empty-of_eq, empty_false, IsTarget, target-path, rework-ok}

module _ (le : String → String → Bool) (today slug : String) where
  -- What holds at the top of round `n`, and after the scan of it.
  pub record AtRound (n : ℕ) (s : Loop) : Type 0 where
    pub dimension : s.claim.dimension ≡ "host"
    pub stage : s.claim.stage ≡ verify
    pub size : s.claim.size ≡ ""
    pub reworks : suc s.claim.rework_rounds ≡ n
    pub count : suc (length s.rounds) ≡ n
    pub busy : (r : ReworkRound) → Memᴰ r s.rounds → r.findings ≢ []

  scan-ok :
      (n : ℕ) (graph : Graph) (how_found : String) (s : Loop)
      → AtRound n s
      → (s' : Loop) × (scan le today slug graph how_found s ≡ ok s')
        × AtRound n s'
        × (s'.disk.claim_file ≡ some (to_dict s'.claim))
  unfolding scan generate_sub_claims
  scan-ok n graph how_found s a =
      let host : s.claim.dimension == "host" ≡ true =
        (eq_iff s.claim.dimension "host").1 a.dimension in
      (
        scanned le today slug (from_sorted le [] (sort_by le (λ item. item.0) graph)) how_found s,
        rw host,
        record {
          dimension = a.dimension;
          stage = a.stage;
          size = a.size;
          reworks = a.reworks;
          count = a.count;
          busy = a.busy;
        },
        refl,
      )

  AtRound-after :
      (n : ℕ) (s : Loop) (r1 r : Run)
      → AtRound n s
      → r.claim.stage ≡ verify
      → r.claim.dimension ≡ s.claim.dimension
      → r.claim.size ≡ s.claim.size
      → r.claim.rework_rounds ≡ suc s.claim.rework_rounds
      → findings_of le today slug s ≢ []
      → AtRound (suc n) (after_round le today slug n s r1 r)
  AtRound-after n s r1 r a stage dimension size reworks new = record {
    dimension = dimension ∙ a.dimension;
    stage = stage;
    size = size ∙ a.size;
    reworks = ap suc (reworks ∙ a.reworks);
    count = omega (arith, a.count, length-append s.rounds (round_of le today slug n s ∷ []));
    busy = λ x m. elim (Memᴰ.append_cases s.rounds m) [
      | inl i ↦ a.busy x i
      | inr i ↦ λ e. new (sym (ap (λ y. y.findings) (Memᴰ.eq_of_singleton i)) ∙ e)
    ];
  }

  rework_round-ok :
      (n : ℕ) {target : Stage} (s : Loop)
      → IsTarget target
      → AtRound n s
      → findings_of le today slug s ≢ []
      → (s' : Loop) × (rework_round le today slug n target s ≡ ok s') × AtRound (suc n) s'
  unfolding rework_round
  rework_round-ok n {target} s t a new =
      let r0 : Run = record { claim = s.claim; events = s.disk.events } in
      let reason : Reason = new_findings n (findings_of le today slug s) in
      let r1 : Run = reworked_to (some slug) r0 target reason in
      let step : rework (some slug) r0 target reason ≡ ok r1 =
        rework-ok (some slug) r0 reason t a.stage in
      elim (walk_forward_to_lem (some slug) r1 verify) [
        | fails x e none_leads ↦ let (p, path) = target-path t in absurd (none_leads p path)
        | arrives r2 e moved ↦ (
          after_round le today slug n s r1 r2,
          rw (step, e),
          AtRound-after n s r1 r2 a (ap (λ c. c.stage) moved.claim)
              (ap (λ c. c.dimension) moved.claim) (ap (λ c. c.size) moved.claim)
              (ap (λ c. c.rework_rounds) moved.claim) new,
        )
      ]

  -- How the loop ended: every round but the last had new findings; the last had none, or it was
  -- the round number `max`. The claim is at VERIFY, reworked once after each round but the last,
  -- and
  -- the file says all of it, history and rework log included.
  pub record Ended (max : ℕ) (o : ReworkOutcome) (d : Disk) : Type 0 where
    pub before : List ReworkRound
    pub last : ReworkRound
    pub rounds : o.rounds ≡ before ++ last ∷ []
    pub busy : (r : ReworkRound) → Memᴰ r before → r.findings ≢ []
    pub bounded : length o.rounds ≤ max
    pub unresolved_ids :
        last.unresolved_ids ≡ sort_by le (λ x. x) (set_of (ids (unresolved o.claim.sub_claims)))
    pub stage : o.claim.stage ≡ verify
    pub size : o.claim.size ≡ ""
    pub reworks : suc o.claim.rework_rounds ≡ length o.rounds
    pub file : d.claim_file ≡ some (to_dict o.claim)
    pub says : Says o.claim (to_dict o.claim)
    pub how :
        ((o.dry ≡ true) × (o.cap_hit ≡ false) × (last.findings ≡ []))
        ⊎ ((o.dry ≡ false) × (o.cap_hit ≡ true) × (last.findings ≢ []) × (length o.rounds ≡ max))

  went_dry-Ended :
      (max n : ℕ) (s : Loop)
      → AtRound n s
      → n ≤ max
      → s.disk.claim_file ≡ some (to_dict s.claim)
      → findings_of le today slug s ≡ []
      → Ended max (went_dry le today slug n s).0 (went_dry le today slug n s).1
  unfolding current
  went_dry-Ended max n s a within file dry = record {
    before = s.rounds;
    last = round_of le today slug n s;
    rounds = refl;
    busy = a.busy;
    bounded = omega (arith, a.count, length-append s.rounds (round_of le today slug n s ∷ []));
    unresolved_ids = refl;
    stage = a.stage;
    size = a.size;
    reworks =
        omega (arith, a.count, a.reworks, length-append s.rounds (round_of le today slug n s ∷ []));
    file = file;
    says = to_dict-Says s.claim;
    how = inl (refl, refl, dry);
  }

  hit_cap-Ended :
      (n : ℕ) (s : Loop)
      → AtRound n s
      → findings_of le today slug s ≢ []
      → Ended n (hit_cap le today slug n s).0 (hit_cap le today slug n s).1
  unfolding current
  hit_cap-Ended n s a new = record {
    before = s.rounds;
    last = round_of le today slug n s;
    rounds = refl;
    busy = a.busy;
    bounded = omega (arith, a.count, length-append s.rounds (round_of le today slug n s ∷ []));
    unresolved_ids = refl;
    stage = a.stage;
    size = a.size;
    reworks =
        omega (arith, a.count, a.reworks, length-append s.rounds (round_of le today slug n s ∷ []));
    file = refl;
    says = to_dict-Says s.claim;
    how = inr (
      refl,
      refl,
      new,
      omega (arith, a.count, length-append s.rounds (round_of le today slug n s ∷ [])),
    );
  }

  abbrev pub Ends : ℕ → Result (ReworkOutcome × Disk) → Type 0
  Ends max answer = (o : ReworkOutcome) × (d : Disk) × (answer ≡ ok (o, d)) × Ended max o d

  module _ (graph_fn : ℕ → Graph) (how_found : String) {target : Stage} (t : IsTarget target) where
    loop-dry :
        (left n : ℕ) (s s1 : Loop)
        → scan le today slug (graph_fn n) how_found s ≡ ok s1
        → findings_of le today slug s1 ≡ []
        → rework_loop le today slug left n graph_fn how_found target s
          ≡ ok (went_dry le today slug n s1)
    unfolding rework_loop
    loop-dry zero n s s1 e dry = >>=-of-ok _ e ∙ rw (empty-of_eq dry)
    loop-dry (suc left) n s s1 e dry = >>=-of-ok _ e ∙ rw (empty-of_eq dry)

    loop-cap :
        (n : ℕ) (s s1 : Loop) {x : String} {rest : List String}
        → scan le today slug (graph_fn n) how_found s ≡ ok s1
        → findings_of le today slug s1 ≡ x ∷ rest
        → rework_loop le today slug zero n graph_fn how_found target s
          ≡ ok (hit_cap le today slug n s1)
    unfolding rework_loop
    loop-cap n s s1 e new = >>=-of-ok _ e ∙ rw (empty_false new)

    loop-round :
        (left n : ℕ) (s s1 s2 : Loop) {x : String} {rest : List String}
        → scan le today slug (graph_fn n) how_found s ≡ ok s1
        → findings_of le today slug s1 ≡ x ∷ rest
        → rework_round le today slug n target s1 ≡ ok s2
        → rework_loop le today slug (suc left) n graph_fn how_found target s
          ≡ rework_loop le today slug left (suc n) graph_fn how_found target s2
    unfolding rework_loop
    loop-round left n s s1 s2 e new step = >>=-of-ok _ e ∙ rw (empty_false new, step)

    rework_loop_lem :
        (left n max : ℕ) (s : Loop)
        → AtRound n s
        → n + left ≡ max
        → Ends max (rework_loop le today slug left n graph_fn how_found target s)
    unfolding rework_loop
    rework_loop_lem zero n max s a total =
        let (s1, scan_eq, a1, file) = scan-ok n (graph_fn n) how_found s a in
        elim (List-cases (findings_of le today slug s1)) [
          | inl dry ↦ (
            (went_dry le today slug n s1).0,
            (went_dry le today slug n s1).1,
            loop-dry zero n s s1 scan_eq dry,
            went_dry-Ended max n s1 a1 (omega arith) file dry,
          )
          | inr (x, rest, new) ↦ (
            (hit_cap le today slug n s1).0,
            (hit_cap le today slug n s1).1,
            loop-cap n s s1 scan_eq new,
            subst (λ k. Ended k (hit_cap le today slug n s1).0 (hit_cap le today slug n s1).1)
                (omega arith) (hit_cap-Ended n s1 a1 λ e. cc),
          )
        ]
    rework_loop_lem (suc left) n max s a total =
        let (s1, scan_eq, a1, file) = scan-ok n (graph_fn n) how_found s a in
        elim (List-cases (findings_of le today slug s1)) [
          | inl dry ↦ (
            (went_dry le today slug n s1).0,
            (went_dry le today slug n s1).1,
            loop-dry (suc left) n s s1 scan_eq dry,
            went_dry-Ended max n s1 a1 (omega arith) file dry,
          )
          | inr (x, rest, new) ↦
              let (s2, round_eq, a2) = rework_round-ok n s1 t a1 (λ e. cc) in
              let (o, d, e, ended) = rework_loop_lem left (suc n) max s2 a2 (omega arith) in
              (o, d, loop-round left n s s1 s2 scan_eq new round_eq ∙ e, ended)
        ]

  -- run_rework_loop, for a claim of the dimension "host", a rework target of VERIFY and at least
  -- one round, always returns an answer, whatever the scans find; and it ended as `Ended` says:
  -- dry exactly when a round had no new finding, capped only after the last round allowed.
  pub run_rework_loop-Ends :
      (statement : String) (graph_fn : ℕ → Graph) (how_found : String) {target : Stage}
      → IsTarget target
      → (left : ℕ) (d : Disk)
      → Ends
          (suc left)
          (run_rework_loop le today slug statement "host" graph_fn how_found target (suc left) d)
  unfolding run_rework_loop
  run_rework_loop-Ends statement graph_fn how_found t left d =
      rework_loop_lem graph_fn how_found t left 1 (suc left) _
        (record {
          dimension = refl;
          stage = refl;
          size = refl;
          reworks = refl;
          count = refl;
          busy = λ r m. elim m [ ];
        })
        (omega arith)
