-- ===== src/ContractGuard/Complete.antt =====
-- evaluate_bash of contract_guard.py reports a rule exactly when a segment of the command breaks it.
use youk.Prelude.{
  String, Bool, true, false, not, Memᴰ, contains, ◌∷◌, ◌&&◌, ◌||◌, Option, none, some, List, [],
  ◌++◌, ◌==◌, if◌then◌else◌, ◌≡◌, ◌↔◌, inl, inr, refl, sym, ap, ◌∙◌, subst, arith, Bool-cases, any,
}
use youk.ContractGuard.Words.{Violation, Shell}
use youk.ContractGuard.Segments.{scan_segments}
use youk.ContractGuard.Evaluate.{missing_rules, tell_rules, Command, enabled, evaluate_bash}
use youk.ContractGuard.Reports.{
  Rule, on_default, push_default, force_push, no_verify, dependency_force, read_dotenv, rule_id,
  reports, reports-three,
}
use youk.ContractGuard.Forbidden.{Forbids}
use youk.ContractGuard.Judged.{offends-Forbids}
use youk.ContractGuard.Reflect.{both, is_false, not_in, in_not, both_true}
use youk.ContractGuard.Agrees.{Forbids-offends}
use youk.ContractGuard.Exact.{
  scan_segments-Offence, scan_segments-reports, reports-select, missing-silent, tell-silent,
}

not_pr : (rule : Rule) → ("pr-structure" == rule_id rule) ≡ false
not_pr on_default = refl
not_pr push_default = refl
not_pr force_push = refl
not_pr no_verify = refl
not_pr dependency_force = refl
not_pr read_dotenv = refl

not_voice : (rule : Rule) → ("voice-pr-text" == rule_id rule) ≡ false
not_voice on_default = refl
not_voice push_default = refl
not_voice force_push = refl
not_voice no_verify = refl
not_voice dependency_force = refl
not_voice read_dotenv = refl

drop-false : {a b c : Bool} → a ≡ false → b ≡ false → ((a || b) || c) ≡ c
drop-false {a} {b} {c} p q = ground arith

module _ (shell : Shell) (validate : String → List String) (off : List String) (cwd : String)
    (command : Command shell) where
  bodies-silent :
      (rule : Rule)
      → reports (rule_id rule) (
          if enabled shell off "pr-structure"
          then missing_rules shell validate command.bodies
          else [])
        ≡ false
  unfolding any
  bodies-silent rule = elim (Bool-cases (enabled shell off "pr-structure")) [
    | inl on ↦ rw on (missing-silent shell cwd (rule_id rule) validate command.bodies (not_pr rule))
    | inr away ↦ rw away refl
  ]

  abbrev tells_of : Option (String → List String) → List Violation
  tells_of none = []
  tells_of (some check) = tell_rules shell check (command.titles ++ command.bodies)

  tells-silent :
      (rule : Rule) (voice_check : Option (String → List String))
      → reports (rule_id rule) (tells_of voice_check) ≡ false
  unfolding any
  tells-silent rule none = refl
  tells-silent rule (some check) =
      tell-silent shell cwd (rule_id rule) check (command.titles ++ command.bodies) (not_voice rule)

  evaluate-reports :
      (rule : Rule) (voice_check : Option (String → List String))
      → reports (rule_id rule) (evaluate_bash shell validate voice_check off cwd command) ≡ (
          enabled shell off (rule_id rule)
          && reports (rule_id rule) (scan_segments shell cwd command.segments false))
  unfolding evaluate_bash
  evaluate-reports rule none =
      reports-select shell cwd off (rule_id rule) _
      ∙ ap (λ b. enabled shell off (rule_id rule) && b)
          (reports-three (rule_id rule) _ (tells_of none)
              (scan_segments shell cwd command.segments false)
            ∙ drop-false (bodies-silent rule) (tells-silent rule none))
  evaluate-reports rule (some check) =
      reports-select shell cwd off (rule_id rule) _
      ∙ ap (λ b. enabled shell off (rule_id rule) && b)
          (reports-three (rule_id rule) _ (tells_of (some check))
              (scan_segments shell cwd command.segments false)
            ∙ drop-false (bodies-silent rule) (tells-silent rule (some check)))

  enabled-on : (r : String) → enabled shell off r ≡ true → (¬ Memᴰ "all" off) × (¬ Memᴰ r off)
  unfolding enabled
  enabled-on r h =
      let (a, b) = both (not (contains off "all")) (not (contains off r)) h in
      (not_in off "all" (is_false _ a), not_in off r (is_false _ b))

  on-enabled : (r : String) → ¬ Memᴰ "all" off → ¬ Memᴰ r off → enabled shell off r ≡ true
  unfolding enabled
  on-enabled r a b = both_true (ap not (in_not off "all" a)) (ap not (in_not off r b))

  -- A segment of the command that does what the rule forbids, after those before it.
  pub record Broken (rule : Rule) (segments : List (List String)) : Type 0 where
    pub before : List (List String)
    pub tokens : List String
    pub after : List (List String)
    pub split : segments ≡ before ++ tokens ∷ after
    pub forbidden : Forbids shell cwd rule before tokens

  -- evaluate_bash reports each of six rules exactly when the rule is not turned off and some
  -- segment of the command is one of these. (1) A git commit in a directory that is on main or
  -- master, when no segment before it is a git switch, a git checkout with -b or -B, or a git
  -- checkout of a name other than main and master. (2) A git push without --delete and -d that
  -- names a ref whose part after the last colon is main or master, with or without refs/heads/; or
  -- that names no ref, in a directory that is on main or master, when no segment before it is as
  -- in (1). (3) A git push with --force or the short option f, and no --force-with-lease. (4) A
  -- git commit or push with --no-verify, or a commit with the short option n. (5) An install by
  -- npm, pnpm or yarn with --force or --legacy-peer-deps. (6) One of the programs that print
  -- files, given a .env file that is no template of one.
  pub evaluate_bash_iff :
      (rule : Rule) (voice_check : Option (String → List String))
      → (reports (rule_id rule) (evaluate_bash shell validate voice_check off cwd command) ≡ true)
        ↔ ((¬ Memᴰ "all" off) × (¬ Memᴰ (rule_id rule) off) × Broken rule command.segments)
  evaluate_bash_iff rule voice_check =
      let e = evaluate-reports rule voice_check in
      (
        λ h.
            let o = scan_segments-Offence shell cwd rule command.segments false (ground arith) in
            let (none_off, rule_on) = enabled-on (rule_id rule) (ground arith) in
            (
              none_off,
              rule_on,
              record {
                before = o.before;
                tokens = o.tokens;
                after = o.after;
                split = o.split;
                forbidden = offends-Forbids shell cwd rule o.before o.tokens o.forbidden;
              },
            ),
        λ (none_off, rule_on, o).
            let on = on-enabled (rule_id rule) none_off rule_on in
            let r =
              subst (λ s. reports (rule_id rule) (scan_segments shell cwd s false) ≡ true)
                (sym o.split)
                (scan_segments-reports shell cwd rule o.before o.tokens o.after false
                  (Forbids-offends shell cwd rule o.before o.tokens o.forbidden)) in
            ground arith,
      )
