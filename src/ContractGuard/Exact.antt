-- ===== src/ContractGuard/Exact.antt =====
-- What contract_guard.py reports of a whole command, for the rules on git, installs and .env files.
use youk.Prelude.{
  String, Bool, true, false, ◌&&◌, ◌||◌, none, some, List, [], ◌∷◌, ◌++◌, ◌==◌, any, any-append,
  select, ◌≡◌, inl, inr, refl, sym, ap, ◌∙◌, arith, eq_iff, Bool-cases, Option-cases, List-cases,
}
use youk.ContractGuard.Words.{Violation, Shell, switches_branch, when}
use youk.ContractGuard.Segments.{
  git_call, git_rules, plain_rules, segment_rules, scan_segments, forces_install, reads_dotenv,
  install_forced, dotenv_printed,
}
use youk.ContractGuard.Evaluate.{missing_rules, tell_rules, enabled}
use youk.ContractGuard.Reports.{
  Rule, on_default, push_default, force_push, no_verify, dependency_force, read_dotenv, rule_id,
  reports, reports-when, both-false, or-both, offends_git, git-offends,
}

module _ (shell : Shell) (cwd : String) where
  -- What a program other than git does that a rule forbids.
  abbrev pub offends_plain : Rule → String → List String → Bool
  offends_plain dependency_force name rest = forces_install shell name rest
  offends_plain read_dotenv name rest = reads_dotenv shell name rest
  offends_plain on_default name rest = false
  offends_plain push_default name rest = false
  offends_plain force_push name rest = false
  offends_plain no_verify name rest = false

  -- A segment that a rule forbids, `switched` telling whether one before it has switched the branch.
  unfoldable pub offends : Rule → List String → Bool → Bool
  offends rule [] switched = false
  offends rule (name ∷ rest) switched = elim (git_call shell (name ∷ rest)) [
    | none ↦ offends_plain rule name rest
    | some c ↦ offends_git shell cwd rule c switched
  ]

  -- A segment that creates a branch or switches to one.
  unfoldable pub switches : List String → Bool
  switches tokens = elim (git_call shell tokens) [
    | none ↦ false
    | some c ↦ switches_branch c.sub c.args
  ]

  reports-two :
      (r : String) (a b : Bool) (v w : Violation)
      → reports r (when a v ++ when b w) ≡ (a && v.rule == r || b && w.rule == r)
  reports-two r a b v w =
      any-append (λ (x : Violation). x.rule == r) (when a v) (when b w)
      ∙ or-both (reports-when r a v) (reports-when r b w)

  first_only : (a b : Bool) → (a && true || b && false) ≡ a
  first_only a b = ground arith

  second_only : (a b : Bool) → (a && false || b && true) ≡ b
  second_only a b = ground arith

  none_of : (a b : Bool) → (a && false || b && false) ≡ false
  none_of a b = ground arith

  plain-reports :
      (r name : String) (rest : List String)
      → reports r (plain_rules shell name rest) ≡ (
          forces_install shell name rest && "dependency-force" == r
          || reads_dotenv shell name rest && "read-dotenv" == r)
  unfolding plain_rules
  plain-reports r name rest =
      reports-two r (forces_install shell name rest) (reads_dotenv shell name rest)
        (install_forced shell) (dotenv_printed shell)

  plain-offends :
      (rule : Rule) (name : String) (rest : List String)
      → reports (rule_id rule) (plain_rules shell name rest) ≡ offends_plain rule name rest
  plain-offends dependency_force name rest =
      plain-reports "dependency-force" name rest
      ∙ first_only (forces_install shell name rest) (reads_dotenv shell name rest)
  plain-offends read_dotenv name rest =
      plain-reports "read-dotenv" name rest
      ∙ second_only (forces_install shell name rest) (reads_dotenv shell name rest)
  plain-offends on_default name rest =
      plain-reports "commit-on-default-branch" name rest
      ∙ none_of (forces_install shell name rest) (reads_dotenv shell name rest)
  plain-offends push_default name rest =
      plain-reports "push-to-default-branch" name rest
      ∙ none_of (forces_install shell name rest) (reads_dotenv shell name rest)
  plain-offends force_push name rest =
      plain-reports "force-push" name rest
      ∙ none_of (forces_install shell name rest) (reads_dotenv shell name rest)
  plain-offends no_verify name rest =
      plain-reports "no-verify" name rest
      ∙ none_of (forces_install shell name rest) (reads_dotenv shell name rest)

  segment-offends :
      (rule : Rule) (tokens : List String) (sw : Bool)
      → (reports (rule_id rule) (segment_rules shell cwd tokens sw).0 ≡ offends rule tokens sw)
        × ((segment_rules shell cwd tokens sw).1 ≡ (sw || switches tokens))
  unfolding segment_rules offends switches any git_call git_rules
  segment-offends rule [] sw = (refl, ground arith)
  segment-offends rule (name ∷ rest) sw = elim (Option-cases (git_call shell (name ∷ rest))) [
    | inl other ↦
        rw (segment_rules, offends, switches, other) (plain-offends rule name rest, ground arith)
    | inr (c, is_git) ↦
        rw (segment_rules, offends, switches, is_git) (git-offends shell cwd rule c sw, refl)
  ]

  -- A segment of the command that a rule forbids, after those before it.
  pub record Offence (rule : Rule) (segments : List (List String)) (switched : Bool) : Type 0 where
    pub before : List (List String)
    pub tokens : List String
    pub after : List (List String)
    pub split : segments ≡ before ++ tokens ∷ after
    pub forbidden : offends rule tokens (switched || any switches before) ≡ true

  or_assoc : (a b c : Bool) → ((a || b) || c) ≡ (a || (b || c))
  or_assoc a b c = ground arith

  or_false : (a : Bool) → (a || false) ≡ a
  or_false a = ground arith

  reports-scan_segments :
      (rule : Rule) (tokens : List String) (rest : List (List String)) (sw : Bool)
      → reports (rule_id rule) (scan_segments shell cwd (tokens ∷ rest) sw) ≡ (
          offends rule tokens sw
          || reports (rule_id rule) (scan_segments shell cwd rest (sw || switches tokens)))
  unfolding scan_segments
  reports-scan_segments rule tokens rest sw =
      let s = segment-offends rule tokens sw in
      any-append (λ (v : Violation). v.rule == rule_id rule) (segment_rules shell cwd tokens sw).0
        (scan_segments shell cwd rest (segment_rules shell cwd tokens sw).1)
      ∙ or-both s.0 (ap (λ b. reports (rule_id rule) (scan_segments shell cwd rest b)) s.1)

  pub scan_segments-Offence :
      (rule : Rule) (segments : List (List String)) (sw : Bool)
      → reports (rule_id rule) (scan_segments shell cwd segments sw) ≡ true
      → Offence rule segments sw
  unfolding any scan_segments
  scan_segments-Offence rule [] sw h = cc h
  scan_segments-Offence rule (tokens ∷ rest) sw h = elim (Bool-cases (offends rule tokens sw)) [
    | inl here ↦ record {
      before = [];
      tokens = tokens;
      after = rest;
      split = refl;
      forbidden = ap (offends rule tokens) (or_false sw) ∙ here;
    }
    | inr away ↦
        let e = reports-scan_segments rule tokens rest sw in
        let o = scan_segments-Offence rule rest (sw || switches tokens) (ground arith) in
        record {
          before = tokens ∷ o.before;
          tokens = o.tokens;
          after = o.after;
          split = ap (λ l. tokens ∷ l) o.split;
          forbidden =
              ap (offends rule o.tokens)
                (sym (or_assoc sw (switches tokens) (any switches o.before)))
              ∙ o.forbidden;
        }
  ]

  pub scan_segments-reports :
      (rule : Rule) (before : List (List String)) (tokens : List String)
      (after : List (List String)) (sw : Bool)
      → offends rule tokens (sw || any switches before) ≡ true
      → reports (rule_id rule) (scan_segments shell cwd (before ++ tokens ∷ after) sw) ≡ true
  unfolding any
  scan_segments-reports rule [] tokens after sw h =
      let here = ap (offends rule tokens) (sym (or_false sw)) ∙ h in
      let e = reports-scan_segments rule tokens after sw in ground arith
  scan_segments-reports rule (x ∷ before) tokens after sw h =
      let later =
        scan_segments-reports rule before tokens after (sw || switches x)
          (ap (offends rule tokens) (or_assoc sw (switches x) (any switches before)) ∙ h) in
      let e = reports-scan_segments rule x (before ++ tokens ∷ after) sw in ground arith

  -- A rule that is turned off is not reported, and turning one off hides no other.
  pub reports-select :
      (off : List String) (r : String) (found : List Violation)
      → reports r (select (λ (v : Violation). enabled shell off v.rule) found)
        ≡ (enabled shell off r && reports r found)
  unfolding select any
  reports-select off r [] = ground arith
  reports-select off r (v ∷ found) = elim (Bool-cases (v.rule == r)) [
    | inl same ↦
        let e : enabled shell off v.rule ≡ enabled shell off r =
          ap (enabled shell off) ((eq_iff v.rule r).0 same) in
        elim (Bool-cases (enabled shell off v.rule)) [
          | inl on ↦ rw on (ground (arith, e, reports-select off r found))
          | inr away ↦ rw away (ground (arith, e, reports-select off r found))
        ]
    | inr other ↦ elim (Bool-cases (enabled shell off v.rule)) [
      | inl on ↦ rw on (ground (arith, reports-select off r found))
      | inr away ↦ rw away (ground (arith, reports-select off r found))
    ]
  ]

  pub missing-silent :
      (r : String) (validate : String → List String) (bodies : List String)
      → ("pr-structure" == r) ≡ false
      → reports r (missing_rules shell validate bodies) ≡ false
  unfolding missing_rules any
  missing-silent r validate [] h = refl
  missing-silent r validate (body ∷ rest) h = elim (List-cases (validate body)) [
    | inl whole ↦ rw (missing_rules, whole) (missing-silent r validate rest h)
    | inr (x, xs, lacks) ↦
        rw (missing_rules, lacks) (both-false h (missing-silent r validate rest h))
  ]

  pub tell-silent :
      (r : String) (check : String → List String) (texts : List String)
      → ("voice-pr-text" == r) ≡ false
      → reports r (tell_rules shell check texts) ≡ false
  unfolding tell_rules any
  tell-silent r check [] h = refl
  tell-silent r check (text ∷ rest) h = elim (List-cases (check text)) [
    | inl clean ↦ rw (tell_rules, clean) (tell-silent r check rest h)
    | inr (x, xs, tells) ↦ rw (tell_rules, tells) (both-false h (tell-silent r check rest h))
  ]
