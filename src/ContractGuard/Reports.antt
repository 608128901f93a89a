-- ===== src/ContractGuard/Reports.antt =====
-- When contract_guard.py reports a violation of the rules on git, installs and .env files.
use youk.Prelude.{
  String, Bool, true, false, not, ◌&&◌, ◌||◌, List, [], ◌∷◌, ◌++◌, ◌==◌, if◌then◌else◌, any,
  any-append, contains, ◌≡◌, inl, inr, refl, sym, ap, ◌∙◌, subst, arith, eq_iff, Bool-cases,
}
use youk.ContractGuard.Words.{Violation, is_default, Shell, GitCall, switches_branch, when}
use youk.ContractGuard.Segments.{
  short_cluster, no_verify_rule, staged_rule, staged_rules, commit_rules, is_forced, hits_default,
  push_rules, where_of, git_rules,
}

pub data Rule : Type 0 where
  on_default push_default force_push no_verify dependency_force read_dotenv : Rule

abbrev pub rule_id : Rule → String
rule_id on_default = "commit-on-default-branch"
rule_id push_default = "push-to-default-branch"
rule_id force_push = "force-push"
rule_id no_verify = "no-verify"
rule_id dependency_force = "dependency-force"
rule_id read_dotenv = "read-dotenv"

abbrev pub reports : String → List Violation → Bool
reports r found = any (λ (v : Violation). v.rule == r) found

pub reports-when :
    (r : String) (b : Bool) (v : Violation) → reports r (when b v) ≡ (b && v.rule == r)
unfolding any
reports-when r true v = ground arith
reports-when r false v = refl

pub both-false : {a b : Bool} → a ≡ false → b ≡ false → (a || b) ≡ false
both-false {a} {b} p q = ground arith

or-silent : {a b c : Bool} → a ≡ c → b ≡ false → (a || b) ≡ c
or-silent {a} {b} {c} p q = ground arith

pub or-both : {a b c d : Bool} → a ≡ c → b ≡ d → (a || b) ≡ (c || d)
or-both p q = cc (p, q)

and-under : (b : Bool) {x y : Bool} → (b ≡ true → x ≡ y) → (b && x) ≡ (b && y)
and-under true h = h refl
and-under false h = refl

before-only : {before sw : Bool} → sw ≡ false → (before || sw) ≡ before
before-only {before} {sw} e = ground arith

-- Which of the four rules on git a report is of.
initial :
    (n c d p f h : Bool)
    → (((n && true) || (c && (d && false))) || (p && (f && false || h && false))) ≡ n
initial n c d p f h = ground arith

second :
    (n c d p f h : Bool)
    → (((n && false) || (c && (d && true))) || (p && (f && false || h && false))) ≡ (c && d)
second n c d p f h = ground arith

third :
    (n c d p f h : Bool)
    → (((n && false) || (c && (d && false))) || (p && (f && true || h && false))) ≡ (p && f)
third n c d p f h = ground arith

fourth :
    (n c d p f h : Bool)
    → (((n && false) || (c && (d && false))) || (p && (f && false || h && true))) ≡ (p && h)
fourth n c d p f h = ground arith

neither :
    (n c d p f h : Bool)
    → (((n && false) || (c && (d && false))) || (p && (f && false || h && false))) ≡ false
neither n c d p f h = ground arith

pub reports-three :
    (r : String) (xs ys zs : List Violation)
    → reports r (xs ++ ys ++ zs) ≡ ((reports r xs || reports r ys) || reports r zs)
reports-three r xs ys zs =
    any-append (λ (v : Violation). v.rule == r) (xs ++ ys) zs
    ∙ ap (λ b. b || reports r zs) (any-append (λ (v : Violation). v.rule == r) xs ys)

reports-if :
    (r : String) (b : Bool) (xs : List Violation)
    → reports r (if b then xs else []) ≡ (b && reports r xs)
unfolding any
reports-if r true xs = refl
reports-if r false xs = refl

one-silent :
    (r : String) (b c : Bool) (v w : Violation)
    → (v.rule == r) ≡ false
    → (w.rule == r) ≡ false
    → reports r (if b then v ∷ [] else when c w) ≡ false
unfolding any
one-silent r true c v w p q = both-false p refl
one-silent r false true v w p q = both-false q refl
one-silent r false false v w p q = refl

module _ (shell : Shell) (cwd : String) where
  -- What a call of git or of another program does that a rule forbids, when no segment before it
  -- has switched the branch.
  abbrev pub offends_git : Rule → GitCall → Bool → Bool
  offends_git on_default c switched =
      c.sub == "commit"
      && (not switched && is_default (shell.current_branch (where_of shell cwd c.directory)))
  offends_git push_default c switched =
      c.sub == "push" && hits_default shell c.args (where_of shell cwd c.directory) switched
  offends_git force_push c switched = c.sub == "push" && is_forced shell c.args
  offends_git no_verify c switched =
      (c.sub == "commit" || c.sub == "push")
      && (contains c.args "--no-verify" || c.sub == "commit" && short_cluster shell c.args "n")
  offends_git dependency_force c switched = false
  offends_git read_dotenv c switched = false

  staged-silent :
      (r : String) (names : List String)
      → ("staged-screenshot" == r) ≡ false
      → ("staged-secret" == r) ≡ false
      → reports r (staged_rules shell names) ≡ false
  unfolding staged_rules any
  staged-silent r [] a b = refl
  staged-silent r (name ∷ names) a b = elim (Bool-cases (name == "")) [
    | inl blank ↦ rw (staged_rules, blank) (staged-silent r names a b)
    | inr named ↦
        rw (staged_rules, named)
          (any-append (λ (v : Violation). v.rule == r) (staged_rule shell name)
              (staged_rules shell names)
            ∙ both-false (one-silent r (shell.like_screenshot name) _ _ _ a b)
                (staged-silent r names a b))
  ]

  switches-commit :
      (sub : String) (args : List String)
      → (sub == "commit") ≡ true
      → switches_branch sub args ≡ false
  unfolding switches_branch
  switches-commit sub args h =
      let e = (eq_iff sub "commit").0 h in subst (λ t. switches_branch t args ≡ false) (sym e) refl

  switches-push :
      (sub : String) (args : List String)
      → (sub == "push") ≡ true
      → switches_branch sub args ≡ false
  unfolding switches_branch
  switches-push sub args h =
      let e = (eq_iff sub "push").0 h in subst (λ t. switches_branch t args ≡ false) (sym e) refl

  reports-no_verify :
      (r sub : String) (args : List String)
      → reports r (no_verify_rule shell sub args) ≡ (
          ((sub == "commit" || sub == "push")
            && (contains args "--no-verify" || sub == "commit" && short_cluster shell args "n"))
          && "no-verify" == r)
  unfolding no_verify_rule
  reports-no_verify r sub args = reports-when r _ _

  reports-commit :
      (r directory : String) (switched : Bool)
      → ("staged-screenshot" == r) ≡ false
      → ("staged-secret" == r) ≡ false
      → reports r (commit_rules shell directory switched) ≡ (
          (not switched && is_default (shell.current_branch directory))
          && "commit-on-default-branch" == r)
  unfolding commit_rules
  reports-commit r directory switched a b =
      any-append (λ (v : Violation). v.rule == r)
        (when (not switched && is_default (shell.current_branch directory)) _)
        (staged_rules shell (shell.newly_staged directory))
      ∙ or-silent (reports-when r _ _) (staged-silent r (shell.newly_staged directory) a b)

  reports-push :
      (r : String) (args : List String) (directory : String) (switched : Bool)
      → reports r (push_rules shell args directory switched) ≡ (
          is_forced shell args && "force-push" == r
          || hits_default shell args directory switched && "push-to-default-branch" == r)
  unfolding push_rules
  reports-push r args directory switched =
      any-append (λ (v : Violation). v.rule == r) (when (is_forced shell args) _)
        (when (hits_default shell args directory switched) _)
      ∙ or-both (reports-when r _ _) (reports-when r _ _)

  -- The parts of what one call of git reports.
  git-reports :
      (r : String) (c : GitCall) (before : Bool)
      → ("staged-screenshot" == r) ≡ false
      → ("staged-secret" == r) ≡ false
      → reports r (git_rules shell cwd c before).0 ≡ (
          ((((c.sub == "commit" || c.sub == "push")
                && (contains c.args "--no-verify"
                    || c.sub == "commit" && short_cluster shell c.args "n"))
              && "no-verify" == r)
            || (c.sub == "commit"
                && ((not before
                      && is_default (shell.current_branch (where_of shell cwd c.directory)))
                    && "commit-on-default-branch" == r)))
          || (c.sub == "push"
              && (is_forced shell c.args && "force-push" == r
                  || hits_default shell c.args (where_of shell cwd c.directory) before
                    && "push-to-default-branch" == r)))
  unfolding git_rules
  git-reports r c before a b =
      let directory = where_of shell cwd c.directory in
      let sw = before || switches_branch c.sub c.args in
      reports-three r (no_verify_rule shell c.sub c.args)
        (if c.sub == "commit" then commit_rules shell directory sw else [])
        (if c.sub == "push" then push_rules shell c.args directory sw else [])
      ∙ or-both
          (or-both (reports-no_verify r c.sub c.args) (
            reports-if r (c.sub == "commit") _
            ∙ and-under (c.sub == "commit") λ is_commit.
              reports-commit r directory sw a b
              ∙ ap
                  (λ x.
                    (not x && is_default (shell.current_branch directory))
                    && "commit-on-default-branch" == r)
                  (before-only (switches-commit c.sub c.args is_commit))))
          (reports-if r (c.sub == "push") _
            ∙ and-under (c.sub == "push") λ is_push.
              reports-push r c.args directory sw
              ∙ ap
                  (λ x.
                    is_forced shell c.args && "force-push" == r
                    || hits_default shell c.args directory x && "push-to-default-branch" == r)
                  (before-only (switches-push c.sub c.args is_push)))

  pub git-offends :
      (rule : Rule) (c : GitCall) (before : Bool)
      → reports (rule_id rule) (git_rules shell cwd c before).0 ≡ offends_git rule c before
  git-offends on_default c before =
      git-reports "commit-on-default-branch" c before refl refl ∙ second _ _ _ _ _ _
  git-offends push_default c before =
      git-reports "push-to-default-branch" c before refl refl ∙ fourth _ _ _ _ _ _
  git-offends force_push c before = git-reports "force-push" c before refl refl ∙ third _ _ _ _ _ _
  git-offends no_verify c before = git-reports "no-verify" c before refl refl ∙ initial _ _ _ _ _ _
  git-offends dependency_force c before =
      git-reports "dependency-force" c before refl refl ∙ neither _ _ _ _ _ _
  git-offends read_dotenv c before =
      git-reports "read-dotenv" c before refl refl ∙ neither _ _ _ _ _ _
