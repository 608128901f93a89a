-- ===== src/ContractGuard/Agrees.antt =====
-- What the contracts forbid is found by the tests of contract_guard.py on a segment.
use text.Mathlib.Text.{starts_with}
use youk.Prelude.{
  String, Bool, true, false, not, ◌&&◌, ◌||◌, Option, List, [], ◌∷◌, ◌==◌, any, any-of_mem,
  contains, mem-contains, select, mem-select, take, ◌≡◌, ◌⊎◌, inl, inr, refl, ap, ◌∙◌, subst, arith,
  eq_iff, Memᴰ,
}
use youk.ContractGuard.Words.{
  Shell, GitCall, is_default, pushed_refs, readers, package_managers, install_verbs, safe_suffixes,
}
use youk.ContractGuard.Segments.{
  git_call, short_cluster, is_dotenv, target_of, is_forced, no_refs, hits_default, where_of,
  forces_install, reads_dotenv,
}
use youk.ContractGuard.Forbidden.{
  IsDefault, IsGit, WorksIn, IsDotenv, Installs, in_first, in_second, Forbids, commits, pushes_ref,
  pushes_branch, forces, skips_hooks, installs, prints,
}
use youk.ContractGuard.Reports.{
  Rule, on_default, push_default, force_push, no_verify, dependency_force, read_dotenv, offends_git,
}
use youk.ContractGuard.Exact.{offends_plain, offends, switches}
use youk.ContractGuard.Calls.{
  pushed_refs-NamesRef, NamesRef-pushed_refs, IsGit-git_call, WorksIn-where_of,
}
use youk.ContractGuard.Targets.{is_default_iff, target_of-ToDefault}
use youk.ContractGuard.Reflect.{in_not, false_of_not, none_any, or_true, both_true}
use youk.ContractGuard.Switching.{NoneSwitches-any}

push_hits :
    (p d e t n s b : Bool)
    → p ≡ true
    → d ≡ false
    → e ≡ false
    → (t || (n && not s && b)) ≡ true
    → (p && (not d && not e && (t || (n && not s && b)))) ≡ true
push_hits p d e t n s b hp hd he h = ground arith

or_left : {a : Bool} (b : Bool) → a ≡ true → (a || b) ≡ true
or_left {a} b h = ground arith

three_true : {a b c : Bool} → a ≡ true → b ≡ true → c ≡ true → (a && b && c) ≡ true
three_true {a} {b} {c} p q r = ground arith

current_hits : (t n s b : Bool) → n ≡ true → s ≡ false → b ≡ true → (t || (n && not s && b)) ≡ true
current_hits t n s b p q r = ground arith

forced_hits : (p f l : Bool) → p ≡ true → f ≡ true → l ≡ false → (p && (f && not l)) ≡ true
forced_hits p f l hp hf hl = ground arith

flagged :
    (name : String) (rest : List String)
    → Memᴰ "--legacy-peer-deps" (name ∷ rest) ⊎ Memᴰ "--force" (name ∷ rest)
    → any (λ t. t == "--legacy-peer-deps" || t == "--force") (name ∷ rest) ≡ true
flagged name rest (inl i) =
    any-of_mem (λ t. t == "--legacy-peer-deps" || t == "--force") (name ∷ rest) i refl
flagged name rest (inr i) =
    any-of_mem (λ t. t == "--legacy-peer-deps" || t == "--force") (name ∷ rest) i refl

not_git :
    (xs : List String) (t : String) → contains xs "git" ≡ false → Memᴰ t xs → (t == "git") ≡ false
not_git xs t h i = false_of_not (t == "git") λ e.
    let j : Memᴰ "git" xs = subst (λ x. Memᴰ x xs) ((eq_iff t "git").0 e) i in
    let k = mem-contains xs j in cc (h, k)

module _ (shell : Shell) (cwd : String) where
  none-no_refs : (xs : List String) → ((x : String) → ¬ Memᴰ x xs) → no_refs shell xs ≡ true
  none-no_refs [] h = refl
  none-no_refs (y ∷ xs) h = absurd (h y (Memᴰ.head refl))

  Installs-verbs :
      {rest : List String}
      → Installs shell cwd rest
      → any (contains install_verbs) (take 2 rest) ≡ true
  unfolding any take
  Installs-verbs (in_first {t = t} {rest = []} i) =
      let e = mem-contains install_verbs i in ground arith
  Installs-verbs (in_first {t = t} {rest = u ∷ rest} i) =
      let e = mem-contains install_verbs i in ground arith
  Installs-verbs (in_second {t = t} {u = u} {rest = rest} i) =
      let e = mem-contains install_verbs i in ground arith

  IsDotenv-is_dotenv : (path : String) → IsDotenv shell cwd path → is_dotenv shell path ≡ true
  unfolding is_dotenv
  IsDotenv-is_dotenv path d =
      let name = shell.basename (shell.strip_slashes path) in
      elim d.secret [
        | inl e ↦
            let k = in_not safe_suffixes (shell.last_part "." name) e in
            let n = d.named in ground arith
        | inr e ↦ let k = (eq_iff name ".env").1 e in let n = d.named in ground arith
      ]

  as_git :
      (rule : Rule) {tokens : List String} {c : GitCall} (sw : Bool)
      → IsGit shell cwd tokens c
      → offends_git shell cwd rule c sw ≡ true
      → offends shell cwd rule tokens sw ≡ true
  unfolding offends
  as_git rule {tokens = []} sw g h = elim g [ ]
  as_git rule {tokens = name ∷ rest} sw g h = rw (offends, IsGit-git_call shell cwd g) h

  as_plain :
      (rule : Rule) (name : String) (rest : List String) (sw : Bool)
      → (shell.basename name == "git") ≡ false
      → offends_plain shell cwd rule name rest ≡ true
      → offends shell cwd rule (name ∷ rest) sw ≡ true
  unfolding offends git_call
  as_plain rule name rest sw away h = rw (offends, git_call, away) h

  default_at :
      {d : Option String} {dir : String}
      → WorksIn shell cwd d dir
      → IsDefault (shell.current_branch dir)
      → is_default (shell.current_branch (where_of shell cwd d)) ≡ true
  default_at {d = d} w b =
      ap (λ x. is_default (shell.current_branch x)) (WorksIn-where_of shell cwd w)
      ∙ (is_default_iff _).1 b

  abbrev named_default : GitCall → Bool
  named_default c = any (λ r. is_default (target_of shell r)) (pushed_refs c.args)

  abbrev stands_on_default : GitCall → Bool
  stands_on_default c = is_default (shell.current_branch (where_of shell cwd c.directory))

  push_found :
      (c : GitCall) (before : List (List String))
      → c.sub ≡ "push"
      → ¬ Memᴰ "--delete" c.args
      → ¬ Memᴰ "-d" c.args
      → (named_default c
          || (no_refs shell (pushed_refs c.args)
              && not (any (switches shell cwd) before)
              && stands_on_default c))
        ≡ true
      → offends_git shell cwd push_default c (any (switches shell cwd) before) ≡ true
  unfolding hits_default
  push_found c before e kept kept' hits =
      push_hits (c.sub == "push") (contains c.args "--delete") (contains c.args "-d")
        (named_default c) (no_refs shell (pushed_refs c.args)) (any (switches shell cwd) before)
        (stands_on_default c) ((eq_iff c.sub "push").1 e) (in_not c.args "--delete" kept)
        (in_not c.args "-d" kept') hits

  pub Forbids-offends :
      (rule : Rule) (before : List (List String)) (tokens : List String)
      → Forbids shell cwd rule before tokens
      → offends shell cwd rule tokens (any (switches shell cwd) before) ≡ true
  unfolding hits_default is_forced short_cluster forces_install reads_dotenv
  Forbids-offends _ before tokens (commits {c = c} g e stays w b) =
      let s = (eq_iff c.sub "commit").1 e in
      let n = NoneSwitches-any shell cwd before stays in
      as_git on_default _ g (both_true s (both_true (ap not n) (default_at w b)))
  Forbids-offends _ before tokens (pushes_ref {c = c} {ref = ref} g e kept kept' named d) =
      let hit =
        any-of_mem (λ r. is_default (target_of shell r)) (pushed_refs c.args)
          (NamesRef-pushed_refs c.args named) ((target_of-ToDefault shell cwd ref).1 d) in
      as_git push_default _ g (push_found c before e kept kept' (or_left _ hit))
  Forbids-offends _ before tokens (pushes_branch {c = c} g e kept kept' none_named stays w b) =
      as_git push_default _ g (
        push_found c before e kept kept' (
          current_hits (named_default c) (no_refs shell (pushed_refs c.args))
            (any (switches shell cwd) before) (stands_on_default c)
            (none-no_refs (pushed_refs c.args)
              λ ref i. none_named ref (pushed_refs-NamesRef c.args i))
            (NoneSwitches-any shell cwd before stays) (default_at w b)))
  Forbids-offends _ before tokens (forces {c = c} g e forced away) = as_git force_push _ g (
      forced_hits (c.sub == "push") (contains c.args "--force" || short_cluster shell c.args "f")
        (any (λ x. starts_with x "--force-with-lease") c.args) ((eq_iff c.sub "push").1 e)
        (elim forced [
          | inl long ↦ or_left (short_cluster shell c.args "f") (mem-contains c.args long)
          | inr (a, i, k) ↦
              or_true (contains c.args "--force")
                (any-of_mem (λ x. shell.has_short "f" x) c.args i k)
        ])
        (none_any (λ x. starts_with x "--force-with-lease") c.args away))
  Forbids-offends _ before tokens (skips_hooks {c = c} g (inl (inl e, i))) =
      as_git no_verify _ g
        (both_true (or_left _ ((eq_iff c.sub "commit").1 e)) (or_left _ (mem-contains c.args i)))
  Forbids-offends _ before tokens (skips_hooks {c = c} g (inl (inr e, i))) = as_git no_verify _ g (
      both_true (or_true (c.sub == "commit") ((eq_iff c.sub "push").1 e))
        (or_left _ (mem-contains c.args i)))
  Forbids-offends _ before tokens (skips_hooks {c = c} g (inr (e, (a, i, k)))) =
      let s = (eq_iff c.sub "commit").1 e in
      as_git no_verify _ g (
        both_true (or_left _ s) (
          or_true (contains c.args "--no-verify")
            (both_true s (any-of_mem (λ x. shell.has_short "n" x) c.args i k))))
  Forbids-offends _ before _ (installs {name = name} {rest = rest} manager verb flag) =
      as_plain dependency_force name rest _
        (not_git package_managers (shell.basename name) refl manager)
        (three_true (mem-contains package_managers manager) (Installs-verbs verb)
          (flagged name rest flag))
  Forbids-offends _ before _ (prints {name = name} {path = path} {rest = rest} reader i word d) =
      as_plain read_dotenv name rest _ (not_git readers (shell.basename name) refl reader) (
        both_true (mem-contains readers reader) (
          any-of_mem (is_dotenv shell) (select (λ t. not (starts_with t "-")) rest)
            (mem-select (λ t. not (starts_with t "-")) rest i (ap not word))
            (IsDotenv-is_dotenv path d)))
