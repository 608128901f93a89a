-- ===== src/ContractGuard/Judged.antt =====
-- The tests of contract_guard.py on one segment agree with what the contracts forbid.
use text.Mathlib.Text.{starts_with}
use youk.Prelude.{
  String, Bool, true, false, not, ◌&&◌, ◌||◌, List, [], ◌∷◌, ◌==◌, any, any-mem, any-false,
  contains, contains-mem, select, select-mem, take, ◌≡◌, inl, inr, subst, arith, eq_iff, Memᴰ,
  Bool-cases, Option-cases,
}
use youk.ContractGuard.Words.{
  Shell, GitCall, is_default, pushed_refs, readers, package_managers, install_verbs, safe_suffixes,
}
use youk.ContractGuard.Segments.{
  git_call, short_cluster, is_dotenv, target_of, is_forced, no_refs, hits_default, where_of,
  forces_install, reads_dotenv,
}
use youk.ContractGuard.Forbidden.{
  IsGit, IsDotenv, Installs, in_first, in_second, Forbids, commits, pushes_ref, pushes_branch,
  forces, skips_hooks, installs, prints,
}
use youk.ContractGuard.Reports.{
  Rule, on_default, push_default, force_push, no_verify, dependency_force, read_dotenv, offends_git,
}
use youk.ContractGuard.Exact.{offends_plain, offends, switches}
use youk.ContractGuard.Calls.{
  pushed_refs-NamesRef, NamesRef-pushed_refs, git_call-IsGit, where_of-WorksIn,
}
use youk.ContractGuard.Targets.{is_default_iff, target_of-ToDefault}
use youk.ContractGuard.Reflect.{both, either, is_false, not_in}
use youk.ContractGuard.Switching.{any-NoneSwitches}

three : (a b c : Bool) → (a && b && c) ≡ true → (a ≡ true) × (b ≡ true) × (c ≡ true)
three a b c h = (ground arith, ground arith, ground arith)

module _ (shell : Shell) (cwd : String) where
  abbrev switched : List (List String) → Bool
  switched before = any (switches shell cwd) before

  no_refs-none : (xs : List String) {x : String} → no_refs shell xs ≡ true → ¬ Memᴰ x xs
  no_refs-none [] h i = elim i [ ]
  no_refs-none (y ∷ xs) h i = cc h

  judged_commit :
      (c : GitCall) (before : List (List String)) (tokens : List String)
      → IsGit shell cwd tokens c
      → offends_git shell cwd on_default c (switched before) ≡ true
      → Forbids shell cwd on_default before tokens
  judged_commit c before tokens g h =
      let branch = shell.current_branch (where_of shell cwd c.directory) in
      let (s, r) = both (c.sub == "commit") (not (switched before) && is_default branch) h in
      let (n, d) = both (not (switched before)) (is_default branch) r in
      commits g ((eq_iff c.sub "commit").0 s) (any-NoneSwitches shell cwd before (is_false _ n))
        (where_of-WorksIn shell cwd c.directory) ((is_default_iff branch).0 d)

  judged_push :
      (c : GitCall) (before : List (List String)) (tokens : List String)
      → IsGit shell cwd tokens c
      → offends_git shell cwd push_default c (switched before) ≡ true
      → Forbids shell cwd push_default before tokens
  unfolding hits_default
  judged_push c before tokens g h =
      let branch = shell.current_branch (where_of shell cwd c.directory) in
      let to = any (λ r. is_default (target_of shell r)) (pushed_refs c.args) in
      let s = (eq_iff c.sub "push").0 (both (c.sub == "push") _ h).0 in
      let kept : contains c.args "--delete" ≡ false = ground arith in
      let kept' : contains c.args "-d" ≡ false = ground arith in
      let hits : (to
            || (no_refs shell (pushed_refs c.args) && not (switched before) && is_default branch))
          ≡ true =
        ground arith in
      elim (either to _ hits) [
        | inl named ↦
            let (ref, i, d) =
              any-mem (λ r. is_default (target_of shell r)) (pushed_refs c.args) named in
            pushes_ref g s (not_in c.args "--delete" kept) (not_in c.args "-d" kept')
              (pushed_refs-NamesRef c.args i) ((target_of-ToDefault shell cwd ref).0 d)
        | inr current ↦
            let none_named : no_refs shell (pushed_refs c.args) ≡ true = ground arith in
            let stays : switched before ≡ false = ground arith in
            pushes_branch g s (not_in c.args "--delete" kept) (not_in c.args "-d" kept')
              (λ ref n.
                no_refs-none (pushed_refs c.args) none_named (NamesRef-pushed_refs c.args n))
              (any-NoneSwitches shell cwd before stays) (where_of-WorksIn shell cwd c.directory)
              ((is_default_iff branch).0 (ground arith))
      ]

  judged_force :
      (c : GitCall) (before : List (List String)) (tokens : List String)
      → IsGit shell cwd tokens c
      → offends_git shell cwd force_push c (switched before) ≡ true
      → Forbids shell cwd force_push before tokens
  unfolding is_forced short_cluster
  judged_force c before tokens g h =
      let leased = any (λ a. starts_with a "--force-with-lease") c.args in
      let s = (eq_iff c.sub "push").0 (both (c.sub == "push") _ h).0 in
      let away : leased ≡ false = ground arith in
      let forced : (contains c.args "--force" || short_cluster shell c.args "f") ≡ true =
        ground arith in
      forces g s
        (elim (either (contains c.args "--force") (short_cluster shell c.args "f") forced) [
          | inl long ↦ inl (contains-mem c.args long)
          | inr cluster ↦ inr (any-mem (λ a. shell.has_short "f" a) c.args cluster)
        ])
        λ a i. any-false (λ x. starts_with x "--force-with-lease") c.args away i

  judged_verify :
      (c : GitCall) (before : List (List String)) (tokens : List String)
      → IsGit shell cwd tokens c
      → offends_git shell cwd no_verify c (switched before) ≡ true
      → Forbids shell cwd no_verify before tokens
  unfolding short_cluster
  judged_verify c before tokens g h =
      let sub : (c.sub == "commit" || c.sub == "push") ≡ true = ground arith in
      let skips : (contains c.args "--no-verify"
            || (c.sub == "commit" && short_cluster shell c.args "n"))
          ≡ true =
        ground arith in
      skips_hooks g (elim (either (contains c.args "--no-verify") _ skips) [
        | inl long ↦ inl (
          elim (either (c.sub == "commit") (c.sub == "push") sub) [
            | inl e ↦ inl ((eq_iff c.sub "commit").0 e)
            | inr e ↦ inr ((eq_iff c.sub "push").0 e)
          ],
          contains-mem c.args long,
        )
        | inr short ↦
            let (e, cluster) = both (c.sub == "commit") (short_cluster shell c.args "n") short in
            inr ((eq_iff c.sub "commit").0 e, any-mem (λ a. shell.has_short "n" a) c.args cluster)
      ])

  verbs-Installs :
      (rest : List String)
      → any (contains install_verbs) (take 2 rest) ≡ true
      → Installs shell cwd rest
  unfolding any take
  verbs-Installs [] h = cc h
  verbs-Installs (t ∷ []) h = in_first (contains-mem install_verbs (ground arith))
  verbs-Installs (t ∷ u ∷ rest) h = elim (Bool-cases (contains install_verbs t)) [
    | inl e ↦ in_first (contains-mem install_verbs e)
    | inr e ↦ in_second (contains-mem install_verbs (ground arith))
  ]

  judged_install :
      (name : String) (rest : List String) (before : List (List String))
      → forces_install shell name rest ≡ true
      → Forbids shell cwd dependency_force before (name ∷ rest)
  unfolding forces_install
  judged_install name rest before h =
      let flag = any (λ t. t == "--legacy-peer-deps" || t == "--force") (name ∷ rest) in
      let (manager, verb, flagged) =
        three (contains package_managers (shell.basename name))
          (any (contains install_verbs) (take 2 rest)) flag h in
      let (t, i, e) =
        any-mem (λ t. t == "--legacy-peer-deps" || t == "--force") (name ∷ rest) flagged in
      installs (contains-mem package_managers manager) (verbs-Installs rest verb)
        (elim (either (t == "--legacy-peer-deps") (t == "--force") e) [
          | inl k ↦ inl (subst (λ x. Memᴰ x (name ∷ rest)) ((eq_iff t "--legacy-peer-deps").0 k) i)
          | inr k ↦ inr (subst (λ x. Memᴰ x (name ∷ rest)) ((eq_iff t "--force").0 k) i)
        ])

  is_dotenv-IsDotenv : (path : String) → is_dotenv shell path ≡ true → IsDotenv shell cwd path
  unfolding is_dotenv
  is_dotenv-IsDotenv path h =
      let name = shell.basename (shell.strip_slashes path) in
      let kept : (not (contains safe_suffixes (shell.last_part "." name)) || name == ".env")
          ≡ true =
        ground arith in
      record {
        named = ground arith;
        secret =
            elim (either (not (contains safe_suffixes (shell.last_part "." name))) (name == ".env")
              kept) [
                | inl e ↦ inl (not_in safe_suffixes (shell.last_part "." name) (is_false _ e))
                | inr e ↦ inr ((eq_iff name ".env").0 e)
              ];
      }

  judged_read :
      (name : String) (rest : List String) (before : List (List String))
      → reads_dotenv shell name rest ≡ true
      → Forbids shell cwd read_dotenv before (name ∷ rest)
  unfolding reads_dotenv
  judged_read name rest before h =
      let words = select (λ t. not (starts_with t "-")) rest in
      let (reader, found) =
        both (contains readers (shell.basename name)) (any (is_dotenv shell) words) h in
      let (path, i, e) = any-mem (is_dotenv shell) words found in
      let (j, w) = select-mem (λ t. not (starts_with t "-")) rest i in
      prints (contains-mem readers reader) j (is_false _ w) (is_dotenv-IsDotenv path e)

  -- A segment that a test finds does what the rule forbids.
  judged_git :
      (rule : Rule) (c : GitCall) (before : List (List String)) (tokens : List String)
      → IsGit shell cwd tokens c
      → offends_git shell cwd rule c (switched before) ≡ true
      → Forbids shell cwd rule before tokens
  judged_git on_default c before tokens g h = judged_commit c before tokens g h
  judged_git push_default c before tokens g h = judged_push c before tokens g h
  judged_git force_push c before tokens g h = judged_force c before tokens g h
  judged_git no_verify c before tokens g h = judged_verify c before tokens g h
  judged_git dependency_force c before tokens g h = cc h
  judged_git read_dotenv c before tokens g h = cc h

  judged_plain :
      (rule : Rule) (name : String) (rest : List String) (before : List (List String))
      → offends_plain shell cwd rule name rest ≡ true
      → Forbids shell cwd rule before (name ∷ rest)
  judged_plain dependency_force name rest before h = judged_install name rest before h
  judged_plain read_dotenv name rest before h = judged_read name rest before h
  judged_plain on_default name rest before h = cc h
  judged_plain push_default name rest before h = cc h
  judged_plain force_push name rest before h = cc h
  judged_plain no_verify name rest before h = cc h

  pub offends-Forbids :
      (rule : Rule) (before : List (List String)) (tokens : List String)
      → offends shell cwd rule tokens (switched before) ≡ true
      → Forbids shell cwd rule before tokens
  unfolding offends
  offends-Forbids rule before [] h = cc h
  offends-Forbids rule before (name ∷ rest) h = elim (Option-cases (git_call shell (name ∷ rest))) [
    | inl plain ↦ judged_plain rule name rest before (rw (offends, plain) at h)
    | inr (c, g) ↦
        judged_git rule c before (name ∷ rest) (git_call-IsGit shell cwd (name ∷ rest) g)
          (rw (offends, g) at h)
  ]
