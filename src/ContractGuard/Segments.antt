-- ===== src/ContractGuard/Segments.antt =====
-- The rules of contract_guard.py on one segment of a command, and on all of them in order.
use Prim.Native.String.{◌++◌ as str_append, len, slice}
use text.Mathlib.Text.{starts_with}
use youk.Prelude.{
  String, Bool, true, false, not, ◌&&◌, ◌||◌, Option, none, some, List, [], ◌∷◌, ◌++◌, ◌==◌,
  if◌then◌else◌, any, select, contains, take,
}
use youk.ContractGuard.Words.{
  Violation, is_default, readers, package_managers, install_verbs, safe_suffixes, Shell, GitCall,
  git_options, switches_branch, pushed_refs, when,
}

module _ (shell : Shell) where
  unfoldable pub git_call : List String → Option GitCall
  unfolding git_options
  git_call [] = none
  git_call (t ∷ tokens) = if shell.basename t == "git" then git_options tokens none else none

  unfoldable pub short_cluster : List String → String → Bool
  unfolding any
  short_cluster args letter = any (λ a. shell.has_short letter a) args

  unfoldable pub is_dotenv : String → Bool
  unfolding contains
  is_dotenv path =
      let name = shell.basename (shell.strip_slashes path) in
      shell.like_dotenv name
      && (not (contains safe_suffixes (shell.last_part "." name)) || name == ".env")

  -- `r.split(":")[-1].removeprefix("refs/heads/")`
  unfoldable pub target_of : String → String
  target_of ref =
      let t = shell.last_part ":" ref in
      if starts_with t "refs/heads/" then slice t 11 (len t) else t

  unfoldable pub no_verify_rule : String → List String → List Violation
  unfolding contains short_cluster
  no_verify_rule sub args =
      when
        ((sub == "commit" || sub == "push")
          && (contains args "--no-verify" || sub == "commit" && short_cluster args "n"))
        (record { rule = "no-verify"; message = "The command passes --no-verify." })

  abbrev pub staged_rule : String → List Violation
  staged_rule name =
      if shell.like_screenshot name
      then record {
        rule = "staged-screenshot";
        message = str_append "Staged: " (str_append name ".");
      }
        ∷ []
      else when
          (shell.like_secret name
            && not (any (λ suffix. shell.ends_with (str_append "." suffix) name) safe_suffixes))
          (record { rule = "staged-secret"; message = str_append "Staged: " (str_append name ".") })

  unfoldable pub staged_rules : List String → List Violation
  unfolding any
  staged_rules [] = []
  staged_rules (name ∷ names) =
      if name == "" then staged_rules names else staged_rule name ++ staged_rules names

  unfoldable pub commit_rules : String → Bool → List Violation
  unfolding staged_rules
  commit_rules directory switched =
      when (not switched && is_default (shell.current_branch directory)) (record {
        rule = "commit-on-default-branch";
        message = str_append "You are on '" (str_append (shell.current_branch directory) "'.");
      })
      ++ staged_rules (shell.newly_staged directory)

  unfoldable pub is_forced : List String → Bool
  unfolding contains short_cluster any
  is_forced args =
      (contains args "--force" || short_cluster args "f")
      && not (any (λ a. starts_with a "--force-with-lease") args)

  abbrev pub no_refs : List String → Bool
  no_refs [] = true
  no_refs (x ∷ xs) = false

  unfoldable pub hits_default : List String → String → Bool → Bool
  unfolding contains pushed_refs any target_of
  hits_default args directory switched =
      not (contains args "--delete")
      && not (contains args "-d")
      && (any (λ r. is_default (target_of r)) (pushed_refs args)
          || no_refs (pushed_refs args)
            && not switched
            && is_default (shell.current_branch directory))

  unfoldable pub push_rules : List String → String → Bool → List Violation
  unfolding is_forced hits_default
  push_rules args directory switched =
      when (is_forced args) (record { rule = "force-push"; message = "The push is forced." })
      ++ when (hits_default args directory switched) (record {
        rule = "push-to-default-branch";
        message = "The push targets the default branch.";
      })

  abbrev pub where_of : String → Option String → String
  where_of cwd none = cwd
  where_of cwd (some directory) =
      if directory == "" then cwd else shell.within_directory cwd directory

  -- One segment that calls git, with the flag as the segments before it left it.
  unfoldable pub git_rules : String → GitCall → Bool → List Violation × Bool
  unfolding switches_branch no_verify_rule commit_rules push_rules
  git_rules cwd call before =
      let switched = before || switches_branch call.sub call.args in
      let directory = where_of cwd call.directory in
      (
        no_verify_rule call.sub call.args
            ++ (if call.sub == "commit" then commit_rules directory switched else [])
            ++ (if call.sub == "push" then push_rules call.args directory switched else []),
        switched,
      )

  -- A segment that calls something else; `tokens[1:3]` are the two words after the name.
  unfoldable pub forces_install : String → List String → Bool
  unfolding contains any take
  forces_install name rest =
      contains package_managers (shell.basename name)
      && any (contains install_verbs) (take 2 rest)
      && any (λ t. t == "--legacy-peer-deps" || t == "--force") (name ∷ rest)

  unfoldable pub reads_dotenv : String → List String → Bool
  unfolding contains any select is_dotenv
  reads_dotenv name rest =
      contains readers (shell.basename name)
      && any is_dotenv (select (λ t. not (starts_with t "-")) rest)

  abbrev pub install_forced : Violation
  install_forced = record {
    rule = "dependency-force";
    message = "The install forces past a conflict.";
  }

  abbrev pub dotenv_printed : Violation
  dotenv_printed = record { rule = "read-dotenv"; message = "The command prints a .env file." }

  unfoldable pub plain_rules : String → List String → List Violation
  unfolding forces_install reads_dotenv
  plain_rules name rest =
      when (forces_install name rest) install_forced ++ when (reads_dotenv name rest) dotenv_printed

  unfoldable pub segment_rules : String → List String → Bool → List Violation × Bool
  unfolding git_call git_rules plain_rules
  segment_rules cwd [] switched = ([], switched)
  segment_rules cwd (name ∷ rest) switched = elim (git_call (name ∷ rest)) [
    | none ↦ (plain_rules name rest, switched)
    | some call ↦ git_rules cwd call switched
  ]

  -- The loop over the segments, each split into its tokens.
  unfoldable pub scan_segments : String → List (List String) → Bool → List Violation
  unfolding segment_rules
  scan_segments cwd [] switched = []
  scan_segments cwd (tokens ∷ rest) switched =
      let (found, after) = segment_rules cwd tokens switched in
      found ++ scan_segments cwd rest after
