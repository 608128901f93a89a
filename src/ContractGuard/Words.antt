-- ===== src/ContractGuard/Words.antt =====
-- The rules, the words and the calls of git that servers/shared/contract_guard.py knows.
use Prim.Native.String.{◌++◌ as str_append}
use text.Mathlib.Text.{starts_with}
use youk.Prelude.{
  String, Bool, true, false, not, ◌&&◌, ◌||◌, Option, none, some, List, [], ◌∷◌, ◌==◌,
  if◌then◌else◌, any, select,
}

pub record Violation : Type 0 where
  pub rule : String
  pub message : String

-- RULES: what a rule says, and what to do instead.
abbrev pub rules : List (String × String × String)
rules =
    (
      "commit-on-default-branch", "Commits go on a branch, never on the default branch.",
      "Create a branch first: git switch -c <name>.",
    )
    ∷ (
      "push-to-default-branch",
      "Never push to the default branch; open a PR from a feature branch.",
      "Push your branch: git push -u origin <branch>.",
    )
    ∷ (
      "force-push", "No force push. It rewrites shared history.",
      "Use --force-with-lease on your own branch, after saying why.",
    )
    ∷ (
      "no-verify", "No --no-verify. It skips the pre-commit contracts and cannot be audited.",
      "Fix what the hook reports, then commit normally.",
    )
    ∷ (
      "staged-screenshot", "Screenshot files from testing must never be committed.",
      "Unstage them: git restore --staged <file>, and add them to .gitignore.",
    )
    ∷ (
      "staged-secret", "Secrets and key files must never be committed.",
      "Unstage the file, rotate the secret if it was ever committed, and add it to .gitignore.",
    )
    ∷ (
      "read-dotenv",
      "Never read .env or secret files directly; load them into the environment instead.",
      "Source the file in your own shell (set -a; source .env; set +a) without printing it.",
    )
    ∷ (
      "dependency-force", "No --force or --legacy-peer-deps on installs. It hides a real conflict.",
      "Resolve the conflicting versions.",
    )
    ∷ (
      "pr-structure",
      "A PR description is a formal document with headed sections for what changed, why, the impact and how it was checked.",
      "Use the PR layout, see docs/writing-templates.md.",
    )
    ∷ (
      "voice-pr-text",
      "PR titles and bodies are written in the developer's voice, with no AI-tells.",
      "Rewrite it plain and short, see docs/voice-style.md, and run check_voice on the draft.",
    )
    ∷ []

unfoldable pub rule_text : String → List (String × String × String) → String × String
rule_text rule [] = ("", "")
rule_text rule ((r, said, instead) ∷ rest) =
    let later = rule_text rule rest in if r == rule then (said, instead) else later

-- Violation.text
unfoldable pub violation_text : Violation → String
unfolding rule_text
violation_text v =
    let (said, instead) = rule_text v.rule rules in
    str_append "[YOUK contract: " (
      str_append v.rule (
        str_append "] " (
          str_append said (
            str_append " " (
              str_append v.message (
                str_append " " (
                  str_append instead (
                    str_append " (Deliberate exception: launch with YOUK_GUARD_OFF="
                      (str_append v.rule ").")))))))))

-- DEFAULT_BRANCHES
abbrev pub is_default : String → Bool
is_default branch = branch == "main" || branch == "master"

abbrev pub readers : List String
readers =
    "cat" ∷ "head" ∷ "tail" ∷ "less" ∷ "more" ∷ "bat" ∷ "nl" ∷ "tac" ∷ "grep" ∷ "egrep" ∷ "fgrep"
    ∷ "rg" ∷ "sed" ∷ "awk" ∷ "cut" ∷ "sort" ∷ "strings" ∷ "xxd" ∷ "od" ∷ "diff" ∷ "wc" ∷ "jq"
    ∷ "tee" ∷ []

abbrev pub package_managers : List String
package_managers = "npm" ∷ "pnpm" ∷ "yarn" ∷ []

abbrev pub install_verbs : List String
install_verbs = "install" ∷ "i" ∷ "ci" ∷ "add" ∷ "update" ∷ "upgrade" ∷ []

abbrev pub safe_suffixes : List String
safe_suffixes = "example" ∷ "sample" ∷ "template" ∷ "dist" ∷ "defaults" ∷ []

-- What is the system's, git's, or a regular expression's: os.path.basename, str.rstrip("/"), the last part of a text
-- at a separator, str.endswith, the patterns _DOTENV, _SCREENSHOT and _SECRET_FILE, a cluster of
-- short options with a letter, os.path.join, the branch and the files newly staged in a directory.
pub record Shell : Type 0 where
  pub basename : String → String
  pub strip_slashes : String → String
  pub last_part : String → String → String
  pub ends_with : String → String → Bool
  pub like_dotenv : String → Bool
  pub like_screenshot : String → Bool
  pub like_secret : String → Bool
  pub has_short : String → String → Bool
  pub within_directory : String → String → String
  pub current_branch : String → String
  pub newly_staged : String → List String

pub record GitCall : Type 0 where
  pub sub : String
  pub args : List String
  pub directory : Option String

-- The loop of _git_call, after the word `git`.
unfoldable pub git_options : List String → Option String → Option GitCall
git_options [] directory = none
git_options (t ∷ []) directory =
    if starts_with t "-" then none else some (record { sub = t; args = []; directory = directory })
git_options (t ∷ u ∷ rest) directory = elim (t == "-C") [
  | true ↦ git_options rest (some u)
  | false ↦ elim (t == "-c") [
    | true ↦ git_options rest directory
    | false ↦ elim (starts_with t "-") [
      | true ↦ git_options (u ∷ rest) directory
      | false ↦ some (record { sub = t; args = u ∷ rest; directory = directory })
    ]
  ]
]

-- _creates_or_switches_branch
unfoldable pub switches_branch : String → List String → Bool
unfolding any
switches_branch sub args =
    if sub == "switch"
    then true
    else if sub == "checkout"
    then any (λ a. a == "-b" || a == "-B") args
      || elim args [ [] ↦ false | a ∷ as' ↦ not (starts_with a "-") && not (is_default a) ]
    else false

-- `positional[1:]`: the first is the remote.
abbrev pub without_first : List String → List String
without_first [] = []
without_first (x ∷ xs) = xs

unfoldable pub pushed_refs : List String → List String
unfolding select
pushed_refs args = without_first (select (λ a. not (starts_with a "-")) args)

abbrev pub when : Bool → Violation → List Violation
when true v = v ∷ []
when false v = []
