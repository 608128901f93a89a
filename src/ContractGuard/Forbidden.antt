-- ===== src/ContractGuard/Forbidden.antt =====
-- What the contracts of servers/shared/contract_guard.py forbid in a command, said of its words.
use text.Mathlib.Text.{starts_with}
use youk.Prelude.{String, true, false, Option, none, some, List, [], ◌∷◌, ◌++◌, ◌≡◌, ◌≢◌, ◌⊎◌, Memᴰ}
use youk.ContractGuard.Words.{Shell, GitCall}
use youk.ContractGuard.Reports.{
  Rule, on_default, push_default, force_push, no_verify, dependency_force, read_dotenv,
}

abbrev pub IsOption : String → Type 0
IsOption t = starts_with t "-" ≡ true

abbrev pub IsWord : String → Type 0
IsWord t = starts_with t "-" ≡ false

abbrev pub IsDefault : String → Type 0
IsDefault branch = (branch ≡ "main") ⊎ (branch ≡ "master")

-- The words after `git`: options, -C with a directory, -c with a setting, then the subcommand.
pub data Options : List String → Option String → GitCall → Type 0 where
  subcommand :
      {t : String} {rest : List String} {d : Option String}
      → IsWord t
      → Options (t ∷ rest) d (record { sub = t; args = rest; directory = d })
  directory :
      {t u : String} {rest : List String} {d : Option String} {c : GitCall}
      → t ≡ "-C"
      → Options rest (some u) c
      → Options (t ∷ u ∷ rest) d c
  setting :
      {t u : String} {rest : List String} {d : Option String} {c : GitCall}
      → t ≡ "-c"
      → Options rest d c
      → Options (t ∷ u ∷ rest) d c
  other :
      {t : String} {rest : List String} {d : Option String} {c : GitCall}
      → IsOption t
      → t ≢ "-C"
      → t ≢ "-c"
      → Options rest d c
      → Options (t ∷ rest) d c

-- The word at the position of the remote, and a ref after it.
pub record NamesRef (args : List String) (ref : String) : Type 0 where
  pub before : List String
  pub remote : String
  pub after : List String
  pub split : args ≡ before ++ remote ∷ after
  pub options : (a : String) → Memᴰ a before → IsOption a
  pub word : IsWord remote
  pub among : Memᴰ ref after
  pub is_ref : IsWord ref

module _ (shell : Shell) (cwd : String) where
  pub data IsGit : List String → GitCall → Type 0 where
    is_git :
        {name : String} {rest : List String} {c : GitCall}
        → shell.basename name ≡ "git"
        → Options rest none c
        → IsGit (name ∷ rest) c

  -- The directory that a call works in.
  pub data WorksIn : Option String → String → Type 0 where
    here : WorksIn none cwd
    blank : {d : String} → d ≡ "" → WorksIn (some d) cwd
    there : {d : String} → d ≢ "" → WorksIn (some d) (shell.within_directory cwd d)

  -- Creating a branch, or going to one; `git switch` counts whatever the branch.
  pub data Switches (tokens : List String) : Type 0 where
    by_switch : {c : GitCall} → IsGit tokens c → c.sub ≡ "switch" → Switches tokens
    creates :
        {c : GitCall}
        → IsGit tokens c
        → c.sub ≡ "checkout"
        → Memᴰ "-b" c.args ⊎ Memᴰ "-B" c.args
        → Switches tokens
    goes_to :
        {c : GitCall} {branch : String} {rest : List String}
        → IsGit tokens c
        → c.sub ≡ "checkout"
        → c.args ≡ branch ∷ rest
        → IsWord branch
        → ¬ IsDefault branch
        → Switches tokens

  abbrev pub NoneSwitches : List (List String) → Type 0
  NoneSwitches before = (tokens : List String) → Memᴰ tokens before → ¬ Switches tokens

  -- What a ref is pushed to: the part after the last colon, with or without refs/heads/.
  abbrev pub ToDefault : String → Type 0
  ToDefault ref =
      IsDefault (shell.last_part ":" ref)
      ⊎ ((shell.last_part ":" ref ≡ "refs/heads/main")
          ⊎ (shell.last_part ":" ref ≡ "refs/heads/master"))

  abbrev pub HasShort : String → List String → Type 0
  HasShort letter args = (a : String) × Memᴰ a args × (shell.has_short letter a ≡ true)

  -- A file named like .env that is not a template of one.
  pub record IsDotenv (path : String) : Type 0 where
    pub named : shell.like_dotenv (shell.basename (shell.strip_slashes path)) ≡ true
    pub secret :
        ¬ Memᴰ
          (shell.last_part "." (shell.basename (shell.strip_slashes path)))
          ("example" ∷ "sample" ∷ "template" ∷ "dist" ∷ "defaults" ∷ [])
        ⊎ (shell.basename (shell.strip_slashes path) ≡ ".env")

  abbrev pub reading : List String
  reading =
      "cat" ∷ "head" ∷ "tail" ∷ "less" ∷ "more" ∷ "bat" ∷ "nl" ∷ "tac" ∷ "grep" ∷ "egrep" ∷ "fgrep"
      ∷ "rg" ∷ "sed" ∷ "awk" ∷ "cut" ∷ "sort" ∷ "strings" ∷ "xxd" ∷ "od" ∷ "diff" ∷ "wc" ∷ "jq"
      ∷ "tee" ∷ []

  abbrev pub IsVerb : String → Type 0
  IsVerb t = Memᴰ t ("install" ∷ "i" ∷ "ci" ∷ "add" ∷ "update" ∷ "upgrade" ∷ [])

  -- A verb of installing is one of the two words after the name.
  pub data Installs : List String → Type 0 where
    in_first : {t : String} {rest : List String} → IsVerb t → Installs (t ∷ rest)
    in_second : {t u : String} {rest : List String} → IsVerb u → Installs (t ∷ u ∷ rest)

  -- The segment `tokens`, after those of `before`, does what the rule forbids.
  pub data Forbids : Rule → List (List String) → List String → Type 0 where
    commits :
        {before : List (List String)} {tokens : List String} {c : GitCall} {dir : String}
        → IsGit tokens c
        → c.sub ≡ "commit"
        → NoneSwitches before
        → WorksIn c.directory dir
        → IsDefault (shell.current_branch dir)
        → Forbids on_default before tokens
    pushes_ref :
        {before : List (List String)} {tokens : List String} {c : GitCall} {ref : String}
        → IsGit tokens c
        → c.sub ≡ "push"
        → ¬ Memᴰ "--delete" c.args
        → ¬ Memᴰ "-d" c.args
        → NamesRef c.args ref
        → ToDefault ref
        → Forbids push_default before tokens
    pushes_branch :
        {before : List (List String)} {tokens : List String} {c : GitCall} {dir : String}
        → IsGit tokens c
        → c.sub ≡ "push"
        → ¬ Memᴰ "--delete" c.args
        → ¬ Memᴰ "-d" c.args
        → ((ref : String) → ¬ NamesRef c.args ref)
        → NoneSwitches before
        → WorksIn c.directory dir
        → IsDefault (shell.current_branch dir)
        → Forbids push_default before tokens
    forces :
        {before : List (List String)} {tokens : List String} {c : GitCall}
        → IsGit tokens c
        → c.sub ≡ "push"
        → Memᴰ "--force" c.args ⊎ HasShort "f" c.args
        → ((a : String) → Memᴰ a c.args → starts_with a "--force-with-lease" ≡ false)
        → Forbids force_push before tokens
    skips_hooks :
        {before : List (List String)} {tokens : List String} {c : GitCall}
        → IsGit tokens c
        → ((c.sub ≡ "commit") ⊎ (c.sub ≡ "push")) × Memᴰ "--no-verify" c.args
          ⊎ (c.sub ≡ "commit") × HasShort "n" c.args
        → Forbids no_verify before tokens
    installs :
        {before : List (List String)} {name : String} {rest : List String}
        → Memᴰ (shell.basename name) ("npm" ∷ "pnpm" ∷ "yarn" ∷ [])
        → Installs rest
        → Memᴰ "--legacy-peer-deps" (name ∷ rest) ⊎ Memᴰ "--force" (name ∷ rest)
        → Forbids dependency_force before (name ∷ rest)
    prints :
        {before : List (List String)} {name path : String} {rest : List String}
        → Memᴰ (shell.basename name) reading
        → Memᴰ path rest
        → IsWord path
        → IsDotenv path
        → Forbids read_dotenv before (name ∷ rest)
