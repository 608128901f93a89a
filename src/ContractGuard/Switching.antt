-- ===== src/ContractGuard/Switching.antt =====
-- Which segments contract_guard.py takes to create a branch or to go to one.
use text.Mathlib.Text.{starts_with}
use youk.Prelude.{
  String, true, false, not, ◌&&◌, ◌||◌, List, [], ◌∷◌, ◌==◌, any, any-mem, any-of_mem, any-false,
  ◌≡◌, ◌⊎◌, inl, inr, refl, sym, ap, ◌∙◌, subst, eq_iff, Memᴰ, Bool-cases, Option-cases,
}
use youk.ContractGuard.Words.{Shell, GitCall, is_default, switches_branch}
use youk.ContractGuard.Segments.{git_call, short_cluster}
use youk.ContractGuard.Forbidden.{
  IsWord, IsDefault, IsGit, Switches, by_switch, creates, goes_to, NoneSwitches, HasShort,
}
use youk.ContractGuard.Exact.{switches}
use youk.ContractGuard.Calls.{git_call-IsGit, IsGit-git_call}
use youk.ContractGuard.Targets.{is_default_iff}
use youk.ContractGuard.Reflect.{both, either, is_false, false_of_not, none_any, or_true, both_true}

module _ (shell : Shell) (cwd : String) where
  short_cluster-HasShort :
      (args : List String) (letter : String)
      → short_cluster shell args letter ≡ true
      → HasShort shell cwd letter args
  unfolding short_cluster
  short_cluster-HasShort args letter h = any-mem (λ a. shell.has_short letter a) args h

  HasShort-short_cluster :
      (args : List String) (letter : String)
      → HasShort shell cwd letter args
      → short_cluster shell args letter ≡ true
  unfolding short_cluster
  HasShort-short_cluster args letter (a, i, h) = any-of_mem (λ a. shell.has_short letter a) args i h

  checkout-Switches :
      (tokens : List String) (c : GitCall) (args : List String)
      → IsGit shell cwd tokens c
      → c.sub ≡ "checkout"
      → c.args ≡ args
      → (any (λ a. a == "-b" || a == "-B") args
          || elim args [ [] ↦ false | a ∷ as' ↦ not (starts_with a "-") && not (is_default a) ])
        ≡ true
      → Switches shell cwd tokens
  unfolding any
  checkout-Switches tokens c [] g e same h = cc h
  checkout-Switches tokens c (a ∷ args) g e same h =
      elim (either (any (λ x. x == "-b" || x == "-B") (a ∷ args)) _ h) [
        | inl made ↦
            let (x, i, k) = any-mem (λ x. x == "-b" || x == "-B") (a ∷ args) made in
            let j : Memᴰ x c.args = subst (Memᴰ x) (sym same) i in
            elim (either (x == "-b") (x == "-B") k) [
              | inl b ↦ creates g e (inl (subst (λ t. Memᴰ t c.args) ((eq_iff x "-b").0 b) j))
              | inr b ↦ creates g e (inr (subst (λ t. Memᴰ t c.args) ((eq_iff x "-B").0 b) j))
            ]
        | inr goes ↦
            let (word, away) = both (not (starts_with a "-")) (not (is_default a)) goes in
            goes_to g e same (is_false _ word)
              λ d. let d' = (is_default_iff a).1 d in let f = is_false _ away in cc (d', f)
      ]

  switches_branch-Switches :
      (tokens : List String) (c : GitCall)
      → IsGit shell cwd tokens c
      → switches_branch c.sub c.args ≡ true
      → Switches shell cwd tokens
  unfolding switches_branch
  switches_branch-Switches tokens c g h = elim (Bool-cases (c.sub == "switch")) [
    | inl is_switch ↦ by_switch g ((eq_iff c.sub "switch").0 is_switch)
    | inr other ↦ elim (Bool-cases (c.sub == "checkout")) [
      | inr away ↦ let h' : false ≡ true = rw (switches_branch, other, away) at h in cc h'
      | inl is_checkout ↦
          checkout-Switches tokens c c.args g ((eq_iff c.sub "checkout").0 is_checkout) refl
            (rw (switches_branch, other, is_checkout) at h)
    ]
  ]

  checkout_made :
      (args : List String)
      → Memᴰ "-b" args ⊎ Memᴰ "-B" args
      → switches_branch "checkout" args ≡ true
  unfolding switches_branch
  checkout_made args (inl i) =
      let found = any-of_mem (λ x. x == "-b" || x == "-B") args i refl in rw found refl
  checkout_made args (inr i) =
      let found = any-of_mem (λ x. x == "-b" || x == "-B") args i refl in rw found refl

  checkout_goes :
      (branch : String) (rest : List String)
      → IsWord branch
      → ¬ IsDefault branch
      → switches_branch "checkout" (branch ∷ rest) ≡ true
  unfolding switches_branch
  checkout_goes branch rest word away =
      let f = false_of_not (is_default branch) λ h. away ((is_default_iff branch).0 h) in
      or_true _ (both_true (ap not word) (ap not f))

  Switches-switches :
      (tokens : List String) → Switches shell cwd tokens → switches shell cwd tokens ≡ true
  unfolding switches switches_branch
  Switches-switches tokens (by_switch {c = c} g e) =
      rw (switches, IsGit-git_call shell cwd g) (ap (λ t. switches_branch t c.args) e)
  Switches-switches tokens (creates {c = c} g e i) =
      rw (switches, IsGit-git_call shell cwd g)
        (ap (λ t. switches_branch t c.args) e ∙ checkout_made c.args i)
  Switches-switches tokens (goes_to {c = c} {branch = branch} {rest = rest} g e same word away) =
      rw (switches, IsGit-git_call shell cwd g)
        (ap (λ t. switches_branch t c.args) e
          ∙ ap (switches_branch "checkout") same
          ∙ checkout_goes branch rest word away)

  switches-Switches :
      (tokens : List String) → switches shell cwd tokens ≡ true → Switches shell cwd tokens
  unfolding switches
  switches-Switches tokens h = elim (Option-cases (git_call shell tokens)) [
    | inl plain ↦ let h' : false ≡ true = rw (switches, plain) at h in cc h'
    | inr (c, g) ↦
        switches_branch-Switches tokens c (git_call-IsGit shell cwd tokens g)
          (rw (switches, g) at h)
  ]

  pub NoneSwitches-any :
      (before : List (List String))
      → NoneSwitches shell cwd before
      → any (switches shell cwd) before ≡ false
  NoneSwitches-any before none_does =
      none_any (switches shell cwd) before
        λ t i. false_of_not _ λ h. none_does t i (switches-Switches t h)

  pub any-NoneSwitches :
      (before : List (List String))
      → any (switches shell cwd) before ≡ false
      → NoneSwitches shell cwd before
  any-NoneSwitches before h = λ t i does.
      let away = any-false (switches shell cwd) before h i in
      let here = Switches-switches t does in cc (away, here)
