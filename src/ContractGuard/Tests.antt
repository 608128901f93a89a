-- ===== src/ContractGuard/Tests.antt =====
-- contract_guard.py at commands that are given in a checkout of the branch main.
use youk.Prelude.{String, true, none, List, [], ◌∷◌, ◌==◌, ◌≡◌, ◌↔◌, refl, within, Memᴰ}
use youk.ContractGuard.Words.{Violation, Shell}
use youk.ContractGuard.Evaluate.{Command, evaluate_bash}
use youk.ContractGuard.Reports.{push_default, rule_id, reports}
use youk.ContractGuard.Complete.{Broken, evaluate_bash_iff}

abbrev on_main : Shell
on_main = record {
  basename = λ t. t;
  strip_slashes = λ t. t;
  last_part = λ separator t. t;
  ends_with = λ suffix t. within suffix t;
  like_dotenv = λ t. within ".env" t;
  like_screenshot = λ t. within "screenshot" t;
  like_secret = λ t. within ".pem" t;
  has_short = λ letter a. a == "-f";
  within_directory = λ cwd directory. directory;
  current_branch = λ directory. "main";
  newly_staged = λ directory. [];
}

abbrev of_segments : List (List String) → Command on_main
of_segments segments = record { titles = []; bodies = []; segments = segments }

abbrev accepts_all : String → List String
accepts_all t = []

abbrev found : List (List String) → List Violation
found segments = evaluate_bash on_main accepts_all none [] "/p" (of_segments segments)

forced_push_found :
    reports "force-push" (found (("git" ∷ "push" ∷ "-f" ∷ "origin" ∷ "topic" ∷ []) ∷ [])) ≡ true
unfolding evaluate_bash
forced_push_found = refl

commit_found : reports "commit-on-default-branch" (found (("git" ∷ "commit" ∷ []) ∷ [])) ≡ true
unfolding evaluate_bash
commit_found = refl

-- The switch is to the default branch itself.
commit_after_switch_unseen :
    found (("git" ∷ "switch" ∷ "main" ∷ []) ∷ ("git" ∷ "commit" ∷ []) ∷ []) ≡ []
unfolding evaluate_bash
commit_after_switch_unseen = refl

-- HEAD is the default branch here.
push_of_head_unseen : found (("git" ∷ "push" ∷ "origin" ∷ "HEAD" ∷ []) ∷ []) ≡ []
unfolding evaluate_bash
push_of_head_unseen = refl

evaluate_bash_iff_example :
    (reports (rule_id push_default) (found (("git" ∷ "push" ∷ "origin" ∷ "main" ∷ []) ∷ [])) ≡ true)
    ↔ ((¬ Memᴰ {A = String} "all" [])
        × (¬ Memᴰ {A = String} (rule_id push_default) [])
        × Broken on_main accepts_all [] "/p"
            (of_segments (("git" ∷ "push" ∷ "origin" ∷ "main" ∷ []) ∷ []))
            push_default
            (("git" ∷ "push" ∷ "origin" ∷ "main" ∷ []) ∷ []))
evaluate_bash_iff_example =
    evaluate_bash_iff on_main accepts_all [] "/p"
      (of_segments (("git" ∷ "push" ∷ "origin" ∷ "main" ∷ []) ∷ [])) push_default none

leased_push_unreported :
    found (("git" ∷ "push" ∷ "--force-with-lease" ∷ "-f" ∷ "origin" ∷ "topic" ∷ []) ∷ []) ≡ []
unfolding evaluate_bash
leased_push_unreported = refl
