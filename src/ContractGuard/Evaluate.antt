-- ===== src/ContractGuard/Evaluate.antt =====
-- evaluate_bash and first_violation of servers/shared/contract_guard.py.
use Prim.Native.String.{◌++◌ as str_append}
use youk.Prelude.{
  String, Bool, false, not, ◌&&◌, Option, none, some, List, [], ◌∷◌, ◌++◌, if◌then◌else◌, select,
  contains, take,
}
use youk.Routing.Route.{join}
use youk.ContractGuard.Words.{Violation, Shell}
use youk.ContractGuard.Segments.{scan_segments}

module _ (shell : Shell) where
  -- The checks of a pull request's texts: the missing sections of a body, and the tells of a text.
  unfoldable pub missing_rules : (String → List String) → List String → List Violation
  unfolding join
  missing_rules validate [] = []
  missing_rules validate (body ∷ rest) =
      let later = missing_rules validate rest in
      elim (validate body) [
        | [] ↦ later
        | x ∷ xs ↦
            record {
              rule = "pr-structure";
              message = str_append "Missing sections: " (str_append (join ", " (x ∷ xs)) ".");
            }
            ∷ later
      ]

  unfoldable pub tell_rules : (String → List String) → List String → List Violation
  unfolding join take
  tell_rules voice_check [] = []
  tell_rules voice_check (text ∷ rest) =
      let later = tell_rules voice_check rest in
      elim (voice_check text) [
        | [] ↦ later
        | x ∷ xs ↦
            record {
              rule = "voice-pr-text";
              message = str_append "Tells found: " (str_append (join "; " (take 4 (x ∷ xs))) ".");
            }
            ∷ later
      ]

  -- A command as the patterns of the module take it apart.
  pub record Command : Type 0 where
    pub titles : List String
    pub bodies : List String
    pub segments : List (List String)

  -- `off` is YOUK_GUARD_OFF.
  unfoldable pub enabled : List String → String → Bool
  unfolding contains
  enabled off rule = not (contains off "all") && not (contains off rule)

  unfoldable pub evaluate_bash :
      (String → List String)
      → Option (String → List String)
      → List String
      → String
      → Command
      → List Violation
  unfolding enabled missing_rules tell_rules scan_segments select
  evaluate_bash validate voice_check off cwd command =
      select (λ (v : Violation). enabled off v.rule)
        ((if enabled off "pr-structure" then missing_rules validate command.bodies else [])
          ++ elim voice_check [
            | none ↦ []
            | some check ↦ tell_rules check (command.titles ++ command.bodies)
          ]
          ++ scan_segments shell cwd command.segments false)

  unfoldable pub first_violation :
      (String → List String)
      → Option (String → List String)
      → List String
      → String
      → Command
      → Option Violation
  unfolding evaluate_bash
  first_violation validate voice_check off cwd command =
      elim (evaluate_bash validate voice_check off cwd command) [ [] ↦ none | v ∷ vs ↦ some v ]
