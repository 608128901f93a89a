-- ===== src/Routing/Decision.antt =====
-- The brief that route_task of servers/core/src/routing.py reads, and the decision that it answers.
use youk.Prelude.{ℕ, String, Bool, true, false, Option, List, [], ◌∷◌, ◌==◌, if◌then◌else◌}
use youk.Routing.Size.{TaskSize, m, Sizes}
use youk.Routing.Escalation.{Escalations}

-- What route_task reads of an intent brief; no brief is one whose fields are all empty.
pub record IntentBrief : Type 0 where
  pub ambiguity_detected : Bool
  pub fork_question : String
  pub clarifying_questions : List String
  pub translation_risk : String
  pub translation_question : String
  pub estimated_size : String

pub record Routes : Type 0 where
  pub task_sizes : Sizes
  pub token_budgets : List (String × ℕ)

pub record SoftRuleWarning : Type 0 where
  pub rule_id : String
  pub name : String
  pub message : String

-- The notes of a decision, which repeat its flags in words, are left out.
pub record RoutingDecision : Type 0 where
  pub task : String
  pub size : TaskSize
  pub ceremony : String
  pub skills : List String
  pub nfr_mode : String
  pub warnings : List SoftRuleWarning
  pub token_budget : ℕ
  pub plan_hook : String
  pub blocked : Bool
  pub collapsing_question : String
  pub overengineering_flag : Bool
  pub size_mismatch_flag : Bool
  pub scope_escalated : Bool

pub record Breadcrumb : Type 0 where
  pub task : String
  pub size : String

pub record SizingDecision : Type 0 where
  pub task : String
  pub deterministic_size : String
  pub llm_estimated_size : String
  pub resolved_size : String
  pub mismatch_flag : Bool

-- The files that route_task reads and writes, by slug.
pub record Session : Type 0 where
  pub escalations : Escalations
  pub breadcrumbs : String → Option Breadcrumb
  pub medium_questions : String → Option String
  pub sizing_log : List SizingDecision

-- `a or b`
abbrev pub or_else : String → String → String
or_else a b = if a == "" then b else a

abbrev pub first : List String → String
first [] = ""
first (q ∷ qs) = q

abbrev pub ambiguity_question : IntentBrief → String
ambiguity_question brief =
    or_else brief.fork_question
      (or_else (first brief.clarifying_questions) "Please clarify the scope before proceeding.")

abbrev pub high_risk_question : IntentBrief → String
high_risk_question brief =
    or_else brief.translation_question
      "What would you observe at the end of this that tells you it worked — in terms of your own experience, not the system's output?"

abbrev pub medium_risk_question : IntentBrief → String
medium_risk_question brief =
    if brief.translation_risk == "medium"
    then or_else brief.translation_question
        "What would a successful outcome look like from your perspective — not the system's output?"
    else ""

unfoldable pub blocked_on : String → String → RoutingDecision
blocked_on task question = record {
  task = task;
  size = m;
  ceremony = "blocked";
  skills = [];
  nfr_mode = "none";
  warnings = [];
  token_budget = 0;
  plan_hook = "";
  blocked = true;
  collapsing_question = question;
  overengineering_flag = false;
  size_mismatch_flag = false;
  scope_escalated = false;
}
