-- ===== src/Routing/Route.antt =====
-- route_task of servers/core/src/routing.py: the size of a task and how it is to be worked on.
pub mod Raising
pub mod Floor
pub mod Once
use Prim.Native.String.{◌++◌ as str_append}
use youk.Prelude.{
  ℕ, String, Bool, true, false, not, ◌&&◌, Option, none, some, List, [], ◌∷◌, ◌++◌, ◌==◌,
  if◌then◌else◌, length, any, contains, ltb, leb, Texts, head, within,
}
use youk.Routing.Size.{
  TaskSize, m, size_of, size_value, rank, Sizes, SizeConfig, config_of, score_size,
}
use youk.Routing.Escalation.{Escalations, at_least_m, consume_scope_escalation}
use youk.Routing.Decision.{
  IntentBrief, Routes, SoftRuleWarning, RoutingDecision, Breadcrumb, SizingDecision, Session,
  ambiguity_question, high_risk_question, medium_risk_question, blocked_on,
}

-- The larger of the two sizes, what the brief estimated, and whether it estimated too little.
unfoldable pub resolve_size : TaskSize → IntentBrief → TaskSize × String × Bool
unfolding size_of
resolve_size deterministic brief = elim (size_of brief.estimated_size) [
  | none ↦ (deterministic, "", false)
  | some estimate ↦
      if ltb (rank estimate) (rank deterministic)
      then (deterministic, size_value estimate, true)
      else (estimate, size_value estimate, false)
]

unfoldable pub raise_size : TaskSize → Option TaskSize → TaskSize × Bool
raise_size size none = (size, false)
raise_size size (some floor) = if ltb (rank size) (rank floor) then (floor, true) else (size, false)

unfoldable pub budget_of : String → List (String × ℕ) → ℕ
budget_of name [] = 0
budget_of name ((n, b) ∷ rest) = let later = budget_of name rest in if n == name then b else later

abbrev pub warn : Bool → SoftRuleWarning → List SoftRuleWarning
warn true w = w ∷ []
warn false w = []

unfoldable pub warnings_of : TaskSize → List String → String → List SoftRuleWarning
unfolding contains
warnings_of size invoked question =
    warn (at_least_m size && not (contains invoked "nfr_check")) (record {
      rule_id = "nfr-before-m-tasks";
      name = "NFR check before M+ tasks";
      message =
          str_append "Sized as "
            (str_append (size_value size) " — NFR check recommended before coding.");
    })
    ++ warn (leb 4 (rank size) && not (contains invoked "write_spec")) (record {
      rule_id = "spec-before-l-tasks";
      name = "write-spec before L/XL tasks";
      message =
          str_append "Sized as "
            (str_append (size_value size) " — write-spec recommended before dev-loop.");
    })
    ++ warn (not (question == "") && at_least_m size) (record {
      rule_id = "medium-translation-risk";
      name = "Medium translation risk";
      message = str_append "Translation risk is medium. Surface this before coding: " question;
    })

unfoldable pub join : String → List String → String
join separator [] = ""
join separator (t ∷ []) = t
join separator (t ∷ u ∷ rest) = str_append t (str_append separator (join separator (u ∷ rest)))

unfoldable pub plan_hook_of : TaskSize → List String → String
unfolding join
plan_hook_of size [] = ""
plan_hook_of size (skill ∷ skills) =
    if at_least_m size
    then str_append (size_value size) (
        str_append " task — " (
          str_append (join " → " (skill ∷ skills)) (
            str_append ". Starting with "
              (str_append skill ". Redirect with one line if wrong, otherwise proceeding."))))
    else ""

abbrev pub overeng_terms : List String
overeng_terms =
    "extensible" ∷ "pluggable" ∷ "generic" ∷ "flexible" ∷ "reusable" ∷ "for all" ∷ "future-proof"
    ∷ "future proof" ∷ "scalable" ∷ "modular" ∷ "configurable" ∷ "abstraction" ∷ "framework"
    ∷ "platform" ∷ "general-purpose" ∷ []

abbrev pub note_breadcrumb : String → Breadcrumb → Session → Session
note_breadcrumb slug b session = record session {
  breadcrumbs = λ k. if k == slug then some b else session.breadcrumbs k;
}

abbrev pub note_question : String → String → Session → Session
note_question slug question session = if question == "" then session else record session {
  medium_questions = λ k. if k == slug then some question else session.medium_questions k;
}

-- `signal_in` is _signal_in: a regular expression on the lower-case text.
module _ (texts : Texts) (signal_in : String → String → Bool) (routes : Routes) where
  -- log_sizing_decision refuses a blank task; the refusal is passed over.
  unfoldable pub log_size : SizingDecision → Session → Session
  log_size entry session =
      if texts.strip entry.task == ""
      then session
      else record session { sizing_log = session.sizing_log ++ entry ∷ [] }

  unfoldable pub decision_for :
      String → List String → String → TaskSize → Bool → Bool → RoutingDecision
  unfolding config_of warnings_of plan_hook_of budget_of any
  decision_for task invoked question size mismatch raised =
      let c = config_of (size_value size) routes.task_sizes in
      record {
        task = task;
        size = size;
        ceremony = c.ceremony;
        skills = c.skills;
        nfr_mode = c.nfr_mode;
        warnings = warnings_of size invoked question;
        token_budget = budget_of (size_value size) routes.token_budgets;
        plan_hook = plan_hook_of size c.skills;
        blocked = false;
        collapsing_question = "";
        overengineering_flag =
            at_least_m size && any (λ t. within t (texts.lower task)) overeng_terms;
        size_mismatch_flag = mismatch;
        scope_escalated = raised;
      }

  -- The end of route_task: the decision, and the breadcrumb from size M on.
  unfoldable pub conclude :
      String
      → List String
      → IntentBrief
      → String
      → TaskSize
      → Bool
      → Bool
      → Session
      → RoutingDecision × Session
  unfolding decision_for head
  conclude task invoked brief slug size mismatch raised session = (
    decision_for task invoked (medium_risk_question brief) size mismatch raised,
    if at_least_m size
        then note_breadcrumb slug (record { task = head 200 task; size = size_value size }) session
        else session,
  )

  -- What follows once the keywords of the task are scored.
  unfoldable pub settle :
      String → List String → IntentBrief → String → TaskSize → Session → RoutingDecision × Session
  unfolding resolve_size raise_size conclude log_size consume_scope_escalation
  settle task invoked brief slug deterministic session =
      let resolved = resolve_size deterministic brief in
      let logged =
        log_size
          (record {
            task = task;
            deterministic_size = size_value deterministic;
            llm_estimated_size = resolved.1;
            resolved_size = size_value resolved.0;
            mismatch_flag = resolved.2;
          })
          session in
      let consumed = consume_scope_escalation slug logged.escalations in
      let (size, raised) = raise_size resolved.0 consumed.0 in
      conclude task invoked brief slug size resolved.2 raised
        (record logged { escalations = consumed.1 })

  -- `none`: _score_size raises.
  unfoldable pub route_task :
      String → List String → IntentBrief → String → Session → Option RoutingDecision × Session
  unfolding blocked_on settle score_size
  route_task task invoked brief slug session =
      if brief.ambiguity_detected
      then (some (blocked_on task (ambiguity_question brief)), session)
      else if brief.translation_risk == "high"
      then (some (blocked_on task (high_risk_question brief)), session)
      else (let asked = note_question slug (medium_risk_question brief) session in
          elim (score_size (λ t. signal_in t (texts.lower task)) (length (texts.words task))
            routes.task_sizes) [
              | none ↦ (none, asked)
              | some deterministic ↦
                  let (decision, after) = settle task invoked brief slug deterministic asked in
                  (some decision, after)
            ])
