-- ===== src/Routing/Tests.antt =====
-- routing.py at small inputs: two entries of the routes file and a session of one task.
use youk.Prelude.{max, String, false, none, some, [], ◌∷◌, ◌≡◌, refl, arith, Texts, within}
use youk.Routing.Size.{s, m, xl, size_of, SizeConfig, score_size}
use youk.Routing.Size.Best.{ScoreOutcome, score_size_lem}
use youk.Routing.Escalation.{write_scope_escalation}
use youk.Routing.Decision.{IntentBrief, Routes, Session}
use youk.Routing.Route.Floor.{floor_of}
use youk.Routing.Route.Once.{Unblocked, Decides, write_scope_escalation-route_task}

abbrev same : String → String
same t = t

abbrev plain : Texts
plain = record { lower = same; upper = same; strip = same; words = λ t. t ∷ [] }

abbrev medium_config : SizeConfig
medium_config = record {
  signals = "add" ∷ "api" ∷ [];
  negative_signals = "typo" ∷ [];
  ceremony = "standard";
  skills = "dev-loop" ∷ [];
  nfr_mode = "full";
}

abbrev small_config : SizeConfig
small_config = record {
  signals = "rename" ∷ [];
  negative_signals = [];
  ceremony = "none";
  skills = [];
  nfr_mode = "fast_path_2q";
}

abbrev routes : Routes
routes = record { task_sizes = ("M", medium_config) ∷ ("S", small_config) ∷ []; token_budgets = [] }

abbrev no_brief : IntentBrief
no_brief = record {
  ambiguity_detected = false;
  fork_question = "";
  clarifying_questions = [];
  translation_risk = "";
  translation_question = "";
  estimated_size = "";
}

abbrev empty_session : Session
empty_session = record {
  escalations = λ k. none;
  breadcrumbs = λ k. none;
  medium_questions = λ k. none;
  sizing_log = [];
}

add_rename-M : score_size (λ t. within t "rename and add api") 4 routes.task_sizes ≡ some m
unfolding score_size
add_rename-M = refl

typo-S : score_size (λ t. within t "rename add typo") 4 routes.task_sizes ≡ some s
unfolding score_size
typo-S = refl

score_size_lem_example :
    ScoreOutcome
      (λ t. within t "add api")
      2
      routes.task_sizes
      (score_size (λ t. within t "add api") 2 routes.task_sizes)
score_size_lem_example = score_size_lem (λ t. within t "add api") 2 routes.task_sizes

add_api-Unblocked : Unblocked plain within routes "add api" no_brief m
unfolding score_size
add_api-Unblocked = record { clear = refl; safe = λ e. cc e; scored = refl }

rename-Unblocked : Unblocked plain within routes "rename" no_brief s
unfolding score_size
rename-Unblocked = record { clear = refl; safe = λ e. cc e; scored = refl }

write_scope_escalation-route_task_example :
    (d : Decides plain within routes "add api" [] no_brief "p"
      (record empty_session {
        escalations =
            (write_scope_escalation plain "p" "add api" "deeper" "XL" "challenge"
              empty_session.escalations).1;
      })
      (max (floor_of plain within routes m no_brief) 5))
    × Decides plain within routes "rename" [] no_brief "p" d.after
        (floor_of plain within routes s no_brief)
unfolding size_of
write_scope_escalation-route_task_example =
    write_scope_escalation-route_task plain within routes "add api" "rename" [] no_brief no_brief
      "p" empty_session m s xl "deeper" "XL" "challenge" add_api-Unblocked rename-Unblocked refl
      (omega arith)
