-- ===== src/TaskContract/Tests.antt =====
-- task_contract.py at small inputs: one contract on file, presented and approved.
use youk.Prelude.Memᴰ
use youk.Prelude.{
  max, String, Bool, true, false, none, some, List, [], ◌∷◌, ◌==◌, if◌then◌else◌, Texts, within,
  ◌≡◌, refl, sym, subst, any,
}
use youk.Routing.Size.{xs, l, size_of, score_size}
use youk.Routing.Decision.{IntentBrief, Routes, Session}
use youk.Routing.Route.Floor.{floor_of}
use youk.Routing.Route.Once.{Unblocked, Decides}
use youk.TaskGraph.Store.{empty_db}
use youk.TaskGraph.Reach.{empty_db-IsValid}
use youk.TaskContract.Frames.{f1, f2, f3, f4, f5, f6, f7}
use youk.TaskContract.Provoke.{RiskEntry, cite, accepted_before, space_join}
use youk.TaskContract.Provoke.Cited.{Lowers}
use youk.TaskContract.Desk.{Contract, Desk, Formats}
use youk.TaskContract.Generate.{Context, generate_task_contract}
use youk.TaskContract.Generate.Presents.{GenerateOutcome, generate_task_contract_lem}
use youk.TaskContract.Approve.{
  approve_task_contract, check_task_contract_gate, find_file, unresolved_in,
}
use youk.TaskContract.Approve.Opens.{GateOutcome, check_task_contract_gate_lem}
use youk.TaskContract.Approve.Effects.{ApproveOutcome, approve_task_contract_lem}
use youk.TaskContract.Approve.Escalates.{one_above, approve_task_contract-route_task}

abbrev lower : String → String
lower t = if t == "F5 TRUST hooks fail" then "f5 trust hooks fail" else t

abbrev two_words : String → List String
two_words t = "hooks" ∷ "fail" ∷ []

abbrev texts : Texts
texts = record { lower = lower; upper = λ t. t; strip = λ t. t; words = two_words }

abbrev formats : Formats
formats = record {
  splitlines = λ t. t ∷ [];
  decimal = λ n. "1";
  padded = λ n. "001";
  file_slug = λ t. t;
  provocation_key = λ t. some "P1";
  provocation_parts = λ t. none;
  short_hash = λ t. t;
}

abbrev accepted : RiskEntry
accepted = record { contract_id = "TC-1"; risk = "hooks fail"; frame = "F5 TRUST" }

abbrev context : Context
context = record {
  today = "20260101";
  date = "2026-01-01";
  project = "p";
  risks = accepted ∷ [];
  gaps = [];
  causes = [];
}

abbrev contract : Contract
contract = record {
  contract_id = "TC-20260101-001";
  task = "add a hook";
  size = "L";
  date = "2026-01-01";
  project = "p";
  as_presented = "P1 open";
  as_approved = none;
  dispositions = [];
  edit_rate = (0, 0);
  unresolved_provocations = [];
  escalations = [];
}

abbrev desk : Desk
desk = record {
  contracts = ("2026-01-01-add-TC-20260101-001.md", some contract) ∷ [];
  risk_ledger = accepted ∷ [];
  escalations = λ k. none;
  graph = empty_db;
}

abbrev by_name : String → String → Bool
by_name a b = true

generate_task_contract_lem_example :
    GenerateOutcome texts formats [] "add a hook" "L" context desk
      (generate_task_contract texts formats [] "add a hook" "L" context desk)
generate_task_contract_lem_example =
    generate_task_contract_lem texts formats [] "add a hook" "L" context desk

check_task_contract_gate_lem_example :
    GateOutcome texts by_name "20260101" "XL" desk.contracts
      (check_task_contract_gate texts by_name "20260101" "XL" desk.contracts)
check_task_contract_gate_lem_example =
    check_task_contract_gate_lem texts by_name "20260101" "XL" desk.contracts

approve_task_contract_lem_example :
    ApproveOutcome texts formats "TC-20260101-001" "done" "20260101" desk
      (approve_task_contract texts formats "TC-20260101-001" "done" [] desk)
approve_task_contract_lem_example =
    approve_task_contract_lem texts formats "TC-20260101-001" "done" "20260101" [] desk
      empty_db-IsValid

-- A line that still shows the whole vocabulary leaves its provocation unresolved.
one_undecided :
    unresolved_in texts formats
      ("P1 [F5 TRUST] → IN-SCOPE | DEFER | ACCEPT-RISK | ESCALATE | N/A" ∷ "P1 DEFER" ∷ [])
    ≡ "P1" ∷ []
unfolding unresolved_in
one_undecided = refl

accepted-Lowers : Lowers texts (accepted ∷ [])
accepted-Lowers f1 e i =
    subst (λ (r : RiskEntry). within "F1" (lower (space_join r.frame r.risk)) ≡ false)
      (sym (Memᴰ.eq_of_singleton i)) refl
accepted-Lowers f2 e i =
    subst (λ (r : RiskEntry). within "F2" (lower (space_join r.frame r.risk)) ≡ false)
      (sym (Memᴰ.eq_of_singleton i)) refl
accepted-Lowers f3 e i =
    subst (λ (r : RiskEntry). within "F3" (lower (space_join r.frame r.risk)) ≡ false)
      (sym (Memᴰ.eq_of_singleton i)) refl
accepted-Lowers f4 e i =
    subst (λ (r : RiskEntry). within "F4" (lower (space_join r.frame r.risk)) ≡ false)
      (sym (Memᴰ.eq_of_singleton i)) refl
accepted-Lowers f5 e i =
    subst (λ (r : RiskEntry). within "F5" (lower (space_join r.frame r.risk)) ≡ false)
      (sym (Memᴰ.eq_of_singleton i)) refl
accepted-Lowers f6 e i =
    subst (λ (r : RiskEntry). within "F6" (lower (space_join r.frame r.risk)) ≡ false)
      (sym (Memᴰ.eq_of_singleton i)) refl
accepted-Lowers f7 e i =
    subst (λ (r : RiskEntry). within "F7" (lower (space_join r.frame r.risk)) ≡ false)
      (sym (Memᴰ.eq_of_singleton i)) refl

-- The citation that the entry above leads to.
accepted_zero_times : cite texts f5 "add a hook" (accepted ∷ []) [] [] ≡ accepted_before 0
unfolding cite
accepted_zero_times = refl

abbrev no_routes : Routes
no_routes = record { task_sizes = []; token_budgets = [] }

abbrev no_brief : IntentBrief
no_brief = record {
  ambiguity_detected = false;
  fork_question = "";
  clarifying_questions = [];
  translation_risk = "";
  translation_question = "";
  estimated_size = "";
}

abbrev session : Session
session = record {
  escalations = λ k. none;
  breadcrumbs = λ k. none;
  medium_questions = λ k. none;
  sizing_log = [];
}

add_a_hook-Unblocked : Unblocked texts within no_routes "add a hook" no_brief xs
unfolding score_size
add_a_hook-Unblocked = record { clear = refl; safe = λ e. cc e; scored = refl }

approve_task_contract-route_task_example :
    Decides texts within no_routes "add a hook" [] no_brief "p"
      (record session {
        escalations =
            (approve_task_contract texts formats "TC-20260101-001" "done"
              (("P1", "ESCALATE") ∷ [])
              desk).1.escalations;
      })
      (max (floor_of texts within no_routes xs no_brief) (one_above l))
unfolding find_file size_of any
approve_task_contract-route_task_example =
    approve_task_contract-route_task texts formats within no_routes "TC-20260101-001" "done"
      "2026-01-01-add-TC-20260101-001.md" (("P1", "ESCALATE") ∷ []) contract desk l xs "add a hook"
      [] no_brief session refl refl refl refl refl add_a_hook-Unblocked
