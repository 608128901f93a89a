-- ===== src/TaskContract/Approve.antt =====
-- approve_task_contract and check_task_contract_gate of servers/core/src/task_contract.py.
pub mod Opens
pub mod Undecided
pub mod Effects
pub mod Escalates
use Prim.Native.String.{◌++◌ as str_append}
use text.Mathlib.Text.{starts_with}
use youk.Prelude.{
  ℕ, String, Bool, true, false, not, ◌&&◌, Option, none, some, List, [], ◌∷◌, ◌++◌, ◌==◌,
  if◌then◌else◌, length, max, sort_by, set_of, difference, Texts, within,
}
use youk.Routing.Size.{TaskSize, size_of}
use youk.Routing.Escalation.{Escalations, EscalateReply, write_scope_escalation}
use youk.Routing.Decision.{or_else}
use youk.TaskGraph.Create.{NewTask, CreateReply, create_task_graph}
use youk.TaskGraph.Store.{Db}
use youk.TaskContract.Frames.{at_least_l}
use youk.TaskContract.Provoke.{RiskEntry}
use youk.TaskContract.Desk.{Contract, Files, Desk, Formats, set_file, open_mark}

-- _NEXT_SIZE_UP.get(size, "L")
unfoldable pub next_size_up : String → String
next_size_up size =
    if size == "M" then "L" else if size == "L" then "XL" else if size == "XL" then "XL" else "L"

-- The first file of `glob(f"*{contract_id}*.md")`.
unfoldable pub find_file : String → Files → Option (String × Option Contract)
find_file contract_id [] = none
find_file contract_id ((name, c) ∷ rest) =
    let later = find_file contract_id rest in
    if within contract_id name then some (name, c) else later

-- A field that is only written when there is something to write.
abbrev pub or_kept {ℓ} : {A : Type ℓ} → List A → List A → List A
or_kept [] old = old
or_kept (x ∷ xs) old = x ∷ xs

pub record Saved : Type 0 where
  pub contract_id : String
  pub fields_edited : ℕ
  pub unresolved_provocations : List String
  pub escalations : List (String × EscalateReply)
  pub graph_node_id : Option String

pub data ApproveReply : Type 0 where
  not_found unparsable : ApproveReply
  saved : Saved → ApproveReply

module _ (texts : Texts) (formats : Formats) where
  -- The keys of the lines that still show the whole vocabulary.
  unfoldable pub unresolved_in : List String → List String
  unresolved_in [] = []
  unresolved_in (line ∷ rest) =
      let later = unresolved_in rest in
      if within open_mark line
      then (elim (formats.provocation_key line) [ none ↦ later | some key ↦ key ∷ later ])
      else later

  unfoldable pub find_provocation_text : List String → String → String × String
  find_provocation_text [] key = ("", "")
  find_provocation_text (line ∷ rest) key =
      let later = find_provocation_text rest key in
      if starts_with (texts.strip line) (str_append key " [")
      then (elim (formats.provocation_parts line) [
        | none ↦ ("", "")
        | some (frame, risk) ↦ (texts.strip frame, texts.strip risk)
      ])
      else later

  -- The entries that the ACCEPT-RISK dispositions append to the ledger.
  unfoldable pub accepted_risks : String → List String → List (String × String) → List RiskEntry
  unfolding find_provocation_text
  accepted_risks contract_id lines [] = []
  accepted_risks contract_id lines ((key, disposition) ∷ rest) =
      let later = accepted_risks contract_id lines rest in
      let (frame, risk) = find_provocation_text lines key in
      if texts.upper disposition == "ACCEPT-RISK"
      then record { contract_id = contract_id; risk = or_else risk key; frame = frame } ∷ later
      else later

  -- The ESCALATE dispositions, one signal each.
  unfoldable pub escalate_all :
      Contract
      → List String
      → List (String × String)
      → Escalations
      → List (String × EscalateReply) × Escalations
  unfolding find_provocation_text next_size_up write_scope_escalation
  escalate_all c lines [] files = ([], files)
  escalate_all c lines ((key, disposition) ∷ rest) files =
      if texts.upper disposition == "ESCALATE"
      then (let reason =
            or_else (find_provocation_text lines key).1
              (str_append "provocation " (str_append key " dispositioned ESCALATE")) in
          let (reply, after) =
            write_scope_escalation texts c.project c.task reason (next_size_up c.size)
              "task_contract_provocation" files in
          let (replies, last) = escalate_all c lines rest after in ((key, reply) ∷ replies, last))
      else escalate_all c lines rest files

  abbrev pub node_id : Contract → String
  node_id c = str_append "tc-" (formats.short_hash c.task)

  abbrev pub node_of : Contract → NewTask
  node_of c = record {
    id = node_id c;
    label = c.task;
    project = if c.project == "" then none else some c.project;
  }

  -- The contract's node of the task graph, once nothing is unresolved.
  unfoldable pub register : Contract → List String → Db → Option String × Db
  unfolding create_task_graph
  register c [] graph = (some (node_id c), (create_task_graph (node_of c ∷ []) [] graph).1)
  register c (key ∷ keys) graph = (none, graph)

  unfoldable pub approve_parsed :
      String → String → String → List (String × String) → Contract → Desk → Saved × Desk
  unfolding unresolved_in accepted_risks escalate_all register difference set_of set_file
  approve_parsed name contract_id as_approved dispositions c desk =
      let lines = formats.splitlines as_approved in
      let presented = set_of (formats.splitlines c.as_presented) in
      let edited = length (difference (set_of lines) presented) in
      let unresolved = unresolved_in lines in
      let (escalations, signals) = escalate_all c lines dispositions desk.escalations in
      let (node, graph) = register c unresolved desk.graph in
      (
        record {
          contract_id = contract_id;
          fields_edited = edited;
          unresolved_provocations = unresolved;
          escalations = escalations;
          graph_node_id = node;
        },
        record {
          contracts =
              set_file name
                (record c {
                  as_approved = some as_approved;
                  dispositions = or_kept dispositions c.dispositions;
                  edit_rate = (edited, max (length presented) 1);
                  unresolved_provocations = unresolved;
                  escalations = or_kept escalations c.escalations;
                })
                desk.contracts;
          risk_ledger = desk.risk_ledger ++ accepted_risks contract_id lines dispositions;
          escalations = signals;
          graph = graph;
        },
      )

  unfoldable pub approve_task_contract :
      String → String → List (String × String) → Desk → ApproveReply × Desk
  unfolding find_file approve_parsed
  approve_task_contract contract_id as_approved dispositions desk =
      elim (find_file contract_id desk.contracts) [
        | none ↦ (not_found, desk)
        | some (name, content) ↦ elim content [
          | none ↦ (unparsable, desk)
          | some c ↦
              let (s, after) = approve_parsed name contract_id as_approved dispositions c desk in
              (saved s, after)
        ]
      ]

pub data GateReply : Type 0 where
  unrecognized_size below_gate needs_contract : GateReply
  approved_by : (contract_id : String) → GateReply

-- `record.get("as_approved") and not record.get("unresolved_provocations")`
abbrev pub resolved : List String → Bool
resolved [] = true
resolved (key ∷ keys) = false

abbrev pub written : Option String → Bool
written none = false
written (some text) = not (text == "")

abbrev pub is_approved : Contract → Bool
is_approved c = written c.as_approved && resolved c.unresolved_provocations

-- The first file of today that is approved.
unfoldable pub first_approved : String → Files → Option String
first_approved today [] = none
first_approved today ((name, none) ∷ rest) = first_approved today rest
first_approved today ((name, some c) ∷ rest) =
    let later = first_approved today rest in
    if within today name && is_approved c then some c.contract_id else later

-- `le` is the order of file names.
unfoldable pub check_task_contract_gate :
    Texts → (String → String → Bool) → String → String → Files → GateReply
unfolding size_of first_approved sort_by
check_task_contract_gate texts le today size files = elim (size_of (texts.upper size)) [
  | none ↦ unrecognized_size
  | some z ↦
      if at_least_l z
      then (elim (first_approved today (sort_by (λ a b. le b a) (λ f. f.0) files)) [
        | none ↦ needs_contract
        | some contract_id ↦ approved_by contract_id
      ])
      else below_gate
]
