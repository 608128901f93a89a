-- ===== src/TaskContract/Generate.antt =====
-- generate_task_contract of servers/core/src/task_contract.py.
pub mod Presents
use Prim.Native.String.{◌++◌ as str_append}
use youk.Prelude.{
  ℕ, suc, String, Bool, true, false, Option, none, some, List, [], ◌∷◌, ◌==◌, if◌then◌else◌, length,
  select, nat_eq, Texts, within, head,
}
use youk.Routing.Size.{TaskSize, size_of, size_value, Sizes, score_size}
use youk.Routing.Escalation.{at_least_m}
use youk.TaskContract.Provoke.{RiskEntry, Provocation, generate_provocations}
use youk.TaskContract.Desk.{Contract, Files, Desk, Formats, set_file, render_contract}

pub record Presented : Type 0 where
  pub contract_id : String
  pub path : String
  pub contract : String
  pub size : TaskSize

pub data GenerateReply : Type 0 where
  below_contract_line : TaskSize → GenerateReply
  presented : Presented → GenerateReply

-- What a call reads of the clock and of other files: today's date in both forms, the project of the
-- open session, the recent entries of the risk ledger, the recent gaps and the failed outcomes.
pub record Context : Type 0 where
  pub today : String
  pub date : String
  pub project : String
  pub risks : List RiskEntry
  pub gaps : List String
  pub causes : List String

-- _next_contract_id
unfoldable pub next_contract_id : Formats → String → Files → String
unfolding select
next_contract_id formats today files =
    let existing = select (λ (f : String × Option Contract). within today f.0) files in
    str_append "TC-" (str_append today (str_append "-" (formats.padded (suc (length existing)))))

module _ (texts : Texts) (formats : Formats) (sizes : Sizes) where
  -- _score_size of task_contract.py: the test for a signal is `in`.
  unfoldable pub plain_score_size : String → Option TaskSize
  unfolding score_size
  plain_score_size task =
      score_size (λ t. within (texts.lower t) (texts.lower task)) (length (texts.words task)) sizes

  -- The size that is given, when it names one, and else the score.
  unfoldable pub resolved_size : String → String → Option TaskSize
  unfolding plain_score_size size_of
  resolved_size task size =
      if size == ""
      then plain_score_size task
      else (elim (size_of (texts.upper size)) [ none ↦ plain_score_size task | some z ↦ some z ])

  unfoldable pub present : String → TaskSize → Context → Desk → Presented × Desk
  unfolding next_contract_id generate_provocations render_contract set_file head
  present task size context desk =
      let contract_id = next_contract_id formats context.today desk.contracts in
      let provocations =
        generate_provocations texts task size context.risks context.gaps context.causes in
      let text = render_contract formats contract_id task size provocations context.date in
      let name = str_append context.date (
        str_append "-" (
          str_append (formats.file_slug (texts.lower (head 40 task)))
            (str_append "-" (str_append contract_id ".md")))) in
      (
        record { contract_id = contract_id; path = name; contract = text; size = size },
        record desk {
          contracts =
              set_file name
                (record {
                  contract_id = contract_id;
                  task = task;
                  size = size_value size;
                  date = context.date;
                  project = context.project;
                  as_presented = text;
                  as_approved = none;
                  dispositions = [];
                  edit_rate = (0, 0);
                  unresolved_provocations = [];
                  escalations = [];
                })
                desk.contracts;
        },
      )

  -- `none`: _score_size raises.
  unfoldable pub generate_task_contract :
      String → String → Context → Desk → Option GenerateReply × Desk
  unfolding resolved_size present
  generate_task_contract task size context desk = elim (resolved_size task size) [
    | none ↦ (none, desk)
    | some z ↦
        if at_least_m z
        then (let (p, after) = present task z context desk in (some (presented p), after))
        else (some (below_contract_line z), desk)
  ]
