-- ===== src/TaskContract/Generate/Presents.antt =====
-- What generate_task_contract of task_contract.py puts on file.
use youk.Prelude.{
  ◌<◌, ◌≤◌, String, Option, none, some, List, Texts, ◌≡◌, inl, inr, refl, arith, Memᴰ, Bool-cases,
  Option-cases,
}
use youk.Routing.Size.{TaskSize, size_value, Sizes, rank}
use youk.Routing.Escalation.{at_least_m}
use youk.TaskContract.Provoke.{Provocation, generate_provocations}
use youk.TaskContract.Provoke.Chosen.{Chosen, generate_provocations-Chosen}
use youk.TaskContract.Desk.{Contract, Desk, Formats, render_contract}
use youk.TaskContract.Approve.Effects.{set_file-mem}
use youk.TaskContract.Generate.{
  Presented, GenerateReply, below_contract_line, presented, Context, resolved_size, present,
  generate_task_contract,
}

module _ (texts : Texts) (formats : Formats) (sizes : Sizes) where
  -- A contract on file, as presented and not approved, with the provocations that it renders.
  pub record OnFile (task : String) (size : TaskSize) (context : Context) (before after : Desk)
      (p : Presented) : Type 0 where
    pub provocations : List Provocation
    pub chosen : Chosen texts task size context.risks context.gaps context.causes provocations
    pub rendered :
        p.contract ≡ render_contract formats p.contract_id task size provocations context.date
    pub contract : Contract
    pub listed : Memᴰ (p.path, some contract) after.contracts
    pub shown : contract.as_presented ≡ p.contract
    pub about : (contract.task ≡ task) × (contract.size ≡ size_value size)
    pub unapproved : contract.as_approved ≡ none
    pub ledger : after.risk_ledger ≡ before.risk_ledger
    pub graph : after.graph ≡ before.graph

  pub data GenerateOutcome (task size : String) (context : Context) (before : Desk)
      : Option GenerateReply × Desk → Type 0 where
    unsized :
        resolved_size texts formats sizes task size ≡ none
        → GenerateOutcome task size context before (none, before)
    spared :
        (z : TaskSize)
        → resolved_size texts formats sizes task size ≡ some z
        → rank z < 3
        → GenerateOutcome task size context before (some (below_contract_line z), before)
    filed :
        (z : TaskSize) (p : Presented) (after : Desk)
        → resolved_size texts formats sizes task size ≡ some z
        → 3 ≤ rank z
        → OnFile task z context before after p
        → GenerateOutcome task size context before (some (presented p), after)

  present-OnFile :
      (task : String) (z : TaskSize) (context : Context) (before : Desk)
      → OnFile task z context before
          (present texts formats sizes task z context before).1
          (present texts formats sizes task z context before).0
  unfolding present
  present-OnFile task z context before = record {
    provocations = generate_provocations texts task z context.risks context.gaps context.causes;
    chosen = generate_provocations-Chosen texts task z context.risks context.gaps context.causes;
    rendered = refl;
    contract = _;
    listed = set_file-mem _ _ before.contracts;
    shown = refl;
    about = (refl, refl);
    unapproved = refl;
    ledger = refl;
    graph = refl;
  }

  -- generate_task_contract writes nothing for a size below M, or when _score_size raises. From M on
  -- it files a contract of the task and size, not approved, whose text renders the provocations of
  -- frames that the task meets, in the order of the sort key: at most three for M, and then none
  -- left out comes before one of them; at most seven otherwise, and then none is left out.
  pub generate_task_contract_lem :
      (task size : String) (context : Context) (before : Desk)
      → GenerateOutcome task size context before
          (generate_task_contract texts formats sizes task size context before)
  unfolding generate_task_contract
  generate_task_contract_lem task size context before =
      elim (Option-cases (resolved_size texts formats sizes task size)) [
        | inl raises ↦ rw (generate_task_contract, raises) (unsized raises)
        | inr (z, known) ↦ elim (Bool-cases (at_least_m z)) [
          | inl large ↦
              rw (generate_task_contract, known, large)
                (filed z (present texts formats sizes task z context before).0
                  (present texts formats sizes task z context before).1 known (ground arith)
                  (present-OnFile task z context before))
          | inr below ↦ rw (generate_task_contract, known, below) (spared z known (ground arith))
        ]
      ]
