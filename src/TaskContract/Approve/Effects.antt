-- ===== src/TaskContract/Approve/Effects.antt =====
-- What approve_task_contract of task_contract.py does to the contracts and to the task graph.
use mathlib.Core.List.{append-nil}
use youk.Prelude.{
  String, Bool, true, false, Option, none, some, List, [], ◌∷◌, ◌++◌, ◌==◌, Texts, within, ◌≡◌, ◌≢◌,
  inl, inr, refl, sym, ap, ◌∙◌, subst, arith, eq_iff, eq_refl, Memᴰ, Bool-cases, Option-cases,
  List-cases, ◌↔◌,
}
use youk.TaskGraph.Cycle.{would_cycle}
use youk.TaskGraph.Cycle.Walk.{Safe, Safe-not-Walk}
use youk.TaskGraph.Cycle.Exact.{would_cycle_iff}
use youk.TaskGraph.Store.{Db, Task, has_task, insert_task}
use youk.TaskGraph.Create.{
  NewTask, create_task_graph, seed, seed_all, self_edges, link_all, truthy, adopt, is_null,
}
use youk.TaskGraph.Rows.{has_task-insert_task, has_task-update_task}
use youk.TaskGraph.Valid.{IsValid}
use youk.TaskGraph.Steps.{create_task_graph_accept}
use youk.TaskContract.Desk.{Contract, Files, Desk, Formats, set_file}
use youk.TaskContract.Approve.{
  find_file, Saved, ApproveReply, not_found, unparsable, saved, node_id, node_of, register,
  approve_parsed, approve_task_contract, needs_contract, is_approved, check_task_contract_gate,
  GateReply, unrecognized_size, below_gate, approved_by, written, resolved as none_open,
}
use youk.TaskContract.Approve.Undecided.{
  open_keys, Undecided, unresolved_in-Undecided, unresolved_in_iff,
}
use youk.TaskContract.Approve.Opens.{GateOutcome, shut, check_task_contract_gate_lem}

IsValid-uncyclic : (db : Db) → IsValid db → would_cycle (db.edges ++ []) ≡ false
IsValid-uncyclic db v = elim (Bool-cases (would_cycle (db.edges ++ []))) [
  | inl c ↦
      let (n, w) = (would_cycle_iff (db.edges ++ [])).0 c in
      absurd (Safe-not-Walk (subst (λ es. Safe es n) (sym (append-nil db.edges)) (v.dag n)) w)
  | inr c ↦ c
]

adopt-KeepsId : (project : Option String) (t : Task) → (adopt project t).id ≡ t.id
adopt-KeepsId project t = elim (Bool-cases (is_null t.project)) [
  | inl unowned ↦ rw unowned refl
  | inr owned ↦ rw owned refl
]

has_task-seed : (n : NewTask) (ts : List Task) → has_task n.id (seed n ts) ≡ true
unfolding seed
has_task-seed n ts =
    let inserted : has_task n.id (insert_task _ ts) ≡ true =
      has_task-insert_task n.id _ ts ∙ (rw (eq_refl n.id) refl) in
    elim (Bool-cases (truthy n.project)) [
      | inl tagged ↦
          rw tagged (has_task-update_task n.id n.id _ _ (adopt-KeepsId n.project) ∙ inserted)
      | inr untagged ↦ rw untagged inserted
    ]

create_task_graph-has_task :
    (n : NewTask) (db : Db)
    → IsValid db
    → has_task n.id (create_task_graph (n ∷ []) [] db).1.tasks ≡ true
unfolding self_edges link_all seed_all
create_task_graph-has_task n db v =
    ap (λ (d : Db). has_task n.id d.tasks)
      (create_task_graph_accept (n ∷ []) [] db refl (IsValid-uncyclic db v))
    ∙ has_task-seed n db.tasks

find_file-mem :
    (contract_id : String) (files : Files) {f : String × Option Contract}
    → find_file contract_id files ≡ some f
    → Memᴰ f files
unfolding find_file
find_file-mem contract_id [] e = cc e
find_file-mem contract_id ((name, c) ∷ rest) {f} e = elim (Bool-cases (within contract_id name)) [
  | inl here ↦ let e' : some (name, c) ≡ some f = rw here at e in Memᴰ.head (cc e')
  | inr away ↦ Memᴰ.tail (find_file-mem contract_id rest (rw away at e))
]

pub set_file-mem :
    (name : String) (c : Contract) (files : Files) → Memᴰ (name, some c) (set_file name c files)
unfolding set_file
set_file-mem name c [] = Memᴰ.head refl
set_file-mem name c ((n, d) ∷ rest) = elim (Bool-cases (n == name)) [
  | inl here ↦ rw here (Memᴰ.head (ap (λ (k : String). (k, some c)) (sym ((eq_iff n name).0 here))))
  | inr away ↦ rw away (Memᴰ.tail (set_file-mem name c rest))
]

module _ (texts : Texts) (formats : Formats) where
  -- What approving the contract `c` of the file `name` does: either no provocation is undecided, and then
  -- the task has its node in the graph and a file of today lets large work begin; or some
  -- provocation is, and then the graph is left alone and the file lets nothing begin.
  pub record Resolved (name as_approved today : String) (c : Contract) (r : ApproveReply × Desk)
      : Type 0 where
    pub node : has_task (node_id texts formats c) r.1.graph.tasks ≡ true
    pub gate :
        within today name ≡ true
        → as_approved ≢ ""
        → (le : String → String → Bool) (size : String)
        → check_task_contract_gate texts le today size r.1.contracts ≢ needs_contract

  pub record Pending (name as_approved : String) (c : Contract) (before : Desk)
      (r : ApproveReply × Desk) : Type 0 where
    pub graph : r.1.graph ≡ before.graph
    pub contract : Contract
    pub listed : Memᴰ (name, some contract) r.1.contracts
    pub unapproved : is_approved contract ≡ false

  pub data ApproveOutcome (contract_id as_approved today : String) (before : Desk)
      : ApproveReply × Desk → Type 0 where
    missing :
        find_file contract_id before.contracts ≡ none
        → ApproveOutcome contract_id as_approved today before (not_found, before)
    unreadable :
        (name : String)
        → find_file contract_id before.contracts ≡ some (name, none)
        → ApproveOutcome contract_id as_approved today before (unparsable, before)
    resolved :
        (name : String) (c : Contract) (s : Saved) (after : Desk)
        → find_file contract_id before.contracts ≡ some (name, some c)
        → ((key : String) → ¬ Undecided texts formats (formats.splitlines as_approved) key)
        → s.unresolved_provocations ≡ []
        → Resolved name as_approved today c (saved s, after)
        → ApproveOutcome contract_id as_approved today before (saved s, after)
    pending :
        (name : String) (c : Contract) (s : Saved) (after : Desk)
        → find_file contract_id before.contracts ≡ some (name, some c)
        → (key : String) → Undecided texts formats (formats.splitlines as_approved) key
        → ((k : String)
            → Memᴰ k s.unresolved_provocations
              ↔ Undecided texts formats (formats.splitlines as_approved) k)
        → Pending name as_approved c before (saved s, after)
        → ApproveOutcome contract_id as_approved today before (saved s, after)

  register-node :
      (c : Contract) (keys : List String) (graph : Db)
      → keys ≡ []
      → IsValid graph
      → has_task (node_id texts formats c) (register texts formats c keys graph).1.tasks ≡ true
  unfolding register
  register-node c [] graph e v = create_task_graph-has_task (node_of texts formats c) graph v
  register-node c (key ∷ keys) graph e v = cc e

  register-graph :
      (c : Contract) (keys : List String) (graph : Db)
      → keys ≢ []
      → (register texts formats c keys graph).1 ≡ graph
  unfolding register
  register-graph c [] graph h = absurd (h refl)
  register-graph c (key ∷ keys) graph h = refl

  gate-open :
      (le : String → String → Bool) (today size name : String) (c : Contract) (files : Files)
      (g : GateReply)
      → Memᴰ (name, some c) files
      → within today name ≡ true
      → is_approved c ≡ true
      → GateOutcome texts le today size files g
      → g ≢ needs_contract
  gate-open le today size name c files unrecognized_size i t a o = λ e. cc e
  gate-open le today size name c files below_gate i t a o = λ e. cc e
  gate-open le today size name c files (approved_by other) i t a o = λ e. cc e
  gate-open le today size name c files needs_contract i t a (shut z named large h) =
      cc (h name c i t, a)

  none_open-nil : (keys : List String) → keys ≡ [] → none_open keys ≡ true
  none_open-nil [] e = refl
  none_open-nil (key ∷ keys) e = cc e

  none_open-cons : (keys : List String) → keys ≢ [] → none_open keys ≡ false
  none_open-cons [] h = absurd (h refl)
  none_open-cons (key ∷ keys) h = refl

  named_written : (text : String) → text ≢ "" → written (some text) ≡ true
  named_written text h = ground (arith, eq_iff text "")

  approve_parsed-Outcome :
      (name contract_id as_approved today : String) (dispositions : List (String × String))
      (c : Contract) (before : Desk)
      → find_file contract_id before.contracts ≡ some (name, some c)
      → IsValid before.graph
      → ApproveOutcome contract_id as_approved today before (
        saved (approve_parsed texts formats name contract_id as_approved dispositions c before).0,
        (approve_parsed texts formats name contract_id as_approved dispositions c before).1,
      )
  unfolding approve_parsed
  approve_parsed-Outcome name contract_id as_approved today dispositions c before found v =
      let r = approve_parsed texts formats name contract_id as_approved dispositions c before in
      let keys = open_keys texts formats as_approved in
      elim (List-cases keys) [
        | inl settled ↦
            resolved name c r.0 r.1 found
              (λ k u.
                (let i =
                    subst (Memᴰ k) settled
                      ((unresolved_in_iff texts formats (formats.splitlines as_approved) k).1 u) in
                  elim i [ ]))
              settled
              (record {
                node = register-node c keys before.graph settled v;
                gate = λ of_today text le size.
                    gate-open le today size name _ r.1.contracts
                      (check_task_contract_gate texts le today size r.1.contracts)
                      (set_file-mem name _ before.contracts) of_today
                      (let w = named_written as_approved text in
                        let n = none_open-nil keys settled in ground arith)
                      (check_task_contract_gate_lem texts le today size r.1.contracts);
              })
        | inr (key, rest, some_open) ↦
            let left : keys ≢ [] = λ e. cc (some_open, e) in
            pending name c r.0 r.1 found key
              (unresolved_in-Undecided texts formats (formats.splitlines as_approved)
                (subst (Memᴰ key) (sym some_open) (Memᴰ.head refl)))
              (unresolved_in_iff texts formats (formats.splitlines as_approved))
              (record {
                graph = register-graph c keys before.graph left;
                contract = _;
                listed = set_file-mem name _ before.contracts;
                unapproved = (let n = none_open-cons keys left in ground arith);
              })
      ]

  -- approve_task_contract changes nothing when no file has the id or the first that has it cannot
  -- be parsed. Otherwise, on a valid task graph: when no line of the approved text both begins with
  -- the key of a provocation and still shows the whole vocabulary, no key is answered as unresolved,
  -- the contract's task has its node in the graph afterwards and, for a file of today and a text
  -- that is not empty, the gate asks for no contract, whatever the size; when some line does, the
  -- keys of those lines are the answer, the graph is left alone and the file is not approved.
  pub approve_task_contract_lem :
      (contract_id as_approved today : String) (dispositions : List (String × String))
      (before : Desk)
      → IsValid before.graph
      → ApproveOutcome contract_id as_approved today before
          (approve_task_contract texts formats contract_id as_approved dispositions before)
  unfolding approve_task_contract
  approve_task_contract_lem contract_id as_approved today dispositions before v =
      elim (Option-cases (find_file contract_id before.contracts)) [
        | inl none_found ↦ rw (approve_task_contract, none_found) (missing none_found)
        | inr ((name, content), found) ↦ elim (Option-cases content) [
          | inl unread ↦
              let found' : find_file contract_id before.contracts ≡ some (name, none) =
                found ∙ ap (λ (o : Option Contract). some (name, o)) unread in
              rw (approve_task_contract, found') (unreadable name found')
          | inr (c, parsed) ↦
              let found' : find_file contract_id before.contracts ≡ some (name, some c) =
                found ∙ ap (λ (o : Option Contract). some (name, o)) parsed in
              rw (approve_task_contract, found')
                (approve_parsed-Outcome name contract_id as_approved today dispositions c before
                  found' v)
        ]
      ]
