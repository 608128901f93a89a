-- ===== src/TaskContract/Approve/Opens.antt =====
-- Which contracts of task_contract.py let large work begin, and what approving one does.
use youk.Prelude.Memᴰ
use youk.Prelude.{
  ◌≤◌, ◌<◌, String, Bool, true, false, ◌&&◌, Option, none, some, [], ◌∷◌, sort_by, sort_by-mem,
  mem-sort_by, Texts, within, ◌≡◌, inl, inr, refl, ap, ◌∙◌, arith, Memᴰ, Bool-cases, Option-cases,
}
use youk.Routing.Size.{TaskSize, size_of, rank}
use youk.TaskContract.Frames.{at_least_l}
use youk.TaskContract.Desk.{Contract, Files}
use youk.TaskContract.Approve.{
  is_approved, first_approved, GateReply, unrecognized_size, below_gate, needs_contract,
  approved_by, check_task_contract_gate,
}

-- A contract of today that is approved and has nothing unresolved.
pub record Cleared (today : String) (files : Files) (contract_id : String) : Type 0 where
  pub name : String
  pub contract : Contract
  pub listed : Memᴰ (name, some contract) files
  pub named : contract.contract_id ≡ contract_id
  pub of_today : within today name ≡ true
  pub approved : is_approved contract ≡ true

abbrev pub NoneCleared : String → Files → Type 0
NoneCleared today files =
    (name : String) (c : Contract)
    → Memᴰ (name, some c) files
    → within today name ≡ true
    → is_approved c ≡ false

-- What the search among the files finds.
pub data Search (today : String) (files : Files) : Option String → Type 0 where
  finds :
      (contract_id : String)
      → Cleared today files contract_id
      → Search today files (some contract_id)
  fails : NoneCleared today files → Search today files none

Cleared-tail :
    {today id : String} {files : Files} (f : String × Option Contract)
    → Cleared today files id
    → Cleared today (f ∷ files) id
Cleared-tail f found = record {
  name = found.name;
  contract = found.contract;
  listed = Memᴰ.tail found.listed;
  named = found.named;
  of_today = found.of_today;
  approved = found.approved;
}

Search-unreadable :
    (today name : String) (files : Files) (r : Option String)
    → Search today files r
    → Search today ((name, none) ∷ files) r
Search-unreadable today name files r (finds id found) = finds id (Cleared-tail (name, none) found)
Search-unreadable today name files r (fails h) = fails λ n c i t. elim (Memᴰ.cases_cons i) [
  | inl e ↦ let clash : some c ≡ none = ap (λ (f : String × Option Contract). f.1) e in cc clash
  | inr j ↦ h n c j t
]

abbrev clears : String → String × Option Contract → Bool
clears today (name, none) = false
clears today (name, some c) = within today name && is_approved c

Search-skip :
    (today name : String) (c : Contract) (files : Files) (r : Option String)
    → within today name && is_approved c ≡ false
    → Search today files r
    → Search today ((name, some c) ∷ files) r
Search-skip today name c files r away (finds id found) =
    finds id (Cleared-tail (name, some c) found)
Search-skip today name c files r away (fails h) = fails λ n d i t. elim (Memᴰ.cases_cons i) [
  | inl e ↦
      let h' : within today n && is_approved d ≡ false = ap (clears today) e ∙ away in ground arith
  | inr j ↦ h n d j t
]

first_approved-Search :
    (today : String) (files : Files) → Search today files (first_approved today files)
unfolding first_approved
first_approved-Search today [] = fails λ n c i t. elim i [ ]
first_approved-Search today ((name, none) ∷ rest) =
    Search-unreadable today name rest (first_approved today rest) (first_approved-Search today rest)
first_approved-Search today ((name, some c) ∷ rest) =
    elim (Bool-cases (within today name && is_approved c)) [
      | inl here ↦ rw here (
          finds c.contract_id (record {
            name = name;
            contract = c;
            listed = Memᴰ.head refl;
            named = refl;
            of_today = ground arith;
            approved = ground arith;
          }))
      | inr away ↦ rw away (
          Search-skip today name c rest (first_approved today rest) away
            (first_approved-Search today rest))
    ]

module _ (texts : Texts) (le : String → String → Bool) (today size : String) (files : Files) where
  -- What check_task_contract_gate answers.
  pub data GateOutcome : GateReply → Type 0 where
    unknown : size_of (texts.upper size) ≡ none → GateOutcome unrecognized_size
    small :
        (z : TaskSize) → size_of (texts.upper size) ≡ some z → rank z < 4 → GateOutcome below_gate
    opened :
        (z : TaskSize) (contract_id : String)
        → size_of (texts.upper size) ≡ some z
        → 4 ≤ rank z
        → Cleared today files contract_id
        → GateOutcome (approved_by contract_id)
    shut :
        (z : TaskSize)
        → size_of (texts.upper size) ≡ some z
        → 4 ≤ rank z
        → NoneCleared today files
        → GateOutcome needs_contract

  sorted : Files
  sorted = sort_by (λ a b. le b a) (λ (f : String × Option Contract). f.0) files

  gate-found :
      (z : TaskSize)
      → size_of (texts.upper size) ≡ some z
      → 4 ≤ rank z
      → (r : Option String) → Search today sorted r
      → GateOutcome (elim r [ none ↦ needs_contract | some contract_id ↦ approved_by contract_id ])
  unfolding sorted
  gate-found z named large none (fails h) = shut z named large λ n c i t.
      h n c (mem-sort_by (λ a b. le b a) (λ (f : String × Option Contract). f.0) files i) t
  gate-found z named large (some contract_id) (finds _ found) =
      opened z contract_id named large (record {
        name = found.name;
        contract = found.contract;
        listed =
            sort_by-mem (λ a b. le b a) (λ (f : String × Option Contract). f.0) files found.listed;
        named = found.named;
        of_today = found.of_today;
        approved = found.approved;
      })

  -- check_task_contract_gate lets a size below L, or no size, pass; for L and XL it names a
  -- contract of today that is approved with nothing unresolved, or asks for one, and then no
  -- contract of today is.
  pub check_task_contract_gate_lem :
      GateOutcome (check_task_contract_gate texts le today size files)
  unfolding check_task_contract_gate sorted
  check_task_contract_gate_lem = elim (Option-cases (size_of (texts.upper size))) [
    | inl unnamed ↦ rw (check_task_contract_gate, unnamed) (unknown unnamed)
    | inr (z, named) ↦ elim (Bool-cases (at_least_l z)) [
      | inl large ↦
          rw (check_task_contract_gate, named, large)
            (gate-found z named (ground arith) (first_approved today sorted)
              (first_approved-Search today sorted))
      | inr below ↦ rw (check_task_contract_gate, named, below) (small z named (ground arith))
    ]
  ]
