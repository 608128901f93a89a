-- ===== src/Verification/Tests.antt =====
-- Small claims, what verification_contract.py does on them, and the theorems at these inputs.
use youk.Prelude.Memᴰ
use youk.Prelude.{
  ℕ, String, Bool, true, false, none, some, [], ◌∷◌, ◌≡◌, ◌≢◌, ◌↔◌, refl, ap, arith, Memᴰ, leb,
}
use youk.Verification.Stage.{
  Claim, SubClaim, bound, verify, gate, Run, ok, verified, failed, internally_checked,
  walk_forward_to,
}
use youk.Verification.Stage.Walks.{WalkOutcome, walk_forward_to_lem}
use youk.Verification.SubClaims.{Info, Graph, generate_sub_claims, from_sorted}
use youk.Verification.SubClaims.Coverage.{DecomposeOutcome, generate_sub_claims_lem}
use youk.Verification.Library.{append_pattern_library_entries}
use youk.Verification.Library.Dedupe.{Appended, append_pattern_library_entries-Appended}
use youk.Verification.Gate.{
  StoredClaim, to_dict, store_sub, malformed, readable, gate_claim_done, gate_all_claims,
  mark_externally_verified, migrate_claim_file,
}
use youk.Verification.Gate.Allows.{
  MayBeDone, gate_claim_done_iff, AllGated, gate_all_claims-AllGated,
}
use youk.Verification.Gate.Routing.{Routes, gate_claim_done-Routes}
use youk.Verification.Gate.Promote.{mark_externally_verified-gate}
use youk.Verification.Gate.Migrate.{migrate_claim_file_lem}
use youk.Verification.Checker.{Disk, run_checker, run_rework_loop}
use youk.Verification.Checker.Ran.{Ran, run_checker-Ran}
use youk.Verification.Checker.Targets.{to_bound}
use youk.Verification.Checker.Rounds.{Ends, run_rework_loop-Ends}

program : Unit {0}
unfolding walk_forward_to generate_sub_claims append_pattern_library_entries gate_claim_done
    gate_all_claims mark_externally_verified migrate_claim_file run_checker run_rework_loop to_dict
program = tt

-- Stands for the order on texts: the items of the examples are in order.
abbrev le : String → String → Bool
le a b = true

abbrev wired : Info
wired = record { wired = true; evidence = some "here" }

abbrev missing : Info
missing = record { wired = false; evidence = none }

abbrev graph : Graph
graph = ("hooks", ("a", wired) ∷ ("b", missing) ∷ []) ∷ []

abbrev repaired : Graph
repaired = ("hooks", ("a", wired) ∷ ("b", wired) ∷ []) ∷ []

-- The scanner's answers by round: the miss is repaired after the first.
abbrev scans : ℕ → Graph
scans n = elim (leb n 1) [ true ↦ graph | false ↦ repaired ]

abbrev good : SubClaim
good = record {
  id = "hooks:a";
  mechanism = "hooks";
  host = "a";
  status = verified;
  evidence = some "here";
  verification_level = internally_checked;
  pattern_hint = none;
}

abbrev claim : Claim
claim = record {
  statement = "works";
  dimension = "host";
  sub_claims = good ∷ [];
  stage = bound;
  stage_history = [];
  rework_rounds = 0;
  rework_log = [];
  size = "L";
}

abbrev missed : Claim
missed = record claim { sub_claims = record good { id = "hooks:b"; status = failed } ∷ [] }

abbrev start : Run
start = record { claim = claim; events = [] }

abbrev disk : Disk
disk = record { claim_file = none; library = []; events = [] }

gate-large : gate_claim_done (some (to_dict claim)) none false ≢ ok none
unfolding program
gate-large e = ground arith

walk_forward_to_lem_example : WalkOutcome (some "c") start verify
walk_forward_to_lem_example = walk_forward_to_lem (some "c") start verify

run_rework_loop-Ends_example :
    Ends le "today" "c" 3 (run_rework_loop le "today" "c" "works" "host" scans "scan" bound 3 disk)
run_rework_loop-Ends_example =
    run_rework_loop-Ends le "today" "c" "works" scans "scan" to_bound 2 disk

gate_claim_done_iff_example :
    (gate_claim_done (some (to_dict claim)) none false ≡ ok none) ↔ MayBeDone false (to_dict claim)
gate_claim_done_iff_example = gate_claim_done_iff (to_dict claim) none false

gate_all_claims-AllGated_example :
    AllGated
      (readable (to_dict claim) ∷ malformed ∷ [])
      false
      (gate_all_claims (readable (to_dict claim) ∷ malformed ∷ []) false)
gate_all_claims-AllGated_example =
    gate_all_claims-AllGated (readable (to_dict claim) ∷ malformed ∷ []) false

gate_claim_done-Routes_example :
    Routes (to_dict missed) verify true (gate_claim_done (some (to_dict missed)) (some verify) true)
gate_claim_done-Routes_example = gate_claim_done-Routes (to_dict missed) verify true

all_good : (sc : SubClaim) → Memᴰ sc (good ∷ []) → sc.status ≡ verified
all_good sc m = let e = Memᴰ.eq_of_singleton m in ap (λ (x : SubClaim). x.status) e

mark_externally_verified-gate_example :
    (c' : Claim) × (mark_externally_verified claim "hooks:a" ≡ ok c')
    × (gate_claim_done (some (to_dict c')) none true ≡ ok none)
mark_externally_verified-gate_example =
    mark_externally_verified-gate claim "hooks:a" none true (Memᴰ.head refl) all_good

abbrev old_file : StoredClaim
old_file = record (to_dict claim) {
  stage = gate;
  size = "";
  sub_claims = record (store_sub good) { status = failed; verification_level = none } ∷ [];
}

migrate_claim_file_lem_example :
    (gate_claim_done (some (migrate_claim_file old_file).1) none true
      ≡ gate_claim_done (some old_file) none true)
    × (migrate_claim_file (migrate_claim_file old_file).1
        ≡ (false, (migrate_claim_file old_file).1))
migrate_claim_file_lem_example = migrate_claim_file_lem old_file none true

generate_sub_claims_lem_example : DecomposeOutcome le [] "host" graph
generate_sub_claims_lem_example = generate_sub_claims_lem le [] "host" graph

generated : generate_sub_claims le "host" graph [] ≡ ok (from_sorted le [] graph)
unfolding generate_sub_claims
generated = refl

append_pattern_library_entries-Appended_example :
    Appended missed [] (append_pattern_library_entries "scan" "today" missed [])
append_pattern_library_entries-Appended_example =
    append_pattern_library_entries-Appended "scan" "today" missed []

run_checker-Ran_example :
    (c : Claim) × (d : Disk) × (run_checker le "today" "c" "works" "host" graph [] "scan" "L" disk
      ≡ ok (c, d))
    × Ran le "today" "c" graph [] "L" c d
run_checker-Ran_example = run_checker-Ran le "today" "c" "works" graph [] "scan" "L" disk
