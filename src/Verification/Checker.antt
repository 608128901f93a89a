-- ===== src/Verification/Checker.antt =====
-- run_checker and run_rework_loop of verification_contract.py.
pub mod Targets
pub mod Rounds
pub mod Ran
use youk.Prelude.{
  ℕ, zero, suc, ◌+◌, String, Bool, true, false, Option, none, some, List, [], ◌∷◌, ◌++◌, map,
  if◌then◌else◌, sort_by, set_of, difference,
}
use youk.Verification.Stage.{
  Claim, SubClaim, Stage, verify, decompose, pattern_capture, Event, Reason, new_findings, Run,
  Result, ok, raise, Error, unbound_local, advance, rework, walk_forward_to, ◌>>=◌, Hint,
}
use youk.Verification.SubClaims.{Graph, unresolved, generate_sub_claims, build_claim}
use youk.Verification.Library.{Lines, append_pattern_library_entries}
use youk.Verification.Gate.{StoredClaim, to_dict}

-- What the functions write: the claim's file (`none` before the first write), the pattern library
-- and the event log.
pub record Disk : Type 0 where
  pub claim_file : Option StoredClaim
  pub library : Lines
  pub events : List Event

abbrev pub write_claim : Claim → Disk → Disk
write_claim c d = record d { claim_file = some (to_dict c) }

abbrev pub with_stage : Stage → Claim → Claim
with_stage s c = record c { stage = s }

pub record ReworkRound : Type 0 where
  pub round_number : ℕ
  pub unresolved_ids : List String
  pub findings : List String

pub record ReworkOutcome : Type 0 where
  pub claim : Claim
  pub rounds : List ReworkRound
  pub dry : Bool
  pub cap_hit : Bool
  -- the ids that the message of a cap hit names
  pub message : Option (List String)

abbrev pub ids : List SubClaim → List String
ids = map (λ sc. sc.id)

abbrev pub is_empty : List String → Bool
is_empty [] = true
is_empty (x ∷ xs) = false

-- The state at the top of a round.
pub record Loop : Type 0 where
  pub claim : Claim
  pub disk : Disk
  pub previous : List String
  pub rounds : List ReworkRound

-- `current_unresolved`, a set.
unfoldable pub current : Loop → List String
unfolding unresolved set_of
current s = set_of (ids (unresolved s.claim.sub_claims))

abbrev pub fresh_claim : String → String → Claim
fresh_claim statement dimension = record {
  statement = statement;
  dimension = dimension;
  sub_claims = [];
  stage = verify;
  stage_history = [];
  rework_rounds = 0;
  rework_log = [];
  size = "";
}

-- `le` is Python's order on texts, `today` the date, `slug` the claim's `_slug`.
module _ (le : String → String → Bool) (today slug : String) where
  unfoldable pub run_checker :
      String → String → Graph → List Hint → String → String → Disk → Result (Claim × Disk)
  run_checker statement dimension graph hints how_found size d =
      build_claim le statement dimension graph hints size >>= λ built.
      advance (some slug) (record { claim = with_stage decompose built; events = d.events }) verify
      >>= λ r1.
          let library = (append_pattern_library_entries how_found today r1.claim d.library).1 in
          advance (some slug) r1 pattern_capture >>= λ r2. ok (
            r2.claim,
            write_claim r2.claim
                (record { claim_file = d.claim_file; library = library; events = r2.events }),
          )

  abbrev pub sorted : List String → List String
  sorted = sort_by le (λ s. s)

  -- The first half of a round: scan again, record the misses, write the claim.
  abbrev pub scanned : List SubClaim → String → Loop → Loop
  scanned subs how_found s =
      let c : Claim = record (s.claim) { sub_claims = subs } in
      let library : Lines = (append_pattern_library_entries how_found today c s.disk.library).1 in
      record s { claim = c; disk = write_claim c (record (s.disk) { library = library }) }

  unfoldable pub scan : Graph → String → Loop → Result Loop
  scan graph how_found s =
      generate_sub_claims le s.claim.dimension graph [] >>= λ subs. ok (scanned subs how_found s)

  abbrev pub findings_of : Loop → List String
  findings_of s = sorted (difference (current s) s.previous)

  abbrev pub round_of : ℕ → Loop → ReworkRound
  round_of n s = record {
    round_number = n;
    unresolved_ids = sorted (current s);
    findings = findings_of s;
  }

  -- The second half: rework to the target, write, walk back to VERIFY, and write again.
  abbrev pub after_round : ℕ → Loop → Run → Run → Loop
  after_round n s r1 r2 =
      let reworked : Disk = write_claim r1.claim (record (s.disk) { events = r1.events }) in
      record {
        claim = r2.claim;
        disk = write_claim r2.claim (record reworked { events = r2.events });
        previous = current s;
        rounds = s.rounds ++ round_of n s ∷ [];
      }

  unfoldable pub rework_round : ℕ → Stage → Loop → Result Loop
  rework_round n target s =
      rework (some slug) (record { claim = s.claim; events = s.disk.events }) target
        (new_findings n (findings_of s))
      >>= λ r1. walk_forward_to (some slug) r1 verify >>= λ r2. ok (after_round n s r1 r2)

  abbrev pub went_dry : ℕ → Loop → ReworkOutcome × Disk
  went_dry n s = (
    record {
      claim = s.claim;
      rounds = s.rounds ++ round_of n s ∷ [];
      dry = true;
      cap_hit = false;
      message = none;
    },
    s.disk,
  )

  abbrev pub hit_cap : ℕ → Loop → ReworkOutcome × Disk
  hit_cap n s = (
    record {
      claim = s.claim;
      rounds = s.rounds ++ round_of n s ∷ [];
      dry = false;
      cap_hit = true;
      message = some (sorted (current s));
    },
    write_claim s.claim s.disk,
  )

  -- The loop over range(n, max_rounds + 1) with `left` + 1 rounds to go; `graph_fn` is called once
  -- a round.
  unfoldable pub rework_loop :
      ℕ → ℕ → (ℕ → Graph) → String → Stage → Loop → Result (ReworkOutcome × Disk)
  rework_loop zero n graph_fn how_found target s = scan (graph_fn n) how_found s >>= λ s1.
      elim (is_empty (findings_of s1)) [ true ↦ ok (went_dry n s1) | false ↦ ok (hit_cap n s1) ]
  rework_loop (suc left) n graph_fn how_found target s = scan (graph_fn n) how_found s >>= λ s1.
      elim (is_empty (findings_of s1)) [
        | true ↦ ok (went_dry n s1)
        | false ↦
            rework_round n target s1 >>= λ s2. rework_loop left (suc n) graph_fn how_found target s2
      ]

  -- With no round at all, `current_unresolved` is read before it is bound.
  unfoldable pub run_rework_loop :
      String → String → (ℕ → Graph) → String → Stage → ℕ → Disk → Result (ReworkOutcome × Disk)
  run_rework_loop statement dimension graph_fn how_found target zero d = raise unbound_local
  run_rework_loop statement dimension graph_fn how_found target (suc left) d =
      rework_loop left 1 graph_fn how_found target
        (record { claim = fresh_claim statement dimension; disk = d; previous = []; rounds = [] })
