-- ===== src/Verification/Gate.antt =====
-- The claim files of verification_contract.py, the gate in front of "done", the promotion of
-- evidence and the migration of old files.
pub mod Allows
pub mod Routing
pub mod Promote
pub mod Stored
pub mod Migrate
use youk.Prelude.{
  ℕ, String, Bool, true, false, not, ◌&&◌, ◌||◌, Option, none, some, List, [], ◌∷◌, ◌++◌, map, ◌==◌,
  if◌then◌else◌, any, select,
}
use youk.Verification.Stage.{
  Claim, SubClaim, Stage, Status, unverified, verified, failed, Level, asserted, internally_checked,
  externally_verified, Hint, ReworkEntry, malformed_file, Result, ok, raise, not_rework,
  no_sub_claim, decompose, rework_edges, stage_eq, gate, ◌>>=◌,
}
use youk.Verification.SubClaims.{all_verified}

-- A sub-claim as a file has it: files written before the field existed have no level.
pub record StoredSub : Type 0 where
  pub id : String
  pub mechanism : String
  pub host : String
  pub status : Status
  pub evidence : Option String
  pub verification_level : Option Level
  pub pattern_hint : Option Hint

pub record StoredClaim : Type 0 where
  pub statement : String
  pub dimension : String
  pub sub_claims : List StoredSub
  pub all_verified : Bool
  pub stage : Stage
  pub stage_history : List Stage
  pub size : String
  pub rework_rounds : ℕ
  pub rework_log : List ReworkEntry

-- `Claim.to_dict`, and `asdict` on a sub-claim.
abbrev pub store_sub : SubClaim → StoredSub
store_sub sc = record {
  id = sc.id;
  mechanism = sc.mechanism;
  host = sc.host;
  status = sc.status;
  evidence = sc.evidence;
  verification_level = some sc.verification_level;
  pattern_hint = sc.pattern_hint;
}

unfoldable pub to_dict : Claim → StoredClaim
unfolding all_verified
to_dict c = record {
  statement = c.statement;
  dimension = c.dimension;
  sub_claims = map store_sub c.sub_claims;
  all_verified = all_verified c.sub_claims;
  stage = c.stage;
  stage_history = c.stage_history;
  size = c.size;
  rework_rounds = c.rework_rounds;
  rework_log = c.rework_log;
}

abbrev pub status_verified : Status → Bool
status_verified verified = true
status_verified unverified = false
status_verified failed = false

abbrev pub is_external : Option Level → Bool
is_external (some externally_verified) = true
is_external _ = false

abbrev pub is_open : StoredSub → Bool
is_open sc = not (status_verified sc.status)

-- The "reason" of a denial; the first carries the pairs that the message lists.
pub data DenyReason : Type 0 where
  unverified_sub_claims : List (String × Status) → DenyReason
  no_independent_review : DenyReason

pub record Deny : Type 0 where
  pub reason : DenyReason
  pub routed_to : Stage

abbrev pub target_or_decompose : Option Stage → Stage
target_or_decompose none = decompose
target_or_decompose (some s) = s

abbrev pub large : String → Bool
large size = size == "L" || size == "XL"

-- The second half of gate_claim_done, for a claim with nothing unresolved. Unlike the first half
-- it does not check `preferred_rework_stage`.
unfoldable pub review_gate : StoredClaim → Option Stage → Bool → Option Deny
unfolding any
review_gate c preferred require =
    if require || large c.size
    then (if any (λ sc. is_external sc.verification_level) c.sub_claims
        then none
        else some
            (record { reason = no_independent_review; routed_to = target_or_decompose preferred }))
    else none

-- A sub-claim as the message of a denial lists it.
abbrev pub listed : StoredSub → String × Status
listed sc = (sc.id, sc.status)

unfoldable pub deny_open : List StoredSub → Option Stage → Result (Option Deny)
unfolding rework_edges any
deny_open open_subs preferred =
    if any (stage_eq (target_or_decompose preferred)) (rework_edges gate)
    then ok (
        some (record {
          reason = unverified_sub_claims (map listed open_subs);
          routed_to = target_or_decompose preferred;
        }))
    else raise not_rework

-- gate_claim_done on what load_claim answers: `none` for the file is a path that does not exist; an
-- answer `none` allows.
unfoldable pub gate_claim_done : Option StoredClaim → Option Stage → Bool → Result (Option Deny)
unfolding review_gate deny_open select
gate_claim_done none preferred require = ok none
gate_claim_done (some c) preferred require = elim (select is_open c.sub_claims) [
  | [] ↦ ok (review_gate c preferred require)
  | sc ∷ rest ↦ deny_open (sc ∷ rest) preferred
]

abbrev pub cons_deny : Option Deny → List Deny → List Deny
cons_deny none ds = ds
cons_deny (some d) ds = d ∷ ds

-- What stands in a claim file: a claim, or what gate_claim_done raises on, that is a text from which
-- json.loads raises, or a claim with an open sub-claim that lacks its id or its status.
pub data ClaimFile : Type 0 where
  malformed : ClaimFile
  readable : StoredClaim → ClaimFile

unfoldable pub load_claim : ClaimFile → Result StoredClaim
load_claim malformed = raise malformed_file
load_claim (readable c) = ok c

-- The loop of gate_all_claims over the claim files, and the denials that its message joins.
unfoldable pub denials : List ClaimFile → Bool → Result (List Deny)
unfolding load_claim
denials [] require = ok []
denials (f ∷ fs) require = load_claim f >>= λ c.
    gate_claim_done (some c) none require >>= λ verdict.
    denials fs require >>= λ rest. ok (cons_deny verdict rest)

-- `none` allows. The answer's "reason" is the constant "unverified_sub_claims".
unfoldable pub gate_all_claims : List ClaimFile → Bool → Result (Option (List Deny))
gate_all_claims files require =
    denials files require >>= λ ds. elim ds [ [] ↦ ok none | d ∷ rest ↦ ok (some (d ∷ rest)) ]

-- `mark_externally_verified`, on the first sub-claim with the id.
unfoldable pub promote : String → List SubClaim → Result (List SubClaim)
promote id [] = raise no_sub_claim
promote id (sc ∷ rest) = elim (sc.id == id) [
  | true ↦ ok (record sc { verification_level = externally_verified } ∷ rest)
  | false ↦ promote id rest >>= λ done. ok (sc ∷ done)
]

unfoldable pub mark_externally_verified : Claim → String → Result Claim
unfolding promote
mark_externally_verified c id =
    promote id c.sub_claims >>= λ subs. ok (record c { sub_claims = subs })

-- The loop of migrate_claim_file_add_verification_level, and whether it changed anything.
abbrev pub migrate_sub : StoredSub → StoredSub
migrate_sub sc = elim sc.verification_level [
  | none ↦ record sc { verification_level = some internally_checked }
  | some level ↦ sc
]

abbrev pub lacks_level : StoredSub → Bool
lacks_level sc = elim sc.verification_level [ none ↦ true | some level ↦ false ]

unfoldable pub migrate_claim_file : StoredClaim → Bool × StoredClaim
unfolding any
migrate_claim_file c =
    let changed = any lacks_level c.sub_claims in
    (changed, if changed then record c { sub_claims = map migrate_sub c.sub_claims } else c)

-- migrate_claims_dir: which files were rewritten, and all of them afterwards.
unfoldable pub migrate_claims_dir : List StoredClaim → List Bool × List StoredClaim
unfolding migrate_claim_file
migrate_claims_dir files =
    (map (λ c. (migrate_claim_file c).0) files, map (λ c. (migrate_claim_file c).1) files)
