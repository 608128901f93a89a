-- ===== src/Verification/Stage.antt =====
-- The stage graph of verification_contract.py, and the transitions of a claim along it.
pub mod Walks
use youk.Prelude.{
  ℕ, zero, suc, ◌+◌, String, Bool, true, false, Option, none, some, List, [], ◌∷◌, ◌++◌, any,
  length, if◌then◌else◌, nat_eq, ◌≡◌, ◌⊎◌, inl, inr, refl, ap,
}

pub data Stage : Type 0 where
  intake abstract bound research diff decompose verify pattern_capture gate retrieve : Stage

-- `==` on stages: the position in the enumeration tells them apart.
abbrev pub position : Stage → ℕ
position intake = 0
position abstract = 1
position bound = 2
position research = 3
position diff = 4
position decompose = 5
position verify = 6
position pattern_capture = 7
position gate = 8
position retrieve = 9

abbrev pub stage_eq : Stage → Stage → Bool
stage_eq s t = nat_eq (position s) (position t)

-- `len(Stage)`
abbrev pub stage_count : ℕ
stage_count = 10

-- FORWARD_EDGES
unfoldable pub forward_edges : Stage → List Stage
forward_edges intake = abstract ∷ []
forward_edges abstract = bound ∷ []
forward_edges bound = research ∷ []
forward_edges research = diff ∷ []
forward_edges diff = decompose ∷ []
forward_edges decompose = verify ∷ []
forward_edges verify = pattern_capture ∷ []
forward_edges pattern_capture = gate ∷ []
forward_edges gate = []
forward_edges retrieve = []

-- REWORK_EDGES; a stage that is no key reads as the empty set.
unfoldable pub rework_edges : Stage → List Stage
rework_edges verify = bound ∷ decompose ∷ []
rework_edges diff = research ∷ []
rework_edges gate = bound ∷ decompose ∷ []
rework_edges _ = []

pub data Status : Type 0 where
  unverified verified failed : Status

pub data Level : Type 0 where
  asserted internally_checked externally_verified : Level

-- The fields of a pattern-library row that the text of a `pattern_hint` is made from, with the
-- defaults of `how_found` and `date`; the similarity is the rounded ratio as it is printed.
pub record Hint : Type 0 where
  pub claim_shape : String
  pub missed_sub_claim : String
  pub similarity : String
  pub how_found : String
  pub date : String

pub record SubClaim : Type 0 where
  pub id : String
  pub mechanism : String
  pub host : String
  pub status : Status
  pub evidence : Option String
  pub verification_level : Level
  pub pattern_hint : Option Hint

-- Why a claim is reworked: a caller's text, or the findings that run_rework_loop names.
pub data Reason : Type 0 where
  text : String → Reason
  new_findings : ℕ → List String → Reason

pub record ReworkEntry : Type 0 where
  pub from : Stage
  pub to : Stage
  pub reason : Reason
  pub round : ℕ

pub record Claim : Type 0 where
  pub statement : String
  pub dimension : String
  pub sub_claims : List SubClaim
  pub stage : Stage
  pub stage_history : List Stage
  pub rework_rounds : ℕ
  pub rework_log : List ReworkEntry
  pub size : String

pub data EventOutcome : Type 0 where
  advanced : EventOutcome
  reworked : Reason → EventOutcome

-- A line of the event log, without its time stamp.
pub record Event : Type 0 where
  pub claim_id : String
  pub stage : Stage
  pub outcome : EventOutcome

pub data Error : Type 0 where
  not_forward not_rework no_forward_path ambiguous_path unsupported_dimension no_sub_claim : Error
  unbound_local malformed_file : Error

-- What a call ends in: an exception, or a value.
pub data Result {ℓ} (Value : Type ℓ) : Type ℓ where
  raise : Error → Result Value
  ok : Value → Result Value

module _ {ℓ κ} {In : Type ℓ} {Out : Type κ} where
  -- The statements after one that may raise.
  infixl 5 ◌>>=◌
  abbrev pub ◌>>=◌ : Result In → (In → Result Out) → Result Out
  raise x >>= rest = raise x
  ok value >>= rest = rest value

  pub >>=-of-ok :
      (rest : In → Result Out) {m : Result In} {value : In}
      → m ≡ ok value
      → (m >>= rest) ≡ rest value
  >>=-of-ok rest e = ap (λ x. x >>= rest) e

  pub >>=-eq-ok :
      (m : Result In) (rest : In → Result Out) {out : Out}
      → (m >>= rest) ≡ ok out
      → (value : In) × (m ≡ ok value) × (rest value ≡ ok out)
  >>=-eq-ok (raise x) rest h = cc
  >>=-eq-ok (ok value) rest h = (value, refl, h)

pub Result-cases {ℓ} :
    {A : Type ℓ} (m : Result A) → ((a : A) × (m ≡ ok a)) ⊎ ((e : Error) × (m ≡ raise e))
Result-cases (ok a) = inl (a, refl)
Result-cases (raise e) = inr (e, refl)

-- A claim, and the event log that its transitions append to where the caller passes `root`.
pub record Run : Type 0 where
  pub claim : Claim
  pub events : List Event

abbrev log_event : Option String → Stage → EventOutcome → List Event → List Event
log_event none stage outcome events = events
log_event (some id) stage outcome events =
    events ++ record { claim_id = id; stage = stage; outcome = outcome } ∷ []

-- The assignments of `advance` and of `rework`, once their test has passed.
abbrev pub advanced_to : Option String → Run → Stage → Run
advanced_to log r to = record {
  claim = record (r.claim) {
    stage_history = r.claim.stage_history ++ r.claim.stage ∷ [];
    stage = to;
  };
  events = log_event log to advanced r.events;
}

abbrev pub reworked_to : Option String → Run → Stage → Reason → Run
reworked_to log r to reason = record {
  claim = record (r.claim) {
    rework_rounds = suc r.claim.rework_rounds;
    stage_history = r.claim.stage_history ++ r.claim.stage ∷ [];
    rework_log =
        r.claim.rework_log
        ++ record {
          from = r.claim.stage;
          to = to;
          reason = reason;
          round = suc r.claim.rework_rounds;
        }
          ∷ [];
    stage = to;
  };
  events = log_event log to (reworked reason) r.events;
}

-- `log` is the claim id to log under, or `none` where the caller passes no `root`.
unfoldable pub advance : Option String → Run → Stage → Result Run
unfolding forward_edges any
advance log r to =
    if any (stage_eq to) (forward_edges r.claim.stage)
    then ok (advanced_to log r to)
    else raise not_forward

unfoldable pub rework : Option String → Run → Stage → Reason → Result Run
unfolding rework_edges any
rework log r to reason =
    if any (stage_eq to) (rework_edges r.claim.stage)
    then ok (reworked_to log r to reason)
    else raise not_rework

-- `_walk_forward_to`; the fuel is the number of rounds that `guard` still allows.
abbrev pub only_next : List Stage → Result Stage
only_next (s ∷ []) = ok s
only_next _ = raise ambiguous_path

unfoldable pub walk_forward : ℕ → Option String → Run → Stage → Result Run
walk_forward zero log r target =
    if stage_eq r.claim.stage target then ok r else raise no_forward_path
walk_forward (suc guard) log r target = elim (stage_eq r.claim.stage target) [
  | true ↦ ok r
  | false ↦ only_next (forward_edges r.claim.stage) >>= λ next.
      advance log r next >>= λ r'. walk_forward guard log r' target
]

unfoldable pub walk_forward_to : Option String → Run → Stage → Result Run
unfolding walk_forward advance forward_edges
walk_forward_to = walk_forward stage_count
