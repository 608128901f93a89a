-- ===== src/TaskContract/Provoke.antt =====
-- _generate_provocations of servers/core/src/task_contract.py.
pub mod Chosen
pub mod Cited
use Prim.Native.String.{◌++◌ as str_append}
use youk.Prelude.{
  ℕ, ◌+◌, ◌-◌, String, Bool, true, false, not, ◌&&◌, ◌||◌, Option, none, some, List, [], ◌∷◌, ◌++◌,
  ◌==◌, if◌then◌else◌, length, any, select, contains, set_of, leb, ltb, nat_eq, take, sort_on,
  Texts, within, head,
}
use youk.Routing.Size.{TaskSize, rank}
use youk.TaskContract.Frames.{
  Frame, frame_id, FrameCheck, frame_checks, Severity, high, severity_rank, at_least_l,
}

-- An entry of the risk ledger.
pub record RiskEntry : Type 0 where
  pub contract_id : String
  pub risk : String
  pub frame : String

-- The text `citation`, by what it says.
pub data Citation : Type 0 where
  no_citation : Citation
  accepted_before : (count : ℕ) → Citation
  recurring_gap prior_failed : String → Citation

pub record Provocation : Type 0 where
  pub frame : Frame
  pub risk : String
  pub severity : Severity
  pub personalized : Bool
  pub citation : Citation

abbrev pub frame_eq : Frame → Frame → Bool
frame_eq a b = frame_id a == frame_id b

-- The provocations of one call have different frames, so one in a list is known by its frame.
unfoldable pub among : Provocation → List Provocation → Bool
unfolding any
among p ps = any (λ q. frame_eq q.frame p.frame) ps

-- The sort key: (0 if personalized else 1, severity), as one number.
abbrev pub sort_key : Provocation → ℕ
sort_key p = (if p.personalized then 0 else 3) + severity_rank p.severity

abbrev pub space_join : String → String → String
space_join a b = str_append a (str_append " " b)

module _ (texts : Texts) where
  -- `len(set(text.split()) & task_words)`
  unfoldable pub shared_words : String → String → ℕ
  unfolding select set_of contains
  shared_words text task_lower =
      length (select (contains (texts.words task_lower)) (set_of (texts.words text)))

  abbrev pub risk_text : RiskEntry → String
  risk_text e = texts.lower (space_join e.risk e.frame)

  abbrev pub risk_matches : Frame → String → RiskEntry → Bool
  risk_matches frame task_lower e =
      within (frame_id frame) (risk_text e) || leb 2 (shared_words (risk_text e) task_lower)

  unfoldable pub times_accepted : Frame → List RiskEntry → ℕ
  unfolding select
  times_accepted frame entries = length (
      select (λ (e : RiskEntry). within (frame_id frame) (texts.lower (space_join e.frame e.risk)))
        entries)

  unfoldable pub first_theme : String → List String → Option String
  unfolding shared_words
  first_theme task_lower [] = none
  first_theme task_lower (t ∷ ts) =
      let later = first_theme task_lower ts in
      if leb 2 (shared_words (texts.lower t) task_lower) then some t else later

  unfoldable pub cite : Frame → String → List RiskEntry → List String → List String → Citation
  unfolding any shared_words times_accepted first_theme head
  cite frame task_lower risks gaps causes =
      if any (risk_matches frame task_lower) risks
      then accepted_before (times_accepted frame risks)
      else elim (first_theme task_lower gaps) [
        | some gap ↦ recurring_gap (head 60 gap)
        | none ↦ elim (first_theme task_lower causes) [
          | some cause ↦ prior_failed (head 60 cause)
          | none ↦ no_citation
        ]
      ]

  -- A provocation that cites something ranks high.
  unfoldable pub personalize : FrameCheck → Citation → Provocation
  personalize c no_citation = record {
    frame = c.frame;
    risk = c.check.1;
    severity = c.severity;
    personalized = false;
    citation = no_citation;
  }
  personalize c citation = record {
    frame = c.frame;
    risk = c.check.1;
    severity = high;
    personalized = true;
    citation = citation;
  }

  -- The loop over `frame_checks`.
  unfoldable pub provoke_all :
      String → List RiskEntry → List String → List String → List FrameCheck → List Provocation
  unfolding cite personalize
  provoke_all task_lower risks gaps causes [] = []
  provoke_all task_lower risks gaps causes (c ∷ cs) =
      let rest = provoke_all task_lower risks gaps causes cs in
      if c.check.0 then personalize c (cite c.frame task_lower risks gaps causes) ∷ rest else rest

  -- `if len(result) < min_count`
  unfoldable pub pad : ℕ → List Provocation → List Provocation → List Provocation
  unfolding take among select
  pad wanted sorted result =
      if ltb (length result) wanted
      then result ++ take (wanted - length result) (select (λ p. not (among p result)) sorted)
      else result

  -- At most three for M and seven otherwise; from L on five are wanted.
  unfoldable pub trim : TaskSize → List Provocation → List Provocation
  unfolding take pad
  trim size sorted =
      pad (if at_least_l size then 5 else 0) sorted
        (take (if nat_eq (rank size) 3 then 3 else 7) sorted)

  unfoldable pub generate_provocations :
      String → TaskSize → List RiskEntry → List String → List String → List Provocation
  unfolding provoke_all sort_on trim frame_checks
  generate_provocations task size risks gaps causes =
      let task_lower = texts.lower task in
      trim size
        (sort_on sort_key (provoke_all task_lower risks gaps causes (frame_checks task_lower size)))
