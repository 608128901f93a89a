-- ===== src/Experiments.antt =====
-- servers/shared/ab_experiments.py: variants, exposures and reactions of an experiment.
pub mod Pilot
pub mod Pending
mod Tests
use Prim.Native.String.{◌++◌ as str_append}
use youk.Prelude.{
  ℕ, zero, suc, ◌-◌, String, Bool, true, false, not, ◌&&◌, Option, none, some, List, [], ◌∷◌, ◌++◌,
  ◌==◌, if◌then◌else◌, length, any, select, leb,
}

pub record Exposure : Type 0 where
  pub session_hash : String
  pub experiment : String
  pub skill : String
  pub variant : String

pub record Marker : Type 0 where
  pub experiment : String
  pub skill : String

pub record Reaction : Type 0 where
  pub session_hash : String
  pub experiment : String
  pub skill : String
  pub reaction : String

-- `n % 2` as a test for an odd number
unfoldable pub is_odd : ℕ → Bool
is_odd zero = false
is_odd (suc n) = not (is_odd n)

abbrev pub control : String
control = "control"

abbrev pub treatment : String
treatment = "treatment"

-- The items of the dictionary `markers`, by session hash.
abbrev pub Markers : Type 0
Markers = List (String × Marker)

unfoldable pub set_marker : String → Marker → Markers → Markers
set_marker key mark [] = (key, mark) ∷ []
set_marker key mark ((k, old) ∷ rest) =
    let later = (k, old) ∷ set_marker key mark rest in if k == key then (k, mark) ∷ rest else later

unfoldable pub find_marker : String → Markers → Option Marker
find_marker key [] = none
find_marker key ((k, mark) ∷ rest) =
    let later = find_marker key rest in if k == key then some mark else later

unfoldable pub drop_marker : String → Markers → Markers
drop_marker key [] = []
drop_marker key ((k, mark) ∷ rest) =
    let later = (k, mark) ∷ drop_marker key rest in if k == key then rest else later

pub record PilotStatus : Type 0 where
  pub experiment : String
  pub threshold : ℕ
  pub total : ℕ
  pub in_control : ℕ
  pub in_treatment : ℕ
  pub ready : Bool
  pub remaining : ℕ

unfoldable pub read_exposures : String → List Exposure → List Exposure
unfolding select
read_exposures experiment = select (λ e. e.experiment == experiment)

unfoldable pub pilot_status : String → ℕ → List Exposure → PilotStatus
unfolding read_exposures select
pilot_status experiment threshold log =
    let exposures = read_exposures experiment log in
    let total = length exposures in
    record {
      experiment = experiment;
      threshold = threshold;
      total = total;
      in_control = length (select (λ e. e.variant == control) exposures);
      in_treatment = length (select (λ e. e.variant == treatment) exposures);
      ready = leb threshold total;
      remaining = threshold - total;
    }

-- `first_byte` is the first byte of a text's SHA-256, `hash` its first hexadecimal digits.
module _ (first_byte : String → ℕ) (hash : String → String) where
  unfoldable pub assign_variant : String → String → String
  unfolding is_odd
  assign_variant session_slug experiment =
      if is_odd (first_byte (str_append session_slug (str_append ":" experiment)))
      then treatment
      else control

  abbrev pub is_exposed : String → String → String → Exposure → Bool
  is_exposed session_hash experiment skill e =
      e.session_hash == session_hash && (e.experiment == experiment && e.skill == skill)

  unfoldable pub log_exposure : String → String → String → String → List Exposure → List Exposure
  unfolding any
  log_exposure session_slug experiment skill variant records =
      if any (is_exposed (hash session_slug) experiment skill) records
      then records
      else records
        ++ record {
          session_hash = hash session_slug;
          experiment = experiment;
          skill = skill;
          variant = variant;
        }
          ∷ []

  unfoldable pub write_pending_reaction : String → String → String → Markers → Markers
  unfolding set_marker
  write_pending_reaction session_slug experiment skill markers =
      set_marker (hash session_slug) (record { experiment = experiment; skill = skill }) markers

  unfoldable pub consume_pending_reaction : String → Markers → Option Marker × Markers
  unfolding find_marker drop_marker
  consume_pending_reaction session_slug markers = elim (find_marker (hash session_slug) markers) [
    | none ↦ (none, markers)
    | some mark ↦ (some mark, drop_marker (hash session_slug) markers)
  ]

  unfoldable pub log_reaction : String → String → String → String → List Reaction → List Reaction
  log_reaction session_slug experiment skill reaction records =
      records
      ++ record {
        session_hash = hash session_slug;
        experiment = experiment;
        skill = skill;
        reaction = reaction;
      }
        ∷ []
