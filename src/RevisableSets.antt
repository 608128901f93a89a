-- ===== src/RevisableSets.antt =====
-- servers/core/src/revisable_sets.py: the registry of sets that may be revised, and its revisions.
pub mod Versions
pub mod Sound
pub mod Undo
mod Tests
use youk.Prelude.{
  ℕ, suc, String, Bool, true, false, Option, none, some, List, [], ◌∷◌, ◌++◌, map, ◌==◌, ◌||◌, not,
  if◌then◌else◌, contains, leb, length,
}

-- Where an element comes from; a time is a reading of the clock.
pub record Provenance : Type 0 where
  pub added_by : String
  pub added_at : ℕ
  pub fires : ℕ

pub record Snapshot : Type 0 where
  pub version : ℕ
  pub elements : List String
  pub at : ℕ

-- The items of the dictionary from elements, in order.
abbrev pub Elements : Type 0
Elements = List (String × Provenance)

pub record RevisableSet : Type 0 where
  pub name : String
  pub policy : String
  pub elements : Elements
  pub version : ℕ
  pub history : List Snapshot

-- The items of the dictionary that `_load_registry` reads and `_save_registry` writes.
abbrev pub Registry : Type 0
Registry = List (String × RevisableSet)

abbrev pub frozen_hard_blocked : List String
frozen_hard_blocked =
    "_CODE_EXTS" ∷ "_DOC_EXTS" ∷ "_CONFIG_EXTS" ∷ "_ALL_EXTS" ∷ "_SKIP_DIRS" ∷ "_STOP_WORDS"
    ∷ "_ALLOWED_WRITE_ROOTS" ∷ "SECRET_SAFETY" ∷ "CONTRACT_VERBATIM" ∷ []

abbrev pub valid_policies : List String
valid_policies = "grow" ∷ "prune" ∷ "both" ∷ []

-- `d.get(key)`
unfoldable pub find {ℓ} : {A : Type ℓ} → String → List (String × A) → Option A
find key [] = none
find key ((k, a) ∷ rest) = let later = find key rest in if k == key then some a else later

-- `d[key] = a` for a key that is there.
unfoldable pub replace {ℓ} : {A : Type ℓ} → String → A → List (String × A) → List (String × A)
replace key a [] = []
replace key a ((k, b) ∷ rest) = (k, if k == key then a else b) ∷ replace key a rest

-- `del d[key]`
unfoldable pub remove {ℓ} : {A : Type ℓ} → String → List (String × A) → List (String × A)
remove key [] = []
remove key ((k, a) ∷ rest) =
    let later = remove key rest in if k == key then later else (k, a) ∷ later

abbrev pub keys {ℓ} : {A : Type ℓ} → List (String × A) → List String
keys = map (λ item. item.0)

-- A dictionary comprehension over `names`: a repeated name keeps its first place.
unfoldable pub from_keys {ℓ} : {A : Type ℓ} → (String → A) → List String → List (String × A)
unfolding remove
from_keys f [] = []
from_keys f (n ∷ ns) = (n, f n) ∷ remove n (from_keys f ns)

pub data EnrollReply : Type 0 where
  enrolled : (element_count : ℕ) → EnrollReply
  enrollment_error policy_error : EnrollReply

abbrev pub new_set : String → String → List String → ℕ → RevisableSet
new_set name policy initial now = record {
  name = name;
  policy = policy;
  elements = from_keys (λ e. record { added_by = "enroll"; added_at = now; fires = 0 }) initial;
  version = 0;
  history = [];
}

unfoldable pub enroll : String → String → List String → ℕ → Registry → EnrollReply × Registry
unfolding contains find replace from_keys
enroll name policy initial now reg =
    if contains frozen_hard_blocked name
    then (enrollment_error, reg)
    else if not (contains valid_policies policy)
    then (policy_error, reg)
    else elim (find name reg) [
      | some rs ↦ (enrolled (length rs.elements), replace name (record rs { policy = policy }) reg)
      | none ↦
          let rs = new_set name policy initial now in
          (enrolled (length rs.elements), reg ++ (name, rs) ∷ [])
    ]

abbrev pub snapshot : ℕ → RevisableSet → RevisableSet
snapshot now rs = record rs {
  history =
      rs.history ++ record { version = rs.version; elements = keys rs.elements; at = now } ∷ [];
  version = suc rs.version;
}

pub data Refusal : Type 0 where
  not_enrolled policy_forbids already_present not_present last_element nothing_to_revert : Refusal

-- What an operation does to the set it is about: refuse, or save a changed set.
pub data Attempt : Type 0 where
  refuse : Refusal → Attempt
  change : RevisableSet → Attempt

unfoldable pub learn : String → String → ℕ → RevisableSet → Attempt
unfolding contains
learn element driver now rs =
    if not (rs.policy == "grow" || rs.policy == "both")
    then refuse policy_forbids
    else if contains (keys rs.elements) element
    then refuse already_present
    else change (record (snapshot now rs) {
      elements =
          rs.elements ++ (element, record { added_by = driver; added_at = now; fires = 0 }) ∷ [];
    })

unfoldable pub unlearn : String → ℕ → RevisableSet → Attempt
unfolding contains remove
unlearn element now rs =
    if not (rs.policy == "prune" || rs.policy == "both")
    then refuse policy_forbids
    else if not (contains (keys rs.elements) element)
    then refuse not_present
    else if leb (length rs.elements) 1
    then refuse last_element
    else change (record (snapshot now rs) { elements = remove element rs.elements })

-- `history.pop()`: the snapshots before the last, and the last.
unfoldable pub pop : List Snapshot → Option (List Snapshot × Snapshot)
pop [] = none
pop (s ∷ ss) = elim (pop ss) [ none ↦ some ([], s) | some (before, last) ↦ some (s ∷ before, last) ]

-- `rs.elements.get(e, …)`
abbrev pub kept : ℕ → Elements → String → Provenance
kept now elements e = elim (find e elements) [
  | none ↦ record { added_by = "revert"; added_at = now; fires = 0 }
  | some p ↦ p
]

unfoldable pub undo : ℕ → RevisableSet → Attempt
unfolding pop from_keys find
undo now rs = elim (pop rs.history) [
  | none ↦ refuse nothing_to_revert
  | some (before, prior) ↦ change (record rs {
    history = before;
    elements = from_keys (kept now rs.elements) prior.elements;
    version = prior.version;
  })
]

-- The lookup of `name` that the three operations begin with, and the save at their end.
unfoldable pub on_set :
    String → Refusal → (RevisableSet → Attempt) → Registry → Option Refusal × Registry
unfolding find replace
on_set name missing f reg = elim (find name reg) [
  | none ↦ (some missing, reg)
  | some rs ↦ elim (f rs) [
    | refuse why ↦ (some why, reg)
    | change rs' ↦ (none, replace name rs' reg)
  ]
]

unfoldable pub learn_add : String → String → String → ℕ → Registry → Option Refusal × Registry
unfolding on_set learn
learn_add name element driver now = on_set name not_enrolled (learn element driver now)

unfoldable pub unlearn_prune : String → String → ℕ → Registry → Option Refusal × Registry
unfolding on_set unlearn
unlearn_prune name element now = on_set name not_enrolled (unlearn element now)

unfoldable pub revert : String → ℕ → Registry → Option Refusal × Registry
unfolding on_set undo
revert name now = on_set name nothing_to_revert (undo now)
