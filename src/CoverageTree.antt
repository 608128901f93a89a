-- ===== src/CoverageTree.antt =====
-- servers/core/src/coverage_tree.py: which concepts of a task were considered, and who checked it.
pub mod Verified
pub mod Asks
pub mod Mece
pub mod Templates
mod Tests
use youk.Prelude.{
  ℕ, zero, suc, String, Bool, true, false, not, ◌&&◌, ◌||◌, Option, none, some, List, [], ◌∷◌, ◌++◌,
  map, ◌==◌, if◌then◌else◌, any, select, contains, leb, ltb, length, sort_by, set_of,
}

pub data Coverage : Type 0 where
  covered partial missing not_applicable : Coverage

pub data Evidence : Type 0 where
  measured read inferred nothing : Evidence

pub data AdversaryStatus : Type 0 where
  clean found_gaps not_run : AdversaryStatus

pub record Node : Type 0 where
  pub concept : String
  pub covered : Coverage
  pub detail : String
  pub evidence : Evidence
  pub contested_by_adversary : Bool
  pub added_by_adversary : Bool

pub record Branch : Type 0 where
  pub domain : String
  pub nodes : List Node

abbrev pub is_missing : Node → Bool
is_missing n = elim (n.covered) [
  | missing ↦ true
  | covered ↦ false
  | partial ↦ false
  | not_applicable ↦ false
]

abbrev pub is_partial : Node → Bool
is_partial n = elim (n.covered) [
  | missing ↦ false
  | covered ↦ false
  | partial ↦ true
  | not_applicable ↦ false
]

abbrev pub is_covered : Node → Bool
is_covered n = elim (n.covered) [
  | missing ↦ false
  | covered ↦ true
  | partial ↦ false
  | not_applicable ↦ false
]

abbrev pub is_inferred : Node → Bool
is_inferred n = elim (n.evidence) [
  | inferred ↦ true
  | measured ↦ false
  | read ↦ false
  | nothing ↦ false
]

pub record CoverageTree : Type 0 where
  pub task : String
  pub branches : List Branch
  pub adversary_status : AdversaryStatus

-- The items of the dictionary from domains to their concepts.
abbrev pub Templates : Type 0
Templates = List (String × List String)

-- `templates.get(domain, [])`
unfoldable pub template_for : String → Templates → List String
template_for domain [] = []
template_for domain ((d, concepts) ∷ rest) =
    let later = template_for domain rest in if d == domain then concepts else later

-- `templates[domain] = concepts`: in its place, or at the end.
unfoldable pub set_template : String → List String → Templates → Templates
set_template domain concepts [] = (domain, concepts) ∷ []
set_template domain concepts ((d, old) ∷ rest) =
    let later = (d, old) ∷ set_template domain concepts rest in
    if d == domain then (d, concepts) ∷ rest else later

-- must_spawn_adversary
unfoldable pub must_spawn_adversary : List String → Bool → Bool → Bool
unfolding any
must_spawn_adversary domains high_stakes budget_available =
    if any (λ d. contains ("security" ∷ "data" ∷ []) d) domains
    then true
    else high_stakes && budget_available

-- check_mece: the repeated concepts, and the template's concepts that no node has.
abbrev pub repeated : List String → List String
repeated [] = []
repeated (c ∷ cs) = let rest = repeated cs in if contains cs c then c ∷ rest else rest

unfoldable pub check_mece : Branch → List String → Bool × List String × List String
unfolding contains select set_of
check_mece branch template =
    let concepts = map (λ (n : Node). n.concept) branch.nodes in
    let dupes = set_of (repeated concepts) in
    let absent = select (λ c. not (contains concepts c)) template in
    (leb (length dupes) 0 && leb (length absent) 0, dupes, absent)

-- The lines of review_order, each with what its text is made from.
pub data ReviewLine : Type 0 where
  gap_line infer_line contested_line partial_line : (domain : String) → Node → ReviewLine

abbrev pub risk_rank : String → ℕ
risk_rank domain =
    if domain == "security"
    then 0
    else if domain == "data"
    then 1
    else if domain == "correctness"
    then 2
    else if domain == "nfr"
    then 3
    else 99

abbrev pub by_risk : List (String × Node) → List (String × Node)
by_risk = sort_by (λ d e. leb (risk_rank d) (risk_rank e)) (λ x. x.0)

-- The nodes that pass a test, with their domains, in the order of the tree.
unfoldable pub nodes_where : (Node → Bool) → List Branch → List (String × Node)
unfolding select
nodes_where p [] = []
nodes_where p (b ∷ bs) = map (λ n. (b.domain, n)) (select p b.nodes) ++ nodes_where p bs

unfoldable pub review_order : CoverageTree → List ReviewLine
unfolding nodes_where sort_by
review_order tree =
    map (λ x. gap_line x.0 x.1) (by_risk (nodes_where is_missing tree.branches))
    ++ map (λ x. infer_line x.0 x.1)
        (nodes_where (λ n. is_covered n && is_inferred n) tree.branches)
    ++ map (λ x. contested_line x.0 x.1)
        (by_risk (nodes_where (λ n. n.contested_by_adversary) tree.branches))
    ++ map (λ x. partial_line x.0 x.1) (nodes_where is_partial tree.branches)

-- extract_task_specific_asks, on the fragments that its regular expressions split the task into.
module _ (lower : String → String) (word_count : String → ℕ) where
  -- The loop over the fragments; `room` is how many asks may still be taken.
  unfoldable pub take_asks : ℕ → List String → List String → List String
  unfolding contains
  take_asks zero seen fragments = []
  take_asks (suc room) seen [] = []
  take_asks (suc room) seen (f ∷ fs) =
      let skipped = take_asks (suc room) seen fs in
      let taken = f ∷ take_asks room (lower f ∷ seen) fs in
      if f == "" || ltb (word_count f) 3
      then skipped
      else if contains seen (lower f)
      then skipped
      else taken

  unfoldable pub extract_asks : List String → List String
  unfolding take_asks
  extract_asks fragments =
      let asks = take_asks 8 [] fragments in if ltb (length asks) 2 then [] else asks

-- What an adversary answers for a branch, `none` where it raises.
abbrev pub Adversary : Type 0
Adversary = String → Branch → List String → Option (List Node)

-- What build_tree does with one node of the answer.
abbrev pub contest : Node → Node → Node
contest n m = record m {
  contested_by_adversary = true;
  detail = if n.detail == "" then m.detail else n.detail;
}

unfoldable pub absorb : Node → List Node → List Node
absorb n [] = record n { added_by_adversary = true; contested_by_adversary = true } ∷ []
absorb n (m ∷ ms) =
    let later = m ∷ absorb n ms in if m.concept == n.concept then contest n m ∷ ms else later

unfoldable pub absorb_all : List Node → List Node → List Node
unfolding absorb
absorb_all [] ms = ms
absorb_all (n ∷ ns) ms = absorb_all ns (absorb n ms)

abbrev pub found_after : Bool → List Node → Bool
found_after found [] = found
found_after found (n ∷ ns) = true

-- The loop over the branches: the status, and the branches as it leaves them.
unfoldable pub challenge :
    Adversary → String → Templates → List Branch → Bool → AdversaryStatus × List Branch
unfolding absorb_all template_for
challenge adversary task templates [] found = (if found then found_gaps else clean, [])
challenge adversary task templates (b ∷ bs) found =
    elim (adversary task b (template_for b.domain templates)) [
      | none ↦ (not_run, b ∷ bs)
      | some additions ↦
          let rest = challenge adversary task templates bs (found_after found additions) in
          (rest.0, record b { nodes = absorb_all additions b.nodes } ∷ rest.1)
    ]

abbrev pub task_specific_domain : String
task_specific_domain = "task-specific asks"

-- `asks` is what extract_task_specific_asks answers, [] where the caller opts out of it.
abbrev pub with_asks : List String → Templates → Templates
with_asks [] templates = templates
with_asks (a ∷ as') templates = set_template task_specific_domain (a ∷ as') templates

abbrev pub domains_with : List String → List String → List String
domains_with [] domains = domains
domains_with (a ∷ as') domains = domains ++ task_specific_domain ∷ []

abbrev pub populated :
    (String → String → List String → List Node) → String → Templates → List String → List Branch
populated populate task templates =
    map (λ d. record { domain = d; nodes = populate task d (template_for d templates) })

unfoldable pub build_tree :
    Templates
    → List String
    → String
    → List String
    → (String → String → List String → List Node)
    → Option Adversary
    → CoverageTree
unfolding challenge template_for set_template
build_tree templates asks task domains populate adversary =
    let all = with_asks asks templates in
    let branches = populated populate task all (domains_with asks domains) in
    elim adversary [
      | none ↦ record { task = task; branches = branches; adversary_status = not_run }
      | some attack ↦
          let answer = challenge attack task all branches false in
          record { task = task; branches = answer.1; adversary_status = answer.0 }
    ]
