-- ===== src/CoverageTree/Tests.antt =====
-- A small task, and the theorems on coverage_tree.py at it.
use youk.Prelude.{String, true, false, none, some, List, [], ◌∷◌, ◌≡◌, refl, map}
use youk.CoverageTree.{
  Node, Branch, covered, nothing, not_run, clean, found_gaps, Adversary, Templates, build_tree,
  check_mece, extract_asks, populated,
}
use youk.CoverageTree.Verified.{Honest, build_tree-Honest}
use youk.CoverageTree.Templates.{add_concept_to_template}
use youk.CoverageTree.Templates.Durable.{Added, add_concept_to_template-Added}

program : Unit {0}
unfolding build_tree check_mece extract_asks
program = tt

abbrev templates : Templates
templates = ("data", "schema change" ∷ []) ∷ []

abbrev node : String → Node
node concept = record {
  concept = concept;
  covered = covered;
  detail = "";
  evidence = nothing;
  contested_by_adversary = false;
  added_by_adversary = false;
}

abbrev populate : String → String → List String → List Node
populate task domain template = map node template

abbrev silent : Adversary
silent task branch template = some []

abbrev broken : Adversary
broken task branch template = none

abbrev critic : Adversary
critic task branch template = some (node "revert" ∷ [])

statuses :
    ((build_tree templates [] "t" ("data" ∷ []) populate (some silent)).adversary_status ≡ clean)
    × ((build_tree templates [] "t" ("data" ∷ []) populate (some broken)).adversary_status
        ≡ not_run)
    × ((build_tree templates [] "t" ("data" ∷ []) populate (some critic)).adversary_status
        ≡ found_gaps)
unfolding program
statuses = (refl, refl, refl)

build_tree-Honest_example :
    Honest templates "t"
      (populated populate "t" templates ("data" ∷ []))
      (build_tree templates [] "t" ("data" ∷ []) populate (some critic))
      (some critic)
build_tree-Honest_example = build_tree-Honest templates [] "t" ("data" ∷ []) populate (some critic)

-- Stands for str.lower on lower-case texts.
abbrev lower : String → String
lower s = s

abbrev branch : Branch
branch = record { domain = "data"; nodes = node "schema change" ∷ [] }

added_once : (add_concept_to_template "data" "revert" true templates none).0 ≡ true
unfolding add_concept_to_template
added_once = refl

add_concept_to_template-Added_example :
    Added "data" "revert" templates none
      (add_concept_to_template "data" "revert" true templates none)
add_concept_to_template-Added_example = add_concept_to_template-Added "data" "revert" templates none
