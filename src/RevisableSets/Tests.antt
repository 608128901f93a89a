-- ===== src/RevisableSets/Tests.antt =====
-- A small registry, and the theorems on revisable_sets.py at it.
use youk.Prelude.{none, some, [], ◌∷◌, ◌≡◌, refl, inr}
use youk.RevisableSets.{
  RevisableSet, Registry, enroll, enrollment_error, find, keys, learn_add, unlearn_prune, revert,
}
use youk.RevisableSets.Sound.{IsSound, enrolls, adds, reverts, perform_all, perform_all-IsSound}
use youk.RevisableSets.Undo.{Restores, Distinct, revert-undoes}

program : Unit {0}
unfolding enroll learn_add unlearn_prune revert perform_all
program = tt

abbrev angles : RevisableSet
angles = record {
  name = "angles";
  policy = "both";
  elements =
      ("cost", record { added_by = "enroll"; added_at = 1; fires = 0 })
      ∷ ("risk", record { added_by = "enroll"; added_at = 1; fires = 0 })
      ∷ [];
  version = 0;
  history = [];
}

abbrev registry : Registry
registry = ("angles", angles) ∷ []

enrolls_it : (enroll "angles" "both" ("cost" ∷ "risk" ∷ []) 1 []).1 ≡ registry
unfolding program
enrolls_it = refl

walled : (enroll "SECRET_SAFETY" "both" [] 1 registry).0 ≡ enrollment_error
unfolding program
walled = refl

abbrev pruned : Registry
pruned =
    (
      "angles",
      record angles {
        elements = ("cost", record { added_by = "enroll"; added_at = 1; fires = 0 }) ∷ [];
        version = 1;
        history = record { version = 0; elements = "cost" ∷ "risk" ∷ []; at = 2 } ∷ [];
      },
    )
    ∷ []

prunes_it : unlearn_prune "angles" "risk" 2 registry ≡ (none, pruned)
unfolding program
prunes_it = refl

found : find "angles" registry ≡ some angles
unfolding program find
found = refl

distinct : Distinct (keys angles.elements)
unfolding program
distinct = (refl, (refl, tt))

perform_all-IsSound_example : IsSound (
    perform_all
      (enrolls "angles" "both" ("cost" ∷ []) 1
        ∷ adds "angles" "risk" "human" 2
        ∷ reverts "angles" 3
        ∷ [])
      [])
perform_all-IsSound_example =
    perform_all-IsSound
      (enrolls "angles" "both" ("cost" ∷ []) 1
        ∷ adds "angles" "risk" "human" 2
        ∷ reverts "angles" 3
        ∷ [])
      [] λ name rs m. elim m [ ]

revert-undoes_example :
    (after : Registry) × (rs : RevisableSet) × (revert "angles" 3 pruned ≡ (none, after))
    × (find "angles" after ≡ some rs)
    × Restores angles rs
revert-undoes_example =
    revert-undoes "angles" "risk" "" 2 3 registry pruned angles found distinct (inr prunes_it)
