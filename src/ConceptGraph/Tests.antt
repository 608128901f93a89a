-- ===== src/ConceptGraph/Tests.antt =====
-- write_concepts at two concepts of one file.
use youk.Prelude.{String, List, [], ◌∷◌, ◌≡◌, refl}
use youk.ConceptGraph.{Concept, Tables, write_concepts}
use youk.ConceptGraph.Valid.{IsValid, KeysOnce, IdsOnce, EdgesOnce}
use youk.ConceptGraph.Linked.{write_concepts-IsValid}
use youk.ConceptGraph.Again.{Unchanged, write_concepts_again}

abbrev concept : String → String → Concept
concept label summary = record {
  label = label;
  kind = "domain";
  project_slug = "youk";
  session_n = 4;
  created_at = "2026-01-01";
  summary = summary;
  source_file = "caching.md";
}

abbrev two_of_a_file : List Concept
two_of_a_file = concept "cache" "kept" ∷ concept "eviction" "dropped" ∷ []

abbrev empty : Tables
empty = record { concepts = []; edges = []; next_id = 1 }

two_and_one :
    (write_concepts two_of_a_file "youk" 4 empty).0 ≡ record { written = 2; edges_written = 1 }
unfolding write_concepts
two_and_one = refl

joined_by_kind :
    (write_concepts two_of_a_file "youk" 4 empty).1.edges
    ≡ record { from_id = 1; to_id = 2; edge_type = "co_domain"; source_session = 4 } ∷ []
unfolding write_concepts
joined_by_kind = refl

empty-IsValid : IsValid empty
unfolding KeysOnce IdsOnce EdgesOnce
empty-IsValid = record { keys = tt; ids = tt; distinct = tt; ends = λ e i. elim i [ ] }

write_concepts-IsValid_example : IsValid (write_concepts two_of_a_file "youk" 4 empty).1
write_concepts-IsValid_example = write_concepts-IsValid two_of_a_file "youk" 4 empty empty-IsValid

write_concepts_again_example :
    Unchanged
      (write_concepts two_of_a_file "youk" 4 empty).1
      (write_concepts two_of_a_file "youk" 5 (write_concepts two_of_a_file "youk" 4 empty).1)
write_concepts_again_example = write_concepts_again two_of_a_file "youk" 4 5 empty
