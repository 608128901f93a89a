-- ===== src/GapResolution/Tests.antt =====
-- reverify_gap_signals at two skills, one of which has no text.
use youk.Prelude.{String, List, [], ◌∷◌, ◌==◌, if◌then◌else◌, ◌≡◌, refl}
use youk.GapResolution.{Signal, reverify_gap_signals}
use youk.GapResolution.Partition.{Partition, reverify_gap_signals-Partition}

abbrev words : String → List String
words t = if t == "late" then "timeout" ∷ [] else "cache" ∷ "retry" ∷ "limit" ∷ []

abbrev strip : String → String
strip t = t

abbrev text_of : String → String
text_of name = if name == "gone" then "" else "text"

abbrev signals : List Signal
signals =
    record { skill = "caching"; gaps = "bounds" ∷ "late" ∷ [] }
    ∷ record { skill = "gone"; gaps = "bounds" ∷ [] }
    ∷ []

still_open :
    (reverify_gap_signals words strip text_of signals).open_signals
    ≡ record { skill = "caching"; gaps = "late" ∷ [] }
      ∷ record { skill = "gone"; gaps = "bounds" ∷ [] }
      ∷ []
unfolding reverify_gap_signals
still_open = refl

two_checked : (reverify_gap_signals words strip text_of signals).checked ≡ 2
unfolding reverify_gap_signals
two_checked = refl

reverify_gap_signals-Partition_example : Partition words strip text_of "caching" "bounds" signals
reverify_gap_signals-Partition_example =
    reverify_gap_signals-Partition words strip text_of "caching" "bounds" signals
