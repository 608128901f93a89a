-- ===== src/Experiments/Tests.antt =====
-- ab_experiments.py at two sessions and one experiment.
use youk.Prelude.{ℕ, String, none, List, [], ◌∷◌, ◌≡◌, refl}
use youk.Experiments.{pilot_status, find_marker}
use youk.Experiments.Pilot.{Meeting, log_all, Counted, Status, log_all_lem}
use youk.Experiments.Pending.{expose, message, perform_all, serve_all, Represents, markers_refine}

abbrev even_byte : String → ℕ
even_byte t = 2

abbrev hash : String → String
hash t = t

abbrev twice : List Meeting
twice =
    record { session_slug = "s1"; experiment = "pilot"; skill = "nfr" }
    ∷ record { session_slug = "s1"; experiment = "pilot"; skill = "nfr" }
    ∷ record { session_slug = "s2"; experiment = "pilot"; skill = "nfr" }
    ∷ []

two_left : (pilot_status "pilot" 4 (log_all even_byte hash twice [])).remaining ≡ 2
unfolding pilot_status log_all
two_left = refl

log_all_lem_example :
    Counted even_byte hash twice (log_all even_byte hash twice [])
    × Status even_byte hash "pilot" 4 (log_all even_byte hash twice [])
log_all_lem_example = log_all_lem even_byte hash twice "pilot" 4

nothing_waits : Represents even_byte hash [] (λ h. none)
unfolding find_marker
nothing_waits = record { once = tt; finds = λ h. refl }

markers_refine_example :
    ((perform_all even_byte hash
        (expose "s1" "pilot" "nfr" ∷ message "s1" ∷ message "s1" ∷ [])
        []).0
      ≡ (serve_all even_byte hash
          (expose "s1" "pilot" "nfr" ∷ message "s1" ∷ message "s1" ∷ [])
          (λ h. none)).0)
    × Represents even_byte hash
        (perform_all even_byte hash
          (expose "s1" "pilot" "nfr" ∷ message "s1" ∷ message "s1" ∷ [])
          []).1
        (serve_all even_byte hash
          (expose "s1" "pilot" "nfr" ∷ message "s1" ∷ message "s1" ∷ [])
          (λ h. none)).1
markers_refine_example =
    markers_refine even_byte hash (expose "s1" "pilot" "nfr" ∷ message "s1" ∷ message "s1" ∷ []) []
      (λ h. none) nothing_waits
