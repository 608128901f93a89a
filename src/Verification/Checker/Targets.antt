-- ===== src/Verification/Checker/Targets.antt =====
-- The stages that run_rework_loop of verification_contract.py may rework to.
use youk.Prelude.{
  String, true, false, Option, List, [], ◌∷◌, ◌≡◌, refl, sym, ap, subst, Memᴰ, any-of_mem,
}
use youk.Verification.Stage.{
  Stage, verify, bound, decompose, Reason, Run, ok, rework, reworked_to, rework_edges,
  forward_edges, stage_eq,
}
use youk.Verification.Stage.Walks.{ForwardPath, stop, hop, stage_eq_refl}
use youk.Verification.Checker.{is_empty}

pub empty-of_eq : {xs : List String} → xs ≡ [] → is_empty xs ≡ true
empty-of_eq e = ap is_empty e

pub empty_false : {xs rest : List String} {x : String} → xs ≡ x ∷ rest → is_empty xs ≡ false
empty_false e = ap is_empty e

-- The two rework targets of VERIFY.
pub data IsTarget : Stage → Type 0 where
  to_bound : IsTarget bound
  to_decompose : IsTarget decompose

target-mem : {t : Stage} → IsTarget t → Memᴰ t (rework_edges verify)
unfolding rework_edges
target-mem to_bound = Memᴰ.head refl
target-mem to_decompose = Memᴰ.tail (Memᴰ.head refl)

pub target-path : {t : Stage} → IsTarget t → (p : List Stage) × ForwardPath t p verify
unfolding forward_edges
target-path to_bound = (
  _,
  hop (Memᴰ.head refl) (hop (Memᴰ.head refl) (hop (Memᴰ.head refl) (hop (Memᴰ.head refl) stop))),
)
target-path to_decompose = (_, hop (Memᴰ.head refl) stop)

pub rework-ok :
    (log : Option String) (r : Run) {t : Stage} (reason : Reason)
    → IsTarget t
    → r.claim.stage ≡ verify
    → rework log r t reason ≡ ok (reworked_to log r t reason)
unfolding rework
rework-ok log r {t} reason target e =
    let m : Memᴰ t (rework_edges r.claim.stage) =
      subst (λ s. Memᴰ t (rework_edges s)) (sym e) (target-mem target) in
    rw (any-of_mem (stage_eq t) (rework_edges r.claim.stage) m (stage_eq_refl t))
