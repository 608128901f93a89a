-- ===== src/Verification/Gate/Routing.antt =====
-- Where a denial of the gate of verification_contract.py routes to.
use youk.Prelude.{
  Bool, true, Memᴰ, ap, arith, any-mem, any-false, false, ◌||◌, Option, none, some, List, [], ◌∷◌,
  any, select, ◌≡◌, ◌≢◌, ◌⊎◌, inl, inr, refl, Bool-cases, List-cases,
}
use youk.Verification.Stage.{
  Level, externally_verified, Stage, Result, ok, raise, not_rework, bound, decompose, rework_edges,
  stage_eq, gate,
}
use youk.Verification.Gate.{
  StoredSub, StoredClaim, is_external, is_open, Deny, no_independent_review, large, review_gate,
  deny_open, gate_claim_done,
}

-- Some sub-claim is externally verified.
abbrev pub HasExternal : StoredClaim → Type 0
HasExternal c =
    (sc : StoredSub) × Memᴰ sc c.sub_claims × (sc.verification_level ≡ some externally_verified)

-- What gate_claim_done answers for the preferred stage `s`.
pub data Routes (c : StoredClaim) (s : Stage) (require : Bool) : Result (Option Deny) → Type 0 where
  allows :
      select is_open c.sub_claims ≡ []
      → (require ≡ false) × (large c.size ≡ false) ⊎ HasExternal c
      → Routes c s require (ok none)
  declared :
      (d : Deny)
      → select is_open c.sub_claims ≢ []
      → d.routed_to ≡ s
      → (s ≡ bound) ⊎ (s ≡ decompose)
      → Routes c s require (ok (some d))
  refused :
      select is_open c.sub_claims ≢ []
      → s ≢ bound
      → s ≢ decompose
      → Routes c s require (raise not_rework)
  unchecked :
      select is_open c.sub_claims ≡ []
      → (require ≡ true) ⊎ (large c.size ≡ true)
      → ¬ HasExternal c
      → Routes c s require (ok (some (record { reason = no_independent_review; routed_to = s })))

known_cases :
    (s : Stage) → any (stage_eq s) (rework_edges gate) ≡ true → (s ≡ bound) ⊎ (s ≡ decompose)
unfolding rework_edges any
known_cases bound e = inl refl
known_cases decompose e = inr refl
known_cases _ e = cc

unknown_cases :
    (s : Stage) → any (stage_eq s) (rework_edges gate) ≡ false → (s ≢ bound) × (s ≢ decompose)
unfolding rework_edges any
unknown_cases s e = (λ h. cc, λ h. cc)

deny_open-Routes :
    (c : StoredClaim) (s : Stage) (require : Bool) (sc : StoredSub) (rest : List StoredSub)
    → select is_open c.sub_claims ≡ sc ∷ rest
    → Routes c s require (deny_open (sc ∷ rest) (some s))
unfolding deny_open
deny_open-Routes c s require sc rest h = elim (Bool-cases (any (stage_eq s) (rework_edges gate))) [
  | inl known ↦ rw known (declared _ open_subs refl (known_cases s known))
  | inr other ↦ rw other (let (a, b) = unknown_cases s other in refused open_subs a b)
]
  where
    open_subs : select is_open c.sub_claims ≢ []
    open_subs e = cc

external_level :
    (level : Option Level) → is_external level ≡ true → level ≡ some externally_verified
external_level level e = ground arith

review_due : (a b : Bool) → (a || b) ≡ true → (a ≡ true) ⊎ (b ≡ true)
review_due true b e = inl refl
review_due false b e = inr e

review_gate-Routes :
    (c : StoredClaim) (s : Stage) (require : Bool)
    → select is_open c.sub_claims ≡ []
    → Routes c s require (ok (review_gate c (some s) require))
unfolding review_gate
review_gate-Routes c s require h = elim (Bool-cases (require || large c.size)) [
  | inr small ↦ rw small (allows h (inl (ground arith)))
  | inl due ↦ elim (Bool-cases (any (λ sc. is_external sc.verification_level) c.sub_claims)) [
    | inl found ↦
        let (sc, m, e) = any-mem _ c.sub_claims found in
        rw (due, found) (allows h (inr (sc, m, external_level sc.verification_level e)))
    | inr missing ↦
        rw (due, missing)
          (unchecked h (review_due require (large c.size) due) λ (sc, m, e).
            let away = any-false _ c.sub_claims missing m in
            let here : is_external sc.verification_level ≡ true = ap is_external e in
            cc (away, here))
  ]
]

-- What gate_claim_done answers a caller with a preferred stage. With unresolved sub-claims it denies
-- and routes to that stage if that is BOUND or DECOMPOSE, and raises if it is any other. With none
-- unresolved, it allows only when no review is due or some sub-claim is externally verified; when
-- review is due and there is none, it denies and routes to that stage, whichever it is.
pub gate_claim_done-Routes :
    (c : StoredClaim) (s : Stage) (require : Bool)
    → Routes c s require (gate_claim_done (some c) (some s) require)
unfolding gate_claim_done
gate_claim_done-Routes c s require = elim (List-cases (select is_open c.sub_claims)) [
  | inr (sc, rest, h) ↦ rw (h, gate_claim_done) (deny_open-Routes c s require sc rest h)
  | inl h ↦ rw (h, gate_claim_done) (review_gate-Routes c s require h)
]
