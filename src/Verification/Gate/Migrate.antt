-- ===== src/Verification/Gate/Migrate.antt =====
-- What the migration of old claim files in verification_contract.py does to the gate's answer.
use youk.Prelude.{
  Bool, false, Option, some, List, [], ◌∷◌, map, any, select, ◌≡◌, inl, inr, refl, ◌∙◌, ap, arith,
  Bool-cases, List-cases,
}
use youk.Verification.Stage.{Stage, ok}
use youk.Verification.Gate.{
  StoredSub, StoredClaim, is_external, is_open, review_gate, deny_open, gate_claim_done, listed,
  migrate_sub, lacks_level, migrate_claim_file,
}

select-migrate :
    (subs : List StoredSub)
    → select is_open (map migrate_sub subs) ≡ map migrate_sub (select is_open subs)
unfolding select
select-migrate [] = refl
select-migrate (sc ∷ subs) = ground (arith, select-migrate subs)

pairs-migrate : (subs : List StoredSub) → map listed (map migrate_sub subs) ≡ map listed subs
pairs-migrate [] = refl
pairs-migrate (sc ∷ subs) = ground (arith, pairs-migrate subs)

external-migrate :
    (subs : List StoredSub)
    → any (λ (sc : StoredSub). is_external sc.verification_level) (map migrate_sub subs)
      ≡ any (λ (sc : StoredSub). is_external sc.verification_level) subs
unfolding any
external-migrate [] = refl
external-migrate (sc ∷ subs) = ground (arith, external-migrate subs)

lacks-migrate : (subs : List StoredSub) → any lacks_level (map migrate_sub subs) ≡ false
unfolding any
lacks-migrate [] = refl
lacks-migrate (sc ∷ subs) = ground (arith, lacks-migrate subs)

review_gate-migrate :
    (c : StoredClaim) (preferred : Option Stage) (require : Bool)
    → review_gate (record c { sub_claims = map migrate_sub c.sub_claims }) preferred require
      ≡ review_gate c preferred require
unfolding review_gate
review_gate-migrate c preferred require = rw (external-migrate c.sub_claims)

deny_open-migrate :
    (subs : List StoredSub) (preferred : Option Stage)
    → deny_open (map migrate_sub subs) preferred ≡ deny_open subs preferred
unfolding deny_open
deny_open-migrate subs preferred = rw (pairs-migrate subs)

gate-migrate :
    (c : StoredClaim) (preferred : Option Stage) (require : Bool)
    → gate_claim_done
        (some (record c { sub_claims = map migrate_sub c.sub_claims }))
        preferred
        require
      ≡ gate_claim_done (some c) preferred require
unfolding gate_claim_done
gate-migrate c preferred require = elim (List-cases (select is_open c.sub_claims)) [
  | inl h ↦
      let h' = select-migrate c.sub_claims ∙ ap (map migrate_sub) h in
      rw (h', gate_claim_done)
        (rw (h, gate_claim_done) (ap ok (review_gate-migrate c preferred require)))
  | inr (sc, rest, h) ↦
      let h' = select-migrate c.sub_claims ∙ ap (map migrate_sub) h in
      rw (h', gate_claim_done) (rw (h, gate_claim_done) (deny_open-migrate (sc ∷ rest) preferred))
]

-- Migrating a claim file changes no answer of the gate, and a second migration rewrites nothing.
pub migrate_claim_file_lem :
    (c : StoredClaim) (preferred : Option Stage) (require : Bool)
    → (gate_claim_done (some (migrate_claim_file c).1) preferred require
        ≡ gate_claim_done (some c) preferred require)
      × (migrate_claim_file (migrate_claim_file c).1 ≡ (false, (migrate_claim_file c).1))
unfolding migrate_claim_file
migrate_claim_file_lem c preferred require = elim (Bool-cases (any lacks_level c.sub_claims)) [
  | inl old ↦ rw old (gate-migrate c preferred require, rw (lacks-migrate c.sub_claims))
  | inr current ↦ rw current (refl, rw current)
]
