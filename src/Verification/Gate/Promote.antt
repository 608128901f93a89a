-- ===== src/Verification/Gate/Promote.antt =====
-- What mark_externally_verified of verification_contract.py does to the gate's answer.
use youk.Prelude.Memᴰ
use youk.Prelude.{
  String, Bool, Option, none, some, List, [], ◌∷◌, map, ◌==◌, ◌≡◌, inl, inr, refl, sym, ◌∙◌, ap,
  subst, arith, Memᴰ, Bool-cases, eq_iff,
}
use youk.Verification.Stage.{Claim, SubClaim, Stage, verified, externally_verified, ok, >>=-eq-ok}
use youk.Verification.Gate.{
  StoredSub, gate_claim_done, to_dict, store_sub, promote, mark_externally_verified,
}
use youk.Verification.Gate.Allows.{gate_claim_done_iff}

-- Promoting one sub-claim leaves every status, in order, and makes one level external.
record Promoted (subs done : List SubClaim) : Type 0 where
  statuses : map (λ (sc : SubClaim). sc.status) done ≡ map (λ (sc : SubClaim). sc.status) subs
  promoted : SubClaim
  mem : Memᴰ promoted done
  level : promoted.verification_level ≡ externally_verified

promote-Promoted :
    (id : String) (subs done : List SubClaim) → promote id subs ≡ ok done → Promoted subs done
unfolding promote
promote-Promoted id [] done e = cc
promote-Promoted id (sc ∷ subs) done e = elim (Bool-cases (sc.id == id)) [
  | inl here ↦
      let e' = rw (here, promote) at e in
      let new : SubClaim = record sc { verification_level = externally_verified } in
      let same : new ∷ subs ≡ done = cc in
      subst (Promoted (sc ∷ subs)) same
        (record { statuses = refl; promoted = new; mem = Memᴰ.head refl; level = refl })
  | inr later ↦
      let (rest, e1, e2) = >>=-eq-ok (promote id subs) _ (rw (later, promote) at e) in
      let p = promote-Promoted id subs rest e1 in
      let same : sc ∷ rest ≡ done = cc in
      subst (Promoted (sc ∷ subs)) same (record {
        statuses = ap (λ l. sc.status ∷ l) p.statuses;
        promoted = p.promoted;
        mem = Memᴰ.tail p.mem;
        level = p.level;
      })
]

statuses-verified :
    (subs done : List SubClaim)
    → map (λ (sc : SubClaim). sc.status) done ≡ map (λ (sc : SubClaim). sc.status) subs
    → ((sc : SubClaim) → Memᴰ sc subs → sc.status ≡ verified)
    → (sc : SubClaim) → Memᴰ sc done
    → sc.status ≡ verified
statuses-verified subs done e all sc m =
    let here = subst (Memᴰ sc.status) e (Memᴰ.map (λ (x : SubClaim). x.status) m) in
    let (x, i, k) = Memᴰ.of_map (λ (x : SubClaim). x.status) subs here in sym k ∙ all x i

promote-mem :
    (id : String) (subs : List SubClaim)
    → Memᴰ id (map (λ (sc : SubClaim). sc.id) subs)
    → (done : List SubClaim) × (promote id subs ≡ ok done)
unfolding promote
promote-mem id [] m = elim m [ ]
promote-mem id (sc ∷ subs) m = elim (Bool-cases (sc.id == id)) [
  | inl here ↦ (record sc { verification_level = externally_verified } ∷ subs, rw (here, promote))
  | inr other ↦ elim (Memᴰ.cases_cons m) [
    | inl e ↦ absurd (ground (arith, eq_iff sc.id id))
    | inr i ↦ let (rest, e) = promote-mem id subs i in (sc ∷ rest, rw (other, promote, e))
  ]
]

promoted-gate :
    (c c' : Claim) (id : String) (preferred : Option Stage) (require : Bool)
    → mark_externally_verified c id ≡ ok c'
    → ((sc : SubClaim) → Memᴰ sc c.sub_claims → sc.status ≡ verified)
    → gate_claim_done (some (to_dict c')) preferred require ≡ ok none
unfolding mark_externally_verified to_dict
promoted-gate c c' id preferred require e all =
    let (done, e1, e2) = >>=-eq-ok (promote id c.sub_claims) _ e in
    let p = promote-Promoted id c.sub_claims done e1 in
    let same : c'.sub_claims ≡ done = cc in
    (gate_claim_done_iff (to_dict c') preferred require).1 (record {
      resolved = λ sc m.
          let (x, i, k) = Memᴰ.of_map store_sub c'.sub_claims m in
          let v = statuses-verified c.sub_claims done p.statuses all x (subst (Memᴰ x) same i) in
          sym (ap (λ (y : StoredSub). y.status) k) ∙ v;
      reviewed = inr (
        store_sub p.promoted,
        Memᴰ.map store_sub (subst (Memᴰ p.promoted) (sym same) p.mem),
        ap some p.level,
      );
    })

-- When every sub-claim of a claim is verified, mark_externally_verified on the id of any of them
-- succeeds, and the claim that results passes the gate, whatever its size, whatever the preferred
-- stage, and whether or not review is required.
pub mark_externally_verified-gate :
    (c : Claim) (id : String) (preferred : Option Stage) (require : Bool)
    → Memᴰ id (map (λ (sc : SubClaim). sc.id) c.sub_claims)
    → ((sc : SubClaim) → Memᴰ sc c.sub_claims → sc.status ≡ verified)
    → (c' : Claim) × (mark_externally_verified c id ≡ ok c')
      × (gate_claim_done (some (to_dict c')) preferred require ≡ ok none)
unfolding mark_externally_verified
mark_externally_verified-gate c id preferred require m all =
    let (done, e) = promote-mem id c.sub_claims m in
    let e' : mark_externally_verified c id ≡ ok (record c { sub_claims = done }) = rw e in
    (record c { sub_claims = done }, e', promoted-gate c _ id preferred require e' all)
