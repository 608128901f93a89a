-- ===== src/Verification/Gate/Stored.antt =====
-- What the file of a claim says, for Claim.to_dict of verification_contract.py.
use youk.Prelude.{
  true, false, not, some, List, [], ◌∷◌, map, any, any-false, any-mem, ◌≡◌, ◌↔◌, inl, inr, refl, ap,
  arith, Memᴰ, Bool-cases,
}
use youk.Verification.Stage.{Claim, SubClaim, verified}
use youk.Verification.SubClaims.{all_verified, is_verified}
use youk.Verification.Gate.{StoredSub, StoredClaim, store_sub, to_dict}

pub record SaysSub (sc : SubClaim) (s : StoredSub) : Type 0 where
  pub id : s.id ≡ sc.id
  pub mechanism : s.mechanism ≡ sc.mechanism
  pub host : s.host ≡ sc.host
  pub status : s.status ≡ sc.status
  pub evidence : s.evidence ≡ sc.evidence
  pub level : s.verification_level ≡ some sc.verification_level
  pub hint : s.pattern_hint ≡ sc.pattern_hint

-- One by one, in order.
pub data SaysSubs : List SubClaim → List StoredSub → Type 0 where
  no_more : SaysSubs [] []
  one_more :
      (sc : SubClaim) (s : StoredSub) (scs : List SubClaim) (ss : List StoredSub)
      → SaysSub sc s
      → SaysSubs scs ss
      → SaysSubs (sc ∷ scs) (s ∷ ss)

-- The file says all of the claim, and whether every sub-claim is verified.
pub record Says (c : Claim) (f : StoredClaim) : Type 0 where
  pub statement : f.statement ≡ c.statement
  pub dimension : f.dimension ≡ c.dimension
  pub sub_claims : SaysSubs c.sub_claims f.sub_claims
  pub verdict :
      (f.all_verified ≡ true) ↔ ((sc : SubClaim) → Memᴰ sc c.sub_claims → sc.status ≡ verified)
  pub stage : f.stage ≡ c.stage
  pub stage_history : f.stage_history ≡ c.stage_history
  pub size : f.size ≡ c.size
  pub rework_rounds : f.rework_rounds ≡ c.rework_rounds
  pub rework_log : f.rework_log ≡ c.rework_log

map-SaysSubs : (scs : List SubClaim) → SaysSubs scs (map store_sub scs)
map-SaysSubs [] = no_more
map-SaysSubs (sc ∷ scs) =
    one_more sc (store_sub sc) scs (map store_sub scs)
      (record {
        id = refl;
        mechanism = refl;
        host = refl;
        status = refl;
        evidence = refl;
        level = refl;
        hint = refl;
      })
      (map-SaysSubs scs)

verified_iff : (sc : SubClaim) → (is_verified sc ≡ true) ↔ (sc.status ≡ verified)
verified_iff sc = ground arith

all_verified_lem :
    (scs : List SubClaim)
    → (all_verified scs ≡ true) ↔ ((sc : SubClaim) → Memᴰ sc scs → sc.status ≡ verified)
unfolding all_verified
all_verified_lem scs =
    let bad = λ (sc : SubClaim). not (is_verified sc) in
    (
      λ h sc m.
          let none_bad : any bad scs ≡ false = ground arith in
          let here = any-false bad scs none_bad m in (verified_iff sc).0 (ground arith),
      λ all. elim (Bool-cases (any bad scs)) [
        | inr good ↦ ap not good
        | inl found ↦
            let (sc, m, b) = any-mem bad scs found in
            let v = (verified_iff sc).1 (all sc m) in cc (b, v)
      ],
    )

pub to_dict-Says : (c : Claim) → Says c (to_dict c)
unfolding to_dict
to_dict-Says c = record {
  statement = refl;
  dimension = refl;
  sub_claims = map-SaysSubs c.sub_claims;
  verdict = all_verified_lem c.sub_claims;
  stage = refl;
  stage_history = refl;
  size = refl;
  rework_rounds = refl;
  rework_log = refl;
}
