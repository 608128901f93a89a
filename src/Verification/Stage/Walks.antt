-- ===== src/Verification/Stage/Walks.antt =====
-- What advance, rework and _walk_forward_to of verification_contract.py do, against paths of
-- declared edges.
use youk.Prelude.Memᴰ
use mathlib.Core.List.{append_assoc, append-nil}
use youk.Prelude.{
  ℕ, zero, suc, ◌+◌, ◌≤◌, String, true, false, Option, List, [], ◌∷◌, ◌++◌, length, any-of_mem, ◌≡◌,
  inl, inr, refl, sym, ◌∙◌, ap, subst, arith, Memᴰ, Bool-cases, nat_eq, if◌then◌else◌,
}
use youk.Verification.Stage.{
  Stage, intake, abstract, bound, research, diff, decompose, verify, pattern_capture, gate,
  retrieve, position, stage_eq, stage_count, forward_edges, Run, Error, ok, raise, >>=-eq-ok,
  Result-cases, advance, advanced_to, walk_forward, walk_forward_to, only_next,
}

stage_of : ℕ → Stage
stage_of n =
    if nat_eq n 0
    then intake
    else if nat_eq n 1
    then abstract
    else if nat_eq n 2
    then bound
    else if nat_eq n 3
    then research
    else if nat_eq n 4
    then diff
    else if nat_eq n 5
    then decompose
    else if nat_eq n 6
    then verify
    else if nat_eq n 7
    then pattern_capture
    else if nat_eq n 8
    then gate
    else retrieve

stage_of-position : (s : Stage) → stage_of (position s) ≡ s
unfolding stage_of
stage_of-position intake = refl
stage_of-position _ = refl

pub stage_eq_sound : (s t : Stage) → stage_eq s t ≡ true → s ≡ t
stage_eq_sound s t h =
    let same : position s ≡ position t = ground arith in
    sym (stage_of-position s) ∙ ap stage_of same ∙ stage_of-position t

pub stage_eq_refl : (s : Stage) → stage_eq s s ≡ true
stage_eq_refl s = ground arith

-- A walk along declared forward edges, with the stages that it leaves.
pub data ForwardPath : Stage → List Stage → Stage → Type 0 where
  stop : {s : Stage} → ForwardPath s [] s
  hop :
      {s n t : Stage} {p : List Stage}
      → Memᴰ n (forward_edges s)
      → ForwardPath n p t
      → ForwardPath s (s ∷ p) t

one_next :
    {n m : Stage}
    → Memᴰ n (m ∷ [])
    → (◌≡◌ {A = List Stage} (m ∷ []) (n ∷ [])) × (position n ≡ position m)
one_next i = let e = Memᴰ.eq_of_singleton i in (cc, ap position e)

-- Each stage has one successor at most, the next in the enumeration.
forward_edges-mem :
    (s : Stage) {n : Stage}
    → Memᴰ n (forward_edges s)
    → (forward_edges s ≡ n ∷ []) × (position n ≡ suc (position s))
unfolding forward_edges
forward_edges-mem gate m = elim m [ ]
forward_edges-mem retrieve m = elim m [ ]
forward_edges-mem _ m = one_next m

position-lt : (s : Stage) → position s ≤ 9
position-lt s = ground arith

ForwardPath-length :
    {s t : Stage} {p : List Stage} → ForwardPath s p t → position s + length p ≡ position t
ForwardPath-length stop = omega arith
ForwardPath-length (hop m rest) = omega (arith, (forward_edges-mem _ m).1, ForwardPath-length rest)

-- `r'` is `r` moved along `p` to `t`: nothing else of the claim has changed.
pub record Moved (r : Run) (t : Stage) (r' : Run) : Type 0 where
  pub path : List Stage
  pub declared : ForwardPath r.claim.stage path t
  pub claim :
      r'.claim ≡ record (r.claim) { stage = t; stage_history = r.claim.stage_history ++ path }

-- One declared step always succeeds.
advance-ok :
    (log : Option String) (r : Run) (n : Stage)
    → Memᴰ n (forward_edges r.claim.stage)
    → advance log r n ≡ ok (advanced_to log r n)
unfolding advance
advance-ok log r n m =
    rw (any-of_mem (stage_eq n) (forward_edges r.claim.stage) m (stage_eq_refl n))

Moved-hop :
    (log : Option String) (r : Run) (n t : Stage) {r' : Run}
    → Memᴰ n (forward_edges r.claim.stage)
    → Moved (advanced_to log r n) t r'
    → Moved r t r'
Moved-hop log r n t m later = record {
  path = r.claim.stage ∷ later.path;
  declared = hop m later.declared;
  claim = later.claim ∙ rw append_assoc;
}

Moved-stop : (r : Run) (t : Stage) → r.claim.stage ≡ t → Moved r t r
Moved-stop r t e = record {
  path = [];
  declared = subst (ForwardPath r.claim.stage []) e stop;
  claim = λ i. record (r.claim) {
    stage = e i;
    stage_history = sym (append-nil r.claim.stage_history) i;
  };
}

only_next-mem : (l : List Stage) {n : Stage} → only_next l ≡ ok n → Memᴰ n l
only_next-mem [] e = cc
only_next-mem (s ∷ []) e = Memᴰ.head (ground arith)
only_next-mem (s ∷ u ∷ l) e = cc

module _ (log : Option String) (t : Stage) where
  Arrives : ℕ → Run → Type 0
  Arrives guard r = (r' : Run) × (walk_forward guard log r t ≡ ok r') × Moved r t r'

  Arrives-stop : (guard : ℕ) (r : Run) → r.claim.stage ≡ t → Arrives guard r
  unfolding Arrives walk_forward
  Arrives-stop zero r e = (
    r,
    rw (subst (λ x. stage_eq r.claim.stage x ≡ true) e (stage_eq_refl r.claim.stage)),
    Moved-stop r t e,
  )
  Arrives-stop (suc guard) r e =
      let here : stage_eq r.claim.stage t ≡ true =
        subst (λ x. stage_eq r.claim.stage x ≡ true) e (stage_eq_refl r.claim.stage) in
      (r, rw (here, walk_forward), Moved-stop r t e)

  Arrives-hop :
      (guard : ℕ) (r : Run) (n : Stage)
      → stage_eq r.claim.stage t ≡ false
      → Memᴰ n (forward_edges r.claim.stage)
      → Arrives guard (advanced_to log r n)
      → Arrives (suc guard) r
  unfolding Arrives walk_forward
  Arrives-hop guard r n away m (r', e, moved) = (
    r',
    rw (away, walk_forward, (forward_edges-mem r.claim.stage m).0, advance-ok log r n m) e,
    Moved-hop log r n t m moved,
  )

  walk-Arrives :
      (guard : ℕ) (s : Stage) (r : Run) {p : List Stage}
      → ForwardPath s p t
      → r.claim.stage ≡ s
      → length p ≤ guard
      → Arrives guard r
  walk-Arrives guard s r stop e le = Arrives-stop guard r e
  walk-Arrives zero s r (hop m rest) e le = absurd (omega arith)
  walk-Arrives (suc guard) s r (hop {n = n} m rest) e le =
      let m' : Memᴰ n (forward_edges r.claim.stage) =
        subst (λ x. Memᴰ n (forward_edges x)) (sym e) m in
      let away : stage_eq r.claim.stage t ≡ false =
        ground (arith, ap position e, (forward_edges-mem s m).1, ForwardPath-length rest) in
      Arrives-hop guard r n away m'
        (walk-Arrives guard n (advanced_to log r n) rest refl (omega arith))

  walk_forward_sound : (guard : ℕ) (r r' : Run) → walk_forward guard log r t ≡ ok r' → Moved r t r'
  unfolding walk_forward
  walk_forward_sound zero r r' e = elim (Bool-cases (stage_eq r.claim.stage t)) [
    | inl here ↦
        let same : r ≡ r' = ground arith in
        subst (Moved r t) same (Moved-stop r t (stage_eq_sound r.claim.stage t here))
    | inr away ↦ absurd (ground arith)
  ]
  walk_forward_sound (suc guard) r r' e = elim (Bool-cases (stage_eq r.claim.stage t)) [
    | inl here ↦
        let e' : ok r ≡ ok r' = rw (here, walk_forward) at e in
        let same : r ≡ r' = cc in
        subst (Moved r t) same (Moved-stop r t (stage_eq_sound r.claim.stage t here))
    | inr away ↦
        let (n, next, e1) =
          >>=-eq-ok (only_next (forward_edges r.claim.stage)) _ (rw (away, walk_forward) at e) in
        let m = only_next-mem (forward_edges r.claim.stage) next in
        let (r1, moved, e2) = >>=-eq-ok (advance log r n) _ e1 in
        let same : r1 ≡ advanced_to log r n = cc (advance-ok log r n m) in
        Moved-hop log r n t m (subst (λ x. Moved x t r') same (walk_forward_sound guard r1 r' e2))
  ]

pub data WalkOutcome (log : Option String) (r : Run) (t : Stage) : Type 0 where
  arrives : (r' : Run) → walk_forward_to log r t ≡ ok r' → Moved r t r' → WalkOutcome log r t
  fails :
      (e : Error)
      → walk_forward_to log r t ≡ raise e
      → ((p : List Stage) → ¬ ForwardPath r.claim.stage p t)
      → WalkOutcome log r t

ForwardPath-le : {s t : Stage} {p : List Stage} → ForwardPath s p t → length p ≤ stage_count
ForwardPath-le {s} {t} path = omega (arith, ForwardPath-length path, position-lt t)

-- _walk_forward_to either arrives at `t`, having gone along declared forward edges only, with the
-- stages that it left added to the history and the rest of the claim unchanged; or it raises, and
-- then no declared path leads from the claim's stage to `t`.
pub walk_forward_to_lem : (log : Option String) (r : Run) (t : Stage) → WalkOutcome log r t
unfolding walk_forward_to Arrives
walk_forward_to_lem log r t = elim (Result-cases (walk_forward stage_count log r t)) [
  | inl (r', e) ↦ arrives r' e (walk_forward_sound log t stage_count r r' e)
  | inr (x, e) ↦ fails x e λ p path.
      let (r', e', moved) =
        walk-Arrives log t stage_count r.claim.stage r path refl (ForwardPath-le path) in
      cc
]
