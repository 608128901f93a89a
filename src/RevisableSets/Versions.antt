-- ===== src/RevisableSets/Versions.antt =====
-- The versions and snapshots of a set of revisable_sets.py, through learn, unlearn and undo.
use youk.Prelude.Memᴰ
use youk.Prelude.{
  ℕ, suc, ◌+◌, ◌<◌, String, true, false, none, some, List, [], ◌∷◌, ◌++◌, ◌==◌, contains, length,
  length-append, ◌≡◌, ◌⊎◌, inl, inr, refl, sym, ap, ◌∙◌, subst, arith, eq_iff, Memᴰ, Bool-cases,
  Option-cases,
}
use youk.RevisableSets.{
  Snapshot, Elements, RevisableSet, valid_policies, find, replace, remove, keys, from_keys,
  snapshot, Refusal, Attempt, refuse, change, learn, unlearn, pop, kept, undo,
}

module _ {ℓ} {A : Type ℓ} where
  pub find-mem :
      (key : String) (d : List (String × A)) {a : A} → find key d ≡ some a → Memᴰ (key, a) d
  unfolding find
  find-mem key [] e = cc
  find-mem key ((k, b) ∷ d) {a} e = elim (Bool-cases (k == key)) [
    | inl here ↦
        let same : b ≡ a = ground arith in
        let name : k ≡ key = (eq_iff k key).0 here in Memᴰ.head (λ i. (sym name i, sym same i))
    | inr other ↦ Memᴰ.tail (find-mem key d (ground arith))
  ]

  pub replace-mem :
      (key : String) (a : A) (d : List (String × A)) {k : String} {b : A}
      → Memᴰ (k, b) (replace key a d)
      → Memᴰ (k, b) d ⊎ ((k ≡ key) × (b ≡ a))
  unfolding replace
  replace-mem key a [] m = elim m [ ]
  replace-mem key a ((k', c) ∷ d) {k} {b} m = elim (Memᴰ.cases_cons m) [
    | inr later ↦ elim (replace-mem key a d later) [ inl i ↦ inl (Memᴰ.tail i) | inr r ↦ inr r ]
    | inl e ↦ elim (Bool-cases (k' == key)) [
      | inl here ↦
          let e' = rw here at e in inr (ap (λ x. x.0) e' ∙ (eq_iff k' key).0 here, ap (λ x. x.1) e')
      | inr other ↦ inl (Memᴰ.head (rw other at e))
    ]
  ]

-- The snapshots are numbered from `n`, in order.
abbrev pub Counted : ℕ → List Snapshot → Type 0
Counted n [] = Unit {0}
Counted n (s ∷ ss) = (s.version ≡ n) × Counted (suc n) ss

Counted-snoc :
    (n : ℕ) (ss : List Snapshot) (s : Snapshot)
    → Counted n ss
    → s.version ≡ n + length ss
    → Counted n (ss ++ s ∷ [])
Counted-snoc n [] s c e = (omega arith, tt)
Counted-snoc n (x ∷ ss) s (h, c) e = (h, Counted-snoc (suc n) ss s c (omega arith))

Counted-unsnoc :
    (n : ℕ) (ss : List Snapshot) (s : Snapshot)
    → Counted n (ss ++ s ∷ [])
    → Counted n ss × (s.version ≡ n + length ss)
Counted-unsnoc n [] s (h, c) = (tt, omega arith)
Counted-unsnoc n (x ∷ ss) s (h, c) =
    let (i, e) = Counted-unsnoc (suc n) ss s c in ((h, i), omega arith)

pub Attempt-cases :
    (a : Attempt) → ((why : Refusal) × (a ≡ refuse why)) ⊎ ((rs : RevisableSet) × (a ≡ change rs))
Attempt-cases (refuse why) = inl (why, refl)
Attempt-cases (change rs) = inr (rs, refl)

pop-nil : (ss : List Snapshot) → pop ss ≡ none → ss ≡ []
unfolding pop
pop-nil [] e = refl
pop-nil (s ∷ ss) e = elim (Option-cases (pop ss)) [
  | inl h ↦ let e' = rw (h, pop) at e in cc
  | inr (x, h) ↦ let e' = rw (h, pop) at e in cc
]

pub pop-eq :
    (ss : List Snapshot) {before : List Snapshot} {last : Snapshot}
    → pop ss ≡ some (before, last)
    → ss ≡ before ++ last ∷ []
unfolding pop
pop-eq [] e = cc
pop-eq (s ∷ ss) {before} {last} e = elim (Option-cases (pop ss)) [
  | inl h ↦
      let e' = rw (h, pop) at e in
      let x : ◌≡◌ {A = List Snapshot × Snapshot} ([], s) (before, last) = cc in
      ap (λ r. s ∷ r) (pop-nil ss h) ∙ ap (λ r. r.0 ++ r.1 ∷ []) x
  | inr ((b, l), h) ↦
      let e' = rw (h, pop) at e in
      let x : ◌≡◌ {A = List Snapshot × Snapshot} (s ∷ b, l) (before, last) = cc in
      ap (λ r. s ∷ r) (pop-eq ss h) ∙ ap (λ r. r.0 ++ r.1 ∷ []) x
]

-- The version counts the revisions that can be undone, and each snapshot has the version that it
-- restores.
pub record IsVersioned (rs : RevisableSet) : Type 0 where
  pub counted : Counted 0 rs.history
  pub version : rs.version ≡ length rs.history
  pub policy : contains valid_policies rs.policy ≡ true

snapshot-IsVersioned :
    (now : ℕ) (rs : RevisableSet) (elements : Elements)
    → IsVersioned rs
    → IsVersioned (record (snapshot now rs) { elements = elements })
snapshot-IsVersioned now rs elements v =
    let s : Snapshot = record { version = rs.version; elements = keys rs.elements; at = now } in
    record {
      counted = Counted-snoc 0 rs.history s v.counted (omega (arith, v.version));
      version = omega (arith, v.version, length-append rs.history (s ∷ []));
      policy = v.policy;
    }

pub learn-eq :
    (element driver : String) (now : ℕ) (rs rs' : RevisableSet)
    → learn element driver now rs ≡ change rs'
    → (contains (keys rs.elements) element ≡ false)
      × (record (snapshot now rs) {
        elements =
            rs.elements ++ (element, record { added_by = driver; added_at = now; fires = 0 }) ∷ [];
      }
          ≡ rs')
unfolding learn
learn-eq element driver now rs rs' e = (ground arith, ground arith)

pub unlearn-eq :
    (element : String) (now : ℕ) (rs rs' : RevisableSet)
    → unlearn element now rs ≡ change rs'
    → (1 < length rs.elements)
      × (record (snapshot now rs) { elements = remove element rs.elements } ≡ rs')
unfolding unlearn
unlearn-eq element now rs rs' e = (ground arith, ground arith)

undo-eq :
    (now : ℕ) (rs rs' : RevisableSet)
    → undo now rs ≡ change rs'
    → (before : List Snapshot) × (prior : Snapshot) × (rs.history ≡ before ++ prior ∷ [])
      × (record rs {
        history = before;
        elements = from_keys (kept now rs.elements) prior.elements;
        version = prior.version;
      }
          ≡ rs')
unfolding undo
undo-eq now rs rs' e = elim (Option-cases (pop rs.history)) [
  | inl h ↦ let e' = rw (h, undo) at e in cc
  | inr ((before, prior), h) ↦
      (before, prior, pop-eq rs.history h, let e' = rw (h, undo) at e in cc)
]

pub learn-IsVersioned :
    (element driver : String) (now : ℕ) (rs rs' : RevisableSet)
    → IsVersioned rs
    → learn element driver now rs ≡ change rs'
    → IsVersioned rs'
learn-IsVersioned element driver now rs rs' v e =
    subst IsVersioned (learn-eq element driver now rs rs' e).1 (snapshot-IsVersioned now rs _ v)

pub unlearn-IsVersioned :
    (element : String) (now : ℕ) (rs rs' : RevisableSet)
    → IsVersioned rs
    → unlearn element now rs ≡ change rs'
    → IsVersioned rs'
unlearn-IsVersioned element now rs rs' v e =
    subst IsVersioned (unlearn-eq element now rs rs' e).1 (snapshot-IsVersioned now rs _ v)

pub undo-IsVersioned :
    (now : ℕ) (rs rs' : RevisableSet) → IsVersioned rs → undo now rs ≡ change rs' → IsVersioned rs'
undo-IsVersioned now rs rs' v e =
    let (before, prior, h, same) = undo-eq now rs rs' e in
    let (counted, level) = Counted-unsnoc 0 before prior (subst (Counted 0) h v.counted) in
    subst IsVersioned same
      (record { counted = counted; version = omega (arith, level); policy = v.policy })
