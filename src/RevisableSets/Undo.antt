-- ===== src/RevisableSets/Undo.antt =====
-- What revert and unlearn_prune of revisable_sets.py do to a set.
use youk.Prelude.{
  ℕ, suc, ◌≤◌, String, false, none, some, List, [], ◌∷◌, ◌++◌, ◌==◌, contains, length, any, ◌≡◌,
  ◌⊎◌, inl, inr, refl, sym, ap, ◌∙◌, subst, arith, eq_iff, Bool-cases,
}
use youk.RevisableSets.{
  Snapshot, Elements, RevisableSet, Registry, find, replace, remove, keys, from_keys, snapshot,
  Refusal, Attempt, change, learn, unlearn, pop, kept, undo, on_set, learn_add, unlearn_prune,
  revert, not_enrolled, nothing_to_revert,
}
use youk.RevisableSets.Versions.{learn-eq, unlearn-eq, Attempt-cases}

-- As the keys of a dictionary are.
abbrev pub Distinct : List String → Type 0
Distinct [] = Unit {0}
Distinct (x ∷ xs) = (contains xs x ≡ false) × Distinct xs

module _ {ℓ} {A : Type ℓ} where
  remove-absent :
      (key : String) (d : List (String × A)) → contains (keys d) key ≡ false → remove key d ≡ d
  unfolding remove contains any
  remove-absent key [] e = refl
  remove-absent key ((k, a) ∷ d) e = elim (Bool-cases (k == key)) [
    | inl here ↦ absurd (ground arith)
    | inr other ↦ rw other (ap (λ r. (k, a) ∷ r) (remove-absent key d (ground arith)))
  ]

  keys-from_keys : (f : String → A) (ns : List String) → Distinct ns → keys (from_keys f ns) ≡ ns
  unfolding from_keys
  keys-from_keys f [] d = refl
  keys-from_keys f (n ∷ ns) (new, d) =
      let rest = keys-from_keys f ns d in
      let absent : contains (keys (from_keys f ns)) n ≡ false = ap (λ l. contains l n) rest ∙ new in
      ap (λ l. n ∷ keys l) (remove-absent n (from_keys f ns) absent) ∙ ap (λ l. n ∷ l) rest

  length-remove :
      (key : String) (d : List (String × A))
      → Distinct (keys d)
      → length d ≤ suc (length (remove key d))
  unfolding remove
  length-remove key [] d = omega arith
  length-remove key ((k, a) ∷ rest) (new, d) = elim (Bool-cases (k == key)) [
    | inl here ↦
        let same : k ≡ key = (eq_iff k key).0 here in
        let absent : remove key rest ≡ rest =
          remove-absent key rest (subst (λ x. contains (keys rest) x ≡ false) same new) in
        rw (here, absent) (omega arith)
    | inr other ↦ rw other (omega (arith, length-remove key rest d))
  ]

  find-replace :
      (key : String) (a b : A) (d : List (String × A))
      → find key d ≡ some b
      → find key (replace key a d) ≡ some a
  unfolding find replace
  find-replace key a b [] e = cc
  find-replace key a b ((k, c) ∷ d) e = elim (Bool-cases (k == key)) [
    | inl here ↦ rw here
    | inr other ↦ rw other (find-replace key a b d (ground arith))
  ]

pop-snoc : (ss : List Snapshot) (s : Snapshot) → pop (ss ++ s ∷ []) ≡ some (ss, s)
unfolding pop
pop-snoc [] s = refl
pop-snoc (x ∷ ss) s = rw (pop-snoc ss s)

-- `rs'` has the elements of `rs`, its version and its history.
pub record Restores (rs rs' : RevisableSet) : Type 0 where
  pub elements : keys rs'.elements ≡ keys rs.elements
  pub version : rs'.version ≡ rs.version
  pub history : rs'.history ≡ rs.history
  pub policy : rs'.policy ≡ rs.policy

undo-snapshot :
    (now later : ℕ) (rs : RevisableSet) (elements : Elements)
    → Distinct (keys rs.elements)
    → (rs' : RevisableSet) × (undo later (record (snapshot now rs) { elements = elements })
        ≡ change rs')
      × Restores rs rs'
unfolding undo
undo-snapshot now later rs elements d =
    let s : Snapshot = record { version = rs.version; elements = keys rs.elements; at = now } in
    let rs' : RevisableSet = record rs {
      elements = from_keys (kept later elements) (keys rs.elements);
    } in
    (
      rs',
      rw (undo, pop-snoc rs.history s),
      record {
        elements = keys-from_keys (kept later elements) (keys rs.elements) d;
        version = refl;
        history = refl;
        policy = refl;
      },
    )

-- What an operation that succeeds has saved.
on_set-saved :
    (name : String) (missing : Refusal) (f : RevisableSet → Attempt) (reg reg' : Registry)
    (rs : RevisableSet)
    → find name reg ≡ some rs
    → on_set name missing f reg ≡ (none, reg')
    → (rs' : RevisableSet) × (f rs ≡ change rs') × (find name reg' ≡ some rs')
unfolding on_set
on_set-saved name missing f reg reg' rs h e = elim (Attempt-cases (f rs)) [
  | inl (why, refused) ↦ let e' = rw (h, on_set, refused) at e in cc (ap (λ x. x.0) e')
  | inr (rs', done) ↦
      let e' = rw (h, on_set, done) at e in
      (
        rs',
        done,
        subst (λ r. find name r ≡ some rs') (ap (λ x. x.1) e') (find-replace name rs' rs reg h),
      )
]

-- An addition or a removal that succeeded.
abbrev pub Revised : String → String → String → ℕ → Registry → Registry → Type 0
Revised name element driver now reg reg' =
    (learn_add name element driver now reg ≡ (none, reg'))
    ⊎ (unlearn_prune name element now reg ≡ (none, reg'))

Revised-saved :
    (name element driver : String) (now : ℕ) (reg reg' : Registry) (rs : RevisableSet)
    → find name reg ≡ some rs
    → Revised name element driver now reg reg'
    → (elements : Elements) × (find name reg'
        ≡ some (record (snapshot now rs) { elements = elements }))
unfolding learn_add unlearn_prune
Revised-saved name element driver now reg reg' rs h (inl e) =
    let (rs', done, there) =
      on_set-saved name not_enrolled (learn element driver now) reg reg' rs h e in
    (_, there ∙ ap some (sym (learn-eq element driver now rs rs' done).1))
Revised-saved name element driver now reg reg' rs h (inr e) =
    let (rs', done, there) = on_set-saved name not_enrolled (unlearn element now) reg reg' rs h e in
    (_, there ∙ ap some (sym (unlearn-eq element now rs rs' done).1))

on_set-of_change :
    (name : String) (missing : Refusal) (f : RevisableSet → Attempt) (reg : Registry)
    (rs rs' : RevisableSet)
    → find name reg ≡ some rs
    → f rs ≡ change rs'
    → on_set name missing f reg ≡ (none, replace name rs' reg)
unfolding on_set
on_set-of_change name missing f reg rs rs' h e = rw (h, on_set, e)

-- After a learn_add or an unlearn_prune that succeeded, revert succeeds, and the set again has the
-- elements, the version, the history and the policy from before, its elements being distinct.
pub revert-undoes :
    (name element driver : String) (now later : ℕ) (reg reg' : Registry) (rs : RevisableSet)
    → find name reg ≡ some rs
    → Distinct (keys rs.elements)
    → Revised name element driver now reg reg'
    → (reg'' : Registry) × (rs'' : RevisableSet) × (revert name later reg' ≡ (none, reg''))
      × (find name reg'' ≡ some rs'')
      × Restores rs rs''
unfolding revert
revert-undoes name element driver now later reg reg' rs h d revised =
    let (elements, there) = Revised-saved name element driver now reg reg' rs h revised in
    let (rs'', undone, restores) = undo-snapshot now later rs elements d in
    (
      replace name rs'' reg',
      rs'',
      on_set-of_change name nothing_to_revert (undo later) reg' _ rs'' there undone,
      find-replace name rs'' _ reg' there,
      restores,
    )

-- An unlearn_prune that succeeds leaves the set with an element at least, its elements being
-- distinct.
unlearn_prune-nonempty :
    (name element : String) (now : ℕ) (reg reg' : Registry) (rs : RevisableSet)
    → find name reg ≡ some rs
    → Distinct (keys rs.elements)
    → unlearn_prune name element now reg ≡ (none, reg')
    → (rs' : RevisableSet) × (find name reg' ≡ some rs') × (1 ≤ length rs'.elements)
unfolding unlearn_prune
unlearn_prune-nonempty name element now reg reg' rs h d e =
    let (rs', done, there) = on_set-saved name not_enrolled (unlearn element now) reg reg' rs h e in
    let (many, same) = unlearn-eq element now rs rs' done in
    let rest : 1 ≤ length (remove element rs.elements) =
      omega (arith, many, length-remove element rs.elements d) in
    (rs', there, subst (λ (x : RevisableSet). 1 ≤ length x.elements) same rest)
