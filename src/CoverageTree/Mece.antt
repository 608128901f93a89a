-- ===== src/CoverageTree/Mece.antt =====
-- check_mece of coverage_tree.py.
use youk.Prelude.{
  String, Bool, true, not, List, [], ◌∷◌, map, contains, leb, length, select, set_of, ◌≡◌, ◌↔◌, inl,
  inr, refl, ap, subst, arith, Memᴰ, Bool-cases, mem-contains, contains-mem, select-mem, mem-select,
  mem-set_of,
}
use youk.CoverageTree.{Node, Branch, repeated, check_mece}

abbrev pub Unique : List String → Type 0
Unique [] = Unit {0}
Unique (c ∷ cs) = (¬ Memᴰ c cs) × Unique cs

repeated-Unique : (cs : List String) → repeated cs ≡ [] → Unique cs
repeated-Unique [] e = tt
repeated-Unique (c ∷ cs) e = elim (Bool-cases (contains cs c)) [
  | inl again ↦ let e' = rw again at e in cc
  | inr once ↦ (λ m. cc (once, mem-contains cs m), repeated-Unique cs (rw once at e))
]

Unique-repeated : (cs : List String) → Unique cs → repeated cs ≡ []
Unique-repeated [] u = refl
Unique-repeated (c ∷ cs) (new, u) = elim (Bool-cases (contains cs c)) [
  | inl again ↦ absurd (new (contains-mem cs again))
  | inr once ↦ rw once (Unique-repeated cs u)
]

no_members : (xs : List String) → ((x : String) → ¬ Memᴰ x xs) → xs ≡ []
no_members [] none = refl
no_members (x ∷ xs) none = absurd (none x (Memᴰ.head refl))

set_of-nil : (xs : List String) → set_of xs ≡ [] → xs ≡ []
set_of-nil xs e = no_members xs λ x m. elim (subst (Memᴰ x) e (mem-set_of xs m)) [ ]

length-nil : (xs : List String) → leb (length xs) 0 ≡ true → xs ≡ []
length-nil [] e = refl
length-nil (x ∷ xs) e = absurd (ground arith)

-- check_mece is True exactly when no two nodes of the branch have the same concept and every
-- concept of the template is that of a node.
check_mece_iff :
    (branch : Branch) (template : List String)
    → ((check_mece branch template).0 ≡ true) ↔ (
        Unique (map (λ (n : Node). n.concept) branch.nodes)
        × ((c : String) → Memᴰ c template → Memᴰ c (map (λ (n : Node). n.concept) branch.nodes)))
unfolding check_mece
check_mece_iff branch template =
    let concepts = map (λ (n : Node). n.concept) branch.nodes in
    let lacks : String → Bool = λ c. not (contains concepts c) in
    (
      λ e.
          let a : leb (length (set_of (repeated concepts))) 0 ≡ true = ground arith in
          let b : leb (length (select lacks template)) 0 ≡ true = ground arith in
          (
            repeated-Unique concepts (set_of-nil (repeated concepts) (length-nil _ a)),
            λ c m. elim (Bool-cases (contains concepts c)) [
              | inl here ↦ contains-mem concepts here
              | inr away ↦
                  elim (subst (Memᴰ c) (length-nil _ b)
                    (mem-select lacks template m (ap not away))) [ ]
            ],
          ),
      λ (u, all).
          let none : select lacks template ≡ [] = no_members _ λ c m.
            let (i, away) = select-mem lacks template m in
            cc (away, mem-contains concepts (all c i)) in
          rw (Unique-repeated concepts u, none),
    )
