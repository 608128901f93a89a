-- ===== src/Prelude/Sort.antt =====
-- Python's `sorted` over texts or over items with a text key, and sets of texts as lists.
use Prim.Native.String.{String}
use mathlib.Core.Path.{◌≡◌, refl, sym, ap, ◌∙◌, subst}
use mathlib.Core.Logic.{◌⊎◌, inl, inr}
use mathlib.Core.Bool.{Bool, true, not}
use mathlib.Core.List.Memᴰ
use mathlib.Core.List.{List, [], ◌∷◌, Memᴰ}
use text.Mathlib.Text.{◌==◌}
use text.Mathlib.TextEquality.{eq_iff}
use text.Mathlib.TextPositions.{eq_refl}
use youk.Prelude.Tests.{if◌then◌else◌, Bool-cases}
use youk.Prelude.Lists.{any, any-mem, any-of_mem, select, mem-select}

-- `le` is Python's order on texts; equal keys keep their order.
module _ {ℓ} {A : Type ℓ} (le : String → String → Bool) (key : A → String) where
  unfoldable pub insert_by : A → List A → List A
  insert_by a [] = a ∷ []
  insert_by a (b ∷ bs) =
      let rest = b ∷ insert_by a bs in if le (key a) (key b) then a ∷ b ∷ bs else rest

  unfoldable pub sort_by : List A → List A
  unfolding insert_by
  sort_by [] = []
  sort_by (a ∷ as') = insert_by a (sort_by as')

  insert_by-mem : (a : A) {x : A} (bs : List A) → Memᴰ x (insert_by a bs) → (x ≡ a) ⊎ Memᴰ x bs
  unfolding insert_by
  insert_by-mem a [] m = inl (Memᴰ.eq_of_singleton m)
  insert_by-mem a (b ∷ bs) m = elim (Bool-cases (le (key a) (key b))) [
    | inl first ↦ Memᴰ.cases_cons (rw first at m)
    | inr later ↦ elim (Memᴰ.cases_cons (rw later at m)) [
      | inl e ↦ inr (Memᴰ.head e)
      | inr i ↦ elim (insert_by-mem a bs i) [ inl e ↦ inl e | inr j ↦ inr (Memᴰ.tail j) ]
    ]
  ]

  mem-insert_by_self : (a : A) (bs : List A) → Memᴰ a (insert_by a bs)
  unfolding insert_by
  mem-insert_by_self a [] = Memᴰ.head refl
  mem-insert_by_self a (b ∷ bs) = elim (Bool-cases (le (key a) (key b))) [
    | inl first ↦ rw first (Memᴰ.head refl)
    | inr later ↦ rw later (Memᴰ.tail (mem-insert_by_self a bs))
  ]

  mem-insert_by_of_mem : (a : A) {x : A} (bs : List A) → Memᴰ x bs → Memᴰ x (insert_by a bs)
  unfolding insert_by
  mem-insert_by_of_mem a [] m = elim m [ ]
  mem-insert_by_of_mem a {x} (b ∷ bs) m = elim (Bool-cases (le (key a) (key b))) [
    | inl first ↦ rw first (Memᴰ.tail m)
    | inr later ↦ rw later (elim (Memᴰ.cases_cons m) [
      | inl e ↦ Memᴰ.head e
      | inr i ↦ Memᴰ.tail (mem-insert_by_of_mem a bs i)
    ])
  ]

  pub sort_by-mem : {x : A} (as' : List A) → Memᴰ x (sort_by as') → Memᴰ x as'
  unfolding sort_by
  sort_by-mem [] m = m
  sort_by-mem (a ∷ as') m = elim (insert_by-mem a (sort_by as') m) [
    | inl e ↦ Memᴰ.head e
    | inr i ↦ Memᴰ.tail (sort_by-mem as' i)
  ]

  pub mem-sort_by : {x : A} (as' : List A) → Memᴰ x as' → Memᴰ x (sort_by as')
  unfolding sort_by
  mem-sort_by [] m = m
  mem-sort_by {x} (a ∷ as') (Memᴰ.head e) =
      subst (λ y. Memᴰ y (insert_by a (sort_by as'))) (sym e) (mem-insert_by_self a (sort_by as'))
  mem-sort_by (a ∷ as') (Memᴰ.tail m) = mem-insert_by_of_mem a (sort_by as') (mem-sort_by as' m)

-- `x in xs`
unfoldable pub contains : List String → String → Bool
unfolding any
contains xs x = any (λ y. y == x) xs

pub contains-mem : (xs : List String) {x : String} → contains xs x ≡ true → Memᴰ x xs
unfolding contains
contains-mem xs {x} h =
    let (y, m, e) = any-mem (λ y. y == x) xs h in subst (λ z. Memᴰ z xs) ((eq_iff y x).0 e) m

pub mem-contains : (xs : List String) {x : String} → Memᴰ x xs → contains xs x ≡ true
unfolding contains
mem-contains xs {x} m = any-of_mem (λ y. y == x) xs m (eq_refl x)

-- The set of the members of a list, as a list with each of them once.
unfoldable pub set_of : List String → List String
unfolding contains
set_of [] = []
set_of (x ∷ xs) = let rest = set_of xs in if contains xs x then rest else x ∷ rest

pub set_of-mem : {x : String} (xs : List String) → Memᴰ x (set_of xs) → Memᴰ x xs
unfolding set_of
set_of-mem [] m = m
set_of-mem (y ∷ xs) m = elim (Bool-cases (contains xs y)) [
  | inl dup ↦ Memᴰ.tail (set_of-mem xs (rw dup at m))
  | inr new ↦ elim (Memᴰ.cases_cons (rw new at m)) [
    | inl e ↦ Memᴰ.head e
    | inr i ↦ Memᴰ.tail (set_of-mem xs i)
  ]
]

pub mem-set_of : {x : String} (xs : List String) → Memᴰ x xs → Memᴰ x (set_of xs)
unfolding set_of
mem-set_of [] m = m
mem-set_of {x} (y ∷ xs) m = elim (Bool-cases (contains xs y)) [
  | inl dup ↦ rw dup (elim (Memᴰ.cases_cons m) [
    | inl e ↦ mem-set_of xs (contains-mem xs (ap (contains xs) e ∙ dup))
    | inr i ↦ mem-set_of xs i
  ])
  | inr new ↦
      rw new
        (elim (Memᴰ.cases_cons m) [ inl e ↦ Memᴰ.head e | inr i ↦ Memᴰ.tail (mem-set_of xs i) ])
]

-- `xs - ys`
unfoldable pub difference : List String → List String → List String
unfolding select contains
difference xs ys = select (λ x. not (contains ys x)) xs

pub difference-nil :
    (xs ys : List String) {x : String} → difference xs ys ≡ [] → Memᴰ x xs → Memᴰ x ys
unfolding difference
difference-nil xs ys {x} e m = elim (Bool-cases (contains ys x)) [
  | inl h ↦ contains-mem ys h
  | inr h ↦
      let found = mem-select (λ y. not (contains ys y)) xs m (ap not h) in
      elim (subst (Memᴰ x) e found) [ ]
]
