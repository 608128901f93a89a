-- ===== src/Prelude/Order.antt =====
-- Python's `sorted` over items with a number for a key, and the first items of a list.
use Prim.Native.Nat.{ℕ, zero, suc, ◌≤◌}
use mathlib.Core.Path.{◌≡◌, refl, sym, ap, ◌∙◌, subst}
use mathlib.Core.Logic.{◌⊎◌, inl, inr}
use mathlib.Core.List.Memᴰ
use mathlib.Core.List.{List, [], ◌∷◌, Memᴰ}
use native.Mathlib.Omega.{arith}
use youk.Prelude.Tests.{if◌then◌else◌, Bool-cases, leb}
use youk.Prelude.Lists.{length}

module _ {ℓ} {A : Type ℓ} where
  -- `xs[:n]`
  unfoldable pub take : ℕ → List A → List A
  take zero xs = []
  take (suc n) [] = []
  take (suc n) (x ∷ xs) = x ∷ take n xs

  pub take-mem : (n : ℕ) {x : A} (xs : List A) → Memᴰ x (take n xs) → Memᴰ x xs
  unfolding take
  take-mem zero xs i = elim i [ ]
  take-mem (suc n) [] i = elim i [ ]
  take-mem (suc n) (y ∷ xs) (Memᴰ.head e) = Memᴰ.head e
  take-mem (suc n) (y ∷ xs) (Memᴰ.tail i) = Memᴰ.tail (take-mem n xs i)

  pub length-take : (n : ℕ) (xs : List A) → length (take n xs) ≤ n
  unfolding take
  length-take zero xs = omega arith
  length-take (suc n) [] = omega arith
  length-take (suc n) (x ∷ xs) = omega (arith, length-take n xs)

  pub take_all : (n : ℕ) (xs : List A) → length xs ≤ n → take n xs ≡ xs
  unfolding take
  take_all zero [] h = refl
  take_all zero (x ∷ xs) h = absurd (omega (arith, h))
  take_all (suc n) [] h = refl
  take_all (suc n) (x ∷ xs) h = ap (λ l. x ∷ l) (take_all n xs (omega (arith, h)))

  module _ (key : A → ℕ) where
    unfoldable pub insert_on : A → List A → List A
    insert_on a [] = a ∷ []
    insert_on a (b ∷ bs) =
        let rest = b ∷ insert_on a bs in if leb (key a) (key b) then a ∷ b ∷ bs else rest

    unfoldable pub sort_on : List A → List A
    unfolding insert_on
    sort_on [] = []
    sort_on (a ∷ as') = insert_on a (sort_on as')

    pub data Sorted : List A → Type ℓ where
      nil : Sorted []
      cons :
          {a : A} {as' : List A}
          → ((b : A) → Memᴰ b as' → key a ≤ key b)
          → Sorted as'
          → Sorted (a ∷ as')

    insert_on-mem : (a : A) {x : A} (bs : List A) → Memᴰ x (insert_on a bs) → (x ≡ a) ⊎ Memᴰ x bs
    unfolding insert_on
    insert_on-mem a [] i = inl (Memᴰ.eq_of_singleton i)
    insert_on-mem a (b ∷ bs) i = elim (Bool-cases (leb (key a) (key b))) [
      | inl early ↦ Memᴰ.cases_cons (rw early at i)
      | inr later ↦ elim (Memᴰ.cases_cons (rw later at i)) [
        | inl e ↦ inr (Memᴰ.head e)
        | inr j ↦ elim (insert_on-mem a bs j) [ inl e ↦ inl e | inr k ↦ inr (Memᴰ.tail k) ]
      ]
    ]

    mem-insert_on : (a : A) {x : A} (bs : List A) → (x ≡ a) ⊎ Memᴰ x bs → Memᴰ x (insert_on a bs)
    unfolding insert_on
    mem-insert_on a [] (inl e) = Memᴰ.head e
    mem-insert_on a [] (inr i) = elim i [ ]
    mem-insert_on a (b ∷ bs) i = elim (Bool-cases (leb (key a) (key b))) [
      | inl early ↦ rw early (elim i [ inl e ↦ Memᴰ.head e | inr j ↦ Memᴰ.tail j ])
      | inr later ↦ rw later (elim i [
        | inl e ↦ Memᴰ.tail (mem-insert_on a bs (inl e))
        | inr j ↦ elim (Memᴰ.cases_cons j) [
          | inl e ↦ Memᴰ.head e
          | inr k ↦ Memᴰ.tail (mem-insert_on a bs (inr k))
        ]
      ])
    ]

    pub sort_on-mem : {x : A} (as' : List A) → Memᴰ x (sort_on as') → Memᴰ x as'
    unfolding sort_on
    sort_on-mem [] i = i
    sort_on-mem (a ∷ as') i = elim (insert_on-mem a (sort_on as') i) [
      | inl e ↦ Memᴰ.head e
      | inr j ↦ Memᴰ.tail (sort_on-mem as' j)
    ]

    pub mem-sort_on : {x : A} (as' : List A) → Memᴰ x as' → Memᴰ x (sort_on as')
    unfolding sort_on
    mem-sort_on [] i = i
    mem-sort_on (a ∷ as') (Memᴰ.head e) = mem-insert_on a (sort_on as') (inl e)
    mem-sort_on (a ∷ as') (Memᴰ.tail i) = mem-insert_on a (sort_on as') (inr (mem-sort_on as' i))

    length-insert_on : (a : A) (bs : List A) → length (insert_on a bs) ≡ suc (length bs)
    unfolding insert_on
    length-insert_on a [] = refl
    length-insert_on a (b ∷ bs) = elim (Bool-cases (leb (key a) (key b))) [
      | inl early ↦ rw early refl
      | inr later ↦ rw later (ap suc (length-insert_on a bs))
    ]

    pub length-sort_on : (as' : List A) → length (sort_on as') ≡ length as'
    unfolding sort_on
    length-sort_on [] = refl
    length-sort_on (a ∷ as') = length-insert_on a (sort_on as') ∙ ap suc (length-sort_on as')

    Least : A → List A → Type ℓ
    Least a bs = (b : A) → Memᴰ b bs → key a ≤ key b

    insert_on-Sorted : (a : A) (bs : List A) → Sorted bs → Sorted (insert_on a bs)
    unfolding insert_on Least
    insert_on-Sorted a [] nil = cons (λ b i. elim i [ ]) nil
    insert_on-Sorted a (b ∷ bs) (cons least rest) = elim (Bool-cases (leb (key a) (key b))) [
      | inl early ↦
          let below : Least a (b ∷ bs) = λ c i. elim (Memᴰ.cases_cons i) [
            | inl e ↦ let h : key c ≡ key b = ap key e in ground arith
            | inr j ↦ let h = least c j in ground arith
          ] in
          let sorted : Sorted (a ∷ b ∷ bs) = cons below (cons least rest) in rw early sorted
      | inr later ↦
          let below : Least b (insert_on a bs) = λ c i. elim (insert_on-mem a bs i) [
            | inl e ↦ let h : key c ≡ key a = ap key e in ground arith
            | inr j ↦ least c j
          ] in
          let sorted : Sorted (b ∷ insert_on a bs) = cons below (insert_on-Sorted a bs rest) in
          rw later sorted
    ]

    pub sort_on-Sorted : (as' : List A) → Sorted (sort_on as')
    unfolding sort_on
    sort_on-Sorted [] = nil
    sort_on-Sorted (a ∷ as') = insert_on-Sorted a (sort_on as') (sort_on-Sorted as')

    pub take-Sorted : (n : ℕ) (as' : List A) → Sorted as' → Sorted (take n as')
    unfolding take
    take-Sorted zero as' h = nil
    take-Sorted (suc n) [] h = nil
    take-Sorted (suc n) (a ∷ as') (cons least rest) =
        cons (λ b i. least b (take-mem n as' i)) (take-Sorted n as' rest)

    -- What is left out of the first items of a sorted list comes after each of them.
    pub take-first :
        (n : ℕ) {x y : A} (as' : List A)
        → Sorted as'
        → Memᴰ x (take n as')
        → Memᴰ y as'
        → Memᴰ y (take n as') ⊎ (key x ≤ key y)
    unfolding take
    take-first zero as' h i j = elim i [ ]
    take-first (suc n) [] h i j = elim i [ ]
    take-first (suc n) (a ∷ as') (cons least rest) i (Memᴰ.head e) = inl (Memᴰ.head e)
    take-first (suc n) {x} {y} (a ∷ as') (cons least rest) (Memᴰ.head e) (Memᴰ.tail j) =
        inr (subst (λ z. key z ≤ key y) (sym e) (least y j))
    take-first (suc n) (a ∷ as') (cons least rest) (Memᴰ.tail i) (Memᴰ.tail j) =
        elim (take-first n as' rest i j) [ inl k ↦ inl (Memᴰ.tail k) | inr h ↦ inr h ]
