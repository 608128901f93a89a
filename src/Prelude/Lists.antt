-- ===== src/Prelude/Lists.antt =====
-- Lists measured by native numbers.
use Prim.Native.Nat.{ℕ, suc, ◌+◌, ◌<◌}
use mathlib.Core.Path.{◌≡◌, refl, sym, ap, ◌∙◌}
use mathlib.Core.Logic.{◌⊎◌, inl, inr}
use mathlib.Core.Bool.{Bool, true, false, ◌||◌}
use mathlib.Core.List.Memᴰ
use mathlib.Core.List.{List, [], ◌∷◌, ◌++◌, Memᴰ}
use native.Mathlib.Omega.{arith}
use youk.Prelude.Tests.{if◌then◌else◌, Bool-cases}

module _ {ℓ} {A : Type ℓ} where
  abbrev pub length : List A → ℕ
  length [] = 0
  length (x ∷ xs) = suc (length xs)

  pub length-append : (xs ys : List A) → length (xs ++ ys) ≡ length xs + length ys
  length-append [] ys = omega arith
  length-append (x ∷ xs) ys = omega (arith, length-append xs ys)

  -- `any(p(x) for x in xs)`
  unfoldable pub any : (A → Bool) → List A → Bool
  any p [] = false
  any p (x ∷ xs) = p x || any p xs

  pub any-mem : (p : A → Bool) (xs : List A) → any p xs ≡ true → (x : A) × Memᴰ x xs × (p x ≡ true)
  unfolding any
  any-mem p [] e = cc
  any-mem p (x ∷ xs) e = elim (Bool-cases (p x)) [
    | inl here ↦ (x, Memᴰ.head refl, here)
    | inr other ↦ let (y, m, h) = any-mem p xs (ground arith) in (y, Memᴰ.tail m, h)
  ]

  pub any-of_mem : (p : A → Bool) {x : A} (xs : List A) → Memᴰ x xs → p x ≡ true → any p xs ≡ true
  unfolding any
  any-of_mem p [] m h = elim m [ ]
  any-of_mem p (y ∷ ys) (Memᴰ.head e) h = let h' : p y ≡ true = cc (ap p e) in rw h'
  any-of_mem p (y ∷ ys) (Memᴰ.tail m) h = ground (arith, any-of_mem p ys m h)

  pub any-append : (p : A → Bool) (xs ys : List A) → any p (xs ++ ys) ≡ (any p xs || any p ys)
  unfolding any
  any-append p [] ys = refl
  any-append p (x ∷ xs) ys = ground (arith, any-append p xs ys)

  pub any-false : (p : A → Bool) {x : A} (xs : List A) → any p xs ≡ false → Memᴰ x xs → p x ≡ false
  any-false p {x} xs e m = elim (Bool-cases (p x)) [ inl h ↦ cc (any-of_mem p xs m h) | inr h ↦ h ]

  -- `[x for x in xs if p(x)]`
  unfoldable pub select : (A → Bool) → List A → List A
  select p [] = []
  select p (x ∷ xs) = let rest = select p xs in if p x then x ∷ rest else rest

  pub select-mem :
      (p : A → Bool) {x : A} (xs : List A) → Memᴰ x (select p xs) → Memᴰ x xs × (p x ≡ true)
  unfolding select
  select-mem p [] m = elim m [ ]
  select-mem p {x} (y ∷ ys) m = elim (Bool-cases (p y)) [
    | inl h ↦ elim (Memᴰ.cases_cons (rw h at m)) [
      | inl e ↦ (Memᴰ.head e, ap p e ∙ h)
      | inr later ↦ let (i, k) = select-mem p ys later in (Memᴰ.tail i, k)
    ]
    | inr h ↦ let (i, k) = select-mem p ys (rw h at m) in (Memᴰ.tail i, k)
  ]

  pub mem-select :
      (p : A → Bool) {x : A} (xs : List A) → Memᴰ x xs → p x ≡ true → Memᴰ x (select p xs)
  unfolding select
  mem-select p [] m h = elim m [ ]
  mem-select p {x} (y ∷ ys) (Memᴰ.head e) h =
      let h' : p y ≡ true = sym (ap p e) ∙ h in rw h' (Memᴰ.head e)
  mem-select p (y ∷ ys) (Memᴰ.tail m) h = elim (Bool-cases (p y)) [
    | inl k ↦ rw k (Memᴰ.tail (mem-select p ys m h))
    | inr k ↦ rw k (mem-select p ys m h)
  ]

  pub select-append :
      (p : A → Bool) (xs ys : List A) → select p (xs ++ ys) ≡ select p xs ++ select p ys
  unfolding select
  select-append p [] ys = refl
  select-append p (x ∷ xs) ys = elim (Bool-cases (p x)) [
    | inl h ↦ rw h (ap (λ l. x ∷ l) (select-append p xs ys))
    | inr h ↦ rw h (select-append p xs ys)
  ]

  pub select-none :
      (p : A → Bool) (xs : List A) → ((x : A) → Memᴰ x xs → p x ≡ false) → select p xs ≡ []
  unfolding select
  select-none p [] h = refl
  select-none p (x ∷ xs) h = rw (h x (Memᴰ.head refl)) (select-none p xs λ y i. h y (Memᴰ.tail i))

  pub select-found : (p : A → Bool) (xs : List A) → any p xs ≡ true → 0 < length (select p xs)
  unfolding any select
  select-found p [] e = cc e
  select-found p (x ∷ xs) e = elim (Bool-cases (p x)) [
    | inl here ↦ rw here (omega arith)
    | inr other ↦ rw other (select-found p xs (ground arith))
  ]

  pub List-cases : (xs : List A) → (xs ≡ []) ⊎ ((x : A) × (rest : List A) × (xs ≡ x ∷ rest))
  List-cases [] = inl refl
  List-cases (x ∷ xs) = inr (x, xs, refl)
