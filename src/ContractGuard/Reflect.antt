-- ===== src/ContractGuard/Reflect.antt =====
-- From the Boolean tests of contract_guard.py to what they test.
use youk.Prelude.{
  String, Bool, true, false, not, ◌&&◌, ◌||◌, List, any, any-mem, contains, contains-mem,
  mem-contains, ◌≡◌, ◌⊎◌, inl, inr, refl, arith, Memᴰ, Bool-cases,
}

pub both : (a b : Bool) → (a && b) ≡ true → (a ≡ true) × (b ≡ true)
both a b h = (ground arith, ground arith)

pub either : (a b : Bool) → (a || b) ≡ true → (a ≡ true) ⊎ (b ≡ true)
either true b h = inl refl
either false b h = inr h

pub is_false : (a : Bool) → not a ≡ true → a ≡ false
is_false a h = ground arith

pub not_in : (xs : List String) (x : String) → contains xs x ≡ false → ¬ Memᴰ x xs
not_in xs x h i = let h' = mem-contains xs i in cc (h, h')

pub in_not : (xs : List String) (x : String) → ¬ Memᴰ x xs → contains xs x ≡ false
in_not xs x h = elim (Bool-cases (contains xs x)) [
  | inr e ↦ e
  | inl e ↦ absurd (h (contains-mem xs e))
]

pub false_of_not : (b : Bool) → ¬ (b ≡ true) → b ≡ false
false_of_not true h = absurd (h refl)
false_of_not false h = refl

pub none_any :
    {A : Type 0} (p : A → Bool) (xs : List A)
    → ((x : A) → Memᴰ x xs → p x ≡ false)
    → any p xs ≡ false
none_any p xs h =
    false_of_not (any p xs) λ e. (let (x, i, t) = any-mem p xs e in let f = h x i in cc (t, f))

pub or_true : (a : Bool) {b : Bool} → b ≡ true → (a || b) ≡ true
or_true true h = refl
or_true false h = h

pub both_true : {a b : Bool} → a ≡ true → b ≡ true → (a && b) ≡ true
both_true {a} {b} p q = ground arith
