-- ===== src/ContractGuard/Targets.antt =====
-- What contract_guard.py takes a ref to be pushed to.
use Prim.Native.String.{◌++◌, len, slice}
use text.Mathlib.Text.{starts_with}
use text.Mathlib.TextEquality.{starts_with_iff}
use text.Mathlib.TextPositions.{slice-append_middle, len-append}
use text.Mathlib.TextLemmas.{append-nil}
use youk.Prelude.{
  ◌+◌, ◌==◌, String, true, ◌≡◌, ◌⊎◌, ◌↔◌, inl, inr, refl, sym, ap, ◌∙◌, subst, arith, eq_iff,
  Bool-cases, if◌then◌else◌,
}
use youk.ContractGuard.Words.{Shell, is_default}
use youk.ContractGuard.Segments.{target_of}
use youk.ContractGuard.Forbidden.{IsDefault, ToDefault}

pub is_default_iff : (b : String) → (is_default b ≡ true) ↔ IsDefault b
is_default_iff b = (
  λ h. elim (Bool-cases (b == "main")) [
    | inl main ↦ inl ((eq_iff b "main").0 main)
    | inr other ↦ inr ((eq_iff b "master").0 (ground arith))
  ],
  λ d. elim d [
    | inl e ↦ let h = (eq_iff b "main").1 e in ground arith
    | inr e ↦ let h = (eq_iff b "master").1 e in ground arith
  ],
)

after_prefix : (p u : String) → slice (p ++ u) (len p) (len (p ++ u)) ≡ u
after_prefix p u =
    ap (λ n. slice (p ++ u) (len p) n) (len-append p u)
    ∙ subst (λ v. slice (p ++ v) (len p) (len p + len u) ≡ u) (append-nil u)
        (slice-append_middle p u "")

-- The text after refs/heads/, or all of it.
abbrev short : String → String
short t = if starts_with t "refs/heads/" then slice t 11 (len t) else t

short-qualified : (u : String) → short ("refs/heads/" ++ u) ≡ u
short-qualified u =
    let begins : starts_with ("refs/heads/" ++ u) "refs/heads/" ≡ true =
      (starts_with_iff ("refs/heads/" ++ u) "refs/heads/").1 (u, refl) in
    rw begins (after_prefix "refs/heads/" u)

short-IsDefault :
    (t : String)
    → IsDefault (short t)
    → IsDefault t ⊎ ((t ≡ "refs/heads/main") ⊎ (t ≡ "refs/heads/master"))
short-IsDefault t d = elim (Bool-cases (starts_with t "refs/heads/")) [
  | inr away ↦ inl (rw away at d)
  | inl begins ↦
      let (u, e) = (starts_with_iff t "refs/heads/").0 begins in
      let d' : IsDefault u = subst IsDefault (ap short (sym e) ∙ short-qualified u) d in
      inr (elim d' [
        | inl main ↦ inl (sym e ∙ ap (λ v. "refs/heads/" ++ v) main)
        | inr master ↦ inr (sym e ∙ ap (λ v. "refs/heads/" ++ v) master)
      ])
]

IsDefault-short :
    (t : String)
    → IsDefault t ⊎ ((t ≡ "refs/heads/main") ⊎ (t ≡ "refs/heads/master"))
    → IsDefault (short t)
IsDefault-short t (inl (inl e)) = inl (ap short e)
IsDefault-short t (inl (inr e)) = inr (ap short e)
IsDefault-short t (inr (inl e)) = inl (ap short e)
IsDefault-short t (inr (inr e)) = inr (ap short e)

module _ (shell : Shell) (cwd : String) where
  pub target_of-ToDefault :
      (ref : String) → (is_default (target_of shell ref) ≡ true) ↔ ToDefault shell cwd ref
  unfolding target_of
  target_of-ToDefault ref =
      let t = shell.last_part ":" ref in
      (
        λ h. short-IsDefault t ((is_default_iff (short t)).0 h),
        λ d. (is_default_iff (short t)).1 (IsDefault-short t d),
      )
