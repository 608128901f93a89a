-- ===== src/Prelude/Python.antt =====
-- The operations on texts of Python that the parts share.
use Prim.Native.Nat.{ℕ, zero, suc}
use Prim.Native.String.{String, [], ◌∷◌, ◌++◌, find, len}
use mathlib.Core.Bool.{Bool}
use mathlib.Core.List.{List}
use youk.Prelude.Tests.{leb}

-- str.lower, str.upper, str.strip and str.split
pub record Texts : Type 0 where
  pub lower : String → String
  pub upper : String → String
  pub strip : String → String
  pub words : String → List String

-- `part in text`
abbrev pub within : String → String → Bool
within part text = leb (find text part) (len text)

-- `text[:n]`
unfoldable pub head : ℕ → String → String
head zero text = []
head (suc n) [] = []
head (suc n) (c ∷ text) = c ∷ head n text

abbrev pub joined : String → String → String
joined a b = a ++ b
