-- ===== src/Routing/Size.antt =====
-- TaskSize of servers/shared/models.py, and _score_size of servers/core/src/routing.py.
pub mod Best
use youk.Prelude.{
  ℕ, ◌+◌, ◌-◌, String, Bool, true, false, ◌&&◌, ◌||◌, Option, none, some, List, [], ◌∷◌, ◌==◌,
  if◌then◌else◌, length, any, select, ltb, leb, nat_eq,
}

pub data TaskSize : Type 0 where
  xs s m l xl : TaskSize

abbrev pub size_value : TaskSize → String
size_value xs = "XS"
size_value s = "S"
size_value m = "M"
size_value l = "L"
size_value xl = "XL"

-- `TaskSize(name)`; `none` is the ValueError.
unfoldable pub size_of : String → Option TaskSize
size_of name =
    if name == "XS"
    then some xs
    else if name == "S"
    then some s
    else if name == "M"
    then some m
    else if name == "L"
    then some l
    else if name == "XL"
    then some xl
    else none

-- _SIZE_RANK, and the same numbers as `size_order` and `_size_order`.
abbrev pub rank : TaskSize → ℕ
rank xs = 1
rank s = 2
rank m = 3
rank l = 4
rank xl = 5

-- An entry of `task_sizes` in the routes file.
pub record SizeConfig : Type 0 where
  pub signals : List String
  pub negative_signals : List String
  pub ceremony : String
  pub skills : List String
  pub nfr_mode : String

-- The items of `routes.get("task_sizes", {})`.
abbrev pub Sizes : Type 0
Sizes = List (String × SizeConfig)

abbrev pub empty_config : SizeConfig
empty_config = record {
  signals = [];
  negative_signals = [];
  ceremony = "none";
  skills = [];
  nfr_mode = "fast_path_2q";
}

-- `sizes.get(name, {})`, with the defaults that the readers of its fields give.
unfoldable pub config_of : String → Sizes → SizeConfig
config_of name [] = empty_config
config_of name ((n, c) ∷ rest) = let later = config_of name rest in if n == name then c else later

abbrev pub cons_scored : ℕ × TaskSize → Option (List (ℕ × TaskSize)) → Option (List (ℕ × TaskSize))
cons_scored x none = none
cons_scored x (some rest) = some (x ∷ rest)

-- `(net, order)` of the first is less than that of the second.
abbrev pub outscored : ℕ × TaskSize → ℕ × TaskSize → Bool
outscored x y = ltb x.0 y.0 || nat_eq x.0 y.0 && ltb (rank x.1) (rank y.1)

-- The first of the list once it is sorted by (net, order), in reverse.
unfoldable pub best : ℕ × TaskSize → List (ℕ × TaskSize) → ℕ × TaskSize
best x [] = x
best x (y ∷ rest) = best (if outscored x y then y else x) rest

-- `signal_in` is the test for a signal in the task's text, `words` the number of its words.
module _ (signal_in : String → Bool) (words : ℕ) where
  -- The net score; the subtraction of ℕ makes every score that is not positive zero.
  unfoldable pub net : SizeConfig → ℕ
  unfolding select
  net c =
      length (select signal_in c.signals)
      - (length (select signal_in c.negative_signals)
          + length (select signal_in c.negative_signals))

  -- The list `scored`, or the ValueError of a name that is no size.
  unfoldable pub scored : Sizes → Option (List (ℕ × TaskSize))
  unfolding net size_of
  scored [] = some []
  scored ((name, c) ∷ rest) = elim (nat_eq (net c) 0) [
    | true ↦ scored rest
    | false ↦ elim (size_of name) [
      | none ↦ none
      | some size ↦ cons_scored (net c, size) (scored rest)
    ]
  ]

  unfoldable pub by_words : TaskSize
  by_words = if leb words 5 then xs else if leb words 15 then s else if leb words 40 then m else l

  unfoldable pub without_score : Sizes → TaskSize
  unfolding any config_of by_words
  without_score sizes = if any signal_in (config_of "XS" sizes).signals then xs else by_words

  -- The end of _score_size, once the entries are scored.
  unfoldable pub pick : Sizes → Option (List (ℕ × TaskSize)) → Option TaskSize
  unfolding without_score best
  pick sizes none = none
  pick sizes (some []) = some (without_score sizes)
  pick sizes (some (x ∷ rest)) = some (best x rest).1

  unfoldable pub score_size : Sizes → Option TaskSize
  unfolding scored pick
  score_size sizes = pick sizes (scored sizes)
