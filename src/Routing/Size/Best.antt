-- ===== src/Routing/Size/Best.antt =====
-- The size that _score_size of routing.py picks.
use youk.Prelude.Memᴰ
use youk.Prelude.{
  ℕ, ◌≤◌, ◌<◌, String, Bool, true, false, Option, none, some, List, [], ◌∷◌, if◌then◌else◌, nat_eq,
  ◌≡◌, ◌⊎◌, inl, inr, refl, sym, ap, ◌∙◌, subst, arith, Memᴰ, Bool-cases, Option-cases,
}
use youk.Routing.Size.{
  TaskSize, size_of, rank, SizeConfig, Sizes, net, scored, cons_scored, without_score, best,
  outscored, score_size, pick,
}

-- No higher score, and no larger size at the same score.
abbrev pub Beats : ℕ × TaskSize → ℕ × TaskSize → Type 0
Beats x y = (y.0 < x.0) ⊎ ((y.0 ≡ x.0) × (rank y.1 ≤ rank x.1))

Beats-trans : (x y z : ℕ × TaskSize) → Beats x y → Beats y z → Beats x z
Beats-trans x y z p q = ground arith

outscored-false : (x y : ℕ × TaskSize) → outscored x y ≡ false → Beats x y
outscored-false x y e = ground arith

outscored-true : (x y : ℕ × TaskSize) → outscored x y ≡ true → Beats y x
outscored-true x y e = ground arith

-- A member of the list that beats all its members.
abbrev IsBest : ℕ × TaskSize → List (ℕ × TaskSize) → Type 0
IsBest w found = Memᴰ w found × ((y : ℕ × TaskSize) → Memᴰ y found → Beats w y)

IsBest-cons :
    (x w : ℕ × TaskSize) (found : List (ℕ × TaskSize))
    → IsBest w found
    → Beats w x
    → IsBest w (x ∷ found)
IsBest-cons x w found (i, all) over = (
  Memᴰ.tail i,
  λ z j. elim (Memᴰ.cases_cons j) [ inl e ↦ subst (Beats w) (sym e) over | inr k ↦ all z k ],
)

nat_cases : (n : ℕ) → (n ≡ 0) ⊎ (0 < n)
nat_cases n = omega arith

swapped : {z a b : ℕ × TaskSize} {l : List (ℕ × TaskSize)} → Memᴰ z (a ∷ b ∷ l) → Memᴰ z (b ∷ a ∷ l)
swapped (Memᴰ.head e) = Memᴰ.tail (Memᴰ.head e)
swapped (Memᴰ.tail (Memᴰ.head e)) = Memᴰ.head e
swapped (Memᴰ.tail (Memᴰ.tail k)) = Memᴰ.tail (Memᴰ.tail k)

IsBest-swap :
    (x y w : ℕ × TaskSize) (rest : List (ℕ × TaskSize))
    → IsBest w (y ∷ x ∷ rest)
    → IsBest w (x ∷ y ∷ rest)
IsBest-swap x y w rest (i, all) = (swapped i, λ z j. all z (swapped j))

best-IsBest : (x : ℕ × TaskSize) (rest : List (ℕ × TaskSize)) → IsBest (best x rest) (x ∷ rest)
unfolding best
best-IsBest x [] = (
  Memᴰ.head refl,
  λ y i. subst (Beats x) (sym (Memᴰ.eq_of_singleton i)) (inr (refl, omega arith)),
)
best-IsBest x (y ∷ rest) = elim (Bool-cases (outscored x y)) [
  | inl less ↦
      let b = best-IsBest y rest in
      let over = Beats-trans (best y rest) y x (b.1 y (Memᴰ.head refl)) (outscored-true x y less) in
      subst (λ t. IsBest (best (if t then y else x) rest) (x ∷ y ∷ rest)) (sym less)
        (IsBest-cons x (best y rest) (y ∷ rest) b over)
  | inr more ↦
      let b = best-IsBest x rest in
      let over =
        Beats-trans (best x rest) x y (b.1 x (Memᴰ.head refl)) (outscored-false x y more) in
      subst (λ t. IsBest (best (if t then y else x) rest) (x ∷ y ∷ rest)) (sym more)
        (IsBest-swap x y (best x rest) rest (IsBest-cons y (best x rest) (x ∷ rest) b over))
]

module _ (signal_in : String → Bool) (words : ℕ) where
  abbrev pub score : SizeConfig → ℕ
  score = net signal_in words

  -- An entry of the routes that scores, and the size that it names.
  pub record Entry (sizes : Sizes) (size : TaskSize) : Type 0 where
    pub name : String
    pub config : SizeConfig
    pub listed : Memᴰ (name, config) sizes
    pub named : size_of name ≡ some size
    pub positive : 0 < score config

  record Scores (sizes : Sizes) (found : List (ℕ × TaskSize)) : Type 0 where
    covers :
        (name : String) (c : SizeConfig)
        → Memᴰ (name, c) sizes
        → 0 < score c
        → (size : TaskSize) × (size_of name ≡ some size) × Memᴰ (score c, size) found
    only : (x : ℕ × TaskSize) → Memᴰ x found → (e : Entry sizes x.1) × (score e.config ≡ x.0)

  -- What the loop of _score_size answers: an entry that scores and names no size, or all that score.
  ScoredAs : Sizes → Option (List (ℕ × TaskSize)) → Type 0
  ScoredAs sizes none =
      (name : String) × (c : SizeConfig) × Memᴰ (name, c) sizes
      × (0 < score c)
      × (size_of name ≡ none)
  ScoredAs sizes (some found) = Scores sizes found

  ScoredAs-skip :
      (name : String) (c : SizeConfig) (rest : Sizes) (r : Option (List (ℕ × TaskSize)))
      → score c ≡ 0
      → ScoredAs rest r
      → ScoredAs ((name, c) ∷ rest) r
  unfolding ScoredAs
  ScoredAs-skip name c rest none e (n, d, i, p, h) = (n, d, Memᴰ.tail i, p, h)
  ScoredAs-skip name c rest (some found) e found_all = record {
    covers = λ n d i p. elim (Memᴰ.cases_cons i) [
      | inl same ↦
          let q : 0 < score c = subst (λ (x : String × SizeConfig). 0 < score x.1) same p in
          absurd (omega (arith, q, e))
      | inr j ↦ found_all.covers n d j p
    ];
    only = λ x i.
        let (entry, h) = found_all.only x i in
        (
          record {
            name = entry.name;
            config = entry.config;
            listed = Memᴰ.tail entry.listed;
            named = entry.named;
            positive = entry.positive;
          },
          h,
        );
  }

  ScoredAs-take :
      (name : String) (c : SizeConfig) (size : TaskSize) (rest : Sizes)
      (r : Option (List (ℕ × TaskSize)))
      → 0 < score c
      → size_of name ≡ some size
      → ScoredAs rest r
      → ScoredAs ((name, c) ∷ rest) (cons_scored (score c, size) r)
  unfolding ScoredAs
  ScoredAs-take name c size rest none p named (n, d, i, q, h) = (n, d, Memᴰ.tail i, q, h)
  ScoredAs-take name c size rest (some found) p named found_all = record {
    covers = λ n d i q. elim (Memᴰ.cases_cons i) [
      | inl same ↦ (
        size,
        ap (λ (x : String × SizeConfig). size_of x.0) same ∙ named,
        Memᴰ.head (λ t. (score (same t).1, size)),
      )
      | inr j ↦ let (z, e, k) = found_all.covers n d j q in (z, e, Memᴰ.tail k)
    ];
    only = λ x i. elim (Memᴰ.cases_cons i) [
      | inl same ↦ (
        record {
          name = name;
          config = c;
          listed = Memᴰ.head refl;
          named = named ∙ ap some (sym (ap (λ (y : ℕ × TaskSize). y.1) same));
          positive = p;
        },
        sym (ap (λ (y : ℕ × TaskSize). y.0) same),
      )
      | inr j ↦
          let (entry, h) = found_all.only x j in
          (
            record {
              name = entry.name;
              config = entry.config;
              listed = Memᴰ.tail entry.listed;
              named = entry.named;
              positive = entry.positive;
            },
            h,
          )
    ];
  }

  scored_lem : (sizes : Sizes) → ScoredAs sizes (scored signal_in words sizes)
  unfolding scored ScoredAs
  scored_lem [] = record { covers = λ n c i. elim i [ ]; only = λ x i. elim i [ ] }
  scored_lem ((name, c) ∷ rest) = elim (Bool-cases (nat_eq (score c) 0)) [
    | inl zero_score ↦
        rw (scored, zero_score)
          (ScoredAs-skip name c rest (scored signal_in words rest) (ground arith) (scored_lem rest))
    | inr positive ↦ elim (Option-cases (size_of name)) [
      | inl misnamed ↦
          rw (scored, positive, misnamed) (name, c, Memᴰ.head refl, ground arith, misnamed)
      | inr (size, named) ↦
          rw (scored, positive, named)
            (ScoredAs-take name c size rest (scored signal_in words rest) (ground arith) named
              (scored_lem rest))
    ]
  ]

  -- What _score_size answers for the entries of the routes.
  pub data ScoreOutcome (sizes : Sizes) : Option TaskSize → Type 0 where
    misnamed :
        (name : String) (c : SizeConfig)
        → Memᴰ (name, c) sizes
        → 0 < score c
        → size_of name ≡ none
        → ScoreOutcome sizes none
    highest :
        {size : TaskSize} (e : Entry sizes size)
        → ((other : TaskSize) (o : Entry sizes other)
            → Beats (score e.config, size) (score o.config, other))
        → ScoreOutcome sizes (some size)
    unscored :
        ((name : String) (c : SizeConfig) → Memᴰ (name, c) sizes → score c ≡ 0)
        → ScoreOutcome sizes (some (without_score signal_in words sizes))

  ScoreOutcome-found :
      (sizes : Sizes) (x : ℕ × TaskSize) (rest : List (ℕ × TaskSize))
      → Scores sizes (x ∷ rest)
      → ScoreOutcome sizes (some (best x rest).1)
  ScoreOutcome-found sizes x rest found =
      let (listed, all) = best-IsBest x rest in
      let (e, h) = found.only (best x rest) listed in
      highest e λ other o.
        let (size, named, k) = found.covers o.name o.config o.listed o.positive in
        let same : size ≡ other = cc (named, o.named) in
        let over : Beats (best x rest) (score o.config, size) = all (score o.config, size) k in
        subst (λ z. Beats (score e.config, (best x rest).1) (score o.config, z)) same
          (subst (λ n. Beats (n, (best x rest).1) (score o.config, size)) (sym h) over)

  pick_lem :
      (sizes : Sizes) (r : Option (List (ℕ × TaskSize)))
      → ScoredAs sizes r
      → ScoreOutcome sizes (pick signal_in words sizes r)
  unfolding pick ScoredAs
  pick_lem sizes none (n, c, i, p, h) = misnamed n c i p h
  pick_lem sizes (some []) found = unscored λ n c i. elim (nat_cases (score c)) [
    | inl e ↦ e
    | inr p ↦ let (size, named, k) = found.covers n c i p in elim k [ ]
  ]
  pick_lem sizes (some (x ∷ rest)) found = ScoreOutcome-found sizes x rest found

  -- _score_size raises only for an entry that scores and names no size. Otherwise it answers the
  -- size of an entry that scores, no entry having a higher score, nor the same with a larger size;
  -- or, when no entry scores, the size that the signals of XS and the number of words give.
  pub score_size_lem : (sizes : Sizes) → ScoreOutcome sizes (score_size signal_in words sizes)
  unfolding score_size
  score_size_lem sizes = pick_lem sizes (scored signal_in words sizes) (scored_lem sizes)
