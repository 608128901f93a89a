-- ===== src/TaskGraph/Cycle/Clear.antt =====
-- A search that meets no back-edge leaves only safe names black, and every target of a black
-- name is black: `_would_cycle` answering False means that no walk comes back.
use youk.Prelude.{
  subst, ℕ, zero, suc, String, ◌≡◌, ◌≢◌, refl, List, [], ◌∷◌, Memᴰ, arith, ◌==◌, eq_iff, eq_refl,
  ◌⊎◌, inl, inr, Bool-cases,
}
use mathlib.Core.WellFounded.{Acc}
use youk.TaskGraph.Cycle.{
  Edge, white, grey, black, Colors, paint, unvisited, Search, cycle, clear, out_of_fuel, blacken,
  fuel_for, targets, adj_keys, visit_targets, visit, visit_roots, search_cycle,
}
use youk.TaskGraph.Cycle.Walk.{edge, Safe, Safe-below, mem-targets, mem-adj_keys}

blacken-clear :
    (n : String) (s : Search) {col' : Colors}
    → blacken n s ≡ clear col'
    → (mid : Colors) × (s ≡ clear mid) × (paint n black mid ≡ col')
blacken-clear n (clear mid) e = (mid, refl, cc)
blacken-clear n cycle e = cc
blacken-clear n out_of_fuel e = cc

-- How a loop over names ends with no back-edge: the first name was black, or it was white and
-- its visit left `mid`.
module _ (v : String → Colors → Search) (n : String) (ns : List String) (col : Colors) where
  abbrev pub Visited : (Colors → Search) → Colors → Type 0
  Visited rest col' =
      (mid : Colors) × (col n ≡ white) × (v n col ≡ clear mid) × (rest mid ≡ clear col')

  visit_targets_cons :
      {col' : Colors}
      → visit_targets v (n ∷ ns) col ≡ clear col'
      → (col n ≡ black) × (visit_targets v ns col ≡ clear col') ⊎ Visited (visit_targets v ns) col'
  unfolding visit_targets
  visit_targets_cons e = ground arith

  visit_roots_cons :
      {col' : Colors}
      → visit_roots v (n ∷ ns) col ≡ clear col'
      → (col n ≢ white) × (visit_roots v ns col ≡ clear col') ⊎ Visited (visit_roots v ns) col'
  unfolding visit_roots
  visit_roots_cons e = ground arith

module _ (es : List Edge) where
  abbrev pub BlackSafe : Colors → Type 0
  BlackSafe col = (m : String) → col m ≡ black → Safe es m

  -- What a part of the search that met no back-edge has done.
  pub record Clears (col col' : Colors) : Type 0 where
    pub safe : BlackSafe col'
    pub keeps : (m : String) → col m ≡ black → col' m ≡ black
    pub greys : (m : String) → col' m ≡ grey → col m ≡ grey
    pub whites : (m : String) → col' m ≡ white → col m ≡ white

  Clears-refl : (col : Colors) → BlackSafe col → Clears col col
  Clears-refl col safe = record {
    safe = safe;
    keeps = λ m h. h;
    greys = λ m h. h;
    whites = λ m h. h;
  }

  Clears-trans : {a b c : Colors} → Clears a b → Clears b c → Clears a c
  Clears-trans p q = record {
    safe = q.safe;
    keeps = λ m h. q.keeps m (p.keeps m h);
    greys = λ m h. p.greys m (q.greys m h);
    whites = λ m h. p.whites m (q.whites m h);
  }

  abbrev pub Sound : (String → Colors → Search) → Type 0
  Sound v =
      (n : String) (col col' : Colors)
      → col n ≡ white
      → BlackSafe col
      → v n col ≡ clear col'
      → Clears col col' × (col' n ≡ black)

  AllBlack : Colors → List String → Type 0
  AllBlack col ns = (m : String) → Memᴰ m ns → col m ≡ black

  AllBlack-cons :
      (col : Colors) (n : String) (ns : List String)
      → col n ≡ black
      → AllBlack col ns
      → AllBlack col (n ∷ ns)
  unfolding AllBlack
  AllBlack-cons col n ns h rest m (Memᴰ.head e) = cc
  AllBlack-cons col n ns h rest m (Memᴰ.tail i) = rest m i

  module _ (v : String → Colors → Search) (sound : Sound v) where
    visit_targets-Clears :
        (ns : List String) (col col' : Colors)
        → BlackSafe col
        → visit_targets v ns col ≡ clear col'
        → Clears col col' × AllBlack col' ns
    unfolding visit_targets AllBlack
    visit_targets-Clears [] col col' safe e =
        let same : col ≡ col' = cc in
        subst (λ c. Clears col c × AllBlack c []) same (Clears-refl col safe, λ m h. elim h [ ])
    visit_targets-Clears (n ∷ ns) col col' safe e = elim (visit_targets_cons v n ns col e) [
      | inl (b, e') ↦
          let (done, all) = visit_targets-Clears ns col col' safe e' in
          (done, AllBlack-cons col' n ns (done.keeps n b) all)
      | inr (mid, w, e1, e2) ↦
          let (first, b) = sound n col mid w safe e1 in
          let (done, all) = visit_targets-Clears ns mid col' first.safe e2 in
          (Clears-trans first done, AllBlack-cons col' n ns (done.keeps n b) all)
    ]

    -- No name is grey between two roots.
    visit_roots-Clears :
        (ns : List String) (col col' : Colors)
        → BlackSafe col
        → ((m : String) → col m ≢ grey)
        → visit_roots v ns col ≡ clear col'
        → Clears col col' × AllBlack col' ns
    unfolding visit_roots AllBlack
    visit_roots-Clears [] col col' safe plain e =
        let same : col ≡ col' = cc in
        subst (λ c. Clears col c × AllBlack c []) same (Clears-refl col safe, λ m h. elim h [ ])
    visit_roots-Clears (n ∷ ns) col col' safe plain e = elim (visit_roots_cons v n ns col e) [
      | inl (seen, e') ↦
          let (done, all) = visit_roots-Clears ns col col' safe plain e' in
          let b : col n ≡ black = ground (arith, plain n) in
          (done, AllBlack-cons col' n ns (done.keeps n b) all)
      | inr (mid, w, e1, e2) ↦
          let (first, b) = sound n col mid w safe e1 in
          let (done, all) =
            visit_roots-Clears ns mid col' first.safe (λ m g. plain m (first.greys m g)) e2 in
          (Clears-trans first done, AllBlack-cons col' n ns (done.keeps n b) all)
    ]

  -- Leaving a safe name: from grey to black.
  Clears-leave :
      (n : String) (col mid : Colors)
      → col n ≡ white
      → Safe es n
      → Clears (paint n grey col) mid
      → Clears col (paint n black mid)
  Clears-leave n col mid w here c = record {
    safe = λ m b. elim (Bool-cases (n == m)) [
      | inl same ↦ subst (Safe es) ((eq_iff n m).0 same) here
      | inr other ↦ c.safe m (ground arith)
    ];
    keeps = λ m b. ground (arith, eq_iff n m, c.keeps m);
    greys = λ m g. ground (arith, eq_iff n m, c.greys m);
    whites = λ m g. ground (arith, eq_iff n m, c.whites m);
  }

  pub visit-Sound : (f : ℕ) → Sound (visit f es)
  unfolding visit AllBlack
  visit-Sound zero n col col' w safe e = cc
  visit-Sound (suc f) n col col' w safe e =
      let start : BlackSafe (paint n grey col) = λ m b. safe m (ground arith) in
      let (mid, loop, same) = blacken-clear n _ e in
      let (done, all) =
        visit_targets-Clears (visit f es) (visit-Sound f) (targets es n) (paint n grey col) mid
          start loop in
      let here : Safe es n = Acc.intro n (λ c m. done.safe c (all c (mem-targets es m))) in
      subst (λ c. Clears col c × (c n ≡ black)) same
        (Clears-leave n col mid w here done, rw eq_refl)

  -- A search that meets no back-edge leaves no walk that goes on for ever.
  pub search_clear-Safe : (col : Colors) → search_cycle es ≡ clear col → (n : String) → Safe es n
  unfolding search_cycle AllBlack
  search_clear-Safe col e n =
      let (done, all) =
        visit_roots-Clears (visit (fuel_for es) es) (visit-Sound (fuel_for es)) (adj_keys es)
          unvisited col (λ m b. cc) (λ m g. cc) e in
      Acc.intro n λ c m. Safe-below (edge m) (done.safe n (all n (mem-adj_keys es m)))

pub Search-cases :
    (s : Search) → (s ≡ cycle) ⊎ ((col : Colors) × (s ≡ clear col)) ⊎ (s ≡ out_of_fuel)
Search-cases cycle = inl refl
Search-cases (clear col) = inr (inl (col, refl))
Search-cases out_of_fuel = inr (inr refl)
