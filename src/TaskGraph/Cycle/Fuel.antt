-- ===== src/TaskGraph/Cycle/Fuel.antt =====
-- The fuel of the model of graph.py's `_would_cycle` lasts: each visit paints a white name.
use youk.Prelude.{
  ℕ, zero, suc, ◌≤◌, ◌<◌, String, ◌≡◌, ◌≢◌, refl, subst, List, [], ◌∷◌, Memᴰ, arith, eq_refl,
  length, ◌⊎◌, inl, inr, ap,
}
use youk.TaskGraph.Cycle.{
  Edge, white, grey, black, Colors, paint, unvisited, Search, out_of_fuel, blacken, fuel_for,
  targets, adj_keys, endpoints, visit_targets, visit, visit_roots, search_cycle,
}
use youk.TaskGraph.Cycle.Walk.{targets-mem, adj_keys-mem}
use youk.TaskGraph.Cycle.Clear.{BlackSafe, Sound, visit-Sound}
use youk.TaskGraph.Cycle.Found.{Later, entered-BlackSafe}

module _ (v : String → Colors → Search) (n : String) (ns : List String) (col : Colors) where
  visit_targets_fuel :
      visit_targets v (n ∷ ns) col ≡ out_of_fuel
      → ((col n ≡ white) × (v n col ≡ out_of_fuel))
        ⊎ (visit_targets v ns col ≡ out_of_fuel)
        ⊎ Later v n ns col (visit_targets v ns) out_of_fuel
  unfolding visit_targets
  visit_targets_fuel e = ground arith

  visit_roots_fuel :
      visit_roots v (n ∷ ns) col ≡ out_of_fuel
      → ((col n ≡ white) × (v n col ≡ out_of_fuel))
        ⊎ (visit_roots v ns col ≡ out_of_fuel)
        ⊎ Later v n ns col (visit_roots v ns) out_of_fuel
  unfolding visit_roots
  visit_roots_fuel e = ground arith

blacken-out_of_fuel : (n : String) (s : Search) → blacken n s ≡ out_of_fuel → s ≡ out_of_fuel
blacken-out_of_fuel n s e = ground arith

-- The names that are still white.
white_count : Colors → List String → ℕ
white_count col [] = 0
white_count col (n ∷ ns) = elim (col n) [
  | white ↦ suc (white_count col ns)
  | grey ↦ white_count col ns
  | black ↦ white_count col ns
]

abbrev Fewer : Colors → Colors → Type 0
Fewer col' col = (m : String) → col' m ≡ white → col m ≡ white

white_count_mono :
    (ns : List String) (col col' : Colors)
    → Fewer col' col
    → white_count col' ns ≤ white_count col ns
unfolding white_count
white_count_mono [] col col' fewer = omega arith
white_count_mono (n ∷ ns) col col' fewer =
    ground (arith, fewer n, white_count_mono ns col col' fewer)

white_count-lt :
    (ns : List String) (n : String) (col col' : Colors)
    → Fewer col' col
    → Memᴰ n ns
    → col n ≡ white
    → col' n ≢ white
    → white_count col' ns < white_count col ns
unfolding white_count
white_count-lt [] n col col' fewer i w ne = elim i [ ]
white_count-lt (m ∷ ns) n col col' fewer (Memᴰ.head e) w ne =
    let w' : col m ≡ white = subst (λ x. col x ≡ white) e w in
    let ne' : col' m ≢ white = subst (λ x. col' x ≢ white) e ne in
    ground (arith, white_count_mono ns col col' fewer)
white_count-lt (m ∷ ns) n col col' fewer (Memᴰ.tail i) w ne =
    ground (arith, fewer m, white_count-lt ns n col col' fewer i w ne)

white_count-le_length : (ns : List String) (col : Colors) → white_count col ns ≤ length ns
unfolding white_count
white_count-le_length [] col = omega arith
white_count-le_length (n ∷ ns) col = ground (arith, white_count-le_length ns col)

mem-endpoints :
    {p c : String} (es : List Edge) → Memᴰ (p, c) es → Memᴰ p (endpoints es) × Memᴰ c (endpoints es)
unfolding endpoints
mem-endpoints [] i = elim i [ ]
mem-endpoints ((q, d) ∷ es) (Memᴰ.head e) =
    (Memᴰ.head (ap (λ (x : Edge). x.0) e), Memᴰ.tail (Memᴰ.head (ap (λ (x : Edge). x.1) e)))
mem-endpoints ((q, d) ∷ es) (Memᴰ.tail i) =
    let (a, b) = mem-endpoints es i in (Memᴰ.tail (Memᴰ.tail a), Memᴰ.tail (Memᴰ.tail b))

module _ (es : List Edge) where
  abbrev Known : List String → Type 0
  Known ns = (m : String) → Memᴰ m ns → Memᴰ m (endpoints es)

  -- With more fuel than white names a visit does not run out.
  abbrev Fueled : ℕ → (String → Colors → Search) → Type 0
  Fueled f v =
      (n : String) (col : Colors)
      → col n ≡ white
      → Memᴰ n (endpoints es)
      → BlackSafe es col
      → white_count col (endpoints es) < f
      → v n col ≢ out_of_fuel

  module _ (f : ℕ) (v : String → Colors → Search) (sound : Sound es v) (fueled : Fueled f v) where
    visit_targets-fueled :
        (ns : List String) (col : Colors)
        → Known ns
        → BlackSafe es col
        → white_count col (endpoints es) < f
        → visit_targets v ns col ≢ out_of_fuel
    visit_targets-fueled [] col known safe lt e = unfold visit_targets in cc
    visit_targets-fueled (n ∷ ns) col known safe lt e =
        let known' : Known ns = λ m i. known m (Memᴰ.tail i) in
        elim (visit_targets_fuel v n ns col e) [
          | inl (w, out) ↦ fueled n col w (known n (Memᴰ.head refl)) safe lt out
          | inr (inl rest) ↦ visit_targets-fueled ns col known' safe lt rest
          | inr (inr (mid, w, e1, e2)) ↦
              let (first, b) = sound n col mid w safe e1 in
              visit_targets-fueled ns mid known' first.safe
                (omega (arith, white_count_mono (endpoints es) col mid first.whites)) e2
        ]

    visit_roots-fueled :
        (ns : List String) (col : Colors)
        → Known ns
        → BlackSafe es col
        → white_count col (endpoints es) < f
        → visit_roots v ns col ≢ out_of_fuel
    visit_roots-fueled [] col known safe lt e = unfold visit_roots in cc
    visit_roots-fueled (n ∷ ns) col known safe lt e =
        let known' : Known ns = λ m i. known m (Memᴰ.tail i) in
        elim (visit_roots_fuel v n ns col e) [
          | inl (w, out) ↦ fueled n col w (known n (Memᴰ.head refl)) safe lt out
          | inr (inl rest) ↦ visit_roots-fueled ns col known' safe lt rest
          | inr (inr (mid, w, e1, e2)) ↦
              let (first, b) = sound n col mid w safe e1 in
              visit_roots-fueled ns mid known' first.safe
                (omega (arith, white_count_mono (endpoints es) col mid first.whites)) e2
        ]

  visit-Fueled : (f : ℕ) → Fueled f (visit f es)
  unfolding visit
  visit-Fueled zero n col w i safe lt e = absurd (omega arith)
  visit-Fueled (suc f) n col w i safe lt e =
      let fewer : Fewer (paint n grey col) col = λ m h. ground arith in
      let grey_now : paint n grey col n ≢ white = rw eq_refl (λ h. cc) in
      visit_targets-fueled f (visit f es) (visit-Sound es f) (visit-Fueled f) (targets es n)
        (paint n grey col) (λ m j. (mem-endpoints es (targets-mem es j)).1)
        (entered-BlackSafe es n col safe)
        (omega (arith, white_count-lt (endpoints es) n col (paint n grey col) fewer i w grey_now))
        (blacken-out_of_fuel n _ e)

  adj_keys-Known : Known (adj_keys es)
  adj_keys-Known m i = let (c, j) = adj_keys-mem es i in (mem-endpoints es j).0

  pub search_cycle-ne-out_of_fuel : search_cycle es ≢ out_of_fuel
  unfolding search_cycle
  search_cycle-ne-out_of_fuel =
      visit_roots-fueled (fuel_for es) (visit (fuel_for es) es) (visit-Sound es (fuel_for es))
        (visit-Fueled (fuel_for es)) (adj_keys es) unvisited adj_keys-Known (λ m b. cc)
        (omega (arith, white_count-le_length (endpoints es) unvisited))
