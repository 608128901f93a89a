-- ===== src/TaskGraph/Cycle/Found.antt =====
-- A back-edge that the search of graph.py's `_would_cycle` meets closes a walk, and the fuel lasts.
use youk.Prelude.{
  ℕ, zero, suc, String, ◌≡◌, ◌≢◌, refl, sym, subst, List, [], ◌∷◌, Memᴰ, arith, ◌==◌, eq_iff, ◌⊎◌,
  inl, inr, Bool-cases,
}
use youk.TaskGraph.Cycle.{
  Edge, white, grey, Colors, paint, unvisited, Search, cycle, clear, blacken, fuel_for, targets,
  adj_keys, visit_targets, visit, visit_roots, search_cycle,
}
use youk.TaskGraph.Cycle.Walk.{Walk, edge, Walk-snoc, targets-mem}
use youk.TaskGraph.Cycle.Clear.{BlackSafe, Sound, visit-Sound}

abbrev pub Cyclic : List Edge → Type 0
Cyclic es = (n : String) × Walk es n n

module _ (v : String → Colors → Search) (n : String) (ns : List String) (col : Colors) where
  abbrev pub Later : (Colors → Search) → Search → Type 0
  Later rest s = (mid : Colors) × (col n ≡ white) × (v n col ≡ clear mid) × (rest mid ≡ s)

  visit_targets_cycle :
      visit_targets v (n ∷ ns) col ≡ cycle
      → (col n ≡ grey)
        ⊎ ((col n ≡ white) × (v n col ≡ cycle))
        ⊎ (visit_targets v ns col ≡ cycle)
        ⊎ Later (visit_targets v ns) cycle
  unfolding visit_targets
  visit_targets_cycle e = ground arith

  visit_roots_cycle :
      visit_roots v (n ∷ ns) col ≡ cycle
      → ((col n ≡ white) × (v n col ≡ cycle))
        ⊎ (visit_roots v ns col ≡ cycle)
        ⊎ Later (visit_roots v ns) cycle
  unfolding visit_roots
  visit_roots_cycle e = ground arith

blacken-cycle : (n : String) (s : Search) → blacken n s ≡ cycle → s ≡ cycle
blacken-cycle n s e = ground arith

module _ (es : List Edge) where
  -- Every grey name is on the way to `n`.
  abbrev GreyAbove : Colors → String → Type 0
  GreyAbove col n = (g : String) → col g ≡ grey → Walk es g n

  abbrev Leads : (String → Colors → Search) → Type 0
  Leads v =
      (n : String) (col : Colors)
      → col n ≡ white
      → BlackSafe es col
      → GreyAbove col n
      → v n col ≡ cycle
      → Cyclic es

  module _ (v : String → Colors → Search) (sound : Sound es v) (leads : Leads v) where
    visit_targets-Cyclic :
        (p : String) (ns : List String) (col : Colors)
        → ((m : String) → Memᴰ m ns → Memᴰ (p, m) es)
        → BlackSafe es col
        → ((g : String) → col g ≡ grey → (g ≡ p) ⊎ Walk es g p)
        → visit_targets v ns col ≡ cycle
        → Cyclic es
    visit_targets-Cyclic p [] col child safe above e = unfold visit_targets in cc
    visit_targets-Cyclic p (n ∷ ns) col child safe above e =
        let link : Memᴰ (p, n) es = child n (Memᴰ.head refl) in
        let later : (m : String) → Memᴰ m ns → Memᴰ (p, m) es = λ m i. child m (Memᴰ.tail i) in
        let down : GreyAbove col n = λ g h. elim (above g h) [
          | inl same ↦ subst (λ x. Walk es x n) (sym same) (edge link)
          | inr w ↦ Walk-snoc w link
        ] in
        elim (visit_targets_cycle v n ns col e) [
          | inl g ↦ (n, down n g)
          | inr (inl (w, found)) ↦ leads n col w safe down found
          | inr (inr (inl rest)) ↦ visit_targets-Cyclic p ns col later safe above rest
          | inr (inr (inr (mid, w, e1, e2))) ↦
              let (first, b) = sound n col mid w safe e1 in
              visit_targets-Cyclic p ns mid later first.safe (λ g h. above g (first.greys g h)) e2
        ]

    visit_roots-Cyclic :
        (ns : List String) (col : Colors)
        → BlackSafe es col
        → ((g : String) → col g ≢ grey)
        → visit_roots v ns col ≡ cycle
        → Cyclic es
    visit_roots-Cyclic [] col safe plain e = unfold visit_roots in cc
    visit_roots-Cyclic (n ∷ ns) col safe plain e = elim (visit_roots_cycle v n ns col e) [
      | inl (w, found) ↦ leads n col w safe (λ g h. absurd (plain g h)) found
      | inr (inl rest) ↦ visit_roots-Cyclic ns col safe plain rest
      | inr (inr (mid, w, e1, e2)) ↦
          let (first, b) = sound n col mid w safe e1 in
          visit_roots-Cyclic ns mid first.safe (λ g h. plain g (first.greys g h)) e2
    ]

  pub entered-BlackSafe :
      (n : String) (col : Colors) → BlackSafe es col → BlackSafe es (paint n grey col)
  entered-BlackSafe n col safe m b = safe m (ground arith)

  visit-Leads : (f : ℕ) → Leads (visit f es)
  unfolding visit
  visit-Leads zero n col w safe above e = cc
  visit-Leads (suc f) n col w safe above e =
      let start : (g : String) → paint n grey col g ≡ grey → (g ≡ n) ⊎ Walk es g n = λ g h.
        elim (Bool-cases (n == g)) [
          | inl same ↦ inl (sym ((eq_iff n g).0 same))
          | inr other ↦ inr (above g (ground arith))
        ] in
      visit_targets-Cyclic (visit f es) (visit-Sound es f) (visit-Leads f) n (targets es n)
        (paint n grey col) (λ m. targets-mem es) (entered-BlackSafe n col safe) start
        (blacken-cycle n _ e)

  pub search_cycle-Cyclic : search_cycle es ≡ cycle → Cyclic es
  unfolding search_cycle
  search_cycle-Cyclic e =
      visit_roots-Cyclic (visit (fuel_for es) es) (visit-Sound es (fuel_for es))
        (visit-Leads (fuel_for es)) (adj_keys es) unvisited (λ m b. cc) (λ g h. cc) e
