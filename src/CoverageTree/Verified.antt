-- ===== src/CoverageTree/Verified.antt =====
-- build_tree of coverage_tree.py never claims a verification that did not happen.
use youk.Prelude.Memᴰ
use youk.Prelude.{
  String, Bool, true, false, Option, none, some, List, [], ◌∷◌, ◌==◌, ◌≡◌, ◌≢◌, ◌⊎◌, inl, inr, refl,
  sym, ap, ◌∙◌, subst, eq_iff, Memᴰ, Bool-cases, Option-cases,
}
use youk.CoverageTree.{
  Node, Branch, AdversaryStatus, clean, found_gaps, not_run, CoverageTree, Templates, template_for,
  Adversary, contest, absorb, absorb_all, found_after, challenge, with_asks, domains_with,
  populated, build_tree,
}

-- The concept stands in the list, marked for the human to rule on.
pub record Raised (concept : String) (nodes : List Node) : Type 0 where
  pub node : Node
  pub listed : Memᴰ node nodes
  pub same : node.concept ≡ concept
  pub contested : node.contested_by_adversary ≡ true

Raised-tail : {c : String} {m : Node} {ms : List Node} → Raised c ms → Raised c (m ∷ ms)
Raised-tail r = record {
  node = r.node;
  listed = Memᴰ.tail r.listed;
  same = r.same;
  contested = r.contested;
}

absorb-Raised : (n : Node) (ms : List Node) → Raised n.concept (absorb n ms)
unfolding absorb
absorb-Raised n [] = record { node = _; listed = Memᴰ.head refl; same = refl; contested = refl }
absorb-Raised n (m ∷ ms) = elim (Bool-cases (m.concept == n.concept)) [
  | inl here ↦ rw here (record {
    node = contest n m;
    listed = Memᴰ.head refl;
    same = (eq_iff m.concept n.concept).0 here;
    contested = refl;
  })
  | inr other ↦ rw other (Raised-tail (absorb-Raised n ms))
]

Raised-absorb : (n : Node) (c : String) (ms : List Node) → Raised c ms → Raised c (absorb n ms)
unfolding absorb
Raised-absorb n c [] r = elim (r.listed) [ ]
Raised-absorb n c (m ∷ ms) r = elim (Bool-cases (m.concept == n.concept)) [
  | inl here ↦ rw here (elim (Memᴰ.cases_cons r.listed) [
    | inl e ↦ record {
      node = contest n m;
      listed = Memᴰ.head refl;
      same = sym (ap (λ (x : Node). x.concept) e) ∙ r.same;
      contested = refl;
    }
    | inr i ↦ record { node = r.node; listed = Memᴰ.tail i; same = r.same; contested = r.contested }
  ])
  | inr other ↦ rw other (elim (Memᴰ.cases_cons r.listed) [
    | inl e ↦ record { node = r.node; listed = Memᴰ.head e; same = r.same; contested = r.contested }
    | inr i ↦ Raised-tail (
        Raised-absorb n c ms
          (record { node = r.node; listed = i; same = r.same; contested = r.contested }))
  ])
]

Raised-absorb_all :
    (ns : List Node) (c : String) (ms : List Node) → Raised c ms → Raised c (absorb_all ns ms)
unfolding absorb_all
Raised-absorb_all [] c ms r = r
Raised-absorb_all (n ∷ ns) c ms r = Raised-absorb_all ns c (absorb n ms) (Raised-absorb n c ms r)

absorb_all-Raised : (ns ms : List Node) {n : Node} → Memᴰ n ns → Raised n.concept (absorb_all ns ms)
unfolding absorb_all
absorb_all-Raised [] ms i = elim i [ ]
absorb_all-Raised (x ∷ ns) ms {n} (Memᴰ.head e) = Raised-absorb_all ns n.concept (absorb x ms) (
    subst (λ (c : String). Raised c (absorb x ms)) (sym (ap (λ (y : Node). y.concept) e))
      (absorb-Raised x ms))
absorb_all-Raised (x ∷ ns) ms (Memᴰ.tail i) = absorb_all-Raised ns (absorb x ms) i

module _ (attack : Adversary) (task : String) (templates : Templates) where
  abbrev pub answer : Branch → Option (List Node)
  answer b = attack task b (template_for b.domain templates)

  -- The adversary answered for the branch, and each node that it named is raised in a branch of
  -- the same domain in `after`.
  pub record Answered (after : List Branch) (b : Branch) : Type 0 where
    pub additions : List Node
    pub ran : answer b ≡ some additions
    pub raised :
        (n : Node)
        → Memᴰ n additions
        → (b' : Branch) × Memᴰ b' after × (b'.domain ≡ b.domain) × Raised n.concept b'.nodes

  -- What the loop answers for the branches `bs`, `found` telling whether a gap was found before.
  pub data Verdict (found : Bool) (bs : List Branch) : AdversaryStatus × List Branch → Type 0 where
    interrupted :
        {after : List Branch} (b : Branch)
        → Memᴰ b bs
        → answer b ≡ none
        → Verdict found bs (not_run, after)
    gaps :
        {after : List Branch}
        → ((b : Branch) → Memᴰ b bs → Answered after b)
        → (found ≡ true) ⊎ ((b : Branch) × Memᴰ b bs × (answer b ≢ some []))
        → Verdict found bs (found_gaps, after)
    green :
        {after : List Branch}
        → found ≡ false
        → ((b : Branch) → Memᴰ b bs → answer b ≡ some [])
        → after ≡ bs
        → Verdict found bs (clean, after)

  Answered-tail : {after : List Branch} {b' b : Branch} → Answered after b → Answered (b' ∷ after) b
  Answered-tail a = record {
    additions = a.additions;
    ran = a.ran;
    raised = λ n i. let (x, m, d, r) = a.raised n i in (x, Memᴰ.tail m, d, r);
  }

  Answered-here :
      {after : List Branch} (b : Branch) (additions : List Node)
      → answer b ≡ some additions
      → Answered (record b { nodes = absorb_all additions b.nodes } ∷ after) b
  Answered-here b additions e = record {
    additions = additions;
    ran = e;
    raised = λ n i. (_, Memᴰ.head refl, refl, absorb_all-Raised additions b.nodes i);
  }

  Answered-cons :
      {after : List Branch} (b : Branch) (bs : List Branch) (additions : List Node)
      → answer b ≡ some additions
      → ((x : Branch) → Memᴰ x bs → Answered after x)
      → (x : Branch) → Memᴰ x (b ∷ bs)
      → Answered (record b { nodes = absorb_all additions b.nodes } ∷ after) x
  Answered-cons {after} b bs additions e all x m = elim (Memᴰ.cases_cons m) [
    | inl same ↦
        subst (Answered (record b { nodes = absorb_all additions b.nodes } ∷ after)) (sym same)
          (Answered-here b additions e)
    | inr i ↦ Answered-tail (all x i)
  ]

  Verdict-cons :
      (found : Bool) (b : Branch) (bs : List Branch) (additions : List Node)
      {r : AdversaryStatus × List Branch}
      → answer b ≡ some additions
      → Verdict (found_after found additions) bs r
      → Verdict found (b ∷ bs) (r.0, record b { nodes = absorb_all additions b.nodes } ∷ r.1)
  unfolding absorb_all
  Verdict-cons found b bs additions e (interrupted x m h) = interrupted x (Memᴰ.tail m) h
  Verdict-cons found b bs [] e (gaps all (inl before)) =
      gaps (Answered-cons b bs [] e all) (inl before)
  Verdict-cons found b bs (n ∷ ns) e (gaps all (inl before)) =
      gaps (Answered-cons b bs (n ∷ ns) e all) (inr (b, Memᴰ.head refl, λ h. cc (e, h)))
  Verdict-cons found b bs additions e (gaps all (inr (x, m, h))) =
      gaps (Answered-cons b bs additions e all) (inr (x, Memᴰ.tail m, h))
  Verdict-cons found b bs [] e (green quiet all same) =
      green quiet
        (λ x m. elim (Memᴰ.cases_cons m) [ inl here ↦ ap answer here ∙ e | inr i ↦ all x i ])
        (ap (λ l. b ∷ l) same)
  Verdict-cons found b bs (n ∷ ns) e (green quiet all same) = cc

  challenge-Verdict :
      (found : Bool) (bs : List Branch)
      → Verdict found bs (challenge attack task templates bs found)
  unfolding challenge
  challenge-Verdict true [] = gaps (λ b m. elim m [ ]) (inl refl)
  challenge-Verdict false [] = green refl (λ b m. elim m [ ]) refl
  challenge-Verdict found (b ∷ bs) = elim (Option-cases (answer b)) [
    | inl raised ↦ rw (raised, challenge) (interrupted b (Memᴰ.head refl) raised)
    | inr (additions, e) ↦
        rw (e, challenge)
          (Verdict-cons found b bs additions e (challenge-Verdict (found_after found additions) bs))
  ]

-- What the status of a tree means, for the branches that `populate` filled.
pub data Honest (templates : Templates) (task : String) (filled : List Branch) (tree : CoverageTree)
    : Option Adversary → Type 0 where
  unasked :
      tree.adversary_status ≡ not_run
      → tree.branches ≡ filled
      → Honest templates task filled tree none
  asked :
      {attack : Adversary}
      → Verdict attack task templates false filled (tree.adversary_status, tree.branches)
      → Honest templates task filled tree (some attack)

-- A tree of build_tree is NOT_RUN without an adversary, or when the adversary raises for some
-- branch; it is FOUND_GAPS only when the adversary answered for every branch and named a node, and
-- each node that it named is in the branch of its domain, contested; and it is CLEAN only when the
-- adversary answered for every branch with no node, the branches being the populated ones.
pub build_tree-Honest :
    (templates : Templates) (asks : List String) (task : String) (domains : List String)
    (populate : String → String → List String → List Node) (adversary : Option Adversary)
    → Honest
        (with_asks asks templates)
        task
        (populated populate task (with_asks asks templates) (domains_with asks domains))
        (build_tree templates asks task domains populate adversary)
        adversary
unfolding build_tree
build_tree-Honest templates asks task domains populate none = unasked refl refl
build_tree-Honest templates asks task domains populate (some attack) =
    let all = with_asks asks templates in
    asked (
      challenge-Verdict attack task all false
        (populated populate task all (domains_with asks domains)))
