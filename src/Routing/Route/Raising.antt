-- ===== src/Routing/Route/Raising.antt =====
-- How the size is resolved and raised in route_task of servers/core/src/routing.py.
use youk.Prelude.{
  ℕ, ◌<◌, max, String, Bool, true, Option, none, some, ltb, ◌≡◌, ◌↔◌, inl, inr, ap, arith,
  Bool-cases, Option-cases,
}
use youk.Routing.Size.{TaskSize, xs, s, m, l, xl, size_of, rank}
use youk.Routing.Escalation.Pending.{rank_or_zero}
use youk.Routing.Decision.{IntentBrief}
use youk.Routing.Route.{resolve_size, raise_size}

-- The rank that a brief estimates; 0: it names no size.
abbrev pub estimated : IntentBrief → ℕ
estimated brief = rank_or_zero (size_of brief.estimated_size)

-- The size and the flag of the first step: the larger of the two sizes.
pub record Resolved (deterministic : TaskSize) (brief : IntentBrief) (r : TaskSize × String × Bool)
    : Type 0 where
  pub size : rank r.0 ≡ max (rank deterministic) (estimated brief)
  pub mismatch : (r.2 ≡ true) ↔ ((0 < estimated brief) × (estimated brief < rank deterministic))

rank-positive : (size : TaskSize) → 0 < rank size
rank-positive xs = omega arith
rank-positive s = omega arith
rank-positive m = omega arith
rank-positive l = omega arith
rank-positive xl = omega arith

pub resolve_size-Resolved :
    (deterministic : TaskSize) (brief : IntentBrief)
    → Resolved deterministic brief (resolve_size deterministic brief)
unfolding resolve_size
resolve_size-Resolved deterministic brief = elim (Option-cases (size_of brief.estimated_size)) [
  | inl unnamed ↦
      let e : estimated brief ≡ 0 = ap rank_or_zero unnamed in
      rw (resolve_size, unnamed) (record { size = ground (arith, e); mismatch = ground (arith, e) })
  | inr (estimate, named) ↦
      let e : estimated brief ≡ rank estimate = ap rank_or_zero named in
      let p = rank-positive estimate in
      elim (Bool-cases (ltb (rank estimate) (rank deterministic))) [
        | inl less ↦
            rw (resolve_size, named, less)
              (record { size = ground (arith, e); mismatch = ground (arith, e, p) })
        | inr more ↦
            rw (resolve_size, named, more)
              (record { size = ground (arith, e); mismatch = ground (arith, e, p) })
      ]
]

-- The second step: the escalation raises the size when it asks for more.
pub record Raised (size : TaskSize) (floor : Option TaskSize) (r : TaskSize × Bool) : Type 0 where
  pub rank_is : rank r.0 ≡ max (rank size) (rank_or_zero floor)
  pub flag : (r.1 ≡ true) ↔ (rank size < rank_or_zero floor)

pub raise_size-Raised :
    (size : TaskSize) (floor : Option TaskSize) → Raised size floor (raise_size size floor)
unfolding raise_size
raise_size-Raised size none = record { rank_is = omega arith; flag = ground arith }
raise_size-Raised size (some floor) = elim (Bool-cases (ltb (rank size) (rank floor))) [
  | inl less ↦ rw less (record { rank_is = ground arith; flag = ground arith })
  | inr more ↦ rw more (record { rank_is = ground arith; flag = ground arith })
]
