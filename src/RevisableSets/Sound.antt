-- ===== src/RevisableSets/Sound.antt =====
-- Any sequence of calls keeps the registry of revisable_sets.py sound.
use youk.Prelude.Memᴰ
use youk.Prelude.{
  ℕ, String, false, List, [], ◌∷◌, contains, ◌≡◌, inl, inr, refl, sym, ap, ◌∙◌, subst, Memᴰ,
  Bool-cases, Option-cases,
}
use youk.RevisableSets.{
  RevisableSet, Registry, frozen_hard_blocked, valid_policies, find, enroll, Refusal, Attempt,
  change, learn, unlearn, undo, on_set, learn_add, unlearn_prune, revert, not_enrolled,
  nothing_to_revert,
}
use youk.RevisableSets.Versions.{
  find-mem, replace-mem, Attempt-cases, IsVersioned, learn-IsVersioned, unlearn-IsVersioned,
  undo-IsVersioned,
}

-- No frozen name is enrolled, and each set is versioned.
abbrev pub IsSound : Registry → Type 0
IsSound reg =
    (name : String) (rs : RevisableSet)
    → Memᴰ (name, rs) reg
    → (contains frozen_hard_blocked name ≡ false) × IsVersioned rs

on_set-IsSound :
    (name : String) (missing : Refusal) (f : RevisableSet → Attempt) (reg : Registry)
    → ((rs rs' : RevisableSet) → IsVersioned rs → f rs ≡ change rs' → IsVersioned rs')
    → IsSound reg
    → IsSound (on_set name missing f reg).1
unfolding on_set
on_set-IsSound name missing f reg keeps sound = elim (Option-cases (find name reg)) [
  | inl h ↦ rw (h, on_set) sound
  | inr (rs, h) ↦
      let (free, v) = sound name rs (find-mem name reg h) in
      elim (Attempt-cases (f rs)) [
        | inl (why, refused) ↦ rw (h, on_set, refused) sound
        | inr (rs', done) ↦
            rw (h, on_set, done)
              λ n x m. elim (replace-mem name rs' reg m) [
                | inl i ↦ sound n x i
                | inr (same, changed) ↦ (
                  ap (contains frozen_hard_blocked) same ∙ free,
                  subst IsVersioned (sym changed) (keeps rs rs' v done),
                )
              ]
      ]
]

enroll-IsSound :
    (name policy : String) (initial : List String) (now : ℕ) (reg : Registry)
    → IsSound reg
    → IsSound (enroll name policy initial now reg).1
unfolding enroll
enroll-IsSound name policy initial now reg sound =
    elim (Bool-cases (contains frozen_hard_blocked name)) [
      | inl wall ↦ rw (wall, enroll) sound
      | inr free ↦ elim (Bool-cases (contains valid_policies policy)) [
        | inr bad ↦ rw (free, enroll, bad) sound
        | inl good ↦ elim (Option-cases (find name reg)) [
          | inr (rs, h) ↦
              rw (free, enroll, good, h)
                λ n x m. elim (replace-mem name (record rs { policy = policy }) reg m) [
                  | inl i ↦ sound n x i
                  | inr (same, changed) ↦
                      let (clear, v) = sound name rs (find-mem name reg h) in
                      (
                        ap (contains frozen_hard_blocked) same ∙ free,
                        subst IsVersioned (sym changed)
                            (record { counted = v.counted; version = v.version; policy = good }),
                      )
                ]
          | inl h ↦
              rw (free, enroll, good, h)
                λ n x m. elim (Memᴰ.append_cases reg m) [
                  | inl i ↦ sound n x i
                  | inr i ↦
                      let e = Memᴰ.eq_of_singleton i in
                      (
                        ap (λ item. contains frozen_hard_blocked item.0) e ∙ free,
                        subst IsVersioned (sym (ap (λ (item : String × RevisableSet). item.1) e))
                            (record { counted = tt; version = refl; policy = good }),
                      )
                ]
        ]
      ]
    ]

-- The calls that write the registry.
pub data Call : Type 0 where
  enrolls : (name policy : String) (initial : List String) (now : ℕ) → Call
  adds : (name element driver : String) (now : ℕ) → Call
  prunes : (name element : String) (now : ℕ) → Call
  reverts : (name : String) (now : ℕ) → Call

abbrev pub perform : Call → Registry → Registry
perform (enrolls name policy initial now) reg = (enroll name policy initial now reg).1
perform (adds name element driver now) reg = (learn_add name element driver now reg).1
perform (prunes name element now) reg = (unlearn_prune name element now reg).1
perform (reverts name now) reg = (revert name now reg).1

unfoldable pub perform_all : List Call → Registry → Registry
perform_all [] reg = reg
perform_all (c ∷ cs) reg = perform_all cs (perform c reg)

perform-IsSound : (c : Call) (reg : Registry) → IsSound reg → IsSound (perform c reg)
unfolding learn_add unlearn_prune revert
perform-IsSound (enrolls name policy initial now) reg s =
    enroll-IsSound name policy initial now reg s
perform-IsSound (adds name element driver now) reg s =
    on_set-IsSound name not_enrolled (learn element driver now) reg
      (learn-IsVersioned element driver now) s
perform-IsSound (prunes name element now) reg s =
    on_set-IsSound name not_enrolled (unlearn element now) reg (unlearn-IsVersioned element now) s
perform-IsSound (reverts name now) reg s =
    on_set-IsSound name nothing_to_revert (undo now) reg (undo-IsVersioned now) s

-- Whatever calls of enroll, learn_add, unlearn_prune and revert are made, in any order, on a
-- registry in which no frozen name is enrolled, every policy is a valid one, every version is the
-- number of snapshots, and the snapshots are numbered in order, the registry stays so.
pub perform_all-IsSound :
    (cs : List Call) (reg : Registry) → IsSound reg → IsSound (perform_all cs reg)
unfolding perform_all
perform_all-IsSound [] reg s = s
perform_all-IsSound (c ∷ cs) reg s =
    perform_all-IsSound cs (perform c reg) (perform-IsSound c reg s)
