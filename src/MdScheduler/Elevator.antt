-- ===== src/MdScheduler/Elevator.antt =====
-- The order in which a device of lib/md-scheduler.c is swept: rm_mds_elevator_cmp, and the list that a
-- pass starts with.
use mathlib.Core.List.{Perm}
use mathlib.Core.List.Perm
use rmlint.Common.{
  ◌<◌, ◌≡◌, ◌⊎◌, refl, true, false, List, [], ◌∷◌, ◌++◌, All, ltb, ltb→lt, ◌≤◌, some, is_empty,
  arith, inl, inr, Bool-cases,
}
use rmlint.Common.Sign.{ℤ, gt0, IsOrder}
use rmlint.Glib.{IsSort, Ordered}
use rmlint.MdScheduler.Device.{Task, Mds, Device, elevator_cmp, merge_tasks}

-- Task a may be done before task b in one sweep over the devices.
abbrev pub InSweep : Task → Task → Type 0
InSweep a b = (a.dev < b.dev) ⊎ ((a.dev ≡ b.dev) × (a.offset ≤ b.offset))

-- Each task may be done before all that follow.
abbrev pub IsSweep : List Task → Type 0
IsSweep [] = Unit
IsSweep (a ∷ ts) = All (InSweep a) ts × IsSweep ts

elevator_cmp-InSweep : (a b : Task) → gt0 (elevator_cmp a b) ≡ false → InSweep a b
unfolding elevator_cmp
elevator_cmp-InSweep a b h = elim (Bool-cases (ltb a.dev b.dev)) [
  | inl lower ↦ inl (ltb→lt a.dev b.dev lower)
  | inr not_lower ↦ inr (ground (arith, h, not_lower), ground (arith, h, not_lower))
]

elevator_cmp-IsOrder : IsOrder elevator_cmp
unfolding elevator_cmp
elevator_cmp-IsOrder = record { flip = λ a b. ground arith; trans = λ a b d h k. ground arith }

all-InSweep :
    (a : Task) (ts : List Task) → All (λ b. gt0 (elevator_cmp a b) ≡ false) ts → All (InSweep a) ts
all-InSweep a [] h = tt
all-InSweep a (b ∷ ts) h = (elevator_cmp-InSweep a b h.0, all-InSweep a ts h.1)

Ordered-IsSweep : (ts : List Task) → Ordered elevator_cmp ts → IsSweep ts
Ordered-IsSweep [] h = tt
Ordered-IsSweep (a ∷ ts) h = (all-InSweep a ts h.0, Ordered-IsSweep ts h.1)

empty→[] : (ts : List Task) → is_empty ts ≡ true → ts ≡ []
empty→[] [] h = refl
empty→[] (t ∷ ts) h = cc

-- With rm_mds_elevator_cmp as prioritiser a pass begins with the tasks pushed since the last pass, each
-- as often as it was pushed, in one sweep by device number and then by offset; the tasks that the last
-- pass left follow as they stood. No task is left unsorted.
-- This is for a sort that orders its argument and keeps its elements.
pub merge_tasks-IsSweep :
    (mds : Mds) (sort : (Task → Task → ℤ) → List Task → List Task) (d : Device)
    → IsSort sort
    → mds.prioritiser ≡ some elevator_cmp
    → ((merge_tasks mds sort d).unsorted_tasks ≡ [])
      × ((sweep : List Task) × ((merge_tasks mds sort d).sorted_tasks ≡ sweep ++ d.sorted_tasks)
          × IsSweep sweep
          × Perm sweep d.unsorted_tasks)
unfolding merge_tasks
merge_tasks-IsSweep mds sort d is_sort elevator = elim (Bool-cases (is_empty d.unsorted_tasks)) [
  | inl empty ↦
      let nothing = empty→[] d.unsorted_tasks empty in
      rw empty (nothing, ([], refl, tt, rw nothing (Perm.refl [])))
  | inr some_tasks ↦ rw some_tasks (
    refl,
    (
      sort elevator_cmp d.unsorted_tasks,
      rw elevator refl,
      Ordered-IsSweep _ (is_sort.ordered elevator_cmp d.unsorted_tasks elevator_cmp-IsOrder),
      is_sort.perm elevator_cmp d.unsorted_tasks,
    ),
  )
]
