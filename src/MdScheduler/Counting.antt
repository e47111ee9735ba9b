-- ===== src/MdScheduler/Counting.antt =====
-- No task of a device of lib/md-scheduler.c is lost, and none is run twice, however the workers and
-- the clients interleave.
use rmlint.Common.{
  ℕ, ◌+◌, ◌<◌, ◌≡◌, refl, ap, Bool, List, [], ◌∷◌, some, ltb, ◌==◌, bit, is_empty, count,
  count-append, arith, Bool-cases, Option-cases, inl, inr, if◌then◌else◌,
}
use rmlint.Common.Family.{put, total, total-put, total_constant}
use rmlint.Common.Perms.{count-perm}
use rmlint.Common.Sign.{ℤ, pos, gt0}
use rmlint.Glib.{IsSort}
use rmlint.MdScheduler.Device.{
  Task, Mds, Device, device_new, merge_tasks, pop_task, device_ref, push_task_impl,
}
use rmlint.MdScheduler.Fresh.{IsFresh, Reach-IsFresh}
use rmlint.Utilities.Queues.{slist_pop}
use rmlint.MdScheduler.Workers.{
  Pc, System, queued, waiting, leaving, freeing, done, absent, passing, checking, running, move,
  push, take_ref, drop_ref, must_wait, device_start, begin_pass, enter, pop, finish, check, leave,
  free, WorkerStep, enters, wakes, pops, finishes, checks, leaves, frees, ClientStep, pushes, takes,
  drops, starts, Reach, begun, works, clients, system_new,
}

-- the tasks that a worker holds
abbrev pub in_hand : (Task → Bool) → Pc → ℕ
in_hand p (running k t) = bit (p t)
in_hand p pc = 0

module _ (mds : Mds) (sort : (Task → Task → ℤ) → List Task → List Task) (is_sort : IsSort sort)
    (p : Task → Bool) where
  abbrev in_lists : Device → ℕ
  in_lists d = count p d.sorted_tasks + count p d.unsorted_tasks

  abbrev held : System → ℕ
  held s = total (in_hand p) s.worker mds.threads_per_disk

  merge_tasks-count : (d : Device) → in_lists (merge_tasks mds sort d) ≡ in_lists d
  unfolding merge_tasks
  merge_tasks-count d = elim (Bool-cases (is_empty d.unsorted_tasks)) [
    | inl nothing ↦ rw nothing refl
    | inr some_tasks ↦ rw some_tasks (elim (Option-cases mds.prioritiser) [
      | inl unordered ↦ rw unordered (omega (arith, count-append p d.unsorted_tasks d.sorted_tasks))
      | inr (c, ordered) ↦ rw ordered (
          omega (
            arith,
            count-append p (sort (λ a b. c a b) d.unsorted_tasks) d.sorted_tasks,
            count-perm p (is_sort.perm (λ a b. c a b) d.unsorted_tasks),
          ))
    ])
  ]

  -- What is pushed is executed, in a list or in hand.
  abbrev IsCounted : System → Type 0
  IsCounted s = count p s.pushed ≡ count p s.executed + in_lists s.device + held s

  -- A worker is at another place, with the device and the tasks executed as they are then.
  moves :
      (s t : System) (w : ℕ) (pc : Pc)
      → IsCounted s
      → w < mds.threads_per_disk
      → t.worker ≡ put w pc s.worker
      → t.pushed ≡ s.pushed
      → count p t.executed + in_lists t.device + in_hand p pc
        ≡ count p s.executed + in_lists s.device + in_hand p (s.worker w)
      → IsCounted t
  moves s t w pc c small at same kept = omega (
    arith,
    c,
    ap (count p) same,
    kept,
    ap (λ g. total (in_hand p) g mds.threads_per_disk) at,
    total-put (in_hand p) s.worker w pc mds.threads_per_disk small,
  )

  slist_pop-count :
      (xs : List Task) (t : Task)
      → (slist_pop xs).1 ≡ some t
      → count p (slist_pop xs).0 + bit (p t) ≡ count p xs
  unfolding slist_pop
  slist_pop-count [] t h = cc
  slist_pop-count (x ∷ xs) t h = ground (arith, h)

  pop_task-count :
      (d : Device) (t : Task)
      → (pop_task d).1 ≡ some t
      → in_lists (pop_task d).0 + bit (p t) ≡ in_lists d
  unfolding pop_task
  pop_task-count d t h = omega (arith, slist_pop-count d.sorted_tasks t h)

  begin_pass-IsCounted :
      (s : System) (w : ℕ) {pc : Pc}
      → IsCounted s
      → w < mds.threads_per_disk
      → s.worker w ≡ pc
      → in_hand p pc ≡ 0
      → IsCounted (begin_pass mds sort w s)
  unfolding begin_pass
  begin_pass-IsCounted s w c small at nothing =
      moves s (begin_pass mds sort w s) w (passing 0) c small refl refl
        (omega (arith, merge_tasks-count s.device, ap (in_hand p) at, nothing))

  WorkerStep-IsCounted : {s t : System} → WorkerStep mds sort s t → IsCounted s → IsCounted t
  unfolding enter pop finish check leave free device_ref
  WorkerStep-IsCounted (enters {s} w small at) c = elim (Bool-cases (must_wait s.device)) [
    | inl waits ↦
        rw (waits, enter)
          (moves s (move w waiting s) w waiting c small refl refl
            (omega (arith, ap (in_hand p) at)))
    | inr ready ↦ rw (ready, enter) (begin_pass-IsCounted s w c small at refl)
  ]
  WorkerStep-IsCounted (wakes {s} w small at) c = begin_pass-IsCounted s w c small at refl
  WorkerStep-IsCounted (pops {s} w k small at) c = elim (Bool-cases (ltb k mds.pass_quota)) [
    | inl more ↦ elim (Option-cases (pop_task s.device).1) [
      | inl empty ↦
          rw (more, pop, empty)
            (moves s (move w (checking k) s) w (checking k) c small refl refl
              (omega (arith, ap (in_hand p) at)))
      | inr (t, taken) ↦
          rw (more, pop, taken)
            (moves s (move w (running k t) (record s { device = (pop_task s.device).0 })) w
              (running k t) c small refl refl
              (omega (arith, ap (in_hand p) at, pop_task-count s.device t taken)))
    ]
    | inr over ↦
        rw (over, pop)
          (moves s (move w (checking k) s) w (checking k) c small refl refl
            (omega (arith, ap (in_hand p) at)))
  ]
  WorkerStep-IsCounted (finishes {s} w k t ok small at) c =
      moves s (finish mds sort w k t ok s) w (passing (if ok then k + 1 else k)) c small refl refl
        (omega (arith, ap (in_hand p) at))
  WorkerStep-IsCounted (checks {s} w k small at) c =
      moves s (check mds sort w s) w
        (if gt0 (device_ref s.device (pos 0)).1 then queued else leaving) c small refl refl
        (ground (arith, ap (in_hand p) at))
  WorkerStep-IsCounted (leaves {s} w small at) c =
      moves s (leave mds sort w s) w (if s.device.threads == 1 then freeing else done) c small refl
        refl (ground (arith, ap (in_hand p) at))
  WorkerStep-IsCounted (frees {s} w small at) c =
      moves s (free mds sort w s) w done c small refl refl (omega (arith, ap (in_hand p) at))

  ClientStep-IsCounted :
      {s t : System} → ClientStep mds sort s t → IsFresh mds s → IsCounted s → IsCounted t
  unfolding push push_task_impl take_ref drop_ref device_start device_ref
  ClientStep-IsCounted (pushes t room) fresh c = omega (arith, c)
  ClientStep-IsCounted (takes early) fresh c = c
  ClientStep-IsCounted (drops room) fresh c = c
  ClientStep-IsCounted (starts {s} unstarted) fresh c = omega (
    arith,
    c,
    total_constant (in_hand p) s.worker absent mds.threads_per_disk (fresh unstarted),
    total_constant (in_hand p) (λ w. queued) queued mds.threads_per_disk (λ w small. refl),
  )

  Reach-IsCounted : {disk : ℕ} {s : System} → Reach mds sort disk s → IsCounted s
  unfolding system_new device_new
  Reach-IsCounted begun = omega (
    arith,
    total_constant (in_hand p) (λ w. absent) absent mds.threads_per_disk (λ w small. refl),
  )
  Reach-IsCounted (works r step) = WorkerStep-IsCounted step (Reach-IsCounted r)
  Reach-IsCounted (clients r step) =
      ClientStep-IsCounted step (Reach-IsFresh mds sort r) (Reach-IsCounted r)

-- In every state that a device and its workers can reach, each task that was pushed was executed, or
-- waits in one of the two lists, or is in the hand of a worker, and it is so as often as it was
-- pushed: for every test p, the tasks that pass it are as many.
-- This is for a sort that orders its argument and keeps its elements.
pub Reach-executes :
    (mds : Mds) (sort : (Task → Task → ℤ) → List Task → List Task) {disk : ℕ} {s : System}
    → IsSort sort
    → Reach mds sort disk s
    → (p : Task → Bool)
    → count p s.pushed
      ≡ count p s.executed
        + count p s.device.sorted_tasks
        + count p s.device.unsorted_tasks
        + total (in_hand p) s.worker mds.threads_per_disk
Reach-executes mds sort {disk} {s} is_sort r p = omega (arith, Reach-IsCounted mds sort is_sort p r)
