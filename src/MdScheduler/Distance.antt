-- ===== src/MdScheduler/Distance.antt =====
-- How far a worker of lib/md-scheduler.c is from its end, once there is nothing left to do.
use rmlint.Common.{
  ℕ, ◌+◌, ◌<◌, ◌≤◌, ◌≡◌, refl, ap, false, List, [], ◌∷◌, none, ltb, ◌==◌, length, arith, Bool-cases,
  inl, inr, if◌then◌else◌,
}
use rmlint.Common.Family.{total-put}
use rmlint.Common.Sign.{ℤ, pos, gt0, pos_part}
use rmlint.Utilities.Queues.{slist_pop}
use rmlint.MdScheduler.Device.{Task, Mds, Device, pop_task, device_ref}
use rmlint.MdScheduler.Orderly.{sum}
use rmlint.MdScheduler.Leaving.{merge_tasks-counters, device_ref-zero}
use rmlint.MdScheduler.Workers.{
  Pc, System, queued, waiting, leaving, freeing, done, absent, passing, checking, running, move,
  must_wait, begin_pass, enter, pop, finish, check, leave, free, WorkerStep, enters, wakes, pops,
  finishes, checks, leaves, frees, backlog, references,
}

-- how many steps a worker takes at most, when there is nothing left to do
abbrev pub distance : Pc → ℕ
distance queued = 5
distance waiting = 5
distance (running k t) = 5
distance (passing k) = 4
distance (checking k) = 3
distance leaving = 2
distance freeing = 1
distance pc = 0

pub distance_bound : (pc : Pc) → distance pc ≤ 5
distance_bound absent = omega arith
distance_bound pc = omega arith

must_wait_unused : (d : Device) → pos_part d.ref_count ≡ 0 → must_wait d ≡ false
unfolding must_wait
must_wait_unused d unused = ground arith

device_ref_unused : (d : Device) → pos_part d.ref_count ≡ 0 → gt0 (device_ref d (pos 0)).1 ≡ false
unfolding device_ref
device_ref_unused d unused = ground arith

slist_pop_empty : (xs : List Task) → length xs ≡ 0 → (slist_pop xs).1 ≡ none
unfolding slist_pop
slist_pop_empty [] empty = refl
slist_pop_empty (x ∷ xs) empty = absurd (omega (arith, empty))

module _ (mds : Mds) (sort : (Task → Task → ℤ) → List Task → List Task) where
  pub WorkerStep-ref_count :
      {s t : System} → WorkerStep mds sort s t → t.device.ref_count ≡ s.device.ref_count
  unfolding enter begin_pass pop pop_task finish check leave free device_ref
  WorkerStep-ref_count (enters {s} w small at) = elim (Bool-cases (must_wait s.device)) [
    | inl waits ↦ rw (waits, enter) refl
    | inr ready ↦ rw (ready, enter) (merge_tasks-counters mds sort s.device).0
  ]
  WorkerStep-ref_count (wakes {s} w small at) = (merge_tasks-counters mds sort s.device).0
  WorkerStep-ref_count (pops {s} w k small at) = ground arith
  WorkerStep-ref_count (finishes w k t ok small at) = refl
  WorkerStep-ref_count (checks {s} w k small at) = device_ref-zero mds sort s.device
  WorkerStep-ref_count (leaves w small at) = refl
  WorkerStep-ref_count (frees w small at) = refl

  moves_on :
      (s : System) (w : ℕ) (old new : Pc)
      → w < mds.threads_per_disk
      → s.worker w ≡ old
      → distance new < distance old
      → sum mds distance (move w new s) < sum mds distance s
  moves_on s w old new small at less =
      omega
        (arith, total-put distance s.worker w new mds.threads_per_disk small, ap distance at, less)

  -- With no reference and no task left each step brings the end nearer.
  pub WorkerStep-distance :
      {s t : System}
      → WorkerStep mds sort s t
      → references s ≡ 0
      → backlog s ≡ 0
      → sum mds distance t < sum mds distance s
  unfolding enter begin_pass pop pop_task finish check leave free
  WorkerStep-distance (enters {s} w small at) unused empty =
      rw (enter, must_wait_unused s.device unused)
        (moves_on s w queued (passing 0) small at (omega arith))
  WorkerStep-distance (wakes {s} w small at) unused empty =
      moves_on s w waiting (passing 0) small at (omega arith)
  WorkerStep-distance (pops {s} w k small at) unused empty =
      let next = moves_on s w (passing k) (checking k) small at (omega arith) in
      elim (Bool-cases (ltb k mds.pass_quota)) [
        | inl more ↦
            rw (more, pop, slist_pop_empty s.device.sorted_tasks (omega (arith, empty))) next
        | inr over ↦ rw (over, pop) next
      ]
  WorkerStep-distance (finishes {s} w k t ok small at) unused empty =
      let next : Pc = passing (if ok then k + 1 else k) in
      moves_on s w (running k t) next small at (omega arith)
  WorkerStep-distance (checks {s} w k small at) unused empty =
      rw (check, device_ref_unused s.device unused)
        (moves_on s w (checking k) leaving small at (omega arith))
  WorkerStep-distance (leaves {s} w small at) unused empty =
      let next : Pc = if s.device.threads == 1 then freeing else done in
      moves_on s w leaving next small at (ground arith)
  WorkerStep-distance (frees {s} w small at) unused empty =
      moves_on s w freeing done small at (omega arith)
