-- ===== src/MdScheduler/Draining.antt =====
-- Once no reference is held, the workers of a device of lib/md-scheduler.c end, and the device is freed.
use rmlint.Common.{
  suc, ltb→lt, ◌⊎◌, ℕ, ◌+◌, ◌*◌, ◌<◌, ◌≤◌, ◌≡◌, refl, sym, ◌∙◌, ap, true, false, not, bit, List,
  ltb, ◌==◌, arith, Bool-cases, Option-cases, inl, inr, if◌then◌else◌,
}
use rmlint.Common.Family.{put, total, total-put, total_at, total_mono, total_find, total_each}
use rmlint.Common.Sign.{ℤ, pos, gt0, pos_part}
use rmlint.Glib.{IsSort}
use rmlint.Utilities.Queues.{slist_pop}
use rmlint.MdScheduler.Device.{Task, Mds, pop_task, device_ref}
use rmlint.MdScheduler.Orderly.{live, frees_now, sum, IsOrderly}
use rmlint.MdScheduler.Leaving.{merge_tasks-counters}
use rmlint.MdScheduler.Closing.{Reach-IsOrderly}
use rmlint.MdScheduler.Fresh.{WorkerStep-started}
use rmlint.MdScheduler.Workers.{
  Pc, System, queued, waiting, leaving, freeing, done, absent, passing, checking, running, move,
  push, take_ref, drop_ref, must_wait, device_start, begin_pass, enter, pop, finish, check, leave,
  free, WorkerStep, enters, wakes, pops, finishes, checks, leaves, frees, pushes, takes, drops,
  starts, Reach, begun, works, clients, system_new, references,
}
use rmlint.MdScheduler.Distance.{
  distance, distance_bound, WorkerStep-ref_count, WorkerStep-distance,
}

-- As `Reach`, but by workers only, with the number of steps.
pub data WorkerRun (mds : Mds) (sort : (Task → Task → ℤ) → List Task → List Task) (s : System)
    : ℕ → System → Type 0 where
  rests : WorkerRun mds sort s 0 s
  goes :
      {n : ℕ} {t u : System}
      → WorkerRun mds sort s n t
      → WorkerStep mds sort t u
      → WorkerRun mds sort s (suc n) u

-- how many steps a worker takes at most, when there is nothing left to do

module _ (mds : Mds) (sort : (Task → Task → ℤ) → List Task → List Task) where
  -- Some worker has not counted itself off, or is about to free the device, or it is freed.
  abbrev IsAlive : System → Type 0
  IsAlive s = s.started ≡ true → 0 < s.device.threads + sum mds frees_now s + bit (not s.registered)

  IsAlive-moves :
      (s t : System) (w : ℕ) (old new : Pc)
      → IsAlive s
      → w < mds.threads_per_disk
      → s.worker w ≡ old
      → t.worker ≡ put w new s.worker
      → t.started ≡ s.started
      → s.device.threads + frees_now old + bit (not s.registered)
        ≤ t.device.threads + frees_now new + bit (not t.registered)
      → IsAlive t
  IsAlive-moves s t w old new alive small at to same grows running_now =
      let before = alive (sym same ∙ running_now) in
      omega (
        arith,
        before,
        total-put frees_now s.worker w new mds.threads_per_disk small,
        ap (λ g. total frees_now g mds.threads_per_disk) to,
        ap frees_now at,
        grows,
      )

  WorkerStep-IsAlive :
      {s t : System} → WorkerStep mds sort s t → IsOrderly mds s → IsAlive s → IsAlive t
  unfolding enter begin_pass pop pop_task finish check leave free device_ref
  WorkerStep-IsAlive (enters {s} w small at) o alive = elim (Bool-cases (must_wait s.device)) [
    | inl waits ↦
        rw (waits, enter)
          (IsAlive-moves s (move w waiting s) w queued waiting alive small at refl refl
            (omega arith))
    | inr ready ↦
        rw (ready, enter)
          (IsAlive-moves s (begin_pass mds sort w s) w queued (passing 0) alive small at refl refl
            (omega (arith, (merge_tasks-counters mds sort s.device).1)))
  ]
  WorkerStep-IsAlive (wakes {s} w small at) o alive =
      IsAlive-moves s (begin_pass mds sort w s) w waiting (passing 0) alive small at refl refl
        (omega (arith, (merge_tasks-counters mds sort s.device).1))
  WorkerStep-IsAlive (pops {s} w k small at) o alive =
      let waits =
        IsAlive-moves s (move w (checking k) s) w (passing k) (checking k) alive small at refl refl
          (omega arith) in
      elim (Bool-cases (ltb k mds.pass_quota)) [
        | inl more ↦ elim (Option-cases (slist_pop s.device.sorted_tasks).1) [
          | inl empty ↦ rw (more, pop, empty) waits
          | inr (t, taken) ↦
              rw (more, pop, taken)
                (IsAlive-moves s
                  (move w (running k t) (record s { device = (pop_task s.device).0 })) w (passing k)
                  (running k t) alive small at refl refl (omega arith))
        ]
        | inr over ↦ rw (over, pop) waits
      ]
  WorkerStep-IsAlive (finishes {s} w k t ok small at) o alive =
      let next : Pc = passing (if ok then k + 1 else k) in
      IsAlive-moves s (finish mds sort w k t ok s) w (running k t) next alive small at refl refl
        (omega arith)
  WorkerStep-IsAlive (checks {s} w k small at) o alive =
      let next : Pc = if gt0 (device_ref s.device (pos 0)).1 then queued else leaving in
      IsAlive-moves s (check mds sort w s) w (checking k) next alive small at refl refl
        (ground arith)
  WorkerStep-IsAlive (leaves {s} w small at) o alive = λ running_now.
      let next : Pc = if s.device.threads == 1 then freeing else done in
      let counted : 0 < s.device.threads =
        omega (arith, o.counted, total_at live s.worker w mds.threads_per_disk small, ap live at) in
      ground (
        arith,
        counted,
        total-put frees_now s.worker w next mds.threads_per_disk small,
        ap frees_now at,
      )
  WorkerStep-IsAlive (frees {s} w small at) o alive = λ running_now. omega arith

  Reach-IsAlive :
      {disk : ℕ} {s : System}
      → IsSort sort
      → 0 < mds.threads_per_disk
      → Reach mds sort disk s
      → IsAlive s
  unfolding system_new push take_ref drop_ref device_start
  Reach-IsAlive is_sort workers begun = λ running_now. cc
  Reach-IsAlive is_sort workers (works r step) =
      WorkerStep-IsAlive step (Reach-IsOrderly mds sort is_sort r) (Reach-IsAlive is_sort workers r)
  Reach-IsAlive is_sort workers (clients r (pushes t room)) = Reach-IsAlive is_sort workers r
  Reach-IsAlive is_sort workers (clients r (takes early)) = Reach-IsAlive is_sort workers r
  Reach-IsAlive is_sort workers (clients r (drops room)) = Reach-IsAlive is_sort workers r
  Reach-IsAlive is_sort workers (clients r (starts unstarted)) =
      λ running_now. omega (arith, workers)

  -- A worker that has not left can go on.
  step_of :
      (s : System) (w : ℕ) (pc : Pc)
      → w < mds.threads_per_disk
      → s.worker w ≡ pc
      → 0 < live pc + frees_now pc
      → (t : System) × WorkerStep mds sort s t
  step_of s w queued small at there = (enter mds sort w s, enters w small at)
  step_of s w waiting small at there = (begin_pass mds sort w s, wakes w small at)
  step_of s w (passing k) small at there = (pop mds sort w k s, pops w k small at)
  step_of s w (running k t) small at there =
      (finish mds sort w k t true s, finishes w k t true small at)
  step_of s w (checking k) small at there = (check mds sort w s, checks w k small at)
  step_of s w leaving small at there = (leave mds sort w s, leaves w small at)
  step_of s w freeing small at there = (free mds sort w s, frees w small at)
  step_of s w absent small at there = absurd (omega arith)
  step_of s w done small at there = absurd (omega arith)

  goes_on :
      (s : System)
      → IsOrderly mds s
      → IsAlive s
      → s.started ≡ true
      → s.registered ≡ true
      → (t : System) × WorkerStep mds sort s t
  goes_on s o alive running_now there =
      let n = mds.threads_per_disk in
      elim (Bool-cases (ltb 0 (sum mds live s))) [
        | inl some_live ↦
            let found = total_find live s.worker n (ltb→lt 0 (sum mds live s) some_live) in
            step_of s found.0 (s.worker found.0) found.1 refl (omega (arith, found.2))
        | inr no_live ↦
            let found =
              total_find frees_now s.worker n
                (ground (arith, no_live, alive running_now, o.counted, there)) in
            step_of s found.0 (s.worker found.0) found.1 refl (omega (arith, found.2))
      ]

  run-Reach :
      {disk : ℕ} {s t : System} {n : ℕ}
      → WorkerRun mds sort s n t
      → Reach mds sort disk s
      → Reach mds sort disk t
  run-Reach rests r = r
  run-Reach (goes run step) r = works (run-Reach run r) step

  run_started : {s t : System} {n : ℕ} → WorkerRun mds sort s n t → t.started ≡ s.started
  run_started rests = refl
  run_started (goes run step) = WorkerStep-started mds sort step ∙ run_started run

  run_ref_count :
      {s t : System} {n : ℕ} → WorkerRun mds sort s n t → t.device.ref_count ≡ s.device.ref_count
  run_ref_count rests = refl
  run_ref_count (goes run step) = WorkerStep-ref_count mds sort step ∙ run_ref_count run

  run_bound :
      {disk : ℕ} {s t : System} {n : ℕ}
      → IsSort sort
      → Reach mds sort disk s
      → references s ≡ 0
      → WorkerRun mds sort s n t
      → n + sum mds distance t ≤ sum mds distance s
  run_bound is_sort r unused rests = omega arith
  run_bound is_sort r unused (goes {n} {t} {u} run step) =
      let o : IsOrderly mds t = Reach-IsOrderly mds sort is_sort (run-Reach run r) in
      let still : references t ≡ 0 = ap pos_part (run_ref_count run) ∙ unused in
      omega (
        arith,
        run_bound is_sort r unused run,
        WorkerStep-distance mds sort step still (omega (arith, o.covered, still)),
      )

-- Once the device is started and no reference is held, the workers stop: however they are scheduled,
-- they take at most 5 steps in all for each thread of the device, and as long as the device is not freed
-- one of them can take another.
-- This is for at least one worker, and a sort that orders its argument and keeps its elements.
pub Reach-drains :
    (mds : Mds) (sort : (Task → Task → ℤ) → List Task → List Task) {disk n : ℕ} {s t : System}
    → IsSort sort
    → 0 < mds.threads_per_disk
    → Reach mds sort disk s
    → s.started ≡ true
    → references s ≡ 0
    → WorkerRun mds sort s n t
    → (n ≤ 5 * mds.threads_per_disk)
      × ((t.registered ≡ false) ⊎ ((u : System) × WorkerStep mds sort t u))
Reach-drains mds sort {disk} {n} {s} {t} is_sort workers r running_now unused run =
    let later = run-Reach mds sort run r in
    (
      omega (
        arith,
        run_bound mds sort is_sort r unused run,
        total_mono distance (λ pc. 5) s.worker mds.threads_per_disk distance_bound,
        total_each 5 s.worker mds.threads_per_disk,
      ),
      elim (Bool-cases t.registered) [
        | inl there ↦ inr (
            goes_on mds sort t (Reach-IsOrderly mds sort is_sort later)
              (Reach-IsAlive mds sort is_sort workers later)
              (run_started mds sort run ∙ running_now) there)
        | inr freed ↦ inl freed
      ],
    )
