-- ===== src/MdScheduler/Leaving.antt =====
-- Each step of a worker of lib/md-scheduler.c leaves the reference count and the number of threads in
-- order.
use rmlint.Common.{
  ℕ, ◌+◌, ◌<◌, ◌≤◌, ◌≡◌, refl, ap, List, [], ◌∷◌, ltb, ◌==◌, length, length-append, is_empty, arith,
  Bool-cases, Option-cases, inl, inr, if◌then◌else◌,
}
use rmlint.Common.Family.{total-put, total_at}
use rmlint.Common.Perms.{length-perm}
use rmlint.Common.Sign.{ℤ, pos, gt0}
use rmlint.Glib.{IsSort}
use rmlint.Utilities.Queues.{slist_pop}
use rmlint.MdScheduler.Device.{Task, Mds, Device, merge_tasks, pop_task, device_ref}
use rmlint.MdScheduler.Workers.{
  Pc, System, queued, waiting, leaving, freeing, done, passing, checking, running, move, must_wait,
  begin_pass, enter, pop, finish, check, leave, free, WorkerStep, enters, wakes, pops, finishes,
  checks, leaves, frees,
}
use rmlint.MdScheduler.Orderly.{live, gone, frees_now, sum, IsOrderly, moves}

module _ (mds : Mds) (sort : (Task → Task → ℤ) → List Task → List Task) where
  lists : Device → ℕ
  lists d = length d.sorted_tasks + length d.unsorted_tasks

  merge_tasks-lists : IsSort sort → (d : Device) → lists (merge_tasks mds sort d) ≡ lists d
  unfolding lists merge_tasks
  merge_tasks-lists is_sort d = elim (Bool-cases (is_empty d.unsorted_tasks)) [
    | inl nothing ↦ rw nothing refl
    | inr some_tasks ↦ rw some_tasks (elim (Option-cases mds.prioritiser) [
      | inl unordered ↦ rw unordered (omega (arith, length-append d.unsorted_tasks d.sorted_tasks))
      | inr (c, ordered) ↦ rw ordered (
          omega (
            arith,
            length-append (sort (λ a b. c a b) d.unsorted_tasks) d.sorted_tasks,
            length-perm (is_sort.perm (λ a b. c a b) d.unsorted_tasks),
          ))
    ])
  ]

  pub merge_tasks-counters :
      (d : Device)
      → ((merge_tasks mds sort d).ref_count ≡ d.ref_count)
        × ((merge_tasks mds sort d).threads ≡ d.threads)
  unfolding merge_tasks
  merge_tasks-counters d = elim (Bool-cases (is_empty d.unsorted_tasks)) [
    | inl nothing ↦ rw nothing (refl, refl)
    | inr some_tasks ↦ rw some_tasks (refl, refl)
  ]

  slist_pop-length : (xs : List Task) → length (slist_pop xs).0 ≤ length xs
  unfolding slist_pop
  slist_pop-length [] = omega arith
  slist_pop-length (x ∷ xs) = omega arith

  begin_pass-IsOrderly :
      (s : System) (w : ℕ) (old : Pc)
      → IsSort sort
      → IsOrderly mds s
      → w < mds.threads_per_disk
      → s.worker w ≡ old
      → live old ≡ 1
      → frees_now old ≡ 0
      → gone old ≡ 0
      → IsOrderly mds (begin_pass mds sort w s)
  unfolding begin_pass lists
  begin_pass-IsOrderly s w old is_sort o small at lives freed stays =
      let same = merge_tasks-counters s.device in
      moves mds s (begin_pass mds sort w s) w old (passing 0) o small at refl refl same.1 same.0
        (omega (arith, merge_tasks-lists is_sort s.device)) lives freed (omega arith)
        (λ more. absurd (omega (arith, more, stays)))

  pop-IsOrderly :
      (s : System) (w k : ℕ)
      → IsOrderly mds s
      → w < mds.threads_per_disk
      → s.worker w ≡ passing k
      → IsOrderly mds (pop mds sort w k s)
  unfolding pop pop_task
  pop-IsOrderly s w k o small at =
      let waits =
        moves mds s (move w (checking k) s) w (passing k) (checking k) o small at refl refl refl
          refl (omega arith) refl refl (omega arith) (λ more. absurd (omega (arith, more))) in
      elim (Bool-cases (ltb k mds.pass_quota)) [
        | inl more ↦ elim (Option-cases (slist_pop s.device.sorted_tasks).1) [
          | inl empty ↦ rw (more, pop, empty) waits
          | inr (t, taken) ↦
              rw (more, pop, taken)
                (moves mds s (move w (running k t) (record s { device = (pop_task s.device).0 })) w
                  (passing k) (running k t) o small at refl refl refl refl
                  (omega (arith, slist_pop-length s.device.sorted_tasks)) refl refl (omega arith)
                  (λ more. absurd (omega (arith, more))))
        ]
        | inr over ↦ rw (over, pop) waits
      ]

  pub device_ref-zero : (d : Device) → (device_ref d (pos 0)).1 ≡ d.ref_count
  unfolding device_ref
  device_ref-zero d = ground arith

  check-IsOrderly :
      (s : System) (w k : ℕ)
      → IsOrderly mds s
      → w < mds.threads_per_disk
      → s.worker w ≡ checking k
      → IsOrderly mds (check mds sort w s)
  unfolding check device_ref
  check-IsOrderly s w k o small at =
      let same = device_ref-zero s.device in
      elim (Bool-cases (gt0 (device_ref s.device (pos 0)).1)) [
        | inl more ↦
            rw (check, more)
              (moves mds s (move w queued (record s { device = (device_ref s.device (pos 0)).0 })) w
                (checking k) queued o small at refl refl refl same (omega arith) refl refl
                (omega arith) (λ less. absurd (omega (arith, less))))
        | inr over ↦
            rw (check, over)
              (moves mds s (move w leaving (record s { device = (device_ref s.device (pos 0)).0 }))
                w (checking k) leaving o small at refl refl refl same (omega arith) refl refl
                (omega arith) (λ less. ground (arith, over, same)))
      ]

  leave-IsOrderly :
      (s : System) (w : ℕ)
      → IsOrderly mds s
      → w < mds.threads_per_disk
      → s.worker w ≡ leaving
      → IsOrderly mds (leave mds sort w s)
  unfolding leave
  leave-IsOrderly s w o small at = elim (Bool-cases (s.device.threads == 1)) [
    | inl final ↦
        let shifted = λ (f : Pc → ℕ). total-put f s.worker w freeing mds.threads_per_disk small in
        rw (leave, final)
          (record {
            covered = o.covered;
            nonneg = o.nonneg;
            counted = omega (arith, o.counted, shifted live, ap live at);
            ended = λ some_gone. o.ended (omega (arith, shifted gone, ap gone at, some_gone));
            once = ground (arith, final, o.last, o.once, shifted frees_now, ap frees_now at);
            last = λ some_closed. ground (arith, final);
            evidence = omega (arith, o.evidence, shifted gone, ap gone at);
          })
    | inr more ↦
        let shifted = λ (f : Pc → ℕ). total-put f s.worker w done mds.threads_per_disk small in
        rw (leave, more)
          (record {
            covered = o.covered;
            nonneg = o.nonneg;
            counted = omega (arith, o.counted, shifted live, ap live at);
            ended = λ some_gone. o.ended (omega (arith, shifted gone, ap gone at, some_gone));
            once = omega (arith, o.once, shifted frees_now, ap frees_now at);
            last = λ some_closed.
                ground (arith, o.last, shifted frees_now, ap frees_now at, some_closed);
            evidence = omega (arith, o.evidence, shifted gone, ap gone at);
          })
  ]

  free-IsOrderly :
      (s : System) (w : ℕ)
      → IsOrderly mds s
      → w < mds.threads_per_disk
      → s.worker w ≡ freeing
      → IsOrderly mds (free mds sort w s)
  unfolding free
  free-IsOrderly s w o small at =
      let shifted = λ (f : Pc → ℕ). total-put f s.worker w done mds.threads_per_disk small in
      let some_gone : 0 < sum mds gone s =
        ground (arith, total_at gone s.worker w mds.threads_per_disk small, ap gone at) in
      let some_freeing : 0 < sum mds frees_now s =
        ground (arith, total_at frees_now s.worker w mds.threads_per_disk small, ap frees_now at) in
      record {
        covered = o.covered;
        nonneg = o.nonneg;
        counted = omega (arith, o.counted, shifted live, ap live at);
        ended = λ more. o.ended some_gone;
        once = omega (arith, o.once, shifted frees_now, ap frees_now at);
        last = λ some_closed. o.last (omega (arith, some_freeing));
        evidence = omega (arith, o.evidence, shifted gone, ap gone at, some_gone);
      }

  pub WorkerStep-IsOrderly :
      {s t : System} → IsSort sort → WorkerStep mds sort s t → IsOrderly mds s → IsOrderly mds t
  unfolding enter finish
  WorkerStep-IsOrderly is_sort (enters {s} w small at) o = elim (Bool-cases (must_wait s.device)) [
    | inl waits ↦
        rw (waits, enter)
          (moves mds s (move w waiting s) w queued waiting o small at refl refl refl refl
            (omega arith) refl refl (omega arith) (λ more. absurd (omega (arith, more))))
    | inr ready ↦
        rw (ready, enter) (begin_pass-IsOrderly s w queued is_sort o small at refl refl refl)
  ]
  WorkerStep-IsOrderly is_sort (wakes {s} w small at) o =
      begin_pass-IsOrderly s w waiting is_sort o small at refl refl refl
  WorkerStep-IsOrderly is_sort (pops {s} w k small at) o = pop-IsOrderly s w k o small at
  WorkerStep-IsOrderly is_sort (finishes {s} w k t ok small at) o =
      let next : Pc = passing (if ok then k + 1 else k) in
      moves mds s (finish mds sort w k t ok s) w (running k t) next o small at refl refl refl refl
        (omega arith) refl refl (omega arith) (λ more. absurd (omega (arith, more)))
  WorkerStep-IsOrderly is_sort (checks {s} w k small at) o = check-IsOrderly s w k o small at
  WorkerStep-IsOrderly is_sort (leaves {s} w small at) o = leave-IsOrderly s w o small at
  WorkerStep-IsOrderly is_sort (frees {s} w small at) o = free-IsOrderly s w o small at
