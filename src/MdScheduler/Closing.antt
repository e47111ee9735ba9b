-- ===== src/MdScheduler/Closing.antt =====
-- The freeing of a device of lib/md-scheduler.c, and what stands then.
use rmlint.Common.{
  count, count-le-length, ℕ, ◌+◌, ◌<◌, ◌≤◌, ◌≡◌, refl, ◌∙◌, ap, Bool, false, not, bit, List, arith,
  Bool-cases, inl, inr,
}
use rmlint.Common.Family.{total, total_constant, total_at, total_mono}
use rmlint.Common.Sign.{ℤ, neg_part}
use rmlint.Glib.{IsSort}
use rmlint.MdScheduler.Device.{Task, Mds, device_new, device_ref, push_task_impl}
use rmlint.MdScheduler.Orderly.{live, gone, frees_now, sum, IsOrderly}
use rmlint.MdScheduler.Leaving.{WorkerStep-IsOrderly}
use rmlint.MdScheduler.Counting.{in_hand, Reach-executes}
use rmlint.MdScheduler.Fresh.{IsFresh, Reach-IsFresh}
use rmlint.MdScheduler.Workers.{
  Pc, System, queued, absent, running, push, take_ref, drop_ref, device_start, ClientStep, pushes,
  takes, drops, starts, Reach, begun, works, clients, system_new, backlog, references,
}

module _ (mds : Mds) (sort : (Task → Task → ℤ) → List Task → List Task) where
  -- before the start no worker is anywhere
  nobody :
      (s : System) (f : Pc → ℕ) → IsFresh mds s → s.started ≡ false → f absent ≡ 0 → sum mds f s ≡ 0
  nobody s f fresh unstarted none_there =
      let e = total_constant f s.worker absent mds.threads_per_disk (fresh unstarted) in
      e ∙ rw none_there (omega arith)

  -- A client changes only the lists and the count of references.
  kept :
      (s t : System)
      → IsOrderly mds s
      → t.worker ≡ s.worker
      → t.registered ≡ s.registered
      → t.device.threads ≡ s.device.threads
      → backlog t ≤ references t
      → neg_part t.device.ref_count ≡ 0
      → (0 < sum mds gone s → references t ≡ 0)
      → IsOrderly mds t
  kept s t o same registered threads covered nonneg ended =
      let e = λ (f : Pc → ℕ). ap (λ g. total f g mds.threads_per_disk) same in
      let r = ap (λ (b : Bool). bit (not b)) registered in
      record {
        covered = covered;
        nonneg = nonneg;
        counted = omega (arith, o.counted, threads, e live);
        ended = λ some_gone. ended (omega (arith, e gone, some_gone));
        once = omega (arith, o.once, e frees_now, r);
        last = λ some_closed.
            omega (arith, threads, o.last (omega (arith, some_closed, e frees_now, r)));
        evidence = omega (arith, o.evidence, e gone, r);
      }

  ClientStep-IsOrderly :
      {s t : System} → ClientStep mds sort s t → IsFresh mds s → IsOrderly mds s → IsOrderly mds t
  unfolding push push_task_impl take_ref drop_ref device_start device_ref
  ClientStep-IsOrderly (pushes {s} t room) fresh o =
      kept s (push t s) o refl refl refl (omega (arith, room)) o.nonneg o.ended
  ClientStep-IsOrderly (takes {s} (inl early)) fresh o =
      kept s (take_ref s) o refl refl refl (ground (arith, o.covered, o.nonneg))
        (ground (arith, o.nonneg))
        (λ some_gone. absurd (omega (arith, some_gone, nobody s gone fresh early refl)))
  ClientStep-IsOrderly (takes {s} (inr more)) fresh o =
      kept s (take_ref s) o refl refl refl (ground (arith, o.covered, o.nonneg))
        (ground (arith, o.nonneg)) (λ some_gone. absurd (omega (arith, more, o.ended some_gone)))
  ClientStep-IsOrderly (drops {s} room) fresh o =
      kept s (drop_ref s) o refl refl refl (ground (arith, room, o.nonneg))
        (ground (arith, room, o.nonneg))
        (λ some_gone. absurd (omega (arith, room, o.ended some_gone)))
  ClientStep-IsOrderly (starts {s} unstarted) fresh o =
      let all_at = λ (f : Pc → ℕ).
        total_constant f (λ w. queued) queued mds.threads_per_disk (λ w small. refl) in
      let none_gone = nobody s gone fresh unstarted refl in
      record {
        covered = o.covered;
        nonneg = o.nonneg;
        counted = omega (arith, all_at live);
        ended = λ some_gone. absurd (omega (arith, some_gone, all_at gone));
        once = omega (arith, o.once, all_at frees_now);
        last = λ some_closed.
            absurd (omega (arith, some_closed, all_at frees_now, o.evidence, none_gone));
        evidence = omega (arith, o.evidence, none_gone);
      }

  pub Reach-IsOrderly :
      {disk : ℕ} {s : System} → IsSort sort → Reach mds sort disk s → IsOrderly mds s
  unfolding system_new device_new
  Reach-IsOrderly is_sort begun =
      let all_at = λ (f : Pc → ℕ).
        total_constant f (λ w. absent) absent mds.threads_per_disk (λ w small. refl) in
      record {
        covered = omega arith;
        nonneg = refl;
        counted = omega (arith, all_at live);
        ended = λ some_gone. absurd (omega (arith, some_gone, all_at gone));
        once = omega (arith, all_at frees_now);
        last = λ some_closed. refl;
        evidence = omega arith;
      }
  Reach-IsOrderly is_sort (works r step) =
      WorkerStep-IsOrderly mds sort is_sort step (Reach-IsOrderly is_sort r)
  Reach-IsOrderly is_sort (clients r step) =
      ClientStep-IsOrderly step (Reach-IsFresh mds sort r) (Reach-IsOrderly is_sort r)

in_hand-le-live : (p : Task → Bool) (pc : Pc) → in_hand p pc ≤ live pc
in_hand-le-live p (running k t) = elim (Bool-cases (p t)) [
  | inl e ↦ rw e (omega arith)
  | inr e ↦ rw e (omega arith)
]
in_hand-le-live p pc = omega arith

-- When a device is freed every task that was pushed has been executed, as often as it was pushed; its
-- lists are empty, no reference is held, and no worker is in the pool, in rm_mds_factory or about to
-- free it again.
-- This is for a sort that orders its argument and keeps its elements.
pub Reach-freed :
    (mds : Mds) (sort : (Task → Task → ℤ) → List Task → List Task) {disk : ℕ} {s : System}
    → IsSort sort
    → Reach mds sort disk s
    → s.registered ≡ false
    → ((p : Task → Bool) → count p s.pushed ≡ count p s.executed)
      × (backlog s ≡ 0)
      × (references s ≡ 0)
      × ((w : ℕ) → w < mds.threads_per_disk → live (s.worker w) + frees_now (s.worker w) ≡ 0)
Reach-freed mds sort {disk} {s} is_sort r freed =
    let o : IsOrderly mds s = Reach-IsOrderly mds sort is_sort r in
    let flag : bit (not s.registered) ≡ 1 = rw freed refl in
    let unused : references s ≡ 0 = o.ended (omega (arith, o.evidence, flag)) in
    let empty : backlog s ≡ 0 = omega (arith, o.covered, unused) in
    let quiet : sum mds live s ≡ 0 = omega (arith, o.counted, o.last (omega (arith, flag))) in
    let closing : sum mds frees_now s ≡ 0 = omega (arith, o.once, flag) in
    (
      λ p. omega (
        arith,
        Reach-executes mds sort is_sort r p,
        count-le-length p s.device.sorted_tasks,
        count-le-length p s.device.unsorted_tasks,
        total_mono (in_hand p) live s.worker mds.threads_per_disk (in_hand-le-live p),
        empty,
        quiet,
      ),
      empty,
      unused,
      λ w small. omega (
        arith,
        total_at live s.worker w mds.threads_per_disk small,
        total_at frees_now s.worker w mds.threads_per_disk small,
        quiet,
        closing,
      ),
    )
