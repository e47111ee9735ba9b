-- ===== src/Tests/Scheduling.antt =====
-- One device with one worker: a task is pushed before the start, run, and the device is freed.
use rmlint.Common.{
  ℕ, ◌+◌, ◌*◌, ◌≡◌, ◌<◌, ◌≤◌, ◌⊎◌, inl, refl, Bool, true, false, List, [], ◌∷◌, ◌++◌, some, ◌==◌,
  count, arith,
}
use mathlib.Core.List.{Perm}
use rmlint.Common.Family.{total}
use rmlint.MdScheduler.Device.{
  Task, Mds, Device, device_new, push_task_impl, merge_tasks, elevator_cmp, device_ref, pop_task,
}
use rmlint.MdScheduler.Elevator.{IsSweep, merge_tasks-IsSweep}
use rmlint.MdScheduler.Workers.{
  System, system_new, push, take_ref, drop_ref, device_start, must_wait, begin_pass, enter, pop,
  finish, check, leave, free, WorkerStep, enters, pops, finishes, checks, leaves, frees, pushes,
  takes, drops, starts, Reach, begun, works, clients, backlog, references,
}
use rmlint.MdScheduler.Counting.{in_hand, Reach-executes}
use rmlint.MdScheduler.Orderly.{live, frees_now}
use rmlint.MdScheduler.Closing.{Reach-freed}
use rmlint.MdScheduler.Draining.{WorkerRun, rests, goes, Reach-drains}
use rmlint.Tests.Data.{insertion_sort, insertion_sort-IsSort}

abbrev pub mds : Mds
mds = record {
  max_threads = 1;
  threads_per_disk = 1;
  pass_quota = 1;
  fake_disk = true;
  nonrotational = λ d. false;
  prioritiser = some elevator_cmp;
}

abbrev pub task : Task
task = record { dev = 3; offset = 100; task_data = 1 }

abbrev pushed_one : System
pushed_one = push task (take_ref (system_new (device_new mds 7)))

abbrev began : System
began = enter mds insertion_sort 0 (device_start mds insertion_sort pushed_one)

abbrev taken : System
taken = pop mds insertion_sort 0 0 began

abbrev dropped : System
dropped = drop_ref taken

abbrev ended : System
ended = pop mds insertion_sort 0 1 (finish mds insertion_sort 0 0 task true dropped)

abbrev freed : System
freed = free mds insertion_sort 0 (leave mds insertion_sort 0 (check mds insertion_sort 0 ended))

pushed_one-Reach : Reach mds insertion_sort 7 pushed_one
unfolding push take_ref system_new device_new push_task_impl device_ref
pushed_one-Reach = clients (clients begun (takes (inl refl))) (pushes task (omega arith))

began-Reach : Reach mds insertion_sort 7 began
unfolding push take_ref system_new device_start
began-Reach = works (clients pushed_one-Reach (starts refl)) (enters 0 (omega arith) refl)

taken-Reach : Reach mds insertion_sort 7 taken
unfolding push take_ref system_new device_start enter must_wait begin_pass push_task_impl device_ref
    device_new
taken-Reach = works began-Reach (pops 0 0 (omega arith) refl)

dropped-Reach : Reach mds insertion_sort 7 dropped
unfolding push take_ref system_new device_start enter must_wait begin_pass push_task_impl device_ref
    device_new pop pop_task merge_tasks insertion_sort
dropped-Reach = clients taken-Reach (drops (omega arith))

ended-Reach : Reach mds insertion_sort 7 ended
unfolding push take_ref system_new device_start enter must_wait begin_pass push_task_impl device_ref
    device_new pop pop_task merge_tasks insertion_sort drop_ref finish
ended-Reach =
    works (works dropped-Reach (finishes 0 0 task true (omega arith) refl))
      (pops 0 1 (omega arith) refl)

freed-Reach : Reach mds insertion_sort 7 freed
unfolding push take_ref system_new device_start enter must_wait begin_pass push_task_impl device_ref
    device_new pop pop_task merge_tasks insertion_sort drop_ref finish check leave free
freed-Reach =
    works (works (works ended-Reach (checks 0 1 (omega arith) refl)) (leaves 0 (omega arith) refl))
      (frees 0 (omega arith) refl)

Reach-executes_example :
    count (λ t. t.task_data == 1) taken.pushed
    ≡ count (λ t. t.task_data == 1) taken.executed
      + count (λ t. t.task_data == 1) taken.device.sorted_tasks
      + count (λ t. t.task_data == 1) taken.device.unsorted_tasks
      + total (in_hand (λ t. t.task_data == 1)) taken.worker 1
Reach-executes_example =
    Reach-executes mds insertion_sort insertion_sort-IsSort taken-Reach (λ t. t.task_data == 1)

Reach-freed_example :
    ((p : Task → Bool) → count p freed.pushed ≡ count p freed.executed)
    × (backlog freed ≡ 0)
    × (references freed ≡ 0)
    × ((w : ℕ) → w < 1 → live (freed.worker w) + frees_now (freed.worker w) ≡ 0)
unfolding free
Reach-freed_example = Reach-freed mds insertion_sort insertion_sort-IsSort freed-Reach refl

ending : WorkerRun mds insertion_sort ended 1 (check mds insertion_sort 0 ended)
unfolding push take_ref system_new device_start enter must_wait begin_pass push_task_impl device_ref
    device_new pop pop_task merge_tasks insertion_sort drop_ref finish
ending = goes rests (checks 0 1 (omega arith) refl)

Reach-drains_example :
    (1 ≤ 5 * 1)
    × (((check mds insertion_sort 0 ended).registered ≡ false)
        ⊎ ((u : System) × WorkerStep mds insertion_sort (check mds insertion_sort 0 ended) u))
unfolding push take_ref system_new device_start enter must_wait begin_pass push_task_impl device_ref
    device_new pop pop_task merge_tasks insertion_sort drop_ref finish
Reach-drains_example =
    Reach-drains mds insertion_sort insertion_sort-IsSort (omega arith) ended-Reach refl refl ending

abbrev waiting_device : Device
waiting_device = record (device_new mds 7) { unsorted_tasks = task ∷ record task { dev = 2 } ∷ [] }

merge_tasks-IsSweep_example :
    ((merge_tasks mds insertion_sort waiting_device).unsorted_tasks ≡ [])
    × ((sweep : List Task) × ((merge_tasks mds insertion_sort waiting_device).sorted_tasks
          ≡ sweep ++ waiting_device.sorted_tasks)
        × IsSweep sweep
        × Perm sweep waiting_device.unsorted_tasks)
merge_tasks-IsSweep_example =
    merge_tasks-IsSweep mds insertion_sort waiting_device insertion_sort-IsSort refl
