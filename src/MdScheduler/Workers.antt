-- ===== src/MdScheduler/Workers.antt =====
-- The workers of one device of lib/md-scheduler.c: rm_mds_factory cut where it gives up a lock, the
-- start of the device, and what its clients do to it, as a step relation over every interleaving.
use rmlint.Common.{
  ℕ, ◌+◌, ◌-◌, ◌<◌, ◌≡◌, ◌⊎◌, Bool, true, false, ◌&&◌, List, [], ◌∷◌, none, some, ◌==◌, ltb,
  is_empty, length, if◌then◌else◌,
}
use rmlint.Common.Sign.{ℤ, pos, negsuc, gt0, pos_part}
use rmlint.Common.Family.{put}
use rmlint.MdScheduler.Device.{
  Task, Mds, Device, device_new, push_task_impl, device_ref, merge_tasks, pop_task,
}

-- Where a worker is: `queued` in the thread pool, `waiting` for the signal of a push, in the loop of a
-- `passing` with the tasks processed so far, `running` a task outside every lock, `checking` the
-- reference count, `leaving` before it counts itself off, `freeing` the device.
pub data Pc : Type 0 where
  absent queued waiting leaving freeing done : Pc
  passing checking : ℕ → Pc
  running : ℕ → Task → Pc

-- A device with its workers. `registered` says that it is in mds->disks. The tasks pushed and the
-- tasks whose call of mds->func has returned are noted, the last first.
pub record System : Type 0 where
  pub device : Device
  pub worker : ℕ → Pc
  pub started : Bool
  pub registered : Bool
  pub pushed : List Task
  pub executed : List Task

unfoldable pub system_new : Device → System
system_new d = record {
  device = d;
  worker = λ w. absent;
  started = false;
  registered = true;
  pushed = [];
  executed = [];
}

-- how many tasks wait in the two lists
abbrev pub backlog : System → ℕ
backlog s = length s.device.sorted_tasks + length s.device.unsorted_tasks

abbrev pub references : System → ℕ
references s = pos_part s.device.ref_count

abbrev pub move : ℕ → Pc → System → System
move w pc s = record s { worker = put w pc s.worker }

-- rm_mds_push_task_impl, by a client
unfoldable pub push : Task → System → System
unfolding push_task_impl
push t s = record s { device = push_task_impl s.device t; pushed = t ∷ s.pushed }

-- rm_mds_device_ref(device, 1) and rm_mds_device_ref(device, -1), by a client
unfoldable pub take_ref : System → System
unfolding device_ref
take_ref s = record s { device = (device_ref s.device (pos 1)).0 }

unfoldable pub drop_ref : System → System
unfolding device_ref
drop_ref s = record s { device = (device_ref s.device (negsuc 0)).0 }

-- the test of rm_mds_factory under which it waits
unfoldable pub must_wait : Device → Bool
must_wait d = is_empty d.sorted_tasks && is_empty d.unsorted_tasks && gt0 d.ref_count

module _ (mds : Mds) (sort : (Task → Task → ℤ) → List Task → List Task) where
  -- rm_mds_device_start: each worker is put into the pool
  unfoldable pub device_start : System → System
  device_start s = record s {
    device = record s.device { threads = mds.threads_per_disk };
    worker = λ w. queued;
    started = true;
  }

  -- the lists are merged, and processed = 0
  unfoldable pub begin_pass : ℕ → System → System
  begin_pass w s = move w (passing 0) (record s { device = merge_tasks mds sort s.device })

  -- A worker of the pool runs rm_mds_factory, up to the wait or to the end of the first lock.
  unfoldable pub enter : ℕ → System → System
  unfolding begin_pass must_wait
  enter w s = if must_wait s.device then move w waiting s else begin_pass w s

  -- A task is taken, unless the quota of the pass is used up or there is none.
  unfoldable pub pop : ℕ → ℕ → System → System
  unfolding pop_task
  pop w k s =
      if ltb k mds.pass_quota
      then elim (pop_task s.device).1 [
        | some t ↦ move w (running k t) (record s { device = (pop_task s.device).0 })
        | none ↦ move w (checking k) s
      ]
      else move w (checking k) s

  -- mds->func returns; `ok` says that what it returned is not 0
  unfoldable pub finish : ℕ → ℕ → Task → Bool → System → System
  finish w k t ok s =
      move w (passing (if ok then k + 1 else k)) (record s { executed = t ∷ s.executed })

  -- rm_mds_device_ref(device, 0) > 0: back into the pool, or on to the end
  unfoldable pub check : ℕ → System → System
  unfolding device_ref
  check w s =
      move w (if gt0 (device_ref s.device (pos 0)).1 then queued else leaving)
        (record s { device = (device_ref s.device (pos 0)).0 })

  -- g_atomic_int_dec_and_test(&device->threads)
  unfoldable pub leave : ℕ → System → System
  leave w s =
      move w (if s.device.threads == 1 then freeing else done)
        (record s { device = record s.device { threads = s.device.threads - 1 } })

  -- the device is removed from mds->disks and freed
  unfoldable pub free : ℕ → System → System
  free w s = move w done (record s { registered = false })

  -- One step of a worker. A wait ends by a signal, by its time or for no reason.
  pub data WorkerStep : System → System → Type 0 where
    enters :
        {s : System} (w : ℕ)
        → w < mds.threads_per_disk
        → s.worker w ≡ queued
        → WorkerStep s (enter w s)
    wakes :
        {s : System} (w : ℕ)
        → w < mds.threads_per_disk
        → s.worker w ≡ waiting
        → WorkerStep s (begin_pass w s)
    pops :
        {s : System} (w k : ℕ)
        → w < mds.threads_per_disk
        → s.worker w ≡ passing k
        → WorkerStep s (pop w k s)
    finishes :
        {s : System} (w k : ℕ) (t : Task) (ok : Bool)
        → w < mds.threads_per_disk
        → s.worker w ≡ running k t
        → WorkerStep s (finish w k t ok s)
    checks :
        {s : System} (w k : ℕ)
        → w < mds.threads_per_disk
        → s.worker w ≡ checking k
        → WorkerStep s (check w s)
    leaves :
        {s : System} (w : ℕ)
        → w < mds.threads_per_disk
        → s.worker w ≡ leaving
        → WorkerStep s (leave w s)
    frees :
        {s : System} (w : ℕ)
        → w < mds.threads_per_disk
        → s.worker w ≡ freeing
        → WorkerStep s (free w s)

  -- One step of the clients, by the rules of lib/md-scheduler.h: a reference for each task that waits,
  -- and no first reference after the start.
  pub data ClientStep : System → System → Type 0 where
    pushes : {s : System} (t : Task) → backlog s < references s → ClientStep s (push t s)
    takes : {s : System} → (s.started ≡ false) ⊎ (0 < references s) → ClientStep s (take_ref s)
    drops : {s : System} → backlog s < references s → ClientStep s (drop_ref s)
    starts : {s : System} → s.started ≡ false → ClientStep s (device_start s)

  pub data Reach (disk : ℕ) : System → Type 0 where
    begun : Reach disk (system_new (device_new mds disk))
    works : {s t : System} → Reach disk s → WorkerStep s t → Reach disk t
    clients : {s t : System} → Reach disk s → ClientStep s t → Reach disk t
