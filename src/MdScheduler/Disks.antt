-- ===== src/MdScheduler/Disks.antt =====
-- The table of devices of a scheduler of lib/md-scheduler.c: devices looked up, made and started. What
-- the mount table says of a path is an argument.
use rmlint.Common.{
  ℕ, ◌*◌, Bool, true, false, List, [], ◌∷◌, Option, none, some, ◌==◌, ltb, length, map,
  if◌then◌else◌, is_empty,
}
use rmlint.MdScheduler.Device.{Mds, Device, device_new}

-- `pool` is the size of the thread pool, once there is one.
pub record Session : Type 0 where
  pub mds : Mds
  pub disks : List Device
  pub running : Bool
  pub pool : Option ℕ

-- rm_mds_new
unfoldable pub mds_new : Mds → Session
mds_new mds = record { mds = mds; disks = []; running = false; pool = none }

-- g_hash_table_lookup(mds->disks, disk)
abbrev pub lookup_disk : ℕ → List Device → Option Device
lookup_disk disk [] = none
lookup_disk disk (d ∷ ds) = if d.disk == disk then some d else lookup_disk disk ds

-- rm_mds_device_start, as far as the table of disks sees it: that the workers go into the pool, run, and
-- may take the device out of the table is in MdScheduler.Workers.
unfoldable pub start_threads : Mds → Device → Device
start_threads mds d = record d { threads = mds.threads_per_disk }

-- CLAMP(x, low, high)
abbrev clamp : ℕ → ℕ → ℕ → ℕ
clamp x low high = if ltb high x then high else if ltb x low then low else x

-- rm_mds_start
unfoldable pub mds_start : Session → Session
unfolding start_threads
mds_start s = record s {
  pool = some (clamp (s.mds.threads_per_disk * length s.disks) 1 s.mds.max_threads);
  running = true;
  disks = map (start_threads s.mds) s.disks;
}

-- a device for a new disk, started if the scheduler runs
new_device : Session → ℕ → Device
unfolding start_threads device_new
new_device s disk =
    if s.running then start_threads s.mds (device_new s.mds disk) else device_new s.mds disk

-- rm_mds_device_get_by_disk
unfoldable pub device_get_by_disk : Session → ℕ → Session × Device
unfolding new_device
device_get_by_disk s disk = elim (lookup_disk disk s.disks) [
  | some d ↦ (s, d)
  | none ↦ let d = new_device s disk in (record s { disks = d ∷ s.disks }, d)
]

-- rm_mds_device_get: `id_of_path` is rm_mounts_get_disk_id_by_path(path), and `id_of_dev` is
-- rm_mounts_get_disk_id(dev, path).
unfoldable pub device_get : Session → ℕ → (ℕ → ℕ) → ℕ → Session × Device
unfolding device_get_by_disk
device_get s id_of_path id_of_dev dev =
    let dev' = if dev == 0 then id_of_path else dev in
    device_get_by_disk s (if s.mds.fake_disk then dev' else id_of_dev dev')

-- rm_mds_finish waits while this is false
unfoldable pub is_finished : Session → Bool
is_finished s = is_empty s.disks
