-- ===== src/MdScheduler/Device.antt =====
-- The structures of lib/md-scheduler.c and what is done to one device under its lock: tasks, the two
-- task lists, the reference count. What the mount table says of a disk and what
-- rm_offset_get_from_path finds are arguments.
use rmlint.Common.{
  ℕ, ◌+◌, ◌-◌, ◌%◌, ◌^◌, Bool, false, not, ◌&&◌, List, [], ◌∷◌, ◌++◌, Option, none, some, ◌==◌,
  is_empty, if◌then◌else◌,
}
use rmlint.Common.Sign.{ℤ, pos, negsuc, gt0, sign_diff, ◌+ℤ◌}
use rmlint.Utilities.Queues.{slist_pop}

pub record Task : Type 0 where
  pub dev : ℕ
  pub offset : ℕ
  pub task_data : ℕ

-- The options of a scheduler; `nonrotational` is what its mount table says.
pub record Mds : Type 0 where
  pub max_threads : ℕ
  pub threads_per_disk : ℕ
  pub pass_quota : ℕ
  pub fake_disk : Bool
  pub nonrotational : ℕ → Bool
  pub prioritiser : Option (Task → Task → ℤ)

pub record Device : Type 0 where
  pub disk : ℕ
  pub sorted_tasks : List Task
  pub unsorted_tasks : List Task
  pub ref_count : ℤ
  pub threads : ℕ
  pub is_rotational : Bool

-- rm_mds_task_new
unfoldable pub task_new : ℕ → ℕ → ℕ → Task
task_new dev offset task_data = record { dev = dev; offset = offset; task_data = task_data }

-- rm_mds_device_new
unfoldable pub device_new : Mds → ℕ → Device
device_new mds disk = record {
  disk = disk;
  sorted_tasks = [];
  unsorted_tasks = [];
  ref_count = pos 0;
  threads = 0;
  is_rotational = if mds.fake_disk then disk % 2 == 0 else not (mds.nonrotational disk);
}

-- G_MAXINT
abbrev g_maxint : ℕ
g_maxint = 2 ^ 31 - 1

-- rm_mds_configure
unfoldable pub configure : Mds → ℤ → ℕ → Option (Task → Task → ℤ) → Mds
configure mds (pos n) threads_per_disk prioritiser = record mds {
  threads_per_disk = threads_per_disk;
  pass_quota = if gt0 (pos n) then n else g_maxint;
  prioritiser = prioritiser;
}
configure mds (negsuc n) threads_per_disk prioritiser = record mds {
  threads_per_disk = threads_per_disk;
  pass_quota = g_maxint;
  prioritiser = prioritiser;
}

-- rm_mds_push_task_impl, without its signal
unfoldable pub push_task_impl : Device → Task → Device
push_task_impl d t = record d { unsorted_tasks = t ∷ d.unsorted_tasks }

-- (guint64)offset of a gint64
abbrev to_unsigned : ℤ → ℕ
to_unsigned (pos n) = n
to_unsigned (negsuc n) = 2 ^ 64 - (n + 1)

-- offset == -1
abbrev is_unknown : ℤ → Bool
is_unknown (pos n) = false
is_unknown (negsuc n) = n == 0

-- rm_mds_push_task; `from_path` is rm_offset_get_from_path(path, 0, NULL)
unfoldable pub push_task : Device → ℕ → ℤ → ℕ → ℕ → Device
unfolding push_task_impl task_new
push_task d dev offset from_path task_data =
    if d.is_rotational && is_unknown offset
    then push_task_impl d (task_new dev from_path task_data)
    else push_task_impl d (task_new dev (to_unsigned offset) task_data)

-- rm_mds_device_ref: the device and the count that is returned
unfoldable pub device_ref : Device → ℤ → Device × ℤ
device_ref d n = let count = d.ref_count +ℤ n in (record d { ref_count = count }, count)

-- rm_mds_compare
abbrev compare_tasks : Task → Task → (Task → Task → ℤ) → ℤ
compare_tasks a b prioritiser = prioritiser a b

-- "sort and merge task lists" of rm_mds_factory
unfoldable pub merge_tasks : Mds → ((Task → Task → ℤ) → List Task → List Task) → Device → Device
merge_tasks mds sort d = if is_empty d.unsorted_tasks then d else record d {
  sorted_tasks = elim mds.prioritiser [
    | some c ↦ sort (λ a b. compare_tasks a b c) d.unsorted_tasks ++ d.sorted_tasks
    | none ↦ d.unsorted_tasks ++ d.sorted_tasks
  ];
  unsorted_tasks = [];
}

-- rm_util_slist_pop(&device->sorted_tasks, &device->lock)
unfoldable pub pop_task : Device → Device × Option Task
unfolding slist_pop
pop_task d = let (rest, t) = slist_pop d.sorted_tasks in (record d { sorted_tasks = rest }, t)

-- rm_mds_elevator_cmp
unfoldable pub elevator_cmp : Task → Task → ℤ
elevator_cmp a b =
    let by_dev = sign_diff a.dev b.dev in by_dev +ℤ by_dev +ℤ sign_diff a.offset b.offset
