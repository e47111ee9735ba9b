-- ===== src/Tests/Replaying.antt =====
-- Files of an earlier run: read, put into groups and written.
use rmlint.Common.{
  ◌==◌, ℕ, ◌≡◌, ◌<◌, ◌⊎◌, inr, refl, Bool, true, false, List, [], ◌∷◌, ◌++◌, some, count, any, keep,
  length, ltb, All, arith, if◌then◌else◌,
}
use rmlint.Common.Sign.{ℤ}
use rmlint.Cfg.{Bytes, RmCfg, RmPath}
use rmlint.File.Types.{RmFile, FileRef, Heap, dupe_candidate, dupe_dir_candidate}
use rmlint.Replay.Checks.{check_path}
use rmlint.Replay.Checks.Longest.{AreShorter, IsChosen, check_path-IsChosen}
use rmlint.Replay.Groups.{Parrot, cage_open, cage_load, merge_identical_groups}
use rmlint.Replay.Groups.Marked.{IsMarked, IsGroup, flatten, is_wanted, is_wanted_part}
use rmlint.Replay.Groups.Loaded.{cage_load-groups}
use rmlint.Replay.Groups.Entries.{IsWhole}
use rmlint.Replay.Groups.Parted.{PartedAt}
use rmlint.Replay.Groups.Separated.{merge_identical_groups-PartedAt}
use rmlint.Replay.Groups.Merged.{merge_identical_groups-IsWhole}
use rmlint.Replay.Write.{Queue, Writing, fix_duplicate_entries}
use rmlint.Replay.Write.Distinct.{AreDistinct, has_path, fix_duplicate_entries-AreDistinct}
use rmlint.Tests.Data.{insertion_sort, insertion_sort-IsSort}
use rmlint.Tests.Samples.{cfg, file_named, heap, three}

abbrev path_named : Bytes → ℕ → RmPath
path_named p i = record {
  path = p;
  idx = i;
  is_prefd = false;
  treat_as_single_vol = false;
  realpath_worked = true;
}

abbrev replay_cfg : RmCfg
replay_cfg = record cfg { paths = path_named (b'/' ∷ []) 0 ∷ path_named (b'/' ∷ b'a' ∷ []) 1 ∷ [] }

abbrev allowed : Bytes → ℤ → Bool
allowed path mode = true

abbrev file_a : RmFile
file_a = file_named (b'a' ∷ []) 10 false

check_path-IsChosen_example :
    let r = check_path replay_cfg true file_a.path file_a in
    ((r.0 ≡ false) × (r.1 ≡ file_a) × AreShorter file_a.path 0 replay_cfg.paths)
    ⊎ ((r.0 ≡ true) × ((n : ℕ) × (0 < n) × IsChosen true file_a.path replay_cfg.paths file_a r.1 n))
check_path-IsChosen_example = check_path-IsChosen replay_cfg true file_a.path file_a

abbrev polly : Parrot
polly = record { disk_ids = 1 ∷ []; is_prefd = false; pack_directories = false; files = three }

cage_load-groups_example :
    let cage = cage_open heap in
    let after = (cage_load allowed replay_cfg (some polly) cage).0 in
    let wanted = keep (is_wanted allowed replay_cfg polly heap) three in
    let parts = keep (is_wanted_part allowed replay_cfg polly heap) three in
    ((new : List (List FileRef)) × (flatten new ≡ wanted)
      × All (IsGroup heap) new
      × (after.groups ≡ (if ltb 1 (length parts) then parts ∷ ([] ++ new) else [] ++ new)))
    × ((f : FileRef) → IsMarked (after.heap.file f) (heap.file f))
unfolding cage_open
cage_load-groups_example = cage_load-groups allowed replay_cfg polly (cage_open heap)

-- Three files with a checksum, in two groups.
abbrev summed : Heap
summed = record heap { file = λ i. record (heap.file i) { digest = some (7 ∷ []) } }

two_groups : All (IsWhole summed) ((1 ∷ 2 ∷ []) ∷ (3 ∷ []) ∷ [])
two_groups = (
  inr ((omega arith, (7 ∷ [], (refl, (refl, tt)))), (refl, (refl, tt))),
  (inr ((omega arith, (7 ∷ [], (refl, tt))), (refl, tt)), tt),
)

merge_identical_groups-IsWhole_example :
    let merged = merge_identical_groups summed ((1 ∷ 2 ∷ []) ∷ (3 ∷ []) ∷ []) in
    ((p : FileRef → Bool) → count p (flatten merged) ≡ count p three) × All (IsWhole summed) merged
merge_identical_groups-IsWhole_example =
    merge_identical_groups-IsWhole summed ((1 ∷ 2 ∷ []) ∷ (3 ∷ []) ∷ []) two_groups

-- Three groups with one checksum, the second one of a directory.
abbrev mixed_types : Heap
mixed_types = record heap {
  file = λ i. record (heap.file i) {
    digest = some (7 ∷ []);
    lint_type = if i == 2 then dupe_dir_candidate else dupe_candidate;
  };
}

merge_identical_groups-PartedAt_example :
    PartedAt mixed_types
      (merge_identical_groups mixed_types ((1 ∷ []) ∷ (2 ∷ []) ∷ (3 ∷ []) ∷ []))
      0
      2
      (1 ∷ [])
unfolding merge_identical_groups
merge_identical_groups-PartedAt_example =
    merge_identical_groups-PartedAt mixed_types ((1 ∷ []) ∷ (2 ∷ []) ∷ (3 ∷ []) ∷ []) 0 2 (1 ∷ [])
      (3 ∷ []) (omega arith, (omega arith, (omega arith, tt))) (omega arith) refl refl refl refl
      refl

-- they are put together
merged_once : merge_identical_groups summed ((1 ∷ 2 ∷ []) ∷ (3 ∷ []) ∷ []) ≡ three ∷ []
unfolding merge_identical_groups
merged_once = refl

abbrev queue : Queue
queue = record { links = 3 ∷ 1 ∷ 4 ∷ 2 ∷ []; length_of = 4 }

fix_duplicate_entries-AreDistinct_example :
    let after = (fix_duplicate_entries insertion_sort heap queue).links in
    AreDistinct heap after
    × ((p : Bytes) → any (has_path heap p) after ≡ any (has_path heap p) queue.links)
fix_duplicate_entries-AreDistinct_example =
    fix_duplicate_entries-AreDistinct insertion_sort heap queue insertion_sort-IsSort

-- files 3 and 4 have one path, and the length that is noted stays
dropped_once :
    fix_duplicate_entries insertion_sort heap queue
    ≡ record { links = 1 ∷ 2 ∷ 3 ∷ []; length_of = 4 }
unfolding fix_duplicate_entries insertion_sort
dropped_once = refl

abbrev writing : Writing
writing = record {
  heap = heap;
  counters = record {
    total_files = 0;
    dup_counter = 0;
    dup_group_counter = 0;
    total_lint_size = 0;
    other_lint_cnt = 0;
  };
  output = [];
}
