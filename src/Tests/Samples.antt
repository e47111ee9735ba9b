-- ===== src/Tests/Samples.antt =====
-- A small run: options, files, a heap, groups.
use rmlint.Common.{ℕ, ◌*◌, Bool, true, false, List, [], ◌∷◌, none, some, ◌==◌, if◌then◌else◌}
use rmlint.Common.Sign.{pos}
use rmlint.Cfg.{Bytes, RmCfg, set_default, paranoid, sha1}
use rmlint.File.Types.{RmFile, FileRef, Heap, dupe_candidate, normal}
use rmlint.Shredder.Types.{ShredGroup, ShredTag, dormant}
use rmlint.Shredder.Group.{Sifter}
use rmlint.Shredder.Original.{Totals}
use rmlint.Preprocess.Cluster.{Tables}

abbrev pub cfg : RmCfg
cfg = set_default sha1

-- A file by its name, inode and preference; 4096 bytes in the directory with the inode 7.
abbrev pub file_named : Bytes → ℕ → Bool → RmFile
file_named name i prefd = record {
  path_id = i;
  folder = i;
  parent = 7;
  basename = name;
  path = b'/' ∷ name;
  mtime = pos 5;
  depth = pos 1;
  link_count = pos 1;
  outer_link_count = pos 0;
  path_depth = 1;
  inode = i;
  dev = 1;
  disk = none;
  is_symlink = false;
  is_prefd = prefd;
  is_original = false;
  is_new = true;
  is_hidden = false;
  free_digest = false;
  fadvise_requested = false;
  shredder_waiting = false;
  is_on_subvol_fs = false;
  cluster = none;
  hardlinks = none;
  path_index = 0;
  file_size = 4096;
  actual_file_size = 4096;
  hash_offset = 0;
  status = normal;
  digest = none;
  ext_cksum = none;
  twin_count = pos 0;
  disk_offset = 0;
  lint_type = dupe_candidate;
  shred_group = none;
  signal = none;
  pattern_bitmask_path = 0;
  pattern_bitmask_basename = 0;
  parent_dir = none;
  n_children = 0;
}

-- Files 1 and 2 are hardlinks of inode 10 under two names, file 3 is another file.
abbrev pub files_of : FileRef → RmFile
files_of i =
    if i == 1
    then file_named (b'a' ∷ []) 10 true
    else if i == 2
    then file_named (b'b' ∷ []) 10 false
    else file_named (b'c' ∷ []) 11 false

abbrev pub heap : Heap
heap = record { file = files_of; queue = λ q. []; fresh = 0 }

abbrev pub three : List FileRef
three = 1 ∷ 2 ∷ 3 ∷ []

abbrev pub zero_totals : Totals
zero_totals = record {
  dup_counter = 0;
  dup_group_counter = 0;
  duplicate_bytes = 0;
  unique_bytes = 0;
  original_bytes = 0;
  total_lint_size = 0;
}

-- A group that waits, with the first file held.
abbrev pub group : ShredGroup
group = record {
  held_files = some (1 ∷ []);
  children = none;
  parent = none;
  num_files = 1;
  n_clusters = 1;
  n_unhashed_clusters = 1;
  n_inodes = 1;
  num_pending = 0;
  in_progress_digests = [];
  n_pref = 1;
  n_npref = 0;
  n_new = 1;
  is_active = false;
  unique_basename = none;
  status = dormant;
  file_size = 4096;
  hash_offset = 0;
  next_offset = 0;
  offset_factor = 1;
  mem_allocation = 0;
  digest_type = paranoid;
  digest = none;
}

abbrev pub tag : ShredTag
tag = record {
  paranoid_mem_alloc = 1024 * 1024;
  active_groups = 0;
  page_size = 4096;
  mem_refusing = false;
  remaining_files = 3;
  remaining_bytes = 3 * 4096;
  after_preprocess = true;
}

abbrev pub sifter : Sifter
sifter = record { group = group; parent = none; tag = tag; scheduled = [] }

abbrev pub tables : Tables
tables = record {
  heap = heap;
  unique_paths = [];
  other_lint = λ t. [];
  destroyed = [];
  total_filtered_files = 3;
}
