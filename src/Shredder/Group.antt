-- ===== src/Shredder/Group.antt =====
-- The sifting of lib/shredder.c: a group gathers files until they are worth hashing.
pub mod Push
use mathlib.Core.Option
use rmlint.Common.{
  ℕ, ◌+◌, ◌-◌, ◌*◌, Bool, true, false, not, ◌&&◌, ◌||◌, List, [], ◌∷◌, ◌++◌, Option, none, some,
  min, ◌==◌, ltb, leb, if◌then◌else◌, length, is_some, is_none, bit,
}
use rmlint.Common.Sign.{is_zero}
use rmlint.Cfg.{RmCfg, DigestType, unknown}
use rmlint.Glib.{Glib}
use rmlint.File.Types.{RmFile, FileRef, Heap, write_file, QueueRef}
use rmlint.File.Links.{n_files, n_prefd, n_nprefd, n_new}
use rmlint.Preprocess.Compare.{basenames_cmp}
use rmlint.Shredder.Types.{
  GroupStatus, dormant, start_hashing, hashing, finishing, finished, ShredGroup, ShredTag, GroupRef,
}
use rmlint.Shredder.Memory.{check_paranoid_mem_alloc, Grant}
use rmlint.Shredder.ReadSize.{is_paranoid, max_read_factor}

-- NEEDS_PREF, NEEDS_NPREF and NEEDS_NEW
abbrev pub needs_pref : RmCfg → Bool
needs_pref cfg = cfg.must_match_tagged || cfg.keep_all_untagged

abbrev pub needs_npref : RmCfg → Bool
needs_npref cfg = cfg.must_match_untagged || cfg.keep_all_tagged

abbrev pub needs_new : RmCfg → Bool
needs_new cfg = not (is_zero cfg.min_mtime)

-- rm_shred_group_qualifies
unfoldable pub qualifies : RmCfg → ShredGroup → Bool
qualifies cfg group =
    leb 2 group.num_files
    && (ltb 0 group.n_pref || not (needs_pref cfg))
    && (ltb 0 group.n_npref || not (needs_npref cfg))
    && (ltb 0 group.n_new || not (needs_new cfg))
    && (is_none group.unique_basename || not cfg.unmatched_basenames)

abbrev pub is_dormant : GroupStatus → Bool
is_dormant dormant = true
is_dormant _ = false

-- rm_shred_group_update_status
unfoldable pub update_status : RmCfg → ShredGroup → ShredGroup
unfolding qualifies
update_status cfg group =
    if not (is_dormant group.status)
      || not (qualifies cfg group)
      || (group.hash_offset == group.file_size)
    then group
    else if ltb 1 group.n_clusters
    then record group { status = start_hashing }
    else if (group.n_inodes == 1) && ltb 0 group.n_unhashed_clusters && cfg.merge_directories
    then record group { status = start_hashing }
    else group

-- The loop of rm_shred_group_push_file over the file's cluster; the outer `none` is the access
-- through a NULL `unique_basename`.
unfoldable pub match_cluster : Glib → Heap → Option FileRef → List FileRef → Option (Option FileRef)
unfolding basenames_cmp
match_cluster g h u [] = some u
match_cluster g h none (i ∷ l) = none
match_cluster g h (some u) (i ∷ l) =
    let rest = match_cluster g h (some u) l in
    if is_zero (basenames_cmp g (h.file i) (h.file u)) then rest else some none

-- The first file's name, as long as every later file has the same.
abbrev pub common_basename : Glib → Heap → ShredGroup → FileRef → Option FileRef → Option FileRef
common_basename g h group f none = if group.num_files == 0 then some f else none
common_basename g h group f (some u) =
    if group.num_files == 0
    then some f
    else if is_zero (basenames_cmp g (h.file f) (h.file u))
    then some u
    else none

-- The members of the file's cluster.
abbrev pub cluster_members : Heap → Option QueueRef → List FileRef
cluster_members h none = []
cluster_members h (some q) = h.queue q

-- shred_group->unique_basename after a push
unfoldable pub next_basename : Glib → RmCfg → Heap → ShredGroup → FileRef → Option (Option FileRef)
unfolding match_cluster basenames_cmp
next_basename g cfg h group f =
    if cfg.unmatched_basenames
    then match_cluster g h (common_basename g h group f group.unique_basename)
        (cluster_members h (h.file f).cluster)
    else some group.unique_basename

-- RM_FILE_INODE_COUNT
abbrev pub inode_count : Heap → Option QueueRef → ℕ
inode_count h none = 1
inode_count h (some q) = length (h.queue q)

-- "update group counters"
unfoldable pub count_file : Heap → FileRef → ShredGroup → ShredGroup
unfolding n_files n_prefd n_nprefd n_new
count_file h f group = record group {
  num_files = group.num_files + n_files h f;
  n_pref = group.n_pref + n_prefd h f;
  n_npref = group.n_npref + n_nprefd h f;
  n_new = group.n_new + n_new h f;
  n_clusters = group.n_clusters + 1;
  n_unhashed_clusters = group.n_unhashed_clusters + bit (is_none (h.file f).ext_cksum);
  n_inodes = group.n_inodes + inode_count h (h.file f).cluster;
}

-- What the operations of one group change: the group, its parent's memory, the shredder's memory, and
-- the files handed to the scheduler, in order.
pub record Sifter : Type 0 where
  pub group : ShredGroup
  pub parent : Option ShredGroup
  pub tag : ShredTag
  pub scheduled : List FileRef

-- case RM_SHRED_GROUP_START_HASHING of rm_shred_group_push_file: the held files are released.
unfoldable pub release_held : Sifter → Sifter
release_held s = elim s.group.held_files [
  | none ↦ s
  | some held ↦ record s {
    group = record s.group { num_pending = s.group.num_pending + length held; held_files = none };
    scheduled = s.scheduled ++ held;
  }
]

-- The memory for paranoid hashing is asked for, but not in the initial pass.
unfoldable pub ask_memory : List ShredGroup → Bool → Sifter → Sifter
unfolding check_paranoid_mem_alloc
ask_memory ancestors initial s =
    if is_paranoid s.group.digest_type && not initial
    then (let r = check_paranoid_mem_alloc s.group s.parent ancestors s.tag 1 in
        record s { group = r.group; parent = r.parent; tag = r.tag })
    else s

-- case RM_SHRED_GROUP_HASHING: the file goes to the scheduler, or back to a caller that waits.
unfoldable pub hash_file : Bool → FileRef → Sifter → Sifter × Option FileRef
hash_file waiting f s =
    let counted = record s { group = record s.group { num_pending = s.group.num_pending + 1 } } in
    if waiting
    then (counted, some f)
    else (record counted { scheduled = s.scheduled ++ f ∷ [] }, none)

-- g_queue_push_head(shred_group->held_files, file)
abbrev pub hold : FileRef → Option (List FileRef) → Option (List FileRef)
hold f none = none
hold f (some held) = some (f ∷ held)

-- The switch on the status.
unfoldable pub dispatch :
    GroupStatus → List ShredGroup → Bool → Bool → FileRef → Sifter → Sifter × Option FileRef
unfolding release_held ask_memory hash_file
dispatch start_hashing ancestors initial waiting f s =
    hash_file waiting f (ask_memory ancestors initial (release_held s))
dispatch hashing ancestors initial waiting f s = hash_file waiting f s
dispatch dormant ancestors initial waiting f s =
    (record s { group = record s.group { held_files = hold f s.group.held_files } }, none)
dispatch finishing ancestors initial waiting f s =
    (record s { group = record s.group { held_files = hold f s.group.held_files } }, none)
dispatch finished ancestors initial waiting f s = (s, none)

-- The rest of rm_shred_group_push_file, with the name of the group found.
unfoldable pub push_named :
    RmCfg
    → Heap
    → List ShredGroup
    → FileRef
    → Bool
    → Sifter
    → Option FileRef
    → Sifter × Option FileRef
unfolding count_file update_status dispatch
push_named cfg h ancestors f initial s u =
    let counted = update_status cfg (count_file h f (record s.group { unique_basename = u })) in
    dispatch counted.status ancestors initial (h.file f).shredder_waiting f
      (record s { group = counted })

-- rm_shred_group_push_file, but for the file's own fields, which `push_fields` sets. `none` is a crash.
unfoldable pub push_file :
    Glib
    → RmCfg
    → Heap
    → List ShredGroup
    → FileRef
    → Bool
    → Sifter
    → Option (Sifter × Option FileRef)
unfolding next_basename push_named
push_file g cfg h ancestors f initial s =
    Option.map (push_named cfg h ancestors f initial s) (next_basename g cfg h s.group f)

-- `file->shred_group = shred_group`, and the file's digest is given up.
unfoldable pub push_fields : GroupRef → FileRef → Heap → Heap
unfolding write_file
push_fields r f h = write_file f (record (h.file f) { shred_group = some r; digest = none }) h

-- rm_shred_group_new, of a file and the group that it comes from. The file's digest goes to the group.
unfoldable pub group_new : RmFile → Option ShredGroup → ℕ → DigestType → ShredGroup × RmFile
group_new file parent page_size type_of_digest = (
  record {
    held_files = some [];
    children = none;
    parent = file.shred_group;
    num_files = 0;
    n_clusters = 0;
    n_unhashed_clusters = 0;
    n_inodes = 0;
    num_pending = 0;
    in_progress_digests = [];
    n_pref = 0;
    n_npref = 0;
    n_new = 0;
    is_active = false;
    unique_basename = none;
    status = dormant;
    file_size = file.file_size;
    hash_offset = file.hash_offset;
    next_offset = 0;
    offset_factor = elim parent [
      | none ↦ 1
      | some p ↦ min (p.offset_factor * 8) (max_read_factor page_size)
    ];
    mem_allocation = 0;
    digest_type = if is_some file.digest then type_of_digest else unknown;
    digest = file.digest;
  },
  record file { digest = none },
)
