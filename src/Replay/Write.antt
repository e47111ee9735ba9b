-- ===== src/Replay/Write.antt =====
-- What lib/replay.c does to a group of files before it writes it: files without a twin, groups without
-- a tagged file, paths that stand there twice; then the order, the originals and the counters. The
-- formatters and the directory merger are shown by the list of the files that they get.
pub mod Distinct
pub mod Originals
use rmlint.Common.{
  ℕ, ◌+◌, Bool, true, false, not, ◌&&◌, ◌||◌, List, [], ◌∷◌, ◌++◌, Option, none, some, ◌==◌, ltb,
  length, any, count, bit, if◌then◌else◌,
}
use rmlint.Common.Sign.{ℤ, pos, negsuc, ltb_ℤ, is_zero}
use rmlint.Cfg.{Bytes, RmCfg}
use rmlint.Glib.{Glib, Pattern}
use rmlint.File.Types.{
  RmFile, FileRef, Heap, write_file, LintType, dupe_candidate, dupe_dir_candidate,
  part_of_directory,
}
use rmlint.Preprocess.Cluster.{bytes_equal}
use rmlint.Preprocess.Compare.{file_cmp}
use rmlint.Shredder.Original.{shred_cmp_orig_criteria, add64}
use rmlint.Replay.Checks.{is_dupe}
use rmlint.Replay.Groups.{is_part, Cage, merge_identical_groups}
use rmlint.Utilities.Queues.{queue_foreach_remove}

-- strcmp of the C library
abbrev pub strcmp : Bytes → Bytes → ℤ
strcmp [] [] = pos 0
strcmp [] (b ∷ t) = negsuc 0
strcmp (a ∷ s) [] = pos 1
strcmp (a ∷ s) (b ∷ t) = if ltb b a then pos 1 else if ltb a b then negsuc 0 else strcmp s t

-- A GQueue of files: its links, and the length that is noted in it.
pub record Queue : Type 0 where
  pub links : List FileRef
  pub length_of : ℕ

-- The counters of the session: uint64 values, but for `total_files`, an int whose overflow C leaves
-- undefined.
pub record Counters : Type 0 where
  pub total_files : ℕ
  pub dup_counter : ℕ
  pub dup_group_counter : ℕ
  pub total_lint_size : ℕ
  pub other_lint_cnt : ℕ

-- rm_tm_feed(file), rm_fmt_write(file)
pub data Output : Type 0 where
  feed write : FileRef → Output

pub record Writing : Type 0 where
  pub heap : Heap
  pub counters : Counters
  pub output : List Output

-- rm_parrot_fix_match_opts, negated by its caller's use: 1 removes the file
unfoldable pub fix_match_opts : Glib → RmCfg → Heap → FileRef → List FileRef → Bool
unfolding file_cmp
fix_match_opts g cfg h f group =
    not (any (λ o. not (f == o) && is_zero (file_cmp g cfg (h.file f) (h.file o))) group)

-- rm_parrot_sort_by_path
abbrev pub sort_by_path : Heap → FileRef → FileRef → ℤ
sort_by_path h a b = strcmp (h.file a).path (h.file b).path

-- last_path && g_strcmp0(file_path, last_path) == 0
abbrev pub is_last_path : Option Bytes → Bytes → Bool
is_last_path none path = false
is_last_path (some last) path = bytes_equal path last

-- The loop of rm_parrot_fix_duplicate_entries. That a file which is taken out is freed, and taken out
-- of its queue of hardlinks (rm_file_destroy), is not a part of the model.
unfoldable pub drop_same_path : Heap → Option Bytes → List FileRef → List FileRef
drop_same_path h last [] = []
drop_same_path h last (f ∷ files) =
    let file = h.file f in
    let next = drop_same_path h (if is_part file.lint_type then last else some file.path) files in
    if not (is_part file.lint_type) && is_last_path last file.path then next else f ∷ next

-- rm_parrot_fix_duplicate_entries. The source takes the links off `cage->groups`: the length that is
-- noted in the group stays.
unfoldable pub fix_duplicate_entries :
    ((FileRef → FileRef → ℤ) → List FileRef → List FileRef) → Heap → Queue → Queue
unfolding drop_same_path
fix_duplicate_entries sort h group = record group {
  links = drop_same_path h none (sort (sort_by_path h) group.links);
}

-- The loop of rm_parrot_fix_must_match_tagged: has_prefd and has_non_prefd, `none` after its return.
unfoldable pub scan_tags : Heap → List FileRef → Bool → Bool → Option (Bool × Bool)
scan_tags h [] has_prefd has_non_prefd = some (has_prefd, has_non_prefd)
scan_tags h (f ∷ files) has_prefd has_non_prefd =
    let file = h.file f in
    let prefd = has_prefd || file.is_prefd in
    let non_prefd = has_non_prefd || not file.is_prefd in
    let rest = scan_tags h files prefd non_prefd in
    if not (is_dupe file.lint_type)
    then none
    else if prefd && non_prefd
    then some (prefd, non_prefd)
    else rest

-- rm_parrot_fix_must_match_tagged
unfoldable pub fix_must_match_tagged : RmCfg → Heap → Queue → Queue
unfolding scan_tags
fix_must_match_tagged cfg h group =
    if not (cfg.must_match_tagged || cfg.must_match_untagged)
    then group
    else elim (scan_tags h group.links false false) [
      | none ↦ group
      | some (has_prefd, has_non_prefd) ↦
          if (not has_prefd && cfg.must_match_tagged)
            || (not has_non_prefd && cfg.must_match_untagged)
          then record { links = []; length_of = 0 }
          else group
    ]

-- RM_FILE_IS_HARDLINK
abbrev is_head : FileRef → List FileRef → Bool
is_head f [] = false
is_head f (head ∷ queue) = f == head

unfoldable pub file_is_hardlink : Heap → FileRef → Bool
file_is_hardlink h f = elim (h.file f).hardlinks [
  | none ↦ false
  | some q ↦ not (is_head f (h.queue q))
]

abbrev is_dupe_dir : LintType → Bool
is_dupe_dir dupe_dir_candidate = true
is_dupe_dir type = false

-- rm_parrot_update_stats
unfoldable pub update_stats : Heap → FileRef → Counters → Counters
unfolding file_is_hardlink
update_stats h f c =
    let file = h.file f in
    let children = if is_dupe_dir file.lint_type then file.n_children else 0 in
    let total = c.total_files + 1 + children in
    if is_part file.lint_type
    then c
    else if not (is_dupe file.lint_type)
    then record c { total_files = total; other_lint_cnt = add64 c.other_lint_cnt 1 }
    else if file.is_original
    then record c { total_files = total; dup_group_counter = add64 c.dup_group_counter 1 }
    else record c {
      total_files = total;
      dup_counter = add64 c.dup_counter (1 + children);
      total_lint_size =
          if file_is_hardlink h f
          then c.total_lint_size
          else add64 c.total_lint_size file.actual_file_size;
    }

-- Whether the last loop of rm_parrot_cage_write_group makes a file an original; `head` is the first.
unfoldable pub is_chosen : RmCfg → FileRef → FileRef → RmFile → Bool
is_chosen cfg head f file =
    is_dupe file.lint_type
    && ((f == head)
        || (cfg.keep_all_tagged && file.is_prefd)
        || (cfg.keep_all_untagged && not file.is_prefd))

abbrev is_dupe_file : LintType → Bool
is_dupe_file dupe_candidate = true
is_dupe_file type = false

-- One round of that loop.
unfoldable pub write_one : RmCfg → Bool → ℕ → FileRef → FileRef → Writing → Writing
unfolding is_chosen update_stats write_file
write_one cfg pack_directories length_of head f w =
    let file = w.heap.file f in
    let tagged = write_file f (record file { is_original = is_chosen cfg head f file }) w.heap in
    record {
      heap = write_file f (record (tagged.file f) { twin_count = pos length_of }) tagged;
      counters = update_stats tagged f w.counters;
      output =
          w.output
          ++ ((if pack_directories && is_dupe_file file.lint_type then feed f else write f) ∷ []);
    }

unfoldable pub write_all : RmCfg → Bool → ℕ → FileRef → List FileRef → Writing → Writing
unfolding write_one
write_all cfg pack_directories length_of head [] w = w
write_all cfg pack_directories length_of head (f ∷ files) w =
    write_all cfg pack_directories length_of head files
      (write_one cfg pack_directories length_of head f w)

-- What the mtime filter drops: groups of which every file is as new as min_mtime or newer.
unfoldable pub is_dropped : RmCfg → Heap → Queue → Bool
is_dropped cfg h group =
    cfg.filter_mtime
    && (count (λ f. not (ltb_ℤ (h.file f).mtime cfg.min_mtime)) group.links == group.length_of)

module _ (g : Glib) (cfg : RmCfg) (patterns : List Pattern)
    (sort : (FileRef → FileRef → ℤ) → List FileRef → List FileRef) where
  -- rm_util_queue_foreach_remove(group, rm_parrot_fix_match_opts, group)
  unfoldable pub remove_unmatched : Heap → Queue → Queue
  unfolding fix_match_opts queue_foreach_remove
  remove_unmatched h group =
      let kept = (queue_foreach_remove (fix_match_opts g cfg h) [] group.links).0 in
      record { links = kept; length_of = length kept }

  -- The queue of rm_parrot_cage_write_group when its last loop begins.
  unfoldable pub fix_group : Heap → Queue → Queue
  unfolding remove_unmatched fix_must_match_tagged fix_duplicate_entries shred_cmp_orig_criteria
  fix_group h group =
      let matched =
        if cfg.match_with_extension || cfg.match_without_extension || cfg.match_basename
          || cfg.unmatched_basenames
        then remove_unmatched h group
        else group in
      let fixed = fix_duplicate_entries sort h (fix_must_match_tagged cfg h matched) in
      record fixed {
        links =
            sort (λ a b. shred_cmp_orig_criteria g cfg patterns (h.file a) (h.file b)) fixed.links;
      }

  -- rm_parrot_cage_write_group
  unfoldable pub cage_write_group : Bool → Queue → Writing → Writing
  unfolding is_dropped fix_group write_all
  cage_write_group pack_directories group w =
      if is_dropped cfg w.heap group
      then w
      else let fixed = fix_group w.heap group in
        elim fixed.links [
          | [] ↦ w
          | head ∷ files ↦ write_all cfg pack_directories fixed.length_of head (head ∷ files) w
        ]

  -- The loop of rm_parrot_cage_flush over the groups.
  unfoldable pub write_groups : Bool → List (List FileRef) → Writing → Writing
  unfolding cage_write_group
  write_groups pack_directories [] w = w
  write_groups pack_directories (group ∷ groups) w = write_groups pack_directories groups (
      if ltb 1 (length group)
      then cage_write_group pack_directories (record { links = group; length_of = length group }) w
      else w)

  -- rm_parrot_cage_flush, up to rm_tm_finish
  unfoldable pub cage_flush : Cage → Counters → Writing
  unfolding merge_identical_groups write_groups
  cage_flush cage counters =
      write_groups (any (λ polly. polly.pack_directories) cage.parrots)
        (merge_identical_groups cage.heap cage.groups)
        (record { heap = cage.heap; counters = counters; output = [] })
