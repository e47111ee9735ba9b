-- ===== src/Preprocess/Cluster.antt =====
-- The inode clusters of lib/preprocess.c: removal of path doubles, of other lint, and bundling of
-- hardlinks. A hash table that the code only searches and clears is the list of its keys.
pub mod Laws
use rmlint.Common.{
  ℕ, ◌+◌, ◌-◌, ◌%◌, ◌^◌, Bool, true, false, not, ◌&&◌, ◌||◌, List, [], ◌∷◌, ◌++◌, Option, none,
  some, ◌==◌, ltb, if◌then◌else◌, any, length, is_some,
}
use rmlint.Common.Sign.{ltb_ℤ}
use rmlint.Cfg.{Bytes, RmCfg}
use rmlint.File.Types.{
  RmFile, FileRef, Heap, LintType, dupe_candidate, lint_number, write_queue, QueueRef,
}
use rmlint.File.Links.{hardlink_add, without}

-- rm_node_equal
unfoldable pub node_equal : RmFile → RmFile → Bool
node_equal file_a file_b = (file_a.inode == file_b.inode) && (file_a.dev == file_b.dev)

-- g_strcmp0(s, t) == 0
abbrev pub bytes_equal : Bytes → Bytes → Bool
bytes_equal [] [] = true
bytes_equal [] (b ∷ t) = false
bytes_equal (a ∷ s) [] = false
bytes_equal (a ∷ s) (b ∷ t) = (a == b) && bytes_equal s t

-- rm_path_parent_inode: what stat(2) says of the parent directory of a file, 0 if it fails
abbrev pub ParentInode : Type 0
ParentInode = RmFile → ℕ

-- rm_path_have_same_parent
unfoldable pub have_same_parent : ParentInode → RmFile → RmFile → Bool
have_same_parent parent_inode file_a file_b =
    (file_a.parent == file_b.parent) || (parent_inode file_a == parent_inode file_b)

-- rm_path_double_equal
unfoldable pub path_double_equal : ParentInode → RmFile → RmFile → Bool
unfolding have_same_parent
path_double_equal parent_inode file_a file_b =
    (file_a.inode == file_b.inode)
    && (file_a.dev == file_b.dev)
    && have_same_parent parent_inode file_a file_b
    && bytes_equal file_a.basename file_b.basename

-- What preprocessing changes: the files, the keys of unique_paths_table, the lists of other lint by
-- the number of their type, the files that were freed (last first), and session->total_filtered_files,
-- a uint64.
pub record Tables : Type 0 where
  pub heap : Heap
  pub unique_paths : List FileRef
  pub other_lint : ℕ → List FileRef
  pub destroyed : List FileRef
  pub total_filtered_files : ℕ

abbrev pub sub64 : ℕ → ℕ → ℕ
sub64 a b = (a + 2 ^ 64 - b) % 2 ^ 64

-- rm_util_queue_foreach_remove of lib/utilities.c: the queue left, the number removed, the state
unfoldable pub queue_foreach_remove :
    (FileRef → Tables → Bool × Tables) → List FileRef → Tables → List FileRef × ℕ × Tables
queue_foreach_remove func [] s = ([], 0, s)
queue_foreach_remove func (f ∷ queue) s =
    let (remove, s') = func f s in
    let (left, removed, s'') = queue_foreach_remove func queue s' in
    if remove then (left, removed + 1, s'') else (f ∷ left, removed, s'')

-- rm_file_destroy of lib/file.c
unfoldable pub file_destroy : FileRef → Tables → Tables
unfolding write_queue
file_destroy f s = record s {
  heap = elim (s.heap.file f).hardlinks [
    | none ↦ s.heap
    | some q ↦ write_queue q (without f (s.heap.queue q)) s.heap
  ];
  destroyed = f ∷ s.destroyed;
}

-- rm_pp_check_path_double
unfoldable pub check_path_double : ParentInode → FileRef → Tables → Bool × Tables
unfolding path_double_equal file_destroy
check_path_double parent_inode f s =
    if any (λ k. path_double_equal parent_inode (s.heap.file k) (s.heap.file f)) s.unique_paths
    then (true, file_destroy f s)
    else (false, record s { unique_paths = f ∷ s.unique_paths })

abbrev pub is_dupe_candidate : LintType → Bool
is_dupe_candidate dupe_candidate = true
is_dupe_candidate _ = false

-- g_list_prepend(other_lint[type], file)
abbrev pub prepend_lint : ℕ → FileRef → (ℕ → List FileRef) → ℕ → List FileRef
prepend_lint t f lists i = if i == t then f ∷ lists i else lists i

-- rm_pp_handle_other_lint
unfoldable pub handle_other_lint : RmCfg → FileRef → Tables → Bool × Tables
unfolding file_destroy
handle_other_lint cfg f s =
    let file = s.heap.file f in
    if is_dupe_candidate file.lint_type
    then (false, s)
    else if cfg.filter_mtime && ltb_ℤ file.mtime cfg.min_mtime
    then (true, file_destroy f s)
    else if (cfg.keep_all_tagged && file.is_prefd) || (cfg.keep_all_untagged && not file.is_prefd)
    then (true, file_destroy f s)
    else (true, record s { other_lint = prepend_lint (lint_number file.lint_type) f s.other_lint })

-- rm_pp_handle_hardlink
unfoldable pub handle_hardlink : FileRef → FileRef → Tables → Bool × Tables
unfolding hardlink_add
handle_hardlink head f s =
    if f == head
    then (false, s)
    else if is_some (s.heap.file head).hardlinks
    then (true, record s { heap = hardlink_add head f s.heap })
    else (true, s)

-- session->total_filtered_files -= rm_util_queue_foreach_remove(cluster, ...)
unfoldable pub filter_queue :
    (FileRef → Tables → Bool × Tables) → List FileRef → Tables → List FileRef × Tables
unfolding queue_foreach_remove
filter_queue func cluster s =
    let (left, removed, s') = queue_foreach_remove func cluster s in
    (left, record s' { total_filtered_files = sub64 s'.total_filtered_files removed })

-- The first step of rm_pp_handle_inode_clusters.
unfoldable pub remove_doubles : ParentInode → RmCfg → List FileRef → Tables → List FileRef × Tables
unfolding filter_queue check_path_double
remove_doubles parent_inode cfg cluster s =
    if ltb 1 (length cluster)
    then (let (left, s') =
          if cfg.run_equal_mode
          then (cluster, s)
          else filter_queue (check_path_double parent_inode) cluster s in
        (left, record s' { unique_paths = [] }))
    else (cluster, s)

-- The last step: hardlinks are bundled under the first file, or dropped from the queue.
unfoldable pub bundle_hardlinks : RmCfg → List FileRef → Tables → List FileRef × Tables
unfolding filter_queue handle_hardlink hardlink_add
bundle_hardlinks cfg [] s = ([], s)
bundle_hardlinks cfg (head ∷ cluster) s =
    if ltb 1 (length (head ∷ cluster))
    then filter_queue (handle_hardlink head) (head ∷ cluster)
        (if cfg.find_hardlinked_dupes then record s { heap = hardlink_add head head s.heap } else s)
    else (head ∷ cluster, s)

-- rm_pp_handle_inode_clusters: what is left of the cluster goes to the size group.
unfoldable pub handle_inode_cluster :
    ParentInode → RmCfg → List FileRef → Tables → List FileRef × Tables
unfolding remove_doubles filter_queue handle_other_lint bundle_hardlinks
handle_inode_cluster parent_inode cfg cluster s =
    let (unique, s1) = remove_doubles parent_inode cfg cluster s in
    let (candidates, s2) = filter_queue (handle_other_lint cfg) unique s1 in
    bundle_hardlinks cfg candidates s2
