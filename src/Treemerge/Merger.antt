-- ===== src/Treemerge/Merger.antt =====
-- RmTreeMerger of lib/treemerge.c: files are fed, and complete directories are merged into their
-- parents. Directories are shared, so they lie in a store; an address is never 0, which is NULL in the
-- trie.
pub mod Store
pub mod Feeding
pub mod Exact
pub mod Once
use rmlint.Common.{
  ℕ, zero, suc, ◌+◌, ◌-◌, ◌^◌, ◌<◌, ◌≢◌, Bool, true, false, not, ◌&&◌, List, [], ◌∷◌, ◌++◌, Option,
  none, some, ◌==◌, if◌then◌else◌, ltb, length,
}
use rmlint.Common.Sign.{ℤ, pos, negsuc, neg}
use rmlint.Cfg.{Bytes, RmCfg}
use rmlint.File.{RmFile, FileRef, Heap}
use rmlint.Trie.{RmTrie, init, trie_insert, search}
use rmlint.Preprocess.Cluster.{bytes_equal}
use rmlint.Treemerge.Count.{pointer_to_int}
use rmlint.Treemerge.Directory.{
  DirRef, Directory, PathFunctions, new_directory, directory_equal, directory_add, absorb_subdir,
  bytes_of,
}

-- RmTreeMerger, with the store of its directories. The table of results lists its groups with their
-- keys. The tables that only serve to free memory are left out.
pub record Merger : Type 0 where
  pub dir : DirRef → Directory
  pub fresh : DirRef
  pub dir_tree : RmTrie
  pub count_tree : RmTrie
  pub result_table : List (DirRef × List DirRef)
  pub valid_dirs : List DirRef

-- rm_tm_new, with the counts
abbrev pub merger_new : RmTrie → Merger
merger_new count_tree = record {
  dir = λ d. new_directory [];
  fresh = 1;
  dir_tree = init;
  count_tree = count_tree;
  result_table = [];
  valid_dirs = [];
}

-- *d = v
unfoldable pub write_dir : DirRef → Directory → Merger → Merger
write_dir d v m = record m { dir = λ i. if i == d then v else m.dir i }

-- A new directory, made known under its name.
unfoldable pub make_known : Directory → Merger → Merger
make_known v m = record m {
  dir = λ i. if i == m.fresh then v else m.dir i;
  fresh = suc m.fresh;
  dir_tree = trie_insert m.dir_tree v.dirname m.fresh;
}

-- g_queue_push_head on the group of the key that equals the directory, a new group if there is none
unfoldable pub push_result :
    (DirRef → Directory) → DirRef → List (DirRef × List DirRef) → List (DirRef × List DirRef)
unfolding directory_equal
push_result dir d [] = (d, d ∷ []) ∷ []
push_result dir d ((key, group) ∷ table) =
    if directory_equal (dir key) (dir d)
    then (key, d ∷ group) ∷ table
    else (key, group) ∷ push_result dir d table

-- rm_tm_insert_dir
unfoldable pub insert_dir : DirRef → Merger → Merger
unfolding push_result write_dir
insert_dir d m =
    if (m.dir d).was_inserted
    then m
    else write_dir d (record (m.dir d) { was_inserted = true })
        (record m { result_table = push_result m.dir d m.result_table })

-- an int as the value of a gint64
abbrev pub int_value : ℕ → ℤ
int_value i = if ltb i (2 ^ 31) then pos i else negsuc (2 ^ 32 - 1 - i)

abbrev pub positive_equal : ℕ → ℤ → Bool
positive_equal n (pos k) = (n == k) && ltb 0 k
positive_equal n (negsuc k) = false

-- dupe_count == file_count && file_count > 0
abbrev pub is_complete : Directory → Bool
is_complete d = positive_equal d.dupe_count d.file_count

-- The directory that a file is fed to, when it is new: a count of 0 is an error.
unfoldable pub fed_directory : Bytes → Merger → Directory
unfolding pointer_to_int
fed_directory dirname m =
    let file_count = pointer_to_int (search m.count_tree dirname) in
    record (new_directory dirname) {
      file_count = if file_count == 0 then negsuc 0 else int_value file_count;
    }

-- The start of rm_tm_feed: the directory of that name, a new one with its count if it is not known.
unfoldable pub feed_dir : Bytes → Merger → DirRef × Merger
unfolding make_known fed_directory
feed_dir dirname m =
    if search m.dir_tree dirname == 0
    then (
      m.fresh,
      make_known (fed_directory dirname m) (record m { valid_dirs = m.fresh ∷ m.valid_dirs }),
    )
    else (search m.dir_tree dirname, m)

-- if(dupe_count == file_count && file_count > 0) rm_tm_insert_dir(...)
unfoldable pub insert_complete : DirRef → Merger → Merger
unfolding insert_dir
insert_complete d m = if is_complete (m.dir d) then insert_dir d m else m

-- The rest of rm_tm_feed, for a known directory.
unfoldable pub feed_to : PathFunctions → RmCfg → FileRef → RmFile → Bytes → DirRef × Merger → Merger
unfolding directory_add write_dir insert_complete
feed_to o cfg f file file_digest (d, m) =
    let added = directory_add o cfg (m.dir d) file file_digest in
    insert_complete d (write_dir d (record added { known_files = f ∷ added.known_files }) m)

-- rm_tm_feed; `none` is the assertion that the file has a digest
unfoldable pub feed : PathFunctions → RmCfg → Heap → FileRef → Merger → Option Merger
unfolding feed_dir feed_to
feed o cfg h f m = elim (h.file f).digest [
  | none ↦ none
  | some file_digest ↦
      some (feed_to o cfg f (h.file f) file_digest (feed_dir (o.get_dirname (h.file f).path) m))
]

-- The parent of a directory, when it is new: the count is read as an unsigned one.
unfoldable pub parent_directory : Bytes → Merger → Directory
unfolding pointer_to_int
parent_directory parent_dir m = record (new_directory parent_dir) {
  file_count = pos (pointer_to_int (search m.count_tree parent_dir));
}

-- The start of rm_tm_cluster_up: the parent, a new one with its count if it is not known.
unfoldable pub parent_of : Bytes → Merger → DirRef × Merger
unfolding make_known parent_directory
parent_of parent_dir m =
    if search m.dir_tree parent_dir == 0
    then (m.fresh, make_known (parent_directory parent_dir m) m)
    else (search m.dir_tree parent_dir, m)

-- The digests of the files of a directory.
abbrev pub file_digests : Heap → List FileRef → List Bytes
file_digests h [] = []
file_digests h (f ∷ files) = bytes_of (h.file f).digest ∷ file_digests h files

-- rm_directory_add_subdir
unfoldable pub add_subdir : PathFunctions → RmCfg → Heap → DirRef → DirRef → Merger → Merger
unfolding absorb_subdir write_dir
add_subdir o cfg h parent subdir m =
    if (m.dir subdir).was_merged
    then m
    else (let merged =
          write_dir parent
            (absorb_subdir o cfg subdir (m.dir subdir) (file_digests h (m.dir subdir).known_files)
              (m.dir parent))
            m in
        write_dir subdir (record (merged.dir subdir) { was_merged = true }) merged)

-- rm_tm_cluster_up after the parent was found, with the recursive call
unfoldable pub cluster_into :
    PathFunctions
    → RmCfg
    → Heap
    → DirRef
    → Bool
    → (DirRef → Merger → Option Merger)
    → DirRef × Merger
    → Option Merger
unfolding add_subdir insert_dir
cluster_into o cfg h directory is_root up (parent, m) =
    let m' = add_subdir o cfg h parent directory m in
    if is_complete (m'.dir parent)
    then if is_root then some (insert_dir parent m') else up parent (insert_dir parent m')
    else some m'

-- rm_tm_cluster_up, on fuel
unfoldable pub cluster_up : PathFunctions → RmCfg → Heap → ℕ → DirRef → Merger → Option Merger
unfolding cluster_into parent_of
cluster_up o cfg h zero directory m = none
cluster_up o cfg h (suc n) directory m =
    let parent_dir = o.get_dirname (m.dir directory).dirname in
    cluster_into o cfg h directory (bytes_equal parent_dir (b'/' ∷ [])) (cluster_up o cfg h n)
      (parent_of parent_dir m)

-- The loop of rm_tm_finish. The name gets shorter with each call, so its length is fuel enough.
unfoldable pub cluster_all : PathFunctions → RmCfg → Heap → List DirRef → Merger → Option Merger
unfolding cluster_up
cluster_all o cfg h [] m = some m
cluster_all o cfg h (d ∷ dirs) m = elim (cluster_up o cfg h (length (m.dir d).dirname) d m) [
  | none ↦ none
  | some m' ↦ cluster_all o cfg h dirs m'
]

-- rm_tm_sort_paths and rm_tm_sort_paths_reverse
abbrev pub sort_paths : (DirRef → Directory) → DirRef → DirRef → ℤ
sort_paths dir da db = diff (dir da).depth (dir db).depth
  where
    diff : ℕ → ℕ → ℤ
    diff a b = if ltb a b then negsuc (b - a - 1) else pos (a - b)

-- rm_tm_finish before it extracts
unfoldable pub finish :
    ((DirRef → DirRef → ℤ) → List DirRef → List DirRef)
    → PathFunctions
    → RmCfg
    → Heap
    → Merger
    → Option Merger
unfolding cluster_all
finish sort o cfg h m =
    let sorted = sort (λ da db. neg (sort_paths m.dir da db)) m.valid_dirs in
    cluster_all o cfg h sorted (record m { valid_dirs = sorted })

-- The calls of rm_tm_feed for a sequence of files.
unfoldable pub feed_all : PathFunctions → RmCfg → Heap → List FileRef → Merger → Option Merger
unfolding feed
feed_all o cfg h [] m = some m
feed_all o cfg h (f ∷ files) m = elim (feed o cfg h f m) [
  | none ↦ none
  | some m' ↦ feed_all o cfg h files m'
]
