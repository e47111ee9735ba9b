-- ===== src/Preprocess/SizeGroups.antt =====
-- rm_preprocess of lib/preprocess.c: the sorted files are cut into groups that may hold duplicates.
-- The node table is the list of its clusters; a cluster's key is its first file. The order in which
-- GLib walks through the table is an argument, and so is what rm_session_was_aborted says at each turn.
pub mod Laws
use rmlint.Common.{
  ℕ, ◌+◌, Bool, true, false, not, ◌||◌, List, [], ◌∷◌, ◌++◌, ◌==◌, if◌then◌else◌, length, is_empty,
}
use rmlint.Common.Sign.{is_zero, ℤ}
use rmlint.Cfg.{RmCfg}
use rmlint.Glib.{Glib, Pattern}
use rmlint.File.Types.{FileRef, Heap}
use rmlint.Preprocess.Compare.{file_cmp_full, file_cmp_split}
use rmlint.Preprocess.Cluster.{Tables, node_equal, ParentInode, handle_inode_cluster}

abbrev pub Clusters : Type 0
Clusters = List (List FileRef)

-- rm_hash_table_setdefault(node_table, file, g_queue_new), and g_queue_push_tail
unfoldable pub push_cluster : Heap → FileRef → Clusters → Clusters
unfolding node_equal
push_cluster h f [] = (f ∷ []) ∷ []
push_cluster h f ([] ∷ table) = [] ∷ push_cluster h f table
push_cluster h f ((key ∷ cluster) ∷ table) =
    if node_equal (h.file key) (h.file f)
    then (key ∷ cluster ++ f ∷ []) ∷ table
    else (key ∷ cluster) ∷ push_cluster h f table

-- The end of rm_pp_handle_inode_clusters: the one file left enters the size group.
abbrev pub enter_group : List FileRef → List FileRef → List FileRef
enter_group [] group = group
enter_group (f ∷ left) group = f ∷ group

-- g_hash_table_foreach_remove(node_table, rm_pp_handle_inode_clusters, session)
unfoldable pub handle_clusters :
    ParentInode → RmCfg → Clusters → List FileRef → Tables → List FileRef × Tables
unfolding handle_inode_cluster
handle_clusters parent_inode cfg [] group s = (group, s)
handle_clusters parent_inode cfg (cluster ∷ clusters) group s =
    let (left, s') = handle_inode_cluster parent_inode cfg cluster s in
    handle_clusters parent_inode cfg clusters (enter_group left group) s'

-- A size group without files is removed again.
abbrev pub add_group : List FileRef → Clusters → Clusters
add_group [] groups = groups
add_group (f ∷ group) groups = (f ∷ group) ∷ groups

-- !file || rm_file_cmp_split(file, current_size_file, session) != 0
unfoldable pub is_last : Glib → RmCfg → Heap → FileRef → List FileRef → Bool
unfolding file_cmp_split
is_last g cfg h current [] = true
is_last g cfg h current (file ∷ files) =
    not (is_zero (file_cmp_split g cfg (h.file file) (h.file current)))

-- What the loop has: the clusters of the current size, size_groups and the rest of the session.
pub record Sizes : Type 0 where
  pub node_table : Clusters
  pub size_groups : Clusters
  pub tables : Tables

-- The end of a size group.
unfoldable pub close_group : ParentInode → (Clusters → Clusters) → RmCfg → Sizes → Sizes
unfolding handle_clusters
close_group parent_inode walk cfg s =
    let (group, tables) = handle_clusters parent_inode cfg (walk s.node_table) [] s.tables in
    record { node_table = []; size_groups = add_group group s.size_groups; tables = tables }

-- One turn of the loop, for a file and those behind it.
unfoldable pub take_file :
    ParentInode → (Clusters → Clusters) → Glib → RmCfg → FileRef → List FileRef → Sizes → Sizes
unfolding push_cluster is_last close_group
take_file parent_inode walk g cfg file files s =
    let s' = record s { node_table = push_cluster s.tables.heap file s.node_table } in
    if is_last g cfg s.tables.heap file files then close_group parent_inode walk cfg s' else s'

-- The loop, from the `turn`-th file on.
unfoldable pub split_sizes :
    ParentInode
    → (Clusters → Clusters)
    → (ℕ → Bool)
    → ℕ
    → Glib
    → RmCfg
    → List FileRef
    → Sizes
    → Sizes
unfolding take_file
split_sizes parent_inode walk aborted turn g cfg [] s = s
split_sizes parent_inode walk aborted turn g cfg (file ∷ files) s =
    let s' = take_file parent_inode walk g cfg file files s in
    let rest = split_sizes parent_inode walk aborted (turn + 1) g cfg files s' in
    if aborted turn then s else rest

-- rm_preprocess, without the lists of other lint that it prints at its end
unfoldable pub preprocess :
    ((FileRef → FileRef → ℤ) → List FileRef → List FileRef)
    → ParentInode
    → (Clusters → Clusters)
    → (ℕ → Bool)
    → Glib
    → RmCfg
    → List Pattern
    → ℕ
    → List FileRef
    → Sizes
    → Sizes
unfolding split_sizes file_cmp_full
preprocess sort parent_inode walk aborted g cfg patterns total_files all_files s =
    let h = s.tables.heap in
    split_sizes parent_inode walk aborted 0 g cfg
      (sort (λ a b. file_cmp_full g cfg patterns (h.file a) (h.file b)) all_files)
      (record s { tables = record s.tables { total_filtered_files = total_files } })
