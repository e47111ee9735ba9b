-- ===== src/Preprocess/Cluster/Laws.antt =====
-- What is left of an inode cluster, and how the files are counted.
use native.Mathlib.Nat.{le_trans}
use rmlint.Common.{
  ◌+◌, ◌^◌, ◌≤◌, ◌<◌, ◌≡◌, refl, Bool, not, List, [], ◌∷◌, ◌==◌, if◌then◌else◌, length, arith,
  count,
}
use rmlint.Cfg.{RmCfg}
use rmlint.File.Types.{FileRef}
use rmlint.File.Links.{hardlink_add}
use rmlint.Preprocess.Cluster.{
  Tables, queue_foreach_remove, filter_queue, ParentInode, remove_doubles, handle_other_lint,
  bundle_hardlinks, handle_hardlink, handle_inode_cluster, check_path_double, file_destroy,
}

-- what is left and what was removed make up the queue
queue_foreach_remove-length :
    (func : FileRef → Tables → Bool × Tables) (queue : List FileRef) (s : Tables)
    → let r = queue_foreach_remove func queue s in length r.0 + r.1 ≡ length queue
unfolding queue_foreach_remove
queue_foreach_remove-length func [] s = refl
queue_foreach_remove-length func (f ∷ queue) s =
    ground (arith, queue_foreach_remove-length func queue (func f s).1)

-- The callbacks leave the counter of files alone.
abbrev KeepsTotal : (FileRef → Tables → Bool × Tables) → Type 0
KeepsTotal func =
    (f : FileRef) (s : Tables) → (func f s).1.total_filtered_files ≡ s.total_filtered_files

queue_foreach_remove-total :
    (func : FileRef → Tables → Bool × Tables)
    → KeepsTotal func
    → (queue : List FileRef) (s : Tables)
    → (queue_foreach_remove func queue s).2.total_filtered_files ≡ s.total_filtered_files
unfolding queue_foreach_remove
queue_foreach_remove-total func k [] s = refl
queue_foreach_remove-total func k (f ∷ queue) s =
    ground (arith, k f s, queue_foreach_remove-total func k queue (func f s).1)

-- The counter falls by the number of files that left the queue.
abbrev Counts : List FileRef → Tables → List FileRef × Tables → Type 0
Counts queue s r =
    (length r.0 ≤ length queue)
    × (r.1.total_filtered_files + length queue ≡ s.total_filtered_files + length r.0)

filter_queue-Counts :
    (func : FileRef → Tables → Bool × Tables)
    → KeepsTotal func
    → (queue : List FileRef) (s : Tables) → length queue ≤ s.total_filtered_files
    → s.total_filtered_files < 2 ^ 64
    → Counts queue s (filter_queue func queue s)
unfolding filter_queue
filter_queue-Counts func k queue s fits word =
    omega
      (arith, queue_foreach_remove-length func queue s, queue_foreach_remove-total func k queue s)

KeepsTotal-check_path_double : (p : ParentInode) → KeepsTotal (check_path_double p)
unfolding check_path_double file_destroy
KeepsTotal-check_path_double p f s = ground arith

KeepsTotal-handle_other_lint : (cfg : RmCfg) → KeepsTotal (handle_other_lint cfg)
unfolding handle_other_lint file_destroy
KeepsTotal-handle_other_lint cfg f s = ground arith

KeepsTotal-handle_hardlink : (head : FileRef) → KeepsTotal (handle_hardlink head)
unfolding handle_hardlink
KeepsTotal-handle_hardlink head f s = ground arith

remove_doubles-Counts :
    (p : ParentInode) (cfg : RmCfg) (cluster : List FileRef) (s : Tables)
    → length cluster ≤ s.total_filtered_files
    → s.total_filtered_files < 2 ^ 64
    → Counts cluster s (remove_doubles p cfg cluster s)
unfolding remove_doubles
remove_doubles-Counts p cfg cluster s fits word = ground (
  arith,
  filter_queue-Counts (check_path_double p) (KeepsTotal-check_path_double p) cluster s fits word,
)

bundle_hardlinks-Counts :
    (cfg : RmCfg) (cluster : List FileRef) (s : Tables)
    → length cluster ≤ s.total_filtered_files
    → s.total_filtered_files < 2 ^ 64
    → Counts cluster s (bundle_hardlinks cfg cluster s)
unfolding bundle_hardlinks
bundle_hardlinks-Counts cfg [] s fits word = ground arith
bundle_hardlinks-Counts cfg (head ∷ cluster) s fits word =
    let linked =
      if cfg.find_hardlinked_dupes then record s { heap = hardlink_add head head s.heap } else s in
    let same : linked.total_filtered_files ≡ s.total_filtered_files = ground arith in
    ground (
      arith,
      filter_queue-Counts (handle_hardlink head) (KeepsTotal-handle_hardlink head) (head ∷ cluster)
          linked (omega arith) (omega arith),
    )

-- If the session's count of filtered files is a 64-bit number and covers the cluster, then the
-- files that the cluster loses, as path doubles, as other lint or as hardlinks, are exactly those
-- by which the count falls.
pub handle_inode_cluster-Counts :
    (p : ParentInode) (cfg : RmCfg) (cluster : List FileRef) (s : Tables)
    → length cluster ≤ s.total_filtered_files
    → s.total_filtered_files < 2 ^ 64
    → let r = handle_inode_cluster p cfg cluster s in
      (length r.0 ≤ length cluster)
      × (r.1.total_filtered_files + length cluster ≡ s.total_filtered_files + length r.0)
unfolding handle_inode_cluster
handle_inode_cluster-Counts p cfg cluster s fits word =
    let first = remove_doubles p cfg cluster s in
    let second = filter_queue (handle_other_lint cfg) first.0 first.1 in
    let a = remove_doubles-Counts p cfg cluster s fits word in
    let b =
      filter_queue-Counts (handle_other_lint cfg) (KeepsTotal-handle_other_lint cfg) first.0 first.1
        (omega (arith, a)) (omega (arith, a)) in
    omega (
      arith,
      a,
      b,
      bundle_hardlinks-Counts cfg second.0 second.1 (omega (arith, a, b)) (omega (arith, a, b)),
    )

-- nothing enters a queue that is filtered
count-foreach_remove :
    (func : FileRef → Tables → Bool × Tables) (q : FileRef → Bool) (queue : List FileRef)
    (s : Tables)
    → count q (queue_foreach_remove func queue s).0 ≤ count q queue
unfolding queue_foreach_remove
count-foreach_remove func q [] s = omega arith
count-foreach_remove func q (f ∷ queue) s =
    ground (arith, count-foreach_remove func q queue (func f s).1)

count-filter_queue :
    (func : FileRef → Tables → Bool × Tables) (q : FileRef → Bool) (queue : List FileRef)
    (s : Tables)
    → count q (filter_queue func queue s).0 ≤ count q queue
unfolding filter_queue
count-filter_queue func q queue s = count-foreach_remove func q queue s

count-remove_doubles :
    (p : ParentInode) (cfg : RmCfg) (q : FileRef → Bool) (cluster : List FileRef) (s : Tables)
    → count q (remove_doubles p cfg cluster s).0 ≤ count q cluster
unfolding remove_doubles filter_queue
count-remove_doubles p cfg q cluster s =
    ground (arith, count-foreach_remove (check_path_double p) q cluster s)

handle_hardlink-removes :
    (head f : FileRef) (s : Tables) → (handle_hardlink head f s).0 ≡ not (f == head)
unfolding handle_hardlink
handle_hardlink-removes head f s = ground arith

-- only the head of a cluster stays when hardlinks are handled
handle_hardlink-head :
    (head : FileRef) (queue : List FileRef) (s : Tables)
    → length (queue_foreach_remove (handle_hardlink head) queue s).0
      ≡ count (λ f. f == head) (queue_foreach_remove (handle_hardlink head) queue s).0
unfolding queue_foreach_remove
handle_hardlink-head head [] s = refl
handle_hardlink-head head (f ∷ queue) s = ground (
  arith,
  handle_hardlink-removes head f s,
  handle_hardlink-head head queue (handle_hardlink head f s).1,
)

bundle_hardlinks-one :
    (cfg : RmCfg) (cluster : List FileRef) (s : Tables)
    → ((i : FileRef) → count (λ f. f == i) cluster ≤ 1)
    → length (bundle_hardlinks cfg cluster s).0 ≤ 1
unfolding bundle_hardlinks filter_queue
bundle_hardlinks-one cfg [] s once = omega arith
bundle_hardlinks-one cfg (head ∷ cluster) s once =
    let linked =
      if cfg.find_hardlinked_dupes then record s { heap = hardlink_add head head s.heap } else s in
    ground (
      arith,
      handle_hardlink-head head (head ∷ cluster) linked,
      count-foreach_remove (handle_hardlink head) (λ f. f == head) (head ∷ cluster) linked,
      once head,
    )

-- A cluster of distinct files leaves at most one file for the size group.
pub handle_inode_cluster-one :
    (p : ParentInode) (cfg : RmCfg) (cluster : List FileRef) (s : Tables)
    → ((i : FileRef) → count (λ f. f == i) cluster ≤ 1)
    → length (handle_inode_cluster p cfg cluster s).0 ≤ 1
unfolding handle_inode_cluster
handle_inode_cluster-one p cfg cluster s once =
    let first = remove_doubles p cfg cluster s in
    let second = filter_queue (handle_other_lint cfg) first.0 first.1 in
    bundle_hardlinks-one cfg second.0 second.1 λ i.
      le_trans (count-filter_queue (handle_other_lint cfg) (λ f. f == i) first.0 first.1)
        (le_trans (count-remove_doubles p cfg (λ f. f == i) cluster s) (once i))
