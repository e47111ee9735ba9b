-- ===== src/Tests/Preprocessing.antt =====
-- Comparing, clustering and grouping the sample files.
use mathlib.Core.List.{Perm}
use mathlib.Core.List.Perm
use rmlint.Common.{◌+◌, ◌≤◌, ◌≡◌, refl, false, List, [], ◌∷◌, ◌==◌, count, length, arith}
use rmlint.Common.Sign.{IsOrder}
use rmlint.Cfg.{RmCfg, set_default}
use rmlint.Glib.{Pattern}
use rmlint.File.Types.{FileRef}
use rmlint.Preprocess.PatternCache.{IsCoherent-zero}
use rmlint.Preprocess.Compare.{file_cmp, cmp_and_cache, pattern_at}
use rmlint.Preprocess.Compare.Order.{ranking, file_cmp-IsOrder}
use rmlint.Preprocess.Compare.Cached.{Keeps, cmp_and_cache-ranking}
use rmlint.Preprocess.Cluster.{ParentInode, handle_inode_cluster}
use rmlint.Preprocess.Cluster.Laws.{handle_inode_cluster-one}
use rmlint.Preprocess.SizeGroups.{Sizes, preprocess}
use rmlint.Preprocess.SizeGroups.Laws.{preprocess-Balance, n_in}
use rmlint.Tests.Data.{glib, glib-IsGlib, insertion_sort, insertion_sort-IsSort}
use rmlint.Tests.Samples.{cfg, heap, three, tables}

abbrev parent_seven : ParentInode
parent_seven f = 7

three-IsOnce : (i : FileRef) → count (λ f. f == i) three ≤ 1
three-IsOnce i = ground arith

handle_inode_cluster-one_example : length (handle_inode_cluster parent_seven cfg three tables).0 ≤ 1
handle_inode_cluster-one_example =
    handle_inode_cluster-one parent_seven cfg three tables three-IsOnce

abbrev sizes : Sizes
sizes = record { node_table = []; size_groups = []; tables = tables }

same_order : (t : List (List FileRef)) → Perm t t
same_order t = Perm.refl t

preprocess-Balance_example :
    let r =
      preprocess insertion_sort parent_seven (λ t. t) (λ i. false) glib cfg [] 3 three sizes in
    r.tables.total_filtered_files + 3 ≡ 3 + n_in r.size_groups
preprocess-Balance_example =
    preprocess-Balance insertion_sort insertion_sort-IsSort parent_seven (λ t. t) same_order
      (λ i. false) (λ i. refl) glib cfg [] 3 three sizes three-IsOnce (omega arith) (omega arith)
      refl refl

file_cmp-IsOrder_example : IsOrder (file_cmp glib cfg)
unfolding set_default
file_cmp-IsOrder_example = file_cmp-IsOrder glib glib-IsGlib cfg refl

-- The criteria "xa": a pattern on base names first.
abbrev by_pattern : RmCfg
by_pattern = record cfg { sort_criteria = b'x' ∷ b'a' ∷ [] }

abbrev long_name : Pattern
long_name text = 3 == length text

cmp_and_cache-ranking_example :
    let patterns = long_name ∷ [] in
    let r = cmp_and_cache glib by_pattern patterns (heap.file 1) (heap.file 2) in
    (r.0 ≡ ranking glib by_pattern patterns (heap.file 1) (heap.file 2))
    × Keeps patterns (heap.file 1) r.1
    × Keeps patterns (heap.file 2) r.2
cmp_and_cache-ranking_example =
    cmp_and_cache-ranking glib (long_name ∷ []) (heap.file 1) (heap.file 2) by_pattern
      (
        IsCoherent-zero (pattern_at (long_name ∷ [])) (b'a' ∷ []),
        IsCoherent-zero (pattern_at (long_name ∷ [])) (b'/' ∷ b'a' ∷ []),
      )
      (
        IsCoherent-zero (pattern_at (long_name ∷ [])) (b'b' ∷ []),
        IsCoherent-zero (pattern_at (long_name ∷ [])) (b'/' ∷ b'b' ∷ []),
      )
      (omega arith)
