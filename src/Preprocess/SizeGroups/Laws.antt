-- ===== src/Preprocess/SizeGroups/Laws.antt =====
-- How rm_preprocess of lib/preprocess.c counts the files.
use mathlib.Core.List.{Perm}
use rmlint.Common.{
  ℕ, ◌+◌, ◌^◌, ◌≤◌, ◌<◌, ◌≡◌, ◌≢◌, refl, ap, Bool, false, List, [], ◌∷◌, ◌==◌, length, arith, bit,
  count, sum_by, length-append, count-append, Bool-cases, inl, inr,
}
use rmlint.Common.Perms.{sum_by-perm, count-perm, length-perm}
use rmlint.Common.Sign.{ℤ}
use rmlint.Cfg.{RmCfg}
use rmlint.Glib.{Glib, Pattern, IsSort}
use rmlint.File.Types.{FileRef, Heap}
use rmlint.Preprocess.Compare.{file_cmp_full}
use rmlint.Preprocess.Cluster.{Tables, ParentInode, handle_inode_cluster}
use rmlint.Preprocess.Cluster.Laws.{handle_inode_cluster-Counts, handle_inode_cluster-one}
use rmlint.Preprocess.SizeGroups.{
  Clusters, push_cluster, enter_group, handle_clusters, add_group, is_last, Sizes, close_group,
  take_file, split_sizes, preprocess,
}

-- The files in a list of clusters, and those among them that a test accepts.
abbrev pub n_in : Clusters → ℕ
n_in = sum_by length

abbrev pub count_in : (FileRef → Bool) → Clusters → ℕ
count_in q = sum_by (count q)

n_in-push_cluster : (h : Heap) (f : FileRef) (t : Clusters) → n_in (push_cluster h f t) ≡ n_in t + 1
unfolding push_cluster
n_in-push_cluster h f [] = refl
n_in-push_cluster h f ([] ∷ t) = omega (arith, n_in-push_cluster h f t)
n_in-push_cluster h f ((key ∷ c) ∷ t) =
    ground (arith, n_in-push_cluster h f t, length-append c (f ∷ []))

count_in-push_cluster :
    (q : FileRef → Bool) (h : Heap) (f : FileRef) (t : Clusters)
    → count_in q (push_cluster h f t) ≡ count_in q t + bit (q f)
unfolding push_cluster
count_in-push_cluster q h f [] = omega arith
count_in-push_cluster q h f ([] ∷ t) = omega (arith, count_in-push_cluster q h f t)
count_in-push_cluster q h f ((key ∷ c) ∷ t) =
    ground (arith, count_in-push_cluster q h f t, count-append q c (f ∷ []))

length-enter_group :
    (left group : List FileRef)
    → length left ≤ 1
    → length (enter_group left group) ≡ length left + length group
length-enter_group [] group h = omega arith
length-enter_group (f ∷ []) group h = omega arith
length-enter_group (f ∷ g ∷ left) group h = omega arith

-- No file stands twice in the clusters.
abbrev pub Once : Clusters → Type 0
Once t = (i : FileRef) → count_in (λ f. f == i) t ≤ 1

handle_clusters_lem :
    (p : ParentInode) (cfg : RmCfg) (t : Clusters) (group : List FileRef) (s : Tables)
    → Once t
    → n_in t ≤ s.total_filtered_files
    → s.total_filtered_files < 2 ^ 64
    → let r = handle_clusters p cfg t group s in
      (r.1.total_filtered_files + n_in t + length group ≡ s.total_filtered_files + length r.0)
      × (length r.0 ≤ n_in t + length group)
unfolding handle_clusters
handle_clusters_lem p cfg [] group s once fits word = (omega arith, omega arith)
handle_clusters_lem p cfg (c ∷ t) group s once fits word =
    let r = handle_inode_cluster p cfg c s in
    let counts = handle_inode_cluster-Counts p cfg c s (omega arith) word in
    let one = handle_inode_cluster-one p cfg c s (λ i. omega (arith, once i)) in
    let rest =
      handle_clusters_lem p cfg t (enter_group r.0 group) r.1 (λ i. omega (arith, once i))
        (omega (arith, counts)) (omega (arith, counts)) in
    omega (arith, counts, one, rest, length-enter_group r.0 group one)

n_in-add_group :
    (group : List FileRef) (groups : Clusters)
    → n_in (add_group group groups) ≡ length group + n_in groups
n_in-add_group [] groups = omega arith
n_in-add_group (f ∷ group) groups = refl

-- The files that the loop has: in the table and still to come.
abbrev Fits : List FileRef → Sizes → Type 0
Fits files s =
    ((i : FileRef) → count_in (λ f. f == i) s.node_table + count (λ f. f == i) files ≤ 1)
    × (n_in s.node_table + length files ≤ s.tables.total_filtered_files)
    × (s.tables.total_filtered_files < 2 ^ 64)

-- What is in the table or to come is in a group at the end, or no longer counted.
abbrev Balance : List FileRef → Sizes → Sizes → Type 0
Balance files s r =
    r.tables.total_filtered_files + n_in s.node_table + length files + n_in s.size_groups
    ≡ s.tables.total_filtered_files + n_in r.size_groups

module _ (p : ParentInode) (walk : Clusters → Clusters) (walks : (t : Clusters) → Perm (walk t) t)
    (g : Glib) (cfg : RmCfg) where
  close_group-Balance :
      (files : List FileRef) (s : Sizes)
      → Fits files s
      → let r = close_group p walk cfg s in
        (r.tables.total_filtered_files + n_in s.node_table + n_in s.size_groups
          ≡ s.tables.total_filtered_files + n_in r.size_groups)
        × (r.node_table ≡ [])
        × (length files ≤ r.tables.total_filtered_files)
        × (r.tables.total_filtered_files ≤ s.tables.total_filtered_files)
  unfolding close_group
  close_group-Balance files s fits =
      let n = sum_by-perm length (walks s.node_table) in
      let done =
        handle_clusters_lem p cfg (walk s.node_table) [] s.tables
          (λ i. omega (arith, fits.0 i, sum_by-perm (count (λ f. f == i)) (walks s.node_table)))
          (omega (arith, fits, n)) fits.2 in
      let r = handle_clusters p cfg (walk s.node_table) [] s.tables in
      (
        omega (arith, n, done, n_in-add_group r.0 s.size_groups),
        refl,
        omega (arith, n, done, fits),
        omega (arith, n, done, fits),
      )

  pushed-Fits :
      (file : FileRef) (files : List FileRef) (s : Sizes)
      → Fits (file ∷ files) s
      → Fits files (record s { node_table = push_cluster s.tables.heap file s.node_table })
  pushed-Fits file files s fits = (
    (λ i.
        omega
          (arith, fits.0 i, count_in-push_cluster (λ f. f == i) s.tables.heap file s.node_table)),
    omega (arith, fits, n_in-push_cluster s.tables.heap file s.node_table),
    fits.2,
  )

  not_last :
      (h : Heap) (current : FileRef) (files : List FileRef)
      → is_last g cfg h current files ≡ false
      → length files ≢ 0
  unfolding is_last
  not_last h current [] e = cc
  not_last h current (f ∷ files) e = omega arith

  -- A turn of the loop, which empties the table if no file follows.
  take_file-Balance :
      (file : FileRef) (files : List FileRef) (s : Sizes)
      → Fits (file ∷ files) s
      → let r = take_file p walk g cfg file files s in
        Fits files r
        × (r.tables.total_filtered_files + n_in s.node_table + 1 + n_in s.size_groups
            ≡ s.tables.total_filtered_files + n_in r.size_groups + n_in r.node_table)
        × (length files ≡ 0 → n_in r.node_table ≡ 0)
  unfolding take_file
  take_file-Balance file files s fits =
      let s' : Sizes = record s { node_table = push_cluster s.tables.heap file s.node_table } in
      let fits' = pushed-Fits file files s fits in
      let more = n_in-push_cluster s.tables.heap file s.node_table in
      elim (Bool-cases (is_last g cfg s.tables.heap file files)) [
        | inl last ↦ rw last (
            let c = close_group-Balance files s' fits' in
            (
              ((λ i. omega (arith, fits'.0 i)), omega (arith, c), omega (arith, c, fits)),
              omega (arith, c, more),
              (λ ends. refl),
            ))
        | inr mid ↦ rw mid (
          fits',
          omega (arith, more),
          (λ ends. ground (arith, not_last s.tables.heap file files mid)),
        )
      ]

  split_sizes-Balance :
      (aborted : ℕ → Bool)
      → ((i : ℕ) → aborted i ≡ false)
      → (turn : ℕ) (files : List FileRef) (s : Sizes) → Fits files s
      → (length files ≡ 0 → n_in s.node_table ≡ 0)
      → Balance files s (split_sizes p walk aborted turn g cfg files s)
  unfolding split_sizes
  split_sizes-Balance aborted runs turn [] s fits empty = omega (arith, empty refl)
  split_sizes-Balance aborted runs turn (file ∷ files) s fits empty =
      let step = take_file-Balance file files s fits in
      let s' = take_file p walk g cfg file files s in
      rw (runs turn)
        (omega (arith, step.1, split_sizes-Balance aborted runs (turn + 1) files s' step.0 step.2))

-- If the run is not aborted, the files are distinct, total_files is a 64-bit number that covers
-- them, and the tables are empty at the start, then total_filtered_files at the end and the number
-- of files at the start add up to total_files and the files in the size groups: the files dropped
-- are those no longer counted. The sort and the walk through the node table give back the same
-- elements.
pub preprocess-Balance :
    (sort : (FileRef → FileRef → ℤ) → List FileRef → List FileRef) (sorts : IsSort sort)
    (p : ParentInode) (walk : Clusters → Clusters) (walks : (t : Clusters) → Perm (walk t) t)
    (aborted : ℕ → Bool) (runs : (i : ℕ) → aborted i ≡ false) (g : Glib) (cfg : RmCfg)
    (patterns : List Pattern) (total_files : ℕ) (all_files : List FileRef) (s : Sizes)
    (once : (i : FileRef) → count (λ f. f == i) all_files ≤ 1)
    (fits : length all_files ≤ total_files) (word : total_files < 2 ^ 64)
    (table : s.node_table ≡ []) (groups : s.size_groups ≡ [])
    → let r = preprocess sort p walk aborted g cfg patterns total_files all_files s in
      r.tables.total_filtered_files + length all_files ≡ total_files + n_in r.size_groups
unfolding preprocess
preprocess-Balance sort sorts p walk walks aborted runs g cfg patterns total_files all_files s once
      fits word table groups =
    let h = s.tables.heap in
    let c = λ (a b : FileRef). file_cmp_full g cfg patterns (h.file a) (h.file b) in
    let same = length-perm (sorts.perm c all_files) in
    let s0 : Sizes = record s { tables = record s.tables { total_filtered_files = total_files } } in
    let n0 : n_in s.node_table ≡ 0 = ap n_in table in
    let g0 : n_in s.size_groups ≡ 0 = ap n_in groups in
    omega (
      arith,
      same,
      n0,
      g0,
      split_sizes-Balance p walk walks g cfg aborted runs 0 (sort c all_files) s0
          (
            (λ i. omega (
              arith,
              once i,
              ap (count_in (λ f. f == i)) table,
              count-perm (λ f. f == i) (sorts.perm c all_files),
            )),
            omega (arith, same, n0, fits),
            word,
          )
          (λ ends. n0),
    )
