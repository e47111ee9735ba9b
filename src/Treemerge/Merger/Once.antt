-- ===== src/Treemerge/Merger/Once.antt =====
-- No file is counted twice while the directories of lib/treemerge.c are merged.
use mathlib.Core.Path.{subst}
use rmlint.Common.{
  ℕ, ◌+◌, zero, suc, ◌≤◌, ◌<◌, ◌≡◌, ◌≢◌, refl, sym, ◌∙◌, ap, Bool, true, false, List, [], ◌∷◌,
  Option, none, some, ◌==◌, arith, ltb→lt, lt→ltb, all, All, length, Bool-cases, Option-cases, ◌⊎◌,
  inl, inr, is_some,
}
use rmlint.Common.Perms.{all-perm}
use rmlint.Common.Sign.{ℤ, neg}
use rmlint.Cfg.{Bytes, RmCfg}
use rmlint.File.{FileRef, Heap, RmFile}
use rmlint.Glib.{IsSort}
use rmlint.Preprocess.Cluster.{bytes_equal}
use rmlint.Trie.{RmTrie, elements, search, init, search_node, search_at, data_of}
use rmlint.Treemerge.Directory.{DirRef, PathFunctions, directory_add}
use rmlint.Treemerge.Merger.{
  Merger, merger_new, write_dir, make_known, insert_dir, insert_complete, is_complete, feed_dir,
  feed_to, feed, feed_all, parent_of, add_subdir, cluster_into, cluster_up, cluster_all, finish,
  sort_paths,
}
use rmlint.Treemerge.Merger.Store.{
  is_path, open_files, IsMerger, Grows, Grows-refl, Grows-trans, insert_dir-Grows,
}
use rmlint.Treemerge.Merger.Exact.{Counts, Counts-feed_dir, Counts-feed_to}
use rmlint.Treemerge.Merger.Feeding.{
  is_inner, IsPaths, is_valid, parent_of-Found, feed_dir-Found, add_subdir-Grows, feed_to-Grows,
}

valid-Grows :
    (m m' : Merger) (j k : ℕ)
    → Grows m m' j k
    → (d : DirRef) → is_valid m d ≡ true
    → is_valid m' d ≡ true
valid-Grows m m' j k g d valid =
    let kept = g.keeps d (ltb→lt d m.fresh (ground arith)) in
    rw (lt→ltb d m'.fresh kept.0, kept.1) (ground arith)

all_valid-Grows :
    (m m' : Merger) (j k : ℕ)
    → Grows m m' j k
    → (ds : List DirRef) → all (is_valid m) ds ≡ true
    → all (is_valid m') ds ≡ true
all_valid-Grows m m' j k g [] e = refl
all_valid-Grows m m' j k g (d ∷ ds) e =
    rw (valid-Grows m m' j k g d (ground arith), all_valid-Grows m m' j k g ds (ground arith)) refl

-- A call that gives a state, in which as much is counted.
abbrev Runs : Option Merger → Merger → ℕ → Type 0
Runs r m k = (m' : Merger) × (r ≡ some m') × Grows m m' 0 k

-- the end of the call for a parent: what happens depends on whether it is complete
cluster_into_lem :
    (o : PathFunctions) (cfg : RmCfg) (h : Heap) (d : DirRef) (is_root : Bool)
    (up : DirRef → Merger → Option Merger) (parent : DirRef) (m : Merger)
    → IsMerger m
    → parent < m.fresh
    → d < m.fresh
    → d ≢ parent
    → ((m' : Merger) → is_root ≡ false → Grows m m' 0 0 → Runs (up parent m') m' 0)
    → Runs (cluster_into o cfg h d is_root up (parent, m)) m 0
unfolding cluster_into
cluster_into_lem o cfg h d is_root up parent m w p s apart rec =
    let m' = add_subdir o cfg h parent d m in
    let g = add_subdir-Grows o cfg h parent d m w p s apart in
    let i = insert_dir-Grows parent m' g.merger (g.keeps parent p).0 in
    let both = Grows-trans m m' (insert_dir parent m') 0 0 0 0 g i in
    elim (Bool-cases (is_complete (m'.dir parent))) [
      | inr open_ ↦ (m', rw open_ refl, g)
      | inl full ↦ elim (Bool-cases is_root) [
        | inl root ↦ (insert_dir parent m', rw (full, root) refl, both)
        | inr inner ↦
            let (m'', e, k) = rec (insert_dir parent m') inner both in
            (m'', rw (full, inner) e, Grows-trans m (insert_dir parent m') m'' 0 0 0 0 both k)
      ]
    ]

-- A directory that is not the root is merged up: the calls end, since each name is shorter.
cluster_up_lem :
    (o : PathFunctions)
    → IsPaths o
    → (cfg : RmCfg) (h : Heap) (n : ℕ) (d : DirRef) (m : Merger) → IsMerger m
    → d < m.fresh
    → is_inner (m.dir d).dirname ≡ true
    → length (m.dir d).dirname ≤ n
    → Runs (cluster_up o cfg h n d m) m 0
unfolding cluster_up
cluster_up_lem o l cfg h zero d m w small inner fuel =
    absurd (omega (arith, l.shorter (m.dir d).dirname inner))
cluster_up_lem o l cfg h (suc n) d m w small inner fuel =
    let name = (m.dir d).dirname in
    let path = l.path name (ground (arith, inner)) in
    let (g, (small', named)) = parent_of-Found (o.get_dirname name) m w path in
    let start = parent_of (o.get_dirname name) m in
    let parent = start.0 in
    let m1 = start.1 in
    let apart : d ≢ parent = λ same. omega (
      arith,
      l.shorter name inner,
      ap length (sym (g.keeps d small).1 ∙ ap (λ i. (m1.dir i).dirname) same ∙ named),
    ) in
    let (m', e, k) =
      cluster_into_lem o cfg h d (bytes_equal (o.get_dirname name) (b'/' ∷ []))
        (cluster_up o cfg h n) parent m1 g.merger small' (g.keeps d small).0 apart
        (λ m2 no_root k.
          let same = (k.keeps parent small').1 ∙ named in
          cluster_up_lem o l cfg h n parent m2 k.merger (k.keeps parent small').0
            (ap is_inner same ∙ ground (arith, path, no_root))
            (omega (arith, ap length same, l.shorter name inner, fuel))) in
    (m', e, Grows-trans m m1 m' 0 0 0 0 g k)

cluster_all_step :
    (o : PathFunctions) (cfg : RmCfg) (h : Heap) (d : DirRef) (ds : List DirRef) (m m' : Merger)
    → cluster_up o cfg h (length (m.dir d).dirname) d m ≡ some m'
    → cluster_all o cfg h (d ∷ ds) m ≡ cluster_all o cfg h ds m'
unfolding cluster_all
cluster_all_step o cfg h d ds m m' e =
    ap (λ r. elim r [ none ↦ none | some m2 ↦ cluster_all o cfg h ds m2 ]) e

cluster_all_lem :
    (o : PathFunctions)
    → IsPaths o
    → (cfg : RmCfg) (h : Heap) (ds : List DirRef) (m : Merger) → IsMerger m
    → all (is_valid m) ds ≡ true
    → Runs (cluster_all o cfg h ds m) m 0
unfolding cluster_all
cluster_all_lem o l cfg h [] m w valid = (m, refl, Grows-refl m w)
cluster_all_lem o l cfg h (d ∷ ds) m w valid =
    let (m', e, g) =
      cluster_up_lem o l cfg h (length (m.dir d).dirname) d m w
        (ltb→lt d m.fresh (ground (arith, valid))) (ground (arith, valid)) (omega arith) in
    let (m'', e', g') =
      cluster_all_lem o l cfg h ds m' g.merger
        (all_valid-Grows m m' 0 0 g ds (ground (arith, valid))) in
    (m'', cluster_all_step o cfg h d ds m m' e ∙ e', Grows-trans m m' m'' 0 0 0 0 g g')

-- What a file that is fed owes: a digest, and a directory that is not the root.
abbrev pub IsFed : PathFunctions → Heap → FileRef → Type 0
IsFed o h f = (is_some (h.file f).digest ≡ true) × (is_inner (o.get_dirname (h.file f).path) ≡ true)

-- the directories that are valid after a call
valid_dirs-insert_complete :
    (d : DirRef) (m : Merger) → (insert_complete d m).valid_dirs ≡ m.valid_dirs
unfolding insert_complete insert_dir write_dir
valid_dirs-insert_complete d m = ground arith

valid_dirs-feed_to :
    (o : PathFunctions) (cfg : RmCfg) (f : FileRef) (file : RmFile) (digest : Bytes)
    (start : DirRef × Merger)
    → (feed_to o cfg f file digest start).valid_dirs ≡ start.1.valid_dirs
unfolding feed_to write_dir
valid_dirs-feed_to o cfg f file digest (d, m) =
    let added = directory_add o cfg (m.dir d) file digest in
    valid_dirs-insert_complete d
      (write_dir d (record added { known_files = f ∷ added.known_files }) m)

-- Files are fed, and counted once.
abbrev Feeds : PathFunctions → RmCfg → Heap → List FileRef → Merger → Type 0
Feeds o cfg h files m =
    (m' : Merger) × (feed_all o cfg h files m ≡ some m')
    × Grows m m' 0 (length files)
    × (all (is_valid m') m'.valid_dirs ≡ true)
    × ((n : ℕ) → Counts m n → Counts m' (n + length files))

valid_dirs-feed_dir :
    (name : Bytes) (m : Merger)
    → ((feed_dir name m).1.valid_dirs ≡ m.valid_dirs)
      ⊎ ((feed_dir name m).1.valid_dirs ≡ (feed_dir name m).0 ∷ m.valid_dirs)
unfolding feed_dir make_known
valid_dirs-feed_dir name m = elim (Bool-cases (search m.dir_tree name == 0)) [
  | inl none_yet ↦ inr (rw none_yet refl)
  | inr there ↦ inl (rw there refl)
]

feed_dir_valid :
    (name : Bytes) (m : Merger)
    → IsMerger m
    → is_inner name ≡ true
    → all (is_valid m) m.valid_dirs ≡ true
    → all (is_valid (feed_dir name m).1) (feed_dir name m).1.valid_dirs ≡ true
feed_dir_valid name m w inner valid =
    let path : is_path name ≡ true = ground (arith, inner) in
    let (g, (small, named)) = feed_dir-Found name m w path in
    let m' = (feed_dir name m).1 in
    let old = all_valid-Grows m m' 0 0 g m.valid_dirs valid in
    elim (valid_dirs-feed_dir name m) [
      | inl same ↦ subst (λ ds. all (is_valid m') ds ≡ true) (sym same) old
      | inr new ↦
          subst (λ ds. all (is_valid m') ds ≡ true) (sym new)
            (rw (lt→ltb (feed_dir name m).0 m'.fresh small, named, inner, old) refl)
    ]

feed_lem :
    (o : PathFunctions) (cfg : RmCfg) (h : Heap) (f : FileRef) (m : Merger)
    → IsMerger m
    → all (is_valid m) m.valid_dirs ≡ true
    → IsFed o h f
    → (m' : Merger) × (feed o cfg h f m ≡ some m')
      × Grows m m' 0 1
      × (all (is_valid m') m'.valid_dirs ≡ true)
      × ((n : ℕ) → Counts m n → Counts m' (n + 1))
unfolding feed
feed_lem o cfg h f m w valid fed = elim (Option-cases (h.file f).digest) [
  | inl missing ↦ absurd (ground (arith, missing, fed.0))
  | inr (digest, e) ↦
      let name = o.get_dirname (h.file f).path in
      let (g, (small, named)) = feed_dir-Found name m w (ground (arith, fed.1)) in
      let start = feed_dir name m in
      let k = feed_to-Grows o cfg f (h.file f) digest start.0 start.1 g.merger small in
      let m' = feed_to o cfg f (h.file f) digest start in
      (
        m',
        ap (λ r. elim r [ none ↦ none | some b ↦ some (feed_to o cfg f (h.file f) b start) ]) e,
        Grows-trans m start.1 m' 0 0 0 1 g k,
        subst (λ ds. all (is_valid m') ds ≡ true)
            (sym (valid_dirs-feed_to o cfg f (h.file f) digest start))
            (all_valid-Grows start.1 m' 0 1 k start.1.valid_dirs
              (feed_dir_valid name m w fed.1 valid)),
        λ n c.
            Counts-feed_to o cfg f (h.file f) digest start.0 start.1 n (Counts-feed_dir name m n c)
              small,
      )
]

feed_all_step :
    (o : PathFunctions) (cfg : RmCfg) (h : Heap) (f : FileRef) (files : List FileRef)
    (m m' : Merger)
    → feed o cfg h f m ≡ some m'
    → feed_all o cfg h (f ∷ files) m ≡ feed_all o cfg h files m'
unfolding feed_all
feed_all_step o cfg h f files m m' e =
    ap (λ r. elim r [ none ↦ none | some m2 ↦ feed_all o cfg h files m2 ]) e

feed_all_lem :
    (o : PathFunctions) (cfg : RmCfg) (h : Heap) (files : List FileRef) (m : Merger)
    → IsMerger m
    → all (is_valid m) m.valid_dirs ≡ true
    → All (IsFed o h) files
    → Feeds o cfg h files m
unfolding feed_all
feed_all_lem o cfg h [] m w valid fed =
    (m, refl, Grows-refl m w, valid, λ n c. subst (Counts m) (omega arith) c)
feed_all_lem o cfg h (f ∷ files) m w valid fed =
    let (m', e, g, valid', counted) = feed_lem o cfg h f m w valid fed.0 in
    let (m'', e', g', valid'', counted') = feed_all_lem o cfg h files m' g.merger valid' fed.1 in
    (
      m'',
      feed_all_step o cfg h f files m m' e ∙ e',
      subst (λ k. Grows m m'' 0 k) (omega arith) (Grows-trans m m' m'' 0 1 0 (length files) g g'),
      valid'',
      λ n c. subst (Counts m'') (omega arith) (counted' (n + 1) (counted n c)),
    )

merger_new-IsMerger : (count_tree : RmTrie) → IsMerger (merger_new count_tree)
unfolding search search_node search_at
merger_new-IsMerger count_tree = record {
  nonzero = omega arith;
  known = λ p path there. absurd (empty (elements p) there);
}
  where
    empty :
        (es : List Bytes)
        → ((elim (search_at es init.root) [ none ↦ 0 | some n ↦ data_of n ]) == 0) ≢ false
    empty [] e = cc
    empty (x ∷ es) e = cc

-- Files are fed to a new merger, each with a digest and below the root directory, and then the
-- directories are merged. Then the calls end. The directories count exactly the files that were fed, and
-- after the merging those that are not merged into another count at most as many: no file is counted
-- twice. This is for paths on which GLib gives the
-- parent, and a sort that only reorders.
pub finish-open_files :
    (sort : (DirRef → DirRef → ℤ) → List DirRef → List DirRef)
    → IsSort sort
    → (o : PathFunctions) → IsPaths o
    → (cfg : RmCfg) (h : Heap) (count_tree : RmTrie) (files : List FileRef) → All (IsFed o h) files
    → (m : Merger) × (m' : Merger) × (feed_all o cfg h files (merger_new count_tree) ≡ some m)
      × (finish sort o cfg h m ≡ some m')
      × (open_files m ≡ length files)
      × (open_files m' ≤ length files)
unfolding finish open_files
finish-open_files sort is_sort o l cfg h count_tree files fed =
    let start = merger_new count_tree in
    let (m, e, g, valid, counted) =
      feed_all_lem o cfg h files start (merger_new-IsMerger count_tree) refl fed in
    let c : DirRef → DirRef → ℤ = λ da db. neg (sort_paths m.dir da db) in
    let sorted = sort c m.valid_dirs in
    let m1 = record m { valid_dirs = sorted } in
    let (m', e', k) =
      cluster_all_lem o l cfg h sorted m1
        (record { nonzero = g.merger.nonzero; known = g.merger.known })
        (all-perm (is_valid m) (is_sort.perm c m.valid_dirs) valid) in
    let all_counted = (counted 0 (record { unmerged = λ d. refl; total = refl })).total in
    (m, m', e, e', omega (arith, all_counted), omega (arith, g.bound, k.bound))
