-- ===== src/Treemerge/Merger/Feeding.antt =====
-- The steps of lib/treemerge.c that count: a file is fed, a directory is merged into another.
use mathlib.Core.Path.{subst}
use rmlint.Common.{
  ℕ, ◌+◌, ◌≤◌, ◌<◌, ◌≡◌, ◌≢◌, refl, ◌∙◌, ap, Bool, true, false, not, ◌&&◌, List, [], ◌∷◌, ◌==◌,
  ==_iff, if◌then◌else◌, arith, ltb, length, Bool-cases, inl, inr,
}
use rmlint.Cfg.{Bytes, RmCfg}
use rmlint.File.{FileRef, Heap, RmFile}
use rmlint.Preprocess.Cluster.{bytes_equal}
use rmlint.Trie.{search}
use rmlint.Treemerge.Directory.{DirRef, Directory, PathFunctions, directory_add, absorb_subdir}
use rmlint.Treemerge.Merger.{
  Merger, write_dir, make_known, feed_dir, fed_directory, parent_directory, feed_to, parent_of,
  add_subdir, file_digests,
}
use rmlint.Treemerge.Merger.Store.{
  is_path, unmerged, open_files, Known, IsMerger, Grows, Grows-refl, Grows-trans, write_dir-Grows,
  make_known-Grows, insert_complete-Grows, at_fresh,
}

-- Such a path, but not the root directory.
abbrev pub is_inner : Bytes → Bool
is_inner p = is_path p && not (bytes_equal p (b'/' ∷ []))

-- What GLib documents of g_path_get_dirname, on such paths.
pub record IsPaths (o : PathFunctions) : Type 0 where
  pub path : (p : Bytes) → is_path p ≡ true → is_path (o.get_dirname p) ≡ true
  pub shorter : (p : Bytes) → is_inner p ≡ true → length (o.get_dirname p) < length p

-- The directories that files were fed to are known, and none is the root directory.
abbrev pub is_valid : Merger → DirRef → Bool
is_valid m d = ltb d m.fresh && is_inner (m.dir d).dirname

-- what the start of both calls gives: a known directory of that name
abbrev pub Found : Merger → Bytes → DirRef × Merger → Type 0
Found m name (d, m') = Grows m m' 0 0 × Known m' name d

old_dir :
    (name : Bytes) (m : Merger)
    → IsMerger m
    → is_path name ≡ true
    → (search m.dir_tree name == 0) ≡ false
    → Found m name (search m.dir_tree name, m)
old_dir name m w path there = (Grows-refl m w, w.known name path there)

new_dir :
    (name : Bytes) (m : Merger) (v : Directory) (valid : List DirRef)
    → IsMerger m
    → is_path name ≡ true
    → v.dirname ≡ name
    → unmerged v ≡ 0
    → Found m name (m.fresh, make_known v (record m { valid_dirs = valid }))
unfolding open_files make_known
new_dir name m v valid w path named empty =
    let m' = record m { valid_dirs = valid } in
    let g =
      make_known-Grows v m' (record { nonzero = w.nonzero; known = w.known })
        (ap is_path named ∙ path) empty in
    (
      record { merger = g.merger; bound = g.bound; keeps = g.keeps },
      (omega arith, ap (λ u. u.dirname) (at_fresh m' v) ∙ named),
    )

pub parent_of-Found :
    (name : Bytes) (m : Merger) → IsMerger m → is_path name ≡ true → Found m name (parent_of name m)
unfolding parent_of parent_directory
parent_of-Found name m w path = elim (Bool-cases (search m.dir_tree name == 0)) [
  | inl none_yet ↦
      subst (Found m name) (rw none_yet refl)
        (new_dir name m (parent_directory name m) m.valid_dirs w path refl refl)
  | inr there ↦ subst (Found m name) (rw there refl) (old_dir name m w path there)
]

pub feed_dir-Found :
    (name : Bytes) (m : Merger) → IsMerger m → is_path name ≡ true → Found m name (feed_dir name m)
unfolding feed_dir fed_directory
feed_dir-Found name m w path = elim (Bool-cases (search m.dir_tree name == 0)) [
  | inl none_yet ↦
      subst (Found m name) (rw none_yet refl)
        (new_dir name m (fed_directory name m) (m.fresh ∷ m.valid_dirs) w path refl refl)
  | inr there ↦ subst (Found m name) (rw there refl) (old_dir name m w path there)
]

untouched : (m : Merger) (d e : DirRef) (v : Directory) → e ≢ d → (write_dir d v m).dir e ≡ m.dir e
unfolding write_dir
untouched m d e v apart = elim (Bool-cases (e == d)) [
  | inl here ↦ absurd (apart ((==_iff e d).0 here))
  | inr there ↦ rw there refl
]

not_merged : (d : Directory) → d.was_merged ≡ false → unmerged d ≡ d.dupe_count
not_merged d e = rw e refl

-- the files of a directory after others are added
merged_sum : (b : Bool) (x n : ℕ) → (if b then 0 else x + n) + 0 ≤ (if b then 0 else x) + n
merged_sum true x n = omega arith
merged_sum false x n = omega arith

-- A directory is merged into another one.
pub add_subdir-Grows :
    (o : PathFunctions) (cfg : RmCfg) (h : Heap) (parent subdir : DirRef) (m : Merger)
    → IsMerger m
    → parent < m.fresh
    → subdir < m.fresh
    → subdir ≢ parent
    → Grows m (add_subdir o cfg h parent subdir m) 0 0
unfolding add_subdir absorb_subdir
add_subdir-Grows o cfg h parent subdir m w p s apart = elim (Bool-cases (m.dir subdir).was_merged) [
  | inl before ↦ subst (λ r. Grows m r 0 0) (rw before refl) (Grows-refl m w)
  | inr new ↦
      let v =
        absorb_subdir o cfg subdir (m.dir subdir) (file_digests h (m.dir subdir).known_files)
          (m.dir parent) in
      let m' = write_dir parent v m in
      let n = (m.dir subdir).dupe_count in
      let g : Grows m m' 0 n =
        write_dir-Grows parent v m 0 n w p refl
          (merged_sum (m.dir parent).was_merged (m.dir parent).dupe_count n) in
      let k : Grows m' (write_dir subdir (record (m'.dir subdir) { was_merged = true }) m') n 0 =
        write_dir-Grows subdir (record (m'.dir subdir) { was_merged = true }) m' n 0 g.merger s refl
          (omega (
            arith,
            ap unmerged (untouched m parent subdir v apart),
            not_merged (m.dir subdir) new,
          )) in
      let both = Grows-trans m m' _ 0 n n 0 g k in
      subst (λ r. Grows m r 0 0) (rw new refl)
        (record { merger = both.merger; bound = omega (arith, both.bound); keeps = both.keeps })
]

-- The rest of the call that feeds a file.
pub feed_to-Grows :
    (o : PathFunctions) (cfg : RmCfg) (f : FileRef) (file : RmFile) (digest : Bytes) (d : DirRef)
    (m : Merger)
    → IsMerger m
    → d < m.fresh
    → Grows m (feed_to o cfg f file digest (d, m)) 0 1
unfolding feed_to directory_add
feed_to-Grows o cfg f file digest d m w small =
    let added = directory_add o cfg (m.dir d) file digest in
    let v = record added { known_files = f ∷ added.known_files } in
    let g = write_dir-Grows d v m 0 1 w small refl (ground arith) in
    Grows-trans m (write_dir d v m) _ 0 1 0 0 g
      (insert_complete-Grows d (write_dir d v m) g.merger small)
