-- ===== src/Treemerge/Merger/Exact.antt =====
-- While files are fed, lib/treemerge.c has merged no directory, and each file is counted.
use mathlib.Core.Path.{subst}
use rmlint.Common.{
  ℕ, ◌+◌, ◌<◌, ◌≡◌, refl, ap, true, false, List, ◌∷◌, ◌==◌, arith, Bool-cases, inl, inr,
}
use rmlint.Cfg.{Bytes, RmCfg}
use rmlint.File.{FileRef, RmFile}
use rmlint.Trie.{search}
use rmlint.Treemerge.Directory.{DirRef, Directory, PathFunctions, directory_add}
use rmlint.Treemerge.Merger.{
  Merger, write_dir, make_known, push_result, insert_dir, insert_complete, is_complete, feed_dir,
  fed_directory, feed_to,
}
use rmlint.Treemerge.Merger.Store.{unmerged, open_files, open_sum-write, open_sum_beyond, at_fresh}

-- No directory is merged into another, and n files are counted.
pub record Counts (m : Merger) (n : ℕ) : Type 0 where
  pub unmerged : (d : DirRef) → (m.dir d).was_merged ≡ false
  pub total : open_files m ≡ n

unmerged_count : (d : Directory) → d.was_merged ≡ false → unmerged d ≡ d.dupe_count
unmerged_count d e = rw e refl

-- a directory is overwritten that is not merged either
Counts-write_dir :
    (d : DirRef) (v : Directory) (m : Merger) (n k : ℕ)
    → Counts m n
    → d < m.fresh
    → v.was_merged ≡ false
    → v.dupe_count ≡ (m.dir d).dupe_count + k
    → Counts (write_dir d v m) (n + k)
unfolding write_dir open_files
Counts-write_dir d v m n k c small alone more = record {
  unmerged = λ e. elim (Bool-cases (e == d)) [
    | inl here ↦ rw here alone
    | inr there ↦ rw there (c.unmerged e)
  ];
  total = omega (
    arith,
    open_sum-write m.dir d v m.fresh small,
    c.total,
    unmerged_count v alone,
    unmerged_count (m.dir d) (c.unmerged d),
    more,
  );
}

Counts-make_known :
    (v : Directory) (m : Merger) (valid : List DirRef) (n : ℕ)
    → Counts m n
    → v.was_merged ≡ false
    → v.dupe_count ≡ 0
    → Counts (make_known v (record m { valid_dirs = valid })) n
unfolding make_known open_files
Counts-make_known v m valid n c alone empty = record {
  unmerged = λ e. elim (Bool-cases (e == m.fresh)) [
    | inl here ↦ rw here alone
    | inr there ↦ rw there (c.unmerged e)
  ];
  total = omega (
    arith,
    open_sum_beyond m.dir m.fresh v m.fresh,
    ap unmerged (at_fresh (record m { valid_dirs = valid }) v),
    unmerged_count v alone,
    empty,
    c.total,
  );
}

pub Counts-feed_dir :
    (name : Bytes) (m : Merger) (n : ℕ) → Counts m n → Counts (feed_dir name m).1 n
unfolding feed_dir fed_directory
Counts-feed_dir name m n c = elim (Bool-cases (search m.dir_tree name == 0)) [
  | inl none_yet ↦
      subst (λ r. Counts r n) (rw none_yet refl)
        (Counts-make_known (fed_directory name m) m (m.fresh ∷ m.valid_dirs) n c refl refl)
  | inr there ↦ subst (λ r. Counts r n) (rw there refl) c
]

Counts-insert_complete :
    (d : DirRef) (m : Merger) (n : ℕ) → Counts m n → d < m.fresh → Counts (insert_complete d m) n
unfolding insert_complete insert_dir open_files
Counts-insert_complete d m n c small = elim (Bool-cases (is_complete (m.dir d))) [
  | inr open_ ↦ subst (λ r. Counts r n) (rw open_ refl) c
  | inl full ↦ elim (Bool-cases (m.dir d).was_inserted) [
    | inl before ↦ subst (λ r. Counts r n) (rw (full, before) refl) c
    | inr new ↦
        let m' = record m { result_table = push_result m.dir d m.result_table } in
        let same = record (m.dir d) { was_inserted = true } in
        let w =
          Counts-write_dir d same m' n 0 (record { unmerged = c.unmerged; total = c.total }) small
            (c.unmerged d) (omega arith) in
        subst (λ r. Counts r n) (rw (full, new) refl)
          (subst (λ k. Counts (write_dir d same m') k) (omega arith) w)
  ]
]

-- A file is fed to a known directory.
pub Counts-feed_to :
    (o : PathFunctions) (cfg : RmCfg) (f : FileRef) (file : RmFile) (digest : Bytes) (d : DirRef)
    (m : Merger) (n : ℕ)
    → Counts m n
    → d < m.fresh
    → Counts (feed_to o cfg f file digest (d, m)) (n + 1)
unfolding feed_to directory_add write_dir
Counts-feed_to o cfg f file digest d m n c small =
    let added = directory_add o cfg (m.dir d) file digest in
    let v = record added { known_files = f ∷ added.known_files } in
    Counts-insert_complete d (write_dir d v m) (n + 1)
      (Counts-write_dir d v m n 1 c small (c.unmerged d) refl) small
