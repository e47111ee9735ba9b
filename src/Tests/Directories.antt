-- ===== src/Tests/Directories.antt =====
-- Directories that are counted, fed and merged.
use rmlint.Common.{
  any, sum_by, ℕ, ◌+◌, ◌≤◌, ◌<◌, ◌≡◌, ◌↔◌, refl, true, false, List, [], ◌∷◌, Option, none, some,
  ◌==◌, if◌then◌else◌, arith, length, Option-cases, inl, inr, take,
}
use rmlint.Cfg.{Bytes}
use rmlint.File.Types.{RmFile, FileRef, Heap}
use rmlint.Trie.{init, search, elements, split_path, iter_init}
use rmlint.Treemerge.Count.{pointer_to_int, count_files, minus_one}
use rmlint.Treemerge.Count.Laws.{Counted, with_paths, times_above, is_error_in, count_files-count}
use rmlint.Treemerge.Count.Above.{path_of, dir_of, directories_above}
use rmlint.Treemerge.Directory.{
  Directory, PathFunctions, new_directory, directory_equal, same_digest,
}
use rmlint.Treemerge.Directory.Equal.{directory_equal_iff, SameKeys}
use rmlint.Treemerge.Merger.{Merger, merger_new, feed_all, finish}
use rmlint.Treemerge.Merger.Store.{open_files, is_path}
use rmlint.Treemerge.Merger.Feeding.{IsPaths, is_inner}
use rmlint.Treemerge.Merger.Once.{finish-open_files}
use rmlint.Tests.Data.{insertion_sort, insertion_sort-IsSort}
use rmlint.Tests.Samples.{cfg, file_named}

abbrev dir_a : Bytes
dir_a = b'/' ∷ b'a' ∷ []

-- /a/x, /a/b/y and a broken /c/z
abbrev counted : List Counted
counted =
    ((b'x' ∷ []) ∷ (b'a' ∷ []) ∷ [], false)
    ∷ ((b'y' ∷ []) ∷ (b'b' ∷ []) ∷ (b'a' ∷ []) ∷ [], false)
    ∷ ((b'z' ∷ []) ∷ (b'c' ∷ []) ∷ [], true)
    ∷ []

count_files-count_example :
    pointer_to_int (search (count_files init (with_paths counted)) dir_a)
    ≡ (if any (is_error_in dir_a) counted then minus_one else sum_by (times_above dir_a) counted)
unfolding directories_above dir_of path_of elements split_path iter_init
count_files-count_example = count_files-count dir_a counted (refl, (refl, (refl, tt))) (omega arith)

-- two of them lie in /a, and the root has an error
counted_in_a : pointer_to_int (search (count_files init (with_paths counted)) dir_a) ≡ 2
unfolding directories_above dir_of path_of elements split_path iter_init
counted_in_a = count_files-count dir_a counted (refl, (refl, (refl, tt))) (omega arith)

abbrev with_digests : List Bytes → Directory
with_digests set = record (new_directory dir_a) {
  dupe_count = 2;
  hash_set = set;
  digest = some (3 ∷ []);
}

directory_equal_iff_example :
    let d1 = with_digests ((1 ∷ []) ∷ (2 ∷ []) ∷ []) in
    let d2 = with_digests ((2 ∷ []) ∷ (1 ∷ []) ∷ []) in
    (directory_equal d1 d2 ≡ true) ↔ (
      (d1.dupe_count ≡ d2.dupe_count)
      × (same_digest d1.digest d2.digest ≡ true)
      × SameKeys d1.hash_set d2.hash_set)
directory_equal_iff_example =
    directory_equal_iff (with_digests ((1 ∷ []) ∷ (2 ∷ []) ∷ []))
      (with_digests ((2 ∷ []) ∷ (1 ∷ []) ∷ [])) refl refl

-- the bytes before the last slash
abbrev before_slash : Bytes → Option Bytes
before_slash [] = none
before_slash (b ∷ s) = elim (before_slash s) [
  | some d ↦ some (b ∷ d)
  | none ↦ if b == b'/' then some [] else none
]

abbrev dir_or_root : Option Bytes → Bytes
dir_or_root none = b'.' ∷ []
dir_or_root (some []) = b'/' ∷ []
dir_or_root (some (b ∷ d)) = b ∷ d

length-before_slash : (s d : Bytes) → before_slash s ≡ some d → length d < length s
length-before_slash [] d e = cc
length-before_slash (b ∷ s) d e = elim (Option-cases (before_slash s)) [
  | inl none_ ↦ ground (arith, none_, e)
  | inr (d', found) ↦ ground (arith, found, e, length-before_slash s d' found)
]

abbrev paths : PathFunctions
paths = record {
  blake2b = λ s. take 64 s;
  get_dirname = λ p. dir_or_root (before_slash p);
  get_basename = λ p. p;
}

-- what holds of the parent of a path, by the slash that is found behind its first byte
abbrev Parent : Bytes → Bytes → Type 0
Parent q d =
    (is_path d ≡ true) × (length d ≤ length q + 1) × (1 ≤ length q → length d < length q + 1)

parent_lem :
    (b : ℕ) (q : Bytes) → is_path (b ∷ q) ≡ true → Parent q (dir_or_root (before_slash (b ∷ q)))
parent_lem b q path = elim (Option-cases (before_slash q)) [
  | inl none_ ↦
      let slash : (b == b'/') ≡ true = ground (arith, path) in
      rw (none_, slash) (refl, omega arith, λ h. omega (arith, h))
  | inr (d, found) ↦
      let small = length-before_slash q d found in
      rw found (ground (arith, path, small), omega (arith, small), λ h. omega (arith, small))
]

paths-IsPaths : IsPaths paths
paths-IsPaths = record { path = λ p e. path_lem p e; shorter = λ p e. shorter_lem p e }
  where
    path_lem : (p : Bytes) → is_path p ≡ true → is_path (dir_or_root (before_slash p)) ≡ true
    path_lem [] e = cc
    path_lem (b ∷ q) e = (parent_lem b q e).0

    shorter_lem : (p : Bytes) → is_inner p ≡ true → length (dir_or_root (before_slash p)) < length p
    shorter_lem [] e = cc
    shorter_lem (b ∷ []) e = ground (arith, e)
    shorter_lem (b ∷ c ∷ q) e =
        omega (arith, (parent_lem b (c ∷ q) (ground (arith, e))).2 (omega arith))

-- Two files with digests below /a.
abbrev fed_files : FileRef → RmFile
fed_files i = record (file_named (b'x' ∷ []) i false) {
  path =
      if i == 1
      then b'/' ∷ b'a' ∷ b'/' ∷ b'x' ∷ []
      else b'/' ∷ b'a' ∷ b'/' ∷ b'b' ∷ b'/' ∷ b'y' ∷ [];
  digest = some (1 ∷ 2 ∷ 3 ∷ 4 ∷ 5 ∷ 6 ∷ 7 ∷ 8 ∷ []);
}

abbrev fed_heap : Heap
fed_heap = record { file = fed_files; queue = λ q. []; fresh = 0 }

finish-open_files_example :
    (m : Merger) × (m' : Merger) × (feed_all paths cfg fed_heap
        (1 ∷ 2 ∷ [])
        (merger_new (count_files init (with_paths counted)))
      ≡ some m)
    × (finish insertion_sort paths cfg fed_heap m ≡ some m')
    × (open_files m ≡ 2)
    × (open_files m' ≤ 2)
finish-open_files_example =
    finish-open_files insertion_sort insertion_sort-IsSort paths paths-IsPaths cfg fed_heap
      (count_files init (with_paths counted)) (1 ∷ 2 ∷ []) ((refl, refl), ((refl, refl), tt))
