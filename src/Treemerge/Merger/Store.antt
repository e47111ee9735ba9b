-- ===== src/Treemerge/Merger/Store.antt =====
-- The store of directories of lib/treemerge.c: what is written to it, and the files that it counts.
use mathlib.Core.Path.{subst}
use mathlib.Core.List.{append_assoc}
use rmlint.Common.{
  ℕ, zero, suc, ◌+◌, ◌-◌, ◌≤◌, ◌<◌, ◌≡◌, refl, sym, ◌∙◌, ap, Bool, true, false, List, [], ◌∷◌, ◌++◌,
  ◌&&◌, ltb, length, take, ◌==◌, ==_iff, if◌then◌else◌, arith, Bool-cases, inl, inr,
}
use rmlint.Cfg.{Bytes, path_max}
use rmlint.Trie.{elements, search, split_path, iter_init}
use rmlint.Trie.Laws.{same_path, same_path→eq, search-trie_insert}
use rmlint.Treemerge.Directory.{DirRef, Directory}
use rmlint.Treemerge.Merger.{
  Merger, write_dir, make_known, insert_dir, insert_complete, is_complete, push_result,
}

-- The files of a directory, if they are not counted in a parent.
abbrev pub unmerged : Directory → ℕ
unmerged d = if d.was_merged then 0 else d.dupe_count

-- The files that the first n directories count.
abbrev pub open_sum : (DirRef → Directory) → ℕ → ℕ
open_sum dir zero = 0
open_sum dir (suc n) = unmerged (dir n) + open_sum dir n

-- All files that are counted.
unfoldable pub open_files : Merger → ℕ
open_files m = open_sum m.dir m.fresh

abbrev pub Known : Merger → Bytes → DirRef → Type 0
Known m p d = (d < m.fresh) × ((m.dir d).dirname ≡ p)

-- An absolute path that fits the trie's buffer.
abbrev pub is_path : Bytes → Bool
is_path [] = false
is_path (b ∷ p) = (b == b'/') && ltb (length p + 1) path_max

-- What the trie knows is a directory of that name.
pub record IsMerger (m : Merger) : Type 0 where
  pub nonzero : 0 < m.fresh
  pub known :
      (p : Bytes)
      → is_path p ≡ true
      → (search m.dir_tree p == 0) ≡ false
      → Known m p (search m.dir_tree p)

-- From the one state to the other, `j` files fewer and `k` files more are counted at most; directories
-- keep their names.
pub record Grows (m m' : Merger) (j k : ℕ) : Type 0 where
  pub merger : IsMerger m'
  pub bound : open_files m' + j ≤ open_files m + k
  pub keeps : (d : DirRef) → d < m.fresh → (d < m'.fresh) × ((m'.dir d).dirname ≡ (m.dir d).dirname)

pub Grows-refl : (m : Merger) → IsMerger m → Grows m m 0 0
Grows-refl m w = record { merger = w; bound = omega arith; keeps = λ d small. (small, refl) }

pub Grows-trans :
    (m m' m'' : Merger) (j k j' k' : ℕ)
    → Grows m m' j k
    → Grows m' m'' j' k'
    → Grows m m'' (j + j') (k + k')
Grows-trans m m' m'' j k j' k' g h = record {
  merger = h.merger;
  bound = omega (arith, g.bound, h.bound);
  keeps = λ d small.
      let first = g.keeps d small in
      let second = h.keeps d first.0 in (second.0, second.1 ∙ first.1);
}

pub open_sum_beyond :
    (dir : DirRef → Directory) (d : DirRef) (v : Directory) (n : ℕ)
    → n ≤ d
    → open_sum (λ i. if i == d then v else dir i) n ≡ open_sum dir n
open_sum_beyond dir d v zero small = refl
open_sum_beyond dir d v (suc n) small = ground (arith, open_sum_beyond dir d v n)

pub open_sum-write :
    (dir : DirRef → Directory) (d : DirRef) (v : Directory) (n : ℕ)
    → d < n
    → open_sum (λ i. if i == d then v else dir i) n + unmerged (dir d) ≡ open_sum dir n + unmerged v
open_sum-write dir d v zero small = omega arith
open_sum-write dir d v (suc n) small = elim (Bool-cases (n == d)) [
  | inl here ↦
      let same : n ≡ d = (==_iff n d).0 here in
      rw (here, open_sum)
        (omega
          (arith, open_sum_beyond dir d v n (omega (arith, same)), ap (λ i. unmerged (dir i)) same))
  | inr there ↦
      rw (there, open_sum) (omega (arith, open_sum-write dir d v n (ground (arith, there, small))))
]

written :
    (dir : DirRef → Directory) (d e : DirRef) (v : Directory)
    → v.dirname ≡ (dir d).dirname
    → (if e == d then v else dir e).dirname ≡ (dir e).dirname
written dir d e v same = elim (Bool-cases (e == d)) [
  | inl here ↦ rw here (same ∙ ap (λ i. (dir i).dirname) (sym ((==_iff e d).0 here)))
  | inr there ↦ rw there refl
]

-- A directory is overwritten that keeps its name.
pub write_dir-Grows :
    (d : DirRef) (v : Directory) (m : Merger) (j k : ℕ)
    → IsMerger m
    → d < m.fresh
    → v.dirname ≡ (m.dir d).dirname
    → unmerged v + j ≤ unmerged (m.dir d) + k
    → Grows m (write_dir d v m) j k
unfolding write_dir open_files
write_dir-Grows d v m j k w small same bound = record {
  merger = record {
    nonzero = w.nonzero;
    known = λ p path there.
        let old = w.known p path there in
        (old.0, written m.dir d (search m.dir_tree p) v same ∙ old.1);
  };
  bound = omega (arith, open_sum-write m.dir d v m.fresh small, bound);
  keeps = λ e there. (there, written m.dir d e v same);
}

-- what an address below the fresh one holds
below_fresh :
    (m : Merger) (v : Directory) (d : DirRef) → d < m.fresh → (make_known v m).dir d ≡ m.dir d
unfolding make_known
below_fresh m v d small = elim (Bool-cases (d == m.fresh)) [
  | inl here ↦ absurd (ground (arith, here, small))
  | inr there ↦ rw there refl
]

pub at_fresh : (m : Merger) (v : Directory) → (make_known v m).dir m.fresh ≡ v
unfolding make_known
at_fresh m v = ground arith

-- the elements of a path, put together again
join : List Bytes → Bytes
join [] = []
join (e ∷ es) = b'/' ∷ (e ++ join es)

join-split_path : (e p : Bytes) → join (split_path e p) ≡ b'/' ∷ (e ++ p)
unfolding join split_path
join-split_path e [] = refl
join-split_path e (b ∷ p) = elim (Bool-cases (b == b'/')) [
  | inl slash ↦ rw (slash, join-split_path [] p, (==_iff b b'/').0 slash) refl
  | inr other ↦ rw (other, join-split_path (e ++ b ∷ []) p, append_assoc e (b ∷ []) p) refl
]

take_all : (n : ℕ) (p : Bytes) → length p ≤ n → take n p ≡ p
take_all zero [] h = refl
take_all zero (b ∷ p) h = absurd (omega (arith, h))
take_all (suc n) [] h = refl
take_all (suc n) (b ∷ p) h = ap (λ q. b ∷ q) (take_all n p (omega (arith, h)))

join-elements : (p : Bytes) → is_path p ≡ true → join (elements p) ≡ p
unfolding elements iter_init
join-elements [] path = cc
join-elements (b ∷ p) path =
    let slash : (b == b'/') ≡ true = ground (arith, path) in
    rw (slash, take_all (path_max - 1) p (ground (arith, path)), (==_iff b b'/').0 slash)
      (join-split_path [] p)

-- Such paths with the same elements are the same.
same_elements :
    (p q : Bytes)
    → is_path p ≡ true
    → is_path q ≡ true
    → same_path (elements p) (elements q) ≡ true
    → p ≡ q
same_elements p q path path' e =
    sym (join-elements p path)
    ∙ ap join (same_path→eq (elements p) (elements q) e)
    ∙ join-elements q path'

-- what the trie finds after a new directory is made known
Known-after :
    (v : Directory) (m : Merger)
    → IsMerger m
    → is_path v.dirname ≡ true
    → (p : Bytes) → is_path p ≡ true
    → (search (make_known v m).dir_tree p == 0) ≡ false
    → Known (make_known v m) p (search (make_known v m).dir_tree p)
unfolding make_known
Known-after v m w named p path there =
    let insertion = search-trie_insert m.dir_tree v.dirname m.fresh p in
    elim (Bool-cases (same_path (elements v.dirname) (elements p))) [
      | inl here ↦
          let found : search (make_known v m).dir_tree p ≡ m.fresh = insertion.0 ∙ rw here refl in
          subst (Known (make_known v m) p) (sym found) (
            omega arith,
            ap (λ u. u.dirname) (at_fresh m v) ∙ same_elements v.dirname p named path here,
          )
      | inr other ↦
          let found : search (make_known v m).dir_tree p ≡ search m.dir_tree p =
            insertion.0 ∙ rw other refl in
          let old = w.known p path (ap (λ n. n == 0) (sym found) ∙ there) in
          subst (Known (make_known v m) p) (sym found) (
            omega (arith, old.0),
            ap (λ u. u.dirname) (below_fresh m v (search m.dir_tree p) old.0) ∙ old.1,
          )
    ]

-- A new directory is made known.
pub make_known-Grows :
    (v : Directory) (m : Merger)
    → IsMerger m
    → is_path v.dirname ≡ true
    → unmerged v ≡ 0
    → Grows m (make_known v m) 0 0
unfolding make_known open_files
make_known-Grows v m w named empty = record {
  merger = record { nonzero = omega arith; known = Known-after v m w named };
  bound = omega (arith, open_sum_beyond m.dir m.fresh v m.fresh, ap unmerged (at_fresh m v), empty);
  keeps = λ e there. (omega (arith, there), ap (λ u. u.dirname) (below_fresh m v e there));
}

-- A directory is added to the results.
pub insert_dir-Grows :
    (d : DirRef) (m : Merger) → IsMerger m → d < m.fresh → Grows m (insert_dir d m) 0 0
unfolding insert_dir write_dir open_files
insert_dir-Grows d m w small = elim (Bool-cases (m.dir d).was_inserted) [
  | inl before ↦ subst (λ r. Grows m r 0 0) (rw before refl) (Grows-refl m w)
  | inr new ↦
      let m' = record m { result_table = push_result m.dir d m.result_table } in
      let g =
        write_dir-Grows d (record (m.dir d) { was_inserted = true }) m' 0 0
          (record { nonzero = w.nonzero; known = w.known }) small refl (omega arith) in
      subst (λ r. Grows m r 0 0) (rw new refl)
        (record { merger = g.merger; bound = g.bound; keeps = g.keeps })
]

pub insert_complete-Grows :
    (d : DirRef) (m : Merger) → IsMerger m → d < m.fresh → Grows m (insert_complete d m) 0 0
unfolding insert_complete
insert_complete-Grows d m w small = elim (Bool-cases (is_complete (m.dir d))) [
  | inl full ↦ subst (λ r. Grows m r 0 0) (rw full refl) (insert_dir-Grows d m w small)
  | inr open_ ↦ subst (λ r. Grows m r 0 0) (rw open_ refl) (Grows-refl m w)
]
