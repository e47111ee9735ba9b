-- ===== src/Replay/Write/Distinct.antt =====
-- No path is written twice: what rm_parrot_fix_duplicate_entries leaves.
use mathlib.Core.Path.{subst}
use rmlint.Common.{
  ◌≡◌, ◌≢◌, refl, sym, ◌∙◌, ap, Bool, true, false, not, ◌&&◌, List, [], ◌∷◌, Option, none, some,
  All, any, ◌||◌, arith, Bool-cases, inl, inr, if◌then◌else◌,
}
use rmlint.Common.Perms.{any-perm}
use rmlint.Common.Sign.{ℤ, gt0, lt0, IsOrder, IsOrder-on}
use rmlint.Cfg.{Bytes}
use rmlint.Glib.{IsSort, Ordered}
use rmlint.File.Types.{FileRef, Heap, RmFile}
use rmlint.Preprocess.Cluster.{bytes_equal}
use rmlint.Trie.Laws.{bytes_equal→eq}
use rmlint.Replay.Groups.{is_part}
use rmlint.Replay.Write.{
  strcmp, Queue, sort_by_path, is_last_path, drop_same_path, fix_duplicate_entries,
}

strcmp_flip : (s t : Bytes) → gt0 (strcmp t s) ≡ lt0 (strcmp s t)
strcmp_flip [] [] = refl
strcmp_flip [] (b ∷ t) = refl
strcmp_flip (a ∷ s) [] = refl
strcmp_flip (a ∷ s) (b ∷ t) = ground (arith, strcmp_flip s t)

strcmp_trans :
    (s t u : Bytes) → gt0 (strcmp s t) ≡ false → gt0 (strcmp t u) ≡ false → gt0 (strcmp s u) ≡ false
strcmp_trans [] t [] h k = refl
strcmp_trans [] t (c ∷ u) h k = refl
strcmp_trans (a ∷ s) [] u h k = cc
strcmp_trans (a ∷ s) (b ∷ t) [] h k = cc
strcmp_trans (a ∷ s) (b ∷ t) (c ∷ u) h k = ground (arith, h, k, strcmp_trans s t u)

strcmp-IsOrder : IsOrder strcmp
strcmp-IsOrder = record { flip = strcmp_flip; trans = strcmp_trans }

strcmp_antisym :
    (s t : Bytes) → gt0 (strcmp s t) ≡ false → gt0 (strcmp t s) ≡ false → bytes_equal s t ≡ true
strcmp_antisym [] [] h k = refl
strcmp_antisym [] (b ∷ t) h k = cc
strcmp_antisym (a ∷ s) [] h k = cc
strcmp_antisym (a ∷ s) (b ∷ t) h k = ground (arith, h, k, strcmp_antisym s t)

no_both : true ≢ false
no_both e = cc

later :
    (path between p : Bytes)
    → gt0 (strcmp path between) ≡ false
    → bytes_equal between path ≡ false
    → gt0 (strcmp between p) ≡ false
    → bytes_equal p path ≡ false
later path between p before differs after = elim (Bool-cases (bytes_equal p path)) [
  | inr other ↦ other
  | inl same ↦
      let back : gt0 (strcmp between path) ≡ false =
        ap (λ q. gt0 (strcmp between q)) (sym (bytes_equal→eq p path same)) ∙ after in
      absurd (no_both (sym (strcmp_antisym between path back before) ∙ differs))
]

module _ (h : Heap) where
  -- a file other than a part of a directory, and not of this path
  abbrev pub IsOther : Bytes → FileRef → Type 0
  IsOther path f = is_part (h.file f).lint_type ≡ false → bytes_equal (h.file f).path path ≡ false

  -- No two files that are no parts of a directory have the same path.
  abbrev pub AreDistinct : List FileRef → Type 0
  AreDistinct [] = Unit
  AreDistinct (f ∷ files) =
      (is_part (h.file f).lint_type ≡ false → All (IsOther (h.file f).path) files)
      × AreDistinct files

  -- the last path is not after the files
  abbrev IsBefore : Option Bytes → List FileRef → Type 0
  IsBefore none files = Unit
  IsBefore (some path) files = All (λ f. gt0 (strcmp path (h.file f).path) ≡ false) files

  abbrev AreOther : Option Bytes → List FileRef → Type 0
  AreOther none files = Unit
  AreOther (some path) files = All (IsOther path) files

  drop_all {κ} :
      (P : FileRef → Type κ) (last : Option Bytes) (files : List FileRef)
      → All P files
      → All P (drop_same_path h last files)
  unfolding drop_same_path
  drop_all P last [] holds = tt
  drop_all P last (f ∷ files) holds =
      let rest =
        drop_all P (if is_part (h.file f).lint_type then last else some (h.file f).path) files
          holds.1 in
      elim (Bool-cases (not (is_part (h.file f).lint_type) && is_last_path last (h.file f).path)) [
        | inl twice ↦ rw (drop_same_path, twice) rest
        | inr once ↦ rw (drop_same_path, once) (holds.0, rest)
      ]

  all-IsOther :
      (path between : Bytes) (files : List FileRef)
      → gt0 (strcmp path between) ≡ false
      → bytes_equal between path ≡ false
      → All (λ f. gt0 (strcmp between (h.file f).path) ≡ false) files
      → All (IsOther path) files
  all-IsOther path between [] before differs after = tt
  all-IsOther path between (f ∷ files) before differs after = (
    λ whole. later path between (h.file f).path before differs after.0,
    all-IsOther path between files before differs after.1,
  )

  IsBefore-tail :
      (last : Option Bytes) (f : FileRef) (files : List FileRef)
      → IsBefore last (f ∷ files)
      → IsBefore last files
  IsBefore-tail none f files before = tt
  IsBefore-tail (some path) f files before = before.1

  other_part :
      (last : Option Bytes) (f : FileRef) (files : List FileRef)
      → is_part (h.file f).lint_type ≡ true
      → AreOther last files
      → AreOther last (f ∷ files)
  other_part none f files part others = tt
  other_part (some path) f files part others =
      (λ whole. absurd (no_both (sym part ∙ whole)), others)

  same_last :
      (last : Option Bytes) (path : Bytes) (files : List FileRef)
      → is_last_path last path ≡ true
      → All (IsOther path) files
      → AreOther last files
  same_last none path files same others = cc
  same_last (some p) path files same others =
      subst (λ q. All (IsOther q) files) (bytes_equal→eq path p same) others

  new_last :
      (last : Option Bytes) (f : FileRef) (files : List FileRef)
      → is_last_path last (h.file f).path ≡ false
      → IsBefore last (f ∷ files)
      → All (λ i. gt0 (strcmp (h.file f).path (h.file i).path) ≡ false) files
      → AreOther last (f ∷ drop_same_path h (some (h.file f).path) files)
  new_last none f files differs before after = tt
  new_last (some path) f files differs before after = (
    λ whole. differs,
    drop_all (IsOther path) (some (h.file f).path) files
        (all-IsOther path (h.file f).path files before.0 differs after),
  )

  drop_distinct :
      (last : Option Bytes) (files : List FileRef)
      → Ordered (sort_by_path h) files
      → IsBefore last files
      → AreDistinct (drop_same_path h last files) × AreOther last (drop_same_path h last files)
  unfolding drop_same_path
  drop_distinct none [] ordered before = (tt, tt)
  drop_distinct (some path) [] ordered before = (tt, tt)
  drop_distinct last (f ∷ files) ordered before =
      let file : RmFile = h.file f in
      elim (Bool-cases (is_part file.lint_type)) [
        | inl part ↦
            let rest = drop_distinct last files ordered.1 (IsBefore-tail last f files before) in
            rw (drop_same_path, part)
              (
                (λ whole. absurd (no_both (sym part ∙ whole)), rest.0),
                other_part last f _ part rest.1,
              )
        | inr whole ↦
            let rest = drop_distinct (some file.path) files ordered.1 ordered.0 in
            elim (Bool-cases (is_last_path last file.path)) [
              | inl twice ↦
                  rw (drop_same_path, whole, twice)
                    (rest.0, same_last last file.path _ twice rest.1)
              | inr once ↦
                  rw (drop_same_path, whole, once)
                    ((λ _. rest.1, rest.0), new_last last f files once before ordered.0)
            ]
      ]

  bytes_equal_sym : (s t : Bytes) → bytes_equal s t ≡ bytes_equal t s
  bytes_equal_sym [] [] = refl
  bytes_equal_sym [] (b ∷ t) = refl
  bytes_equal_sym (a ∷ s) [] = refl
  bytes_equal_sym (a ∷ s) (b ∷ t) = ground (arith, bytes_equal_sym s t)

  abbrev pub has_path : Bytes → FileRef → Bool
  has_path p f = bytes_equal (h.file f).path p

  same_path_twice :
      (last : Option Bytes) (path p : Bytes) (left all_there : Bool)
      → is_last_path last path ≡ true
      → (left || bytes_equal p path) ≡ (all_there || bytes_equal p path)
      → (left || is_last_path last p) ≡ ((bytes_equal path p || all_there) || is_last_path last p)
  same_path_twice none path p left all_there same e = cc
  same_path_twice (some q) path p left all_there same e =
      let there : bytes_equal p q ≡ bytes_equal p path =
        ap (bytes_equal p) (sym (bytes_equal→eq path q same)) in
      ground (arith, there, e, bytes_equal_sym path p)

  -- what is dropped has the path of a file that stays, or the last one
  drop_has_path :
      (p : Bytes) (last : Option Bytes) (files : List FileRef)
      → (any (has_path p) (drop_same_path h last files) || is_last_path last p)
        ≡ (any (has_path p) files || is_last_path last p)
  unfolding drop_same_path
  drop_has_path p last [] = refl
  drop_has_path p last (f ∷ files) =
      let file : RmFile = h.file f in
      elim (Bool-cases (is_part file.lint_type)) [
        | inl part ↦ rw (drop_same_path, part) (ground (arith, drop_has_path p last files))
        | inr whole ↦
            let rest = drop_has_path p (some file.path) files in
            elim (Bool-cases (is_last_path last file.path)) [
              | inl twice ↦
                  rw (drop_same_path, whole, twice)
                    (same_path_twice last file.path p _ _ twice rest)
              | inr once ↦
                  rw (drop_same_path, whole, once)
                    (ground (arith, rest, bytes_equal_sym file.path p))
            ]
      ]

-- If the sort permutes its argument and orders it, no two files that are left have the same path, parts
-- of directories aside, and each path that stood in the group still stands there.
pub fix_duplicate_entries-AreDistinct :
    (sort : (FileRef → FileRef → ℤ) → List FileRef → List FileRef) (h : Heap) (group : Queue)
    → IsSort sort
    → (let after = (fix_duplicate_entries sort h group).links in
        AreDistinct h after
        × ((p : Bytes) → any (has_path h p) after ≡ any (has_path h p) group.links))
unfolding fix_duplicate_entries
fix_duplicate_entries-AreDistinct sort h group is_sort =
    let sorted = sort (sort_by_path h) group.links in
    let order : IsOrder (sort_by_path h) = IsOrder-on (λ f. (h.file f).path) strcmp-IsOrder in
    (
      (drop_distinct h none sorted (is_sort.ordered (sort_by_path h) group.links order) tt).0,
      λ p. ground (
        arith,
        drop_has_path h p none sorted,
        any-perm (has_path h p) (is_sort.perm (sort_by_path h) group.links),
      ),
    )
