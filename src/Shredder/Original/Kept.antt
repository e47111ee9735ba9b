-- ===== src/Shredder/Original/Kept.antt =====
-- The files that are kept as originals, for rm_shred_group_find_original of lib/shredder.c.
use native.Mathlib.Decide.{ℕ_discrete}
use rmlint.Common.{
  ◌≡◌, ◌≢◌, refl, ◌∙◌, ap, Bool, true, false, ◌||◌, List, [], ◌∷◌, ◌==◌, if◌then◌else◌, any, length,
  arith, Bool-cases, inl, inr,
}
use rmlint.Common.Perms.{length-perm}
use rmlint.Common.Sign.{ℤ}
use rmlint.Cfg.{RmCfg}
use rmlint.Glib.{Glib, Pattern, IsSort}
use rmlint.File.Types.{RmFile, FileRef, Heap, write_file}
use rmlint.Shredder.Types.{GroupStatus, finishing}
use rmlint.Shredder.Original.{
  SortFiles, Totals, tag_file, tag_files, tag_head, find_original, is_finishing,
}

file-write_file :
    (f i : FileRef) (v : RmFile) (h : Heap)
    → (write_file f v h).file i ≡ (if i == f then v else h.file i)
unfolding write_file
file-write_file f i v h = refl

write-same :
    (f i : FileRef) (change : RmFile → RmFile) (h : Heap)
    → f ≡ i
    → (write_file f (change (h.file f)) h).file i ≡ change (h.file i)
write-same f i change h e =
    let test : (i == f) ≡ true = ground arith in
    file-write_file f i (change (h.file f)) h ∙ rw test (ap (λ k. change (h.file k)) e)

write-other : (f i : FileRef) (v : RmFile) (h : Heap) → f ≢ i → (write_file f v h).file i ≡ h.file i
write-other f i v h ne =
    let test : (i == f) ≡ false = ground arith in file-write_file f i v h ∙ rw test

tag_file_idem :
    (cfg : RmCfg) (t : GroupStatus) (v : RmFile)
    → tag_file cfg t (tag_file cfg t v) ≡ tag_file cfg t v
tag_file_idem cfg t v = elim (Bool-cases (is_finishing t)) [
  | inl e ↦ unfold tag_file in rw e refl
  | inr e ↦ unfold tag_file in rw e refl
]

-- After the loop each file of the group is tagged once, and no other file is touched.
pub file-tag_files :
    (cfg : RmCfg) (t : GroupStatus) (files : List FileRef) (h : Heap) (i : FileRef)
    → (tag_files cfg t files h).file i
      ≡ (if any (λ f. f == i) files then tag_file cfg t (h.file i) else h.file i)
unfolding tag_files
file-tag_files cfg t [] h i = refl
file-tag_files cfg t (f ∷ files) h i =
    file-tag_files cfg t files (write_file f (tag_file cfg t (h.file f)) h) i
    ∙ choose (any (λ k. k == i) files) (ℕ_discrete f i)
  where
    v : RmFile
    v = (write_file f (tag_file cfg t (h.file f)) h).file i

    same :
        (b : Bool)
        → (if b then tag_file cfg t (tag_file cfg t (h.file i)) else tag_file cfg t (h.file i))
          ≡ tag_file cfg t (h.file i)
    same true = tag_file_idem cfg t (h.file i)
    same false = refl

    choose :
        (b : Bool)
        → Dec (f ≡ i)
        → (if b then tag_file cfg t v else v)
          ≡ (if (f == i) || b then tag_file cfg t (h.file i) else h.file i)
    choose b (yes e) =
        let here : v ≡ tag_file cfg t (h.file i) = write-same f i (tag_file cfg t) h e in
        let test : (f == i) ≡ true = ground arith in rw (test, here) (same b)
    choose b (no ne) =
        let there : v ≡ h.file i = write-other f i (tag_file cfg t (h.file f)) h ne in
        let test : (f == i) ≡ false = ground arith in rw (test, there)

-- Whether a file is an original, at an address.
abbrev pub original : Heap → FileRef → Bool
original h f = (h.file f).is_original

pub original-write :
    (f i : FileRef) (h : Heap)
    → original (write_file f (record (h.file f) { is_original = true }) h) i
      ≡ ((i == f) || original h i)
unfolding write_file
original-write f i h = ground arith

tag_head-original :
    (t : GroupStatus) (files : List FileRef) (h : Heap)
    → t ≡ finishing
    → files ≢ []
    → any (original (tag_head t files h)) files ≡ true
unfolding tag_head
tag_head-original t [] h e ne = absurd (ne refl)
tag_head-original t (f ∷ files) h e ne = ground (arith, original-write f f h)

-- sorting leaves no group empty
pub sorted_nonempty :
    {sort : SortFiles} (l : IsSort sort) (c : FileRef → FileRef → ℤ) (files : List FileRef)
    → files ≢ []
    → sort c files ≢ []
sorted_nonempty l c [] ne e = ne refl
sorted_nonempty l c (f ∷ files) ne e =
    ground (arith, length-perm (l.perm c (f ∷ files)), ap length e)

module _ (sort : SortFiles) (l : IsSort sort) (g : Glib) (cfg : RmCfg) (patterns : List Pattern)
    (files : List FileRef) (h : Heap) (t : Totals) where
  -- A finished group that is not empty always keeps a file: after the choice of originals with a
  -- sort that gives back the same files, one of its files is an original, whatever the options and
  -- the criteria.
  pub find_original-keeps :
      files ≢ []
      → let r = find_original sort g cfg patterns finishing files h t in
        any (original r.heap) r.files ≡ true
  unfolding find_original
  find_original-keeps ne = tag_head-original finishing _ _ refl (sorted_nonempty l _ files ne)

  -- With a sort that gives back the same files, the choice of originals in a finished group
  -- neither loses nor adds a file.
  find_original-length :
      let r = find_original sort g cfg patterns finishing files h t in length r.files ≡ length files
  unfolding find_original
  find_original-length = length-perm (l.perm _ files)
