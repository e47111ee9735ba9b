-- ===== src/Shredder/Original/Report.antt =====
-- What is reported of a finished group, and which files stay originals (lib/shredder.c).
use rmlint.Common.{
  ℕ, ◌≤◌, ◌≡◌, ◌≢◌, refl, ◌∙◌, ap, Bool, true, false, not, ◌||◌, List, [], ◌∷◌, Option, ◌==◌, any,
  count, arith, Bool-cases, ◌⊎◌, inl, inr,
}
use rmlint.Common.Perms.{count-perm}
use rmlint.Cfg.{RmCfg}
use rmlint.Glib.{Glib, Pattern, IsSort}
use rmlint.File.Types.{RmFile, FileRef, Heap}
use rmlint.Shredder.Types.{GroupStatus, finishing}
use rmlint.Shredder.Original.{
  SortFiles, Totals, is_protected, tag_file, tag_files, tag_head, find_original, has_duplicates,
  forward_to_output, tag_link, tag_links, tag_rejects, tag_hardlink_rejects,
  shred_cmp_orig_criteria,
}
use rmlint.Shredder.Original.Kept.{
  original, original-write, file-tag_files, find_original-keeps, sorted_nonempty,
}

-- an original stays one
tag_head_mono :
    (t : GroupStatus) (files : List FileRef) (h : Heap) (i : FileRef)
    → original h i ≡ true
    → original (tag_head t files h) i ≡ true
unfolding tag_head
tag_head_mono t [] h i o = o
tag_head_mono t (f ∷ files) h i o = ground (arith, original-write f i h)

tag_link_mono :
    (q : Option ℕ) (f : FileRef) (h : Heap) (i : FileRef)
    → original h i ≡ true
    → original (tag_link q f h) i ≡ true
unfolding tag_link
tag_link_mono q f h i o = ground (arith, original-write f i h)

tag_links_mono :
    (q : Option ℕ) (files : List FileRef) (h : Heap) (i : FileRef)
    → original h i ≡ true
    → original (tag_links q files h) i ≡ true
unfolding tag_links
tag_links_mono q [] h i o = o
tag_links_mono q (f ∷ files) h i o =
    tag_links_mono q files (tag_link q f h) i (tag_link_mono q f h i o)

tag_rejects_mono :
    (files : List FileRef) (h : Heap) (i : FileRef)
    → original h i ≡ true
    → original (tag_rejects files h) i ≡ true
unfolding tag_rejects
tag_rejects_mono [] h i o = o
tag_rejects_mono (f ∷ files) h i o = ground (
  arith,
  tag_rejects_mono files h i,
  tag_links_mono (h.file f).hardlinks files h i,
  tag_rejects_mono files (tag_links (h.file f).hardlinks files h) i,
)

tag_hardlink_rejects_mono :
    (cfg : RmCfg) (t : GroupStatus) (all_files files : List FileRef) (h : Heap)
    → any (original h) files ≡ true
    → any (original (tag_hardlink_rejects cfg t all_files h)) files ≡ true
tag_hardlink_rejects_mono cfg t all_files [] h o = o
tag_hardlink_rejects_mono cfg t all_files (f ∷ files) h o =
    ground (arith, one, tag_hardlink_rejects_mono cfg t all_files files h)
  where
    one : original h f ≡ true → original (tag_hardlink_rejects cfg t all_files h) f ≡ true
    one p = unfold tag_hardlink_rejects in ground (arith, tag_rejects_mono all_files h f)

original-tag_files :
    (cfg : RmCfg) (files : List FileRef) (h : Heap) (i : FileRef)
    → any (λ f. f == i) files ≡ true
    → original (tag_files cfg finishing files h) i ≡ is_protected cfg (h.file i)
original-tag_files cfg files h i m =
    let plain : (tag_file cfg finishing (h.file i)).is_original ≡ is_protected cfg (h.file i) =
      unfold tag_file in refl in
    let tagged : (tag_files cfg finishing files h).file i ≡ tag_file cfg finishing (h.file i) =
      file-tag_files cfg finishing files h i ∙ rw m in
    ap (λ (v : RmFile). v.is_original) tagged ∙ plain

any-of_member :
    (i : FileRef) (files : List FileRef)
    → 1 ≤ count (λ f. f == i) files
    → any (λ f. f == i) files ≡ true
any-of_member i [] h = absurd (omega arith)
any-of_member i (f ∷ files) h = ground (arith, any-of_member i files)

count_member :
    (i : FileRef) (files : List FileRef)
    → any (λ f. f == i) files ≡ true
    → 1 ≤ count (λ f. f == i) files
count_member i [] h = cc
count_member i (f ∷ files) h = ground (arith, count_member i files)

count_none :
    (p : FileRef → Bool) (files : List FileRef)
    → ((i : FileRef) → any (λ f. f == i) files ≡ true → p i ≡ false)
    → count p files ≡ 0
count_none p [] h = refl
count_none p (f ∷ files) h = ground (arith, h f, count_none p files (λ i m. h i (ground arith)))

tag_head_finishing :
    (t : GroupStatus) (x i : FileRef) (files : List FileRef) (h : Heap)
    → t ≡ finishing
    → original h x ≡ false
    → original (tag_head t (x ∷ files) h) i ≡ ((i == x) || original h i)
unfolding tag_head
tag_head_finishing t x i files h e o = ground (arith, original-write x i h)

-- The head of a list in which no other file is an original, once it is tagged.
one_original :
    (t : GroupStatus) (files : List FileRef) (h : Heap)
    → t ≡ finishing
    → files ≢ []
    → ((i : FileRef) → count (λ f. f == i) files ≤ 1)
    → ((i : FileRef) → any (λ f. f == i) files ≡ true → original h i ≡ false)
    → count (original (tag_head t files h)) files ≡ 1
one_original t [] h e ne once off = absurd (ne refl)
one_original t (x ∷ files) h e ne once off =
    let plain : original h x ≡ false = off x (ground arith) in
    ground (
      arith,
      tag_head_finishing t x x files h e plain,
      count_none (original (tag_head t (x ∷ files) h)) files λ i m.
          ground (
            arith,
            tag_head_finishing t x i files h e plain,
            once i,
            count_member i files m,
            off i,
          ),
    )

report_keeps :
    (files : List FileRef) (h : Heap)
    → any (original h) files ≡ true
    → let out = (forward_to_output files h).0 in
      (out ≡ []) ⊎ ((any (original h) out ≡ true) × (any (λ f. not (original h f)) out ≡ true))
report_keeps files h o = elim (Bool-cases (has_duplicates h files)) [
  | inl e ↦
      inr (unfold forward_to_output in rw e o, unfold forward_to_output has_duplicates in rw e e)
  | inr e ↦ inl (unfold forward_to_output in rw e refl)
]

module _ (sort : SortFiles) (l : IsSort sort) (g : Glib) (cfg : RmCfg) (patterns : List Pattern)
    (files : List FileRef) (h : Heap) (t : Totals) where
  -- Every file of a finished group that --keep-all-tagged or --keep-all-untagged protects is an
  -- original after the choice.
  find_original-protects :
      (i : FileRef)
      → any (λ f. f == i) files ≡ true
      → is_protected cfg (h.file i) ≡ true
      → original (find_original sort g cfg patterns finishing files h t).heap i ≡ true
  unfolding find_original
  find_original-protects i m p =
      let tagged = tag_files cfg finishing files h in
      let order = λ (a : FileRef) (b : FileRef).
        shred_cmp_orig_criteria g cfg patterns (tagged.file a) (tagged.file b) in
      tag_head_mono finishing (sort order files) tagged i (original-tag_files cfg files h i m ∙ p)

  -- With neither --keep-all-tagged nor --keep-all-untagged, and with every file in it once, a
  -- finished group that is not empty keeps exactly one file.
  find_original-one :
      files ≢ []
      → ((i : FileRef) → count (λ f. f == i) files ≤ 1)
      → cfg.keep_all_tagged ≡ false
      → cfg.keep_all_untagged ≡ false
      → let r = find_original sort g cfg patterns finishing files h t in
        count (original r.heap) r.files ≡ 1
  unfolding find_original
  find_original-one ne once tagged untagged =
      one_original finishing _ _ refl (sorted_nonempty l _ files ne)
        (λ i. omega (arith, count-perm (λ f. f == i) (l.perm _ files), once i))
        λ i m.
          original-tag_files cfg files h i (
            any-of_member i files
              (omega (arith, count-perm (λ f. f == i) (l.perm _ files), count_member i _ m)))
          ∙ ground arith

  -- What a finished group that is not empty sends to the output, after the originals are chosen
  -- and hardlinked duplicates tagged, is either nothing, or a list with at least one original and
  -- at least one duplicate.
  pub forward_to_output-keeps :
      files ≢ []
      → let r = find_original sort g cfg patterns finishing files h t in
        let tagged = tag_hardlink_rejects cfg finishing r.files r.heap in
        let out = (forward_to_output r.files tagged).0 in
        (out ≡ [])
        ⊎ ((any (original tagged) out ≡ true) × (any (λ f. not (original tagged f)) out ≡ true))
  forward_to_output-keeps ne =
      let r = find_original sort g cfg patterns finishing files h t in
      report_keeps r.files _ (
        tag_hardlink_rejects_mono cfg finishing r.files r.files r.heap
          (find_original-keeps sort l g cfg patterns files h t ne))
