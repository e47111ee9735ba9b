-- ===== src/Shredder/Original.antt =====
-- The choice of the originals in a finished group (lib/shredder.c): what is kept, and what is reported
-- as a duplicate.
pub mod Kept
pub mod Report
use rmlint.Common.{
  ℕ, zero, suc, ◌+◌, ◌%◌, ◌^◌, Bool, true, false, not, ◌&&◌, ◌||◌, List, [], ◌∷◌, Option, none,
  some, ◌==◌, if◌then◌else◌, any, length,
}
use rmlint.Common.Sign.{ℤ, pos, return_if_nonzero, sign_diff_bool, is_zero}
use rmlint.Cfg.{RmCfg}
use rmlint.Glib.{Glib, Pattern}
use rmlint.File.Types.{RmFile, FileRef, Heap, write_file, unique_file, QueueRef}
use rmlint.Preprocess.Compare.{pp_cmp_orig_criteria}
use rmlint.Shredder.Types.{GroupStatus, finishing}

-- rm_shred_cmp_orig_criteria
unfoldable pub shred_cmp_orig_criteria : Glib → RmCfg → List Pattern → RmFile → RmFile → ℤ
unfolding pp_cmp_orig_criteria
shred_cmp_orig_criteria g cfg patterns a b =
    return_if_nonzero (sign_diff_bool a.is_symlink b.is_symlink) (
      return_if_nonzero
        (if cfg.keep_all_untagged || cfg.must_match_untagged
          then sign_diff_bool a.is_prefd b.is_prefd
          else pos 0)
        (return_if_nonzero (pp_cmp_orig_criteria g cfg patterns a b)
          (sign_diff_bool b.is_original a.is_original)))

-- The counters of the session that the results change, uint64 values.
pub record Totals : Type 0 where
  pub dup_counter : ℕ
  pub dup_group_counter : ℕ
  pub duplicate_bytes : ℕ
  pub unique_bytes : ℕ
  pub original_bytes : ℕ
  pub total_lint_size : ℕ

abbrev pub add64 : ℕ → ℕ → ℕ
add64 a b = (a + b) % 2 ^ 64

abbrev pub is_finishing : GroupStatus → Bool
is_finishing finishing = true
is_finishing _ = false

-- A file that --keep-all-tagged or --keep-all-untagged protects.
abbrev pub is_protected : RmCfg → RmFile → Bool
is_protected cfg file =
    (file.is_prefd && cfg.keep_all_tagged) || (not file.is_prefd && cfg.keep_all_untagged)

-- One round of the loop of rm_shred_group_find_original, on one file.
unfoldable pub tag_file : RmCfg → GroupStatus → RmFile → RmFile
tag_file cfg status file =
    if is_finishing status
    then record file { is_original = is_protected cfg file }
    else record file { is_original = false; lint_type = unique_file }

-- The loop, on the heap and the totals.
unfoldable pub tag_files : RmCfg → GroupStatus → List FileRef → Heap → Heap
unfolding tag_file write_file
tag_files cfg status [] h = h
tag_files cfg status (f ∷ files) h =
    tag_files cfg status files (write_file f (tag_file cfg status (h.file f)) h)

unfoldable pub count_unique : GroupStatus → List FileRef → Heap → Totals → Totals
count_unique status [] h t = t
count_unique status (f ∷ files) h t = count_unique status files h (
    if is_finishing status
    then t
    else record t { unique_bytes = add64 t.unique_bytes (h.file f).actual_file_size })

-- `if(!headfile->is_original && status == RM_SHRED_GROUP_FINISHING) headfile->is_original = true`
unfoldable pub tag_head : GroupStatus → List FileRef → Heap → Heap
unfolding write_file
tag_head status [] h = h
tag_head status (f ∷ files) h =
    if not (h.file f).is_original && is_finishing status
    then write_file f (record (h.file f) { is_original = true }) h
    else h

abbrev pub SortFiles : Type 0
SortFiles = (FileRef → FileRef → ℤ) → List FileRef → List FileRef

-- What rm_shred_group_find_original leaves: the sorted group, the files, the totals.
pub record Ranked : Type 0 where
  pub files : List FileRef
  pub heap : Heap
  pub totals : Totals

-- rm_shred_group_find_original; `sort` is g_queue_sort.
unfoldable pub find_original :
    SortFiles → Glib → RmCfg → List Pattern → GroupStatus → List FileRef → Heap → Totals → Ranked
unfolding tag_files count_unique tag_head shred_cmp_orig_criteria
find_original sort g cfg patterns status files h t =
    let tagged = tag_files cfg status files h in
    let sorted =
      sort (λ a b. shred_cmp_orig_criteria g cfg patterns (tagged.file a) (tagged.file b)) files in
    record {
      files = sorted;
      heap = tag_head status sorted tagged;
      totals = count_unique status files h t;
    }

-- rm_shred_has_duplicates
unfoldable pub has_duplicates : Heap → List FileRef → Bool
has_duplicates h files = any (λ f. not (h.file f).is_original) files

-- The output of rm_shred_forward_to_output: the files written, and their twin counts.
unfoldable pub set_twin_counts : ℕ → List FileRef → Heap → Heap
unfolding write_file
set_twin_counts n [] h = h
set_twin_counts n (f ∷ files) h =
    set_twin_counts n files (write_file f (record (h.file f) { twin_count = pos n }) h)

unfoldable pub forward_to_output : List FileRef → Heap → List FileRef × Heap
unfolding has_duplicates set_twin_counts
forward_to_output files h =
    if has_duplicates h files then (files, set_twin_counts (length files) files h) else ([], h)

-- dupe->hardlinks == orig->hardlinks
abbrev pub same_queue : Option QueueRef → Option QueueRef → Bool
same_queue none none = true
same_queue none (some q) = false
same_queue (some p) none = false
same_queue (some p) (some q) = p == q

-- One round of the inner loop of rm_shred_tag_hardlink_rejects.
unfoldable pub tag_link : Option QueueRef → FileRef → Heap → Heap
unfolding write_file
tag_link links f h =
    if same_queue (h.file f).hardlinks links
    then write_file f (record (h.file f) { is_original = true }) h
    else h

-- The inner loop.
unfoldable pub tag_links : Option QueueRef → List FileRef → Heap → Heap
unfolding tag_link
tag_links links [] h = h
tag_links links (f ∷ files) h = tag_links links files (tag_link links f h)

-- The outer loop: it ends at the first file that is no original.
unfoldable pub tag_rejects : List FileRef → Heap → Heap
unfolding tag_links
tag_rejects [] h = h
tag_rejects (f ∷ files) h =
    let with_links = tag_rejects files (tag_links (h.file f).hardlinks files h) in
    let without_links = tag_rejects files h in
    if not (h.file f).is_original
    then h
    else elim (h.file f).hardlinks [ none ↦ without_links | some q ↦ with_links ]

-- rm_shred_tag_hardlink_rejects
unfoldable pub tag_hardlink_rejects : RmCfg → GroupStatus → List FileRef → Heap → Heap
unfolding tag_rejects
tag_hardlink_rejects cfg status files h =
    if cfg.keep_hardlinked_dupes && is_finishing status then tag_rejects files h else h

-- RM_FILE_IS_HARDLINK
abbrev pub is_hardlink : Heap → FileRef → Option QueueRef → Bool
is_hardlink h f none = false
is_hardlink h f (some q) = elim (h.queue q) [ [] ↦ true | ◌∷◌ head rest ↦ not (head == f) ]

-- rm_shred_dupe_totals
unfoldable pub dupe_totals : Heap → FileRef → Totals → Totals
dupe_totals h f t =
    let size = (h.file f).actual_file_size in
    if not (h.file f).is_original
    then record t {
      dup_counter = add64 t.dup_counter 1;
      duplicate_bytes = add64 t.duplicate_bytes size;
      total_lint_size =
          if not (is_hardlink h f (h.file f).hardlinks) && is_zero (h.file f).outer_link_count
          then add64 t.total_lint_size size
          else t.total_lint_size;
    }
    else record t { original_bytes = add64 t.original_bytes size }

-- g_queue_foreach(group->held_files, rm_shred_dupe_totals)
unfoldable pub group_totals : Heap → List FileRef → Totals → Totals
unfolding dupe_totals
group_totals h [] t = t
group_totals h (f ∷ files) t = group_totals h files (dupe_totals h f t)
