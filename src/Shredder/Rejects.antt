-- ===== src/Shredder/Rejects.antt =====
-- How lib/shredder.c splits a finished group: files that lie too far apart in time, or that share a base
-- name, go to a group of their own.
pub mod Counts
pub mod Held
pub mod Times
pub mod Names
use rmlint.Common.{
  ℕ, zero, suc, ◌+◌, ◌-◌, Bool, true, false, not, ◌&&◌, List, [], ◌∷◌, Option, none, some, ◌==◌,
  if◌then◌else◌, bit, is_some,
}
use rmlint.Common.Sign.{ℤ, pos, negsuc, pos_part, gt0, is_zero, float_sign_diff}
use rmlint.Cfg.{RmCfg, DigestType}
use rmlint.Glib.{Glib}
use rmlint.File.Types.{RmFile, FileRef, Heap, write_file}
use rmlint.File.Links.{without}
use rmlint.Preprocess.Cluster.{sub64}
use rmlint.Preprocess.Compare.{basenames_cmp, mtime_tol}
use rmlint.Shredder.Types.{ShredGroup, ShredTag, GroupRef}
use rmlint.Shredder.Group.{Sifter, push_file, push_fields, group_new}
use rmlint.Shredder.Original.{SortFiles, is_finishing}

-- g_queue_remove on the held files
abbrev pub without_held : FileRef → Option (List FileRef) → Option (List FileRef)
without_held f none = none
without_held f (some held) = some (without f held)

-- What the splitting changes: the group, the rejects, which hold a sifter's state, and the files.
pub record Split : Type 0 where
  pub group : ShredGroup
  pub rejects : Option Sifter
  pub heap : Heap

-- The group's side of rm_shred_group_transfer; the counters are gsize values.
unfoldable pub take_out : FileRef → RmFile → ShredGroup → ShredGroup
take_out f file group = record group {
  held_files = without_held f group.held_files;
  num_files = sub64 group.num_files 1;
  n_pref = sub64 group.n_pref (bit file.is_prefd);
  n_npref = sub64 group.n_npref (bit (not file.is_prefd));
  n_new = sub64 group.n_new (bit (not file.is_new));
}

-- rm_shred_group_transfer, to rejects that are there; `none` is a crash.
unfoldable pub transfer :
    Glib → RmCfg → GroupRef → FileRef → ShredGroup → Sifter → Heap → Option Split
unfolding push_file push_fields take_out
transfer g cfg r f source dest h =
    let pushed = push_fields r f h in
    elim (push_file g cfg pushed [] f false dest) [
      | none ↦ none
      | some (dest', waiting) ↦ some (record {
        group = take_out f (pushed.file f) source;
        rejects = some dest';
        heap = pushed;
      })
    ]

-- rm_shred_create_rejects
unfoldable pub create_rejects : ℕ → DigestType → ShredTag → FileRef → Split → Split
unfolding group_new write_file
create_rejects page_size type_of_digest tag f s =
    let file = s.heap.file f in
    let copied = record file {
      digest = if is_some s.group.digest then s.group.digest else file.digest;
    } in
    let new = group_new copied (some s.group) page_size type_of_digest in
    record s {
      rejects = some (record {
        group = record (new.0) { status = s.group.status; parent = s.group.parent };
        parent = none;
        tag = tag;
        scheduled = [];
      });
      heap = write_file f new.1 s.heap;
    }

-- next_file->mtime - curr->mtime > mtime_window + MTIME_TOL
abbrev pub is_gap : RmCfg → RmFile → RmFile → Bool
is_gap cfg curr next =
    gt0 (float_sign_diff next.mtime curr.mtime (pos_part cfg.mtime_window + mtime_tol))

-- `else if(next_file && ...)` of the loop of rm_shred_mtime_rejects; `make` creates the rejects.
abbrev pub start_rejects :
    RmCfg → (FileRef → Split → Split) → FileRef → List FileRef → Split → Split
start_rejects cfg make curr [] s = s
start_rejects cfg make curr (next ∷ rest) s =
    if is_gap cfg (s.heap.file curr) (s.heap.file next) then make next s else s

-- The loop of rm_shred_mtime_rejects.
unfoldable pub split_times :
    Glib → RmCfg → GroupRef → (FileRef → Split → Split) → List FileRef → Split → Option Split
unfolding transfer
split_times g cfg r make [] s = some s
split_times g cfg r make (curr ∷ rest) s = elim s.rejects [
  | none ↦ split_times g cfg r make rest (start_rejects cfg make curr rest s)
  | some dest ↦ elim (transfer g cfg r curr s.group dest s.heap) [
    | none ↦ none
    | some s' ↦ split_times g cfg r make rest s'
  ]
]

abbrev pub is_negative : ℤ → Bool
is_negative (pos n) = false
is_negative (negsuc n) = true

abbrev pub held_list : Option (List FileRef) → List FileRef
held_list none = []
held_list (some held) = held

-- rm_shred_mtime_rejects; `sort` is g_queue_sort. A NULL queue is refused before.
unfoldable pub mtime_rejects :
    SortFiles
    → Glib
    → RmCfg
    → GroupRef
    → (FileRef → Split → Split)
    → ShredGroup
    → Heap
    → Option Split
unfolding split_times
mtime_rejects sort g cfg r make group h =
    let sorted =
      sort (λ a b. float_sign_diff (h.file a).mtime (h.file b).mtime mtime_tol)
        (held_list group.held_files) in
    if is_negative cfg.mtime_window
    then some (record { group = group; rejects = none; heap = h })
    else split_times g cfg r make sorted
        (record { group = record group { held_files = some sorted }; rejects = none; heap = h })

-- The rejects, created if there are none.
abbrev pub rejects_or : (Split → Split) → Option Sifter → Split → Split
rejects_or make none s = make s
rejects_or make (some dest) s = s

-- The file goes to the rejects that were created.
unfoldable pub move_file : Glib → RmCfg → GroupRef → FileRef → Split → Option Split
unfolding transfer
move_file g cfg r f s = elim s.rejects [
  | none ↦ none
  | some dest ↦ transfer g cfg r f s.group dest s.heap
]

-- The loop of rm_shred_basename_rejects.
unfoldable pub split_names :
    Glib
    → RmCfg
    → GroupRef
    → (FileRef → Split → Split)
    → FileRef
    → List FileRef
    → Split
    → Option Split
unfolding move_file basenames_cmp
split_names g cfg r make headfile [] s = some s
split_names g cfg r make headfile (curr ∷ rest) s =
    let skipped = split_names g cfg r make headfile rest s in
    let moved : Option Split = elim (move_file g cfg r curr (rejects_or (make curr) s.rejects s)) [
      | none ↦ none
      | some s' ↦ split_names g cfg r make headfile rest s'
    ] in
    if is_zero (basenames_cmp g (s.heap.file curr) (s.heap.file headfile)) then moved else skipped

-- rm_shred_basename_rejects; `none` is a crash, as it is on an empty queue.
unfoldable pub basename_rejects :
    Glib → RmCfg → GroupRef → (FileRef → Split → Split) → ShredGroup → Heap → Option Split
unfolding split_names
basename_rejects g cfg r make group h =
    let start : Split = record { group = group; rejects = none; heap = h } in
    if cfg.unmatched_basenames && is_finishing group.status
    then elim (held_list group.held_files) [
      | [] ↦ none
      | headfile ∷ rest ↦ split_names g cfg r make headfile rest start
    ]
    else some start
