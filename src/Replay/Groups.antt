-- ===== src/Replay/Groups.antt =====
-- The groups of files that lib/replay.c reads from the results of earlier runs: rm_parrot_cage_load, and
-- groups of different results with the same checksum put together. The files that the reader delivers
-- are an argument; their digests are checksums that were read (RM_DIGEST_EXT), empty where there is none.
pub mod Marked
pub mod Loaded
mod Counted
pub mod Entries
pub mod Merged
pub mod Parted
pub mod Separated
use rmlint.Common.{
  ℕ, zero, suc, get_elem?, ◌==◌, Bool, true, false, not, ◌&&◌, ◌||◌, List, [], ◌∷◌, ◌++◌, Option,
  none, some, ltb, length, is_empty, if◌then◌else◌,
}
use rmlint.Common.Sign.{ℤ}
use rmlint.Cfg.{Bytes, RmCfg}
use rmlint.File.Types.{RmFile, FileRef, Heap, write_file, LintType, part_of_directory, lint_number}
use rmlint.Preprocess.Cluster.{bytes_equal}
use rmlint.Replay.Checks.{check_file}
use rmlint.Utilities.Queues.{queue_push_tail_queue}

-- Results that were opened: the devices of the paths, whether the results came after a //, whether
-- their files are to be packed into directories, and the files that rm_parrot_next delivers.
pub record Parrot : Type 0 where
  pub disk_ids : List ℕ
  pub is_prefd : Bool
  pub pack_directories : Bool
  pub files : List FileRef

pub record Cage : Type 0 where
  pub heap : Heap
  pub groups : List (List FileRef)
  pub parrots : List Parrot

-- The state of the loop of rm_parrot_cage_load.
pub record Loading : Type 0 where
  pub heap : Heap
  pub groups : List (List FileRef)
  pub group : List FileRef
  pub parts : List FileRef
  pub last_digest : Option Bytes

-- rm_parrot_cage_open
unfoldable pub cage_open : Heap → Cage
cage_open h = record { heap = h; groups = []; parrots = [] }

-- rm_parrot_cage_push_to_group
unfoldable pub cage_push_to_group : List (List FileRef) → List FileRef → List (List FileRef)
cage_push_to_group groups group = if is_empty group then groups else groups ++ (group ∷ [])

-- the bytes of file->digest
abbrev pub digest_of : RmFile → Bytes
digest_of file = elim file.digest [ none ↦ [] | some b ↦ b ]

abbrev pub is_part : LintType → Bool
is_part part_of_directory = true
is_part type = false

-- *last_digest, once there is one
abbrev pub last_or : Option Bytes → Bytes → Bytes
last_or none d = d
last_or (some last) d = last

-- A file that passed the checks joins the group, or starts the next one.
unfoldable pub add_file : FileRef → RmFile → Loading → Loading
unfolding cage_push_to_group
add_file f file l =
    let last = last_or l.last_digest (digest_of file) in
    if (is_empty (digest_of file) && file.is_original) || not (bytes_equal (digest_of file) last)
    then record l {
      groups = cage_push_to_group l.groups l.group;
      group = f ∷ [];
      last_digest = some (digest_of file);
    }
    else record l { group = l.group ++ (f ∷ []); last_digest = some last }

module _ (access : Bytes → ℤ → Bool) (cfg : RmCfg) where
  -- One round of the loop. That a file which fails the checks is freed (rm_file_destroy) is not a part
  -- of the model.
  unfoldable pub load_file : Parrot → FileRef → Loading → Loading
  unfolding check_file write_file add_file
  load_file polly f l =
      let file = l.heap.file f in
      let checked = check_file access cfg polly.disk_ids polly.is_prefd file.path file in
      let l' = record l { heap = write_file f checked.1 l.heap } in
      if not checked.0
      then l'
      else if is_part file.lint_type
      then record l' { parts = l.parts ++ (f ∷ []) }
      else add_file f checked.1 l'

  -- The loop.
  unfoldable pub load_files : Parrot → List FileRef → Loading → Loading
  unfolding load_file
  load_files polly [] l = l
  load_files polly (f ∷ files) l = load_files polly files (load_file polly f l)

  -- rm_parrot_cage_load; `none` stands for results that cannot be opened. Where there is one part of a
  -- directory at most, its freeing is not a part of the model.
  unfoldable pub cage_load : Option Parrot → Cage → Cage × Bool
  unfolding load_files cage_push_to_group
  cage_load none cage = (cage, false)
  cage_load (some polly) cage =
      let l = load_files polly polly.files (record {
        heap = cage.heap;
        groups = cage.groups;
        group = [];
        parts = [];
        last_digest = none;
      }) in
      let groups = cage_push_to_group l.groups l.group in
      (
        record {
          heap = l.heap;
          groups = if ltb 1 (length l.parts) then l.parts ∷ groups else groups;
          parrots = cage.parrots ++ (polly ∷ []);
        },
        true,
      )

-- g_hash_table_lookup(digest_to_group, digest): the place of the group among those passed
abbrev pub lookup_group : Bytes → List (Bytes × ℕ) → Option ℕ
lookup_group d [] = none
lookup_group d ((e, i) ∷ table) = if bytes_equal e d then some i else lookup_group d table

-- group->head->data->lint_type, as a number; a group is never empty
abbrev pub type_of : Heap → List FileRef → ℕ
type_of h [] = 0
type_of h (f ∷ group) = lint_number (h.file f).lint_type

-- The state of the loop of rm_parrot_merge_identical_groups: the groups that it has passed, and
-- digest_to_group, which gives the place of a group among them.
pub record Merging : Type 0 where
  pub passed : List (List FileRef)
  pub table : List (Bytes × ℕ)

-- rm_util_queue_push_tail_queue(existing_group, group), for the group at a place
unfoldable pub push_tail_at : ℕ → List FileRef → List (List FileRef) → List (List FileRef)
unfolding queue_push_tail_queue
push_tail_at i group [] = []
push_tail_at zero group (g ∷ groups) = (queue_push_tail_queue g group).0 ∷ groups
push_tail_at (suc i) group (g ∷ groups) = g ∷ push_tail_at i group groups

-- The place of the group that a group is put behind, if there is one.
unfoldable pub existing_group : Heap → List FileRef → Bytes → Merging → Option ℕ
existing_group h group d m = elim (lookup_group d m.table) [
  | none ↦ none
  | some i ↦ elim (get_elem? m.passed i) [
    | none ↦ none
    | some existing ↦ if type_of h existing == type_of h group then some i else none
  ]
]

-- One round of the loop.
unfoldable pub merge_group : Heap → List FileRef → Merging → Merging
unfolding existing_group push_tail_at
merge_group h [] m = record m { passed = m.passed ++ ([] ∷ []) }
merge_group h (f ∷ group) m =
    let d = digest_of (h.file f) in
    if is_empty d
    then record m { passed = m.passed ++ ((f ∷ group) ∷ []) }
    else elim (existing_group h (f ∷ group) d m) [
      | some i ↦ record m { passed = push_tail_at i (f ∷ group) m.passed }
      | none ↦ record {
        passed = m.passed ++ ((f ∷ group) ∷ []);
        table = (d, length m.passed) ∷ m.table;
      }
    ]

unfoldable pub merge_groups : Heap → List (List FileRef) → Merging → Merging
unfolding merge_group
merge_groups h [] m = m
merge_groups h (group ∷ groups) m = merge_groups h groups (merge_group h group m)

-- rm_parrot_merge_identical_groups
unfoldable pub merge_identical_groups : Heap → List (List FileRef) → List (List FileRef)
unfolding merge_groups
merge_identical_groups h groups =
    (merge_groups h groups (record { passed = []; table = [] })).passed
