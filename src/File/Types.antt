-- ===== src/File/Types.antt =====
-- RmFileState, RmLintType and RmFile of lib/file.h, and a heap of files and of queues of files.
use rmlint.Common.{ℕ, Bool, List, Option, ◌==◌, if◌then◌else◌}
use rmlint.Common.Sign.{ℤ}
use rmlint.Cfg.{Bytes}

pub data FileState : Type 0 where
  normal ignore : FileState

-- In the order of the enumeration, whose numbers the program compares.
pub data LintType : Type 0 where
  unknown badlink empty_dir empty_file nonstripped baduid badgid badugid : LintType
  dupe_candidate dupe_dir_candidate unique_file part_of_directory : LintType

abbrev pub lint_number : LintType → ℕ
lint_number unknown = 0
lint_number badlink = 1
lint_number empty_dir = 2
lint_number empty_file = 3
lint_number nonstripped = 4
lint_number baduid = 5
lint_number badgid = 6
lint_number badugid = 7
lint_number dupe_candidate = 8
lint_number dupe_dir_candidate = 9
lint_number unique_file = 10
lint_number part_of_directory = 11

-- Addresses of files, of queues of files, of trie nodes, of shred groups.
abbrev pub FileRef : Type 0
FileRef = ℕ

abbrev pub QueueRef : Type 0
QueueRef = ℕ

-- A file. Its trie node is shown by what the code reads through it: the address of the parent node
-- and the base name; `path` is what rm_file_build_path writes.
pub record RmFile : Type 0 where
  pub path_id : ℕ
  pub folder : ℕ
  pub parent : ℕ
  pub basename : Bytes
  pub path : Bytes
  pub mtime : ℤ
  pub depth : ℤ
  pub link_count : ℤ
  pub outer_link_count : ℤ
  pub path_depth : ℕ
  pub inode : ℕ
  pub dev : ℕ
  pub disk : Option ℕ
  pub is_symlink : Bool
  pub is_prefd : Bool
  pub is_original : Bool
  pub is_new : Bool
  pub is_hidden : Bool
  pub free_digest : Bool
  pub fadvise_requested : Bool
  pub shredder_waiting : Bool
  pub is_on_subvol_fs : Bool
  pub cluster : Option QueueRef
  pub hardlinks : Option QueueRef
  pub path_index : ℕ
  pub file_size : ℕ
  pub actual_file_size : ℕ
  pub hash_offset : ℕ
  pub status : FileState
  pub digest : Option Bytes
  pub ext_cksum : Option Bytes
  pub twin_count : ℤ
  pub disk_offset : ℕ
  pub lint_type : LintType
  pub shred_group : Option ℕ
  pub signal : Option ℕ
  pub pattern_bitmask_path : ℕ
  pub pattern_bitmask_basename : ℕ
  pub parent_dir : Option ℕ
  pub n_children : ℕ

-- What the addresses hold; `fresh` is the address of the next queue to be allocated.
pub record Heap : Type 0 where
  pub file : FileRef → RmFile
  pub queue : QueueRef → List FileRef
  pub fresh : QueueRef

-- *f = v
unfoldable pub write_file : FileRef → RmFile → Heap → Heap
write_file f v h = record h { file = λ i. if i == f then v else h.file i }

-- *q = l
unfoldable pub write_queue : QueueRef → List FileRef → Heap → Heap
write_queue q l h = record h { queue = λ i. if i == q then l else h.queue i }
