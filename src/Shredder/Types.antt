-- ===== src/Shredder/Types.antt =====
-- The records of lib/shredder.c: a group of files that are equal so far, and the shredder's own
-- state. Locks and thread pools are not modelled: each operation below runs under its lock.
use rmlint.Common.{ℕ, ◌*◌, Bool, List, Option}
use rmlint.Cfg.{Bytes, DigestType}
use rmlint.File.{FileRef}

-- RmShredGroupStatus
pub data GroupStatus : Type 0 where
  dormant start_hashing hashing finishing finished : GroupStatus

abbrev pub status_number : GroupStatus → ℕ
status_number dormant = 0
status_number start_hashing = 1
status_number hashing = 2
status_number finishing = 3
status_number finished = 4

abbrev pub GroupRef : Type 0
GroupRef = ℕ

-- RmShredGroup. `children` is keyed by digest.
pub record ShredGroup : Type 0 where
  pub held_files : Option (List FileRef)
  pub children : Option (List (Bytes × GroupRef))
  pub parent : Option GroupRef
  pub num_files : ℕ
  pub n_clusters : ℕ
  pub n_unhashed_clusters : ℕ
  pub n_inodes : ℕ
  pub num_pending : ℕ
  pub in_progress_digests : List Bytes
  pub n_pref : ℕ
  pub n_npref : ℕ
  pub n_new : ℕ
  pub is_active : Bool
  pub unique_basename : Option FileRef
  pub status : GroupStatus
  pub file_size : ℕ
  pub hash_offset : ℕ
  pub next_offset : ℕ
  pub offset_factor : ℕ
  pub mem_allocation : ℕ
  pub digest_type : DigestType
  pub digest : Option Bytes

-- RmShredTag. The memory left for paranoid hashing starts at 0 or more and is never lent beyond
-- what there is, so it is a natural number.
pub record ShredTag : Type 0 where
  pub paranoid_mem_alloc : ℕ
  pub active_groups : ℕ
  pub page_size : ℕ
  pub mem_refusing : Bool
  pub remaining_files : ℕ
  pub remaining_bytes : ℕ
  pub after_preprocess : Bool

-- SHRED_PARANOID_BYTES, SHRED_BALANCED_PAGES and SHRED_MAX_READ_FACTOR at a page size
abbrev pub shred_paranoid_bytes : ℕ
shred_paranoid_bytes = 16 * 1024 * 1024

abbrev pub shred_balanced_pages : ℕ
shred_balanced_pages = 4
