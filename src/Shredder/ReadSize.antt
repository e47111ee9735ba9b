-- ===== src/Shredder/ReadSize.antt =====
-- rm_shred_get_read_size of lib/shredder.c: how far the next increment of a file is hashed.
use rmlint.Common.{
  ℕ, ◌+◌, ◌-◌, ◌*◌, ◌/◌, ◌≤◌, ◌<◌, ◌≡◌, Bool, true, false, min, max, arith, leb, ◌==◌,
  if◌then◌else◌,
}
use rmlint.Cfg.{DigestType, paranoid}
use rmlint.File.{RmFile, normal}
use rmlint.Shredder.Types.{ShredGroup, shred_balanced_pages, shred_paranoid_bytes}

-- SHRED_MAX_READ_FACTOR
abbrev pub max_read_factor : ℕ → ℕ
max_read_factor page_size = 256 * 1024 * 1024 / shred_balanced_pages / page_size

-- group->digest_type == RM_DIGEST_PARANOID
abbrev pub is_paranoid : DigestType → Bool
is_paranoid paranoid = true
is_paranoid _ = false

unfoldable pub target_bytes : ShredGroup → ℕ → ℕ
target_bytes group page_size =
    max (page_size * shred_balanced_pages * group.offset_factor / page_size) 1 * page_size

-- Reading the rest of the file is as cheap as stopping before.
abbrev pub reads_all : ShredGroup → ℕ → Bool
reads_all group page_size =
    leb group.file_size
      (group.hash_offset + target_bytes group page_size + page_size * shred_balanced_pages)

-- group->next_offset
unfoldable pub next_offset : ShredGroup → ℕ → ℕ
next_offset group page_size =
    let target =
      if reads_all group page_size
      then group.file_size
      else group.hash_offset + target_bytes group page_size in
    if is_paranoid group.digest_type
    then min target (group.hash_offset + shred_paranoid_bytes)
    else target

-- rm_shred_get_read_size: the file and its group, and the bytes to read
unfoldable pub get_read_size : RmFile → ShredGroup → ℕ → RmFile × ShredGroup × ℕ
unfolding next_offset
get_read_size file group page_size =
    let asked =
      if reads_all group page_size
      then true
      else (if group.next_offset == 2 then true else file.fadvise_requested) in
    let next = next_offset group page_size in
    (
      record file { fadvise_requested = asked; status = normal },
      record group { next_offset = next },
      next - file.hash_offset,
    )

target_bytes-positive :
    (group : ShredGroup) (page_size : ℕ) → 0 < page_size → 0 < target_bytes group page_size
unfolding target_bytes
target_bytes-positive group page_size page = grind arith

balanced_le :
    (factor page_size : ℕ)
    → 0 < page_size
    → factor ≤ max_read_factor page_size
    → page_size * shred_balanced_pages * factor ≤ 256 * 1024 * 1024
balanced_le factor page_size page bound =
    let product : page_size * factor ≤ page_size * (67108864 / page_size) = grind arith in
    let whole : page_size * (67108864 / page_size) ≤ 67108864 = grind arith in omega arith

target_bytes-le :
    (group : ShredGroup) (page_size : ℕ)
    → 0 < page_size
    → page_size ≤ 1024 * 1024
    → group.offset_factor ≤ max_read_factor page_size
    → target_bytes group page_size ≤ 256 * 1024 * 1024
unfolding target_bytes
target_bytes-le group page_size page small bound =
    let m = page_size * shred_balanced_pages * group.offset_factor in
    let most : m ≤ 256 * 1024 * 1024 = balanced_le group.offset_factor page_size page bound in
    let down : m / page_size * page_size ≤ m = grind arith in
    let either : max (m / page_size) 1 * page_size ≤ max (m / page_size * page_size) page_size =
      grind arith in
    omega arith

next_offset_bounds :
    (group : ShredGroup) (page_size : ℕ)
    → group.hash_offset < group.file_size
    → 0 < target_bytes group page_size
    → (group.hash_offset < next_offset group page_size)
      × (next_offset group page_size ≤ group.file_size)
      × (next_offset group page_size
          ≤ group.hash_offset + target_bytes group page_size + page_size * shred_balanced_pages)
unfolding next_offset
next_offset_bounds group page_size unfinished positive = ground arith

-- Each increment of an unfinished file that is as far as its group moves forward, stays inside the
-- file, and its length fits the signed 32-bit result, for the factors that the program uses and
-- pages of up to 1 MiB.
pub get_read_size_bounds :
    (file : RmFile) (group : ShredGroup) (page_size : ℕ)
    → file.hash_offset ≡ group.hash_offset
    → group.hash_offset < group.file_size
    → 0 < page_size
    → page_size ≤ 1024 * 1024
    → group.offset_factor ≤ max_read_factor page_size
    → let r = get_read_size file group page_size in
      (0 < r.2)
      × (file.hash_offset + r.2 ≡ r.1.next_offset)
      × (r.1.next_offset ≤ group.file_size)
      × (r.2 < 2147483648)
unfolding get_read_size
get_read_size_bounds file group page_size same unfinished page small factor =
    let positive : 0 < target_bytes group page_size = target_bytes-positive group page_size page in
    let limit : target_bytes group page_size ≤ 256 * 1024 * 1024 =
      target_bytes-le group page_size page small factor in
    ground (arith, next_offset_bounds group page_size)
