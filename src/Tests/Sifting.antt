-- ===== src/Tests/Sifting.antt =====
-- Groups at work, on the sample group.
use rmlint.Common.{
  ◌↔◌, Option, ◌+◌, ◌≤◌, ◌<◌, ◌≡◌, refl, true, false, [], ◌∷◌, none, some, arith, ◌==◌,
  if◌then◌else◌,
}
use rmlint.Cfg.{set_default, paranoid}
use rmlint.File.Types.{Heap, FileRef}
use rmlint.Shredder.Types.{hashing}
use rmlint.Shredder.Memory.{check_paranoid_mem_alloc-conserves, check_paranoid_mem_alloc, allocated}
use rmlint.Shredder.ReadSize.{get_read_size, get_read_size_bounds}
use rmlint.Shredder.Group.{push_file, push_named, group_new, Sifter, next_basename}
use rmlint.Shredder.Group.Push.{Accounts, push_file-Accounts}
use rmlint.Shredder.Sift.{
  Sieve, sift, sift_by, move_down, find_twin, twin_or_new, taken_out, after_push, is_over,
}
use rmlint.Shredder.Sift.Moves.{answers, sift-answers}
use rmlint.Tests.Data.{glib}
use rmlint.Tests.Samples.{cfg, heap, group, tag, sifter}

push_file-Accounts_example : Accounts sifter (push_named cfg heap [] 2 false sifter none)
unfolding push_file next_basename set_default
push_file-Accounts_example =
    push_file-Accounts glib cfg heap [] 2 false sifter (push_named cfg heap [] 2 false sifter none)
      refl refl

check_paranoid_mem_alloc-conserves_example :
    let r = check_paranoid_mem_alloc group none [] tag 1 in
    r.tag.paranoid_mem_alloc + r.group.mem_allocation + allocated r.parent
    ≡ tag.paranoid_mem_alloc + group.mem_allocation + allocated none
check_paranoid_mem_alloc-conserves_example = check_paranoid_mem_alloc-conserves group none [] tag 1

get_read_size_bounds_example :
    let r = get_read_size (heap.file 1) group 4096 in
    (0 < r.2)
    × ((heap.file 1).hash_offset + r.2 ≡ r.1.next_offset)
    × (r.1.next_offset ≤ group.file_size)
    × (r.2 < 2147483648)
get_read_size_bounds_example =
    get_read_size_bounds (heap.file 1) group 4096 refl (omega arith) (omega arith) (omega arith)
      (omega arith)

-- The heap with a digest for file 2.
abbrev digested : Heap
digested = record heap {
  file = λ i. if i == 2 then record (heap.file 2) { digest = some (9 ∷ []) } else heap.file i;
}

-- A group in which file 2 is pending.
abbrev sieve : Sieve
sieve = record {
  current = record group { status = hashing; held_files = none; num_pending = 1 };
  twins = [];
  tag = tag;
  scheduled = [];
  discarded = [];
  counter_jobs = [];
}

-- What sifting file 2 leaves.
abbrev below : Sifter × Option FileRef
below =
    let current = taken_out (digested.file 2) sieve.current in
    push_named cfg digested (current ∷ []) 2 false
      (record {
        group = (group_new (digested.file 2) (some current) 4096 paranoid).0;
        parent = some current;
        tag = tag;
        scheduled = [];
      })
      none

abbrev moved : Sieve × Option FileRef
moved = after_push (9 ∷ []) (taken_out (digested.file 2) sieve.current) sieve below

sift-answers_example :
    (answers moved.0 ≡ answers sieve)
    × ((is_over moved.0.current ≡ true)
        ↔ ((moved.0.current.parent ≡ none) × (moved.0.current.num_pending ≡ 0)))
unfolding sift sift_by move_down push_file next_basename find_twin twin_or_new set_default
sift-answers_example =
    sift-answers glib cfg digested [] 2 sieve (moved.0, moved.1, is_over moved.0.current) tt
      (omega arith) refl
