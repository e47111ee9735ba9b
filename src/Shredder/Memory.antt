-- ===== src/Shredder/Memory.antt =====
-- The memory manager of lib/shredder.c for paranoid hashing: a group takes memory from its parent and
-- from the bank, and gives it back to the bank.
use rmlint.Common.{
  ℕ, ◌+◌, ◌-◌, ◌*◌, ◌/◌, ◌≡◌, refl, Bool, true, false, ◌||◌, List, [], ◌∷◌, Option, none, some, min,
  arith, leb, if◌then◌else◌, Bool-cases, inl, inr,
}
use rmlint.Shredder.Types.{hashing, status_number, ShredGroup, ShredTag, shred_paranoid_bytes}

-- rm_shred_mem_return
unfoldable pub mem_return : ShredGroup → ShredTag → ShredGroup × ShredTag
mem_return group tag =
    if group.is_active
    then (
      record group { is_active = false; digest = none; mem_allocation = 0 },
      record tag {
        paranoid_mem_alloc = tag.paranoid_mem_alloc + group.mem_allocation;
        active_groups = tag.active_groups - 1;
        mem_refusing = false;
      },
    )
    else (group, tag)

-- rm_shred_group_potential_file_count, of a group and its ancestors, nearest first
unfoldable pub potential_file_count : List ShredGroup → ℕ
potential_file_count [] = 0
potential_file_count (group ∷ ancestors) = group.num_pending + potential_file_count ancestors

-- The groups that the governor touches, and its answer.
pub record Grant : Type 0 where
  pub group : ShredGroup
  pub parent : Option ShredGroup
  pub tag : ShredTag
  pub granted : Bool

-- group->parent->mem_allocation
abbrev pub allocated : Option ShredGroup → ℕ
allocated none = 0
allocated (some p) = p.mem_allocation

-- group->parent->mem_allocation -= inherited
abbrev pub lend : ℕ → Option ShredGroup → Option ShredGroup
lend n none = none
lend n (some p) = some (record p { mem_allocation = p.mem_allocation - n })

-- The granting branch of rm_shred_check_paranoid_mem_alloc.
unfoldable pub grant : ℕ → ShredGroup → Option ShredGroup → ShredTag → Grant
grant mem_required group parent tag =
    let inherited = min (allocated parent) mem_required in
    let borrowed = min (mem_required - inherited) tag.paranoid_mem_alloc in
    record {
      group = record group {
        mem_allocation = group.mem_allocation + inherited + borrowed;
        is_active = true;
        status = hashing;
      };
      parent = lend inherited parent;
      tag = record tag {
        paranoid_mem_alloc = tag.paranoid_mem_alloc - borrowed;
        active_groups = tag.active_groups + 1;
        mem_refusing = false;
      };
      granted = true;
    }

-- rm_shred_check_paranoid_mem_alloc. `ancestors` are the parent and what is above it.
unfoldable pub check_paranoid_mem_alloc :
    ShredGroup → Option ShredGroup → List ShredGroup → ShredTag → ℕ → Grant
unfolding grant potential_file_count
check_paranoid_mem_alloc group parent ancestors tag active_group_threshold =
    let mem_required =
      (potential_file_count (group ∷ ancestors) / 2 + 1)
      * min (group.file_size - group.hash_offset) shred_paranoid_bytes in
    if leb (status_number hashing) (status_number group.status)
    then record { group = group; parent = parent; tag = tag; granted = true }
    else if leb mem_required (tag.paranoid_mem_alloc + allocated parent)
        || leb tag.active_groups active_group_threshold
    then grant mem_required group parent tag
    else record {
      group = group;
      parent = parent;
      tag = record tag { mem_refusing = true };
      granted = false;
    }

grant-conserves :
    (mem_required : ℕ) (group : ShredGroup) (parent : Option ShredGroup) (tag : ShredTag)
    → let r = grant mem_required group parent tag in
      r.tag.paranoid_mem_alloc + r.group.mem_allocation + allocated r.parent
      ≡ tag.paranoid_mem_alloc + group.mem_allocation + allocated parent
unfolding grant
grant-conserves mem_required group none tag = omega arith
grant-conserves mem_required group (some p) tag = omega arith

-- Granting or refusing memory neither makes nor loses a byte: what the bank, the group and its parent
-- hold together stays the same.
pub check_paranoid_mem_alloc-conserves :
    (group : ShredGroup) (parent : Option ShredGroup) (ancestors : List ShredGroup) (tag : ShredTag)
    (threshold : ℕ)
    → let r = check_paranoid_mem_alloc group parent ancestors tag threshold in
      r.tag.paranoid_mem_alloc + r.group.mem_allocation + allocated r.parent
      ≡ tag.paranoid_mem_alloc + group.mem_allocation + allocated parent
unfolding check_paranoid_mem_alloc
check_paranoid_mem_alloc-conserves group parent ancestors tag threshold =
    elim (Bool-cases (leb (status_number hashing) (status_number group.status))) [
      | inl e ↦ rw e refl
      | inr e ↦ rw e (elim (Bool-cases (fits || spare)) [
        | inl f ↦ rw f (grant-conserves mem_required group parent tag)
        | inr f ↦ rw f refl
      ])
    ]
  where
    mem_required : ℕ
    mem_required =
        (potential_file_count (group ∷ ancestors) / 2 + 1)
        * min (group.file_size - group.hash_offset) shred_paranoid_bytes

    fits : Bool
    fits = leb mem_required (tag.paranoid_mem_alloc + allocated parent)

    spare : Bool
    spare = leb tag.active_groups threshold

-- Returning memory gives the bank all that the group holds, and once only: the group is inactive
-- afterwards, and a second return leaves the bank as it is. An active group keeps nothing.
mem_return-conserves :
    (group : ShredGroup) (tag : ShredTag)
    → let r = mem_return group tag in
      (r.1.paranoid_mem_alloc + r.0.mem_allocation ≡ tag.paranoid_mem_alloc + group.mem_allocation)
      × (r.0.is_active ≡ false)
      × ((mem_return r.0 r.1).1.paranoid_mem_alloc ≡ r.1.paranoid_mem_alloc)
      × (group.is_active ≡ true → r.0.mem_allocation ≡ 0)
unfolding mem_return
mem_return-conserves group tag = ground arith
