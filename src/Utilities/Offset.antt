-- ===== src/Utilities/Offset.antt =====
-- rm_offset_get_from_fd of lib/utilities.c: where a file's data starts on the disk, and how far it is
-- contiguous. What the FIEMAP ioctl says of a file is an argument. Offsets are uint64 values.
use rmlint.Common.{
  ℕ, zero, suc, ◌+◌, ◌-◌, ◌%◌, ◌^◌, ◌≤◌, ◌<◌, ◌≡◌, refl, Bool, false, not, ◌||◌, Option, none, some,
  ◌==◌, if◌then◌else◌, arith, Bool-cases, Option-cases, inl, inr,
}

-- struct fiemap_extent; `last` is FIEMAP_EXTENT_LAST
pub record Extent : Type 0 where
  pub physical : ℕ
  pub logical : ℕ
  pub extent_length : ℕ
  pub last : Bool

-- rm_offset_get_fiemap(fd, 1, offset): NULL, no extent, or the extent at or behind the offset
abbrev pub Fiemap : Type 0
Fiemap = ℕ → Option (Option Extent)

-- What rm_offset_get_from_fd returns and writes.
pub record Offset : Type 0 where
  pub start : ℕ
  pub next : ℕ
  pub logical : ℕ
  pub is_last : Bool

-- "current extent is not contiguous with previous"
unfoldable pub is_apart : Option Extent → Extent → Bool
is_apart none e = false
is_apart (some p) e =
    not (e.physical == (p.physical + e.logical + 2 ^ 64 - p.logical) % 2 ^ 64)
    || not (e.physical == (p.physical + p.extent_length) % 2 ^ 64)

abbrev pub end_of : Extent → ℕ
end_of e = (e.logical + e.extent_length) % 2 ^ 64

-- The offsets after an extent was read; the first one sets the start.
unfoldable pub with_extent : Option Extent → Extent → Offset → Offset
with_extent none e o = record {
  start = e.physical;
  logical = e.logical;
  is_last = o.is_last || e.last;
  next = end_of e;
}
with_extent (some p) e o = record o { is_last = o.is_last || e.last; next = end_of e }

-- The loop, on fuel; `none` is a loop that goes on.
unfoldable pub read_extents : Fiemap → ℕ → Option Extent → Offset → Option Offset
unfolding is_apart with_extent
read_extents fiemap zero previous o = none
read_extents fiemap (suc n) previous o = elim (fiemap o.next) [
  | none ↦ some o
  | some none ↦ some o
  | some (some e) ↦
      let rest = read_extents fiemap n (some e) (with_extent previous e o) in
      if is_apart previous e
      then some o
      else if e.last || (e.extent_length == 0)
      then some (with_extent previous e o)
      else rest
]

-- rm_offset_get_from_fd; the caller sets the logical offset and the flag to 0 before
unfoldable pub offset_get_from_fd : Fiemap → ℕ → Option Offset
unfolding read_extents
offset_get_from_fd fiemap file_offset =
    read_extents fiemap (2 ^ 64) none
      (record { start = 0; next = file_offset; logical = 0; is_last = false })

-- What FIEMAP documents: an extent that has a length ends behind the offset that was asked for. Offsets
-- of a file are below 2 ^ 63.
pub record IsFiemap (fiemap : Fiemap) : Type 0 where
  pub forward :
      (offset : ℕ) (e : Extent)
      → fiemap offset ≡ some (some e)
      → (e.extent_length == 0) ≡ false
      → offset < e.logical + e.extent_length
  pub bounded :
      (offset : ℕ) (e : Extent)
      → fiemap offset ≡ some (some e)
      → e.logical + e.extent_length < 2 ^ 63

-- What the loop gives: it ends, with a next offset that is a uint64.
abbrev Ends : Option Offset → Type 0
Ends none = ⊥
Ends (some o) = o.next < 2 ^ 64

next-with_extent :
    (previous : Option Extent) (e : Extent) (o : Offset)
    → (with_extent previous e o).next ≡ end_of e
unfolding with_extent
next-with_extent none e o = refl
next-with_extent (some p) e o = refl

read_extents-Ends :
    (fiemap : Fiemap)
    → IsFiemap fiemap
    → (n : ℕ) (previous : Option Extent) (o : Offset) → o.next < 2 ^ 64
    → 2 ^ 64 ≤ o.next + n
    → Ends (read_extents fiemap n previous o)
unfolding read_extents
read_extents-Ends fiemap l zero previous o small fuel = omega arith
read_extents-Ends fiemap l (suc n) previous o small fuel = elim (Option-cases (fiemap o.next)) [
  | inl e ↦ rw (e, Ends) small
  | inr (none, e) ↦ rw (e, Ends) small
  | inr (some x, e) ↦
      let after = with_extent previous x o in
      let next : after.next < 2 ^ 64 = omega (arith, next-with_extent previous x o) in
      rw (e, Ends)
        (elim (Bool-cases (is_apart previous x)) [
          | inl apart ↦ rw (apart, Ends) small
          | inr dense ↦ elim (Bool-cases (x.last || (x.extent_length == 0))) [
            | inl done ↦ rw (dense, done, Ends) next
            | inr more ↦
                rw (dense, more, Ends)
                  (read_extents-Ends fiemap l n (some x) after next (
                    omega (
                      arith,
                      next-with_extent previous x o,
                      l.forward o.next x e (ground (arith, more)),
                      l.bounded o.next x e,
                    )))
          ]
        ])
]

-- For a file whose extents are as FIEMAP documents, the walk over its extents ends, with a uint64.
pub offset_get_from_fd-ends :
    (fiemap : Fiemap)
    → IsFiemap fiemap
    → (file_offset : ℕ) → file_offset < 2 ^ 64
    → (o : Offset) × (offset_get_from_fd fiemap file_offset ≡ some o) × (o.next < 2 ^ 64)
offset_get_from_fd-ends fiemap l file_offset small = found (offset_get_from_fd fiemap file_offset) (
    unfold offset_get_from_fd in
    read_extents-Ends fiemap l (2 ^ 64) none
      (record { start = 0; next = file_offset; logical = 0; is_last = false }) small (omega arith))
  where
    found : (r : Option Offset) → Ends r → (o : Offset) × (r ≡ some o) × (o.next < 2 ^ 64)
    found none h = absurd h
    found (some o) h = (o, refl, h)
