-- ===== src/Tests/Blocks.antt =====
-- Two files that share one extent of the disk.
use rmlint.Common.{
  ℕ, ◌+◌, ◌^◌, ◌<◌, ◌≡◌, ◌≢◌, refl, Bool, true, false, [], ◌∷◌, none, some, if◌then◌else◌, arith,
  ltb, ltb→lt, ap,
}
use rmlint.Cfg.{Bytes}
use rmlint.Utilities.Offset.{
  Extent, Fiemap, Offset, IsFiemap, offset_get_from_fd, read_extents, is_apart, with_extent,
  offset_get_from_fd-ends,
}
use rmlint.Utilities.LinkType.{
  LinkType, symlink, regular, FileSystem, link_type, first_stat, second_stat, compare_stats,
  match_extents, round, compare_offsets,
}
use rmlint.Utilities.LinkType.Shares.{Reflinked, link_type-Reflinked}
use rmlint.Utilities.LinkType.Ends.{link_type-answers}

abbrev the_extent : Extent
the_extent = record { physical = 8192; logical = 0; extent_length = 4096; last = true }

abbrev one_extent : Fiemap
one_extent offset = if ltb offset 4096 then some (some the_extent) else some none

-- what an answer with an extent says
answer :
    (b : Bool) (e : Extent)
    → (if b then some (some the_extent) else some none) ≡ some (some e)
    → (b ≡ true) × (the_extent ≡ e)
answer true e h = (refl, ground (arith, h))
answer false e h = cc

one_extent-IsFiemap : IsFiemap one_extent
one_extent-IsFiemap = record {
  forward = λ offset e h long.
      let (small, same) = answer (ltb offset 4096) e h in
      omega (
        arith,
        ltb→lt offset 4096 small,
        ap (λ (u : Extent). u.logical) same,
        ap (λ (u : Extent). u.extent_length) same,
      );
  bounded = λ offset e h.
      let (small, same) = answer (ltb offset 4096) e h in
      omega (arith, ap (λ (u : Extent). u.logical) same, ap (λ (u : Extent). u.extent_length) same);
}

-- Files of one size, told apart by the length of their names.
abbrev disk : FileSystem
disk = record {
  open_ = λ p. true;
  lstat = λ p. some (record { kind = regular; size = 4096; dev = 1; ino = name_length p });
  parent_node = λ p. 1;
  same_device = λ p q. true;
  fiemap = λ p. one_extent;
}
  where
    name_length : Bytes → ℕ
    name_length [] = 0
    name_length (b ∷ p) = name_length p + 1

abbrev path_a : Bytes
path_a = b'/' ∷ b'a' ∷ []

abbrev path_bb : Bytes
path_bb = b'/' ∷ b'b' ∷ b'b' ∷ []

offset_get_from_fd-ends_example :
    (o : Offset) × (offset_get_from_fd one_extent 0 ≡ some o) × (o.next < 2 ^ 64)
offset_get_from_fd-ends_example =
    offset_get_from_fd-ends one_extent one_extent-IsFiemap 0 (omega arith)

link_type-answers_example :
    (t : LinkType) × (link_type (λ n. false) disk path_a path_bb ≡ some t) × (t ≢ symlink)
link_type-answers_example =
    link_type-answers (λ n. false) disk path_a path_bb one_extent-IsFiemap one_extent-IsFiemap

link_type-Reflinked_example : Reflinked disk path_a path_bb (disk.lstat path_a) (disk.lstat path_bb)
unfolding link_type first_stat second_stat compare_stats match_extents round compare_offsets
    offset_get_from_fd read_extents is_apart with_extent
link_type-Reflinked_example =
    link_type-Reflinked (λ n. false) disk path_a path_bb one_extent-IsFiemap one_extent-IsFiemap
      refl
