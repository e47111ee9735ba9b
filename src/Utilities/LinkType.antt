-- ===== src/Utilities/LinkType.antt =====
-- rm_util_link_type of lib/utilities.c, built with FIEMAP: how two files share their data. What the
-- system calls answer is an argument. A file descriptor is the path that was opened.
pub mod Runs
pub mod Shares
pub mod Ends
use rmlint.Common.{
  ℕ, zero, suc, ◌+◌, ◌^◌, Bool, true, false, not, ◌&&◌, ◌||◌, Option, none, some, ◌==◌, leb,
  if◌then◌else◌,
}
use rmlint.Cfg.{Bytes}
use rmlint.Utilities.Path.{util_basename}
use rmlint.Utilities.Offset.{Fiemap, Offset, offset_get_from_fd}
use rmlint.Preprocess.Cluster.{bytes_equal}

-- RmLinkType
pub data LinkType : Type 0 where
  reflink nothing not_file wrong_size maybe_reflink same_file path_double hard symlink xdev error :
      LinkType

-- S_IFMT of st_mode
pub data FileKind : Type 0 where
  regular link other : FileKind

abbrev pub is_reg : FileKind → Bool
is_reg regular = true
is_reg link = false
is_reg other = false

abbrev pub is_lnk : FileKind → Bool
is_lnk regular = false
is_lnk link = true
is_lnk other = false

-- RmStat, as far as it is read
pub record Stat : Type 0 where
  pub kind : FileKind
  pub size : ℕ
  pub dev : ℕ
  pub ino : ℕ

-- open(2) succeeds, lstat(2), the inode that rm_util_parent_node finds, rm_util_same_device, and FIEMAP
pub record FileSystem : Type 0 where
  pub open_ : Bytes → Bool
  pub lstat : Bytes → Option Stat
  pub parent_node : Bytes → ℕ
  pub same_device : Bytes → Bytes → Bool
  pub fiemap : Bytes → Fiemap

-- rm_util_is_path_double
unfoldable pub is_path_double : FileSystem → Bytes → Bytes → Bool
unfolding util_basename
is_path_double fs path1 path2 =
    bytes_equal (util_basename path1) (util_basename path2)
    && (fs.parent_node path1 == fs.parent_node path2)

-- One round of the loop, at an offset that both walks answered: the result, or where to go on.
pub data Round : Type 0 where
  result : LinkType → Round
  go_on : ℕ → Round

unfoldable pub compare_offsets : ℕ → Offset → Offset → Round
compare_offsets current o1 o2 =
    if not (if o1.is_last then o2.is_last else not o2.is_last)
    then result nothing
    else if not (o1.start == o2.start)
    then result nothing
    else if not (o1.logical == o2.logical)
    then result nothing
    else if not (o1.next == o2.next)
    then result nothing
    else if o1.start == 0
    then result maybe_reflink
    else if leb o1.next current
    then result error
    else if o1.is_last
    then result reflink
    else go_on o1.next

-- The round, where a walk over the extents may not end.
unfoldable pub round : Fiemap → Fiemap → ℕ → Option Round
unfolding compare_offsets offset_get_from_fd
round fiemap1 fiemap2 current = elim (offset_get_from_fd fiemap1 current) [
  | none ↦ none
  | some o1 ↦ elim (offset_get_from_fd fiemap2 current) [
    | none ↦ none
    | some o2 ↦ some (compare_offsets current o1 o2)
  ]
]

-- The loop, on fuel; `none` is a loop that goes on. `aborted` is what rm_session_was_aborted says at
-- each turn.
unfoldable pub match_extents : (ℕ → Bool) → Fiemap → Fiemap → ℕ → ℕ → Option LinkType
unfolding round
match_extents aborted fiemap1 fiemap2 zero current = none
match_extents aborted fiemap1 fiemap2 (suc n) current =
    if aborted n then some error else elim (round fiemap1 fiemap2 current) [
      | none ↦ none
      | some r ↦ elim r [
        | result t ↦ some t
        | go_on next ↦ match_extents aborted fiemap1 fiemap2 n next
      ]
    ]

-- What follows once both files are known.
unfoldable pub compare_stats :
    (ℕ → Bool) → FileSystem → Bytes → Bytes → Stat → Stat → Option LinkType
unfolding match_extents is_path_double
compare_stats aborted fs path1 path2 stat1 stat2 =
    let extents = match_extents aborted (fs.fiemap path1) (fs.fiemap path2) (2 ^ 64) 0 in
    if not (stat1.size == stat2.size)
    then some wrong_size
    else if (stat1.dev == stat2.dev) && (stat1.ino == stat2.ino)
    then some (
        if bytes_equal path1 path2
        then same_file
        else if is_path_double fs path1 path2
        then path_double
        else hard)
    else if not (stat1.dev == stat2.dev) && not (fs.same_device path1 path2)
    then some xdev
    else if is_lnk stat1.kind || is_lnk stat2.kind
    then some symlink
    else extents

-- The second file.
unfoldable pub second_stat :
    (ℕ → Bool) → FileSystem → Bytes → Bytes → Stat → Option Stat → Option LinkType
unfolding compare_stats
second_stat aborted fs path1 path2 stat1 none = some error
second_stat aborted fs path1 path2 stat1 (some stat2) =
    if not (is_reg stat2.kind)
    then some not_file
    else compare_stats aborted fs path1 path2 stat1 stat2

-- The first file, once it is open.
unfoldable pub first_stat : (ℕ → Bool) → FileSystem → Bytes → Bytes → Option Stat → Option LinkType
unfolding second_stat
first_stat aborted fs path1 path2 none = some error
first_stat aborted fs path1 path2 (some stat1) =
    if not (is_reg stat1.kind)
    then some not_file
    else if not (fs.open_ path2)
    then some error
    else second_stat aborted fs path1 path2 stat1 (fs.lstat path2)

-- rm_util_link_type
unfoldable pub link_type : (ℕ → Bool) → FileSystem → Bytes → Bytes → Option LinkType
unfolding first_stat
link_type aborted fs path1 path2 =
    if not (fs.open_ path1) then some error else first_stat aborted fs path1 path2 (fs.lstat path1)
