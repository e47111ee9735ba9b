-- ===== src/Utilities/LinkType/Shares.antt =====
-- What rm_util_link_type of lib/utilities.c decides.
use mathlib.Core.Path.{subst}
use rmlint.Common.{
  ◌<◌, ℕ, zero, suc, ◌^◌, ◌<◌, ◌≡◌, ◌≢◌, refl, sym, ◌∙◌, ap, Bool, true, false, not, ◌&&◌, ◌||◌,
  Option, none, some, ◌==◌, ==_iff, if◌then◌else◌, arith, Bool-cases, Option-cases, inl, inr,
}
use rmlint.Cfg.{Bytes}
use rmlint.Utilities.Offset.{Fiemap, IsFiemap, Offset, offset_get_from_fd}
use rmlint.Utilities.LinkType.Runs.{Run, Runs, offset_get_from_fd-Runs}
use rmlint.Preprocess.Cluster.{bytes_equal}
use rmlint.Utilities.LinkType.{
  LinkType, same_file, path_double, hard, is_path_double, reflink, wrong_size, xdev, not_file,
  error, symlink, FileKind, regular, link, other, is_reg, is_lnk, Stat, FileSystem, Round, result,
  go_on, compare_offsets, round, match_extents, compare_stats, second_stat, first_stat, link_type,
}

-- Two files lie at the same places of the disk from an offset to the end: the extents of both up to some
-- further offset stand at one known distance from their places in the file, and so on, until both have
-- come to their last extents.
pub data SharesFrom (fiemap1 fiemap2 : Fiemap) : ℕ → Type 0 where
  last :
      {current : ℕ} (start logical next : ℕ)
      → Run fiemap1 start logical current next true
      → Run fiemap2 start logical current next true
      → 0 < start
      → current < next
      → SharesFrom fiemap1 fiemap2 current
  more :
      {current : ℕ} (start logical next : ℕ) {ended : Bool}
      → Run fiemap1 start logical current next ended
      → Run fiemap2 start logical current next ended
      → 0 < start
      → current < next
      → SharesFrom fiemap1 fiemap2 next
      → SharesFrom fiemap1 fiemap2 current

-- what a round that goes on, or that finds a reflink, has compared
abbrev pub Agrees : ℕ → Offset → Offset → Round → Type 0
Agrees current o1 o2 (result reflink) =
    (o1 ≡ o2) × (0 < o1.start) × (current < o1.next) × (o1.is_last ≡ true)
Agrees current o1 o2 (result t) = Unit
Agrees current o1 o2 (go_on next) =
    (o1 ≡ o2) × (0 < o1.start) × (current < o1.next) × (next ≡ o1.next)

compare_offsets-Agrees :
    (current : ℕ) (o1 o2 : Offset) → Agrees current o1 o2 (compare_offsets current o1 o2)
unfolding compare_offsets
compare_offsets-Agrees current o1 o2 = ground arith

-- What a round has compared, with the answers of both walks.
abbrev pub Compared : Fiemap → Fiemap → ℕ → Round → Type 0
Compared fiemap1 fiemap2 current r =
    (o1 : Offset) × (o2 : Offset) × (offset_get_from_fd fiemap1 current ≡ some o1)
    × (offset_get_from_fd fiemap2 current ≡ some o2)
    × Agrees current o1 o2 r

pub round_lem :
    (fiemap1 fiemap2 : Fiemap) (current : ℕ) (r : Round)
    → round fiemap1 fiemap2 current ≡ some r
    → Compared fiemap1 fiemap2 current r
unfolding round
round_lem fiemap1 fiemap2 current r e = elim (Option-cases (offset_get_from_fd fiemap1 current)) [
  | inl none1 ↦ absurd (ground (arith, none1, e))
  | inr (o1, some1) ↦ elim (Option-cases (offset_get_from_fd fiemap2 current)) [
    | inl none2 ↦ absurd (ground (arith, some1, none2, e))
    | inr (o2, some2) ↦
        let same : compare_offsets current o1 o2 ≡ r = ground (arith, some1, some2, e) in
        (o1, o2, some1, some2, rw (← same) (compare_offsets-Agrees current o1 o2))
  ]
]

-- Both walks, where they agree.
both_runs :
    (fiemap1 fiemap2 : Fiemap)
    → IsFiemap fiemap1
    → IsFiemap fiemap2
    → (current : ℕ) (o1 o2 : Offset) → offset_get_from_fd fiemap1 current ≡ some o1
    → offset_get_from_fd fiemap2 current ≡ some o2
    → o1 ≡ o2
    → Run fiemap1 o1.start o1.logical current o1.next o1.is_last
      × Run fiemap2 o1.start o1.logical current o1.next o1.is_last
both_runs fiemap1 fiemap2 l1 l2 current o1 o2 e1 e2 same = (
  subst (Runs fiemap1 current) e1 (offset_get_from_fd-Runs fiemap1 l1 current),
  subst (Runs fiemap2 current) (e2 ∙ ap some (sym same))
      (offset_get_from_fd-Runs fiemap2 l2 current),
)

shares_last :
    (fiemap1 fiemap2 : Fiemap)
    → IsFiemap fiemap1
    → IsFiemap fiemap2
    → (current : ℕ) → Compared fiemap1 fiemap2 current (result reflink)
    → SharesFrom fiemap1 fiemap2 current
shares_last fiemap1 fiemap2 l1 l2 current (o1, o2, e1, e2, (same, start, forward, final)) =
    let (run1, run2) = both_runs fiemap1 fiemap2 l1 l2 current o1 o2 e1 e2 same in
    last o1.start o1.logical o1.next
      (subst (Run fiemap1 o1.start o1.logical current o1.next) final run1)
      (subst (Run fiemap2 o1.start o1.logical current o1.next) final run2) start forward

match_extents-SharesFrom :
    (aborted : ℕ → Bool) (fiemap1 fiemap2 : Fiemap)
    → IsFiemap fiemap1
    → IsFiemap fiemap2
    → (n current : ℕ) → match_extents aborted fiemap1 fiemap2 n current ≡ some reflink
    → SharesFrom fiemap1 fiemap2 current
unfolding match_extents
match_extents-SharesFrom aborted fiemap1 fiemap2 l1 l2 zero current e = cc
match_extents-SharesFrom aborted fiemap1 fiemap2 l1 l2 (suc n) current e =
    elim (Bool-cases (aborted n)) [
      | inl stop ↦ absurd (ground (arith, stop, e))
      | inr run ↦ elim (Option-cases (round fiemap1 fiemap2 current)) [
        | inl endless ↦ absurd (ground (arith, run, endless, e))
        | inr (result t, r) ↦
            let done : t ≡ reflink = ground (arith, run, r, e) in
            shares_last fiemap1 fiemap2 l1 l2 current (
              round_lem fiemap1 fiemap2 current (result reflink)
                (r ∙ ap (λ u. some (result u)) done))
        | inr (go_on next, r) ↦
            let (o1, o2, e1, e2, (same, start, forward, goes)) =
              round_lem fiemap1 fiemap2 current (go_on next) r in
            let (run1, run2) = both_runs fiemap1 fiemap2 l1 l2 current o1 o2 e1 e2 same in
            let rest : match_extents aborted fiemap1 fiemap2 n next ≡ some reflink =
              ground (arith, run, r, e) in
            more o1.start o1.logical o1.next run1 run2 start forward (
              match_extents-SharesFrom aborted fiemap1 fiemap2 l1 l2 n o1.next
                (ap (match_extents aborted fiemap1 fiemap2 n) (sym goes) ∙ rest))
      ]
    ]

-- The files that a reflink was found for.
abbrev pub Reflinked : FileSystem → Bytes → Bytes → Option Stat → Option Stat → Type 0
Reflinked fs path1 path2 none o = ⊥
Reflinked fs path1 path2 (some s) none = ⊥
Reflinked fs path1 path2 (some s) (some t) =
    (s.kind ≡ regular)
    × (t.kind ≡ regular)
    × (s.size ≡ t.size)
    × SharesFrom (fs.fiemap path1) (fs.fiemap path2) 0

is_reflink : LinkType → Bool
is_reflink reflink = true
is_reflink t = false

-- what another result is not
some_ne : (t : LinkType) → is_reflink t ≡ false → some t ≢ some reflink
unfolding is_reflink
some_ne reflink o same = cc
some_ne t o same = cc

-- a branch that gives another result was not taken
unless :
    (b : Bool) (t : LinkType) (y : Option LinkType)
    → is_reflink t ≡ false
    → (if b then some t else y) ≡ some reflink
    → (b ≡ false) × (y ≡ some reflink)
unless true t y o e = absurd (some_ne t o e)
unless false t y o e = (refl, e)

pub not-false : (b : Bool) → not b ≡ false → b ≡ true
not-false true e = refl
not-false false e = cc

-- the outcomes of two paths to one inode
one_inode :
    (b c : Bool) → is_reflink (if b then same_file else if c then path_double else hard) ≡ false
unfolding is_reflink
one_inode true c = refl
one_inode false true = refl
one_inode false false = refl

regular_kind : (k : FileKind) → is_reg k ≡ true → k ≡ regular
regular_kind regular e = refl
regular_kind link e = cc
regular_kind other e = cc

compare_stats-reflink :
    (aborted : ℕ → Bool) (fs : FileSystem) (path1 path2 : Bytes) (s t : Stat)
    → compare_stats aborted fs path1 path2 s t ≡ some reflink
    → (s.size ≡ t.size)
      × (match_extents aborted (fs.fiemap path1) (fs.fiemap path2) (2 ^ 64) 0 ≡ some reflink)
unfolding compare_stats is_reflink
compare_stats-reflink aborted fs path1 path2 s t e =
    let size = unless (not (s.size == t.size)) wrong_size _ refl e in
    let inode =
      unless ((s.dev == t.dev) && (s.ino == t.ino)) _ _
        (one_inode (bytes_equal path1 path2) (is_path_double fs path1 path2)) size.1 in
    let device =
      unless (not (s.dev == t.dev) && not (fs.same_device path1 path2)) xdev _ refl inode.1 in
    let no_link = unless (is_lnk s.kind || is_lnk t.kind) symlink _ refl device.1 in
    ((==_iff s.size t.size).0 (not-false (s.size == t.size) size.0), no_link.1)

second_stat-Reflinked :
    (aborted : ℕ → Bool) (fs : FileSystem) (path1 path2 : Bytes) (s : Stat) (o : Option Stat)
    → IsFiemap (fs.fiemap path1)
    → IsFiemap (fs.fiemap path2)
    → is_reg s.kind ≡ true
    → second_stat aborted fs path1 path2 s o ≡ some reflink
    → Reflinked fs path1 path2 (some s) o
unfolding second_stat is_reflink
second_stat-Reflinked aborted fs path1 path2 s none l1 l2 r e = absurd (some_ne error refl e)
second_stat-Reflinked aborted fs path1 path2 s (some t) l1 l2 r e =
    let file =
      unless (not (is_reg t.kind)) not_file (compare_stats aborted fs path1 path2 s t) refl e in
    let c = compare_stats-reflink aborted fs path1 path2 s t file.1 in
    (
      regular_kind s.kind r,
      regular_kind t.kind (not-false (is_reg t.kind) file.0),
      c.0,
      match_extents-SharesFrom aborted (fs.fiemap path1) (fs.fiemap path2) l1 l2 (2 ^ 64) 0 c.1,
    )

first_stat-Reflinked :
    (aborted : ℕ → Bool) (fs : FileSystem) (path1 path2 : Bytes) (o : Option Stat)
    → IsFiemap (fs.fiemap path1)
    → IsFiemap (fs.fiemap path2)
    → first_stat aborted fs path1 path2 o ≡ some reflink
    → Reflinked fs path1 path2 o (fs.lstat path2)
unfolding first_stat is_reflink
first_stat-Reflinked aborted fs path1 path2 none l1 l2 e = absurd (some_ne error refl e)
first_stat-Reflinked aborted fs path1 path2 (some s) l1 l2 e =
    let second = second_stat aborted fs path1 path2 s (fs.lstat path2) in
    let file =
      unless (not (is_reg s.kind)) not_file (if not (fs.open_ path2) then some error else second)
        refl e in
    let opened = unless (not (fs.open_ path2)) error second refl file.1 in
    second_stat-Reflinked aborted fs path1 path2 s (fs.lstat path2) l1 l2
      (not-false (is_reg s.kind) file.0) opened.1

-- If two paths are found to be reflinks, then both are regular files of the same size, and from the
-- start up to the last extent both lie at the same places of the disk: piece by piece, each extent of
-- the one and each of the other stands at one and the same known distance from its place in the file.
-- This is for extents as FIEMAP documents them, with 64-bit numbers.
pub link_type-Reflinked :
    (aborted : ℕ → Bool) (fs : FileSystem) (path1 path2 : Bytes)
    → IsFiemap (fs.fiemap path1)
    → IsFiemap (fs.fiemap path2)
    → link_type aborted fs path1 path2 ≡ some reflink
    → Reflinked fs path1 path2 (fs.lstat path1) (fs.lstat path2)
unfolding link_type is_reflink
link_type-Reflinked aborted fs path1 path2 l1 l2 e =
    first_stat-Reflinked aborted fs path1 path2 (fs.lstat path1) l1 l2
      (unless (not (fs.open_ path1)) error (first_stat aborted fs path1 path2 (fs.lstat path1)) refl
        e).1
