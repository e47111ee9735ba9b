-- ===== src/Utilities/LinkType/Ends.antt =====
-- rm_util_link_type of lib/utilities.c returns, and what it never returns.
use mathlib.Core.Path.{subst}
use rmlint.Common.{
  ℕ, zero, suc, ◌+◌, ◌^◌, ◌≤◌, ◌<◌, ◌≡◌, ◌≢◌, refl, sym, ◌∙◌, ap, Bool, true, false, not, ◌&&◌,
  ◌||◌, Option, none, some, ◌==◌, if◌then◌else◌, arith, Bool-cases, inl, inr,
}
use rmlint.Cfg.{Bytes}
use rmlint.Utilities.Offset.{Fiemap, Offset, offset_get_from_fd, IsFiemap, offset_get_from_fd-ends}
use rmlint.Preprocess.Cluster.{bytes_equal}
use rmlint.Utilities.LinkType.{
  LinkType, same_file, path_double, hard, is_path_double, not_file, xdev, error, symlink, is_reg,
  is_lnk, FileKind, regular, link, other, Stat, FileSystem, Round, result, go_on, compare_offsets,
  round, match_extents, compare_stats, second_stat, first_stat, link_type,
}
use rmlint.Utilities.LinkType.Shares.{Compared, round_lem, not-false}

-- A result that is there, and is not RM_LINK_SYMLINK.
abbrev pub Answers : Option LinkType → Type 0
Answers none = ⊥
Answers (some symlink) = ⊥
Answers (some t) = Unit

-- The result of a round, if it gives one.
abbrev RoundAnswers : Round → Type 0
RoundAnswers (result t) = Answers (some t)
RoundAnswers (go_on next) = Unit

compare_offsets_answers :
    (current : ℕ) (o1 o2 : Offset) → RoundAnswers (compare_offsets current o1 o2)
unfolding compare_offsets
compare_offsets_answers current o1 o2 = ground arith

round_step :
    (fiemap1 fiemap2 : Fiemap) (current : ℕ) (o1 o2 : Offset)
    → offset_get_from_fd fiemap1 current ≡ some o1
    → offset_get_from_fd fiemap2 current ≡ some o2
    → round fiemap1 fiemap2 current ≡ some (compare_offsets current o1 o2)
unfolding round
round_step fiemap1 fiemap2 current o1 o2 e1 e2 = ground (arith, e1, e2)

-- a round ends, since both walks do
round_ends :
    (fiemap1 fiemap2 : Fiemap)
    → IsFiemap fiemap1
    → IsFiemap fiemap2
    → (current : ℕ) → current < 2 ^ 64
    → (r : Round) × (round fiemap1 fiemap2 current ≡ some r) × RoundAnswers r
round_ends fiemap1 fiemap2 l1 l2 current small =
    let (o1, e1, s1) = offset_get_from_fd-ends fiemap1 l1 current small in
    let (o2, e2, s2) = offset_get_from_fd-ends fiemap2 l2 current small in
    (
      compare_offsets current o1 o2,
      round_step fiemap1 fiemap2 current o1 o2 e1 e2,
      compare_offsets_answers current o1 o2,
    )

-- the next offset is further on, and still an offset
go_on_lem :
    (fiemap1 fiemap2 : Fiemap)
    → IsFiemap fiemap1
    → (current next : ℕ) → current < 2 ^ 64
    → Compared fiemap1 fiemap2 current (go_on next)
    → (current < next) × (next < 2 ^ 64)
go_on_lem fiemap1 fiemap2 l1 current next small (o1, o2, e1, e2, (same, start, forward, goes)) =
    let (o, e, s) = offset_get_from_fd-ends fiemap1 l1 current small in
    let found : o ≡ o1 = ground (arith, sym e ∙ e1) in
    (omega (arith, forward, goes), omega (arith, s, ap (λ (u : Offset). u.next) found, goes))

match_extents_ends :
    (aborted : ℕ → Bool) (fiemap1 fiemap2 : Fiemap)
    → IsFiemap fiemap1
    → IsFiemap fiemap2
    → (n current : ℕ) → current < 2 ^ 64
    → 2 ^ 64 ≤ current + n
    → Answers (match_extents aborted fiemap1 fiemap2 n current)
unfolding match_extents
match_extents_ends aborted fiemap1 fiemap2 l1 l2 zero current small fuel =
    omega (arith, small, fuel)
match_extents_ends aborted fiemap1 fiemap2 l1 l2 (suc n) current small fuel =
    elim (Bool-cases (aborted n)) [
      | inl stop ↦ rw (stop, Answers) tt
      | inr run ↦
          let (r, e, a) = round_ends fiemap1 fiemap2 l1 l2 current small in
          after (match_extents_ends aborted fiemap1 fiemap2 l1 l2 n) run r e a
    ]
  where
    after :
        ((next : ℕ)
          → next < 2 ^ 64
          → 2 ^ 64 ≤ next + n
          → Answers (match_extents aborted fiemap1 fiemap2 n next))
        → aborted n ≡ false
        → (r : Round) → round fiemap1 fiemap2 current ≡ some r
        → RoundAnswers r
        → Answers (match_extents aborted fiemap1 fiemap2 (suc n) current)
    after rec run (result t) e a = rw (run, e, Answers) a
    after rec run (go_on next) e a =
        let on =
          go_on_lem fiemap1 fiemap2 l1 current next small
            (round_lem fiemap1 fiemap2 current (go_on next) e) in
        rw (run, e, Answers) (rec next on.1 (omega (arith, on.0, fuel)))

-- a result in either branch
either :
    (b : Bool) (x y : Option LinkType)
    → Answers x
    → (b ≡ false → Answers y)
    → Answers (if b then x else y)
either true x y a f = a
either false x y a f = f refl

no_link : (k : FileKind) → is_reg k ≡ true → is_lnk k ≡ false
no_link regular e = refl
no_link link e = cc
no_link other e = refl

one_inode : (b c : Bool) → Answers (some (if b then same_file else if c then path_double else hard))
one_inode true c = tt
one_inode false true = tt
one_inode false false = tt

module _ (aborted : ℕ → Bool) (fs : FileSystem) (path1 path2 : Bytes)
    (l1 : IsFiemap (fs.fiemap path1)) (l2 : IsFiemap (fs.fiemap path2)) where
  compare_stats_answers :
      (s t : Stat)
      → is_reg s.kind ≡ true
      → is_reg t.kind ≡ true
      → Answers (compare_stats aborted fs path1 path2 s t)
  unfolding compare_stats
  compare_stats_answers s t file1 file2 =
      let extents = match_extents aborted (fs.fiemap path1) (fs.fiemap path2) (2 ^ 64) 0 in
      let ends : Answers extents =
        match_extents_ends aborted (fs.fiemap path1) (fs.fiemap path2) l1 l2 (2 ^ 64) 0
          (omega arith) (omega arith) in
      let links : Answers (if is_lnk s.kind || is_lnk t.kind then some symlink else extents) =
        rw (no_link s.kind file1, no_link t.kind file2) ends in
      either (not (s.size == t.size)) _ _ tt (λ z.
        either ((s.dev == t.dev) && (s.ino == t.ino)) _ _
          (one_inode (bytes_equal path1 path2) (is_path_double fs path1 path2))
          (λ z.
            either (not (s.dev == t.dev) && not (fs.same_device path1 path2)) (some xdev) _ tt
              (λ z. links)))

  second_stat_answers :
      (s : Stat) (o : Option Stat)
      → is_reg s.kind ≡ true
      → Answers (second_stat aborted fs path1 path2 s o)
  unfolding second_stat
  second_stat_answers s none file1 = tt
  second_stat_answers s (some t) file1 =
      either (not (is_reg t.kind)) (some not_file) (compare_stats aborted fs path1 path2 s t) tt
        (λ z. compare_stats_answers s t file1 (not-false (is_reg t.kind) z))

  first_stat_answers : (o : Option Stat) → Answers (first_stat aborted fs path1 path2 o)
  unfolding first_stat
  first_stat_answers none = tt
  first_stat_answers (some s) =
      let second = second_stat aborted fs path1 path2 s (fs.lstat path2) in
      either (not (is_reg s.kind)) (some not_file)
        (if not (fs.open_ path2) then some error else second) tt
        (λ z.
          either (not (fs.open_ path2)) (some error) second tt
            (λ y. second_stat_answers s (fs.lstat path2) (not-false (is_reg s.kind) z)))

  answered : (r : Option LinkType) → Answers r → (t : LinkType) × (r ≡ some t) × (t ≢ symlink)
  answered none a = absurd a
  answered (some t) a = (t, refl, λ e. subst (λ u. Answers (some u)) e a)

  -- For two files whose extents are as FIEMAP documents, the comparison returns a type of link, and never
  -- that of a symbolic link: what is not a regular file is refused before.
  pub link_type-answers :
      (t : LinkType) × (link_type aborted fs path1 path2 ≡ some t) × (t ≢ symlink)
  unfolding link_type
  link_type-answers = answered (link_type aborted fs path1 path2) (
      either (not (fs.open_ path1)) (some error)
        (first_stat aborted fs path1 path2 (fs.lstat path1)) tt
        (λ z. first_stat_answers (fs.lstat path1)))
