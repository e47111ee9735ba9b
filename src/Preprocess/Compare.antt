-- ===== src/Preprocess/Compare.antt =====
-- The comparison functions of lib/preprocess.c by which files are sorted, grouped and ranked.
-- Times are nanoseconds: MTIME_TOL is 1000. The functions of the C library on characters are those
-- of the C locale.
pub mod Order
pub mod Cached
use rmlint.Common.{
  ℕ, ◌+◌, ◌-◌, Bool, true, false, not, ◌&&◌, ◌||◌, List, [], ◌∷◌, Option, none, some, ◌==◌, leb,
  if◌then◌else◌, length, is_some,
}
use rmlint.Common.Sign.{
  ℤ, pos, negsuc, gt0, lt0, is_zero, neg, signed, sign_diff, sign_diff_ℤ, sign_diff_bool,
  float_sign_diff, return_if_nonzero, pos_part,
}
use rmlint.Cfg.{Bytes, RmCfg}
use rmlint.Glib.{Glib, Pattern}
use rmlint.File.{RmFile, LintType, lint_number}
use rmlint.Utilities.Path.{path_extension}
use rmlint.Preprocess.PatternCache.{cmp_by_regex}

abbrev pub mtime_tol : ℕ
mtime_tol = 1000

-- rm_file_basenames_cmp, of lib/file.c
unfoldable pub basenames_cmp : Glib → RmFile → RmFile → ℤ
basenames_cmp g file_a file_b = g.strcasecmp file_a.basename file_b.basename

unfoldable pub extensions_cmp : Glib → Option Bytes → Option Bytes → ℤ
extensions_cmp g (some ext_a) (some ext_b) = g.strcasecmp ext_a ext_b
extensions_cmp g (some ext_a) none = pos 1
extensions_cmp g none (some ext_b) = negsuc 0
extensions_cmp g none none = pos 0

-- rm_file_cmp_with_extension
unfoldable pub cmp_with_extension : Glib → RmFile → RmFile → ℤ
unfolding extensions_cmp
cmp_with_extension g file_a file_b =
    extensions_cmp g (path_extension file_a.basename) (path_extension file_b.basename)

-- The distance from the start of a name to its extension, or `full` if there is none.
abbrev pub stem_length : Bytes → ℕ → ℕ
stem_length basename full = elim (path_extension basename) [
  | some ext ↦ length basename - length ext
  | none ↦ full
]

-- The two names of rm_file_cmp_without_extension. Where b has no extension the source measures the
-- name of a.
unfoldable pub cmp_stems : Glib → Bytes → Bytes → ℤ
cmp_stems g basename_a basename_b =
    let a_len = stem_length basename_a (length basename_a) in
    let b_len = stem_length basename_b (length basename_a) in
    return_if_nonzero (sign_diff a_len b_len) (g.strncasecmp basename_a basename_b a_len)

-- rm_file_cmp_without_extension
unfoldable pub cmp_without_extension : Glib → RmFile → RmFile → ℤ
unfolding cmp_stems
cmp_without_extension g file_a file_b = cmp_stems g file_a.basename file_b.basename

-- rm_file_cmp
unfoldable pub file_cmp : Glib → RmCfg → RmFile → RmFile → ℤ
unfolding basenames_cmp cmp_with_extension cmp_without_extension
file_cmp g cfg file_a file_b = return_if_nonzero (sign_diff file_a.file_size file_b.file_size) (
    return_if_nonzero (sign_diff_bool file_a.is_symlink file_b.is_symlink) (
      return_if_nonzero (if cfg.match_basename then basenames_cmp g file_a file_b else pos 0) (
        return_if_nonzero
          (if cfg.match_with_extension then cmp_with_extension g file_a file_b else pos 0)
          (if cfg.match_without_extension then cmp_without_extension g file_a file_b else pos 0))))

-- isupper and tolower
abbrev pub is_upper : ℕ → Bool
is_upper c = leb b'A' c && leb c b'Z'

abbrev pub to_lower : ℕ → ℕ
to_lower c = if is_upper c then c + 32 else c

-- The pattern that the criteria's cursor points at. As many are compiled as the criteria have letters
-- 'r' and 'x'.
abbrev pub pattern_at : List Pattern → ℕ → Pattern
pattern_at [] i = λ text. false
pattern_at (p ∷ ps) i = if i == 0 then p else pattern_at ps (i - 1)

-- rm_pp_cmp_criterion, without the sign: the comparison, and both files, in which the masks of the
-- patterns may have been written.
unfoldable pub cmp_letter : Glib → List Pattern → ℕ → ℕ → RmFile → RmFile → ℤ × RmFile × RmFile
unfolding cmp_by_regex
cmp_letter g patterns letter cursor a b =
    let (by_name, name_a, name_b) =
      cmp_by_regex (pattern_at patterns cursor) cursor a.pattern_bitmask_basename a.basename
        b.pattern_bitmask_basename b.basename in
    let (by_path, path_a, path_b) =
      cmp_by_regex (pattern_at patterns cursor) cursor a.pattern_bitmask_path a.path
        b.pattern_bitmask_path b.path in
    if letter == b'm'
    then (float_sign_diff a.mtime b.mtime mtime_tol, a, b)
    else if letter == b'a'
    then (g.strcasecmp a.basename b.basename, a, b)
    else if letter == b'l'
    then (sign_diff (length a.basename) (length b.basename), a, b)
    else if letter == b'd'
    then (sign_diff_ℤ a.depth b.depth, a, b)
    else if letter == b'h'
    then (sign_diff_ℤ a.link_count b.link_count, a, b)
    else if letter == b'o'
    then (sign_diff_ℤ a.outer_link_count b.outer_link_count, a, b)
    else if letter == b'p'
    then (sign_diff a.path_index b.path_index, a, b)
    else if letter == b'x'
    then (
      by_name,
      record a { pattern_bitmask_basename = name_a },
      record b { pattern_bitmask_basename = name_b },
    )
    else if letter == b'r'
    then (
      by_path,
      record a { pattern_bitmask_path = path_a },
      record b { pattern_bitmask_path = path_b },
    )
    else (pos 0, a, b)

-- rm_pp_cmp_criterion: an upper-case letter reverses the order
unfoldable pub cmp_criterion : Glib → List Pattern → ℕ → ℕ → RmFile → RmFile → ℤ × RmFile × RmFile
unfolding cmp_letter
cmp_criterion g patterns criterion cursor a b =
    let (cmp, a', b') = cmp_letter g patterns (to_lower criterion) cursor a b in
    (signed (is_upper criterion) cmp, a', b')

abbrev pub next_cursor : ℕ → ℕ → ℕ
next_cursor criterion cursor =
    if (to_lower criterion == b'x') || (to_lower criterion == b'r') then cursor + 1 else cursor

-- The loop of rm_pp_cmp_orig_criteria over the letters.
unfoldable pub cmp_criteria :
    Glib → List Pattern → Bytes → ℕ → RmFile → RmFile → ℤ × RmFile × RmFile
unfolding cmp_criterion
cmp_criteria g patterns [] cursor a b = (pos 0, a, b)
cmp_criteria g patterns (criterion ∷ criteria) cursor a b =
    let here = cmp_criterion g patterns criterion cursor a b in
    let rest = cmp_criteria g patterns criteria (next_cursor criterion cursor) here.1 here.2 in
    if is_zero here.0 then rest else here

-- rm_pp_cmp_orig_criteria: the comparison, and both files
unfoldable pub cmp_and_cache : Glib → RmCfg → List Pattern → RmFile → RmFile → ℤ × RmFile × RmFile
unfolding cmp_criteria
cmp_and_cache g cfg patterns a b =
    if not (is_zero (sign_diff (lint_number a.lint_type) (lint_number b.lint_type)))
    then (sign_diff (lint_number a.lint_type) (lint_number b.lint_type), a, b)
    else if not (is_zero (sign_diff_bool a.is_symlink b.is_symlink))
    then (sign_diff_bool a.is_symlink b.is_symlink, a, b)
    else if not (is_zero (sign_diff_bool b.is_prefd a.is_prefd))
    then (sign_diff_bool b.is_prefd a.is_prefd, a, b)
    else cmp_criteria g patterns cfg.sort_criteria 0 a b

-- What a sort sees of rm_pp_cmp_orig_criteria.
unfoldable pub pp_cmp_orig_criteria : Glib → RmCfg → List Pattern → RmFile → RmFile → ℤ
unfolding cmp_and_cache
pp_cmp_orig_criteria g cfg patterns a b = (cmp_and_cache g cfg patterns a b).0

-- mtime_window >= 0
abbrev pub nonneg : ℤ → Bool
nonneg z = not (lt0 z)

-- rm_file_cmp_full
unfoldable pub file_cmp_full : Glib → RmCfg → List Pattern → RmFile → RmFile → ℤ
unfolding file_cmp pp_cmp_orig_criteria
file_cmp_full g cfg patterns a b = return_if_nonzero (file_cmp g cfg a b) (
    return_if_nonzero
      (if nonneg cfg.mtime_window then float_sign_diff a.mtime b.mtime mtime_tol else pos 0)
      (pp_cmp_orig_criteria g cfg patterns a b))

-- rm_file_cmp_split
unfoldable pub file_cmp_split : Glib → RmCfg → RmFile → RmFile → ℤ
unfolding file_cmp
file_cmp_split g cfg a b = return_if_nonzero (file_cmp g cfg a b) (
    if nonneg cfg.mtime_window
    then float_sign_diff a.mtime b.mtime (pos_part cfg.mtime_window)
    else pos 0)
