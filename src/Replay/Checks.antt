-- ===== src/Replay/Checks.antt =====
-- The options that a file of an earlier run must pass (lib/replay.c: rm_parrot_check_depth to
-- rm_parrot_check_types). What g_access answers is an argument.
pub mod Longest
use rmlint.Common.{
  ℕ, ◌-◌, ◌^◌, Bool, true, false, not, ◌&&◌, ◌||◌, List, [], ◌∷◌, Option, none, some, ◌==◌, ltb,
  leb, length, any, if◌then◌else◌,
}
use rmlint.Common.Sign.{ℤ, pos, ltb_ℤ, is_zero}
use rmlint.Cfg.{Bytes, RmCfg, RmPath}
use rmlint.File.Types.{
  RmFile, LintType, unknown, badlink, empty_dir, empty_file, nonstripped, baduid, badgid, badugid,
  dupe_candidate, dupe_dir_candidate, unique_file, part_of_directory,
}
use rmlint.Utilities.Path.{path_is_hidden}

-- lint_type == RM_LINT_TYPE_DUPE_CANDIDATE || lint_type == RM_LINT_TYPE_DUPE_DIR_CANDIDATE
abbrev pub is_dupe : LintType → Bool
is_dupe dupe_candidate = true
is_dupe dupe_dir_candidate = true
is_dupe type = false

-- rm_parrot_check_depth
unfoldable pub check_depth : RmCfg → RmFile → Bool
check_depth cfg file = is_zero file.depth || not (ltb_ℤ cfg.depth file.depth)

-- (RmOff)-1
abbrev no_limit : ℕ
no_limit = 2 ^ 64 - 1

-- rm_parrot_check_size
unfoldable pub check_size : RmCfg → RmFile → Bool
check_size cfg file =
    if not cfg.limits_specified
    then true
    else if not (is_dupe file.lint_type)
    then true
    else ((cfg.minsize == no_limit) || leb cfg.minsize file.actual_file_size)
      && ((cfg.maxsize == no_limit) || leb file.actual_file_size cfg.maxsize)

-- rm_parrot_check_hidden
unfoldable pub check_hidden : RmCfg → Bytes → Bool
unfolding path_is_hidden
check_hidden cfg file_path =
    if not cfg.ignore_hidden && not cfg.partial_hidden
    then true
    else not (path_is_hidden (some file_path))

-- rm_parrot_check_permissions; `access` says that g_access(path, mode) is not -1
unfoldable pub check_permissions : (Bytes → ℤ → Bool) → RmCfg → Bytes → Bool
check_permissions access cfg file_path =
    if is_zero cfg.permissions then true else access file_path cfg.permissions

-- rm_parrot_check_crossdev
unfoldable pub check_crossdev : RmCfg → List ℕ → RmFile → Bool
check_crossdev cfg disk_ids file = if cfg.crossdev then true else any (λ d. d == file.dev) disk_ids

-- strncmp(s, prefix, strlen(prefix)) == 0
abbrev pub has_prefix : Bytes → Bytes → Bool
has_prefix s [] = true
has_prefix [] (b ∷ prefix) = false
has_prefix (a ∷ s) (b ∷ prefix) = (a == b) && has_prefix s prefix

-- The loop of rm_parrot_check_path over the paths of the command line: highest_match and the file.
unfoldable pub longest_match : Bool → Bytes → List RmPath → ℕ → RmFile → ℕ × RmFile
longest_match is_prefd file_path [] highest file = (highest, file)
longest_match is_prefd file_path (p ∷ paths) highest file =
    let better = has_prefix file_path p.path && ltb highest (length p.path) in
    longest_match is_prefd file_path paths (if better then length p.path else highest) (
      if better
      then record file { is_prefd = p.is_prefd || is_prefd; path_index = p.idx }
      else file)

-- rm_parrot_check_path: what it returns, and the file
unfoldable pub check_path : RmCfg → Bool → Bytes → RmFile → Bool × RmFile
unfolding longest_match
check_path cfg is_prefd file_path file =
    let (highest_match, file') = longest_match is_prefd file_path cfg.paths 0 file in
    (ltb 0 highest_match, file')

-- rm_parrot_check_types
unfoldable pub check_types : RmCfg → LintType → Bool
check_types cfg dupe_candidate = cfg.find_duplicates
check_types cfg dupe_dir_candidate = cfg.merge_directories
check_types cfg badlink = cfg.find_badlinks
check_types cfg empty_dir = cfg.find_emptydirs
check_types cfg empty_file = cfg.find_emptyfiles
check_types cfg nonstripped = cfg.find_nonstripped
check_types cfg baduid = cfg.find_badids
check_types cfg badgid = cfg.find_badids
check_types cfg badugid = cfg.find_badids
check_types cfg unique_file = cfg.write_unfinished
check_types cfg part_of_directory = true
check_types cfg unknown = false

-- The tests of rm_parrot_cage_load in their order, but for the last.
unfoldable pub check_options : (Bytes → ℤ → Bool) → RmCfg → List ℕ → Bytes → RmFile → Bool
unfolding check_depth check_size check_hidden check_permissions check_types check_crossdev
check_options access cfg disk_ids file_path file =
    check_depth cfg file
    && check_size cfg file
    && check_hidden cfg file_path
    && check_permissions access cfg file_path
    && check_types cfg file.lint_type
    && check_crossdev cfg disk_ids file

-- All of them: rm_parrot_check_path, the last, changes the file.
unfoldable pub check_file :
    (Bytes → ℤ → Bool) → RmCfg → List ℕ → Bool → Bytes → RmFile → Bool × RmFile
unfolding check_options check_path
check_file access cfg disk_ids is_prefd file_path file =
    if check_options access cfg disk_ids file_path file
    then check_path cfg is_prefd file_path file
    else (false, file)
