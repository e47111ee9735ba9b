-- ===== src/Cmdline/Options.antt =====
-- The options of the command line that set several fields at once, the paths, and the repairs and checks
-- at the end of rm_cmd_parse_args (lib/cmdline.c). What rm_digest_type makes of a name is an argument.
pub mod Handlers
pub mod Sound
use rmlint.Common.{
  ℕ, zero, suc, ◌+◌, ◌-◌, ◌/◌, ◌≡◌, Bool, true, false, not, ◌&&◌, ◌||◌, List, [], ◌∷◌, Option, none,
  some, ◌==◌, ltb, leb, any, all, take, is_empty, if◌then◌else◌,
}
use rmlint.Common.Sign.{ℤ, pos, negsuc, ltb_ℤ, ◌+ℤ◌}
use rmlint.Cfg.{
  Bytes, RmCfg, DigestType, unknown, metro, metro256, highway256, paranoid, PathOracle, add_path,
  path_max,
}
use rmlint.Preprocess.Cluster.{bytes_equal}
use rmlint.Cmdline.LintTypes.{
  codes, parse_lint_types, parse_merge_directories, parse_partial_hidden,
}

-- The options, by the handler that is called for them; `algorithm` carries what its name stands for.
pub data Opt : Type 0 where
  merge_directories partial_hidden no_partial_hidden hidden no_hidden honour_dir_layout : Opt
  see_symlinks follow_symlinks no_follow_symlinks xattr equal btrfs_clone btrfs_readonly : Opt
  lint_types sortby : Bytes → Opt
  algorithm : DigestType → Opt
  limit_sizes : ℕ → ℕ → Opt

-- rm_cmd_check_lettervec
unfoldable pub check_lettervec : Bytes → Bytes → Bool
check_lettervec criteria valid = all (λ c. any (λ v. v == c) valid) criteria

abbrev is_unknown : DigestType → Bool
is_unknown unknown = true
is_unknown type = false

-- rm_cmd_parse_equal, without the formatters
unfoldable pub parse_equal : (Bytes → ℕ → List Bytes) → RmCfg → RmCfg
unfolding parse_lint_types parse_merge_directories
parse_equal strsplit cfg =
    record (parse_lint_types strsplit (codes "df,dd") (parse_merge_directories cfg)) {
      run_equal_mode = true;
      partial_hidden = false;
      ignore_hidden = false;
      limits_specified = true;
      minsize = 0;
    }

-- The handlers: the options of the run, `none` where the handler reports an error.
unfoldable pub parse_option : (Bytes → ℕ → List Bytes) → Opt → RmCfg → Option RmCfg
unfolding parse_merge_directories parse_partial_hidden parse_lint_types parse_equal check_lettervec
parse_option strsplit merge_directories cfg = some (parse_merge_directories cfg)
parse_option strsplit partial_hidden cfg = some (parse_partial_hidden cfg)
parse_option strsplit no_partial_hidden cfg =
    some (record cfg { ignore_hidden = true; partial_hidden = false })
parse_option strsplit hidden cfg =
    some (record cfg { ignore_hidden = false; partial_hidden = false })
parse_option strsplit no_hidden cfg =
    some (record cfg { ignore_hidden = true; partial_hidden = false })
parse_option strsplit honour_dir_layout cfg = some (record cfg { honour_dir_layout = true })
parse_option strsplit see_symlinks cfg =
    some (record cfg { see_symlinks = true; follow_symlinks = false })
parse_option strsplit follow_symlinks cfg =
    some (record cfg { see_symlinks = false; follow_symlinks = true })
parse_option strsplit no_follow_symlinks cfg =
    some (record cfg { see_symlinks = false; follow_symlinks = false })
parse_option strsplit xattr cfg = some (record cfg {
  write_cksum_to_xattr = true;
  read_cksum_from_xattr = true;
  clear_xattr_fields = false;
  write_unfinished = true;
})
parse_option strsplit equal cfg = some (parse_equal strsplit cfg)
parse_option strsplit btrfs_clone cfg = some (record cfg { dedupe = true })
parse_option strsplit btrfs_readonly cfg = some (record cfg { dedupe_readonly = true })
parse_option strsplit (lint_types s) cfg = some (parse_lint_types strsplit s cfg)
parse_option strsplit (sortby criteria) cfg =
    if check_lettervec criteria (codes "moanspMOANSP")
    then some (record cfg { rank_criteria = take 63 criteria; cache_file_structs = true })
    else none
parse_option strsplit (algorithm type) cfg =
    if is_unknown type then none else some (record cfg { checksum_type = type })
parse_option strsplit (limit_sizes low high) cfg =
    if ltb high low
    then none
    else some (record cfg { minsize = low; maxsize = high; limits_specified = true })

unfoldable pub parse_options : (Bytes → ℕ → List Bytes) → List Opt → RmCfg → Option RmCfg
unfolding parse_option
parse_options strsplit [] cfg = some cfg
parse_options strsplit (o ∷ opts) cfg = elim (parse_option strsplit o cfg) [
  | none ↦ none
  | some cfg' ↦ parse_options strsplit opts cfg'
]

-- RM_PARANOIA_LEVELS[index]; RM_DEFAULT_DIGEST is chosen by the build
abbrev paranoia_level : DigestType → ℕ → Option DigestType
paranoia_level default_digest n =
    if n == 0
    then some metro
    else if n == 1
    then some metro256
    else if n == 2
    then some highway256
    else if n == 3
    then some default_digest
    else if leb n 5
    then some paranoid
    else none

-- rm_cmd_set_paranoia_from_cnt; `none` is an error
unfoldable pub set_paranoia_from_cnt : DigestType → RmCfg → ℤ → Option RmCfg
set_paranoia_from_cnt default_digest cfg counter = elim (counter +ℤ pos 3) [
  | negsuc n ↦ none
  | pos n ↦ elim (paranoia_level default_digest n) [
    | none ↦ none
    | some type ↦ some (record cfg { checksum_type = type })
  ]
]

-- VERBOSITY_TO_LOG_LEVEL, the levels as GLib numbers them
abbrev log_level : ℕ → ℕ
log_level n =
    if n == 0 then 8 else if n == 1 then 4 else if n == 2 then 16 else if n == 3 then 96 else 128

-- rm_cmd_set_verbosity_from_cnt
unfoldable pub set_verbosity_from_cnt : RmCfg → ℤ → RmCfg
set_verbosity_from_cnt cfg counter = record cfg {
  verbosity = elim counter [
    | negsuc n ↦ log_level 1
    | pos n ↦ log_level (if ltb 4 n then 4 else if ltb n 1 then 1 else n)
  ];
}

-- The loop of rm_cmd_set_paths: is_prefd, all_paths_valid, stdin_paths_preferred and the options.
pub record PathState : Type 0 where
  pub is_prefd : Bool
  pub all_valid : Bool
  pub stdin_preferred : Bool
  pub cfg : RmCfg

unfoldable pub set_path : PathOracle → Bytes → PathState → PathState
unfolding add_path
set_path o path s =
    if bytes_equal path (codes "-")
    then record s { stdin_preferred = s.is_prefd; cfg = record (s.cfg) { read_stdin = true } }
    else if bytes_equal path (codes "//")
    then record s { is_prefd = not s.is_prefd }
    else let added = add_path o s.cfg s.is_prefd path in
      record s { all_valid = s.all_valid && added.1; cfg = added.0 }

unfoldable pub set_paths_loop : PathOracle → List Bytes → PathState → PathState
unfolding set_path
set_paths_loop o [] s = s
set_paths_loop o (path ∷ paths) s = set_paths_loop o paths (set_path o path s)

-- rm_cmd_read_paths_from_stdin, of the lines that were read
unfoldable pub read_paths : PathOracle → Bool → List Bytes → RmCfg → RmCfg × Bool
unfolding add_path
read_paths o is_prefd [] cfg = (cfg, true)
read_paths o is_prefd (line ∷ lines) cfg =
    let added = add_path o cfg is_prefd line in
    let rest = read_paths o is_prefd lines added.0 in (rest.0, added.1 && rest.1)

-- rm_cmd_set_paths; `lines` are those of the standard input
unfoldable pub set_paths : PathOracle → List Bytes → List Bytes → RmCfg → RmCfg × Bool
unfolding set_paths_loop read_paths add_path
set_paths o lines paths cfg =
    let s =
      set_paths_loop o paths
        (record { is_prefd = false; all_valid = true; stdin_preferred = false; cfg = cfg }) in
    if s.cfg.read_stdin || s.cfg.read_stdin0
    then (let r = read_paths o s.stdin_preferred lines s.cfg in (r.0, s.all_valid && r.1))
    else if is_empty s.cfg.paths && s.all_valid
    then ((add_path o s.cfg s.is_prefd s.cfg.iwd).0, s.all_valid)
    else (s.cfg, s.all_valid)

-- CLAMP
abbrev clamp : ℕ → ℕ → ℕ → ℕ
clamp x low high = if ltb high x then high else if ltb x low then low else x

abbrev clamp_ℤ : ℤ → ℕ → ℕ → ℤ
clamp_ℤ x low high =
    if ltb_ℤ (pos high) x then pos high else if ltb_ℤ x (pos low) then pos low else x

-- "Silent fixes of invalid numeric input", and the option that makes sense with another only
unfoldable pub fix_options : RmCfg → RmCfg
fix_options cfg =
    let fixed = record cfg {
      threads = clamp cfg.threads 1 128;
      depth = clamp_ℤ cfg.depth 1 (path_max / 2 + 1);
    } in
    if cfg.partial_hidden && not cfg.merge_directories
    then record fixed { ignore_hidden = true; partial_hidden = false }
    else fixed

pub data Conflict : Type 0 where
  replay_and_dedupe both_tags clamp_order outputs keep_tagged keep_untagged : Conflict

-- The checks of options against one another; `outputs_ok` is what rm_cmd_set_outputs returns.
unfoldable pub find_conflict : Bool → RmCfg → Option Conflict
find_conflict outputs_ok cfg =
    if cfg.keep_all_tagged && cfg.keep_all_untagged
    then some both_tags
    else if leb cfg.skip_end_factor cfg.skip_start_factor
    then some clamp_order
    else if not outputs_ok
    then some outputs
    else if cfg.keep_all_tagged && cfg.must_match_untagged
    then some keep_tagged
    else if cfg.keep_all_untagged && cfg.must_match_tagged
    then some keep_untagged
    else none

-- rm_cmd_parse_args after the paths: the options, and an error
unfoldable pub finish_options : Bool → RmCfg → RmCfg × Option Conflict
unfolding fix_options find_conflict
finish_options outputs_ok cfg =
    if cfg.replay && (cfg.dedupe || cfg.is_reflink)
    then (cfg, some replay_and_dedupe)
    else if cfg.dedupe || cfg.is_reflink
    then (cfg, none)
    else let fixed = fix_options cfg in (fixed, find_conflict outputs_ok fixed)
