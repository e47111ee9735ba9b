-- ===== src/Cfg.antt =====
-- lib/cfg.h and lib/cfg.c: the options of a run. A time is a whole number of nanoseconds where the
-- source has a double of seconds. The two skip factors are doubles that no modelled code reads; they
-- are kept in millionths. Not here: the trie of paths (a component of its own).
use rmlint.Common.{
  ℕ, ◌+◌, ◌-◌, ◌^◌, ◌*◌, ◌/◌, Bool, true, false, not, ◌&&◌, ◌||◌, List, [], ◌∷◌, Option, none, some,
  ◌==◌, if◌then◌else◌,
}
use rmlint.Common.Sign.{ℤ, pos, negsuc}

abbrev pub Bytes : Type 0
Bytes = List ℕ

-- RmDigestType, with the types that need a compiler feature
pub data DigestType : Type 0 where
  unknown murmur metro metro256 metrocrc metrocrc256 md5 sha1 sha256 sha512 : DigestType
  sha3_256 sha3_384 sha3_512 blake2s blake2b blake2sp blake2bp xxhash : DigestType
  highway64 highway128 highway256 cumulative ext paranoid sentinel : DigestType

-- RmPath: a path given on the command line
pub record RmPath : Type 0 where
  pub path : Bytes
  pub idx : ℕ
  pub is_prefd : Bool
  pub treat_as_single_vol : Bool
  pub realpath_worked : Bool

pub record RmCfg : Type 0 where
  pub with_color : Bool
  pub with_stdout_color : Bool
  pub with_stderr_color : Bool
  pub crossdev : Bool
  pub ignore_hidden : Bool
  pub partial_hidden : Bool
  pub follow_symlinks : Bool
  pub see_symlinks : Bool
  pub find_badids : Bool
  pub find_badlinks : Bool
  pub find_duplicates : Bool
  pub find_emptydirs : Bool
  pub find_nonstripped : Bool
  pub find_emptyfiles : Bool
  pub keep_all_tagged : Bool
  pub keep_all_untagged : Bool
  pub must_match_tagged : Bool
  pub must_match_untagged : Bool
  pub find_hardlinked_dupes : Bool
  pub keep_hardlinked_dupes : Bool
  pub limits_specified : Bool
  pub filter_mtime : Bool
  pub match_basename : Bool
  pub unmatched_basenames : Bool
  pub match_with_extension : Bool
  pub match_without_extension : Bool
  pub merge_directories : Bool
  pub honour_dir_layout : Bool
  pub write_cksum_to_xattr : Bool
  pub read_cksum_from_xattr : Bool
  pub clear_xattr_fields : Bool
  pub write_unfinished : Bool
  pub build_fiemap : Bool
  pub use_buffered_read : Bool
  pub fake_fiemap : Bool
  pub progress_enabled : Bool
  pub list_mounts : Bool
  pub replay : Bool
  pub read_stdin : Bool
  pub read_stdin0 : Bool
  pub backup : Bool
  pub permissions : ℤ
  pub min_mtime : ℤ
  pub mtime_window : ℤ
  pub depth : ℤ
  pub verbosity : ℕ
  pub clamp_is_used : Bool
  pub skip_start_factor : ℕ
  pub skip_end_factor : ℕ
  pub use_absolute_start_offset : Bool
  pub use_absolute_end_offset : Bool
  pub skip_start_offset : ℕ
  pub skip_end_offset : ℕ
  pub paths : List RmPath
  pub json_paths : List RmPath
  pub path_count : ℕ
  pub iwd : Bytes
  pub full_argv0_path : Bytes
  pub joined_argv : Bytes
  pub sort_criteria : Bytes
  pub rank_criteria : Bytes
  pub minsize : ℕ
  pub maxsize : ℕ
  pub threads : ℕ
  pub threads_per_disk : ℕ
  pub checksum_type : DigestType
  pub total_mem : ℕ
  pub read_buf_len : ℕ
  pub sweep_size : ℕ
  pub sweep_count : ℕ
  pub shred_always_wait : Bool
  pub shred_never_wait : Bool
  pub fake_pathindex_as_disk : Bool
  pub fake_abort : Bool
  pub cache_file_structs : Bool
  pub run_equal_mode : Bool
  pub dedupe : Bool
  pub dedupe_check_xattr : Bool
  pub dedupe_readonly : Bool
  pub is_reflink : Bool
  pub no_sse : Bool

-- PATH_MAX of limits.h
abbrev pub path_max : ℕ
path_max = 4096

-- rm_cfg_set_default; RM_DEFAULT_DIGEST is chosen by the build, and 64 is G_LOG_LEVEL_INFO.
unfoldable pub set_default : DigestType → RmCfg
set_default default_digest = record {
  with_color = true;
  with_stdout_color = true;
  with_stderr_color = true;
  crossdev = true;
  ignore_hidden = true;
  partial_hidden = false;
  follow_symlinks = false;
  see_symlinks = true;
  find_badids = true;
  find_badlinks = true;
  find_duplicates = true;
  find_emptydirs = true;
  find_nonstripped = false;
  find_emptyfiles = true;
  keep_all_tagged = false;
  keep_all_untagged = false;
  must_match_tagged = false;
  must_match_untagged = false;
  find_hardlinked_dupes = true;
  keep_hardlinked_dupes = false;
  limits_specified = true;
  filter_mtime = false;
  match_basename = false;
  unmatched_basenames = false;
  match_with_extension = false;
  match_without_extension = false;
  merge_directories = false;
  honour_dir_layout = false;
  write_cksum_to_xattr = false;
  read_cksum_from_xattr = false;
  clear_xattr_fields = false;
  write_unfinished = false;
  build_fiemap = true;
  use_buffered_read = false;
  fake_fiemap = false;
  progress_enabled = false;
  list_mounts = true;
  replay = false;
  read_stdin = false;
  read_stdin0 = false;
  backup = false;
  permissions = pos 0;
  min_mtime = pos 0;
  mtime_window = negsuc 999999999;
  depth = pos (path_max / 2);
  verbosity = 64;
  clamp_is_used = false;
  skip_start_factor = 0;
  skip_end_factor = 1000000;
  use_absolute_start_offset = false;
  use_absolute_end_offset = false;
  skip_start_offset = 0;
  skip_end_offset = 0;
  paths = [];
  json_paths = [];
  path_count = 0;
  iwd = [];
  full_argv0_path = [];
  joined_argv = [];
  sort_criteria = b'p' ∷ b'O' ∷ b'm' ∷ b'a' ∷ [];
  rank_criteria = [];
  minsize = 1;
  maxsize = 2 ^ 64 - 1;
  threads = 16;
  threads_per_disk = 2;
  checksum_type = default_digest;
  total_mem = 1024 * 1024 * 1024;
  read_buf_len = 16 * 1024;
  sweep_size = 1024 * 1024 * 1024;
  sweep_count = 1024 * 16;
  shred_always_wait = false;
  shred_never_wait = false;
  fake_pathindex_as_disk = false;
  fake_abort = false;
  cache_file_structs = false;
  run_equal_mode = false;
  dedupe = false;
  dedupe_check_xattr = false;
  dedupe_readonly = false;
  is_reflink = false;
  no_sse = false;
}

-- What the C library answers for a path: access(2) and readlink(2) succeed, realpath(3), and the
-- canonical form that GLib computes without the file system.
pub record PathOracle : Type 0 where
  pub access : Bytes → Bool
  pub readlink : Bytes → Bool
  pub realpath : Bytes → Option Bytes
  pub canonicalize : Bytes → Bytes

-- strncmp(s, "//", 2) == 0
abbrev pub starts_with_slashes : Bytes → Bool
starts_with_slashes (a ∷ b ∷ s) = (a == b'/') && (b == b'/')
starts_with_slashes s = false

abbrev is_json : Bytes → Bool
is_json (a ∷ b ∷ c ∷ d ∷ e ∷ []) =
    (a == b'.') && (b == b'j') && (c == b's') && (d == b'o') && (e == b'n')
is_json s = false

-- g_str_has_suffix(s, ".json")
abbrev pub has_json_suffix : Bytes → Bool
has_json_suffix [] = false
has_json_suffix (a ∷ s) = is_json (a ∷ s) || has_json_suffix s

unfoldable pub real_path : PathOracle → Bytes → Bytes × Bool
real_path o path = elim (o.realpath path) [
  | some p ↦ (p, true)
  | none ↦ (o.canonicalize path, false)
]

-- rm_cfg_add_path: the options with the path noted, and whether it could be opened.
unfoldable pub add_path : PathOracle → RmCfg → Bool → Bytes → RmCfg × Bool
unfolding real_path
add_path o cfg is_prefd path =
    if not (o.access path) && not (o.readlink path)
    then (cfg, false)
    else let rmpath : RmPath = record {
      path = (real_path o path).0;
      idx = cfg.path_count;
      is_prefd = is_prefd;
      treat_as_single_vol = starts_with_slashes path;
      realpath_worked = (real_path o path).1;
    } in
      if cfg.replay && has_json_suffix rmpath.path
      then (record cfg { json_paths = rmpath ∷ cfg.json_paths }, true)
      else (record cfg { path_count = cfg.path_count + 1; paths = rmpath ∷ cfg.paths }, true)
