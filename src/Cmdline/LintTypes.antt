-- ===== src/Cmdline/LintTypes.antt =====
-- The lint types of the command line (lib/cmdline.c: rm_cmd_parse_lint_types). g_strsplit is an argument.
pub mod Last
use Prim.Native.Char.{code}
use Prim.Native.String
use Prim.Native.String.{String}
use rmlint.Common.{
  ℕ, Bool, true, false, ◌&&◌, ◌||◌, List, [], ◌∷◌, Option, none, some, ◌==◌, leb, any,
  if◌then◌else◌,
}
use rmlint.Cfg.{Bytes, RmCfg}
use rmlint.Preprocess.Cluster.{bytes_equal}

abbrev pub codes : String → Bytes
codes String.[] = []
codes (String.◌∷◌ c s) = code c ∷ codes s

-- The fields of the options that the table points at.
pub data LintFlag : Type 0 where
  badids badlinks emptydirs emptyfiles nonstripped duplicates merged_dirs : LintFlag

abbrev pub flag_number : LintFlag → ℕ
flag_number badids = 0
flag_number badlinks = 1
flag_number emptydirs = 2
flag_number emptyfiles = 3
flag_number nonstripped = 4
flag_number duplicates = 5
flag_number merged_dirs = 6

unfoldable pub get_flag : LintFlag → RmCfg → Bool
get_flag badids cfg = cfg.find_badids
get_flag badlinks cfg = cfg.find_badlinks
get_flag emptydirs cfg = cfg.find_emptydirs
get_flag emptyfiles cfg = cfg.find_emptyfiles
get_flag nonstripped cfg = cfg.find_nonstripped
get_flag duplicates cfg = cfg.find_duplicates
get_flag merged_dirs cfg = cfg.merge_directories

unfoldable pub set_flag : LintFlag → Bool → RmCfg → RmCfg
set_flag badids v cfg = record cfg { find_badids = v }
set_flag badlinks v cfg = record cfg { find_badlinks = v }
set_flag emptydirs v cfg = record cfg { find_emptydirs = v }
set_flag emptyfiles v cfg = record cfg { find_emptyfiles = v }
set_flag nonstripped v cfg = record cfg { find_nonstripped = v }
set_flag duplicates v cfg = record cfg { find_duplicates = v }
set_flag merged_dirs v cfg = record cfg { merge_directories = v }

-- for(i = 0; enable[i]; i++) *enable[i] = v
unfoldable pub set_flags : List LintFlag → Bool → RmCfg → RmCfg
unfolding set_flag
set_flags [] v cfg = cfg
set_flags (f ∷ enable) v cfg = set_flags enable v (set_flag f v cfg)

abbrev pub all_flags : List LintFlag
all_flags = badids ∷ badlinks ∷ emptydirs ∷ emptyfiles ∷ nonstripped ∷ duplicates ∷ merged_dirs ∷ []

-- option_table
abbrev pub option_table : List (List Bytes × List LintFlag)
option_table =
    (codes "all" ∷ [], all_flags)
    ∷ (codes "minimal" ∷ [], badids ∷ badlinks ∷ duplicates ∷ [])
    ∷ (codes "minimaldirs" ∷ [], badids ∷ badlinks ∷ merged_dirs ∷ [])
    ∷ (codes "defaults" ∷ [], badids ∷ badlinks ∷ emptydirs ∷ emptyfiles ∷ duplicates ∷ [])
    ∷ (codes "none" ∷ [], [])
    ∷ (codes "badids" ∷ codes "bi" ∷ [], badids ∷ [])
    ∷ (codes "badlinks" ∷ codes "bl" ∷ [], badlinks ∷ [])
    ∷ (codes "emptydirs" ∷ codes "ed" ∷ [], emptydirs ∷ [])
    ∷ (codes "emptyfiles" ∷ codes "ef" ∷ [], emptyfiles ∷ [])
    ∷ (codes "nonstripped" ∷ codes "ns" ∷ [], nonstripped ∷ [])
    ∷ (codes "duplicates" ∷ codes "df" ∷ codes "dupes" ∷ [], duplicates ∷ [])
    ∷ (codes "duplicatedirs" ∷ codes "dd" ∷ codes "dupedirs" ∷ [], merged_dirs ∷ [])
    ∷ []

-- rm_cmd_find_line_type_func, 0 being the answer for a match
abbrev find_line_type_func : Bytes → List Bytes → Bool
find_line_type_func input names = any (λ name. bytes_equal name input) names

-- lfind over the table
unfoldable pub find_option : Bytes → List (List Bytes × List LintFlag) → Option (List LintFlag)
find_option input [] = none
find_option input ((names, enable) ∷ table) =
    if find_line_type_func input names then some enable else find_option input table

-- isalpha of the C locale
abbrev is_alpha : ℕ → Bool
is_alpha c = (leb b'a' c && leb c b'z') || (leb b'A' c && leb c b'Z')

abbrev skip_alpha : Bytes → ℕ
skip_alpha [] = 0
skip_alpha (c ∷ s) = if is_alpha c then skip_alpha s else c

-- *lint_string == '+' || *lint_string == '-'
abbrev is_sign : ℕ → Bool
is_sign c = (c == b'+') || (c == b'-')

-- rm_cmd_find_lint_types_sep; 0 is the end of the string
unfoldable pub find_lint_types_sep : Bytes → ℕ
find_lint_types_sep [] = 0
find_lint_types_sep (c ∷ s) = if is_sign c then skip_alpha s else skip_alpha (c ∷ s)

-- sign != -1
abbrev pub is_enabled : Bytes → Bool
is_enabled [] = true
is_enabled (c ∷ s) = if c == b'-' then false else true

-- a lint type without its sign
abbrev pub without_sign : Bytes → Bytes
without_sign [] = []
without_sign (c ∷ s) = if is_sign c then s else c ∷ s

-- what lfind finds for a lint type
unfoldable pub option_of : Bytes → Option (List LintFlag)
unfolding find_option
option_of lint_type = find_option (without_sign lint_type) option_table

-- One round of the loop over the lint types.
unfoldable pub apply_lint_type : Bytes → RmCfg → RmCfg
unfolding option_of set_flags
apply_lint_type lint_type cfg = elim (option_of lint_type) [
  | none ↦ cfg
  | some enable ↦ set_flags enable (is_enabled lint_type) cfg
]

unfoldable pub apply_lint_types : List Bytes → RmCfg → RmCfg
unfolding apply_lint_type
apply_lint_types [] cfg = cfg
apply_lint_types (t ∷ types) cfg = apply_lint_types types (apply_lint_type t cfg)

-- rm_cmd_parse_partial_hidden
unfoldable pub parse_partial_hidden : RmCfg → RmCfg
parse_partial_hidden cfg = record cfg { ignore_hidden = false; partial_hidden = true }

-- rm_cmd_parse_merge_directories
unfoldable pub parse_merge_directories : RmCfg → RmCfg
unfolding parse_partial_hidden
parse_merge_directories cfg =
    let partial =
      parse_partial_hidden
        (record cfg { merge_directories = true; follow_symlinks = false; see_symlinks = true }) in
    record partial { find_hardlinked_dupes = true; cache_file_structs = true }

-- rm_cmd_parse_lint_types; `strsplit` is g_strsplit with a separator of one byte and no limit
unfoldable pub parse_lint_types : (Bytes → ℕ → List Bytes) → Bytes → RmCfg → RmCfg
unfolding find_lint_types_sep apply_lint_types parse_merge_directories set_flags
parse_lint_types strsplit lint_string cfg =
    let sep = find_lint_types_sep lint_string in
    let types = strsplit lint_string (if sep == 0 then b',' else sep) in
    let chosen = apply_lint_types types (set_flags all_flags false cfg) in
    if chosen.merge_directories then parse_merge_directories chosen else chosen
