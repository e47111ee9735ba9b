-- ===== src/Tests/Lints.antt =====
-- The lint types and the options of a command line.
use rmlint.Common.{
  ℕ, ◌≡◌, ◌≤◌, refl, true, false, not, ◌&&◌, ◌||◌, List, [], ◌∷◌, some, none, ◌==◌, if◌then◌else◌,
}
use rmlint.Common.Sign.{pos_part}
use rmlint.Cfg.{Bytes, RmCfg, set_default, sha1}
use rmlint.Cmdline.LintTypes.{
  codes, badids, get_flag, find_lint_types_sep, is_enabled, parse_lint_types,
}
use rmlint.Cmdline.LintTypes.Last.{mentions, find_last, parse_lint_types-last}
use rmlint.Cmdline.Options.{
  Opt, follow_symlinks, merge_directories, hidden, parse_options, finish_options, fix_options,
}
use rmlint.Cmdline.Options.Handlers.{IsSound}
use rmlint.Cmdline.Options.Sound.{finish_options-IsSound}
use rmlint.Tests.Samples.{cfg}

-- g_strsplit with a separator of one byte
abbrev add_byte : ℕ → List Bytes → List Bytes
add_byte c [] = (c ∷ []) ∷ []
add_byte c (t ∷ ts) = (c ∷ t) ∷ ts

abbrev strsplit : Bytes → ℕ → List Bytes
strsplit [] sep = [] ∷ []
strsplit (c ∷ s) sep = let rest = strsplit s sep in if c == sep then [] ∷ rest else add_byte c rest

abbrev no_badids : Bytes
no_badids = codes "+defaults,-badids"

-- the default types, but for bad ids
without_badids : get_flag badids (parse_lint_types strsplit no_badids cfg) ≡ false
unfolding get_flag parse_lint_types set_default
without_badids = refl

parse_lint_types-last_example :
    get_flag badids (parse_lint_types strsplit no_badids cfg)
    ≡ (elim (find_last (mentions badids) (strsplit no_badids b',')) [
      | none ↦ false
      | some t ↦ is_enabled t
    ])
unfolding find_lint_types_sep
parse_lint_types-last_example = parse_lint_types-last strsplit no_badids cfg badids

abbrev some_options : List Opt
some_options = merge_directories ∷ follow_symlinks ∷ hidden ∷ []

abbrev parsed : RmCfg
parsed = record cfg {
  merge_directories = true;
  follow_symlinks = true;
  see_symlinks = false;
  find_hardlinked_dupes = true;
  cache_file_structs = true;
  ignore_hidden = false;
  partial_hidden = false;
}

finish_options-IsSound_example :
    let r = (finish_options true parsed).0 in
    IsSound r
    × ((r.partial_hidden && not r.merge_directories) ≡ false)
    × (1 ≤ r.threads)
    × (r.threads ≤ 128)
    × (1 ≤ pos_part r.depth)
    × (pos_part r.depth ≤ 2049)
    × ((r.keep_all_tagged && (r.keep_all_untagged || r.must_match_untagged)) ≡ false)
    × ((r.keep_all_untagged && r.must_match_tagged) ≡ false)
unfolding parse_options set_default finish_options fix_options
finish_options-IsSound_example =
    finish_options-IsSound strsplit sha1 some_options true parsed parsed refl
      (record { follows = refl; sees = refl; ignores = refl; partly = refl }) refl refl
