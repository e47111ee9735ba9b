-- ===== src/Cmdline/Options/Handlers.antt =====
-- What each handler of an option leaves true of symbolic links and hidden files (lib/cmdline.c).
use rmlint.Common.{
  ℕ, ◌≡◌, ◌≢◌, refl, sym, ◌∙◌, ap, Bool, true, false, ◌&&◌, List, [], ◌∷◌, none, some, ◌==◌,
  if◌then◌else◌, arith, Option-cases, inl, inr,
}
use mathlib.Core.Path.{subst}
use rmlint.Cfg.{Bytes, RmCfg}
use rmlint.Cmdline.LintTypes.{
  LintFlag, set_flag, set_flags, apply_lint_type, apply_lint_types, find_lint_types_sep, option_of,
  all_flags, is_enabled, parse_lint_types, parse_merge_directories, parse_partial_hidden, codes,
  badids, badlinks, emptydirs, emptyfiles, nonstripped, duplicates, merged_dirs,
}
use rmlint.Cmdline.Options.{
  Opt, merge_directories, partial_hidden, no_partial_hidden, hidden, no_hidden, honour_dir_layout,
  see_symlinks, follow_symlinks, no_follow_symlinks, xattr, equal, btrfs_clone, btrfs_readonly,
  lint_types, sortby, algorithm, limit_sizes, parse_equal, parse_option, parse_options,
}

-- The assertion of rm_cmd_parse_args, and its counterpart for hidden files.
pub record IsSound (cfg : RmCfg) : Type 0 where
  pub symlinks : (cfg.follow_symlinks && cfg.see_symlinks) ≡ false
  pub hiding : (cfg.ignore_hidden && cfg.partial_hidden) ≡ false

-- The options of two runs agree on symbolic links and hidden files.
pub record Agree (a b : RmCfg) : Type 0 where
  pub follows : a.follow_symlinks ≡ b.follow_symlinks
  pub sees : a.see_symlinks ≡ b.see_symlinks
  pub ignores : a.ignore_hidden ≡ b.ignore_hidden
  pub partly : a.partial_hidden ≡ b.partial_hidden

pub Agree-IsSound : (a b : RmCfg) → Agree a b → IsSound b → IsSound a
Agree-IsSound a b e s = record {
  symlinks = ground (arith, e.follows, e.sees, s.symlinks);
  hiding = ground (arith, e.ignores, e.partly, s.hiding);
}

set_flag-Agree : (f : LintFlag) (v : Bool) (cfg : RmCfg) → Agree (set_flag f v cfg) cfg
unfolding set_flag
set_flag-Agree badids v cfg = record { follows = refl; sees = refl; ignores = refl; partly = refl }
set_flag-Agree badlinks v cfg = record {
  follows = refl;
  sees = refl;
  ignores = refl;
  partly = refl;
}
set_flag-Agree emptydirs v cfg = record {
  follows = refl;
  sees = refl;
  ignores = refl;
  partly = refl;
}
set_flag-Agree emptyfiles v cfg = record {
  follows = refl;
  sees = refl;
  ignores = refl;
  partly = refl;
}
set_flag-Agree nonstripped v cfg = record {
  follows = refl;
  sees = refl;
  ignores = refl;
  partly = refl;
}
set_flag-Agree duplicates v cfg = record {
  follows = refl;
  sees = refl;
  ignores = refl;
  partly = refl;
}
set_flag-Agree merged_dirs v cfg = record {
  follows = refl;
  sees = refl;
  ignores = refl;
  partly = refl;
}

set_flags-IsSound :
    (fs : List LintFlag) (v : Bool) (cfg : RmCfg) → IsSound cfg → IsSound (set_flags fs v cfg)
unfolding set_flags
set_flags-IsSound [] v cfg s = s
set_flags-IsSound (f ∷ fs) v cfg s =
    set_flags-IsSound fs v (set_flag f v cfg)
      (Agree-IsSound (set_flag f v cfg) cfg (set_flag-Agree f v cfg) s)

apply_lint_types-IsSound :
    (types : List Bytes) (cfg : RmCfg) → IsSound cfg → IsSound (apply_lint_types types cfg)
unfolding apply_lint_types apply_lint_type
apply_lint_types-IsSound [] cfg s = s
apply_lint_types-IsSound (t ∷ types) cfg s =
    apply_lint_types-IsSound types (apply_lint_type t cfg) (elim (Option-cases (option_of t)) [
      | inl unknown_name ↦ rw (apply_lint_type, unknown_name) s
      | inr (enable, known) ↦
          rw (apply_lint_type, known) (set_flags-IsSound enable (is_enabled t) cfg s)
    ])

if_IsSound : (b : Bool) (x y : RmCfg) → IsSound x → IsSound y → IsSound (if b then x else y)
if_IsSound true x y p q = p
if_IsSound false x y p q = q

parse_merge_directories-IsSound : (cfg : RmCfg) → IsSound (parse_merge_directories cfg)
unfolding parse_merge_directories parse_partial_hidden
parse_merge_directories-IsSound cfg = record { symlinks = refl; hiding = refl }

parse_lint_types-IsSound :
    (strsplit : Bytes → ℕ → List Bytes) (s : Bytes) (cfg : RmCfg)
    → IsSound cfg
    → IsSound (parse_lint_types strsplit s cfg)
unfolding parse_lint_types
parse_lint_types-IsSound strsplit s cfg w =
    let sep = find_lint_types_sep s in
    let types = strsplit s (if sep == 0 then b',' else sep) in
    let chosen : RmCfg = apply_lint_types types (set_flags all_flags false cfg) in
    if_IsSound chosen.merge_directories (parse_merge_directories chosen) chosen
      (parse_merge_directories-IsSound chosen)
      (apply_lint_types-IsSound types (set_flags all_flags false cfg)
        (set_flags-IsSound all_flags false cfg w))

parse_equal-IsSound :
    (strsplit : Bytes → ℕ → List Bytes) (cfg : RmCfg) → IsSound (parse_equal strsplit cfg)
unfolding parse_equal
parse_equal-IsSound strsplit cfg =
    let s =
      parse_lint_types-IsSound strsplit (codes "df,dd") (parse_merge_directories cfg)
        (parse_merge_directories-IsSound cfg) in
    record { symlinks = s.symlinks; hiding = refl }

none_not_some : {c : RmCfg} → none ≢ some c
none_not_some e = cc

-- the options that a handler returns
from_some : (a b : RmCfg) → IsSound a → some a ≡ some b → IsSound b
from_some a b s e = subst IsSound (ap (λ o. elim o [ none ↦ a | some c ↦ c ]) e) s

from_test : (t : Bool) (a b : RmCfg) → IsSound a → (if t then some a else none) ≡ some b → IsSound b
from_test true a b s e = from_some a b s e
from_test false a b s e = absurd (none_not_some e)

from_test_not :
    (t : Bool) (a b : RmCfg) → IsSound a → (if t then none else some a) ≡ some b → IsSound b
from_test_not false a b s e = from_some a b s e
from_test_not true a b s e = absurd (none_not_some e)

parse_option-IsSound :
    (strsplit : Bytes → ℕ → List Bytes) (o : Opt) (cfg cfg' : RmCfg)
    → IsSound cfg
    → parse_option strsplit o cfg ≡ some cfg'
    → IsSound cfg'
unfolding parse_option parse_partial_hidden
parse_option-IsSound strsplit merge_directories cfg cfg' w e =
    from_some _ cfg' (parse_merge_directories-IsSound cfg) e
parse_option-IsSound strsplit partial_hidden cfg cfg' w e =
    from_some _ cfg' (record { symlinks = w.symlinks; hiding = refl }) e
parse_option-IsSound strsplit no_partial_hidden cfg cfg' w e =
    from_some _ cfg' (record { symlinks = w.symlinks; hiding = refl }) e
parse_option-IsSound strsplit hidden cfg cfg' w e =
    from_some _ cfg' (record { symlinks = w.symlinks; hiding = refl }) e
parse_option-IsSound strsplit no_hidden cfg cfg' w e =
    from_some _ cfg' (record { symlinks = w.symlinks; hiding = refl }) e
parse_option-IsSound strsplit honour_dir_layout cfg cfg' w e =
    from_some _ cfg' (record { symlinks = w.symlinks; hiding = w.hiding }) e
parse_option-IsSound strsplit see_symlinks cfg cfg' w e =
    from_some _ cfg' (record { symlinks = refl; hiding = w.hiding }) e
parse_option-IsSound strsplit follow_symlinks cfg cfg' w e =
    from_some _ cfg' (record { symlinks = refl; hiding = w.hiding }) e
parse_option-IsSound strsplit no_follow_symlinks cfg cfg' w e =
    from_some _ cfg' (record { symlinks = refl; hiding = w.hiding }) e
parse_option-IsSound strsplit xattr cfg cfg' w e =
    from_some _ cfg' (record { symlinks = w.symlinks; hiding = w.hiding }) e
parse_option-IsSound strsplit equal cfg cfg' w e =
    from_some _ cfg' (parse_equal-IsSound strsplit cfg) e
parse_option-IsSound strsplit btrfs_clone cfg cfg' w e =
    from_some _ cfg' (record { symlinks = w.symlinks; hiding = w.hiding }) e
parse_option-IsSound strsplit btrfs_readonly cfg cfg' w e =
    from_some _ cfg' (record { symlinks = w.symlinks; hiding = w.hiding }) e
parse_option-IsSound strsplit (lint_types s) cfg cfg' w e =
    from_some _ cfg' (parse_lint_types-IsSound strsplit s cfg w) e
parse_option-IsSound strsplit (sortby criteria) cfg cfg' w e =
    from_test _ _ cfg' (record { symlinks = w.symlinks; hiding = w.hiding }) e
parse_option-IsSound strsplit (algorithm type) cfg cfg' w e =
    from_test_not _ _ cfg' (record { symlinks = w.symlinks; hiding = w.hiding }) e
parse_option-IsSound strsplit (limit_sizes low high) cfg cfg' w e =
    from_test_not _ _ cfg' (record { symlinks = w.symlinks; hiding = w.hiding }) e

pub parse_options-IsSound :
    (strsplit : Bytes → ℕ → List Bytes) (opts : List Opt) (cfg cfg' : RmCfg)
    → IsSound cfg
    → parse_options strsplit opts cfg ≡ some cfg'
    → IsSound cfg'
unfolding parse_options
parse_options-IsSound strsplit [] cfg cfg' w e = from_some cfg cfg' w e
parse_options-IsSound strsplit (o ∷ opts) cfg cfg' w e =
    elim (Option-cases (parse_option strsplit o cfg)) [
      | inl fails ↦ absurd (none_not_some (sym (rw (parse_options, fails) refl) ∙ e))
      | inr (next, done) ↦
          parse_options-IsSound strsplit opts next cfg'
            (parse_option-IsSound strsplit o cfg next w done)
            (sym (rw (parse_options, done) refl) ∙ e)
    ]
