-- ===== src/Preprocess/Compare/Order.antt =====
-- The comparison functions of lib/preprocess.c as orders.
use mathlib.Core.Path.{subst}
use rmlint.Common.{
  ℕ, ◌+◌, ◌≡◌, refl, Bool, true, false, not, ◌&&◌, ◌||◌, List, [], ◌∷◌, ◌++◌, Option, none, some,
  ◌==◌, if◌then◌else◌, length, bit, arith, ap, ◌∙◌,
}
use rmlint.Common.Sign.{
  ℤ, pos, gt0, lt0, signed, sign_diff, sign_diff_ℤ, sign_diff_bool, float_sign_diff,
  return_if_nonzero, IsOrder, IsOrder-constant, IsOrder-sign_diff, IsOrder-sign_diff_ℤ,
  IsOrder-sign_diff_bool, IsOrder-on, IsOrder-flipped, IsOrder-signed, IsOrder-return_if_nonzero,
}
use rmlint.Cfg.{Bytes, RmCfg}
use rmlint.Glib.{Glib, IsGlib, Pattern}
use rmlint.File.{RmFile, lint_number}
use rmlint.Utilities.Path.{path_extension}
use rmlint.Preprocess.PatternCache.{IsCoherent}
use rmlint.Preprocess.Compare.{
  extensions_cmp, cmp_stems, cmp_without_extension, file_cmp, is_upper, to_lower, pattern_at,
  next_cursor, mtime_tol,
}

IsOrder-if :
    {c d : RmFile → RmFile → ℤ} (b : Bool)
    → IsOrder c
    → IsOrder d
    → IsOrder (λ x y. if b then c x y else d x y)
IsOrder-if true o q = o
IsOrder-if false o q = q

-- a branch that is not taken need not be an order
IsOrder-else :
    (c : RmFile → RmFile → ℤ) {d : RmFile → RmFile → ℤ} (b : Bool)
    → b ≡ false
    → IsOrder d
    → IsOrder (λ x y. if b then c x y else d x y)
IsOrder-else c true e q = cc
IsOrder-else c false e q = q

module _ (g : Glib) (l : IsGlib g) where
  -- files with an extension come behind those without
  IsOrder-extensions_cmp : IsOrder (extensions_cmp g)
  unfolding extensions_cmp
  IsOrder-extensions_cmp = record { flip = flips; trans = chain }
    where
      flips : (a b : Option Bytes) → gt0 (extensions_cmp g b a) ≡ lt0 (extensions_cmp g a b)
      flips (some s) (some t) = l.case_order.flip s t
      flips (some s) none = refl
      flips none (some t) = refl
      flips none none = refl

      chain :
          (a b d : Option Bytes)
          → gt0 (extensions_cmp g a b) ≡ false
          → gt0 (extensions_cmp g b d) ≡ false
          → gt0 (extensions_cmp g a d) ≡ false
      chain (some s) (some t) (some u) h k = l.case_order.trans s t u h k
      chain (some s) (some t) none h k = cc
      chain (some s) none d h k = cc
      chain none b (some u) h k = refl
      chain none b none h k = refl

  -- If GLib's comparisons order the strings, and with the option --match-without-extension off,
  -- the comparison that decides which files belong to one group is a total preorder: swapping the
  -- files swaps the sign, and it is transitive.
  pub file_cmp-IsOrder :
      (cfg : RmCfg) → cfg.match_without_extension ≡ false → IsOrder (file_cmp g cfg)
  unfolding file_cmp
  file_cmp-IsOrder cfg off = IsOrder-return_if_nonzero (IsOrder-sign_diff (λ v. v.file_size)) (
      IsOrder-return_if_nonzero (IsOrder-sign_diff_bool (λ v. v.is_symlink)) (
        IsOrder-return_if_nonzero
          (IsOrder-if cfg.match_basename (IsOrder-on (λ v. v.basename) l.case_order)
            IsOrder-constant)
          (IsOrder-return_if_nonzero
            (IsOrder-if cfg.match_with_extension
              (IsOrder-on (λ v. path_extension v.basename) IsOrder-extensions_cmp) IsOrder-constant)
            (IsOrder-else (cmp_without_extension g) cfg.match_without_extension off
              IsOrder-constant))))

-- What a criterion's letter compares, with the patterns matched anew.
unfoldable pub rank_letter : Glib → List Pattern → ℕ → ℕ → RmFile → RmFile → ℤ
rank_letter g patterns letter cursor a b =
    if letter == b'm'
    then float_sign_diff a.mtime b.mtime mtime_tol
    else if letter == b'a'
    then g.strcasecmp a.basename b.basename
    else if letter == b'l'
    then sign_diff (length a.basename) (length b.basename)
    else if letter == b'd'
    then sign_diff_ℤ a.depth b.depth
    else if letter == b'h'
    then sign_diff_ℤ a.link_count b.link_count
    else if letter == b'o'
    then sign_diff_ℤ a.outer_link_count b.outer_link_count
    else if letter == b'p'
    then sign_diff a.path_index b.path_index
    else if letter == b'x'
    then sign_diff_bool (pattern_at patterns cursor b.basename)
        (pattern_at patterns cursor a.basename)
    else if letter == b'r'
    then sign_diff_bool (pattern_at patterns cursor b.path) (pattern_at patterns cursor a.path)
    else pos 0

unfoldable pub rank_criteria : Glib → List Pattern → Bytes → ℕ → RmFile → RmFile → ℤ
unfolding rank_letter
rank_criteria g patterns [] cursor a b = pos 0
rank_criteria g patterns (criterion ∷ rest) cursor a b =
    return_if_nonzero
      (signed (is_upper criterion) (rank_letter g patterns (to_lower criterion) cursor a b))
      (rank_criteria g patterns rest (next_cursor criterion cursor) a b)

-- The ranking of a file among its duplicates, with nothing cached: other lint before duplicates, files before
-- symbolic links, tagged paths first, then the criteria from left to right.
unfoldable pub ranking : Glib → RmCfg → List Pattern → RmFile → RmFile → ℤ
unfolding rank_criteria rank_letter
ranking g cfg patterns a b =
    return_if_nonzero (sign_diff (lint_number a.lint_type) (lint_number b.lint_type)) (
      return_if_nonzero (sign_diff_bool a.is_symlink b.is_symlink) (
        return_if_nonzero (sign_diff_bool b.is_prefd a.is_prefd)
          (rank_criteria g patterns cfg.sort_criteria 0 a b)))

-- No letter of the criteria asks for the modification time.
abbrev pub no_mtime : Bytes → Bool
no_mtime [] = true
no_mtime (c ∷ cs) = not (to_lower c == b'm') && no_mtime cs

-- The letters of the criteria that use up a pattern.
abbrev pub pattern_letters : Bytes → ℕ
pattern_letters [] = 0
pattern_letters (c ∷ cs) = bit ((to_lower c == b'x') || (to_lower c == b'r')) + pattern_letters cs

-- The file's pattern masks agree with the patterns.
abbrev pub HasCoherent : List Pattern → RmFile → Type 0
HasCoherent patterns v =
    IsCoherent (pattern_at patterns) v.basename v.pattern_bitmask_basename
    × IsCoherent (pattern_at patterns) v.path v.pattern_bitmask_path

module _ (g : Glib) (l : IsGlib g) (patterns : List Pattern) where
  IsOrder-rank_letter :
      (letter cursor : ℕ)
      → (letter == b'm') ≡ false
      → IsOrder (rank_letter g patterns letter cursor)
  unfolding rank_letter
  IsOrder-rank_letter letter cursor e =
      IsOrder-else (λ a b. float_sign_diff a.mtime b.mtime mtime_tol) (letter == b'm') e
        (IsOrder-if (letter == b'a') (IsOrder-on (λ v. v.basename) l.case_order) (
          IsOrder-if (letter == b'l') (IsOrder-sign_diff (λ v. length v.basename)) (
            IsOrder-if (letter == b'd') (IsOrder-sign_diff_ℤ (λ v. v.depth)) (
              IsOrder-if (letter == b'h') (IsOrder-sign_diff_ℤ (λ v. v.link_count)) (
                IsOrder-if (letter == b'o') (IsOrder-sign_diff_ℤ (λ v. v.outer_link_count)) (
                  IsOrder-if (letter == b'p') (IsOrder-sign_diff (λ v. v.path_index)) (
                    IsOrder-if (letter == b'x')
                      (IsOrder-flipped
                        (IsOrder-sign_diff_bool (λ v. pattern_at patterns cursor v.basename)))
                      (IsOrder-if (letter == b'r')
                        (IsOrder-flipped
                          (IsOrder-sign_diff_bool (λ v. pattern_at patterns cursor v.path)))
                        IsOrder-constant))))))))

  IsOrder-rank_criteria :
      (criteria : Bytes) (cursor : ℕ)
      → no_mtime criteria ≡ true
      → IsOrder (rank_criteria g patterns criteria cursor)
  unfolding rank_criteria
  IsOrder-rank_criteria [] cursor h = IsOrder-constant
  IsOrder-rank_criteria (c ∷ cs) cursor h =
      IsOrder-return_if_nonzero
        (IsOrder-signed (IsOrder-rank_letter (to_lower c) cursor (ground arith)) (is_upper c))
        (IsOrder-rank_criteria cs (next_cursor c cursor) (ground arith))

  -- If GLib's comparisons order the strings, criteria without the modification time rank files in
  -- a total preorder.
  ranking-IsOrder :
      (cfg : RmCfg) → no_mtime cfg.sort_criteria ≡ true → IsOrder (ranking g cfg patterns)
  unfolding ranking
  ranking-IsOrder cfg h =
      IsOrder-return_if_nonzero (IsOrder-sign_diff (λ v. lint_number v.lint_type)) (
        IsOrder-return_if_nonzero (IsOrder-sign_diff_bool (λ v. v.is_symlink)) (
          IsOrder-return_if_nonzero (IsOrder-flipped (IsOrder-sign_diff_bool (λ v. v.is_prefd)))
            (IsOrder-rank_criteria cfg.sort_criteria 0 h)))

-- The bytes of a name hold no dot.
abbrev pub no_dot : Bytes → Bool
no_dot [] = true
no_dot (b ∷ s) = not (b == b'.') && no_dot s

no_extension : (s : Bytes) → no_dot s ≡ true → path_extension s ≡ none
unfolding path_extension
no_extension [] h = refl
no_extension (b ∷ s) h = ground (arith, no_extension s)

cmp_stems_prefix :
    (g : Glib)
    → IsGlib g
    → (s rest : Bytes) → no_dot s ≡ true
    → no_dot (s ++ rest) ≡ true
    → cmp_stems g s (s ++ rest) ≡ pos 0
unfolding cmp_stems
cmp_stems_prefix g l s rest ds dr =
    ground (arith, no_extension s ds, no_extension (s ++ rest) dr, l.prefix_only s rest)

-- If GLib's comparison of n bytes sees the first n bytes only, then in the comparison of
-- --match-without-extension a name without a dot equals each longer name without a dot that
-- continues it, since both are measured by the first name.
cmp_without_extension_prefix :
    (g : Glib)
    → IsGlib g
    → (a b : RmFile) (rest : Bytes) → b.basename ≡ a.basename ++ rest
    → no_dot a.basename ≡ true
    → no_dot b.basename ≡ true
    → cmp_without_extension g a b ≡ pos 0
unfolding cmp_without_extension
cmp_without_extension_prefix g l a b rest e da db =
    ap (cmp_stems g a.basename) e
    ∙ cmp_stems_prefix g l a.basename rest da (subst (λ t. no_dot t ≡ true) e db)
