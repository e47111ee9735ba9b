-- ===== src/Preprocess/Compare/Cached.antt =====
-- rm_pp_cmp_orig_criteria of lib/preprocess.c with the masks in which it keeps what patterns said.
use mathlib.Core.Path.{subst}
use rmlint.Common.{
  ℕ, ◌+◌, ◌≤◌, ◌<◌, ◌≡◌, refl, sym, ◌∙◌, ap, Bool, true, false, not, ◌||◌, List, [], ◌∷◌, ◌==◌,
  if◌then◌else◌, arith, Bool-cases, inl, inr,
}
use rmlint.Common.Sign.{ℤ, is_zero, signed, sign_diff, sign_diff_bool, return_if_nonzero}
use rmlint.Cfg.{Bytes, RmCfg}
use rmlint.Glib.{Glib, Pattern}
use rmlint.File.{RmFile, lint_number}
use rmlint.Preprocess.PatternCache.{cmp_by_regex_lem, IsCoherent, pattern_n_max}
use rmlint.Preprocess.Compare.{
  is_upper, to_lower, pattern_at, cmp_letter, cmp_criterion, next_cursor, cmp_criteria,
  cmp_and_cache,
}
use rmlint.Preprocess.Compare.Order.{
  rank_letter, rank_criteria, ranking, pattern_letters, HasCoherent,
}

-- The file with other masks.
abbrev masked : RmFile → ℕ → ℕ → RmFile
masked v name path = record v { pattern_bitmask_basename = name; pattern_bitmask_path = path }

-- A file after comparisons: only its masks may differ, and they agree with the patterns.
pub record Keeps (patterns : List Pattern) (v w : RmFile) : Type 0 where
  pub name_mask : ℕ
  pub path_mask : ℕ
  pub rest : w ≡ record v { pattern_bitmask_basename = name_mask; pattern_bitmask_path = path_mask }
  pub name : IsCoherent (pattern_at patterns) v.basename name_mask
  pub path : IsCoherent (pattern_at patterns) v.path path_mask

module _ (g : Glib) (patterns : List Pattern) (a b : RmFile) where
  -- A comparison that gives this sign, and keeps both files.
  abbrev Done : ℤ × RmFile × RmFile → ℤ → Type 0
  Done (cmp, v, w) z = (cmp ≡ z) × Keeps patterns a v × Keeps patterns b w

  Done-if :
      (c : Bool) {r s : ℤ × RmFile × RmFile} {x y : ℤ}
      → (c ≡ true → Done r x)
      → (c ≡ false → Done s y)
      → Done (if c then r else s) (if c then x else y)
  Done-if true p q = p refl
  Done-if false p q = q refl

  -- a letter without pattern keeps the files
  Done-if_plain :
      (c : Bool) {z x y : ℤ} {s : ℤ × RmFile × RmFile} {v w : RmFile}
      → z ≡ x
      → Keeps patterns a v
      → Keeps patterns b w
      → (c ≡ false → Done s y)
      → Done (if c then (z, v, w) else s) (if c then x else y)
  Done-if_plain true e ka kb q = (e, ka, kb)
  Done-if_plain false e ka kb q = q refl

  masked_letter :
      (letter cursor m n k l : ℕ)
      → IsCoherent (pattern_at patterns) a.basename m
      → IsCoherent (pattern_at patterns) a.path n
      → IsCoherent (pattern_at patterns) b.basename k
      → IsCoherent (pattern_at patterns) b.path l
      → (((letter == b'x') || (letter == b'r')) ≡ true → cursor < pattern_n_max)
      → Done
          (cmp_letter g patterns letter cursor (masked a m n) (masked b k l))
          (rank_letter g patterns letter cursor a b)
  unfolding cmp_letter rank_letter
  masked_letter letter cursor m n k l cm cn ck cl small =
      let ka : Keeps patterns a (masked a m n) = record {
        name_mask = m;
        path_mask = n;
        rest = refl;
        name = cm;
        path = cn;
      } in
      let kb : Keeps patterns b (masked b k l) = record {
        name_mask = k;
        path_mask = l;
        rest = refl;
        name = ck;
        path = cl;
      } in
      Done-if_plain (letter == b'm') refl ka kb λ _. Done-if_plain (letter == b'a') refl ka kb λ _.
        Done-if_plain (letter == b'l') refl ka kb λ _.
          Done-if_plain (letter == b'd') refl ka kb λ _.
            Done-if_plain (letter == b'h') refl ka kb λ _.
              Done-if_plain (letter == b'o') refl ka kb λ _.
                Done-if_plain (letter == b'p') refl ka kb λ _.
                  Done-if (letter == b'x')
                    (λ e.
                      let r =
                        cmp_by_regex_lem (pattern_at patterns) cursor (small (ground arith)) m k
                          a.basename b.basename cm ck in
                      (
                        r.0,
                        record { name_mask = _; path_mask = n; rest = refl; name = r.1; path = cn },
                        record { name_mask = _; path_mask = l; rest = refl; name = r.2; path = cl },
                      ))
                    λ _.
                      Done-if (letter == b'r')
                        (λ e.
                          let r =
                            cmp_by_regex_lem (pattern_at patterns) cursor (small (ground arith)) n l
                              a.path b.path cn cl in
                          (
                            r.0,
                            record {
                              name_mask = m;
                              path_mask = _;
                              rest = refl;
                              name = cm;
                              path = r.1;
                            },
                            record {
                              name_mask = k;
                              path_mask = _;
                              rest = refl;
                              name = ck;
                              path = r.2;
                            },
                          ))
                        (λ _. (refl, ka, kb))

  cmp_letter-Done :
      (letter cursor : ℕ) (v w : RmFile)
      → Keeps patterns a v
      → Keeps patterns b w
      → (((letter == b'x') || (letter == b'r')) ≡ true → cursor < pattern_n_max)
      → Done (cmp_letter g patterns letter cursor v w) (rank_letter g patterns letter cursor a b)
  cmp_letter-Done letter cursor v w kv kw small =
      subst
        (λ x.
          Done (cmp_letter g patterns letter cursor x w) (rank_letter g patterns letter cursor a b))
        (sym kv.rest)
        (subst
          (λ x.
            Done (cmp_letter g patterns letter cursor (masked a kv.name_mask kv.path_mask) x)
              (rank_letter g patterns letter cursor a b))
          (sym kw.rest)
          (masked_letter letter cursor kv.name_mask kv.path_mask kw.name_mask kw.path_mask kv.name
            kv.path kw.name kw.path small))

  passes : (x y : ℤ) → is_zero x ≡ true → return_if_nonzero x y ≡ y
  passes x y e = ground (arith, e)

  returns : (x y : ℤ) → is_zero x ≡ false → return_if_nonzero x y ≡ x
  returns x y e = ground (arith, e)

  -- RETURN_IF_NONZERO of a comparison
  Done-return :
      (r s : ℤ × RmFile × RmFile) (x y : ℤ)
      → Done r x
      → Done s y
      → Done (if is_zero r.0 then s else r) (return_if_nonzero x y)
  Done-return (cmp, v, w) s x y (e, kv, kw) q = elim (Bool-cases (is_zero cmp)) [
    | inl zero_ ↦ rw (← e, zero_) (q.0 ∙ sym (passes cmp y zero_), q.1, q.2)
    | inr decided ↦ rw (← e, decided) (sym (returns cmp y decided), kv, kw)
  ]

  cmp_criteria-Done :
      (criteria : Bytes) (cursor : ℕ) (v w : RmFile)
      → Keeps patterns a v
      → Keeps patterns b w
      → cursor + pattern_letters criteria ≤ pattern_n_max
      → Done
          (cmp_criteria g patterns criteria cursor v w)
          (rank_criteria g patterns criteria cursor a b)
  unfolding cmp_criteria rank_criteria cmp_criterion
  cmp_criteria-Done [] cursor v w kv kw h = (refl, kv, kw)
  cmp_criteria-Done (c ∷ cs) cursor v w kv kw h =
      let here = cmp_letter-Done (to_lower c) cursor v w kv kw (λ e. ground arith) in
      let r = cmp_letter g patterns (to_lower c) cursor v w in
      let rest = cmp_criteria-Done cs (next_cursor c cursor) r.1 r.2 here.1 here.2 (ground arith) in
      Done-return (signed (is_upper c) r.0, r.1, r.2)
        (cmp_criteria g patterns cs (next_cursor c cursor) r.1 r.2)
        (signed (is_upper c) (rank_letter g patterns (to_lower c) cursor a b))
        (rank_criteria g patterns cs (next_cursor c cursor) a b)
        (ap (signed (is_upper c)) here.0, here.1, here.2) rest

  unless_zero :
      (x y : ℤ) (r : ℤ × RmFile × RmFile)
      → Keeps patterns a a
      → Keeps patterns b b
      → Done r y
      → Done (if not (is_zero x) then (x, a, b) else r) (return_if_nonzero x y)
  unless_zero x y r ka kb q = elim (Bool-cases (is_zero x)) [
    | inl zero_ ↦ rw zero_ (q.0 ∙ sym (passes x y zero_), q.1, q.2)
    | inr decided ↦ rw decided (sym (returns x y decided), ka, kb)
  ]

  -- With masks that agree with the patterns, and at most as many pattern letters in the criteria as a
  -- mask has places, the comparison decides as the ranking by the criteria that matches each pattern
  -- anew. It changes nothing in the two files but their masks, and these agree with the patterns again.
  pub cmp_and_cache-ranking :
      (cfg : RmCfg)
      → HasCoherent patterns a
      → HasCoherent patterns b
      → pattern_letters cfg.sort_criteria ≤ pattern_n_max
      → (let r = cmp_and_cache g cfg patterns a b in
          (r.0 ≡ ranking g cfg patterns a b) × Keeps patterns a r.1 × Keeps patterns b r.2)
  unfolding cmp_and_cache ranking
  cmp_and_cache-ranking cfg ca cb h =
      let ka : Keeps patterns a a = record {
        name_mask = a.pattern_bitmask_basename;
        path_mask = a.pattern_bitmask_path;
        rest = refl;
        name = ca.0;
        path = ca.1;
      } in
      let kb : Keeps patterns b b = record {
        name_mask = b.pattern_bitmask_basename;
        path_mask = b.pattern_bitmask_path;
        rest = refl;
        name = cb.0;
        path = cb.1;
      } in
      let last = cmp_criteria-Done cfg.sort_criteria 0 a b ka kb (omega (arith, h)) in
      unless_zero (sign_diff (lint_number a.lint_type) (lint_number b.lint_type)) _ _ ka kb (
        unless_zero (sign_diff_bool a.is_symlink b.is_symlink) _ _ ka kb
          (unless_zero (sign_diff_bool b.is_prefd a.is_prefd) _ _ ka kb last))
