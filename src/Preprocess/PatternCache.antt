-- ===== src/Preprocess/PatternCache.antt =====
-- The bit masks in which lib/file.h keeps what a pattern said of a file's path or base name
-- (RM_PATTERN_IS_CACHED and its like), and rm_pp_cmp_by_regex of lib/preprocess.c. Bit `idx` is the
-- result, bit `idx + 8` says that there is one.
use mathlib.Core.Path.{ap₂}
use native.Mathlib.Decide.{ℕ_discrete}
use rmlint.Common.{
  ℕ, zero, suc, ◌+◌, ◌*◌, ◌/◌, ◌%◌, ◌<◌, ◌≡◌, refl, Bool, true, false, ◌&&◌, ◌||◌, arith, ◌==◌,
  if◌then◌else◌, Bool-cases, inl, inr, ap,
}
use rmlint.Common.Sign.{ℤ, sign_diff_bool}
use rmlint.Cfg.{Bytes}
use rmlint.Glib.{Pattern}

-- RM_PATTERN_N_MAX: half of the bits of a guint16
abbrev pub pattern_n_max : ℕ
pattern_n_max = 8

-- mask & (1 << k)
pub test_bit : ℕ → ℕ → Bool
test_bit zero mask = (mask % 2) == 1
test_bit (suc k) mask = test_bit k (mask / 2)

-- mask | (1 << k)
pub set_bit : ℕ → ℕ → ℕ
set_bit zero mask = mask / 2 * 2 + 1
set_bit (suc k) mask = set_bit k (mask / 2) * 2 + mask % 2

-- RM_PATTERN_IS_CACHED
pub is_cached : ℕ → ℕ → Bool
unfolding test_bit
is_cached mask idx = test_bit (idx + pattern_n_max) mask

-- RM_PATTERN_GET_CACHED
pub get_cached : ℕ → ℕ → Bool
unfolding test_bit
get_cached mask idx = test_bit idx mask

-- RM_PATTERN_SET_CACHED
pub set_cached : ℕ → ℕ → Bool → ℕ
unfolding set_bit
set_cached mask idx match = set_bit (idx + pattern_n_max) (if match then set_bit idx mask else mask)

-- The result of one pattern at one text, from the mask if it is there, and the new mask.
pub cached_match : Pattern → ℕ → ℕ → Bytes → Bool × ℕ
unfolding is_cached get_cached set_cached
cached_match regex idx mask text =
    if is_cached mask idx
    then (get_cached mask idx, mask)
    else (regex text, set_cached mask idx (regex text))

-- rm_pp_cmp_by_regex: the comparison and the masks of both files
unfoldable pub cmp_by_regex : Pattern → ℕ → ℕ → Bytes → ℕ → Bytes → ℤ × ℕ × ℕ
unfolding cached_match
cmp_by_regex regex idx mask_a path_a mask_b path_b =
    let (result_a, mask_a') = cached_match regex idx mask_a path_a in
    let (result_b, mask_b') = cached_match regex idx mask_b path_b in
    (sign_diff_bool result_b result_a, mask_a', mask_b')

test_bit-set_bit : (j k mask : ℕ) → test_bit j (set_bit k mask) ≡ ((j == k) || test_bit j mask)
unfolding test_bit set_bit
test_bit-set_bit zero zero mask = ground arith
test_bit-set_bit zero (suc k) mask = ground arith
test_bit-set_bit (suc j) zero mask =
    let e : (mask / 2 * 2 + 1) / 2 ≡ mask / 2 = omega arith in rw e (ground arith)
test_bit-set_bit (suc j) (suc k) mask =
    let e : (set_bit k (mask / 2) * 2 + mask % 2) / 2 ≡ set_bit k (mask / 2) = omega arith in
    rw e (ground (arith, test_bit-set_bit j k (mask / 2)))

test_bit-set_cached :
    (j idx mask : ℕ) (match : Bool)
    → test_bit j (set_cached mask idx match)
      ≡ ((j == idx + pattern_n_max) || (match && (j == idx)) || test_bit j mask)
unfolding set_cached
test_bit-set_cached j idx mask true =
    ground (arith, test_bit-set_bit j (idx + 8) (set_bit idx mask), test_bit-set_bit j idx mask)
test_bit-set_cached j idx mask false = ground (arith, test_bit-set_bit j (idx + 8) mask)

-- A mask that says of each pattern either nothing, or what the pattern says of the text.
abbrev pub IsCoherent : (ℕ → Pattern) → Bytes → ℕ → Type 0
IsCoherent patterns text mask =
    (idx : ℕ)
    → idx < pattern_n_max
    → get_cached mask idx ≡ (is_cached mask idx && patterns idx text)

test_bit_zero : (k : ℕ) → test_bit k 0 ≡ false
unfolding test_bit
test_bit_zero zero = refl
test_bit_zero (suc k) = test_bit_zero k

-- An empty mask, which a new file has, agrees with all patterns.
pub IsCoherent-zero : (patterns : ℕ → Pattern) (text : Bytes) → IsCoherent patterns text 0
unfolding is_cached get_cached
IsCoherent-zero patterns text idx small = ground (arith, test_bit_zero idx, test_bit_zero (idx + 8))

module _ (patterns : ℕ → Pattern) (idx mask : ℕ) (text : Bytes) (small : idx < pattern_n_max)
    (coherent : IsCoherent patterns text mask) where
  cached_match-result : (cached_match (patterns idx) idx mask text).0 ≡ patterns idx text
  unfolding cached_match
  cached_match-result = ground (arith, coherent idx small)

  set_cached-IsCoherent :
      is_cached mask idx ≡ false
      → IsCoherent patterns text (set_cached mask idx (patterns idx text))
  unfolding is_cached get_cached
  set_cached-IsCoherent e j below = elim (ℕ_discrete j idx) [
    | yes same ↦ ground (
      arith,
      coherent idx small,
      ap (λ k. patterns k text) same,
      test_bit-set_cached j idx mask (patterns idx text),
      test_bit-set_cached (j + 8) idx mask (patterns idx text),
    )
    | no differ ↦ ground (
      arith,
      coherent j below,
      test_bit-set_cached j idx mask (patterns idx text),
      test_bit-set_cached (j + 8) idx mask (patterns idx text),
    )
  ]

  -- every other pattern's bits stay as they were
  cached_match-IsCoherent : IsCoherent patterns text (cached_match (patterns idx) idx mask text).1
  cached_match-IsCoherent = elim (Bool-cases (is_cached mask idx)) [
    | inl e ↦ unfold cached_match in rw e coherent
    | inr e ↦ unfold cached_match in rw e (set_cached-IsCoherent e)
  ]

module _ (patterns : ℕ → Pattern) (idx : ℕ) (small : idx < pattern_n_max) where
  -- With masks that agree with the patterns, a comparison by one of the first eight patterns gives
  -- what matching both texts anew would give, and leaves masks that agree with the patterns, for
  -- both files.
  pub cmp_by_regex_lem :
      (mask_a mask_b : ℕ) (path_a path_b : Bytes)
      → IsCoherent patterns path_a mask_a
      → IsCoherent patterns path_b mask_b
      → ((cmp_by_regex (patterns idx) idx mask_a path_a mask_b path_b).0
          ≡ sign_diff_bool (patterns idx path_b) (patterns idx path_a))
        × IsCoherent patterns path_a (cmp_by_regex (patterns idx) idx mask_a path_a mask_b path_b).1
        × IsCoherent patterns path_b (cmp_by_regex (patterns idx) idx mask_a path_a mask_b path_b).2
  cmp_by_regex_lem mask_a mask_b path_a path_b ca cb =
      unfold cmp_by_regex in
      (
        ap₂ sign_diff_bool (cached_match-result patterns idx mask_b path_b small cb)
            (cached_match-result patterns idx mask_a path_a small ca),
        cached_match-IsCoherent patterns idx mask_a path_a small ca,
        cached_match-IsCoherent patterns idx mask_b path_b small cb,
      )
