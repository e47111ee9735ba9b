-- ===== src/Utilities/Path.antt =====
-- The path functions of lib/utilities.c. A path is its bytes without the final NUL; a pointer into it
-- is the rest of the bytes from there.
use rmlint.Common.{
  ℕ, zero, suc, ◌+◌, ◌<◌, ◌≡◌, refl, Bool, true, false, not, ◌&&◌, ◌||◌, [], ◌∷◌, ◌++◌, Option,
  none, some, arith, ◌==◌, if◌then◌else◌, length, is_empty, bit, Option-cases, inl, inr,
}
use rmlint.Cfg.{Bytes}

-- strrchr(s, c) + 1, the bytes behind the last c
abbrev behind_last : ℕ → Bytes → Option Bytes
behind_last c [] = none
behind_last c (b ∷ s) = elim (behind_last c s) [
  | some rest ↦ some rest
  | none ↦ if b == c then some s else none
]

-- rm_util_path_extension
unfoldable pub path_extension : Bytes → Option Bytes
path_extension basename = behind_last b'.' basename

-- rm_util_basename
unfoldable pub util_basename : Bytes → Bytes
util_basename filename = elim (behind_last b'/' filename) [ some base ↦ base | none ↦ filename ]

-- *s == c, also at the end of the string
abbrev pub begins : ℕ → Bytes → Bool
begins c [] = false
begins c (b ∷ s) = b == c

-- `while(*path++)`: the bytes behind the first are tested for "/."
abbrev pub has_hidden_part : Bytes → Bool
has_hidden_part [] = false
has_hidden_part (b ∷ s) = ((b == b'/') && begins b'.' s) || has_hidden_part s

-- rm_util_path_is_hidden; `none` is NULL
unfoldable pub path_is_hidden : Option Bytes → Bool
path_is_hidden none = false
path_is_hidden (some []) = false
path_is_hidden (some (b ∷ s)) = (b == b'.') || has_hidden_part s

-- strchr(s, '/')
abbrev find_slash : Bytes → Option Bytes
find_slash [] = none
find_slash (b ∷ s) = if b == b'/' then some (b ∷ s) else find_slash s

-- The loop of rm_util_path_depth, on fuel.
depth_loop : ℕ → Bytes → ℕ → ℕ
depth_loop zero path depth = depth
depth_loop (suc fuel) [] depth = depth
depth_loop (suc fuel) (b ∷ s) depth =
    let depth' = if (b == b'/') && not (is_empty s) then depth + 1 else depth in
    elim (find_slash s) [ some rest ↦ depth_loop fuel rest depth' | none ↦ depth' ]

-- rm_util_path_depth; a path has fewer slashes than bytes
unfoldable pub path_depth : Bytes → ℕ
unfolding depth_loop
path_depth path = depth_loop (length path) path 0

-- The slashes of a path that stand before its last byte.
abbrev pub inner_slashes : Bytes → ℕ
inner_slashes [] = 0
inner_slashes (b ∷ s) = bit ((b == b'/') && not (is_empty s)) + inner_slashes s

find_slash-none : (s : Bytes) → find_slash s ≡ none → inner_slashes s ≡ 0
find_slash-none [] h = refl
find_slash-none (b ∷ s) h = ground (arith, find_slash-none s)

find_slash-some :
    (s rest : Bytes)
    → find_slash s ≡ some rest
    → (inner_slashes s ≡ inner_slashes rest) × (length rest < length s + 1)
find_slash-some [] rest h = ground arith
find_slash-some (b ∷ s) rest h = ground (arith, find_slash-some s rest)

depth_loop-slashes :
    (fuel : ℕ) (path : Bytes) (depth : ℕ)
    → length path < fuel + 1
    → depth_loop fuel path depth ≡ depth + inner_slashes path
unfolding depth_loop
depth_loop-slashes zero [] depth h = omega arith
depth_loop-slashes zero (b ∷ s) depth h = absurd (omega arith)
depth_loop-slashes (suc fuel) [] depth h = omega arith
depth_loop-slashes (suc fuel) (b ∷ s) depth h =
    let depth' = if (b == b'/') && not (is_empty s) then depth + 1 else depth in
    elim (Option-cases (find_slash s)) [
      | inl e ↦ rw (e, depth_loop) (ground (arith, find_slash-none s e))
      | inr (rest, e) ↦
          rw (e, depth_loop)
            (ground (arith, find_slash-some s rest e, depth_loop-slashes fuel rest depth'))
    ]

-- The depth of a path is the number of its slashes, a final one not counted; the jumps from slash to
-- slash end within as many rounds as the path has bytes.
path_depth-slashes : (path : Bytes) → path_depth path ≡ inner_slashes path
unfolding path_depth
path_depth-slashes path = omega (arith, depth_loop-slashes (length path) path 0)

has_hidden_part-append : (s t : Bytes) → has_hidden_part (s ++ b'/' ∷ b'.' ∷ t) ≡ true
has_hidden_part-append [] t = refl
has_hidden_part-append (b ∷ s) t = ground (arith, has_hidden_part-append s t)

-- A path with a component that begins with a dot, behind at least one other byte, is hidden.
path_is_hidden-append :
    (b : ℕ) (s t : Bytes) → path_is_hidden (some (b ∷ (s ++ b'/' ∷ b'.' ∷ t))) ≡ true
unfolding path_is_hidden
path_is_hidden-append b s t = ground (arith, has_hidden_part-append s t)

abbrev pub has_slash : Bytes → Bool
has_slash [] = false
has_slash (b ∷ s) = (b == b'/') || has_slash s

no_hidden_part : (s : Bytes) → has_slash s ≡ false → has_hidden_part s ≡ false
no_hidden_part [] h = refl
no_hidden_part (b ∷ s) h = ground (arith, no_hidden_part s)

-- A hidden entry directly under the root directory is not taken for hidden: the test for "/." starts
-- at the second byte.
path_is_hidden_root :
    (name : Bytes) → has_slash name ≡ false → path_is_hidden (some (b'/' ∷ b'.' ∷ name)) ≡ false
unfolding path_is_hidden
path_is_hidden_root name h = ground (arith, no_hidden_part name)
