-- ===== src/Treemerge/Count/Above.antt =====
-- The directories that a path lies in, by its names, and what rm_tm_count_art_callback of
-- lib/treemerge.c cuts a path to.
use mathlib.Core.Path.{ap₂}
use rmlint.Common.{
  ℕ, zero, suc, ◌+◌, ◌≤◌, ◌<◌, ◌≡◌, refl, ap, ◌∙◌, Bool, true, false, not, ◌&&◌, List, [], ◌∷◌,
  ◌++◌, map, some, ◌==◌, if◌then◌else◌, arith, length, take, get_elem?, length-append,
}
use rmlint.Cfg.{Bytes}
use rmlint.Treemerge.Count.{parents_below, parents, is_separator}

-- A path as the names from the root, the last one first.
abbrev pub Names : Type 0
Names = List Bytes

-- The text of a path: each name stands behind a slash.
unfoldable pub path_of : Names → Bytes
path_of [] = []
path_of (name ∷ above) = path_of above ++ (b'/' ∷ name)

-- The text of a directory, where the root is a slash.
unfoldable pub dir_of : Names → Bytes
unfolding path_of
dir_of [] = b'/' ∷ []
dir_of (name ∷ above) = path_of (name ∷ above)

-- The directories that a path lies in, from the innermost to the root.
unfoldable pub directories_above : Names → List Names
directories_above [] = []
directories_above (name ∷ above) = above ∷ directories_above above

-- No name holds a slash, and none is empty.
abbrev pub has_no_slash : Bytes → Bool
has_no_slash [] = true
has_no_slash (c ∷ s) = not (c == b'/') && has_no_slash s

abbrev pub are_names : Names → Bool
are_names [] = true
are_names (name ∷ above) = has_no_slash name && are_names above

get_elem?-before :
    (pre post : Bytes) (i : ℕ) → i < length pre → get_elem? (pre ++ post) i ≡ get_elem? pre i
get_elem?-before [] post i h = absurd (omega arith)
get_elem?-before (x ∷ pre) post zero h = refl
get_elem?-before (x ∷ pre) post (suc i) h = get_elem?-before pre post i (omega arith)

take-before : (pre post : Bytes) (i : ℕ) → i ≤ length pre → take i (pre ++ post) ≡ take i pre
take-before pre post zero h = refl
take-before [] post (suc i) h = absurd (omega arith)
take-before (x ∷ pre) post (suc i) h = ap (λ s. x ∷ s) (take-before pre post i (omega arith))

-- What stands behind the index does not count.
parents_below-before :
    (n : ℕ) (pre post : Bytes)
    → n ≤ length pre
    → parents_below n (pre ++ post) ≡ parents_below n pre
unfolding parents_below
parents_below-before zero pre post h = refl
parents_below-before (suc i) pre post h =
    rw
      (
        get_elem?-before pre post i (omega arith),
        take-before pre post i (omega arith),
        parents_below-before i pre post (omega arith),
      )
      refl

get_elem?-behind :
    (pre : Bytes) (c : ℕ) (name : Bytes) → get_elem? (pre ++ (c ∷ name)) (length pre) ≡ some c
get_elem?-behind [] c name = refl
get_elem?-behind (x ∷ pre) c name = get_elem?-behind pre c name

take-all : (pre post : Bytes) → take (length pre) (pre ++ post) ≡ pre
take-all [] post = refl
take-all (x ∷ pre) post = ap (λ s. x ∷ s) (take-all pre post)

-- A name without slash is not cut.
get_elem?-name :
    (name : Bytes) (m : ℕ) → has_no_slash name ≡ true → is_separator (get_elem? name m) ≡ false
get_elem?-name [] m h = refl
get_elem?-name (c ∷ name) zero h = ground (arith, h)
get_elem?-name (c ∷ name) (suc m) h = get_elem?-name name m (ground (arith, h))

get_elem?-in_name :
    (pre : Bytes) (c : ℕ) (name : Bytes) (m : ℕ)
    → get_elem? (pre ++ (c ∷ name)) (suc (length pre) + m) ≡ get_elem? name m
get_elem?-in_name [] c name m = let e : 1 + m ≡ suc m = omega arith in ap (get_elem? (c ∷ name)) e
get_elem?-in_name (x ∷ pre) c name m =
    let e : suc (suc (length pre)) + m ≡ suc (suc (length pre) + m) = omega arith in
    ap (get_elem? (x ∷ (pre ++ (c ∷ name)))) e ∙ get_elem?-in_name pre c name m

parents_below-name :
    (pre name : Bytes) (n : ℕ)
    → has_no_slash name ≡ true
    → parents_below (n + suc (length pre)) (pre ++ (b'/' ∷ name))
      ≡ parents_below (suc (length pre)) (pre ++ (b'/' ∷ name))
unfolding parents_below
parents_below-name pre name zero h =
    let e : 0 + suc (length pre) ≡ suc (length pre) = omega arith in
    ap (λ n. parents_below n (pre ++ (b'/' ∷ name))) e
parents_below-name pre name (suc n) h =
    let at : n + suc (length pre) ≡ suc (length pre) + n = omega arith in
    let here : is_separator (get_elem? (pre ++ (b'/' ∷ name)) (n + suc (length pre))) ≡ false =
      ap (λ i. is_separator (get_elem? (pre ++ (b'/' ∷ name)) i)) at
      ∙ ap is_separator (get_elem?-in_name pre b'/' name n)
      ∙ get_elem?-name name n h in
    let e : suc n + suc (length pre) ≡ suc (n + suc (length pre)) = omega arith in
    ap (λ k. parents_below k (pre ++ (b'/' ∷ name))) e ∙ rw here (parents_below-name pre name n h)

-- What a path is cut to at its last slash.
abbrev cut : Bytes → Bytes
cut pre = if length pre == 0 then b'/' ∷ [] else pre

parents-behind :
    (pre name : Bytes)
    → has_no_slash name ≡ true
    → parents (pre ++ (b'/' ∷ name)) ≡ cut pre ∷ parents pre
unfolding parents parents_below
parents-behind pre name h =
    let whole : length (pre ++ (b'/' ∷ name)) ≡ length name + suc (length pre) =
      omega (arith, length-append pre (b'/' ∷ name)) in
    ap (λ n. parents_below n (pre ++ (b'/' ∷ name))) whole
    ∙ parents_below-name pre name (length name) h
    ∙ rw
        (
          get_elem?-behind pre b'/' name,
          take-all pre (b'/' ∷ name),
          parents_below-before (length pre) pre (b'/' ∷ name) (omega arith),
        )
        refl

cut-path_of : (above : Names) → cut (path_of above) ≡ dir_of above
unfolding path_of dir_of
cut-path_of [] = refl
cut-path_of (name ∷ above) =
    let long : (length (path_of above ++ (b'/' ∷ name)) == 0) ≡ false =
      ground (arith, length-append (path_of above) (b'/' ∷ name)) in
    rw long refl

-- A path is cut to the directories that it lies in.
pub parents-path_of :
    (names : Names)
    → are_names names ≡ true
    → parents (path_of names) ≡ map dir_of (directories_above names)
unfolding path_of directories_above parents parents_below
parents-path_of [] h = refl
parents-path_of (name ∷ above) h =
    parents-behind (path_of above) name (ground (arith, h))
    ∙ ap₂ (λ x xs. x ∷ xs) (cut-path_of above) (parents-path_of above (ground (arith, h)))
