-- ===== src/Treemerge/Count/Laws.antt =====
-- What the count tree of lib/treemerge.c holds for a directory.
use mathlib.Core.Path.{ap₂}
use rmlint.Common.{
  map, All, ℕ, ◌+◌, ◌^◌, ◌<◌, ◌≡◌, refl, ◌∙◌, ap, Bool, true, false, ◌&&◌, ◌||◌, List, [], ◌∷◌,
  if◌then◌else◌, none, some, arith, bit, any, count, sum_by, Bool-cases, inl, inr,
}
use rmlint.Cfg.{Bytes}
use rmlint.Trie.{RmTrie, init, lookup, elements, search, search_node, search_at, data_of}
use rmlint.Trie.Laws.{same_path, search-trie_insert, same_path→eq}
use rmlint.Treemerge.Count.Above.{
  Names, path_of, dir_of, directories_above, are_names, parents-path_of,
}
use rmlint.Treemerge.Count.{
  int_to_pointer, pointer_to_int, minus_one, parents, new_count, count_at, count_parts, count_art,
  count_files,
}

-- The part of a path is the directory.
abbrev pub is_dir : Bytes → Bytes → Bool
is_dir dir part = same_path (elements part) (elements dir)

-- How often a directory is among the parts of a path.
unfoldable pub occurrences : Bytes → Bytes → ℕ
unfolding parents elements
occurrences dir path = count (is_dir dir) (parents path)

-- Whether a path that is an error lies in the directory.
unfoldable pub has_error : Bytes → List (Bytes × Bool) → Bool
unfolding parents elements
has_error dir [] = false
has_error dir ((path, error_flag) ∷ files) =
    (error_flag && any (is_dir dir) (parents path)) || has_error dir files

-- what the tree says of a directory
abbrev value : RmTrie → Bytes → ℕ
value t dir = pointer_to_int (search t dir)

-- the count of the directory after one part, the parts of a path, and all paths
step : Bool → Bool → ℕ → ℕ
step error here old = if here then new_count error old else old

tally : Bytes → Bool → List Bytes → ℕ → ℕ
tally dir error [] old = old
tally dir error (part ∷ parts) old = tally dir error parts (step error (is_dir dir part) old)

tally_files : Bytes → List (Bytes × Bool) → ℕ → ℕ
tally_files dir [] old = old
tally_files dir ((path, error) ∷ files) old =
    tally_files dir files (tally dir error (parents path) old)

pointer_to_int-int_to_pointer : (i : ℕ) → i < 2 ^ 32 → pointer_to_int (int_to_pointer i) ≡ i
unfolding pointer_to_int int_to_pointer
pointer_to_int-int_to_pointer i h = ground arith

new_count-lt : (error : Bool) (old : ℕ) → new_count error old < 2 ^ 32
unfolding new_count
new_count-lt true old = omega arith
new_count-lt false old = ground arith

-- what a search reads of two paths with the same elements
search-same :
    (t : RmTrie) (p q : Bytes)
    → same_path (elements p) (elements q) ≡ true
    → search t p ≡ search t q
unfolding search search_node
search-same t p q e =
    ap (λ es. elim (search_at es t.root) [ none ↦ 0 | some n ↦ data_of n ])
      (same_path→eq (elements p) (elements q) e)

value-count_at :
    (t : RmTrie) (error : Bool) (part dir : Bytes)
    → value (count_at t error part) dir ≡ step error (is_dir dir part) (value t dir)
unfolding count_at step
value-count_at t error part dir =
    let new = new_count error (value t part) in
    ap pointer_to_int (search-trie_insert t part (int_to_pointer new) dir).0
    ∙ elim (Bool-cases (is_dir dir part)) [
      | inl here ↦ rw here (
          pointer_to_int-int_to_pointer new (new_count-lt error (value t part))
          ∙ ap (λ d. new_count error (pointer_to_int d)) (search-same t part dir here))
      | inr there ↦ rw there refl
    ]

value-count_parts :
    (error : Bool) (dir : Bytes) (parts : List Bytes) (t : RmTrie)
    → value (count_parts t error parts) dir ≡ tally dir error parts (value t dir)
unfolding count_parts tally
value-count_parts error dir [] t = refl
value-count_parts error dir (part ∷ parts) t =
    value-count_parts error dir parts (count_at t error part)
    ∙ ap (tally dir error parts) (value-count_at t error part dir)

value-count_files :
    (dir : Bytes) (files : List (Bytes × Bool)) (t : RmTrie)
    → value (count_files t files) dir ≡ tally_files dir files (value t dir)
unfolding count_files tally_files count_art
value-count_files dir [] t = refl
value-count_files dir ((path, error) ∷ files) t =
    value-count_files dir files (count_art t path error)
    ∙ ap (tally_files dir files) (value-count_parts error dir (parents path) t)

-- an error is kept
tally-minus_one :
    (dir : Bytes) (error : Bool) (parts : List Bytes) → tally dir error parts minus_one ≡ minus_one
unfolding tally step new_count
tally-minus_one dir error [] = refl
tally-minus_one dir true (part ∷ parts) = ground (arith, tally-minus_one dir true parts)
tally-minus_one dir false (part ∷ parts) = ground (arith, tally-minus_one dir false parts)

tally_files-minus_one :
    (dir : Bytes) (files : List (Bytes × Bool)) → tally_files dir files minus_one ≡ minus_one
unfolding tally_files
tally_files-minus_one dir [] = refl
tally_files-minus_one dir ((path, error) ∷ files) =
    ap (tally_files dir files) (tally-minus_one dir error (parents path))
    ∙ tally_files-minus_one dir files

tally-error :
    (dir : Bytes) (parts : List Bytes) (old : ℕ)
    → tally dir true parts old ≡ (if any (is_dir dir) parts then minus_one else old)
unfolding tally step new_count
tally-error dir [] old = refl
tally-error dir (part ∷ parts) old = elim (Bool-cases (is_dir dir part)) [
  | inl here ↦ rw here (tally-minus_one dir true parts)
  | inr there ↦ rw there (tally-error dir parts old)
]

count-none : (p : Bytes → Bool) (xs : List Bytes) → any p xs ≡ false → count p xs ≡ 0
count-none p [] e = refl
count-none p (x ∷ xs) e = ground (arith, count-none p xs)

step_count :
    (here : Bool) (old : ℕ) → old + bit here < 2 ^ 31 → step false here old ≡ old + bit here
unfolding step new_count
step_count true old small = ground arith
step_count false old small = omega arith

tally-count :
    (dir : Bytes) (parts : List Bytes) (old : ℕ)
    → old + count (is_dir dir) parts < 2 ^ 31
    → tally dir false parts old ≡ old + count (is_dir dir) parts
unfolding tally
tally-count dir [] old small = omega arith
tally-count dir (part ∷ parts) old small =
    let here = bit (is_dir dir part) in
    ap (tally dir false parts) (step_count (is_dir dir part) old (omega (arith, small)))
    ∙ tally-count dir parts (old + here) (omega (arith, small))
    ∙ omega arith

-- The number of files, errors included, that a directory is a part of.
abbrev pub files_in : Bytes → List (Bytes × Bool) → ℕ
files_in dir files = sum_by (λ f. occurrences dir f.0) files

tally_files-count :
    (dir : Bytes) (files : List (Bytes × Bool)) (old : ℕ)
    → old + files_in dir files < 2 ^ 31
    → tally_files dir files old
      ≡ (if has_error dir files then minus_one else old + files_in dir files)
unfolding tally_files has_error occurrences
tally_files-count dir [] old small = omega arith
tally_files-count dir ((path, false) ∷ files) old small =
    let here = count (is_dir dir) (parents path) in
    ap (tally_files dir files) (tally-count dir (parents path) old (omega (arith, small)))
    ∙ tally_files-count dir files (old + here) (omega (arith, small))
    ∙ ap (λ n. if has_error dir files then minus_one else n) (omega arith)
tally_files-count dir ((path, true) ∷ files) old small =
    ap (tally_files dir files) (tally-error dir (parents path) old)
    ∙ elim (Bool-cases (any (is_dir dir) (parents path))) [
      | inl here ↦ rw here (tally_files-minus_one dir files)
      | inr there ↦ rw there (
          tally_files-count dir files old (omega (arith, small))
          ∙ ap (λ n. if has_error dir files then minus_one else n)
              (omega (arith, count-none (is_dir dir) (parents path) there)))
    ]

count_files-occurrences :
    (dir : Bytes) (files : List (Bytes × Bool))
    → files_in dir files < 2 ^ 31
    → pointer_to_int (search (count_files init files) dir)
      ≡ (if has_error dir files then minus_one else files_in dir files)
unfolding search search_node search_at pointer_to_int lookup
count_files-occurrences dir files small =
    value-count_files dir files init
    ∙ ap (tally_files dir files) (empty (elements dir))
    ∙ tally_files-count dir files 0 (omega (arith, small))
    ∙ ap (λ n. if has_error dir files then minus_one else n) (omega arith)
  where
    empty :
        (es : List Bytes)
        → pointer_to_int (elim (search_at es init.root) [ none ↦ 0 | some n ↦ data_of n ]) ≡ 0
    empty [] = refl
    empty (e ∷ es) = refl

-- A file that is counted: its names, and whether it is an error.
abbrev pub Counted : Type 0
Counted = Names × Bool

abbrev pub with_paths : List Counted → List (Bytes × Bool)
with_paths [] = []
with_paths ((names, error_flag) ∷ files) = (path_of names, error_flag) ∷ with_paths files

-- How many of the directories that a file lies in are this one.
abbrev pub times_above : Bytes → Counted → ℕ
times_above dir (names, error_flag) = count (is_dir dir) (map dir_of (directories_above names))

-- A file that is an error lies in the directory.
abbrev pub is_error_in : Bytes → Counted → Bool
is_error_in dir (names, error_flag) =
    error_flag && any (is_dir dir) (map dir_of (directories_above names))

files_in-above :
    (dir : Bytes) (files : List Counted)
    → All (λ f. are_names f.0 ≡ true) files
    → files_in dir (with_paths files) ≡ sum_by (times_above dir) files
unfolding occurrences
files_in-above dir [] h = refl
files_in-above dir ((names, error_flag) ∷ files) h =
    ap₂ (λ m n. m + n) (ap (count (is_dir dir)) (parents-path_of names h.0))
      (files_in-above dir files h.1)

has_error-above :
    (dir : Bytes) (files : List Counted)
    → All (λ f. are_names f.0 ≡ true) files
    → has_error dir (with_paths files) ≡ any (is_error_in dir) files
unfolding has_error
has_error-above dir [] h = refl
has_error-above dir ((names, error_flag) ∷ files) h =
    ap₂ (λ m n. m || n) (ap (λ ps. error_flag && any (is_dir dir) ps) (parents-path_of names h.0))
      (has_error-above dir files h.1)

-- After files are counted into a new tree, each by a path of names without slashes, the tree holds for
-- each directory how often it is among the directories above the files, from the innermost one of each
-- file to the root; or -1 if it is above a file that is an error. A directory is known by the elements
-- of its path. This is under the condition that the number is below 2 ^ 31.
pub count_files-count :
    (dir : Bytes) (files : List Counted)
    → All (λ f. are_names f.0 ≡ true) files
    → sum_by (times_above dir) files < 2 ^ 31
    → pointer_to_int (search (count_files init (with_paths files)) dir)
      ≡ (if any (is_error_in dir) files then minus_one else sum_by (times_above dir) files)
count_files-count dir files names small =
    let n = files_in-above dir files names in
    count_files-occurrences dir (with_paths files) (omega (arith, n, small))
    ∙ ap₂ (λ b k. if b then minus_one else k) (has_error-above dir files names) n
