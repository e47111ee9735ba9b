-- ===== src/Treemerge/Count.antt =====
-- rm_tm_count_art_callback of lib/treemerge.c: how many files lie below each directory, in a path trie
-- of counts. A count is a 32-bit int, written as its residue; the trie stores it as a pointer.
pub mod Above
pub mod Laws
use rmlint.Common.{
  ℕ, zero, suc, ◌+◌, ◌-◌, ◌%◌, ◌^◌, Bool, true, false, List, [], ◌∷◌, Option, none, some, ◌==◌,
  if◌then◌else◌, ltb, length, take, get_elem?,
}
use rmlint.Cfg.{Bytes}
use rmlint.Trie.{RmTrie, trie_insert, search}

-- GINT_TO_POINTER and GPOINTER_TO_INT, by the sign extension and the low half
unfoldable pub int_to_pointer : ℕ → ℕ
int_to_pointer i = if ltb i (2 ^ 31) then i else i + (2 ^ 64 - 2 ^ 32)

unfoldable pub pointer_to_int : ℕ → ℕ
pointer_to_int p = p % 2 ^ 32

-- -1
abbrev pub minus_one : ℕ
minus_one = 4294967295

abbrev pub is_separator : Option ℕ → Bool
is_separator none = false
is_separator (some c) = c == b'/'

-- The loop over the indices, from the end to the start: what the path is cut to at each separator.
unfoldable pub parents_below : ℕ → Bytes → List Bytes
parents_below zero path = []
parents_below (suc i) path =
    let rest = parents_below i path in
    if is_separator (get_elem? path i)
    then (if i == 0 then b'/' ∷ [] else take i path) ∷ rest
    else rest

unfoldable pub parents : Bytes → List Bytes
unfolding parents_below
parents path = parents_below (length path) path

-- The count of one part, from what the trie held.
unfoldable pub new_count : Bool → ℕ → ℕ
new_count true old = minus_one
new_count false old = if old == minus_one then minus_one else (old + 1) % 2 ^ 32

-- One turn of the loop.
unfoldable pub count_at : RmTrie → Bool → Bytes → RmTrie
unfolding new_count
count_at count_tree error_flag part =
    trie_insert count_tree part
      (int_to_pointer (new_count error_flag (pointer_to_int (search count_tree part))))

unfoldable pub count_parts : RmTrie → Bool → List Bytes → RmTrie
unfolding count_at
count_parts count_tree error_flag [] = count_tree
count_parts count_tree error_flag (part ∷ parts) =
    count_parts (count_at count_tree error_flag part) error_flag parts

-- rm_tm_count_art_callback, with the node's path and its error flag
unfoldable pub count_art : RmTrie → Bytes → Bool → RmTrie
unfolding count_parts parents
count_art count_tree path error_flag = count_parts count_tree error_flag (parents path)

-- The calls for all nodes that rm_trie_iter visits, and then for the paths of the command line.
unfoldable pub count_files : RmTrie → List (Bytes × Bool) → RmTrie
unfolding count_art
count_files count_tree [] = count_tree
count_files count_tree ((path, error_flag) ∷ files) =
    count_files (count_art count_tree path error_flag) files
