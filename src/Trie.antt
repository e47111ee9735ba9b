-- ===== src/Trie.antt =====
-- lib/pathtricia.c: the tree of path elements in which every file's path is stored. A node is a value;
-- its children are a list keyed by the path element. `data` is the address that the caller stores.
pub mod Laws
use rmlint.Common.{
  ℕ, ◌+◌, ◌-◌, Bool, true, false, ◌||◌, List, [], ◌∷◌, ◌++◌, Option, none, some, ◌==◌,
  if◌then◌else◌, is_some, take,
}
use rmlint.Cfg.{Bytes, path_max}
use rmlint.Preprocess.Cluster.{bytes_equal}

-- RmNode and its table of children. A node without children has an empty table or none.
mutual
  pub data Node : Type 0 where
    node : Children → Bool → ℕ → Node

  pub data Children : Type 0 where
    nil : Children
    child : Bytes → Node → Children → Children

abbrev pub children : Node → Children
children (node c v d) = c

abbrev pub has_value : Node → Bool
has_value (node c v d) = v

abbrev pub data_of : Node → ℕ
data_of (node c v d) = d

-- rm_node_new
abbrev pub new_node : Node
new_node = node nil false 0

-- RmTrie
pub record RmTrie : Type 0 where
  pub root : Node
  pub size : ℕ

-- rm_trie_init
abbrev pub init : RmTrie
init = record { root = new_node; size = 0 }

-- rm_path_iter_init: a leading slash is skipped, and what does not fit the buffer is cut off
unfoldable pub iter_init : Bytes → Bytes
iter_init [] = []
iter_init (b ∷ path) = take (path_max - 1) (if b == b'/' then path else b ∷ path)

-- The calls of rm_path_iter_next until it returns NULL: the elements between the slashes.
unfoldable pub split_path : Bytes → Bytes → List Bytes
split_path element [] = element ∷ []
split_path element (b ∷ path) =
    let next = split_path [] path in
    let more = split_path (element ++ b ∷ []) path in if b == b'/' then element ∷ next else more

unfoldable pub elements : Bytes → List Bytes
unfolding iter_init split_path
elements path = split_path [] (iter_init path)

-- g_hash_table_lookup
unfoldable pub lookup : Bytes → Children → Option Node
lookup elem nil = none
lookup elem (child name n rest) = if bytes_equal name elem then some n else lookup elem rest

-- The table with the node of that name replaced, or added.
unfoldable pub insert : Bytes → Node → Children → Children
insert elem n nil = child elem n nil
insert elem n (child name m rest) =
    if bytes_equal name elem then child name n rest else child name m (insert elem n rest)

-- rm_node_insert: the child of that name, new if there is none
abbrev pub child_or_new : Option Node → Node
child_or_new none = new_node
child_or_new (some n) = n

-- The write at the end of a path: the loop of rm_trie_insert descends, with new nodes where there
-- are none, and sets the data; `mark` says whether has_value is set as well.
unfoldable pub write_at : Bool → List Bytes → ℕ → Node → Node
unfolding lookup insert
write_at mark [] value n = node (children n) (mark || has_value n) value
write_at mark (elem ∷ path) value n =
    node
      (insert elem (write_at mark path value (child_or_new (lookup elem (children n))))
        (children n))
      (has_value n) (data_of n)

-- rm_trie_insert
unfoldable pub trie_insert : RmTrie → Bytes → ℕ → RmTrie
unfolding write_at elements
trie_insert self path value = record {
  root = write_at true (elements path) value self.root;
  size = self.size + 1;
}

-- The loop of rm_trie_search_node.
unfoldable pub search_at : List Bytes → Node → Option Node
unfolding lookup
search_at [] n = some n
search_at (elem ∷ path) n = elim (lookup elem (children n)) [
  | none ↦ none
  | some m ↦ search_at path m
]

-- rm_trie_search_node
unfoldable pub search_node : RmTrie → Bytes → Option Node
unfolding search_at elements
search_node self path = search_at (elements path) self.root

-- rm_trie_search; NULL is 0
unfoldable pub search : RmTrie → Bytes → ℕ
unfolding search_node
search self path = elim (search_node self path) [ none ↦ 0 | some n ↦ data_of n ]

-- rm_trie_set_value: only the data of a node that is there is written
unfoldable pub set_value : RmTrie → Bytes → ℕ → RmTrie × Bool
unfolding search_node write_at elements
set_value self path value =
    if is_some (search_node self path)
    then (record self { root = write_at false (elements path) value self.root }, true)
    else (self, false)
