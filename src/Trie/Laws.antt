-- ===== src/Trie/Laws.antt =====
-- Insertion into the trie and search in it.
use rmlint.Common.{
  ℕ, ◌+◌, ◌≡◌, refl, ap, ◌∙◌, Bool, true, false, ◌&&◌, List, [], ◌∷◌, Option, none, some,
  if◌then◌else◌, arith, inl, inr, Bool-cases,
}
use rmlint.Cfg.{Bytes}
use rmlint.Preprocess.Cluster.{bytes_equal}
use rmlint.Trie.{
  Node, Children, nil, child, children, data_of, new_node, RmTrie, elements, lookup, insert,
  child_or_new, write_at, trie_insert, search_at, write_at, search_node, search,
}

pub bytes_equal_refl : (s : Bytes) → bytes_equal s s ≡ true
bytes_equal_refl [] = refl
bytes_equal_refl (b ∷ s) = ground (arith, bytes_equal_refl s)

pub bytes_equal→eq : (s t : Bytes) → bytes_equal s t ≡ true → s ≡ t
bytes_equal→eq [] [] e = refl
bytes_equal→eq [] (b ∷ t) e = cc
bytes_equal→eq (a ∷ s) [] e = cc
bytes_equal→eq (a ∷ s) (b ∷ t) e = ground (arith, bytes_equal→eq s t)

lookup-insert :
    (e k : Bytes) (n : Node) (c : Children)
    → lookup k (insert e n c) ≡ (if bytes_equal e k then some n else lookup k c)
unfolding lookup insert
lookup-insert e k n nil = refl
lookup-insert e k n (child name m rest) = ground (
  arith,
  lookup-insert e k n rest,
  bytes_equal→eq name e,
  bytes_equal→eq name k,
  bytes_equal→eq e k,
  bytes_equal_refl e,
  bytes_equal_refl k,
)

-- The elements of two paths are the same.
abbrev pub same_path : List Bytes → List Bytes → Bool
same_path [] [] = true
same_path [] (k ∷ q) = false
same_path (e ∷ p) [] = false
same_path (e ∷ p) (k ∷ q) = bytes_equal e k && same_path p q

pub same_path→eq : (p q : List Bytes) → same_path p q ≡ true → p ≡ q
same_path→eq [] [] e = refl
same_path→eq [] (k ∷ q) e = cc
same_path→eq (x ∷ p) [] e = cc
same_path→eq (x ∷ p) (k ∷ q) e = ground (arith, bytes_equal→eq x k, same_path→eq p q)

-- What a node's descendants hold; 0 where there is no node.
abbrev pub data_or_null : Option Node → ℕ
data_or_null none = 0
data_or_null (some n) = data_of n

unfoldable pub data_at : List Bytes → Node → ℕ
unfolding search_at
data_at path n = data_or_null (search_at path n)

data_at-new_node : (path : List Bytes) → data_at path new_node ≡ 0
unfolding data_at search_at lookup
data_at-new_node [] = refl
data_at-new_node (e ∷ path) = refl

-- The data one level below, by what the table holds.
abbrev pub below : List Bytes → Option Node → ℕ
below path none = 0
below path (some m) = data_at path m

data_at-step :
    (k : Bytes) (path : List Bytes) (n : Node)
    → data_at (k ∷ path) n ≡ below path (lookup k (children n))
unfolding data_at search_at
data_at-step k path n =
    elim (lookup k (children n))
      as (λ o. data_or_null (elim o [ none ↦ none | some m ↦ search_at path m ]) ≡ below path o) [
        | none ↦ refl
        | some m ↦ refl
      ]

below-child_or_new :
    (path : List Bytes) (o : Option Node) → data_at path (child_or_new o) ≡ below path o
below-child_or_new path none = data_at-new_node path
below-child_or_new path (some m) = refl

-- One level of the path: the table's new entry is read exactly under its own name.
below-if :
    (e k : Bytes) (p q : List Bytes) (value : ℕ) (m n : Node)
    → data_at q m ≡ (if same_path p q then value else below q (lookup e (children n)))
    → below q (if bytes_equal e k then some m else lookup k (children n))
      ≡ (if bytes_equal e k && same_path p q then value else data_at (k ∷ q) n)
below-if e k p q value m n deeper = elim (Bool-cases (bytes_equal e k)) [
  | inl same ↦ rw (same, deeper, data_at-step k q n, bytes_equal→eq e k same)
  | inr other ↦ rw (other, data_at-step k q n)
]

pub data_at-write_at :
    (mark : Bool) (p q : List Bytes) (value : ℕ) (n : Node)
    → data_at q (write_at mark p value n) ≡ (if same_path p q then value else data_at q n)
unfolding write_at data_at search_at
data_at-write_at mark [] [] value n = refl
data_at-write_at mark [] (k ∷ q) value n = refl
data_at-write_at mark (e ∷ p) [] value n = refl
data_at-write_at mark (e ∷ p) (k ∷ q) value n =
    let o = lookup e (children n) in
    let m = write_at mark p value (child_or_new o) in
    data_at-step k q (write_at mark (e ∷ p) value n)
    ∙ ap (below q) (lookup-insert e k m (children n))
    ∙ below-if (e) k p q value m n (
        data_at-write_at mark p q value (child_or_new o)
        ∙ ap (λ d. if same_path p q then value else d) (below-child_or_new q o))

-- After a value is inserted at a path, a search for any path gives that value if its elements are
-- the same, and what it gave before otherwise; the trie's size is one more.
pub search-trie_insert :
    (t : RmTrie) (p : Bytes) (value : ℕ) (q : Bytes)
    → (search (trie_insert t p value) q
        ≡ (if same_path (elements p) (elements q) then value else search t q))
      × ((trie_insert t p value).size ≡ t.size + 1)
unfolding search search_node trie_insert data_at
search-trie_insert t p value q =
    (data_at-write_at true (elements p) (elements q) value t.root, refl)
