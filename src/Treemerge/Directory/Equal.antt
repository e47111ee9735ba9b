-- ===== src/Treemerge/Directory/Equal.antt =====
-- When rm_directory_equal of lib/treemerge.c takes two directories for equal.
use rmlint.Common.{
  ◌+◌, ◌≤◌, ◌≡◌, ◌↔◌, refl, sym, ◌∙◌, ap, Bool, true, false, not, ◌&&◌, ◌||◌, List, [], ◌∷◌, ==_iff,
  if◌then◌else◌, arith, all, length, Bool-cases, inl, inr,
}
use rmlint.Cfg.{Bytes}
use rmlint.Preprocess.Cluster.{bytes_equal}
use rmlint.Trie.Laws.{bytes_equal→eq, bytes_equal_refl}
use rmlint.Treemerge.Directory.{Directory, contains, same_digest, directory_equal}

-- A set holds no key twice.
abbrev pub is_set : List Bytes → Bool
is_set [] = true
is_set (k ∷ ks) = not (contains k ks) && is_set ks

-- the set without a key
remove : Bytes → List Bytes → List Bytes
remove k [] = []
remove k (x ∷ xs) = if bytes_equal k x then xs else x ∷ remove k xs

length-remove :
    (k : Bytes) (xs : List Bytes) → contains k xs ≡ true → length (remove k xs) + 1 ≡ length xs
unfolding remove
length-remove k [] e = cc
length-remove k (x ∷ xs) e = ground (arith, length-remove k xs)

contains-remove :
    (k key : Bytes) (xs : List Bytes)
    → bytes_equal key k ≡ false
    → contains key (remove k xs) ≡ contains key xs
unfolding remove
contains-remove k key [] e = refl
contains-remove k key (x ∷ xs) e = elim (Bool-cases (bytes_equal k x)) [
  | inl here ↦ rw (here, ap (λ z. bytes_equal key z) (sym (bytes_equal→eq k x here)), e) refl
  | inr there ↦ rw (there, contains-remove k key xs e) refl
]

-- a subset, as the loop tests it
subset : List Bytes → List Bytes → Bool
subset xs ys = all (λ key. contains key ys) xs

-- one inclusion into a set that is not larger is both
subset-contains :
    (key : Bytes) (xs ys : List Bytes)
    → subset xs ys ≡ true
    → contains key xs ≡ true
    → contains key ys ≡ true
unfolding subset
subset-contains key [] ys s c = cc
subset-contains key (x ∷ xs) ys s c = elim (Bool-cases (bytes_equal key x)) [
  | inl here ↦ rw (bytes_equal→eq key x here) (ground (arith, s))
  | inr there ↦ subset-contains key xs ys (ground (arith, s)) (ground (arith, c, there))
]

contains_ne :
    (k x : Bytes) (xs : List Bytes)
    → contains k xs ≡ false
    → contains x xs ≡ true
    → bytes_equal x k ≡ false
contains_ne k x xs absent there = elim (Bool-cases (bytes_equal x k)) [
  | inl same ↦
      absurd
        (ground (arith, absent, ap (λ z. contains z xs) (sym (bytes_equal→eq x k same)), there))
  | inr other ↦ other
]

bytes_equal_sym : (s t : Bytes) → bytes_equal s t ≡ false → bytes_equal t s ≡ false
bytes_equal_sym s t e = elim (Bool-cases (bytes_equal t s)) [
  | inl same ↦
      absurd
        (ground (arith, e, ap (λ z. bytes_equal z t) (bytes_equal→eq t s same), bytes_equal_refl t))
  | inr other ↦ other
]

subset-remove :
    (k : Bytes) (xs ys : List Bytes)
    → contains k xs ≡ false
    → subset xs ys ≡ true
    → subset xs (remove k ys) ≡ true
unfolding subset
subset-remove k [] ys absent s = refl
subset-remove k (x ∷ xs) ys absent s =
    rw
      (
        contains-remove k x ys (bytes_equal_sym k x (ground (arith, absent))),
        subset-remove k xs ys (ground (arith, absent)) (ground (arith, s)),
      )
      (ground (arith, s))

length-subset :
    (xs ys : List Bytes) → is_set xs ≡ true → subset xs ys ≡ true → length xs ≤ length ys
unfolding subset
length-subset [] ys set s = omega arith
length-subset (x ∷ xs) ys set s = omega (
  arith,
  length-remove x ys (ground (arith, s)),
  length-subset xs (remove x ys) (ground (arith, set))
      (subset-remove x xs ys (ground (arith, set)) (ground (arith, s))),
)

subset_back :
    (key : Bytes) (xs ys : List Bytes)
    → is_set xs ≡ true
    → subset xs ys ≡ true
    → length xs ≡ length ys
    → contains key ys ≡ true
    → contains key xs ≡ true
unfolding subset
subset_back key [] [] set s e c = c
subset_back key [] (y ∷ ys) set s e c = absurd (omega (arith, e))
subset_back key (x ∷ xs) ys set s e c = elim (Bool-cases (bytes_equal key x)) [
  | inl here ↦ rw here refl
  | inr there ↦ rw there (
      subset_back key xs (remove x ys) (ground (arith, set))
        (subset-remove x xs ys (ground (arith, set)) (ground (arith, s)))
        (omega (arith, e, length-remove x ys (ground (arith, s))))
        (contains-remove x key ys there ∙ c))
]

-- The same keys.
abbrev pub SameKeys : List Bytes → List Bytes → Type 0
SameKeys xs ys = (key : Bytes) → contains key xs ≡ contains key ys

same_test : (b c : Bool) → (b ≡ true → c ≡ true) → (c ≡ true → b ≡ true) → b ≡ c
same_test true c f g = sym (f refl)
same_test false true f g = g refl
same_test false false f g = refl

SameKeys-of_subset :
    (xs ys : List Bytes)
    → is_set xs ≡ true
    → subset xs ys ≡ true
    → length xs ≡ length ys
    → SameKeys xs ys
SameKeys-of_subset xs ys set s e key =
    same_test (contains key xs) (contains key ys) (subset-contains key xs ys s)
      (subset_back key xs ys set s e)

subset_of_tests :
    (xs ys : List Bytes)
    → ((key : Bytes) → contains key xs ≡ true → contains key ys ≡ true)
    → subset xs ys ≡ true
unfolding subset
subset_of_tests [] ys f = refl
subset_of_tests (x ∷ xs) ys f =
    rw
      (
        f x (rw (bytes_equal_refl x) refl),
        subset_of_tests xs ys (λ key c. f key (or_true (bytes_equal key x) (contains key xs) c)),
      )
      refl
  where
    or_true : (b c : Bool) → c ≡ true → (b || c) ≡ true
    or_true true c e = refl
    or_true false c e = e

-- Of two directories whose tables hold no digest twice, the program takes them for equal exactly if they
-- have as many files, the same cumulative digest, and the same digests in their tables.
pub directory_equal_iff :
    (d1 d2 : Directory)
    → is_set d1.hash_set ≡ true
    → is_set d2.hash_set ≡ true
    → (directory_equal d1 d2 ≡ true) ↔ (
        (d1.dupe_count ≡ d2.dupe_count)
        × (same_digest d1.digest d2.digest ≡ true)
        × SameKeys d1.hash_set d2.hash_set)
unfolding directory_equal subset
directory_equal_iff d1 d2 set1 set2 = (
  λ e.
      let s : subset d1.hash_set d2.hash_set ≡ true = ground (arith, e) in
      (
        (==_iff d1.dupe_count d2.dupe_count).0 (ground (arith, e)),
        ground (arith, e),
        SameKeys-of_subset d1.hash_set d2.hash_set set1 s
            ((==_iff (length d1.hash_set) (length d2.hash_set)).0 (ground (arith, e))),
      ),
  λ (count, digest, same).
      let s1 = subset_of_tests d1.hash_set d2.hash_set (λ key c. sym (same key) ∙ c) in
      let s2 = subset_of_tests d2.hash_set d1.hash_set (λ key c. same key ∙ c) in
      let size : length d1.hash_set ≡ length d2.hash_set = omega (
        arith,
        length-subset d1.hash_set d2.hash_set set1 s1,
        length-subset d2.hash_set d1.hash_set set2 s2,
      ) in
      rw
        (
          (==_iff d1.dupe_count d2.dupe_count).1 count,
          digest,
          (==_iff (length d1.hash_set) (length d2.hash_set)).1 size,
          s1,
        )
        refl,
)
