-- ===== src/Replay/Groups/Entries.antt =====
-- The table of checksums of rm_parrot_merge_identical_groups, and what it says of the groups passed.
use rmlint.Common.{
  Bool, true, false, ◌==◌, length-append, ℕ, zero, suc, ◌<◌, ◌≡◌, ◌⊎◌, refl, sym, ◌∙◌, ap, List, [],
  ◌∷◌, ◌++◌, some, length, get_elem?, All, All-append, arith, Bool-cases, inl, inr,
}
use mathlib.Core.Path.{subst}
use rmlint.Cfg.{Bytes}
use rmlint.File.Types.{FileRef, Heap, lint_number, part_of_directory}
use rmlint.Preprocess.Cluster.{bytes_equal}
use rmlint.Trie.Laws.{bytes_equal→eq}
use rmlint.Replay.Groups.{Merging, digest_of, type_of, lookup_group, push_tail_at}
use rmlint.Replay.Groups.Marked.{IsGroup}
use rmlint.Utilities.Queues.{queue_push_tail_queue}
use rmlint.Replay.Groups.Counted.{nothing}

-- The file is a part of a directory.
abbrev pub stands_in_dir : Heap → FileRef → Bool
stands_in_dir h f = lint_number (h.file f).lint_type == lint_number part_of_directory

-- Parts of directories, and nothing else.
abbrev pub IsParts : Heap → List FileRef → Type 0
IsParts h group = (0 < length group) × All (λ f. stands_in_dir h f ≡ true) group

-- No part of a directory.
abbrev pub HasNoPart : Heap → List FileRef → Type 0
HasNoPart h group = All (λ f. stands_in_dir h f ≡ false) group

-- What a group of results is: parts of directories only, or files with one checksum of which none is
-- such a part.
abbrev pub IsWhole : Heap → List FileRef → Type 0
IsWhole h group = IsParts h group ⊎ (IsGroup h group × HasNoPart h group)

-- Files with this checksum, or parts of directories.
abbrev pub HasDigest : Heap → Bytes → List FileRef → Type 0
HasDigest h d group =
    IsParts h group
    ⊎ ((0 < length group) × All (λ f. digest_of (h.file f) ≡ d) group × HasNoPart h group)

abbrev IsEntry : Heap → List (List FileRef) → Bytes × ℕ → Type 0
IsEntry h passed (d, i) = (g : List FileRef) × (get_elem? passed i ≡ some g) × HasDigest h d g

-- Groups with heads of one type are both of parts, or both without.
mixed :
    (h : Heap) (e g : List FileRef)
    → type_of h e ≡ type_of h g
    → IsParts h e
    → 0 < length g
    → HasNoPart h g
    → ⊥
mixed h [] g same parts some_ whole = absurd (omega (arith, parts.0))
mixed h (f ∷ e) [] same parts some_ whole = absurd (omega arith)
mixed h (f ∷ e) (i ∷ g) same parts some_ whole = ground (arith, same, parts.1.0, whole.0)

pub HasDigest-append :
    (h : Heap) (d : Bytes) (e g : List FileRef)
    → type_of h e ≡ type_of h g
    → HasDigest h d e
    → HasDigest h d g
    → HasDigest h d (e ++ g)
HasDigest-append h d e g same (inl parts) (inl other) = inl (
  omega (arith, parts.0, length-append e g),
  All-append (λ f. stands_in_dir h f ≡ true) e g parts.1 other.1,
)
HasDigest-append h d e g same (inl parts) (inr other) =
    absurd (mixed h e g same parts other.0 other.2)
HasDigest-append h d e g same (inr whole) (inl parts) =
    absurd (mixed h g e (sym same) parts whole.0 whole.2)
HasDigest-append h d e g same (inr whole) (inr other) = inr (
  omega (arith, whole.0, length-append e g),
  All-append (λ f. digest_of (h.file f) ≡ d) e g whole.1 other.1,
  All-append (λ f. stands_in_dir h f ≡ false) e g whole.2 other.2,
)

pub IsWhole-HasDigest :
    (h : Heap) (f : FileRef) (g : List FileRef)
    → IsWhole h (f ∷ g)
    → HasDigest h (digest_of (h.file f)) (f ∷ g)
IsWhole-HasDigest h f g (inl parts) = inl parts
IsWhole-HasDigest h f g (inr ((full, (d, same)), whole)) =
    inr (full, subst (λ e. All (λ i. digest_of (h.file i) ≡ e) (f ∷ g)) (sym same.0) same, whole)

HasDigest-same :
    (h : Heap) (d d' : Bytes) (e g : List FileRef)
    → type_of h e ≡ type_of h g
    → HasDigest h d e
    → HasDigest h d' e
    → HasDigest h d g
    → HasDigest h d' g
HasDigest-same h d d' e g same whole other (inl parts) = inl parts
HasDigest-same h d d' e g same (inl parts) other (inr here) =
    absurd (mixed h e g same parts here.0 here.2)
HasDigest-same h d d' e g same (inr whole) (inl parts) (inr here) =
    absurd (mixed h e g same parts here.0 here.2)
HasDigest-same h d d' [] g same (inr whole) (inr other) here = absurd (omega (arith, whole.0))
HasDigest-same h d d' (f ∷ e) g same (inr whole) (inr other) here =
    subst (λ k. HasDigest h k g) (sym whole.1.0 ∙ other.1.0) here

pub HasDigest-IsWhole : (h : Heap) (d : Bytes) (g : List FileRef) → HasDigest h d g → IsWhole h g
HasDigest-IsWhole h d g (inl parts) = inl parts
HasDigest-IsWhole h d g (inr whole) = inr ((whole.0, (d, whole.1)), whole.2)

pub push_tail_at-All :
    (P : List FileRef → Type 0) (i : ℕ) (group : List FileRef) (gs : List (List FileRef))
    → All P gs
    → ((g : List FileRef) → get_elem? gs i ≡ some g → P (g ++ group))
    → All P (push_tail_at i group gs)
unfolding push_tail_at queue_push_tail_queue
push_tail_at-All P i group [] all_hold joined = tt
push_tail_at-All P zero group (g ∷ gs) all_hold joined = (joined g refl, all_hold.1)
push_tail_at-All P (suc i) group (g ∷ gs) all_hold joined =
    (all_hold.0, push_tail_at-All P i group gs all_hold.1 joined)

pub push_tail_at-get_elem? :
    (i j : ℕ) (group g : List FileRef) (gs : List (List FileRef))
    → get_elem? gs j ≡ some g
    → (get_elem? (push_tail_at i group gs) j ≡ some g)
      ⊎ ((i ≡ j) × (get_elem? (push_tail_at i group gs) j ≡ some (g ++ group)))
unfolding push_tail_at queue_push_tail_queue
push_tail_at-get_elem? i j group g [] there = cc
push_tail_at-get_elem? zero zero group g (x ∷ gs) there = inr (refl, cc)
push_tail_at-get_elem? zero (suc j) group g (x ∷ gs) there = inl there
push_tail_at-get_elem? (suc i) zero group g (x ∷ gs) there = inl there
push_tail_at-get_elem? (suc i) (suc j) group g (x ∷ gs) there =
    elim (push_tail_at-get_elem? i j group g gs there) [
      | inl same ↦ inl same
      | inr (here, longer) ↦ inr (ap suc here, longer)
    ]

pub get_elem?-append :
    (gs hs : List (List FileRef)) (j : ℕ) (g : List FileRef)
    → get_elem? gs j ≡ some g
    → get_elem? (gs ++ hs) j ≡ some g
get_elem?-append [] hs j g there = cc
get_elem?-append (x ∷ gs) hs zero g there = there
get_elem?-append (x ∷ gs) hs (suc j) g there = get_elem?-append gs hs j g there

pub get_elem?-length :
    (gs : List (List FileRef)) (g : List FileRef) → get_elem? (gs ++ (g ∷ [])) (length gs) ≡ some g
get_elem?-length [] g = refl
get_elem?-length (x ∷ gs) g = get_elem?-length gs g

pub record IsMerging (h : Heap) (m : Merging) : Type 0 where
  pub whole : All (IsWhole h) m.passed
  pub entries : All (IsEntry h m.passed) m.table

pub IsEntry-of :
    (h : Heap) (passed : List (List FileRef)) (d : Bytes) (i : ℕ) (table : List (Bytes × ℕ))
    → All (IsEntry h passed) table
    → lookup_group d table ≡ some i
    → IsEntry h passed (d, i)
IsEntry-of h passed d i [] entries found = absurd (nothing found)
IsEntry-of h passed d i ((e, j) ∷ table) entries found = elim (Bool-cases (bytes_equal e d)) [
  | inl same ↦
      let k : j ≡ i = ground (arith, same, found) in
      subst (λ b. IsEntry h passed (b, i)) (bytes_equal→eq e d same)
        (subst (λ n. IsEntry h passed (e, n)) k entries.0)
  | inr differs ↦ IsEntry-of h passed d i table entries.1 (ground (arith, differs, found))
]

-- A new group behind the others.
pub entries_append :
    (h : Heap) (passed : List (List FileRef)) (g : List FileRef) (table : List (Bytes × ℕ))
    → All (IsEntry h passed) table
    → All (IsEntry h (passed ++ (g ∷ []))) table
entries_append h passed g [] entries = tt
entries_append h passed g ((d, i) ∷ table) entries = (
  (entries.0.0, get_elem?-append passed (g ∷ []) i entries.0.0 entries.0.1, entries.0.2),
  entries_append h passed g table entries.1,
)

-- A group that joins one with the same checksum and type.
pub entries_push :
    (h : Heap) (passed : List (List FileRef)) (i : ℕ) (d : Bytes) (e g : List FileRef)
    (table : List (Bytes × ℕ))
    → get_elem? passed i ≡ some e
    → type_of h e ≡ type_of h g
    → HasDigest h d e
    → HasDigest h d g
    → All (IsEntry h passed) table
    → All (IsEntry h (push_tail_at i g passed)) table
entries_push h passed i d e g [] at same whole here entries = tt
entries_push h passed i d e g ((d', j) ∷ table) at same whole here entries = (
  elim (push_tail_at-get_elem? i j g entries.0.0 passed entries.0.1) [
    | inl still ↦ (entries.0.0, still, entries.0.2)
    | inr (k, longer) ↦
        let there : some entries.0.0 ≡ some e =
          sym entries.0.1 ∙ ap (get_elem? passed) (sym k) ∙ at in
        let alike : entries.0.0 ≡ e = cc in
        let digest =
          HasDigest-same h d d' e g same whole (subst (HasDigest h d') alike entries.0.2) here in
        (
          entries.0.0 ++ g,
          longer,
          HasDigest-append h d' entries.0.0 g (ap (type_of h) alike ∙ same) entries.0.2 digest,
        )
  ],
  entries_push h passed i d e g table at same whole here entries.1,
)
