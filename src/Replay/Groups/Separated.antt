-- ===== src/Replay/Groups/Separated.antt =====
-- Which groups of results stay apart when groups are put together (rm_parrot_merge_identical_groups).
use rmlint.Common.{
  ==_iff, ℕ, ◌≤◌, ◌<◌, ◌≡◌, ◌≢◌, ◌⊎◌, refl, sym, ◌∙◌, ap, true, false, List, [], ◌∷◌, ◌++◌, none,
  some, ◌==◌, length, get_elem?, is_empty, All, arith, Bool-cases, Option-cases, inl, inr,
}
use mathlib.Core.Path.{subst}
use rmlint.Cfg.{Bytes}
use rmlint.File.Types.{FileRef, Heap}
use rmlint.Preprocess.Cluster.{bytes_equal}
use rmlint.Trie.Laws.{bytes_equal→eq, bytes_equal_refl}
use rmlint.Replay.Groups.{
  Merging, digest_of, type_of, lookup_group, existing_group, merge_group, merge_groups,
  merge_identical_groups,
}
use rmlint.Replay.Groups.Entries.{get_elem?-append, get_elem?-length}
use rmlint.Replay.Groups.Parted.{
  head_digest, At, PartedAt, IsSeparated, bounded, append_back, push-IsSeparated, between_append,
  skip-IsSeparated,
}

-- The table with a new entry.
lookup_new :
    (d d' : Bytes) (n : ℕ) (table : List (Bytes × ℕ))
    → ((d ≡ d') × (lookup_group d' ((d, n) ∷ table) ≡ some n))
      ⊎ (lookup_group d' ((d, n) ∷ table) ≡ lookup_group d' table)
lookup_new d d' n table = elim (Bool-cases (bytes_equal d d')) [
  | inl same ↦ inl (bytes_equal→eq d d' same, rw same refl)
  | inr other ↦ inr (rw other refl)
]

lookup_own :
    (d : Bytes) (n : ℕ) (table : List (Bytes × ℕ)) → lookup_group d ((d, n) ∷ table) ≡ some n
lookup_own d n table = rw (bytes_equal_refl d) refl

-- A group that no other is fit for starts a new entry.
new-IsSeparated :
    (h : Heap) (x : List FileRef) (m : Merging)
    → 0 < length x
    → ((l : ℕ) (e : List FileRef)
        → lookup_group (head_digest h x) m.table ≡ some l
        → At m.passed l e
        → type_of h e ≢ type_of h x)
    → IsSeparated h m
    → IsSeparated h (record {
      passed = m.passed ++ (x ∷ []);
      table = (head_digest h x, length m.passed) ∷ m.table;
    })
new-IsSeparated h x m some_ unfit s = record {
  full = λ k g at. elim (append_back m.passed x k g at) [
    | inl old ↦ s.full k g old
    | inr (last, same) ↦ subst (λ e. 0 < length e) same some_
  ];
  known = λ k g at filled. elim (append_back m.passed x k g at) [
    | inl old ↦ elim (lookup_new (head_digest h x) (head_digest h g) (length m.passed) m.table) [
      | inl (same, found) ↦ (
        length m.passed,
        x,
        found,
        omega (arith, bounded m.passed k g old),
        get_elem?-length m.passed x,
        same,
      )
      | inr before ↦
          let (l, e, found, le, there, digest) = s.known k g old filled in
          (l, e, before ∙ found, le, get_elem?-append m.passed (x ∷ []) l e there, digest)
    ]
    | inr (last, same) ↦ (
      length m.passed,
      x,
      ap (λ e. lookup_group (head_digest h e) ((head_digest h x, length m.passed) ∷ m.table))
            (sym same)
          ∙ lookup_own (head_digest h x) (length m.passed) m.table,
      omega (arith, last),
      get_elem?-length m.passed x,
      ap (head_digest h) same,
    )
  ];
  apart = λ j k g g' lt at at' filled same type. elim (append_back m.passed x k g' at') [
    | inl new ↦ elim (append_back m.passed x j g at) [
      | inl old ↦ between_append h m.passed x j k g (s.apart j k g g' lt old new filled same type)
      | inr (last, eq) ↦ absurd (omega (arith, last, lt, bounded m.passed k g' new))
    ]
    | inr (last, eq) ↦ elim (append_back m.passed x j g at) [
      | inr (last', eq') ↦ absurd (omega (arith, last, last', lt))
      | inl old ↦
          let (l, e, found, le, there, digest) = s.known j g old filled in
          let x_g : head_digest h g ≡ head_digest h x = same ∙ ap (head_digest h) (sym eq) in
          let other : type_of h e ≢ type_of h x =
            unfit l e (ap (λ d. lookup_group d m.table) (sym x_g) ∙ found) there in
          let t : type_of h g ≡ type_of h x = type ∙ ap (type_of h) (sym eq) in
          between_append h m.passed x j k g (
            l,
            e,
            further j l g e le old there (λ a. other (a ∙ t)),
            omega (arith, last, bounded m.passed l e there),
            there,
            digest,
            λ a. other (a ∙ t),
          )
    ]
  ];
}
  where
    further :
        (j l : ℕ) (g e : List FileRef)
        → j ≤ l
        → At m.passed j g
        → At m.passed l e
        → type_of h e ≢ type_of h g
        → j < l
    further j l g e le here there other = elim (Bool-cases (j == l)) [
      | inl same ↦
          let eq : j ≡ l = (==_iff j l).0 same in
          let two : some e ≡ some g = sym there ∙ ap (get_elem? m.passed) (sym eq) ∙ here in
          let alike : e ≡ g = cc in absurd (other (ap (type_of h) alike))
      | inr differs ↦ ground (arith, le, differs)
    ]

unfit_lem :
    (h : Heap) (group : List FileRef) (d : Bytes) (m : Merging)
    → existing_group h group d m ≡ none
    → (l : ℕ) (e : List FileRef) → lookup_group d m.table ≡ some l
    → At m.passed l e
    → type_of h e ≢ type_of h group
unfolding existing_group
unfit_lem h group d m missing l e found there same =
    let fits : (type_of h e == type_of h group) ≡ true =
      (==_iff (type_of h e) (type_of h group)).1 same in
    let all_there : existing_group h group d m ≡ some l =
      rw (existing_group, found, there, fits) refl in
    let none_ : none ≡ some l = sym missing ∙ all_there in cc

merge_group-IsSeparated :
    (h : Heap) (group : List FileRef) (m : Merging)
    → 0 < length group
    → IsSeparated h m
    → IsSeparated h (merge_group h group m)
unfolding merge_group
merge_group-IsSeparated h [] m some_ s = absurd (omega arith)
merge_group-IsSeparated h (f ∷ group) m some_ s =
    elim (Bool-cases (is_empty (digest_of (h.file f)))) [
      | inl empty ↦ rw (merge_group, empty) (skip-IsSeparated h (f ∷ group) m some_ empty s)
      | inr full ↦ elim (Option-cases (existing_group h (f ∷ group) (digest_of (h.file f)) m)) [
        | inl alone ↦
            rw (merge_group, full, alone)
              (new-IsSeparated h (f ∷ group) m some_
                (unfit_lem h (f ∷ group) (digest_of (h.file f)) m alone) s)
        | inr (i, found) ↦ rw (merge_group, full, found) (push-IsSeparated h i (f ∷ group) m s)
      ]
    ]

merge_groups-IsSeparated :
    (h : Heap) (groups : List (List FileRef)) (m : Merging)
    → All (λ g. 0 < length g) groups
    → IsSeparated h m
    → IsSeparated h (merge_groups h groups m)
unfolding merge_groups
merge_groups-IsSeparated h [] m filled s = s
merge_groups-IsSeparated h (group ∷ groups) m filled s =
    merge_groups-IsSeparated h groups (merge_group h group m) filled.1
      (merge_group-IsSeparated h group m filled.0 s)

-- Groups that belong together are put together: two groups that are left with one checksum and one type
-- stand apart only because a group with this checksum and another type stands between them. The type
-- and the checksum of a group are those of its first file, the checksum is there, and no group is empty
-- before.
pub merge_identical_groups-PartedAt :
    (h : Heap) (groups : List (List FileRef)) (j k : ℕ) (g g' : List FileRef)
    → All (λ group. 0 < length group) groups
    → j < k
    → At (merge_identical_groups h groups) j g
    → At (merge_identical_groups h groups) k g'
    → is_empty (head_digest h g) ≡ false
    → head_digest h g ≡ head_digest h g'
    → type_of h g ≡ type_of h g'
    → PartedAt h (merge_identical_groups h groups) j k g
unfolding merge_identical_groups
merge_identical_groups-PartedAt h groups j k g g' filled =
    IsSeparated.apart
      (merge_groups-IsSeparated h groups (record { passed = []; table = [] }) filled
        (record { full = λ k g at. cc; known = λ k g at filled. cc; apart = λ j k g g' lt at. cc }))
      j k g g'
