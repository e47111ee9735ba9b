-- ===== src/Replay/Groups/Counted.antt =====
-- What rm_parrot_merge_identical_groups does to the number of files, one group after the other.
use rmlint.Common.{
  ℕ, zero, suc, ◌+◌, ◌≡◌, ◌≢◌, refl, sym, ◌∙◌, ap, Bool, List, [], ◌∷◌, ◌++◌, none, some, ◌==◌,
  ==_iff, get_elem?, count, count-append, is_empty, arith, Bool-cases, Option-cases, inl, inr,
}
use rmlint.Cfg.{Bytes}
use rmlint.File.Types.{FileRef, Heap}
use rmlint.Replay.Groups.{
  Merging, digest_of, type_of, lookup_group, push_tail_at, existing_group, merge_group,
  merge_groups,
}
use rmlint.Replay.Groups.Marked.{flatten, flatten-append}
use rmlint.Utilities.Queues.{queue_push_tail_queue}

push_tail_at-count :
    (p : FileRef → Bool) (i : ℕ) (group g : List FileRef) (gs : List (List FileRef))
    → get_elem? gs i ≡ some g
    → count p (flatten (push_tail_at i group gs)) ≡ count p (flatten gs) + count p group
unfolding push_tail_at queue_push_tail_queue
push_tail_at-count p i group g [] there = cc
push_tail_at-count p zero group g (x ∷ gs) there = omega (
  arith,
  count-append p (x ++ group) (flatten gs),
  count-append p x group,
  count-append p x (flatten gs),
)
push_tail_at-count p (suc i) group g (x ∷ gs) there = omega (
  arith,
  push_tail_at-count p i group g gs there,
  count-append p x (flatten (push_tail_at i group gs)),
  count-append p x (flatten gs),
)

pub nothing : {i : ℕ} → none ≢ some i
nothing e = cc

-- the place that is found is that of a group of the same type
pub existing_group_lem :
    (h : Heap) (group : List FileRef) (d : Bytes) (m : Merging) (i : ℕ)
    → existing_group h group d m ≡ some i
    → (g : List FileRef) × (get_elem? m.passed i ≡ some g)
      × (type_of h g ≡ type_of h group)
      × (lookup_group d m.table ≡ some i)
unfolding existing_group
existing_group_lem h group d m i found = elim (Option-cases (lookup_group d m.table)) [
  | inl missing ↦ absurd (nothing (sym (rw (existing_group, missing) refl) ∙ found))
  | inr (j, at) ↦ elim (Option-cases (get_elem? m.passed j)) [
    | inl gone ↦ absurd (nothing (sym (rw (existing_group, at, gone) refl) ∙ found))
    | inr (g, there) ↦ elim (Bool-cases (type_of h g == type_of h group)) [
      | inl same ↦
          let e : some j ≡ some i = sym (rw (existing_group, at, there, same) refl) ∙ found in
          let k : j ≡ i = cc in
          (
            g,
            ap (get_elem? m.passed) (sym k) ∙ there,
            (==_iff (type_of h g) (type_of h group)).0 same,
            at ∙ e,
          )
      | inr differs ↦ absurd (nothing (sym (rw (existing_group, at, there, differs) refl) ∙ found))
    ]
  ]
]

flatten_last :
    (p : FileRef → Bool) (gs : List (List FileRef)) (g : List FileRef)
    → count p (flatten (gs ++ (g ∷ []))) ≡ count p (flatten gs) + count p g
flatten_last p gs g =
    ap (count p) (flatten-append gs (g ∷ []))
    ∙ omega (arith, count-append p (flatten gs) (g ++ []), count-append p g [])

merge_group-count :
    (p : FileRef → Bool) (h : Heap) (group : List FileRef) (m : Merging)
    → count p (flatten (merge_group h group m).passed) ≡ count p (flatten m.passed) + count p group
unfolding merge_group
merge_group-count p h [] m = flatten_last p m.passed []
merge_group-count p h (f ∷ group) m = elim (Bool-cases (is_empty (digest_of (h.file f)))) [
  | inl empty ↦ rw (merge_group, empty) (flatten_last p m.passed (f ∷ group))
  | inr full ↦ elim (Option-cases (existing_group h (f ∷ group) (digest_of (h.file f)) m)) [
    | inl alone ↦ rw (merge_group, full, alone) (flatten_last p m.passed (f ∷ group))
    | inr (i, found) ↦
        let at = existing_group_lem h (f ∷ group) (digest_of (h.file f)) m i found in
        rw (merge_group, full, found) (push_tail_at-count p i (f ∷ group) at.0 m.passed at.1)
  ]
]

pub merge_groups-count :
    (p : FileRef → Bool) (h : Heap) (groups : List (List FileRef)) (m : Merging)
    → count p (flatten (merge_groups h groups m).passed)
      ≡ count p (flatten m.passed) + count p (flatten groups)
unfolding merge_groups
merge_groups-count p h [] m = omega arith
merge_groups-count p h (group ∷ groups) m = omega (
  arith,
  merge_groups-count p h groups (merge_group h group m),
  merge_group-count p h group m,
  count-append p group (flatten groups),
)
