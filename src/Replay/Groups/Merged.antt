-- ===== src/Replay/Groups/Merged.antt =====
-- Groups of several results with one checksum, put together (rm_parrot_merge_identical_groups): no file
-- is lost, and the files of one group still have one checksum.
use rmlint.Common.{
  ◌≡◌, sym, ◌∙◌, Bool, List, [], ◌∷◌, ◌++◌, some, count, is_empty, All, All-append, arith,
  Bool-cases, Option-cases, inl, inr,
}
use mathlib.Core.Path.{subst}
use rmlint.File.Types.{FileRef, Heap}
use rmlint.Replay.Groups.{
  Merging, digest_of, existing_group, merge_group, merge_groups, merge_identical_groups,
}
use rmlint.Replay.Groups.Marked.{flatten}
use rmlint.Replay.Groups.Counted.{existing_group_lem, merge_groups-count}
use rmlint.Replay.Groups.Entries.{
  IsWhole, HasDigest, HasDigest-append, IsWhole-HasDigest, HasDigest-IsWhole, push_tail_at-All,
  get_elem?-length, IsMerging, IsEntry-of, entries_append, entries_push,
}

merge_group-IsMerging :
    (h : Heap) (group : List FileRef) (m : Merging)
    → IsWhole h group
    → IsMerging h m
    → IsMerging h (merge_group h group m)
unfolding merge_group
merge_group-IsMerging h [] m w o = record {
  whole = All-append (IsWhole h) m.passed ([] ∷ []) o.whole (w, tt);
  entries = entries_append h m.passed [] m.table o.entries;
}
merge_group-IsMerging h (f ∷ group) m w o =
    let d = digest_of (h.file f) in
    let here : HasDigest h d (f ∷ group) = IsWhole-HasDigest h f group w in
    elim (Bool-cases (is_empty d)) [
      | inl empty ↦
          rw (merge_group, empty)
            (record {
              whole = All-append (IsWhole h) m.passed ((f ∷ group) ∷ []) o.whole (w, tt);
              entries = entries_append h m.passed (f ∷ group) m.table o.entries;
            })
      | inr full ↦ elim (Option-cases (existing_group h (f ∷ group) d m)) [
        | inl alone ↦
            rw (merge_group, full, alone)
              (record {
                whole = All-append (IsWhole h) m.passed ((f ∷ group) ∷ []) o.whole (w, tt);
                entries = (
                  (f ∷ group, get_elem?-length m.passed (f ∷ group), here),
                  entries_append h m.passed (f ∷ group) m.table o.entries,
                );
              })
        | inr (i, found) ↦
            let (e, at, same, looked) = existing_group_lem h (f ∷ group) d m i found in
            let (k, there, digest) = IsEntry-of h m.passed d i m.table o.entries looked in
            let both : some k ≡ some e = sym there ∙ at in
            let alike : k ≡ e = cc in
            let whole : HasDigest h d e = subst (HasDigest h d) alike digest in
            rw (merge_group, full, found)
              (record {
                whole = push_tail_at-All (IsWhole h) i (f ∷ group) m.passed o.whole (λ g at'.
                    let two : some e ≡ some g = sym at ∙ at' in
                    let eq : e ≡ g = cc in
                    subst (λ x. IsWhole h (x ++ (f ∷ group))) eq
                      (HasDigest-IsWhole h d (e ++ (f ∷ group))
                        (HasDigest-append h d e (f ∷ group) same whole here)));
                entries =
                    entries_push h m.passed i d e (f ∷ group) m.table at same whole here o.entries;
              })
      ]
    ]

merge_groups-IsMerging :
    (h : Heap) (groups : List (List FileRef)) (m : Merging)
    → All (IsWhole h) groups
    → IsMerging h m
    → IsMerging h (merge_groups h groups m)
unfolding merge_groups
merge_groups-IsMerging h [] m w o = o
merge_groups-IsMerging h (group ∷ groups) m w o =
    merge_groups-IsMerging h groups (merge_group h group m) w.1
      (merge_group-IsMerging h group m w.0 o)

-- Groups are put together without loss: each file stands in them as often as before. If each group was
-- of parts of directories only, or of files with one checksum of which none is such a part, so is each
-- group afterwards.
pub merge_identical_groups-IsWhole :
    (h : Heap) (groups : List (List FileRef))
    → All (IsWhole h) groups
    → (let merged = merge_identical_groups h groups in
        ((p : FileRef → Bool) → count p (flatten merged) ≡ count p (flatten groups))
        × All (IsWhole h) merged)
unfolding merge_identical_groups
merge_identical_groups-IsWhole h groups w =
    let start : Merging = record { passed = []; table = [] } in
    (
      λ p. omega (arith, merge_groups-count p h groups start),
      IsMerging.whole
          (merge_groups-IsMerging h groups start w (record { whole = tt; entries = tt })),
    )
