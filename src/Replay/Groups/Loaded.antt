-- ===== src/Replay/Groups/Loaded.antt =====
-- What the loop of rm_parrot_cage_load makes of the files that it reads: which files are kept, in which
-- order, and what the files of one group share.
use rmlint.Common.{
  ◌<◌, ◌≡◌, refl, sym, ◌∙◌, ap, Bool, not, ◌&&◌, ◌||◌, List, [], ◌∷◌, ◌++◌, Option, none, some,
  ◌==◌, ==_iff, ltb, length, is_empty, keep, All, All-append, if◌then◌else◌, arith, Bool-cases, inl,
  inr,
}
use mathlib.Core.List.{append_assoc, append-nil}
use rmlint.Common.Sign.{ℤ}
use rmlint.Cfg.{Bytes, RmCfg}
use rmlint.File.Types.{RmFile, FileRef, Heap, write_file}
use rmlint.Preprocess.Cluster.{bytes_equal}
use rmlint.Trie.Laws.{bytes_equal→eq}
use rmlint.Replay.Checks.{check_file}
use rmlint.Replay.Groups.{
  Parrot, Cage, Loading, add_file, load_file, load_files, cage_load, cage_push_to_group, digest_of,
  is_part, last_or,
}
use rmlint.Replay.Groups.Marked.{
  IsMarked, passes, check_file-IsMarked, passes-IsMarked, flatten, flatten-append, keep_one,
  IsGroup, cage_push_to_group-flatten, IsMarked-trans, others, some_not_none, is_wanted,
  is_wanted_part,
}

module _ (access : Bytes → ℤ → Bool) (cfg : RmCfg) (polly : Parrot) (h0 : Heap)
    (old : List (List FileRef)) where
  record IsLoading (l : Loading) (new : List (List FileRef)) : Type 0 where
    files : (f : FileRef) → IsMarked (l.heap.file f) (h0.file f)
    place : l.groups ≡ old ++ new
    whole : All (IsGroup h0) new
    uniform : All (λ f. some (digest_of (h0.file f)) ≡ l.last_digest) l.group

  IsMarked-after :
      (h : Heap) (f : FileRef) (v : RmFile)
      → ((i : FileRef) → IsMarked (h.file i) (h0.file i))
      → IsMarked v (h0.file f)
      → (i : FileRef) → IsMarked ((write_file f v h).file i) (h0.file i)
  unfolding write_file
  IsMarked-after h f v same m i = elim (Bool-cases (i == f)) [
    | inl here ↦
        let e : i ≡ f = (==_iff i f).0 here in
        rw here (
          m
          ∙ ap {A = FileRef}
              (λ (j : FileRef). record (h0.file j) {
                is_prefd = v.is_prefd;
                path_index = v.path_index;
              })
              (sym e))
    | inr there ↦ rw there (same i)
  ]

  uniform-IsGroup :
      (last : Option Bytes) (g : List FileRef)
      → All (λ f. some (digest_of (h0.file f)) ≡ last) g
      → 0 < length g
      → IsGroup h0 g
  uniform-IsGroup last [] same full = absurd (omega (arith, full))
  uniform-IsGroup last (f ∷ g) same full = (
    full,
    (
      digest_of (h0.file f),
      (refl, others (λ i. digest_of (h0.file i)) (digest_of (h0.file f)) last g same.0 same.1),
    ),
  )

  -- what held of the last checksum holds of the one that is noted now
  uniform_last :
      (last : Option Bytes) (d : Bytes) (g : List FileRef)
      → All (λ f. some (digest_of (h0.file f)) ≡ last) g
      → All (λ f. some (digest_of (h0.file f)) ≡ some (last_or last d)) g
  uniform_last last d [] same = tt
  uniform_last none d (f ∷ g) same = absurd (some_not_none same.0)
  uniform_last (some e) d (f ∷ g) same = same

  -- a file that is kept
  record Kept (f : FileRef) (l t : Loading) (new : List (List FileRef)) : Type 0 where
    news : List (List FileRef)
    still : IsLoading t news
    order : flatten news ++ t.group ≡ (flatten new ++ l.group) ++ (f ∷ [])
    apart : t.parts ≡ l.parts

  add_file-Kept :
      (f : FileRef) (file : RmFile) (l : Loading) (new : List (List FileRef))
      → digest_of file ≡ digest_of (h0.file f)
      → IsLoading l new
      → Kept f l (add_file f file l) new
  unfolding add_file
  add_file-Kept f file l new same w =
      let last = last_or l.last_digest (digest_of file) in
      elim (Bool-cases (
        (is_empty (digest_of file) && file.is_original)
        || not (bytes_equal (digest_of file) last))) [
          | inl starts ↦
              let (pushed, at, flat, good) = cage_push_to_group-flatten l.groups l.group in
              rw (add_file, starts)
                (record {
                  news = new ++ pushed;
                  still = record {
                    files = w.files;
                    place = at ∙ ap (λ gs. gs ++ pushed) w.place ∙ append_assoc old new pushed;
                    whole =
                        All-append (IsGroup h0) new pushed w.whole
                          (good (IsGroup h0) (uniform-IsGroup l.last_digest l.group w.uniform));
                    uniform = (ap some (sym same), tt);
                  };
                  order =
                      ap (λ gs. gs ++ (f ∷ []))
                        (flatten-append new pushed ∙ ap (λ g. flatten new ++ g) flat);
                  apart = refl;
                })
          | inr joins ↦
              rw (add_file, joins)
                (record {
                  news = new;
                  still = record {
                    files = w.files;
                    place = w.place;
                    whole = w.whole;
                    uniform =
                        All-append (λ i. some (digest_of (h0.file i)) ≡ some last) l.group (f ∷ [])
                          (uniform_last l.last_digest (digest_of file) l.group w.uniform)
                          (
                            ap some (
                                sym same
                                ∙ bytes_equal→eq (digest_of file) last (ground (arith, joins))),
                            tt,
                          );
                  };
                  order = sym (append_assoc (flatten new) l.group (f ∷ []));
                  apart = refl;
                })
        ]

  -- a file that is read
  record Read (f : FileRef) (l t : Loading) (new : List (List FileRef)) : Type 0 where
    news : List (List FileRef)
    still : IsLoading t news
    order :
        flatten news ++ t.group
        ≡ (flatten new ++ l.group) ++ keep (is_wanted access cfg polly h0) (f ∷ [])
    apart : t.parts ≡ l.parts ++ keep (is_wanted_part access cfg polly h0) (f ∷ [])

  load_file-Read :
      (f : FileRef) (l : Loading) (new : List (List FileRef))
      → IsLoading l new
      → Read f l (load_file access cfg polly f l) new
  unfolding load_file
  load_file-Read f l new w =
      let file = l.heap.file f in
      let checked = check_file access cfg polly.disk_ids polly.is_prefd file.path file in
      let marked : IsMarked checked.1 (h0.file f) =
        IsMarked-trans checked.1 file (h0.file f) (check_file-IsMarked access cfg polly file)
          (w.files f) in
      let same : passes access cfg polly (h0.file f) ≡ checked.0 =
        sym (passes-IsMarked access cfg polly file (h0.file f) (w.files f)) in
      let type : (h0.file f).lint_type ≡ file.lint_type = sym (ap (λ r. r.lint_type) (w.files f)) in
      let l' = record l { heap = write_file f checked.1 l.heap } in
      let w' : IsLoading l' new = record {
        files = IsMarked-after l.heap f checked.1 w.files marked;
        place = w.place;
        whole = w.whole;
        uniform = w.uniform;
      } in
      elim (Bool-cases checked.0) [
        | inr fails ↦
            rw (load_file, fails)
              (record {
                news = new;
                still = w';
                order = rw (same ∙ fails) (sym (append-nil _));
                apart = rw (same ∙ fails) (sym (append-nil _));
              })
        | inl good ↦ elim (Bool-cases (is_part file.lint_type)) [
          | inl part ↦
              rw (load_file, good, part)
                (record {
                  news = new;
                  still = record {
                    files = w'.files;
                    place = w.place;
                    whole = w.whole;
                    uniform = w.uniform;
                  };
                  order = rw (same ∙ good, type, part) (sym (append-nil _));
                  apart = rw (same ∙ good, type, part) refl;
                })
          | inr whole ↦
              let kept = add_file-Kept f checked.1 l' new (ap (λ r. digest_of r) marked) w' in
              rw (load_file, good, whole)
                (record {
                  news = kept.news;
                  still = kept.still;
                  order = rw (same ∙ good, type, whole) kept.order;
                  apart = rw (same ∙ good, type, whole) (kept.apart ∙ sym (append-nil l.parts));
                })
        ]
      ]

  -- the files of a list that are read
  record ReadAll (files : List FileRef) (l t : Loading) (new : List (List FileRef)) : Type 0 where
    news : List (List FileRef)
    still : IsLoading t news
    order :
        flatten news ++ t.group
        ≡ (flatten new ++ l.group) ++ keep (is_wanted access cfg polly h0) files
    apart : t.parts ≡ l.parts ++ keep (is_wanted_part access cfg polly h0) files

  load_files-ReadAll :
      (files : List FileRef) (l : Loading) (new : List (List FileRef))
      → IsLoading l new
      → ReadAll files l (load_files access cfg polly files l) new
  unfolding load_files
  load_files-ReadAll [] l new w = record {
    news = new;
    still = w;
    order = sym (append-nil _);
    apart = sym (append-nil _);
  }
  load_files-ReadAll (f ∷ files) l new w =
      let first = load_file-Read f l new w in
      let rest = load_files-ReadAll files (load_file access cfg polly f l) first.news first.still in
      record {
        news = rest.news;
        still = rest.still;
        order =
            rest.order
            ∙ ap (λ k. k ++ keep (is_wanted access cfg polly h0) files) first.order
            ∙ append_assoc (flatten new ++ l.group) (keep (is_wanted access cfg polly h0) (f ∷ []))
                (keep (is_wanted access cfg polly h0) files)
            ∙ ap (λ k. (flatten new ++ l.group) ++ k)
                (keep_one (is_wanted access cfg polly h0) f files);
        apart =
            rest.apart
            ∙ ap (λ k. k ++ keep (is_wanted_part access cfg polly h0) files) first.apart
            ∙ append_assoc l.parts (keep (is_wanted_part access cfg polly h0) (f ∷ []))
                (keep (is_wanted_part access cfg polly h0) files)
            ∙ ap (λ k. l.parts ++ k) (keep_one (is_wanted_part access cfg polly h0) f files);
      }

-- What was read from a file of results. The files that pass the checks and are no parts of a
-- directory stand in the new groups, in the order of the results; no group is empty, and the files of
-- one group have one checksum. The parts of directories that pass are one more group, which comes first, if
-- there are two or more. The groups there were before stand unchanged, and no file changes except in
-- its preference and the index of its path.
pub cage_load-groups :
    (access : Bytes → ℤ → Bool) (cfg : RmCfg) (polly : Parrot) (cage : Cage)
    → (let after = (cage_load access cfg (some polly) cage).0 in
        let wanted = keep (is_wanted access cfg polly cage.heap) polly.files in
        let parts = keep (is_wanted_part access cfg polly cage.heap) polly.files in
        ((new : List (List FileRef)) × (flatten new ≡ wanted)
          × All (IsGroup cage.heap) new
          × (after.groups ≡ (
              if ltb 1 (length parts) then parts ∷ (cage.groups ++ new) else cage.groups ++ new)))
        × ((f : FileRef) → IsMarked (after.heap.file f) (cage.heap.file f)))
unfolding cage_load
cage_load-groups access cfg polly cage =
    let l : Loading = record {
      heap = cage.heap;
      groups = cage.groups;
      group = [];
      parts = [];
      last_digest = none;
    } in
    let w : IsLoading access cfg polly cage.heap cage.groups l [] = record {
      files = λ f. refl;
      place = sym (append-nil cage.groups);
      whole = tt;
      uniform = tt;
    } in
    let r = load_files-ReadAll access cfg polly cage.heap cage.groups polly.files l [] w in
    let t = load_files access cfg polly polly.files l in
    let still = r.still in
    let (pushed, at, flat, good) = cage_push_to_group-flatten t.groups t.group in
    let groups : cage_push_to_group t.groups t.group ≡ cage.groups ++ (r.news ++ pushed) =
      at ∙ ap (λ gs. gs ++ pushed) still.place ∙ append_assoc cage.groups r.news pushed in
    (
      (
        r.news ++ pushed,
        flatten-append r.news pushed ∙ ap (λ g. flatten r.news ++ g) flat ∙ r.order,
        All-append (IsGroup cage.heap) r.news pushed still.whole (
            good (IsGroup cage.heap) (
              uniform-IsGroup access cfg polly cage.heap cage.groups t.last_digest t.group
                still.uniform)),
        rw (r.apart, groups) refl,
      ),
      still.files,
    )
