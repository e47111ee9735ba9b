-- ===== src/Shredder/Rejects/Names.antt =====
-- Which files rm_shred_basename_rejects of lib/shredder.c leaves in the group.
use mathlib.Core.Path.{subst}
use mathlib.Core.List.{append_assoc}
use rmlint.Common.{
  ℕ, ◌≡◌, refl, sym, ◌∙◌, ap, Bool, true, false, not, ◌&&◌, List, [], ◌∷◌, ◌++◌, Option, none, some,
  ◌==◌, ==_iff, if◌then◌else◌, keep, Bool-cases, inl, inr,
}
use rmlint.Common.Sign.{is_zero}
use rmlint.Cfg.{RmCfg, DigestType}
use rmlint.Glib.{Glib}
use rmlint.File.Types.{FileRef, Heap, write_file}
use rmlint.Preprocess.Compare.{basenames_cmp}
use rmlint.Shredder.Types.{finishing, ShredGroup, ShredTag, GroupRef}
use rmlint.Shredder.Group.{Sifter, push_fields, group_new}
use rmlint.Shredder.Rejects.{
  Split, transfer, create_rejects, rejects_or, move_file, split_names, basename_rejects, held_list,
}
use rmlint.Shredder.Original.{is_finishing}
use rmlint.Shredder.Rejects.Held.{
  IsUnbundled, IsOnce, Holds, pushed_onto, transfer-Holds, IsOnce-tail, absent-of_once,
  create_rejects-Holds, Rejected,
}

-- The names of the files did not change.
abbrev pub SameNames : Heap → Heap → Type 0
SameNames h k = (i : FileRef) → (k.file i).basename ≡ (h.file i).basename

-- A file has the name of another, without case.
abbrev pub is_namesake : Glib → Heap → FileRef → FileRef → Bool
is_namesake g h headfile f = is_zero (g.strcasecmp (h.file f).basename (h.file headfile).basename)

basename-push_fields : (r : GroupRef) (f : FileRef) (h : Heap) → SameNames h (push_fields r f h)
unfolding push_fields write_file
basename-push_fields r f h i = elim (Bool-cases (i == f)) [
  | inl here ↦ rw here (ap (λ k. (h.file k).basename) (sym ((==_iff i f).0 here)))
  | inr there ↦ rw there refl
]

module _ (g : Glib) (cfg : RmCfg) (r : GroupRef) (page_size : ℕ) (type_of_digest : DigestType)
    (tag : ShredTag) (headfile : FileRef) where
  abbrev make : FileRef → Split → Split
  make = create_rejects page_size type_of_digest tag

  basename-create_rejects : (f : FileRef) (s : Split) → SameNames s.heap (make f s).heap
  unfolding create_rejects group_new write_file
  basename-create_rejects f s i = elim (Bool-cases (i == f)) [
    | inl here ↦ rw here (ap (λ k. (s.heap.file k).basename) (sym ((==_iff i f).0 here)))
    | inr there ↦ rw there refl
  ]

  name_test :
      (h : Heap) (s : Split) (f : FileRef)
      → SameNames h s.heap
      → is_zero (basenames_cmp g (s.heap.file f) (s.heap.file headfile))
        ≡ is_namesake g h headfile f
  unfolding basenames_cmp
  name_test h s f same =
      ap (λ n. is_zero (g.strcasecmp n (s.heap.file headfile).basename)) (same f)
      ∙ ap (λ n. is_zero (g.strcasecmp (h.file f).basename n)) (same headfile)

  -- one round of the loop
  round_skips :
      (f : FileRef) (rest : List FileRef) (s : Split)
      → is_zero (basenames_cmp g (s.heap.file f) (s.heap.file headfile)) ≡ false
      → split_names g cfg r make headfile (f ∷ rest) s ≡ split_names g cfg r make headfile rest s
  unfolding split_names
  round_skips f rest s e = rw e refl

  round_moves :
      (f : FileRef) (rest : List FileRef) (s s' : Split)
      → is_zero (basenames_cmp g (s.heap.file f) (s.heap.file headfile)) ≡ true
      → move_file g cfg r f (rejects_or (make f) s.rejects s) ≡ some s'
      → split_names g cfg r make headfile (f ∷ rest) s ≡ split_names g cfg r make headfile rest s'
  unfolding split_names
  round_moves f rest s s' e m =
      rw e (ap (λ o. elim o [ none ↦ none | some t ↦ split_names g cfg r make headfile rest t ]) m)

  -- the rejects are there when a file is moved
  move_file-transfer :
      (f : FileRef) (s : Split) (dest : Sifter)
      → s.rejects ≡ some dest
      → move_file g cfg r f s ≡ transfer g cfg r f s.group dest s.heap
  unfolding move_file
  move_file-transfer f s dest e =
      ap (λ o. elim o [ none ↦ none | some d ↦ transfer g cfg r f s.group d s.heap ]) e

  same_after :
      (h : Heap) (f : FileRef) (s s' : Split)
      → SameNames h s.heap
      → s'.heap ≡ push_fields r f s.heap
      → SameNames h s'.heap
  same_after h f s s' same e i =
      ap (λ k. (k.file i).basename) e ∙ basename-push_fields r f s.heap i ∙ same i

  -- what is kept, and what is moved
  abbrev others : Heap → List FileRef → List FileRef
  others h = keep (λ f. not (is_namesake g h headfile f))

  abbrev namesakes : Heap → List FileRef → List FileRef
  namesakes h = keep (is_namesake g h headfile)

  more_names :
      (h : Heap) (rest : List FileRef) (s : Split) (dest : Sifter) (p acc : List FileRef)
      → Holds s dest (p ++ rest) acc
      → IsOnce (p ++ rest)
      → SameNames h s.heap
      → (s' : Split) × (dest' : Sifter) × (split_names g cfg r make headfile rest s ≡ some s')
        × Holds s' dest' (p ++ others h rest) (pushed_onto (namesakes h rest) acc)
  more_names h [] s dest p acc held once same = (s, dest, unfold split_names in refl, held)
  more_names h (f ∷ rest) s dest p acc held once same =
      let test = name_test h s f same in
      elim (Bool-cases (is_namesake g h headfile f)) [
        | inl yes_ ↦
            let (s1, dest1, t, heap1, held1) =
              transfer-Holds g cfg r f s dest p rest acc held (absent-of_once p f rest once) in
            let (s', dest', e', held') =
              more_names h rest s1 dest1 p (f ∷ acc) held1 (IsOnce-tail p f rest once)
                (same_after h f s s1 same heap1) in
            let moved =
              ap (λ o. move_file g cfg r f (rejects_or (make f) o s)) held.rejects
              ∙ move_file-transfer f s dest held.rejects
              ∙ t in
            (s', dest', round_moves f rest s s1 (test ∙ yes_) moved ∙ e', rw yes_ held')
        | inr other ↦
            let same_list : p ++ f ∷ rest ≡ (p ++ f ∷ []) ++ rest =
              sym (append_assoc p (f ∷ []) rest) in
            let (s', dest', e', held') =
              more_names h rest s dest (p ++ f ∷ []) acc
                (subst (λ l. Holds s dest l acc) same_list held) (subst IsOnce same_list once)
                same in
            (
              s',
              dest',
              round_skips f rest s (test ∙ other) ∙ e',
              rw other (
                  subst (λ l. Holds s' dest' l (pushed_onto (namesakes h rest) acc))
                    (append_assoc p (f ∷ []) (others h rest)) held'),
            )
      ]

  -- what the loop leaves before there are rejects
  names_lem :
      (h : Heap) (rest : List FileRef) (s : Split) (p : List FileRef)
      → s.rejects ≡ none
      → s.group.held_files ≡ some (p ++ rest)
      → s.group.status ≡ finishing
      → IsUnbundled s.heap
      → IsOnce (p ++ rest)
      → SameNames h s.heap
      → (s' : Split) × (split_names g cfg r make headfile rest s ≡ some s')
        × (s'.group.held_files ≡ some (p ++ others h rest))
        × Rejected s'.rejects (namesakes h rest)
  names_lem h [] s p e held status u once same = (s, unfold split_names in refl, held, e)
  names_lem h (f ∷ rest) s p e held status u once same =
      let test = name_test h s f same in
      elim (Bool-cases (is_namesake g h headfile f)) [
        | inl yes_ ↦
            let (dest, made) =
              create_rejects-Holds page_size type_of_digest tag f s (p ++ f ∷ rest) held status u in
            let (s1, dest1, t, heap1, held1) =
              transfer-Holds g cfg r f (make f s) dest p rest [] made
                (absent-of_once p f rest once) in
            let same1 =
              same_after h f (make f s) s1 (λ i. basename-create_rejects f s i ∙ same i) heap1 in
            let (s', dest', e', held') =
              more_names h rest s1 dest1 p (f ∷ []) held1 (IsOnce-tail p f rest once) same1 in
            let moved =
              ap (λ o. move_file g cfg r f (rejects_or (make f) o s)) e
              ∙ move_file-transfer f (make f s) dest made.rejects
              ∙ t in
            (
              s',
              round_moves f rest s s1 (test ∙ yes_) moved ∙ e',
              rw yes_ held'.group_held,
              rw yes_ (dest', held'.rejects, held'.dest_held),
            )
        | inr other ↦
            let same_list : p ++ f ∷ rest ≡ (p ++ f ∷ []) ++ rest =
              sym (append_assoc p (f ∷ []) rest) in
            let (s', e', held', rejected) =
              names_lem h rest s (p ++ f ∷ []) e (held ∙ ap some same_list) status u
                (subst IsOnce same_list once) same in
            (
              s',
              round_skips f rest s (test ∙ other) ∙ e',
              rw other (held' ∙ ap some (append_assoc p (f ∷ []) (others h rest))),
              rw other rejected,
            )
      ]

  -- With --unmatched-basename a finishing group is split by names: the call returns, the group keeps its
  -- first file and those with another base name, without case, and the rejects hold the files that have
  -- the name of the first one. This is for files without clusters, each held once.
  pub basename_rejects-namesakes :
      (group : ShredGroup) (h : Heap) (rest : List FileRef)
      → cfg.unmatched_basenames ≡ true
      → group.held_files ≡ some (headfile ∷ rest)
      → group.status ≡ finishing
      → IsUnbundled h
      → IsOnce (headfile ∷ rest)
      → (s : Split) × (basename_rejects g cfg r
            (create_rejects page_size type_of_digest tag)
            group
            h
          ≡ some s)
        × (s.group.held_files ≡ some (headfile ∷ keep (λ f. not (is_namesake g h headfile f)) rest))
        × Rejected s.rejects (keep (is_namesake g h headfile) rest)
  unfolding basename_rejects
  basename_rejects-namesakes group h rest on held status u once =
      let start : Split = record { group = group; rejects = none; heap = h } in
      let (s, e, kept, moved) =
        names_lem h rest start (headfile ∷ []) refl held status u once (λ i. refl) in
      let call : Bool → Option (List FileRef) → Option Split = λ b o.
        if b
        then elim (held_list o) [
          | [] ↦ none
          | first ∷ others_ ↦ split_names g cfg r make first others_ start
        ]
        else some start in
      (
        s,
        ap (λ b. call (b && is_finishing group.status) group.held_files) on
            ∙ ap (λ t. call (is_finishing t) group.held_files) status
            ∙ ap (call true) held
            ∙ e,
        kept,
        moved,
      )
