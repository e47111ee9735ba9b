-- ===== src/Shredder/Sift/Moves.antt =====
-- Where the files of a group go when it is sifted.
use mathlib.Core.Option
use mathlib.Core.Path.{subst}
use rmlint.Common.{
  ℕ, ◌+◌, ◌<◌, ◌≡◌, sym, refl, ◌∙◌, ap, ◌↔◌, Bool, true, false, List, [], ◌∷◌, Option, none, some,
  is_some, length, sum_by, arith, All, Bool-cases, ◌⊎◌, inl, inr,
}
use rmlint.Cfg.{Bytes, RmCfg, DigestType}
use rmlint.Glib.{Glib}
use rmlint.File.Types.{RmFile, FileRef, FileState, normal, ignore, Heap}
use rmlint.Preprocess.Cluster.{bytes_equal}
use rmlint.Shredder.Types.{
  GroupStatus, dormant, start_hashing, hashing, finishing, finished, ShredGroup, ShredTag,
}
use rmlint.Shredder.Memory.{check_paranoid_mem_alloc, grant}
use rmlint.Shredder.Group.{
  Sifter, group_new, push_file, push_named, dispatch, ask_memory, release_held, hash_file,
  next_basename, update_status, count_file,
}
use rmlint.Shredder.Group.Push.{held_count, Holds, push_file-Accounts, push_file-returns, map-some}
use rmlint.Shredder.Sift.{
  Twins, Sieve, find_twin, put_twin, taken_out, twin_or_new, parent_of, after_push, move_down,
  give_up, sift_by, is_over, sift,
}

-- The files of a group: held back, and on their way through the hasher.
abbrev pub weight : ShredGroup → ℕ
weight group = held_count group.held_files + group.num_pending

abbrev pub weight_opt : Option ShredGroup → ℕ
weight_opt none = 0
weight_opt (some group) = weight group

abbrev pub twins_weight : Twins → ℕ
twins_weight = sum_by (λ t. weight t.1)

put_twin-weight :
    (d : Bytes) (new : ShredGroup) (twins : Twins)
    → twins_weight (put_twin d new twins) + weight_opt (find_twin d twins)
      ≡ twins_weight twins + weight new
unfolding put_twin find_twin
put_twin-weight d new [] = omega arith
put_twin-weight d new ((e, group) ∷ twins) = ground (arith, put_twin-weight d new twins)

-- The state of the groups below: those that wait hold a queue, those that hash hold none.
abbrev pub AllHolds : Twins → Type 0
AllHolds = All (λ t. Holds t.1.status t.1.held_files)

abbrev pub HoldsOpt : Option ShredGroup → Type 0
HoldsOpt none = Unit
HoldsOpt (some group) = Holds group.status group.held_files

find_twin-Holds : (d : Bytes) (twins : Twins) → AllHolds twins → HoldsOpt (find_twin d twins)
unfolding find_twin
find_twin-Holds d [] h = tt
find_twin-Holds d ((e, group) ∷ twins) h = elim (Bool-cases (bytes_equal e d)) [
  | inl same ↦ rw same h.0
  | inr other ↦ rw other (find_twin-Holds d twins h.1)
]

-- the number of pending files of the parent
abbrev pub pending_of : Option ShredGroup → ℕ
pending_of none = 0
pending_of (some p) = p.num_pending

ask_memory-parent :
    (ancestors : List ShredGroup) (initial : Bool) (s : Sifter)
    → pending_of (ask_memory ancestors initial s).parent ≡ pending_of s.parent
unfolding ask_memory check_paranoid_mem_alloc grant
ask_memory-parent ancestors initial s = ground arith

release_held-parent : (s : Sifter) → (release_held s).parent ≡ s.parent
unfolding release_held
release_held-parent s = ground arith

hash_file-parent :
    (waiting : Bool) (f : FileRef) (s : Sifter) → (hash_file waiting f s).0.parent ≡ s.parent
unfolding hash_file
hash_file-parent waiting f s = ground arith

dispatch-parent :
    (t : GroupStatus) (ancestors : List ShredGroup) (initial waiting : Bool) (f : FileRef)
    (s : Sifter)
    → pending_of (dispatch t ancestors initial waiting f s).0.parent ≡ pending_of s.parent
unfolding dispatch hash_file
dispatch-parent dormant ancestors initial waiting f s = refl
dispatch-parent finishing ancestors initial waiting f s = refl
dispatch-parent finished ancestors initial waiting f s = refl
dispatch-parent hashing ancestors initial waiting f s = ground arith
dispatch-parent start_hashing ancestors initial waiting f s =
    ap pending_of (hash_file-parent waiting f (ask_memory ancestors initial (release_held s)))
    ∙ ask_memory-parent ancestors initial (release_held s)
    ∙ ap pending_of (release_held-parent s)

push_named-parent :
    (cfg : RmCfg) (h : Heap) (ancestors : List ShredGroup) (f : FileRef) (initial : Bool)
    (s : Sifter) (u : Option FileRef)
    → pending_of (push_named cfg h ancestors f initial s u).0.parent ≡ pending_of s.parent
unfolding push_named
push_named-parent cfg h ancestors f initial s u =
    let counted = update_status cfg (count_file h f (record s.group { unique_basename = u })) in
    dispatch-parent counted.status ancestors initial (h.file f).shredder_waiting f
      (record s { group = counted })

-- where a mapped value comes from
map-some_value :
    {A B : Type 0} (o : Option A) (f : A → B) {b : B}
    → Option.map f o ≡ some b
    → (a : A) × (o ≡ some a) × (f a ≡ b)
map-some_value none f e = cc
map-some_value (some a) f e = (a, refl, cc)

push_file-parent :
    (g : Glib) (cfg : RmCfg) (h : Heap) (ancestors : List ShredGroup) (f : FileRef) (initial : Bool)
    (s : Sifter) (r : Sifter × Option FileRef)
    → push_file g cfg h ancestors f initial s ≡ some r
    → pending_of r.0.parent ≡ pending_of s.parent
push_file-parent g cfg h ancestors f initial s r e =
    let named : (u : Option FileRef) × (push_named cfg h ancestors f initial s u ≡ r) =
      unfold push_file in
      map-some (next_basename g cfg h s.group f) (push_named cfg h ancestors f initial s) e in
    subst (λ r. pending_of r.0.parent ≡ pending_of s.parent) named.1
      (push_named-parent cfg h ancestors f initial s named.0)

-- what a child holds when the file is looked up
twin_or_new-Holds :
    (t : DigestType) (file : RmFile) (current : ShredGroup) (tag : ShredTag) (o : Option ShredGroup)
    → HoldsOpt o
    → HoldsOpt (some (twin_or_new t file current tag o))
      × (weight (twin_or_new t file current tag o) ≡ weight_opt o)
unfolding twin_or_new group_new
twin_or_new-Holds t file current tag none h = (refl, refl)
twin_or_new-Holds t file current tag (some group) h = (h, refl)

-- The files that the sieve has to answer for.
abbrev pub answers : Sieve → ℕ
answers s = twins_weight s.twins + length s.discarded + s.current.num_pending

parent_of-pending :
    (current : ShredGroup) (o : Option ShredGroup) (n : ℕ)
    → current.num_pending ≡ n
    → pending_of o ≡ n
    → (parent_of current o).num_pending ≡ n
parent_of-pending current none n e k = e
parent_of-pending current (some p) n e k = k

move_down-answers :
    (g : Glib) (cfg : RmCfg) (h : Heap) (ancestors : List ShredGroup) (f : FileRef) (s : Sieve)
    (d : Bytes) (r : Sieve × Option FileRef)
    → AllHolds s.twins
    → 0 < s.current.num_pending
    → move_down g cfg h ancestors f s d ≡ some r
    → answers r.0 ≡ answers s
move_down-answers g cfg h ancestors f s d r holds busy e =
    let current = taken_out (h.file f) s.current in
    let child = twin_or_new s.current.digest_type (h.file f) current s.tag (find_twin d s.twins) in
    let start : Sifter = record {
      group = child;
      parent = some current;
      tag = s.tag;
      scheduled = s.scheduled;
    } in
    let pushed : (q : Sifter × Option FileRef) × (push_file g cfg h (current ∷ ancestors) f false
            start
          ≡ some q)
        × (after_push d current s q ≡ r) =
      unfold move_down in
      map-some_value (push_file g cfg h (current ∷ ancestors) f false start)
        (after_push d current s) e in
    let q = pushed.0 in
    let fine =
      twin_or_new-Holds s.current.digest_type (h.file f) current s.tag (find_twin d s.twins)
        (find_twin-Holds d s.twins holds) in
    let counts = push_file-Accounts g cfg h (current ∷ ancestors) f false start q fine.0 pushed.1 in
    let parent = push_file-parent g cfg h (current ∷ ancestors) f false start q pushed.1 in
    let put = put_twin-weight d q.0.group s.twins in
    let out : current.num_pending + 1 ≡ s.current.num_pending = unfold taken_out in omega arith in
    ap (λ r. answers r.0) (sym pushed.2)
    ∙ (let p = parent_of-pending current q.0.parent current.num_pending refl parent in
        unfold after_push in omega (arith, put, counts.one_more, fine.1, p, out))

sift_by-answers :
    (t : FileState) (o : Option Bytes) (g : Glib) (cfg : RmCfg) (h : Heap)
    (ancestors : List ShredGroup) (f : FileRef) (s : Sieve) (r : Sieve × Option FileRef)
    → AllHolds s.twins
    → 0 < s.current.num_pending
    → sift_by t o g cfg h ancestors f s ≡ some r
    → answers r.0 ≡ answers s
unfolding sift_by
sift_by-answers ignore o g cfg h ancestors f s r holds busy e =
    let out : answers (give_up (h.file f) f s) ≡ answers s =
      unfold give_up taken_out in omega (arith, busy) in
    ground (arith, out, e)
sift_by-answers normal none g cfg h ancestors f s r holds busy e = cc
sift_by-answers normal (some d) g cfg h ancestors f s r holds busy e =
    move_down-answers g cfg h ancestors f s d r holds busy e

-- Sifting, where it returns, loses no file, in a group with pending files whose children have a
-- queue to hold files exactly as their status wants it: the files held or pending in the children,
-- those given up and those pending in the group stay the same in number. The group is to be
-- finalised exactly if it is an orphan and no file is pending in it.
pub sift-answers :
    (g : Glib) (cfg : RmCfg) (h : Heap) (ancestors : List ShredGroup) (f : FileRef) (s : Sieve)
    (r : Sieve × Option FileRef × Bool)
    → AllHolds s.twins
    → 0 < s.current.num_pending
    → sift g cfg h ancestors f s ≡ some r
    → (answers r.0 ≡ answers s)
      × ((r.2 ≡ true) ↔ ((r.0.current.parent ≡ none) × (r.0.current.num_pending ≡ 0)))
sift-answers g cfg h ancestors f s r holds busy e =
    let back : (q : Sieve × Option FileRef) × (sift_by (h.file f).status (h.file f).digest g cfg h
            ancestors f s
          ≡ some q)
        × ((q.0, q.1, is_over q.0.current) ≡ r) =
      unfold sift in
      map-some_value (sift_by (h.file f).status (h.file f).digest g cfg h ancestors f s)
        (λ q. (q.0, q.1, is_over q.0.current)) e in
    let q = back.0 in
    let kept =
      sift_by-answers (h.file f).status (h.file f).digest g cfg h ancestors f s q holds busy
        back.1 in
    subst
      (λ r.
        (answers r.0 ≡ answers s)
        × ((r.2 ≡ true) ↔ ((r.0.current.parent ≡ none) × (r.0.current.num_pending ≡ 0))))
      back.2 (kept, ground arith)

is_some-map : {A B : Type 0} (f : A → B) (o : Option A) → is_some (Option.map f o) ≡ is_some o
is_some-map f none = refl
is_some-map f (some a) = refl

sift_by-returns :
    (t : FileState) (o : Option Bytes) (g : Glib) (cfg : RmCfg) (h : Heap)
    (ancestors : List ShredGroup) (f : FileRef) (s : Sieve)
    → cfg.unmatched_basenames ≡ false
    → (t ≡ ignore) ⊎ (is_some o ≡ true)
    → is_some (sift_by t o g cfg h ancestors f s) ≡ true
unfolding sift_by
sift_by-returns ignore o g cfg h ancestors f s off ready = refl
sift_by-returns normal none g cfg h ancestors f s off ready = ground (arith, ready)
sift_by-returns normal (some d) g cfg h ancestors f s off ready =
    let current = taken_out (h.file f) s.current in
    let child = twin_or_new s.current.digest_type (h.file f) current s.tag (find_twin d s.twins) in
    let start : Sifter = record {
      group = child;
      parent = some current;
      tag = s.tag;
      scheduled = s.scheduled;
    } in
    unfold move_down in
    is_some-map (after_push d current s) (push_file g cfg h (current ∷ ancestors) f false start)
    ∙ push_file-returns g cfg h (current ∷ ancestors) f false start off

-- Unless --unmatched-basename is given, sifting returns for each file that could not be read or that has
-- a digest.
sift-returns :
    (g : Glib) (cfg : RmCfg) (h : Heap) (ancestors : List ShredGroup) (f : FileRef) (s : Sieve)
    → cfg.unmatched_basenames ≡ false
    → ((h.file f).status ≡ ignore) ⊎ (is_some (h.file f).digest ≡ true)
    → is_some (sift g cfg h ancestors f s) ≡ true
unfolding sift
sift-returns g cfg h ancestors f s off ready =
    is_some-map (λ r. (r.0, r.1, is_over r.0.current))
      (sift_by (h.file f).status (h.file f).digest g cfg h ancestors f s)
    ∙ sift_by-returns (h.file f).status (h.file f).digest g cfg h ancestors f s off ready
