-- ===== src/Shredder/Sift.antt =====
-- rm_shred_sift of lib/shredder.c: a file whose increment was hashed moves from its group to the child
-- with the same digest. Groups are a tree here: the child groups are values, kept with their digests.
pub mod Moves
use mathlib.Core.Option
use rmlint.Common.{
  ℕ, ◌+◌, ◌-◌, Bool, true, false, ◌&&◌, List, [], ◌∷◌, Option, none, some, ◌==◌, if◌then◌else◌,
  is_none, is_some,
}
use rmlint.Cfg.{Bytes, RmCfg, DigestType}
use rmlint.Glib.{Glib}
use rmlint.File.Types.{RmFile, FileRef, FileState, normal, ignore, Heap}
use rmlint.Preprocess.Cluster.{bytes_equal}
use rmlint.Shredder.Types.{ShredGroup, ShredTag}
use rmlint.Shredder.Group.{Sifter, group_new, push_file}

abbrev pub Twins : Type 0
Twins = List (Bytes × ShredGroup)

-- The group of the file, its children by digest, the shredder's state, the files handed to the
-- scheduler, the files that were given up, and the jobs of rm_shred_adjust_counters, each for one file
-- less and so many bytes less.
pub record Sieve : Type 0 where
  pub current : ShredGroup
  pub twins : Twins
  pub tag : ShredTag
  pub scheduled : List FileRef
  pub discarded : List FileRef
  pub counter_jobs : List ℕ

-- g_hash_table_lookup(current_group->children, file->digest)
unfoldable pub find_twin : Bytes → Twins → Option ShredGroup
find_twin d [] = none
find_twin d ((e, group) ∷ twins) = if bytes_equal e d then some group else find_twin d twins

-- The children with that group changed, or inserted.
unfoldable pub put_twin : Bytes → ShredGroup → Twins → Twins
put_twin d new [] = (d, new) ∷ []
put_twin d new ((e, group) ∷ twins) =
    let rest = put_twin d new twins in
    if bytes_equal e d then (e, new) ∷ twins else (e, group) ∷ rest

-- g_list_remove(in_progress_digests, file->digest), the first one
abbrev pub remove_digest : Option Bytes → List Bytes → List Bytes
remove_digest none digests = digests
remove_digest (some d) [] = []
remove_digest (some d) (e ∷ digests) =
    let rest = remove_digest (some d) digests in if bytes_equal e d then digests else e ∷ rest

-- rm_shred_discard_file, but for the freeing of the file: the bytes that are no longer to be read
unfoldable pub discard : RmFile → List ℕ → List ℕ
discard file jobs = elim file.disk [
  | none ↦ jobs
  | some d ↦ (file.file_size - file.hash_offset) ∷ jobs
]

-- The first steps: the file is no longer pending in its group.
unfoldable pub taken_out : RmFile → ShredGroup → ShredGroup
taken_out file group = record group {
  num_pending = group.num_pending - 1;
  in_progress_digests = remove_digest file.digest group.in_progress_digests;
}

-- The child for a digest, new if there is none.
unfoldable pub twin_or_new :
    DigestType → RmFile → ShredGroup → ShredTag → Option ShredGroup → ShredGroup
unfolding group_new
twin_or_new type_of_digest file current tag none =
    (group_new file (some current) tag.page_size type_of_digest).0
twin_or_new type_of_digest file current tag (some group) = group

-- group->parent after a push, which may have lent memory
abbrev pub parent_of : ShredGroup → Option ShredGroup → ShredGroup
parent_of current none = current
parent_of current (some p) = p

-- What a push into the child leaves.
unfoldable pub after_push :
    Bytes → ShredGroup → Sieve → Sifter × Option FileRef → Sieve × Option FileRef
unfolding put_twin
after_push d current s (r, result) = (
  record s {
    current = parent_of current r.parent;
    twins = put_twin d r.group s.twins;
    tag = r.tag;
    scheduled = r.scheduled;
  },
  result,
)

-- The `else` branch: the file goes to the child with its digest. The outer `none` is a crash.
unfoldable pub move_down :
    Glib
    → RmCfg
    → Heap
    → List ShredGroup
    → FileRef
    → Sieve
    → Bytes
    → Option (Sieve × Option FileRef)
unfolding find_twin twin_or_new push_file after_push taken_out
move_down g cfg h ancestors f s d =
    let current = taken_out (h.file f) s.current in
    let child = twin_or_new s.current.digest_type (h.file f) current s.tag (find_twin d s.twins) in
    Option.map (after_push d current s) (
      push_file g cfg h (current ∷ ancestors) f false
        (record { group = child; parent = some current; tag = s.tag; scheduled = s.scheduled }))

-- The file of a failed read is given up.
unfoldable pub give_up : RmFile → FileRef → Sieve → Sieve
unfolding taken_out discard
give_up file f s = record s {
  current = taken_out file s.current;
  counter_jobs = discard file s.counter_jobs;
  discarded = f ∷ s.discarded;
}

-- The state and the digest decide; a hashed file without a digest fails an assertion.
unfoldable pub sift_by :
    FileState
    → Option Bytes
    → Glib
    → RmCfg
    → Heap
    → List ShredGroup
    → FileRef
    → Sieve
    → Option (Sieve × Option FileRef)
unfolding give_up move_down
sift_by ignore digest g cfg h ancestors f s = some (give_up (h.file f) f s, none)
sift_by normal none g cfg h ancestors f s = none
sift_by normal (some d) g cfg h ancestors f s = move_down g cfg h ancestors f s d

-- current_group_finished
abbrev pub is_over : ShredGroup → Bool
is_over group = is_none group.parent && (group.num_pending == 0)

-- rm_shred_sift: what is left, the file to hash on, and whether the group is to be finalised
unfoldable pub sift :
    Glib → RmCfg → Heap → List ShredGroup → FileRef → Sieve → Option (Sieve × Option FileRef × Bool)
unfolding sift_by
sift g cfg h ancestors f s =
    Option.map (λ r. (r.0, r.1, is_over r.0.current))
      (sift_by (h.file f).status (h.file f).digest g cfg h ancestors f s)
