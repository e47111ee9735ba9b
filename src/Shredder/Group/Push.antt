-- ===== src/Shredder/Group/Push.antt =====
-- What a push into a group keeps (rm_shred_group_push_file of lib/shredder.c).
use mathlib.Core.Option
use mathlib.Core.Path.{subst}
use rmlint.Common.{
  ℕ, ◌+◌, ◌≤◌, ◌<◌, ◌≡◌, refl, Bool, true, false, List, [], ◌∷◌, Option, none, some, length,
  is_some, is_none, bit, arith, length-append, Option-cases, ◌⊎◌, inl, inr, ◌∙◌, ap, ◌≢◌,
}
use rmlint.Cfg.{RmCfg}
use rmlint.Glib.{Glib}
use rmlint.File.Types.{FileRef, Heap}
use rmlint.Shredder.Types.{
  GroupStatus, dormant, start_hashing, hashing, finishing, finished, status_number, ShredGroup,
}
use rmlint.Shredder.Memory.{check_paranoid_mem_alloc, grant}
use rmlint.Shredder.Group.{
  qualifies, update_status, cluster_members, next_basename, common_basename, count_file, Sifter,
  release_held, ask_memory, hash_file, dispatch, push_named, push_file,
}

-- The files that a group holds back.
abbrev pub held_count : Option (List FileRef) → ℕ
held_count none = 0
held_count (some held) = length held

-- A group that waits or is being finished has a queue to hold files; one that hashes has none.
abbrev pub Holds : GroupStatus → Option (List FileRef) → Type 0
Holds dormant held = is_some held ≡ true
Holds start_hashing held = Unit
Holds hashing held = is_none held ≡ true
Holds finishing held = is_some held ≡ true
Holds finished held = ⊥

-- what asking for memory leaves alone
ask_memory-keeps :
    (ancestors : List ShredGroup) (initial : Bool) (s : Sifter)
    → let r = ask_memory ancestors initial s in
      (r.group.held_files ≡ s.group.held_files)
      × (r.group.num_pending ≡ s.group.num_pending)
      × (r.scheduled ≡ s.scheduled)
unfolding ask_memory check_paranoid_mem_alloc grant
ask_memory-keeps ancestors initial s = ground arith

-- The files of a group are accounted for.
pub record Accounts (s : Sifter) (r : Sifter × Option FileRef) : Type 0 where
  pub one_more :
      held_count r.0.group.held_files + r.0.group.num_pending
      ≡ held_count s.group.held_files + s.group.num_pending + 1
  pub handed_on :
      length r.0.scheduled + bit (is_some r.1) + s.group.num_pending
      ≡ length s.scheduled + r.0.group.num_pending

hash_file-counts :
    (waiting : Bool) (f : FileRef) (s : Sifter)
    → let r = hash_file waiting f s in
      (r.0.group.num_pending ≡ s.group.num_pending + 1)
      × (r.0.group.held_files ≡ s.group.held_files)
      × (length r.0.scheduled + bit (is_some r.1) ≡ length s.scheduled + 1)
unfolding hash_file
hash_file-counts true f s = ground arith
hash_file-counts false f s = ground (arith, length-append s.scheduled (f ∷ []))

release_held-counts :
    (s : Sifter)
    → let r = release_held s in
      (r.group.num_pending ≡ s.group.num_pending + held_count s.group.held_files)
      × (r.group.held_files ≡ none)
      × (length r.scheduled ≡ length s.scheduled + held_count s.group.held_files)
release_held-counts s = elim (Option-cases s.group.held_files) [
  | inl e ↦ unfold release_held in ground arith
  | inr (held, e) ↦ unfold release_held in ground (arith, length-append s.scheduled held)
]

hash_file-Accounts :
    (waiting : Bool) (f : FileRef) (s : Sifter)
    → is_none s.group.held_files ≡ true
    → Accounts s (hash_file waiting f s)
hash_file-Accounts waiting f s h = record {
  one_more = ground (arith, hash_file-counts waiting f s);
  handed_on = omega (arith, hash_file-counts waiting f s);
}

held_count-none : (o : Option (List FileRef)) → o ≡ none → held_count o ≡ 0
held_count-none none e = refl
held_count-none (some l) e = cc

dispatch-Accounts :
    (t : GroupStatus) (ancestors : List ShredGroup) (initial waiting : Bool) (f : FileRef)
    (s : Sifter)
    → Holds t s.group.held_files
    → Accounts s (dispatch t ancestors initial waiting f s)
unfolding dispatch
dispatch-Accounts dormant ancestors initial waiting f s h = record {
  one_more = ground arith;
  handed_on = ground arith;
}
dispatch-Accounts finishing ancestors initial waiting f s h = record {
  one_more = ground arith;
  handed_on = ground arith;
}
dispatch-Accounts finished ancestors initial waiting f s h = absurd h
dispatch-Accounts hashing ancestors initial waiting f s h = hash_file-Accounts waiting f s h
dispatch-Accounts start_hashing ancestors initial waiting f s h =
    let freed = release_held s in
    let asked = ask_memory ancestors initial freed in
    let r = release_held-counts s in
    let m = ask_memory-keeps ancestors initial freed in
    let c = hash_file-counts waiting f asked in
    let empty : held_count (hash_file waiting f asked).0.group.held_files ≡ 0 =
      held_count-none _ (c.1 ∙ m.0 ∙ r.1) in
    record {
      one_more = omega (arith, empty, c.0, m.1, r.0);
      handed_on = omega (arith, c.2, c.0, m.1, r.0, r.2, ap length m.2);
    }

pub map-some :
    {A B : Type 0} (o : Option A) (f : A → B) {b : B}
    → Option.map f o ≡ some b
    → (a : A) × (f a ≡ b)
map-some none f e = cc
map-some (some a) f e = (a, cc)

-- the steps before the switch leave the held and the pending files alone
counted-keeps :
    (cfg : RmCfg) (h : Heap) (f : FileRef) (u : Option FileRef) (group : ShredGroup)
    → let r = update_status cfg (count_file h f (record group { unique_basename = u })) in
      (r.held_files ≡ group.held_files) × (r.num_pending ≡ group.num_pending)
unfolding update_status count_file
counted-keeps cfg h f u group = ground arith

counted-status :
    (cfg : RmCfg) (h : Heap) (f : FileRef) (u : Option FileRef) (group : ShredGroup)
    → let r = update_status cfg (count_file h f (record group { unique_basename = u })) in
      (r.status ≡ group.status) ⊎ (r.status ≡ start_hashing)
unfolding update_status count_file
counted-status cfg h f u group = ground arith

Holds-subst :
    {t t' : GroupStatus} {o o' : Option (List FileRef)}
    → (t' ≡ t) ⊎ (t' ≡ start_hashing)
    → o' ≡ o
    → Holds t o
    → Holds t' o'
Holds-subst {o'} (inl e) d k = rw (e, d) k
Holds-subst {o'} (inr e) d k = rw e tt

push_named-Accounts :
    (cfg : RmCfg) (h : Heap) (ancestors : List ShredGroup) (f : FileRef) (initial : Bool)
    (s : Sifter) (u : Option FileRef)
    → Holds s.group.status s.group.held_files
    → Accounts s (push_named cfg h ancestors f initial s u)
push_named-Accounts cfg h ancestors f initial s u k =
    let counted = update_status cfg (count_file h f (record s.group { unique_basename = u })) in
    let kept = counted-keeps cfg h f u s.group in
    let a =
      dispatch-Accounts counted.status ancestors initial (h.file f).shredder_waiting f
        (record s { group = counted }) (Holds-subst (counted-status cfg h f u s.group) kept.0 k) in
    unfold push_named in
    record {
      one_more = omega (arith, a.one_more, ap held_count kept.0, kept.1);
      handed_on = omega (arith, a.handed_on, kept.1);
    }

-- A push that returns accounts for every file, in a group that is not finished, has a queue to
-- hold files while it waits or is finishing, and none while it hashes: the group has one more file
-- held or pending than before, and each file that became pending was either handed to the
-- scheduler or is returned to a caller that waits.
pub push_file-Accounts :
    (g : Glib) (cfg : RmCfg) (h : Heap) (ancestors : List ShredGroup) (f : FileRef) (initial : Bool)
    (s : Sifter) (r : Sifter × Option FileRef)
    → Holds s.group.status s.group.held_files
    → push_file g cfg h ancestors f initial s ≡ some r
    → Accounts s r
push_file-Accounts g cfg h ancestors f initial s r k e =
    let named : (u : Option FileRef) × (push_named cfg h ancestors f initial s u ≡ r) =
      unfold push_file in
      map-some (next_basename g cfg h s.group f) (push_named cfg h ancestors f initial s) e in
    subst (Accounts s) named.1 (push_named-Accounts cfg h ancestors f initial s named.0 k)

-- Unless --unmatched-basename is given, every push returns.
pub push_file-returns :
    (g : Glib) (cfg : RmCfg) (h : Heap) (ancestors : List ShredGroup) (f : FileRef) (initial : Bool)
    (s : Sifter)
    → cfg.unmatched_basenames ≡ false
    → is_some (push_file g cfg h ancestors f initial s) ≡ true
push_file-returns g cfg h ancestors f initial s off =
    let named : next_basename g cfg h s.group f ≡ some s.group.unique_basename =
      unfold next_basename in ground arith in
    unfold push_file in
    ap (λ o. is_some (Option.map (push_named cfg h ancestors f initial s) o)) named

cluster_head :
    (h : Heap) (o : Option ℕ) (q i : ℕ) (rest : List FileRef)
    → o ≡ some q
    → h.queue q ≡ i ∷ rest
    → cluster_members h o ≡ i ∷ rest
cluster_head h none q i rest e l = cc
cluster_head h (some p) q i rest e l = cc

-- With --unmatched-basename, a file with a cluster that is not empty, pushed to a group that has
-- files whose names already differ, makes the program read through the NULL pointer that stands
-- for "no common name".
push_file_null :
    (g : Glib) (cfg : RmCfg) (h : Heap) (ancestors : List ShredGroup) (f : FileRef) (initial : Bool)
    (s : Sifter) (q i : ℕ) (rest : List FileRef)
    → cfg.unmatched_basenames ≡ true
    → 0 < s.group.num_files
    → s.group.unique_basename ≡ none
    → (h.file f).cluster ≡ some q
    → h.queue q ≡ i ∷ rest
    → push_file g cfg h ancestors f initial s ≡ none
push_file_null g cfg h ancestors f initial s q i rest on some_files no_name clustered members =
    let differs : common_basename g h s.group f s.group.unique_basename ≡ none = ground arith in
    let crash : next_basename g cfg h s.group f ≡ none =
      unfold next_basename in
      rw on (rw (differs, cluster_head h (h.file f).cluster q i rest clustered members) refl) in
    unfold push_file in ap (Option.map (push_named cfg h ancestors f initial s)) crash

-- The update of a group's status moves it only forward, and changes it only for a group that
-- waits, meets all criteria, has unread bytes, and has more than one cluster (or, for merging
-- directories, hardlinks of one file without a stored checksum): that group starts to hash.
update_status_lem :
    (cfg : RmCfg) (group : ShredGroup)
    → let r = update_status cfg group in
      (status_number group.status ≤ status_number r.status)
      × (r.status ≢ group.status
          → (group.status ≡ dormant)
            × (r.status ≡ start_hashing)
            × (qualifies cfg group ≡ true)
            × (group.hash_offset ≢ group.file_size)
            × ((1 < group.n_clusters)
                ⊎ ((group.n_inodes ≡ 1)
                    × (0 < group.n_unhashed_clusters)
                    × (cfg.merge_directories ≡ true))))
unfolding update_status
update_status_lem cfg group = ground arith
