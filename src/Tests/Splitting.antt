-- ===== src/Tests/Splitting.antt =====
-- A finished group that is split.
use rmlint.Common.{
  none, keep, not, true, ◌≡◌, refl, false, [], ◌∷◌, some, ◌==◌, if◌then◌else◌, arith,
}
use rmlint.Common.Sign.{pos}
use rmlint.Cfg.{RmCfg, set_default, sha1}
use rmlint.File.Types.{Heap}
use rmlint.Shredder.Types.{finishing, ShredGroup}
use rmlint.Shredder.Group.{Sifter}
use rmlint.Shredder.Rejects.{Split, transfer, create_rejects, basename_rejects}
use rmlint.Shredder.Rejects.Counts.{Moved, transfer-Moved}
use rmlint.Shredder.Rejects.Held.{Rejected, IsOnce}
use rmlint.Shredder.Rejects.Names.{is_namesake, basename_rejects-namesakes}
use rmlint.Tests.Data.{glib}
use rmlint.Tests.Samples.{cfg, heap, group, tag, sifter, file_named}

-- A group that is finished, with three files of which one is preferred.
abbrev finished_group : ShredGroup
finished_group = record group {
  held_files = some (3 ∷ 2 ∷ 1 ∷ []);
  status = finishing;
  num_files = 3;
  n_pref = 1;
  n_npref = 2;
  n_new = 3;
}

abbrev empty_rejects : Sifter
empty_rejects = record sifter {
  group = record group {
    held_files = some [];
    status = finishing;
    num_files = 0;
    n_pref = 0;
    n_npref = 0;
    n_new = 0;
  };
}

-- File 2 with file 1 in its bundle of hardlinks.
abbrev bundled : Heap
bundled = record {
  file = λ i. record (heap.file i) { hardlinks = if i == 3 then none else some 0 };
  queue = λ q. 2 ∷ 1 ∷ [];
  fresh = 1;
}

transfer-Moved_example :
    (s : Split) × (dest' : Sifter) × (transfer glib cfg 5 2 finished_group empty_rejects bundled
      ≡ some s)
    × (s.rejects ≡ some dest')
    × Moved s.heap 2 finished_group empty_rejects.group s.group dest'.group
transfer-Moved_example =
    transfer-Moved glib cfg 5 2 finished_group empty_rejects bundled refl
      (record {
        files = (omega arith, omega arith);
        prefd = (omega arith, omega arith);
        nprefd = (omega arith, omega arith);
        new = (omega arith, omega arith);
      })
      refl

-- A window of 10000 nanoseconds, and a heap in which file 2 is far later than the others.
abbrev with_window : RmCfg
with_window = record cfg { mtime_window = pos 10000 }

abbrev late_heap : Heap
late_heap = record {
  file =
      λ i. record (file_named (b'f' ∷ []) i false) { mtime = if i == 2 then pos 50000 else pos 5 };
  queue = λ q. [];
  fresh = 0;
}

three-IsOnce : IsOnce (3 ∷ 2 ∷ 1 ∷ [])
three-IsOnce i = ground arith

-- All files of the late heap have the same name.
basename_rejects-namesakes_example :
    (s : Split) × (basename_rejects glib
        (record cfg { unmatched_basenames = true })
        5
        (create_rejects 4096 sha1 tag)
        finished_group
        late_heap
      ≡ some s)
    × (s.group.held_files
        ≡ some (3 ∷ keep (λ f. not (is_namesake glib late_heap 3 f)) (2 ∷ 1 ∷ [])))
    × Rejected s.rejects (keep (is_namesake glib late_heap 3) (2 ∷ 1 ∷ []))
unfolding set_default
basename_rejects-namesakes_example =
    basename_rejects-namesakes glib (record cfg { unmatched_basenames = true }) 5 4096 sha1 tag 3
      finished_group late_heap (2 ∷ 1 ∷ []) refl refl refl (λ i. refl) three-IsOnce
