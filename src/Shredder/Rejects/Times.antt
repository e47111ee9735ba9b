-- ===== src/Shredder/Rejects/Times.antt =====
-- Which files rm_shred_mtime_rejects of lib/shredder.c leaves in the group.
use rmlint.Common.{◌≡◌, List, [], ◌∷◌, ◌++◌, Option, some, if◌then◌else◌}
use rmlint.Cfg.{RmCfg}
use rmlint.Glib.{Glib}
use rmlint.File.Types.{FileRef, Heap}
use rmlint.Shredder.Rejects.{Split, is_gap}
use rmlint.Shredder.Rejects.Held.{Rejected}

-- The longest run from the start without a gap, and what lies behind it.
unfoldable pub run : RmCfg → Heap → List FileRef → List FileRef
run cfg h [] = []
run cfg h (x ∷ []) = x ∷ []
run cfg h (x ∷ y ∷ l) =
    let more = run cfg h (y ∷ l) in if is_gap cfg (h.file x) (h.file y) then x ∷ [] else x ∷ more

unfoldable pub behind : RmCfg → Heap → List FileRef → List FileRef
behind cfg h [] = []
behind cfg h (x ∷ []) = []
behind cfg h (x ∷ y ∷ l) =
    let more = behind cfg h (y ∷ l) in if is_gap cfg (h.file x) (h.file y) then y ∷ l else more

-- What the loop leaves, where the group held files before those that it goes over.
abbrev Leaves : RmCfg → Heap → List FileRef → List FileRef → Option Split → Type 0
Leaves cfg h p rest o =
    (s' : Split) × (o ≡ some s')
    × (s'.group.held_files ≡ some (p ++ run cfg h rest))
    × Rejected s'.rejects (behind cfg h rest)
