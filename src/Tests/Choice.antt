-- ===== src/Tests/Choice.antt =====
-- The choice of originals, on three files.
use rmlint.Common.{◌≡◌, ◌≤◌, ◌≢◌, true, [], ◌==◌, any, count, not, arith, ◌⊎◌}
use rmlint.File.Types.{FileRef}
use rmlint.Shredder.Types.{finishing}
use rmlint.Shredder.Original.{find_original, forward_to_output, tag_hardlink_rejects}
use rmlint.Shredder.Original.Kept.{original, find_original-keeps}
use rmlint.Shredder.Original.Report.{forward_to_output-keeps}
use rmlint.Tests.Data.{glib, insertion_sort, insertion_sort-IsSort}
use rmlint.Tests.Samples.{cfg, heap, three, zero_totals}

three_nonempty : three ≢ []
three_nonempty e = cc

three-IsOnce : (i : FileRef) → count (λ f. f == i) three ≤ 1
three-IsOnce i = ground arith

find_original-keeps_example :
    let r = find_original insertion_sort glib cfg [] finishing three heap zero_totals in
    any (original r.heap) r.files ≡ true
find_original-keeps_example =
    find_original-keeps insertion_sort insertion_sort-IsSort glib cfg [] three heap zero_totals
      three_nonempty

forward_to_output-keeps_example :
    let r = find_original insertion_sort glib cfg [] finishing three heap zero_totals in
    let tagged = tag_hardlink_rejects cfg finishing r.files r.heap in
    let out = (forward_to_output r.files tagged).0 in
    (out ≡ [])
    ⊎ ((any (original tagged) out ≡ true) × (any (λ f. not (original tagged f)) out ≡ true))
forward_to_output-keeps_example =
    forward_to_output-keeps insertion_sort insertion_sort-IsSort glib cfg [] three heap zero_totals
      three_nonempty
