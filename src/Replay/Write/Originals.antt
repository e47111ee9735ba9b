-- ===== src/Replay/Write/Originals.antt =====
-- Which files of a group are written as originals, and what is written of it.
use rmlint.Common.{ℕ, Bool, not, ◌&&◌, ◌||◌, List, ◌==◌, any, if◌then◌else◌}
use rmlint.Common.Sign.{pos}
use rmlint.Cfg.{RmCfg}
use rmlint.Glib.{Glib}
use rmlint.File.Types.{FileRef, Heap, RmFile}
use rmlint.Replay.Checks.{is_dupe}
use rmlint.Replay.Write.{Output, feed, write, is_dupe_file}

-- where a file goes
abbrev pub goes : Bool → Heap → FileRef → Output
goes pack_directories h f =
    if pack_directories && is_dupe_file (h.file f).lint_type then feed f else write f

-- is the file in the list?
abbrev pub among : FileRef → List FileRef → Bool
among i files = any (λ f. i == f) files

module _ (cfg : RmCfg) (pack_directories : Bool) (length_of : ℕ) (head : FileRef) where
  -- a file as it is written
  pub tagged : FileRef → RmFile → RmFile
  tagged f file = record file {
    is_original =
        is_dupe file.lint_type
        && ((f == head)
            || (cfg.keep_all_tagged && file.is_prefd)
            || (cfg.keep_all_untagged && not file.is_prefd));
    twin_count = pos length_of;
  }
