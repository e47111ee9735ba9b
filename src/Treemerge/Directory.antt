-- ===== src/Treemerge/Directory.antt =====
-- RmDirectory of lib/treemerge.c: a directory, and its counts and digests while files and
-- subdirectories are merged into it. Its metadata is left out, since only the output reads it.
pub mod Equal
use rmlint.Common.{
  ℕ, ◌+◌, ◌%◌, ◌^◌, Bool, true, false, not, ◌&&◌, List, [], ◌∷◌, ◌++◌, Option, none, some, ◌==◌,
  if◌then◌else◌, all, any, bit, count, length,
}
use rmlint.Common.Sign.{ℤ, pos}
use rmlint.Cfg.{Bytes, RmCfg}
use rmlint.File.{RmFile, FileRef}
use rmlint.Preprocess.Cluster.{bytes_equal}
use rmlint.Checksum.Cumulative.{cumulative_update}

abbrev pub DirRef : Type 0
DirRef = ℕ

-- RmDirectory. The cumulative digest has no state before its first update; a file's digest in the set
-- is its bytes.
pub record Directory : Type 0 where
  pub dirname : Bytes
  pub known_files : List FileRef
  pub children : List DirRef
  pub prefd_files : ℕ
  pub dupe_count : ℕ
  pub file_count : ℤ
  pub mergeups : ℕ
  pub finished : Bool
  pub was_merged : Bool
  pub was_inserted : Bool
  pub depth : ℕ
  pub hash_set : List Bytes
  pub digest : Option Bytes

-- rm_digest_sum with RM_DIGEST_BLAKE2B, which is other code, and GLib's functions on paths
pub record PathFunctions : Type 0 where
  pub blake2b : Bytes → Bytes
  pub get_dirname : Bytes → Bytes
  pub get_basename : Bytes → Bytes

-- rm_directory_new
abbrev pub new_directory : Bytes → Directory
new_directory dirname = record {
  dirname = dirname;
  known_files = [];
  children = [];
  prefd_files = 0;
  dupe_count = 0;
  file_count = pos 0;
  mergeups = 0;
  finished = false;
  was_merged = false;
  was_inserted = false;
  depth = count (λ b. b == b'/') dirname % 2 ^ 16;
  hash_set = [];
  digest = none;
}

abbrev pub contains : Bytes → List Bytes → Bool
contains key set = any (bytes_equal key) set

-- g_hash_table_add
unfoldable pub add_key : List Bytes → Bytes → List Bytes
add_key set key = if contains key set then set else key ∷ set

abbrev pub same_digest : Option Bytes → Option Bytes → Bool
same_digest none none = true
same_digest none (some b) = false
same_digest (some a) none = false
same_digest (some a) (some b) = bytes_equal a b

-- rm_directory_equal
unfoldable pub directory_equal : Directory → Directory → Bool
directory_equal d1 d2 =
    if not (d1.dupe_count == d2.dupe_count)
    then false
    else if not (same_digest d1.digest d2.digest)
    then false
    else if not (length d1.hash_set == length d2.hash_set)
    then false
    else all (λ key. contains key d2.hash_set) d1.hash_set

-- The base name's checksum, added if the layout counts; the final NUL belongs to it.
unfoldable pub add_layout : PathFunctions → RmCfg → Bytes → Bytes → Bytes
unfolding cumulative_update
add_layout o cfg basename digest =
    if cfg.honour_dir_layout
    then cumulative_update (some digest) (o.blake2b (basename ++ 0 ∷ []))
    else digest

-- rm_directory_add, with the file's digest
unfoldable pub directory_add : PathFunctions → RmCfg → Directory → RmFile → Bytes → Directory
unfolding cumulative_update add_layout add_key
directory_add o cfg directory file file_digest = record directory {
  digest = some (add_layout o cfg file.basename (cumulative_update directory.digest file_digest));
  hash_set = add_key directory.hash_set file_digest;
  dupe_count = directory.dupe_count + 1;
  prefd_files = directory.prefd_files + bit file.is_prefd;
}

-- The loop over the files of a subdirectory.
unfoldable pub take_digests : List Bytes → List Bytes → List Bytes
unfolding add_key
take_digests set [] = set
take_digests set (digest ∷ digests) = take_digests (add_key set digest) digests

abbrev pub bytes_of : Option Bytes → Bytes
bytes_of none = []
bytes_of (some b) = b

-- What rm_directory_add_subdir writes to the parent, with the digests of the files of the
-- subdirectory.
unfoldable pub absorb_subdir :
    PathFunctions → RmCfg → DirRef → Directory → List Bytes → Directory → Directory
unfolding cumulative_update add_layout take_digests
absorb_subdir o cfg subdir_ref subdir digests parent = record parent {
  mergeups = subdir.mergeups + parent.mergeups + 1;
  dupe_count = parent.dupe_count + subdir.dupe_count;
  children = subdir_ref ∷ parent.children;
  prefd_files = parent.prefd_files + subdir.prefd_files;
  hash_set = take_digests parent.hash_set digests;
  digest = some (
      add_layout o cfg (o.get_basename subdir.dirname)
        (cumulative_update parent.digest (bytes_of subdir.digest)));
}
