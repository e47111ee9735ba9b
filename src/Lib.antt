-- ===== src/Lib.antt =====
-- rmlint: the search for duplicate files and other lint, as functional programs with their theorems.
--
-- The program traverses directories (lib/traverse.c), notes each file in the tables of the session,
-- sorts and groups the files by size and by the options of matching (lib/preprocess.c), and hashes the
-- files of a group in increments, so that groups split where digests differ (lib/shredder.c). A group
-- that is hashed to the end is a group of duplicates: the files are ranked, the best one is kept as
-- the original, and the group goes to the formatters (lib/formats), or to the tree merger, which finds
-- whole directories that are duplicates of each other (lib/treemerge.c). Files are compared by their
-- digests (lib/checksum.c).
--
-- Traversal and hashing hand their work to the device scheduler (lib/md-scheduler.c): for each disk a
-- device with two lists of tasks, whose workers in a thread pool take the tasks in the order of the
-- disk. The options are read by lib/cmdline.c. With --replay the groups are not searched but read from
-- the JSON file of an earlier run, checked against the options and written anew (lib/replay.c).
--
-- Files of this library and the code that they model:
--   Common, Common.*          lists, Booleans, the sign of a comparison (macros of lib/utilities.h)
--   Cfg                       lib/cfg.h, lib/cfg.c: RmCfg, RmPath, rm_cfg_set_default, rm_cfg_add_path
--   Glib                      the functions of GLib that are arguments of the model, and what GLib
--                             documents of them
--   File.Types, File.Links    lib/file.h, lib/file.c: RmFile, hardlink queues, clusters, counters
--   Utilities.Path            lib/utilities.c: rm_util_basename to rm_util_path_depth
--   Utilities.Queues          lib/utilities.c: rm_util_queue_push_tail_queue to rm_util_slist_pop
--   Utilities.Offset          lib/utilities.c: rm_offset_get_from_fd
--   Utilities.LinkType        lib/utilities.c: rm_util_link_type
--   Checksum.Cumulative       lib/checksum.c: rm_digest_cumulative_update
--   Checksum.Hex              lib/checksum.c: rm_digest_hexstring, rm_digest_ext_update
--   Checksum.Paranoid         lib/checksum.h, lib/checksum.c: RmParanoid,
--                             rm_digest_paranoid_buffered_update, rm_digest_equal
--   Preprocess.PatternCache   RM_PATTERN_* of lib/file.h, rm_pp_cmp_by_regex of lib/preprocess.c
--   Preprocess.Compare        lib/preprocess.c: rm_file_cmp, rm_file_cmp_full, rm_file_cmp_split,
--                             rm_pp_cmp_orig_criteria
--   Preprocess.Cluster        lib/preprocess.c: rm_pp_handle_inode_clusters and what it calls
--   Preprocess.SizeGroups     lib/preprocess.c: the loop of rm_preprocess
--   Shredder.Types            lib/shredder.h, lib/shredder.c: RmShredGroup, RmShredTag
--   Shredder.ReadSize         lib/shredder.c: rm_shred_get_read_size
--   Shredder.Memory           lib/shredder.c: rm_shred_mem_return, rm_shred_check_paranoid_mem_alloc
--   Shredder.Group            lib/shredder.c: rm_shred_group_new, rm_shred_group_qualifies,
--                             rm_shred_group_update_status, rm_shred_group_push_file
--   Shredder.Sift             lib/shredder.c: rm_shred_sift
--   Shredder.Original         lib/shredder.c: rm_shred_group_find_original to rm_shred_dupe_totals,
--                             rm_shred_tag_hardlink_rejects
--   Shredder.Rejects          lib/shredder.c: rm_shred_group_transfer, rm_shred_mtime_rejects,
--                             rm_shred_basename_rejects
--   Treemerge.Count           lib/treemerge.c: rm_tm_count_art_callback
--   Treemerge.Directory       lib/treemerge.c: RmDirectory, rm_directory_equal, rm_directory_add,
--                             rm_directory_add_subdir
--   Treemerge.Merger          lib/treemerge.c: RmTreeMerger, rm_tm_feed, rm_tm_cluster_up, and the
--                             loop of rm_tm_finish
--   Trie                      lib/pathtricia.c: insertion, search, setting of a value
--   Formats.Json              lib/formats/json.c: rm_fmt_json_fix
--   MdScheduler.Device        lib/md-scheduler.c: RmMDSDevice, RmMDSTask, rm_mds_configure,
--                             rm_mds_push_task, rm_mds_device_ref, the task lists of rm_mds_factory
--   MdScheduler.Disks         lib/md-scheduler.c: rm_mds_device_get, rm_mds_device_get_by_disk,
--                             rm_mds_start
--   MdScheduler.Workers       lib/md-scheduler.c: rm_mds_factory, rm_mds_device_start, and the calls of
--                             clients, as a step relation
--   Replay.Checks             lib/replay.c: rm_parrot_check_depth to rm_parrot_check_types
--   Replay.Groups             lib/replay.c: rm_parrot_cage_load, rm_parrot_merge_identical_groups
--   Replay.Write              lib/replay.c: rm_parrot_cage_write_group and what it calls,
--                             rm_parrot_cage_flush
--   Cmdline.LintTypes         lib/cmdline.c: rm_cmd_parse_lint_types and its table
--   Cmdline.Options           lib/cmdline.c: the options with handlers of their own,
--                             rm_cmd_set_paths, the end of rm_cmd_parse_args
--   Tests.*                   concrete inputs, at which each theorem is applied
-- Child modules hold the theorems: Preprocess.Compare.Order, Preprocess.Compare.Cached, Preprocess.Cluster.Laws,
-- Preprocess.SizeGroups.Laws, Shredder.Group.Push, Shredder.Sift.Moves, Shredder.Original.Kept,
-- Shredder.Original.Report, Shredder.Rejects.Counts, Shredder.Rejects.Held, Shredder.Rejects.Times,
-- Shredder.Rejects.Names,
-- File.Links.Count, Trie.Laws, Formats.Json.Escape, Checksum.Cumulative.Order, Checksum.Paranoid.Twins,
-- Checksum.Paranoid.Equal, Utilities.LinkType.Runs, Utilities.LinkType.Shares, Utilities.LinkType.Ends, Treemerge.Count.Above, Treemerge.Count.Laws,
-- Treemerge.Directory.Equal, Treemerge.Merger.Store, Treemerge.Merger.Feeding, Treemerge.Merger.Exact,
-- Treemerge.Merger.Once, MdScheduler.Elevator, MdScheduler.Fresh, MdScheduler.Counting,
-- MdScheduler.Orderly, MdScheduler.Leaving, MdScheduler.Closing, MdScheduler.Distance,
-- MdScheduler.Draining, Replay.Checks.Longest, Replay.Groups.Marked, Replay.Groups.Loaded,
-- Replay.Groups.Counted, Replay.Groups.Entries, Replay.Groups.Merged, Replay.Groups.Parted, Replay.Groups.Separated, Replay.Write.Distinct,
-- Replay.Write.Originals, Cmdline.LintTypes.Last, Cmdline.Options.Handlers,
-- Cmdline.Options.Sound.
--
-- State. A pointer to a file or to a queue of files is an address, and a Heap says what stands there,
-- so that files which share a hardlink queue or a cluster share it in the model. GLib's lists, queues
-- and hash tables are lists. Each operation takes the state and returns the new one; code that runs
-- under a lock is one step. The order in which GLib walks through a hash table is an argument, and so
-- are the sort, the comparison of strings without case, compiled patterns and the answers of system
-- calls.
--
-- Numbers are natural numbers; counters of 64 bits wrap around where the code lets them. A C `int`
-- that is compared with 0 is an integer of which the sign counts. Times are whole nanoseconds, where
-- the source has a double of seconds. Loops are structural, with four exceptions on fuel: the loop over
-- the slashes of a path has the length of the path, since each round passes at least one byte; merging
-- a directory upwards has the length of its name, since each parent's name is shorter; the walk over
-- the extents of a file and the loop of rm_util_link_type have 2 ^ 64 rounds, since each moves a 64-bit
-- offset forward.
--
-- Masks. A comparison of two files by a pattern writes what it found into the files: cmp_and_cache returns
-- them. A sort is given the sign alone, since the masks hold what matching anew would give.
--
-- Shared objects. The tree merger's directories lie in a store, and its trie holds their addresses. A
-- paranoid digest knows its twin by its address.
--
-- Interleavings. The scheduler's worker is cut where it gives up or takes a lock or changes an atomic
-- counter; each cut is a place where another worker or a client may come between. A task is executed
-- outside every lock, for as long as it likes. A wait may end by a signal, by its time, or for no reason.
-- The clients follow what lib/md-scheduler.h asks of them: a reference is held for each task that waits,
-- and none is taken first after the device was started.
--
-- Not modelled: traversal and the walk that feeds the count tree, system calls, the threads that hash
-- and GLib's thread pool itself, the tear-down in rm_mds_free, the hash functions, which are vendored;
-- the extraction of results from merged directories (rm_tm_extract); of the replay the reading of JSON
-- and the unpacking of directories; extended attributes; of the command line the sizes, which are
-- parsed in floating point, times, and the options of the formatters; formatters other than the escaping
-- for JSON; the parent pointers of the trie and the building of a path from them; the whole of
-- rm_shred_group_postprocess, of which the parts are. The counter of files of a session does not
-- overflow in the replay. Files that the replay gives up (rm_file_destroy) are not freed in the model.
-- In the table of disks a device is started by its number of threads; the workers themselves are in
-- MdScheduler.Workers.
pub mod Common
pub mod Cfg
pub mod Cmdline
pub mod Glib
pub mod File
pub mod Treemerge
pub mod Utilities
pub mod MdScheduler
pub mod Preprocess
pub mod Replay
pub mod Trie
pub mod Shredder
pub mod Checksum
pub mod Formats
pub mod Tests
