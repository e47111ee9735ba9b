-- ===== src/File/Links.antt =====
-- lib/file.c: hardlink queues, clusters, and the counts over them.
pub mod Count
use rmlint.Common.{
  ℕ, ◌+◌, Bool, true, false, not, List, [], ◌∷◌, ◌++◌, Option, none, some, ◌==◌, if◌then◌else◌, bit,
  sum_by, is_empty, is_none,
}
use rmlint.File.Types.{RmFile, FileRef, QueueRef, Heap, write_file, write_queue}

-- g_queue_new: an empty queue at an unused address
abbrev pub queue_new : Heap → QueueRef × Heap
queue_new h = (h.fresh, write_queue h.fresh [] (record h { fresh = h.fresh + 1 }))

-- g_queue_push_tail
abbrev pub push_tail : QueueRef → FileRef → Heap → Heap
push_tail q f h = write_queue q (h.queue q ++ f ∷ []) h

-- g_queue_remove: drops the first occurrence
abbrev pub without : FileRef → List FileRef → List FileRef
without f [] = []
without f (g ∷ l) = if g == f then l else g ∷ without f l

-- `if(!head->hardlinks) head->hardlinks = g_queue_new()`, and the queue
unfoldable pub own_hardlinks : FileRef → Heap → QueueRef × Heap
unfolding write_file write_queue
own_hardlinks head h = elim (h.file head).hardlinks [
  | some q ↦ (q, h)
  | none ↦
      let (q, h') = queue_new h in
      (q, write_file head (record (h'.file head) { hardlinks = some q }) h')
]

-- rm_file_hardlink_add
unfoldable pub hardlink_add : FileRef → FileRef → Heap → Heap
unfolding own_hardlinks write_file write_queue
hardlink_add head link h =
    let (q, h') = own_hardlinks head h in
    push_tail q link (write_file link (record (h'.file link) { hardlinks = some q }) h')

-- The tail of rm_file_cluster_add: the guest joins the queue `q`.
unfoldable pub join_cluster : QueueRef → FileRef → Heap → Heap
unfolding write_file write_queue
join_cluster q guest h =
    push_tail q guest (write_file guest (record (h.file guest) { cluster = some q }) h)

-- `host->cluster = g_queue_new()`, at the address `fresh`
unfoldable pub started : FileRef → Heap → Heap
unfolding write_file write_queue
started host h =
    let (q, h') = queue_new h in write_file host (record (h'.file host) { cluster = some q }) h'

-- A host without a cluster starts one, and joins it itself unless it is the guest.
unfoldable pub enter_cluster : Option QueueRef → FileRef → FileRef → Heap → Heap
enter_cluster (some q) host guest h = join_cluster q guest h
enter_cluster none host guest h =
    join_cluster h.fresh guest
      (if guest == host then started host h else join_cluster h.fresh host (started host h))

-- rm_file_cluster_add
unfoldable pub cluster_add : FileRef → FileRef → Heap → Heap
unfolding enter_cluster
cluster_add host guest h = enter_cluster (h.file host).cluster host guest h

-- rm_file_cluster_remove, of a file that has a cluster
unfoldable pub cluster_remove : FileRef → Heap → Heap
unfolding write_file write_queue
cluster_remove f h = elim (h.file f).cluster [
  | none ↦ h
  | some q ↦
      write_file f (record (h.file f) { cluster = none }) (write_queue q (without f (h.queue q)) h)
]

-- The sum of the callback's results over a queue, or its result at the file itself.
abbrev pub over_queue : Heap → (FileRef → ℕ) → FileRef → Option QueueRef → ℕ
over_queue h g f none = g f
over_queue h g f (some q) = sum_by g (h.queue q)

-- rm_file_foreach_hardlink, for the counting callbacks
unfoldable pub foreach_hardlink : Heap → (RmFile → ℕ) → FileRef → ℕ
foreach_hardlink h func f = over_queue h (λ i. func (h.file i)) f (h.file f).hardlinks

-- rm_file_foreach
unfoldable pub foreach : Heap → (RmFile → ℕ) → FileRef → ℕ
unfolding foreach_hardlink
foreach h func f = over_queue h (foreach_hardlink h func) f (h.file f).cluster

-- RmFileCountType
pub data CountType : Type 0 where
  files prefd nprefd new : CountType

-- rm_file_count
unfoldable pub file_count : CountType → RmFile → ℕ
file_count files f = 1
file_count prefd f = bit f.is_prefd
file_count nprefd f = bit (not f.is_prefd)
file_count new f = bit f.is_new

-- rm_file_n_files, rm_file_n_new, rm_file_n_prefd and rm_file_n_nprefd
unfoldable pub n_files : Heap → FileRef → ℕ
unfolding foreach file_count
n_files h = foreach h (file_count files)

unfoldable pub n_new : Heap → FileRef → ℕ
unfolding foreach file_count
n_new h = foreach h (file_count new)

unfoldable pub n_prefd : Heap → FileRef → ℕ
unfolding foreach file_count
n_prefd h = foreach h (file_count prefd)

unfoldable pub n_nprefd : Heap → FileRef → ℕ
unfolding foreach file_count
n_nprefd h = foreach h (file_count nprefd)
