-- ===== src/File/Links/Count.antt =====
-- Counts over clusters and hardlink queues (lib/file.c).
use rmlint.Common.{
  ℕ, ◌+◌, ◌<◌, ◌≡◌, ◌≢◌, refl, List, [], ◌∷◌, ◌++◌, Option, none, some, arith, ◌==◌, sum_by,
  sum_by-append, Option-cases, inl, inr, if◌then◌else◌, ◌∙◌, sym, ap, false,
}
use rmlint.File.Types.{RmFile, FileRef, QueueRef, Heap, write_file, write_queue}
use rmlint.File.Links.{
  cluster_add, enter_cluster, started, join_cluster, over_queue, foreach, foreach_hardlink,
  file_count, CountType, files, n_files, n_prefd, n_nprefd,
}

sum_by-add :
    (f g k : FileRef → ℕ) (l : List FileRef)
    → ((i : FileRef) → f i + g i ≡ k i)
    → sum_by f l + sum_by g l ≡ sum_by k l
sum_by-add f g k [] h = refl
sum_by-add f g k (i ∷ l) h = omega (arith, h i, sum_by-add f g k l h)

sum_by-same :
    (f g : FileRef → ℕ) (l : List FileRef) → ((i : FileRef) → f i ≡ g i) → sum_by f l ≡ sum_by g l
sum_by-same f g [] h = refl
sum_by-same f g (i ∷ l) h = omega (arith, h i, sum_by-same f g l h)

over_queue-add :
    (h : Heap) (f g k : FileRef → ℕ) (i : FileRef) (o : Option QueueRef)
    → ((i : FileRef) → f i + g i ≡ k i)
    → over_queue h f i o + over_queue h g i o ≡ over_queue h k i o
over_queue-add h f g k i none e = e i
over_queue-add h f g k i (some q) e = sum_by-add f g k (h.queue q) e

file_count_prefd :
    (v : RmFile) → file_count CountType.prefd v + file_count CountType.nprefd v ≡ file_count files v
unfolding file_count
file_count_prefd v = ground arith

over_queue-same :
    (h k : Heap) (f g : FileRef → ℕ) (i : FileRef) (o : Option QueueRef)
    → ((i : FileRef) → f i ≡ g i)
    → ((q : QueueRef) → o ≡ some q → h.queue q ≡ k.queue q)
    → over_queue h f i o ≡ over_queue k g i o
over_queue-same h k f g i none e s = e i
over_queue-same h k f g i (some q) e s = rw (s q refl) (sum_by-same f g (k.queue q) e)

hardlinks_prefd :
    (h : Heap) (f : FileRef)
    → foreach_hardlink h (file_count CountType.prefd) f
        + foreach_hardlink h (file_count CountType.nprefd) f
      ≡ foreach_hardlink h (file_count files) f
unfolding foreach_hardlink
hardlinks_prefd h f =
    over_queue-add h _ _ _ f (h.file f).hardlinks (λ i. file_count_prefd (h.file i))

-- Every file that a cluster stands for, hardlinks included, is counted either as preferred or as
-- not preferred, and never as both.
n_prefd-add-n_nprefd : (h : Heap) (f : FileRef) → n_prefd h f + n_nprefd h f ≡ n_files h f
unfolding foreach n_prefd n_nprefd n_files
n_prefd-add-n_nprefd h f = over_queue-add h _ _ _ f (h.file f).cluster (hardlinks_prefd h)

-- The pointers of a heap: queues in use are below `fresh`, and no cluster shares its queue with
-- hardlinks.
pub record IsLinked (h : Heap) : Type 0 where
  pub clusters : (f : FileRef) (q : QueueRef) → (h.file f).cluster ≡ some q → q < h.fresh
  pub hardlinks : (f : FileRef) (q : QueueRef) → (h.file f).hardlinks ≡ some q → q < h.fresh
  pub apart :
      (f g : FileRef) (q : QueueRef) → (h.file f).cluster ≡ some q → (h.file g).hardlinks ≢ some q

-- A count does not look at the cluster that a file belongs to.
abbrev pub Counts : (RmFile → ℕ) → Type 0
Counts func = (v : RmFile) (c : Option QueueRef) → func (record v { cluster = c }) ≡ func v

pub Counts-file_count : (t : CountType) → Counts (file_count t)
unfolding file_count
Counts-file_count t v c = ground arith

module _ (q : QueueRef) (guest : FileRef) (h : Heap) (func : RmFile → ℕ) where
  hardlinks-join :
      (f : FileRef) → ((join_cluster q guest h).file f).hardlinks ≡ (h.file f).hardlinks
  unfolding join_cluster write_file write_queue
  hardlinks-join f = ground arith

  count-join :
      Counts func → (f : FileRef) → func ((join_cluster q guest h).file f) ≡ func (h.file f)
  unfolding join_cluster write_file write_queue
  count-join c f = ground (arith, c (h.file guest) (some q))

  queue-join :
      (p : QueueRef)
      → (join_cluster q guest h).queue p ≡ (if p == q then h.queue q ++ guest ∷ [] else h.queue p)
  unfolding join_cluster write_file write_queue
  queue-join p = refl

  foreach_hardlink-join :
      Counts func
      → ((g : FileRef) → (h.file g).hardlinks ≢ some q)
      → (f : FileRef) → foreach_hardlink (join_cluster q guest h) func f ≡ foreach_hardlink h func f
  unfolding foreach_hardlink
  foreach_hardlink-join c out f = rw (hardlinks-join f) (
      over_queue-same (join_cluster q guest h) h _ _ f (h.file f).hardlinks (count-join c)
        λ p e. rw (queue-join p) (grind (arith, out f)))

  cluster-join :
      (f : FileRef) (o : Option QueueRef)
      → (h.file f).cluster ≡ o
      → ((join_cluster q guest h).file f).cluster ≡ (if f == guest then some q else o)
  unfolding join_cluster write_file write_queue
  cluster-join f o e = ground arith

  -- a file that joins the cluster of another adds what it stands for
  foreach-join :
      Counts func
      → ((g : FileRef) → (h.file g).hardlinks ≢ some q)
      → (host : FileRef) → guest ≢ host
      → (h.file host).cluster ≡ some q
      → foreach (join_cluster q guest h) func host
        ≡ foreach h func host + foreach_hardlink h func guest
  unfolding foreach
  foreach-join c out host ne e =
      let e' : ((join_cluster q guest h).file host).cluster ≡ some q =
        ground (arith, cluster-join host (some q) e) in
      rw (e', e)
        (rw (queue-join q) (
          sum_by-same _ _ (if q == q then h.queue q ++ guest ∷ [] else h.queue q)
            (foreach_hardlink-join c out)
          ∙ grind (arith, sum_by-append (foreach_hardlink h func) (h.queue q) (guest ∷ []))))

module _ (h : Heap) (host : FileRef) where
  hardlinks-started : (f : FileRef) → ((started host h).file f).hardlinks ≡ (h.file f).hardlinks
  unfolding started write_file write_queue
  hardlinks-started f = ground arith

  cluster-started : ((started host h).file host).cluster ≡ some h.fresh
  unfolding started write_file write_queue
  cluster-started = ground arith

  queue-started :
      (q : QueueRef) → (started host h).queue q ≡ (if q == h.fresh then [] else h.queue q)
  unfolding started write_file write_queue
  queue-started q = refl

  count-started :
      (func : RmFile → ℕ)
      → Counts func
      → (f : FileRef) → func ((started host h).file f) ≡ func (h.file f)
  unfolding started write_file write_queue
  count-started func c f = ground (arith, c (h.file host) (some h.fresh))

cluster_add-some :
    (host guest : FileRef) (h : Heap) (q : QueueRef)
    → (h.file host).cluster ≡ some q
    → cluster_add host guest h ≡ join_cluster q guest h
cluster_add-some host guest h q e = unfold cluster_add in ap (λ o. enter_cluster o host guest h) e

cluster_add-none :
    (host guest : FileRef) (h : Heap)
    → (h.file host).cluster ≡ none
    → guest ≢ host
    → cluster_add host guest h
      ≡ join_cluster h.fresh guest (join_cluster h.fresh host (started host h))
cluster_add-none host guest h e ne =
    let differ : (guest == host) ≡ false = ground arith in
    unfold cluster_add in
    ap (λ o. enter_cluster o host guest h) e
    ∙ ap
        (λ b.
          join_cluster h.fresh guest
            (if b then started host h else join_cluster h.fresh host (started host h)))
        differ

foreach-alone :
    (h : Heap) (func : RmFile → ℕ) (f : FileRef)
    → (h.file f).cluster ≡ none
    → foreach h func f ≡ foreach_hardlink h func f
foreach-alone h func f e = unfold foreach in rw e

module _ (h : Heap) (func : RmFile → ℕ) (c : Counts func) (l : IsLinked h) (host : FileRef) where
  foreach_hardlink-started :
      (f : FileRef) → foreach_hardlink (started host h) func f ≡ foreach_hardlink h func f
  unfolding foreach_hardlink
  foreach_hardlink-started f = rw (hardlinks-started h host f) (
      over_queue-same (started host h) h _ _ f (h.file f).hardlinks (count-started h host func c)
        λ p e. rw (queue-started h host p) (ground (arith, l.hardlinks f p e)))

  fresh-out : (g : FileRef) → ((started host h).file g).hardlinks ≢ some h.fresh
  fresh-out g e = ground (arith, hardlinks-started h host g, l.hardlinks g h.fresh)

  -- the host alone in its new cluster stands for what it stood for before
  foreach-started :
      (h.file host).cluster ≡ none
      → foreach (join_cluster h.fresh host (started host h)) func host ≡ foreach h func host
  unfolding foreach
  foreach-started e =
      let joined : ((join_cluster h.fresh host (started host h)).file host).cluster ≡ some h.fresh =
        ground (
          arith,
          cluster-join h.fresh host (started host h) func host _ (cluster-started h host),
        ) in
      rw (joined, e)
        (rw (queue-join h.fresh host (started host h) func h.fresh) (
          rw (queue-started h host h.fresh) (
            ground (
              arith,
              foreach_hardlink-join h.fresh host (started host h) func c fresh-out host,
              foreach_hardlink-started host,
            ))))

  -- In a heap whose queues are allocated and shared by no cluster and hardlinks, a cluster that
  -- takes in another file without a cluster stands for the files of both, whether it existed
  -- before or is started for the host. The counter is any that ignores the cluster pointer.
  foreach-cluster_add :
      (guest : FileRef)
      → guest ≢ host
      → (h.file guest).cluster ≡ none
      → foreach (cluster_add host guest h) func host ≡ foreach h func host + foreach h func guest
  foreach-cluster_add guest ne alone = elim (Option-cases (h.file host).cluster) [
    | inl e ↦ rw (cluster_add-none host guest h e ne) (
        omega (
          arith,
          foreach-join h.fresh guest (join_cluster h.fresh host (started host h)) func c
              (λ g p. fresh-out g (sym (hardlinks-join h.fresh host (started host h) func g) ∙ p))
              host ne
              (cluster-join h.fresh host (started host h) func host _ (cluster-started h host)
                ∙ same),
          foreach-started e,
          foreach_hardlink-join h.fresh host (started host h) func c fresh-out guest,
          foreach_hardlink-started guest,
          foreach-alone h func guest alone,
        ))
    | inr (q, e) ↦ rw (cluster_add-some host guest h q e) (
        omega (
          arith,
          foreach-join q guest h func c (λ g. l.apart host g q e) host ne e,
          foreach-alone h func guest alone,
        ))
  ]
    where
      same : (if host == host then some h.fresh else some h.fresh) ≡ some h.fresh
      same = ground arith
