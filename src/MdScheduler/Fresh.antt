-- ===== src/MdScheduler/Fresh.antt =====
-- Before a device of lib/md-scheduler.c is started it has no workers.
use rmlint.Common.{ℕ, ◌<◌, ◌≡◌, ◌≢◌, refl, sym, ◌∙◌, false, List, arith}
use rmlint.Common.Sign.{ℤ}
use rmlint.MdScheduler.Device.{Task, Mds}
use rmlint.MdScheduler.Workers.{
  System, absent, push, take_ref, drop_ref, device_start, begin_pass, enter, pop, finish, check,
  leave, free, WorkerStep, enters, wakes, pops, finishes, checks, leaves, frees, ClientStep, pushes,
  takes, drops, starts, Reach, begun, works, clients, system_new,
}

abbrev pub IsFresh : Mds → System → Type 0
IsFresh mds s = s.started ≡ false → (w : ℕ) → w < mds.threads_per_disk → s.worker w ≡ absent

module _ (mds : Mds) (sort : (Task → Task → ℤ) → List Task → List Task) where
  pub WorkerStep-started : {s t : System} → WorkerStep mds sort s t → t.started ≡ s.started
  unfolding enter begin_pass pop finish check leave free
  WorkerStep-started (enters {s} w small at) = ground arith
  WorkerStep-started (wakes {s} w small at) = refl
  WorkerStep-started (pops {s} w k small at) = ground arith
  WorkerStep-started (finishes {s} w k t ok small at) = refl
  WorkerStep-started (checks {s} w k small at) = refl
  WorkerStep-started (leaves {s} w small at) = refl
  WorkerStep-started (frees {s} w small at) = refl

  acts :
      {s t : System}
      → WorkerStep mds sort s t
      → (w : ℕ) × (w < mds.threads_per_disk) × (s.worker w ≢ absent)
  acts (enters w small at) = (w, small, λ e. cc)
  acts (wakes w small at) = (w, small, λ e. cc)
  acts (pops w k small at) = (w, small, λ e. cc)
  acts (finishes w k t ok small at) = (w, small, λ e. cc)
  acts (checks w k small at) = (w, small, λ e. cc)
  acts (leaves w small at) = (w, small, λ e. cc)
  acts (frees w small at) = (w, small, λ e. cc)

  -- A step of a worker shows that the device is started.
  WorkerStep-IsFresh : {s t : System} → WorkerStep mds sort s t → IsFresh mds s → IsFresh mds t
  WorkerStep-IsFresh step fresh unstarted =
      let actor = acts step in
      absurd (actor.2 (fresh (sym (WorkerStep-started step) ∙ unstarted) actor.0 actor.1))

  ClientStep-IsFresh : {s t : System} → ClientStep mds sort s t → IsFresh mds s → IsFresh mds t
  unfolding push take_ref drop_ref device_start
  ClientStep-IsFresh (pushes t room) fresh = fresh
  ClientStep-IsFresh (takes early) fresh = fresh
  ClientStep-IsFresh (drops room) fresh = fresh
  ClientStep-IsFresh (starts unstarted) fresh = λ never. cc

  pub Reach-IsFresh : {disk : ℕ} {s : System} → Reach mds sort disk s → IsFresh mds s
  unfolding system_new
  Reach-IsFresh begun = λ unstarted w small. refl
  Reach-IsFresh (works r step) = WorkerStep-IsFresh step (Reach-IsFresh r)
  Reach-IsFresh (clients r step) = ClientStep-IsFresh step (Reach-IsFresh r)
