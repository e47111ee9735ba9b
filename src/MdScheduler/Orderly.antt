-- ===== src/MdScheduler/Orderly.antt =====
-- What holds of a device of lib/md-scheduler.c and its workers between any two steps: what the reference
-- count and the number of threads say of the tasks and the workers.
use rmlint.Common.{ℕ, ◌+◌, ◌<◌, ◌≤◌, ◌≡◌, ◌∙◌, ap, Bool, not, bit, arith}
use rmlint.Common.Family.{put, total, total-put}
use rmlint.Common.Sign.{neg_part, pos_part}
use rmlint.MdScheduler.Device.{Mds}
use rmlint.MdScheduler.Workers.{
  Pc, System, queued, waiting, leaving, freeing, done, passing, checking, running, backlog,
  references,
}

-- A worker that is counted in device->threads; one that found no reference left; the one that frees.
abbrev pub live : Pc → ℕ
live queued = 1
live waiting = 1
live (passing k) = 1
live (running k t) = 1
live (checking k) = 1
live leaving = 1
live pc = 0

abbrev pub gone : Pc → ℕ
gone leaving = 1
gone freeing = 1
gone done = 1
gone pc = 0

abbrev pub frees_now : Pc → ℕ
frees_now freeing = 1
frees_now pc = 0

module _ (mds : Mds) where
  abbrev pub sum : (Pc → ℕ) → System → ℕ
  sum f s = total f s.worker mds.threads_per_disk

  -- 1 when the device is freed or about to be
  abbrev pub closed : System → ℕ
  closed s = sum frees_now s + bit (not s.registered)

  pub record IsOrderly (s : System) : Type 0 where
    pub covered : backlog s ≤ references s
    pub nonneg : neg_part s.device.ref_count ≡ 0
    pub counted : s.device.threads ≡ sum live s
    pub ended : 0 < sum gone s → references s ≡ 0
    pub once : closed s ≤ 1
    pub last : 0 < closed s → s.device.threads ≡ 0
    pub evidence : bit (not s.registered) ≤ sum gone s

  -- A worker goes on that neither counts itself off nor frees the device.
  pub moves :
      (s t : System) (w : ℕ) (old new : Pc)
      → IsOrderly s
      → w < mds.threads_per_disk
      → s.worker w ≡ old
      → t.worker ≡ put w new s.worker
      → t.registered ≡ s.registered
      → t.device.threads ≡ s.device.threads
      → t.device.ref_count ≡ s.device.ref_count
      → backlog t ≤ backlog s
      → live old ≡ live new
      → frees_now old ≡ frees_now new
      → gone old ≤ gone new
      → (gone old < gone new → references s ≡ 0)
      → IsOrderly t
  moves s t w old new o small at to same threads refs fewer lives freed more ends =
      let shift = λ (f : Pc → ℕ). ap (λ g. total f g mds.threads_per_disk) to in
      let shifted = λ (f : Pc → ℕ). total-put f s.worker w new mds.threads_per_disk small in
      record {
        covered = omega (arith, o.covered, fewer, ap pos_part refs);
        nonneg = ap neg_part refs ∙ o.nonneg;
        counted = omega (arith, o.counted, threads, shift live, shifted live, ap live at, lives);
        ended = λ some_gone. ground (
          arith,
          shift gone,
          shifted gone,
          ap gone at,
          ap pos_part refs,
          o.ended,
          ends,
          some_gone,
        );
        once = omega (
          arith,
          o.once,
          shift frees_now,
          shifted frees_now,
          ap frees_now at,
          freed,
          ap (λ (b : Bool). bit (not b)) same,
        );
        last = λ some_closed. ground (
          arith,
          shift frees_now,
          shifted frees_now,
          ap frees_now at,
          freed,
          same,
          threads,
          o.last,
          some_closed,
        );
        evidence = omega (
          arith,
          o.evidence,
          shift gone,
          shifted gone,
          ap gone at,
          more,
          ap (λ (b : Bool). bit (not b)) same,
        );
      }
