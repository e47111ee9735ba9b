-- ===== src/Shredder/Rejects/Counts.antt =====
-- The counters of lib/shredder.c while a group is split.
use mathlib.Core.Option
use rmlint.Common.{
  ℕ, ◌+◌, ◌^◌, ◌≤◌, ◌<◌, ◌≡◌, refl, ◌∙◌, ap, false, not, [], Option, none, some, bit, arith,
  Bool-cases, inl, inr,
}
use rmlint.Cfg.{RmCfg}
use rmlint.Glib.{Glib}
use rmlint.File.Types.{RmFile, FileRef, Heap, write_file}
use rmlint.File.Links.{n_files, n_prefd, n_nprefd, n_new}
use rmlint.Preprocess.Cluster.{sub64}
use rmlint.Shredder.Types.{finishing, ShredGroup, GroupRef}
use rmlint.Shredder.Group.{
  Sifter, push_file, push_fields, push_named, next_basename, common_basename, match_cluster,
  count_file, update_status, dispatch, hold,
}
use rmlint.Shredder.Rejects.{Split, take_out, transfer}

-- The counters of a group hold at least what a transfer takes away, and are gsize values.
pub record HasCounted (file : RmFile) (group : ShredGroup) : Type 0 where
  pub files : (1 ≤ group.num_files) × (group.num_files < 2 ^ 64)
  pub prefd : (bit file.is_prefd ≤ group.n_pref) × (group.n_pref < 2 ^ 64)
  pub nprefd : (bit (not file.is_prefd) ≤ group.n_npref) × (group.n_npref < 2 ^ 64)
  pub new : (bit (not file.is_new) ≤ group.n_new) × (group.n_new < 2 ^ 64)

sub64_lem : (a b : ℕ) → b ≤ a → a < 2 ^ 64 → sub64 a b + b ≡ a
sub64_lem a b le small = omega (arith, le, small)

pub next_basename_single :
    (g : Glib) (cfg : RmCfg) (h : Heap) (group : ShredGroup) (f : FileRef)
    → (h.file f).cluster ≡ none
    → (u : Option FileRef) × (next_basename g cfg h group f ≡ some u)
unfolding next_basename match_cluster
next_basename_single g cfg h group f e = elim (Bool-cases cfg.unmatched_basenames) [
  | inl on ↦ (common_basename g h group f group.unique_basename, rw (on, e) refl)
  | inr off ↦ (group.unique_basename, rw off refl)
]

update_status_finishing :
    (cfg : RmCfg) (group : ShredGroup) → group.status ≡ finishing → update_status cfg group ≡ group
unfolding update_status
update_status_finishing cfg group e = rw e refl

-- what is held is added to a finishing group, and its counters are kept
pub push_named_finishing :
    (cfg : RmCfg) (h : Heap) (f : FileRef) (s : Sifter) (u : Option FileRef)
    → s.group.status ≡ finishing
    → let counted = count_file h f (record s.group { unique_basename = u }) in
      push_named cfg h [] f false s u
      ≡ (record s { group = record counted { held_files = hold f s.group.held_files } }, none)
unfolding push_named dispatch count_file
push_named_finishing cfg h f s u e =
    let counted = count_file h f (record s.group { unique_basename = u }) in
    rw (update_status_finishing cfg counted e, e) refl

-- the file as it is pushed
pub file-push_fields :
    (r : GroupRef) (f : FileRef) (h : Heap)
    → (push_fields r f h).file f ≡ record (h.file f) { shred_group = some r; digest = none }
unfolding push_fields write_file
file-push_fields r f h = ground arith

pub transfer_step :
    (g : Glib) (cfg : RmCfg) (r : GroupRef) (f : FileRef) (source : ShredGroup) (dest : Sifter)
    (h : Heap) (u : Option FileRef)
    → next_basename g cfg (push_fields r f h) dest.group f ≡ some u
    → transfer g cfg r f source dest h
      ≡ some (record {
        group = take_out f ((push_fields r f h).file f) source;
        rejects = some (push_named cfg (push_fields r f h) [] f false dest u).0;
        heap = push_fields r f h;
      })
unfolding transfer push_file
transfer_step g cfg r f source dest h u e =
    let pushed = push_fields r f h in
    ap
      (λ o. elim (Option.map (push_named cfg pushed [] f false dest) o) [
        | none ↦ none
        | some (dest', waiting) ↦ some (record {
          group = take_out f (pushed.file f) source;
          rejects = some dest';
          heap = pushed;
        })
      ])
      e

-- The counters of a group and its rejects, before and after a file is moved that stands for as many
-- files as its bundle of hardlinks has.
pub record Moved (h : Heap) (f : FileRef) (group dest group' dest' : ShredGroup) : Type 0 where
  pub files :
      (group'.num_files + 1 ≡ group.num_files) × (dest'.num_files ≡ dest.num_files + n_files h f)
  pub prefd :
      (group'.n_pref + bit (h.file f).is_prefd ≡ group.n_pref)
      × (dest'.n_pref ≡ dest.n_pref + n_prefd h f)
  pub nprefd :
      (group'.n_npref + bit (not (h.file f).is_prefd) ≡ group.n_npref)
      × (dest'.n_npref ≡ dest.n_npref + n_nprefd h f)
  pub new :
      (group'.n_new + bit (not (h.file f).is_new) ≡ group.n_new)
      × (dest'.n_new ≡ dest.n_new + n_new h f)

-- A file without a cluster is moved from a group to its rejects, which are finishing, where the
-- group's counters cover it. Then the rejects count all files that it stands for: itself, or its bundle
-- of hardlinks. But the group counts only one file less, and one preferred or other file; and one new
-- file less exactly if the file is *not* new.
pub transfer-Moved :
    (g : Glib) (cfg : RmCfg) (r : GroupRef) (f : FileRef) (source : ShredGroup) (dest : Sifter)
    (h : Heap)
    → (h.file f).cluster ≡ none
    → HasCounted (h.file f) source
    → dest.group.status ≡ finishing
    → (s : Split) × (dest' : Sifter) × (transfer g cfg r f source dest h ≡ some s)
      × (s.rejects ≡ some dest')
      × Moved s.heap f source dest.group s.group dest'.group
unfolding take_out count_file
transfer-Moved g cfg r f source dest h alone counted e =
    let pushed = push_fields r f h in
    let file : pushed.file f ≡ record (h.file f) { shred_group = some r; digest = none } =
      file-push_fields r f h in
    let (u, named) =
      next_basename_single g cfg pushed dest.group f (ap (λ v. v.cluster) file ∙ alone) in
    let held = push_named_finishing cfg pushed f dest u e in
    let prefd = ap (λ v. bit v.is_prefd) file in
    let nprefd = ap (λ v. bit (not v.is_prefd)) file in
    let fresh = ap (λ v. bit (not v.is_new)) file in
    (
      record {
        group = take_out f (pushed.file f) source;
        rejects = some (push_named cfg pushed [] f false dest u).0;
        heap = pushed;
      },
      (push_named cfg pushed [] f false dest u).0,
      transfer_step g cfg r f source dest h u named,
      refl,
      record {
        files = (
          sub64_lem source.num_files 1 counted.files.0 counted.files.1,
          ap (λ x. x.0.group.num_files) held,
        );
        prefd = (
          sub64_lem source.n_pref (bit (pushed.file f).is_prefd)
              (omega (arith, prefd, counted.prefd.0)) counted.prefd.1,
          ap (λ x. x.0.group.n_pref) held,
        );
        nprefd = (
          sub64_lem source.n_npref (bit (not (pushed.file f).is_prefd))
              (omega (arith, nprefd, counted.nprefd.0)) counted.nprefd.1,
          ap (λ x. x.0.group.n_npref) held,
        );
        new = (
          sub64_lem source.n_new (bit (not (pushed.file f).is_new))
              (omega (arith, fresh, counted.new.0)) counted.new.1,
          ap (λ x. x.0.group.n_new) held,
        );
      },
    )
