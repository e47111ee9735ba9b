-- ===== src/Cmdline/Options/Sound.antt =====
-- What the options of a run are sure to be after the command line was read (lib/cmdline.c).
use rmlint.Common.{
  ℕ, ◌≤◌, ◌≡◌, ◌≢◌, refl, sym, ◌∙◌, ap, Bool, true, false, not, ◌&&◌, ◌||◌, List, none, some, arith,
  Bool-cases, inl, inr,
}
use rmlint.Common.Sign.{pos_part}
use rmlint.Cfg.{Bytes, RmCfg, DigestType, set_default}
use rmlint.Cmdline.Options.{
  Opt, parse_options, fix_options, find_conflict, finish_options, Conflict, replay_and_dedupe,
}
use rmlint.Cmdline.Options.Handlers.{IsSound, Agree, Agree-IsSound, parse_options-IsSound}

fix_options-IsSound : (cfg : RmCfg) → IsSound cfg → IsSound (fix_options cfg)
unfolding fix_options
fix_options-IsSound cfg s = elim (Bool-cases (cfg.partial_hidden && not cfg.merge_directories)) [
  | inl alone ↦ rw (fix_options, alone) (record { symlinks = s.symlinks; hiding = refl })
  | inr fine ↦ rw (fix_options, fine) (record { symlinks = s.symlinks; hiding = s.hiding })
]

fix_options-hidden :
    (cfg : RmCfg)
    → ((fix_options cfg).partial_hidden && not (fix_options cfg).merge_directories) ≡ false
unfolding fix_options
fix_options-hidden cfg = elim (Bool-cases (cfg.partial_hidden && not cfg.merge_directories)) [
  | inl alone ↦ rw (fix_options, alone) refl
  | inr fine ↦ rw (fix_options, fine) fine
]

fix_options-threads :
    (cfg : RmCfg) → (1 ≤ (fix_options cfg).threads) × ((fix_options cfg).threads ≤ 128)
unfolding fix_options
fix_options-threads cfg = ground arith

fix_options-depth :
    (cfg : RmCfg)
    → (1 ≤ pos_part (fix_options cfg).depth) × (pos_part (fix_options cfg).depth ≤ 2049)
unfolding fix_options
fix_options-depth cfg = ground arith

find_conflict-none :
    (outputs_ok : Bool) (r : RmCfg)
    → find_conflict outputs_ok r ≡ none
    → ((r.keep_all_tagged && (r.keep_all_untagged || r.must_match_untagged)) ≡ false)
      × ((r.keep_all_untagged && r.must_match_tagged) ≡ false)
unfolding find_conflict
find_conflict-none outputs_ok r calm = ground (arith, calm)

set_default-IsSound : (default_digest : DigestType) → IsSound (set_default default_digest)
unfolding set_default
set_default-IsSound default_digest = record { symlinks = refl; hiding = refl }

some_not_none : {c : Conflict} → some c ≢ none
some_not_none e = cc

cloned :
    (outputs_ok : Bool) (cfg : RmCfg)
    → (cfg.replay && (cfg.dedupe || cfg.is_reflink)) ≡ true
    → finish_options outputs_ok cfg ≡ (cfg, some replay_and_dedupe)
unfolding finish_options
cloned outputs_ok cfg both = rw (finish_options, both) refl

finished :
    (outputs_ok : Bool) (cfg : RmCfg)
    → (cfg.replay && (cfg.dedupe || cfg.is_reflink)) ≡ false
    → (cfg.dedupe || cfg.is_reflink) ≡ false
    → finish_options outputs_ok cfg ≡ (fix_options cfg, find_conflict outputs_ok (fix_options cfg))
unfolding finish_options
finished outputs_ok cfg fine running = rw (finish_options, fine, running) refl

-- With whatever options the command line is read, if no handler reports an error, the rest of the
-- reading leaves the options about links and hidden files as the handlers set them, the end finds no
-- conflict, and files are neither to be cloned nor tested only, then: the assertion holds that symbolic
-- links are not both followed and seen, hidden files are not both ignored and partly looked for, and
-- they are partly looked for only where directories are merged, the number of threads and the depth are
-- in range, and no two options about tagged files contradict each other.
pub finish_options-IsSound :
    (strsplit : Bytes → ℕ → List Bytes) (default_digest : DigestType) (opts : List Opt)
    (outputs_ok : Bool) (handled cfg : RmCfg)
    → parse_options strsplit opts (set_default default_digest) ≡ some handled
    → Agree cfg handled
    → (finish_options outputs_ok cfg).1 ≡ none
    → (cfg.dedupe || cfg.is_reflink) ≡ false
    → (let r = (finish_options outputs_ok cfg).0 in
        IsSound r
        × ((r.partial_hidden && not r.merge_directories) ≡ false)
        × (1 ≤ r.threads)
        × (r.threads ≤ 128)
        × (1 ≤ pos_part r.depth)
        × (pos_part r.depth ≤ 2049)
        × ((r.keep_all_tagged && (r.keep_all_untagged || r.must_match_untagged)) ≡ false)
        × ((r.keep_all_untagged && r.must_match_tagged) ≡ false))
finish_options-IsSound strsplit default_digest opts outputs_ok handled cfg parsed agree calm
      running =
    let sound : IsSound cfg = Agree-IsSound cfg handled agree (
      parse_options-IsSound strsplit opts (set_default default_digest) handled
        (set_default-IsSound default_digest) parsed) in
    elim (Bool-cases (cfg.replay && (cfg.dedupe || cfg.is_reflink))) [
      | inl both ↦ absurd (some_not_none (sym (ap (λ r. r.1) (cloned outputs_ok cfg both)) ∙ calm))
      | inr fine ↦
          let e = finished outputs_ok cfg fine running in
          let threads = fix_options-threads cfg in
          let depth = fix_options-depth cfg in
          let tags =
            find_conflict-none outputs_ok (fix_options cfg) (sym (ap (λ r. r.1) e) ∙ calm) in
          rw e (
            fix_options-IsSound cfg sound,
            fix_options-hidden cfg,
            threads.0,
            threads.1,
            depth.0,
            depth.1,
            tags.0,
            tags.1,
          )
    ]
