-- ===== src/Replay/Checks/Longest.antt =====
-- The path of the command line that a replayed file is taken to belong to.
use rmlint.Common.{
  ℕ, ◌≤◌, ◌<◌, ◌≡◌, ◌⊎◌, refl, Bool, true, false, ◌&&◌, ◌||◌, List, [], ◌∷◌, ◌++◌, ap, lt→ltb, ltb,
  length, All, inl, inr, Bool-cases, arith,
}
use rmlint.Cfg.{Bytes, RmCfg, RmPath}
use rmlint.File.Types.{RmFile}
use rmlint.Replay.Checks.{has_prefix, longest_match, check_path}

-- No path that begins the file's path is longer.
abbrev pub AreShorter : Bytes → ℕ → List RmPath → Type 0
AreShorter file_path n paths =
    All (λ p. has_prefix file_path p.path ≡ true → length p.path ≤ n) paths

-- The first of the longest paths that begin the file's path, and the file that belongs to it.
pub record IsChosen (is_prefd : Bool) (file_path : Bytes) (paths : List RmPath)
    (file file' : RmFile) (n : ℕ) : Type 0 where
  pub before : List RmPath
  pub chosen : RmPath
  pub after : List RmPath
  pub place : paths ≡ before ++ (chosen ∷ after)
  pub prefix : has_prefix file_path chosen.path ≡ true
  pub size : n ≡ length chosen.path
  pub marked :
      file' ≡ record file { is_prefd = chosen.is_prefd || is_prefd; path_index = chosen.idx }
  pub first : All (λ p. has_prefix file_path p.path ≡ true → length p.path < n) before
  pub longest : AreShorter file_path n after

module _ (is_prefd : Bool) (file_path : Bytes) where
  shorter_all :
      (n m : ℕ) (paths : List RmPath)
      → n ≤ m
      → AreShorter file_path n paths
      → AreShorter file_path m paths
  shorter_all n m [] h shorter = tt
  shorter_all n m (p ∷ paths) h shorter =
      (λ here. omega (arith, shorter.0 here, h), shorter_all n m paths h shorter.1)

  longest_match_lem :
      (paths : List RmPath) (highest : ℕ) (file : RmFile)
      → (let r = longest_match is_prefd file_path paths highest file in
          ((r.0 ≡ highest) × (r.1 ≡ file) × AreShorter file_path highest paths)
          ⊎ ((highest < r.0) × IsChosen is_prefd file_path paths file r.1 r.0))
  unfolding longest_match
  longest_match_lem [] highest file = inl (refl, refl, tt)
  longest_match_lem (p ∷ paths) highest file =
      elim (Bool-cases (has_prefix file_path p.path && ltb highest (length p.path))) [
        | inl better ↦
            let file' = record file { is_prefd = p.is_prefd || is_prefd; path_index = p.idx } in
            let taller : highest < length p.path = ground (arith, better) in
            rw (better, longest_match)
              (elim (longest_match_lem paths (length p.path) file') [
                | inl (same, kept, shorter) ↦ inr (
                  omega (arith, taller, same),
                  record {
                    before = [];
                    chosen = p;
                    after = paths;
                    place = refl;
                    prefix = ground (arith, better);
                    size = same;
                    marked = kept;
                    first = tt;
                    longest = shorter_all (length p.path) _ paths (omega (arith, same)) shorter;
                  },
                )
                | inr (more, c) ↦ inr (
                  omega (arith, taller, more),
                  record {
                    before = p ∷ c.before;
                    chosen = c.chosen;
                    after = c.after;
                    place = ap (λ l. p ∷ l) c.place;
                    prefix = c.prefix;
                    size = c.size;
                    marked = c.marked;
                    first = (λ here. more, c.first);
                    longest = c.longest;
                  },
                )
              ])
        | inr worse ↦
            rw (worse, longest_match)
              (elim (longest_match_lem paths highest file) [
                | inl (same, kept, shorter) ↦
                    inl (same, kept, ((λ here. ground (arith, worse, here)), shorter))
                | inr (more, c) ↦ inr (
                  more,
                  record {
                    before = p ∷ c.before;
                    chosen = c.chosen;
                    after = c.after;
                    place = ap (λ l. p ∷ l) c.place;
                    prefix = c.prefix;
                    size = c.size;
                    marked = c.marked;
                    first = ((λ here. ground (arith, worse, here, more)), c.first);
                    longest = c.longest;
                  },
                )
              ])
      ]

-- A file is taken if, and only if, its path begins with a non-empty path of the command line. It is then marked with
-- the preference and the index of the first of the longest such paths; otherwise it is left as it is.
pub check_path-IsChosen :
    (cfg : RmCfg) (is_prefd : Bool) (file_path : Bytes) (file : RmFile)
    → (let r = check_path cfg is_prefd file_path file in
        ((r.0 ≡ false) × (r.1 ≡ file) × AreShorter file_path 0 cfg.paths)
        ⊎ ((r.0 ≡ true) × ((n : ℕ) × (0 < n) × IsChosen is_prefd file_path cfg.paths file r.1 n)))
unfolding check_path
check_path-IsChosen cfg is_prefd file_path file =
    elim (longest_match_lem is_prefd file_path cfg.paths 0 file) [
      | inl (zero_match, kept, shorter) ↦ inl (ground (arith, zero_match), kept, shorter)
      | inr (more, c) ↦ inr (lt→ltb _ _ more, (_, more, c))
    ]
