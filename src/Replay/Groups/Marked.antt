-- ===== src/Replay/Groups/Marked.antt =====
-- Files marked by rm_parrot_check_path pass the same checks, and the groups that hold them.
use rmlint.Common.{
  ℕ, ◌<◌, ◌≡◌, ◌≢◌, refl, sym, ◌∙◌, ap, Bool, true, false, not, ◌&&◌, ◌||◌, List, [], ◌∷◌, ◌++◌,
  Option, none, some, ltb, length, keep, All, if◌then◌else◌, arith, Bool-cases, inl, inr,
}
use mathlib.Core.List.{append_assoc, append-nil}
use rmlint.Common.Sign.{ℤ}
use rmlint.Cfg.{Bytes, RmCfg, RmPath}
use rmlint.File.Types.{RmFile, FileRef, Heap}
use rmlint.Replay.Checks.{check_options, check_file, check_path, longest_match, has_prefix}
use rmlint.Replay.Groups.{Parrot, cage_push_to_group, digest_of, is_part}

-- A file that differs from another in the preference and the index of its path at most.
abbrev pub IsMarked : RmFile → RmFile → Type 0
IsMarked a b = a ≡ record b { is_prefd = a.is_prefd; path_index = a.path_index }

longest_match-IsMarked :
    (is_prefd : Bool) (path : Bytes) (paths : List RmPath) (n : ℕ) (a b : RmFile)
    → IsMarked a b
    → IsMarked (longest_match is_prefd path paths n a).1 b
unfolding longest_match
longest_match-IsMarked is_prefd path [] n a b e = e
longest_match-IsMarked is_prefd path (p ∷ paths) n a b e =
    elim (Bool-cases (has_prefix path p.path && ltb n (length p.path))) [
      | inl better ↦
          rw (better, longest_match)
            (longest_match-IsMarked is_prefd path paths (length p.path)
              (record a { is_prefd = p.is_prefd || is_prefd; path_index = p.idx }) b
              (ap {A = RmFile}
                (λ f. record f { is_prefd = p.is_prefd || is_prefd; path_index = p.idx }) e))
      | inr worse ↦ rw (worse, longest_match) (longest_match-IsMarked is_prefd path paths n a b e)
    ]

longest_match_file :
    (is_prefd : Bool) (path : Bytes) (paths : List RmPath) (n : ℕ) (a b : RmFile)
    → (longest_match is_prefd path paths n a).0 ≡ (longest_match is_prefd path paths n b).0
unfolding longest_match
longest_match_file is_prefd path [] n a b = refl
longest_match_file is_prefd path (p ∷ paths) n a b =
    longest_match_file is_prefd path paths
      (if has_prefix path p.path && ltb n (length p.path) then length p.path else n) _ _

module _ (access : Bytes → ℤ → Bool) (cfg : RmCfg) (polly : Parrot) where
  abbrev pub passes : RmFile → Bool
  passes file = (check_file access cfg polly.disk_ids polly.is_prefd file.path file).0

  pub check_file-IsMarked :
      (file : RmFile)
      → IsMarked (check_file access cfg polly.disk_ids polly.is_prefd file.path file).1 file
  unfolding check_file check_path
  check_file-IsMarked file =
      elim (Bool-cases (check_options access cfg polly.disk_ids file.path file)) [
        | inl good ↦
            rw good (longest_match-IsMarked polly.is_prefd file.path cfg.paths 0 file file refl)
        | inr bad ↦ rw bad refl
      ]

  -- whatever the other options say
  path_marked :
      (c : Bool) (a b : RmFile)
      → (if c then check_path cfg polly.is_prefd b.path a else (false, a)).0
        ≡ (if c then check_path cfg polly.is_prefd b.path b else (false, b)).0
  unfolding check_path
  path_marked false a b = refl
  path_marked true a b = ap (ltb 0) (longest_match_file polly.is_prefd b.path cfg.paths 0 a b)

  passes_marked :
      (b : RmFile) (x : Bool) (i : ℕ)
      → passes (record b { is_prefd = x; path_index = i }) ≡ passes b
  unfolding check_file check_options
  passes_marked b x i =
      path_marked (check_options access cfg polly.disk_ids b.path b)
        (record b { is_prefd = x; path_index = i }) b

  pub passes-IsMarked : (a b : RmFile) → IsMarked a b → passes a ≡ passes b
  passes-IsMarked a b e = ap passes e ∙ passes_marked b a.is_prefd a.path_index

abbrev pub flatten {ℓ} : {A : Type ℓ} → List (List A) → List A
flatten [] = []
flatten (g ∷ groups) = g ++ flatten groups

pub flatten-append {ℓ} :
    {A : Type ℓ} (gs hs : List (List A)) → flatten (gs ++ hs) ≡ flatten gs ++ flatten hs
flatten-append [] hs = refl
flatten-append (g ∷ gs) hs =
    ap (λ l. g ++ l) (flatten-append gs hs) ∙ sym (append_assoc g (flatten gs) (flatten hs))

pub keep_one {ℓ} :
    {A : Type ℓ} (p : A → Bool) (x : A) (xs : List A)
    → keep p (x ∷ []) ++ keep p xs ≡ keep p (x ∷ xs)
keep_one p x xs = elim (Bool-cases (p x)) [ inl e ↦ rw e refl | inr e ↦ rw e refl ]

-- A group is not empty, and its files have one checksum.
abbrev pub IsGroup : Heap → List FileRef → Type 0
IsGroup h group = (0 < length group) × ((d : Bytes) × All (λ f. digest_of (h.file f) ≡ d) group)

pub cage_push_to_group-flatten :
    (gs : List (List FileRef)) (g : List FileRef)
    → (new : List (List FileRef)) × (cage_push_to_group gs g ≡ gs ++ new)
      × (flatten new ≡ g)
      × ((P : List FileRef → Type 0) → (0 < length g → P g) → All P new)
unfolding cage_push_to_group
cage_push_to_group-flatten gs [] = ([], sym (append-nil gs), refl, λ P h. tt)
cage_push_to_group-flatten gs (f ∷ g) =
    ((f ∷ g) ∷ [], refl, append-nil (f ∷ g), λ P h. (h (omega arith), tt))

pub IsMarked-trans : (a b c : RmFile) → IsMarked a b → IsMarked b c → IsMarked a c
IsMarked-trans a b c e k =
    e ∙ ap {A = RmFile} (λ t. record t { is_prefd = a.is_prefd; path_index = a.path_index }) k

pub others :
    (v : FileRef → Bytes) (d : Bytes) (last : Option Bytes) (g : List FileRef)
    → some d ≡ last
    → All (λ f. some (v f) ≡ last) g
    → All (λ f. v f ≡ d) g
others v d last [] e same = tt
others v d last (f ∷ g) e same = (cc (same.0), others v d last g e same.1)

pub some_not_none : {b : Bytes} → some b ≢ none
some_not_none e = cc

module _ (access : Bytes → ℤ → Bool) (cfg : RmCfg) (polly : Parrot) (h0 : Heap) where
  -- what passes the checks, and is not or is a part of a directory
  abbrev pub is_wanted : FileRef → Bool
  is_wanted f = passes access cfg polly (h0.file f) && not (is_part (h0.file f).lint_type)

  abbrev pub is_wanted_part : FileRef → Bool
  is_wanted_part f = passes access cfg polly (h0.file f) && is_part (h0.file f).lint_type
