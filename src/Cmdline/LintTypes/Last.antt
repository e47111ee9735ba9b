-- ===== src/Cmdline/LintTypes/Last.antt =====
-- Which lint types a run looks for: the last mention of a type decides.
use rmlint.Common.{
  ℕ, ◌≡◌, refl, ◌∙◌, ap, Bool, true, false, ◌||◌, List, [], ◌∷◌, Option, none, some, ◌==◌, any,
  if◌then◌else◌, arith, Option-cases, inl, inr,
}
use rmlint.Cfg.{Bytes, RmCfg}
use rmlint.Cmdline.LintTypes.{
  LintFlag, badids, badlinks, emptydirs, emptyfiles, nonstripped, duplicates, merged_dirs,
  flag_number, get_flag, set_flag, set_flags, all_flags, option_of, find_lint_types_sep, is_enabled,
  apply_lint_type, apply_lint_types, parse_lint_types, parse_merge_directories,
  parse_partial_hidden,
}

get_flag-set_flag :
    (f g : LintFlag) (v : Bool) (cfg : RmCfg)
    → get_flag f (set_flag g v cfg) ≡ (if flag_number g == flag_number f then v else get_flag f cfg)
unfolding get_flag set_flag
get_flag-set_flag badids badids v cfg = refl
get_flag-set_flag badids badlinks v cfg = refl
get_flag-set_flag badids emptydirs v cfg = refl
get_flag-set_flag badids emptyfiles v cfg = refl
get_flag-set_flag badids nonstripped v cfg = refl
get_flag-set_flag badids duplicates v cfg = refl
get_flag-set_flag badids merged_dirs v cfg = refl
get_flag-set_flag badlinks badids v cfg = refl
get_flag-set_flag badlinks badlinks v cfg = refl
get_flag-set_flag badlinks emptydirs v cfg = refl
get_flag-set_flag badlinks emptyfiles v cfg = refl
get_flag-set_flag badlinks nonstripped v cfg = refl
get_flag-set_flag badlinks duplicates v cfg = refl
get_flag-set_flag badlinks merged_dirs v cfg = refl
get_flag-set_flag emptydirs badids v cfg = refl
get_flag-set_flag emptydirs badlinks v cfg = refl
get_flag-set_flag emptydirs emptydirs v cfg = refl
get_flag-set_flag emptydirs emptyfiles v cfg = refl
get_flag-set_flag emptydirs nonstripped v cfg = refl
get_flag-set_flag emptydirs duplicates v cfg = refl
get_flag-set_flag emptydirs merged_dirs v cfg = refl
get_flag-set_flag emptyfiles badids v cfg = refl
get_flag-set_flag emptyfiles badlinks v cfg = refl
get_flag-set_flag emptyfiles emptydirs v cfg = refl
get_flag-set_flag emptyfiles emptyfiles v cfg = refl
get_flag-set_flag emptyfiles nonstripped v cfg = refl
get_flag-set_flag emptyfiles duplicates v cfg = refl
get_flag-set_flag emptyfiles merged_dirs v cfg = refl
get_flag-set_flag nonstripped badids v cfg = refl
get_flag-set_flag nonstripped badlinks v cfg = refl
get_flag-set_flag nonstripped emptydirs v cfg = refl
get_flag-set_flag nonstripped emptyfiles v cfg = refl
get_flag-set_flag nonstripped nonstripped v cfg = refl
get_flag-set_flag nonstripped duplicates v cfg = refl
get_flag-set_flag nonstripped merged_dirs v cfg = refl
get_flag-set_flag duplicates badids v cfg = refl
get_flag-set_flag duplicates badlinks v cfg = refl
get_flag-set_flag duplicates emptydirs v cfg = refl
get_flag-set_flag duplicates emptyfiles v cfg = refl
get_flag-set_flag duplicates nonstripped v cfg = refl
get_flag-set_flag duplicates duplicates v cfg = refl
get_flag-set_flag duplicates merged_dirs v cfg = refl
get_flag-set_flag merged_dirs badids v cfg = refl
get_flag-set_flag merged_dirs badlinks v cfg = refl
get_flag-set_flag merged_dirs emptydirs v cfg = refl
get_flag-set_flag merged_dirs emptyfiles v cfg = refl
get_flag-set_flag merged_dirs nonstripped v cfg = refl
get_flag-set_flag merged_dirs duplicates v cfg = refl
get_flag-set_flag merged_dirs merged_dirs v cfg = refl

-- is the flag one of these?
abbrev pub includes : LintFlag → List LintFlag → Bool
includes f enable = any (λ g. flag_number g == flag_number f) enable

twice : (c d v w : Bool) → (if c then v else if d then v else w) ≡ (if d || c then v else w)
twice c d v w = ground arith

get_flag-set_flags :
    (f : LintFlag) (enable : List LintFlag) (v : Bool) (cfg : RmCfg)
    → get_flag f (set_flags enable v cfg) ≡ (if includes f enable then v else get_flag f cfg)
unfolding set_flags
get_flag-set_flags f [] v cfg = refl
get_flag-set_flags f (g ∷ enable) v cfg =
    get_flag-set_flags f enable v (set_flag g v cfg)
    ∙ ap (λ b. if includes f enable then v else b) (get_flag-set_flag f g v cfg)
    ∙ twice (includes f enable) (flag_number g == flag_number f) v (get_flag f cfg)

-- The lint type, without its sign, is in the table and stands for this flag.
abbrev pub mentions : LintFlag → Bytes → Bool
mentions f lint_type = elim (option_of lint_type) [ none ↦ false | some enable ↦ includes f enable ]

get_flag-apply_lint_type :
    (f : LintFlag) (t : Bytes) (cfg : RmCfg)
    → get_flag f (apply_lint_type t cfg) ≡ (if mentions f t then is_enabled t else get_flag f cfg)
unfolding apply_lint_type
get_flag-apply_lint_type f t cfg = elim (Option-cases (option_of t)) [
  | inl unknown ↦ rw (apply_lint_type, mentions, unknown) refl
  | inr (enable, known) ↦
      rw (apply_lint_type, mentions, known) (get_flag-set_flags f enable (is_enabled t) cfg)
]

-- the last element that passes the test
abbrev pub find_last {ℓ} : {A : Type ℓ} → (A → Bool) → List A → Option A
find_last p [] = none
find_last p (x ∷ xs) = elim (find_last p xs) [
  | some y ↦ some y
  | none ↦ if p x then some x else none
]

-- what the last mention says
abbrev pub said : Option Bytes → Bool → Bool
said none otherwise = otherwise
said (some t) otherwise = is_enabled t

said_here :
    (last : Option Bytes) (here : Bool) (t : Bytes) (v : Bool)
    → said last (if here then is_enabled t else v)
      ≡ said (elim last [ some y ↦ some y | none ↦ if here then some t else none ]) v
said_here (some y) here t v = refl
said_here none true t v = refl
said_here none false t v = refl

get_flag-apply_lint_types :
    (f : LintFlag) (types : List Bytes) (cfg : RmCfg)
    → get_flag f (apply_lint_types types cfg) ≡ said (find_last (mentions f) types) (get_flag f cfg)
unfolding apply_lint_types
get_flag-apply_lint_types f [] cfg = refl
get_flag-apply_lint_types f (t ∷ types) cfg =
    get_flag-apply_lint_types f types (apply_lint_type t cfg)
    ∙ ap (said (find_last (mentions f) types)) (get_flag-apply_lint_type f t cfg)
    ∙ said_here (find_last (mentions f) types) (mentions f t) t (get_flag f cfg)

everything : (f : LintFlag) (b : Bool) → (if includes f all_flags then false else b) ≡ false
everything badids b = refl
everything badlinks b = refl
everything emptydirs b = refl
everything emptyfiles b = refl
everything nonstripped b = refl
everything duplicates b = refl
everything merged_dirs b = refl

cleared : (f : LintFlag) (cfg : RmCfg) → get_flag f (set_flags all_flags false cfg) ≡ false
cleared f cfg = get_flag-set_flags f all_flags false cfg ∙ everything f (get_flag f cfg)

-- The directory options that go with merge_directories leave the lint types as they are.
get_flag-merge :
    (f : LintFlag) (cfg : RmCfg)
    → get_flag f (if cfg.merge_directories then parse_merge_directories cfg else cfg)
      ≡ get_flag f cfg
unfolding get_flag parse_merge_directories parse_partial_hidden
get_flag-merge badids cfg = ground arith
get_flag-merge badlinks cfg = ground arith
get_flag-merge emptydirs cfg = ground arith
get_flag-merge emptyfiles cfg = ground arith
get_flag-merge nonstripped cfg = ground arith
get_flag-merge duplicates cfg = ground arith
get_flag-merge merged_dirs cfg = ground arith

as_elim : (o : Option Bytes) → said o false ≡ (elim o [ none ↦ false | some t ↦ is_enabled t ])
as_elim none = refl
as_elim (some t) = refl

-- What a run looks for is decided by the last mention of a lint type, by its sign, however the options
-- stood before; a lint type that is not mentioned is not looked for. Unknown names count for nothing.
pub parse_lint_types-last :
    (strsplit : Bytes → ℕ → List Bytes) (lint_string : Bytes) (cfg : RmCfg) (f : LintFlag)
    → (let sep = find_lint_types_sep lint_string in
        let types = strsplit lint_string (if sep == 0 then b',' else sep) in
        get_flag f (parse_lint_types strsplit lint_string cfg)
        ≡ (elim (find_last (mentions f) types) [ none ↦ false | some t ↦ is_enabled t ]))
unfolding parse_lint_types
parse_lint_types-last strsplit lint_string cfg f =
    let sep = find_lint_types_sep lint_string in
    let types = strsplit lint_string (if sep == 0 then b',' else sep) in
    let start : RmCfg = set_flags all_flags false cfg in
    get_flag-merge f (apply_lint_types types start)
    ∙ get_flag-apply_lint_types f types start
    ∙ ap (said (find_last (mentions f) types)) (cleared f cfg)
    ∙ as_elim (find_last (mentions f) types)
