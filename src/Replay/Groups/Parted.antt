-- ===== src/Replay/Groups/Parted.antt =====
-- Places of groups while results are put together (rm_parrot_merge_identical_groups): which group with a
-- checksum is the last one, and what stands between two of one type.
use rmlint.Common.{
  ℕ, zero, suc, ◌≤◌, ◌<◌, ◌≡◌, ◌≢◌, ◌⊎◌, refl, sym, ◌∙◌, ap, true, false, List, [], ◌∷◌, ◌++◌, some,
  length, get_elem?, is_empty, arith, inl, inr,
}
use mathlib.Core.Path.{subst}
use rmlint.Cfg.{Bytes}
use rmlint.File.Types.{FileRef, Heap}
use rmlint.Utilities.Queues.{queue_push_tail_queue}
use rmlint.Replay.Groups.{Merging, digest_of, type_of, lookup_group, push_tail_at}
use rmlint.Replay.Groups.Entries.{push_tail_at-get_elem?, get_elem?-append}

-- The checksum of a group's first file.
abbrev pub head_digest : Heap → List FileRef → Bytes
head_digest h [] = []
head_digest h (f ∷ group) = digest_of (h.file f)

-- The group at a place.
abbrev pub At : List (List FileRef) → ℕ → List FileRef → Type 0
At gs k g = get_elem? gs k ≡ some g

-- Between two places stands a group with this checksum and another type.
abbrev pub PartedAt : Heap → List (List FileRef) → ℕ → ℕ → List FileRef → Type 0
PartedAt h gs j k g =
    (l : ℕ) × (e : List FileRef) × (j < l)
    × (l < k)
    × At gs l e
    × (head_digest h e ≡ head_digest h g)
    × (type_of h e ≢ type_of h g)

-- The table knows the last group with each checksum.
abbrev pub Known : Heap → Merging → ℕ → List FileRef → Type 0
Known h m k g =
    (l : ℕ) × (e : List FileRef) × (lookup_group (head_digest h g) m.table ≡ some l)
    × (k ≤ l)
    × At m.passed l e
    × (head_digest h e ≡ head_digest h g)

pub record IsSeparated (h : Heap) (m : Merging) : Type 0 where
  pub full : (k : ℕ) (g : List FileRef) → At m.passed k g → 0 < length g
  pub known :
      (k : ℕ) (g : List FileRef)
      → At m.passed k g
      → is_empty (head_digest h g) ≡ false
      → Known h m k g
  pub apart :
      (j k : ℕ) (g g' : List FileRef)
      → j < k
      → At m.passed j g
      → At m.passed k g'
      → is_empty (head_digest h g) ≡ false
      → head_digest h g ≡ head_digest h g'
      → type_of h g ≡ type_of h g'
      → PartedAt h m.passed j k g

pub bounded : (gs : List (List FileRef)) (k : ℕ) (g : List FileRef) → At gs k g → k < length gs
bounded [] k g there = cc
bounded (x ∷ gs) zero g there = omega arith
bounded (x ∷ gs) (suc k) g there = omega (arith, bounded gs k g there)

pub append_back :
    (gs : List (List FileRef)) (x : List FileRef) (k : ℕ) (g : List FileRef)
    → At (gs ++ (x ∷ [])) k g
    → At gs k g ⊎ ((k ≡ length gs) × (x ≡ g))
append_back [] x zero g there = inr (refl, cc)
append_back [] x (suc k) g there = cc
append_back (y ∷ gs) x zero g there = inl there
append_back (y ∷ gs) x (suc k) g there = elim (append_back gs x k g there) [
  | inl old ↦ inl old
  | inr (last, same) ↦ inr (ap suc last, same)
]

push_back :
    (i k : ℕ) (x g : List FileRef) (gs : List (List FileRef))
    → At (push_tail_at i x gs) k g
    → (g0 : List FileRef) × At gs k g0 × ((g0 ≡ g) ⊎ (g0 ++ x ≡ g))
unfolding push_tail_at queue_push_tail_queue
push_back i k x g [] there = cc
push_back zero zero x g (y ∷ gs) there = (y, refl, inr cc)
push_back zero (suc k) x g (y ∷ gs) there = (g, there, inl refl)
push_back (suc i) zero x g (y ∷ gs) there = (g, there, inl refl)
push_back (suc i) (suc k) x g (y ∷ gs) there = push_back i k x g gs there

-- A group that others are put behind has the same head.
record HasHeadOf (h : Heap) (g e : List FileRef) : Type 0 where
  pub digest : head_digest h g ≡ head_digest h e
  pub type : type_of h g ≡ type_of h e
  pub filled : 0 < length g

longer : (h : Heap) (g x : List FileRef) → 0 < length g → HasHeadOf h (g ++ x) g
longer h [] x some_ = absurd (omega arith)
longer h (f ∷ g) x some_ = record { digest = refl; type = refl; filled = omega arith }

same_head :
    (h : Heap) (g0 g x : List FileRef) → 0 < length g0 → (g0 ≡ g) ⊎ (g0 ++ x ≡ g) → HasHeadOf h g g0
same_head h g0 g x some_ (inl same) =
    subst (λ e. HasHeadOf h e g0) same (record { digest = refl; type = refl; filled = some_ })
same_head h g0 g x some_ (inr same) = subst (λ e. HasHeadOf h e g0) same (longer h g0 x some_)

-- Where a group is put behind another one, every place still has a group with the head that it had.
push_keeps :
    (h : Heap) (i k : ℕ) (x e : List FileRef) (gs : List (List FileRef))
    → At gs k e
    → 0 < length e
    → (e' : List FileRef) × At (push_tail_at i x gs) k e' × HasHeadOf h e' e
push_keeps h i k x e gs at some_ = elim (push_tail_at-get_elem? i k x e gs at) [
  | inl still ↦ (e, still, record { digest = refl; type = refl; filled = some_ })
  | inr (here, more) ↦ (e ++ x, more, longer h e x some_)
]

pub push-IsSeparated :
    (h : Heap) (i : ℕ) (x : List FileRef) (m : Merging)
    → IsSeparated h m
    → IsSeparated h (record m { passed = push_tail_at i x m.passed })
push-IsSeparated h i x m s = record {
  full = λ k g at. (old k g at).2.filled;
  known = λ k g at filled.
      let (g0, at0, head) = old k g at in
      let (l, e, found, le, there, digest) =
        s.known k g0 at0 (ap is_empty (sym head.digest) ∙ filled) in
      let (e', there', head') = push_keeps h i l x e m.passed there (s.full l e there) in
      (
        l,
        e',
        ap (λ d. lookup_group d m.table) head.digest ∙ found,
        le,
        there',
        head'.digest ∙ digest ∙ sym head.digest,
      );
  apart = λ j k g g' lt at at' filled same type.
      let (g0, at0, head) = old j g at in
      let (g1, at1, head1) = old k g' at' in
      let (l, e, jl, lk, there, digest, other) =
        s.apart j k g0 g1 lt at0 at1 (ap is_empty (sym head.digest) ∙ filled)
          (sym head.digest ∙ same ∙ head1.digest) (sym head.type ∙ type ∙ head1.type) in
      let (e', there', head') = push_keeps h i l x e m.passed there (s.full l e there) in
      (
        l,
        e',
        jl,
        lk,
        there',
        head'.digest ∙ digest ∙ sym head.digest,
        λ eq. other (sym head'.type ∙ eq ∙ head.type),
      );
}
  where
    old :
        (k : ℕ) (g : List FileRef)
        → At (push_tail_at i x m.passed) k g
        → (g0 : List FileRef) × At m.passed k g0 × HasHeadOf h g g0
    old k g at =
        let (g0, at0, both) = push_back i k x g m.passed at in
        (g0, at0, same_head h g0 g x (s.full k g0 at0) both)

pub between_append :
    (h : Heap) (gs : List (List FileRef)) (x : List FileRef) (j k : ℕ) (g : List FileRef)
    → PartedAt h gs j k g
    → PartedAt h (gs ++ (x ∷ [])) j k g
between_append h gs x j k g (l, e, jl, lk, there, same, other) =
    (l, e, jl, lk, get_elem?-append gs (x ∷ []) l e there, same, other)

-- A group without checksum is passed by.
pub skip-IsSeparated :
    (h : Heap) (x : List FileRef) (m : Merging)
    → 0 < length x
    → is_empty (head_digest h x) ≡ true
    → IsSeparated h m
    → IsSeparated h (record m { passed = m.passed ++ (x ∷ []) })
skip-IsSeparated h x m some_ empty s = record {
  full = λ k g at. elim (append_back m.passed x k g at) [
    | inl old ↦ s.full k g old
    | inr (last, same) ↦ subst (λ e. 0 < length e) same some_
  ];
  known = λ k g at filled. elim (append_back m.passed x k g at) [
    | inl old ↦
        let (l, e, found, le, there, digest) = s.known k g old filled in
        (l, e, found, le, get_elem?-append m.passed (x ∷ []) l e there, digest)
    | inr (last, same) ↦
        absurd (differ (sym empty ∙ ap (λ e. is_empty (head_digest h e)) same ∙ filled))
  ];
  apart = λ j k g g' lt at at' filled same type. elim (append_back m.passed x k g' at') [
    | inl new ↦ elim (append_back m.passed x j g at) [
      | inl old ↦ between_append h m.passed x j k g (s.apart j k g g' lt old new filled same type)
      | inr (last, eq) ↦ absurd (omega (arith, last, lt, bounded m.passed k g' new))
    ]
    | inr (last, eq) ↦ absurd (
        differ
          (sym empty ∙ ap (λ e. is_empty (head_digest h e)) eq ∙ ap is_empty (sym same) ∙ filled))
  ];
}
  where
    differ : true ≢ false
    differ e = cc
