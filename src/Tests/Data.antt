-- ===== src/Tests/Data.antt =====
-- GLib's functions as concrete programs: the comparison of strings without case, and a sort.
use mathlib.Core.List.{Permᴰ}
use mathlib.Core.List.Permᴰ
use mathlib.Core.List.Permᴰ.{nil, cons, swap, trans}
use rmlint.Common.{
  ◌≡◌, refl, false, List, [], ◌∷◌, ◌++◌, arith, if◌then◌else◌, take, length, All, Bool-cases, inl,
  inr,
}
use rmlint.Common.Sign.{ℤ, pos, negsuc, gt0, lt0, sign_diff, return_if_nonzero, IsOrder}
use rmlint.Cfg.{Bytes}
use rmlint.Glib.{Glib, IsGlib, Ordered, IsSort}
use rmlint.Preprocess.Compare.{to_lower}

unfoldable pub lex : Bytes → Bytes → ℤ
lex [] [] = pos 0
lex [] (b ∷ t) = negsuc 0
lex (a ∷ s) [] = pos 1
lex (a ∷ s) (b ∷ t) = return_if_nonzero (sign_diff (to_lower a) (to_lower b)) (lex s t)

lex-flip : (s t : Bytes) → gt0 (lex t s) ≡ lt0 (lex s t)
unfolding lex
lex-flip [] [] = refl
lex-flip [] (b ∷ t) = refl
lex-flip (a ∷ s) [] = refl
lex-flip (a ∷ s) (b ∷ t) = ground (arith, lex-flip s t)

lex_trans : (s t u : Bytes) → gt0 (lex s t) ≡ false → gt0 (lex t u) ≡ false → gt0 (lex s u) ≡ false
unfolding lex
lex_trans [] t [] h k = refl
lex_trans [] t (c ∷ u) h k = refl
lex_trans (a ∷ s) [] u h k = ground (arith, h)
lex_trans (a ∷ s) (b ∷ t) [] h k = ground (arith, k)
lex_trans (a ∷ s) (b ∷ t) (c ∷ u) h k = ground (arith, lex_trans s t u)

lex-prefix : (s t : Bytes) → lex (take (length s) s) (take (length s) (s ++ t)) ≡ pos 0
unfolding lex
lex-prefix [] t = refl
lex-prefix (a ∷ s) t = ground (arith, lex-prefix s t)

-- strcasecmp and strncasecmp of the C locale
abbrev pub glib : Glib
glib = record { strcasecmp = lex; strncasecmp = λ s t n. lex (take n s) (take n t) }

pub glib-IsGlib : IsGlib glib
glib-IsGlib = record {
  case_order = record { flip = lex-flip; trans = lex_trans };
  prefix_order = λ n. record {
    flip = λ s t. lex-flip (take n s) (take n t);
    trans = λ s t u. lex_trans (take n s) (take n t) (take n u);
  };
  prefix_only = lex-prefix;
}

module _ {ℓ} {A : Type ℓ} (c : A → A → ℤ) where
  unfoldable pub insert : A → List A → List A
  insert x [] = x ∷ []
  insert x (y ∷ ys) = let rest = insert x ys in if gt0 (c x y) then y ∷ rest else x ∷ y ∷ ys

  unfoldable pub insertion_sort : List A → List A
  unfolding insert
  insertion_sort [] = []
  insertion_sort (x ∷ xs) = insert x (insertion_sort xs)

  insert-perm : (x : A) (xs : List A) → Permᴰ (insert x xs) (x ∷ xs)
  unfolding insert
  insert-perm x [] = cons refl nil
  insert-perm x (y ∷ ys) = elim (Bool-cases (gt0 (c x y))) [
    | inl after ↦ rw after (trans (cons refl (insert-perm x ys)) (swap refl refl))
    | inr before ↦ rw before (Permᴰ.refl (x ∷ y ∷ ys))
  ]

  sort-perm : (xs : List A) → Permᴰ (insertion_sort xs) xs
  unfolding insertion_sort
  sort-perm [] = nil
  sort-perm (x ∷ xs) = trans (insert-perm x (insertion_sort xs)) (cons refl (sort-perm xs))

  abbrev NotAfter : A → A → Type 0
  NotAfter x y = gt0 (c x y) ≡ false

  All-insert :
      (z x : A) (xs : List A) → NotAfter z x → All (NotAfter z) xs → All (NotAfter z) (insert x xs)
  unfolding insert
  All-insert z x [] h k = (h, k)
  All-insert z x (y ∷ ys) h k = elim (Bool-cases (gt0 (c x y))) [
    | inl after ↦ rw after (k.0, All-insert z x ys h k.1)
    | inr before ↦ rw before (h, k)
  ]

  All-trans :
      IsOrder c → (z x : A) (xs : List A) → NotAfter z x → All (NotAfter x) xs → All (NotAfter z) xs
  All-trans o z x [] h k = k
  All-trans o z x (y ∷ ys) h k = (o.trans z x y h k.0, All-trans o z x ys h k.1)

  Ordered-insert : IsOrder c → (x : A) (xs : List A) → Ordered c xs → Ordered c (insert x xs)
  unfolding insert
  Ordered-insert o x [] h = (h, h)
  Ordered-insert o x (y ∷ ys) h = elim (Bool-cases (gt0 (c x y))) [
    | inl after ↦
        rw after (All-insert y x ys (ground (arith, o.flip x y)) h.0, Ordered-insert o x ys h.1)
    | inr before ↦ rw before ((before, All-trans o x y ys before h.0), h)
  ]

  sort-Ordered : IsOrder c → (xs : List A) → Ordered c (insertion_sort xs)
  unfolding insertion_sort
  sort-Ordered o [] = tt
  sort-Ordered o (x ∷ xs) = Ordered-insert o x (insertion_sort xs) (sort-Ordered o xs)

pub insertion_sort-IsSort {ℓ} : {A : Type ℓ} → IsSort {A = A} insertion_sort
insertion_sort-IsSort = record {
  perm = λ c xs. ∣ sort-perm c xs ∣₁;
  ordered = λ c xs o. sort-Ordered c o xs;
}
