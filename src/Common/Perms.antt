-- ===== src/Common/Perms.antt =====
-- Boolean and numeric summaries of a list do not depend on its order.
use mathlib.Core.Logic.{∥∥₁_elim}
use mathlib.Core.List.{Perm, Permᴰ}
use mathlib.Core.List.Permᴰ.{nil, cons, swap, trans}
use native.Mathlib.Nat.{ℕ_set}
use rmlint.Common.{
  ℕ, ◌≡◌, refl, sym, ap, ◌∙◌, Bool, true, List, [], ◌∷◌, arith, length, count, sum_by, all, any,
  bit, not, ltb,
}

module _ {ℓ} {A : Type ℓ} (f : A → ℕ) where
  sum_by-permᴰ : {xs ys : List A} → Permᴰ xs ys → sum_by f xs ≡ sum_by f ys
  sum_by-permᴰ nil = refl
  sum_by-permᴰ (cons e p) = grind (arith, sum_by-permᴰ p)
  sum_by-permᴰ (swap e e') = ground arith
  sum_by-permᴰ (trans p q) = sum_by-permᴰ p ∙ sum_by-permᴰ q

  pub sum_by-perm : {xs ys : List A} → Perm xs ys → sum_by f xs ≡ sum_by f ys
  sum_by-perm {xs} {ys} p = ∥∥₁_elim p (ℕ_set (sum_by f xs) (sum_by f ys)) sum_by-permᴰ

module _ {ℓ} {A : Type ℓ} where
  count-sum_by : (p : A → Bool) (xs : List A) → count p xs ≡ sum_by (λ x. bit (p x)) xs
  count-sum_by p [] = refl
  count-sum_by p (x ∷ xs) = omega (arith, count-sum_by p xs)

  length-sum_by : (xs : List A) → length xs ≡ sum_by (λ x. 1) xs
  length-sum_by [] = refl
  length-sum_by (x ∷ xs) = omega (arith, length-sum_by xs)

  pub count-perm : (p : A → Bool) {xs ys : List A} → Perm xs ys → count p xs ≡ count p ys
  count-perm p {xs} {ys} e =
      omega (arith, count-sum_by p xs, count-sum_by p ys, sum_by-perm (λ x. bit (p x)) e)

  pub length-perm : {xs ys : List A} → Perm xs ys → length xs ≡ length ys
  length-perm {xs} {ys} e =
      omega (arith, length-sum_by xs, length-sum_by ys, sum_by-perm (λ (x : A). 1) e)

  -- A test holds of all elements exactly when the count of those that fail it is 0.
  pub all-of_count : (p : A → Bool) (xs : List A) → count (λ x. not (p x)) xs ≡ 0 → all p xs ≡ true
  all-of_count p [] h = refl
  all-of_count p (x ∷ xs) h = ground (arith, all-of_count p xs)

  pub count_of_all : (p : A → Bool) (xs : List A) → all p xs ≡ true → count (λ x. not (p x)) xs ≡ 0
  count_of_all p [] h = refl
  count_of_all p (x ∷ xs) h = ground (arith, count_of_all p xs)

  pub all-perm : (p : A → Bool) {xs ys : List A} → Perm xs ys → all p ys ≡ true → all p xs ≡ true
  all-perm p {xs} {ys} e h = all-of_count p xs (count-perm (λ x. not (p x)) e ∙ count_of_all p ys h)

  any-count : (p : A → Bool) (xs : List A) → any p xs ≡ ltb 0 (count p xs)
  any-count p [] = refl
  any-count p (x ∷ xs) = ground (arith, any-count p xs)

  pub any-perm : (p : A → Bool) {xs ys : List A} → Perm xs ys → any p xs ≡ any p ys
  any-perm p {xs} {ys} e = any-count p xs ∙ ap (ltb 0) (count-perm p e) ∙ sym (any-count p ys)
