-- ===== src/Common/Sign.antt =====
-- The `int` that a C comparison function returns, of which callers read only the sign, and the
-- macros of lib/utilities.h on it. `negsuc n` is -(n + 1).
use rmlint.Common.{
  ℕ, zero, suc, ◌+◌, ◌-◌, ◌≡◌, refl, Bool, true, false, not, ◌&&◌, arith, ltb, if◌then◌else◌,
}

pub data ℤ : Type 0 where
  pos : ℕ → ℤ
  negsuc : ℕ → ℤ

abbrev pub pos_part : ℤ → ℕ
pos_part (pos n) = n
pos_part (negsuc n) = 0

abbrev pub neg_part : ℤ → ℕ
neg_part (pos n) = 0
neg_part (negsuc n) = suc n

-- x < y, on integers that may be negative
abbrev pub ltb_ℤ : ℤ → ℤ → Bool
ltb_ℤ a b = ltb (pos_part a + neg_part b) (pos_part b + neg_part a)

-- x + y
infixl 65 ◌+ℤ◌
abbrev pub ◌+ℤ◌ : ℤ → ℤ → ℤ
x +ℤ y =
    let up = pos_part x + pos_part y in
    let down = neg_part x + neg_part y in
    if ltb up down then negsuc (down - up - 1) else pos (up - down)

abbrev pub neg : ℤ → ℤ
neg (pos zero) = pos zero
neg (pos (suc n)) = negsuc n
neg (negsuc n) = pos (suc n)

abbrev pub gt0 : ℤ → Bool
gt0 (pos zero) = false
gt0 (pos (suc n)) = true
gt0 (negsuc n) = false

abbrev pub lt0 : ℤ → Bool
lt0 (pos n) = false
lt0 (negsuc n) = true

abbrev pub is_zero : ℤ → Bool
is_zero z = not (gt0 z) && not (lt0 z)

-- SIGN_DIFF(X, Y) for unsigned values
abbrev pub sign_diff : ℕ → ℕ → ℤ
sign_diff x y = if ltb y x then pos 1 else if ltb x y then negsuc 0 else pos 0

-- SIGN_DIFF(X, Y) for signed values
abbrev pub sign_diff_ℤ : ℤ → ℤ → ℤ
sign_diff_ℤ x y = if ltb_ℤ y x then pos 1 else if ltb_ℤ x y then negsuc 0 else pos 0

-- SIGN_DIFF(X, Y) for bit fields
abbrev pub sign_diff_bool : Bool → Bool → ℤ
sign_diff_bool true true = pos 0
sign_diff_bool true false = pos 1
sign_diff_bool false true = negsuc 0
sign_diff_bool false false = pos 0

-- FLOAT_SIGN_DIFF(X, Y, tol): x - y > tol, else y - x > tol. The times are whole nanoseconds.
abbrev pub float_sign_diff : ℤ → ℤ → ℕ → ℤ
float_sign_diff x y tol =
    if ltb (pos_part y + neg_part x + tol) (pos_part x + neg_part y)
    then pos 1
    else if ltb (pos_part x + neg_part y + tol) (pos_part y + neg_part x)
    then negsuc 0
    else pos 0

-- RETURN_IF_NONZERO(x); return y
abbrev pub return_if_nonzero : ℤ → ℤ → ℤ
return_if_nonzero (pos zero) y = y
return_if_nonzero (pos (suc n)) y = pos (suc n)
return_if_nonzero (negsuc n) y = negsuc n

-- sign * x, where sign is -1 for an upper-case criterion
abbrev pub signed : Bool → ℤ → ℤ
signed true x = neg x
signed false x = x

-- What a comparison function owes to a sort: swapped arguments swap the sign, and "not after" is
-- transitive. (Total preorder.)
pub record IsOrder {ℓ} {A : Type ℓ} (c : A → A → ℤ) : Type ℓ where
  pub flip : (a b : A) → gt0 (c b a) ≡ lt0 (c a b)
  pub trans : (a b d : A) → gt0 (c a b) ≡ false → gt0 (c b d) ≡ false → gt0 (c a d) ≡ false

module _ {ℓ} {A : Type ℓ} where
  pub IsOrder-constant : IsOrder {A = A} (λ a b. pos 0)
  IsOrder-constant = record { flip = λ a b. refl; trans = λ a b d h k. refl }

  pub IsOrder-sign_diff : (f : A → ℕ) → IsOrder (λ a b. sign_diff (f a) (f b))
  IsOrder-sign_diff f = record { flip = λ a b. ground arith; trans = λ a b d h k. ground arith }

  pub IsOrder-sign_diff_ℤ : (f : A → ℤ) → IsOrder (λ a b. sign_diff_ℤ (f a) (f b))
  IsOrder-sign_diff_ℤ f = record { flip = λ a b. ground arith; trans = λ a b d h k. ground arith }

  pub IsOrder-sign_diff_bool : (f : A → Bool) → IsOrder (λ a b. sign_diff_bool (f a) (f b))
  IsOrder-sign_diff_bool f = record {
    flip = λ a b. ground arith;
    trans = λ a b d h k. ground arith;
  }

  pub IsOrder-on {κ} :
      {B : Type κ} {c : B → B → ℤ} (f : A → B) → IsOrder c → IsOrder (λ a b. c (f a) (f b))
  IsOrder-on f o = record {
    flip = λ a b. o.flip (f a) (f b);
    trans = λ a b d. o.trans (f a) (f b) (f d);
  }

module _ {ℓ} {A : Type ℓ} {c : A → A → ℤ} (o : IsOrder c) where
  pub IsOrder-flipped : IsOrder (λ a b. c b a)
  IsOrder-flipped = record { flip = λ a b. o.flip b a; trans = λ a b d h k. o.trans d b a k h }

  pub IsOrder-neg : IsOrder (λ a b. neg (c a b))
  IsOrder-neg = record {
    flip = λ a b. ground (arith, o.flip a b, o.flip b a);
    trans = λ a b d h k. ground (arith, o.flip a b, o.flip b d, o.flip a d, o.trans d b a);
  }

  pub IsOrder-signed : (up : Bool) → IsOrder (λ a b. signed up (c a b))
  IsOrder-signed true = IsOrder-neg
  IsOrder-signed false = o

-- The test of two comparisons in turn is again a total preorder.
module _ {ℓ} {A : Type ℓ} {c e : A → A → ℤ} (o : IsOrder c) (q : IsOrder e) where
  pub IsOrder-return_if_nonzero : IsOrder (λ a b. return_if_nonzero (c a b) (e a b))
  IsOrder-return_if_nonzero = record {
    flip = λ a b. ground (arith, o.flip a b, o.flip b a, q.flip a b);
    trans = λ a b d h k. ground (
      arith,
      o.flip a b,
      o.flip b a,
      o.flip b d,
      o.flip d b,
      o.flip a d,
      o.flip d a,
      o.trans a b d,
      o.trans b d a,
      o.trans d a b,
      q.trans a b d,
    );
  }
