-- ===== src/Checksum/Cumulative/Order.antt =====
-- The order in which the cumulative digest takes its inputs.
use mathlib.Core.Logic.{∥∥₁_elim}
use mathlib.Core.List.{Perm, Permᴰ}
use mathlib.Core.List.Perm
use mathlib.Core.Path.{ap₂}
use rmlint.Common.Perms.{length-perm, all-perm}
use mathlib.Core.List.Permᴰ.{nil, cons, swap, trans}
use rmlint.Common.{
  ℕ, zero, suc, ◌+◌, ◌/◌, ◌%◌, ◌≡◌, refl, sym, ap, ◌∙◌, List, [], ◌∷◌, none, some, ◌==◌,
  if◌then◌else◌, length, all, Bool, true, arith,
}
use rmlint.Cfg.{Bytes}
use rmlint.Checksum.Cumulative.{
  xor_bits, cumulative_bytes, zeros, xor_at, absorb, cumulative_update, cumulative_updates,
}

xor_bits_exchange : (w x a b : ℕ) → xor_bits w (xor_bits w x a) b ≡ xor_bits w (xor_bits w x b) a
unfolding xor_bits
xor_bits_exchange zero x a b = refl
xor_bits_exchange (suc w) x a b =
    let half = λ (c : ℕ). xor_bits w (x / 2) (c / 2) in
    let high : (c : ℕ) → xor_bits (suc w) x c / 2 ≡ half c = λ c. omega arith in
    let low : (c : ℕ) → xor_bits (suc w) x c % 2 ≡ (x + c) % 2 = λ c. omega arith in
    omega (
      arith,
      ap (λ y. xor_bits w y (b / 2)) (high a),
      ap (λ y. xor_bits w y (a / 2)) (high b),
      low a,
      low b,
      xor_bits_exchange w (x / 2) (a / 2) (b / 2),
    )

xor_at_exchange : (i j a b : ℕ) (s : Bytes) → xor_at i a (xor_at j b s) ≡ xor_at j b (xor_at i a s)
unfolding xor_at
xor_at_exchange i j a b [] = refl
xor_at_exchange zero zero a b (x ∷ s) = ap (λ y. y ∷ s) (xor_bits_exchange 8 x b a)
xor_at_exchange zero (suc j) a b (x ∷ s) = refl
xor_at_exchange (suc i) zero a b (x ∷ s) = refl
xor_at_exchange (suc i) (suc j) a b (x ∷ s) = ap (λ t. x ∷ t) (xor_at_exchange i j a b s)

length-xor_at : (i a : ℕ) (s : Bytes) → length (xor_at i a s) ≡ length s
unfolding xor_at
length-xor_at i a [] = refl
length-xor_at zero a (x ∷ s) = refl
length-xor_at (suc i) a (x ∷ s) = ap suc (length-xor_at i a s)

length-absorb : (n p : ℕ) (input s : Bytes) → length (absorb n p input s) ≡ length s
unfolding absorb
length-absorb n p [] s = refl
length-absorb n p (c ∷ input) s =
    length-absorb n (if p + 1 == n then 0 else p + 1) input (xor_at p c s) ∙ length-xor_at p c s

absorb-xor_at :
    (n p i c : ℕ) (input s : Bytes)
    → absorb n p input (xor_at i c s) ≡ xor_at i c (absorb n p input s)
unfolding absorb
absorb-xor_at n p i c [] s = refl
absorb-xor_at n p i c (b ∷ input) s =
    let next = if p + 1 == n then 0 else p + 1 in
    ap (absorb n next input) (xor_at_exchange p i b c s)
    ∙ absorb-xor_at n next i c input (xor_at p b s)

absorb_exchange :
    (n p q : ℕ) (a b s : Bytes) → absorb n p a (absorb n q b s) ≡ absorb n q b (absorb n p a s)
unfolding absorb
absorb_exchange n p q [] b s = refl
absorb_exchange n p q (c ∷ a) b s =
    ap (absorb n (if p + 1 == n then 0 else p + 1) a) (sym (absorb-xor_at n q p c b s))
    ∙ absorb_exchange n (if p + 1 == n then 0 else p + 1) q a b (xor_at p c s)

update_exchange :
    (a b s : Bytes)
    → cumulative_update (some (cumulative_update (some s) a)) b
      ≡ cumulative_update (some (cumulative_update (some s) b)) a
unfolding cumulative_update
update_exchange a b s =
    ap (λ n. absorb n 0 b (absorb (length s) 0 a s)) (length-absorb (length s) 0 a s)
    ∙ absorb_exchange (length s) 0 0 b a s
    ∙ ap (λ n. absorb n 0 a (absorb (length s) 0 b s)) (sym (length-absorb (length s) 0 b s))

updates-permᴰ :
    {xs ys : List Bytes}
    → Permᴰ xs ys
    → (s : Bytes) → cumulative_updates (some s) xs ≡ cumulative_updates (some s) ys
unfolding cumulative_updates
updates-permᴰ nil s = refl
updates-permᴰ (cons {a = a} {b = b} {l₂ = ys} e p) s =
    updates-permᴰ p (cumulative_update (some s) a)
    ∙ ap (λ c. cumulative_updates (some (cumulative_update (some s) c)) ys) e
updates-permᴰ (swap {a = a} {b = b} {a' = c} {b' = d} {l = l} e e') s =
    ap (λ t. cumulative_updates (some t) l) (update_exchange a b s)
    ∙ ap₂
        (λ c d.
          cumulative_updates (some (cumulative_update (some (cumulative_update (some s) c)) d)) l)
        e' e
updates-permᴰ (trans p q) s = updates-permᴰ p s ∙ updates-permᴰ q s

length-zeros : (n : ℕ) → length (zeros n) ≡ n
unfolding zeros
length-zeros zero = refl
length-zeros (suc n) = ap suc (length-zeros n)

-- The first input only sets the length.
updates-zeros :
    (n : ℕ) (input : Bytes) (inputs : List Bytes)
    → cumulative_bytes (length input) ≡ n
    → cumulative_updates none (input ∷ inputs)
      ≡ cumulative_updates (some (zeros n)) (input ∷ inputs)
unfolding cumulative_updates cumulative_update
updates-zeros n input inputs e =
    ap (λ s. cumulative_updates (some s) inputs)
      (ap (λ m. absorb m 0 input (zeros m)) e
        ∙ ap (λ m. absorb m 0 input (zeros n)) (sym (length-zeros n)))

-- All inputs want a digest of n bytes.
abbrev pub have_size : ℕ → List Bytes → Bool
have_size n = all (λ input. cumulative_bytes (length input) == n)

updates-none :
    (n : ℕ) (xs ys : List Bytes)
    → Permᴰ xs ys
    → have_size n xs ≡ true
    → have_size n ys ≡ true
    → cumulative_updates none xs ≡ cumulative_updates none ys
updates-none n [] [] p hx hy = refl
updates-none n [] (y ∷ ys) p hx hy = ground (arith, length-perm ∣ p ∣₁)
updates-none n (x ∷ xs) [] p hx hy = ground (arith, length-perm ∣ p ∣₁)
updates-none n (x ∷ xs) (y ∷ ys) p hx hy =
    updates-zeros n x xs (ground arith)
    ∙ updates-permᴰ p (zeros n)
    ∙ sym (updates-zeros n y ys (ground arith))

-- If all inputs set the same length, the cumulative digest does not depend on the order of its inputs.
pub cumulative_updates-perm :
    (n : ℕ) (xs ys : List Bytes)
    → Perm xs ys
    → have_size n xs ≡ true
    → cumulative_updates none xs ≡ cumulative_updates none ys
cumulative_updates-perm n xs ys p h =
    let h' = all-perm (λ input. cumulative_bytes (length input) == n) (Perm.symm p) h in
    ∥∥₁_elim p (hlevel) (λ q. updates-none n xs ys q h h')
