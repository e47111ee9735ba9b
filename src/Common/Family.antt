-- ===== src/Common/Family.antt =====
-- Values indexed by the first numbers, such as a store of directories or the workers of a pool: one of
-- them overwritten, and sums over all of them.
use rmlint.Common.{
  ℕ, zero, suc, ◌+◌, ◌*◌, ◌≤◌, ◌<◌, ◌≡◌, refl, ap, ◌==◌, ==_iff, if◌then◌else◌, arith, Bool-cases,
  inl, inr,
}

module _ {ℓ} {A : Type ℓ} where
  -- g[w] = v
  abbrev pub put : ℕ → A → (ℕ → A) → ℕ → A
  put w v g = λ i. if i == w then v else g i

  pub total : (A → ℕ) → (ℕ → A) → ℕ → ℕ
  total f g zero = 0
  total f g (suc n) = f (g n) + total f g n

  total_beyond :
      (f : A → ℕ) (g : ℕ → A) (w : ℕ) (v : A) (n : ℕ) → n ≤ w → total f (put w v g) n ≡ total f g n
  unfolding total
  total_beyond f g w v zero small = refl
  total_beyond f g w v (suc n) small = ground (arith, total_beyond f g w v n)

  pub total-put :
      (f : A → ℕ) (g : ℕ → A) (w : ℕ) (v : A) (n : ℕ)
      → w < n
      → total f (put w v g) n + f (g w) ≡ total f g n + f v
  unfolding total
  total-put f g w v zero small = absurd (omega arith)
  total-put f g w v (suc n) small = elim (Bool-cases (n == w)) [
    | inl here ↦
        let same : n ≡ w = (==_iff n w).0 here in
        rw here
          (omega (arith, total_beyond f g w v n (omega (arith, same)), ap (λ i. f (g i)) same))
    | inr there ↦ rw there (omega (arith, total-put f g w v n (ground (arith, there, small))))
  ]

  -- no value exceeds the sum
  pub total_at : (f : A → ℕ) (g : ℕ → A) (w n : ℕ) → w < n → f (g w) ≤ total f g n
  unfolding total
  total_at f g w zero small = absurd (omega arith)
  total_at f g w (suc n) small = elim (Bool-cases (n == w)) [
    | inl here ↦ omega (arith, ap (λ i. f (g i)) ((==_iff n w).0 here))
    | inr there ↦ omega (arith, total_at f g w n (ground (arith, there, small)))
  ]

  pub total_constant :
      (f : A → ℕ) (g : ℕ → A) (v : A) (n : ℕ) → ((w : ℕ) → w < n → g w ≡ v) → total f g n ≡ n * f v
  unfolding total
  total_constant f g v zero same = omega arith
  total_constant f g v (suc n) same =
      grind (
        arith,
        ap f (same n (omega arith)),
        total_constant f g v n (λ w small. same w (omega arith)),
      )

  pub total_mono :
      (f h : A → ℕ) (g : ℕ → A) (n : ℕ) → ((a : A) → f a ≤ h a) → total f g n ≤ total h g n
  unfolding total
  total_mono f h g zero less = omega arith
  total_mono f h g (suc n) less = omega (arith, less (g n), total_mono f h g n less)

  pub total_find :
      (f : A → ℕ) (g : ℕ → A) (n : ℕ) → 0 < total f g n → (w : ℕ) × (w < n) × (0 < f (g w))
  unfolding total
  total_find f g zero some_there = absurd (omega arith)
  total_find f g (suc n) some_there = elim (Bool-cases (f (g n) == 0)) [
    | inl zero_here ↦
        let found = total_find f g n (ground (arith, zero_here, some_there)) in
        (found.0, omega (arith, found.1), found.2)
    | inr here ↦ (n, omega arith, ground (arith, here))
  ]

  pub total_each : (k : ℕ) (g : ℕ → A) (n : ℕ) → total (λ a. k) g n ≡ k * n
  unfolding total
  total_each k g zero = omega arith
  total_each k g (suc n) = grind (arith, total_each k g n)
