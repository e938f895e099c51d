-- ===== src/Prelude/Threads.antt =====
-- Goroutines by number: the state of each, a change of one, and a count over the first `n`.
use Prim.Native.Nat.{ℕ, zero, suc, ◌+◌, ◌≤◌, ◌<◌}
use mathlib.Core.Path.{◌≡◌, refl}
use mathlib.Core.Logic.{◌≢◌, inl, inr}
use native.Mathlib.Omega.{arith}
use terraform_aws_consul_lam.Prelude.Tests.{eqb, if◌then◌else◌, Bool-cases}

abbrev pub set_at {ℓ} : {A : Type ℓ} → ℕ → A → (ℕ → A) → ℕ → A
set_at i a f j = if eqb i j then a else f j

module _ {ℓ} {A : Type ℓ} (weight : A → ℕ) where
  unfoldable pub count : ℕ → (ℕ → A) → ℕ
  count zero f = 0
  count (suc n) f = weight (f n) + count n f

  count-set_at_beyond : (n i : ℕ) (a : A) (f : ℕ → A) → n ≤ i → count n (set_at i a f) ≡ count n f
  unfolding count
  count-set_at_beyond zero i a f h = refl
  count-set_at_beyond (suc n) i a f h = ground (arith, count-set_at_beyond n i a f)

  pub count-set_at :
      (n i : ℕ) (a : A) (f : ℕ → A)
      → i < n
      → count n (set_at i a f) + weight (f i) ≡ count n f + weight a
  unfolding count
  count-set_at zero i a f h = absurd (omega arith)
  count-set_at (suc n) i a f h = elim (Bool-cases (eqb i n)) [
    | inl last ↦ ground (arith, count-set_at_beyond n i a f)
    | inr before ↦ ground (arith, count-set_at n i a f)
  ]

  pub weight-le-count : (n i : ℕ) (f : ℕ → A) → i < n → weight (f i) ≤ count n f
  unfolding count
  weight-le-count zero i f h = absurd (omega arith)
  weight-le-count (suc n) i f h = elim (Bool-cases (eqb i n)) [
    | inl last ↦ ground arith
    | inr before ↦ ground (arith, weight-le-count n i f)
  ]

  -- A positive count is due to some goroutine.
  pub count-pos : (n : ℕ) (f : ℕ → A) → 0 < count n f → (i : ℕ) × (i < n) × (0 < weight (f i))
  unfolding count
  count-pos zero f h = absurd (omega arith)
  count-pos (suc n) f h = elim (Bool-cases (eqb (weight (f n)) 0)) [
    | inr last ↦ (n, omega arith, ground arith)
    | inl before ↦ let (i, lt, pos) = count-pos n f (ground arith) in (i, omega arith, pos)
  ]

module _ {ℓ κ} {A : Type ℓ} (P : ℕ → A → Type κ) where
  -- What holds of the changed goroutine and of all others holds of each.
  pub set_at-All :
      (i : ℕ) (a : A) (f : ℕ → A)
      → P i a
      → ((j : ℕ) → i ≢ j → P j (f j))
      → (j : ℕ) → P j (set_at i a f j)
  set_at-All i a f mine others j = elim (Bool-cases (eqb i j)) [
    | inl e ↦ let same : i ≡ j = ground arith in rw e (rw (← same) mine)
    | inr e ↦ rw e (others j (ground arith))
  ]
