-- ===== src/Cli/App/Delay.antt =====
-- The delay between two refreshes, `retry_delay`.
use agbox.Common.{ℕ, zero, suc, min, ◌*◌, ◌^◌, ◌⊎◌, ◌+◌, ◌≡◌, ◌≤◌, inl, inr, refl, arith, ap}
use native.Mathlib.Omega.{pow_step}
use agbox.Cli.App.{retry_delay, initial_retry, max_retry}

pow_large : (k : ℕ) → 16 ≤ 2 ^ suc (suc (suc (suc k)))
pow_large zero = omega arith
pow_large (suc k) = omega (arith, pow_large k, pow_step 2 (suc (suc (suc (suc k)))))

min_four : (k : ℕ) → min (suc (suc (suc (suc k)))) 4 ≡ 4
min_four k = omega arith

-- The delay doubles with each failure until it reaches its limit.
pub retry_delay-eq : (n : ℕ) → retry_delay n ≡ min (initial_retry * 2 ^ n) max_retry
unfolding retry_delay
retry_delay-eq zero = refl
retry_delay-eq (suc zero) = refl
retry_delay-eq (suc (suc zero)) = refl
retry_delay-eq (suc (suc (suc zero))) = refl
retry_delay-eq (suc (suc (suc (suc k)))) = rw (min_four k) (omega (arith, pow_large k))

-- The powers that the delay uses.
abbrev Small : ℕ → Type 0
Small k =
    ((k ≡ 0) × (2 ^ k ≡ 1))
    ⊎ ((k ≡ 1) × (2 ^ k ≡ 2))
    ⊎ ((k ≡ 2) × (2 ^ k ≡ 4))
    ⊎ ((k ≡ 3) × (2 ^ k ≡ 8))
    ⊎ ((k ≡ 4) × (2 ^ k ≡ 16))

pow-Small : (k : ℕ) → k ≤ 4 → Small k
pow-Small zero le = inl (refl, refl)
pow-Small (suc zero) le = inr (inl (refl, refl))
pow-Small (suc (suc zero)) le = inr (inr (inl (refl, refl)))
pow-Small (suc (suc (suc zero))) le = inr (inr (inr (inl (refl, refl))))
pow-Small (suc (suc (suc (suc zero)))) le = inr (inr (inr (inr (refl, refl))))
pow-Small (suc (suc (suc (suc (suc k))))) le = absurd (omega (arith, le))

pub retry_delay_mono : (r s : ℕ) → r ≤ s → retry_delay r ≤ retry_delay s
unfolding retry_delay
retry_delay_mono r s le =
    let a = pow-Small (min r 4) (omega arith) in
    let b = pow-Small (min s 4) (omega arith) in ground arith

min_counted : (r : ℕ) → min (min r 255) 4 ≡ min r 4
min_counted r = omega arith

-- The failures are counted in eight bits.
retry_delay-min : (r : ℕ) → retry_delay (min r 255) ≡ retry_delay r
unfolding retry_delay
retry_delay-min r = rw (min_counted r) refl

pub slower : (r : ℕ) → retry_delay r ≤ retry_delay (min (r + 1) 255)
slower r = rw (retry_delay-min (r + 1)) (retry_delay_mono r (r + 1) (omega arith))

pub shift : (n k : ℕ) → n + suc k + 1 ≡ n + 1 + k + 1
shift n k = omega arith

pub from_zero : (k : ℕ) → 0 + k + 1 ≡ k + 1
from_zero k = omega arith

counted : (r n : ℕ) → r ≡ min n 255 → min (min (r + 1) 255) 4 ≡ min (n + 0 + 1) 4
counted r n e = omega arith

pub retry_delay_counted :
    (r n : ℕ) → r ≡ min n 255 → retry_delay (min (r + 1) 255) ≡ retry_delay (n + 0 + 1)
unfolding retry_delay
retry_delay_counted r n e = ap (λ (k : ℕ). min (500 * 2 ^ k) 8000) (counted r n e)
