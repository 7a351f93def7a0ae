-- ===== src/Audit/Merkle/Power.antt =====
-- `_largest_power_of_two_less_than`, against its name.
use native.Mathlib.Nat.{pow-suc}
use agentledger_mvp_v.Base.{
  ℕ, zero, suc, ◌-◌, ◌*◌, ◌/◌, ◌^◌, ◌≤◌, ◌<◌, ◌≡◌, false, refl, arith, ltb, ◌==◌, inl, inr,
  Bool-cases,
}
use agentledger_mvp_v.Base.Result.{ok}
use agentledger_mvp_v.Audit.Merkle.{bits, bit_length, largest_power_of_two_less_than}

bits-zero : (fuel n : ℕ) → n ≡ 0 → bits fuel n ≡ 0
unfolding bits
bits-zero zero n e = refl
bits-zero (suc fuel) n e = ground arith

-- The binary digits of a positive number: it lies between two powers of two.
bits_bounds :
    (fuel n : ℕ)
    → n ≤ fuel
    → 0 < n
    → (k : ℕ) × (bits fuel n ≡ suc k) × (2 ^ k ≤ n) × (n < 2 * 2 ^ k)
unfolding bits
bits_bounds zero n h p = absurd (omega arith)
bits_bounds (suc fuel) n h p = elim (Bool-cases (n / 2 == 0)) [
  | inl small ↦ (0, ground (arith, bits-zero fuel (n / 2)), ground arith, ground arith)
  | inr large ↦
      let (k, e, lo, hi) = bits_bounds fuel (n / 2) (ground arith) (ground arith) in
      (suc k, ground arith, rw (pow-suc 2 k) (omega arith), rw (pow-suc 2 k) (omega arith))
]

-- `_largest_power_of_two_less_than(value)` is a power of two below `value` whose double is not.
pub largest_power_of_two_lem :
    (value : ℕ)
    → 2 ≤ value
    → (k : ℕ) × (largest_power_of_two_less_than value ≡ ok (2 ^ k))
      × (2 ^ k < value)
      × (value ≤ 2 * 2 ^ k)
unfolding largest_power_of_two_less_than bit_length
largest_power_of_two_lem value h =
    let (k, e, lo, hi) = bits_bounds (value - 1) (value - 1) (omega arith) (omega arith) in
    let big : ltb value 2 ≡ false = ground arith in
    let exponent : bits (value - 1) (value - 1) - 1 ≡ k = omega (arith, e) in
    (k, rw (big, exponent), omega arith, omega arith)
