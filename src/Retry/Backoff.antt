-- ===== src/Retry/Backoff.antt =====
-- The clamped shift of `backoff_delay_ms` against the formula of its specification.
use native.Mathlib.Nat.{pow-suc, pow-le-pow_right}
use symphony_python.Prelude.{
  ℕ, zero, suc, ◌-◌, ◌*◌, ◌/◌, ◌^◌, ◌≤◌, ◌<◌, min, max, ℤ, ◌≡◌, inl, inr, arith, ◌==◌, leb,
  pos_part, Bool-cases,
}
use symphony_python.Retry.{base_retry_delay_ms, bit_length_fuel, bit_length, backoff_delay_ms}

bit_length_fuel_above : (fuel n : ℕ) → n ≤ fuel → n < 2 ^ bit_length_fuel fuel n
unfolding bit_length_fuel
bit_length_fuel_above zero n h = ground arith
bit_length_fuel_above (suc fuel) n h = elim (Bool-cases (n == 0)) [
  | inl e ↦ rw e (ground arith)
  | inr e ↦ rw e (simp pow-suc (ground (arith, bit_length_fuel_above fuel (n / 2))))
]

bit_length_above : (n : ℕ) → n < 2 ^ bit_length n
unfolding bit_length
bit_length_above n = bit_length_fuel_above n n (omega arith)

min_left : (a b : ℕ) → a ≤ b → min a b ≡ a
min_left a b h = omega arith

min_right : (a b : ℕ) → b ≤ a → min a b ≡ b
min_right a b h = omega arith

pow_mono : (a b : ℕ) → a ≤ b → 2 ^ a ≤ 2 ^ b
pow_mono a b h = pow-le-pow_right (omega arith) h

cap-le : (limit : ℕ) → limit ≤ base_retry_delay_ms * 2 ^ bit_length (limit / base_retry_delay_ms)
cap-le limit = omega (arith, bit_length_above (limit / base_retry_delay_ms))

-- Shifting past the ceiling makes no difference below the cap.
clamped_shift :
    (shift limit : ℕ)
    → let ceiling = bit_length (limit / base_retry_delay_ms) in
      min (base_retry_delay_ms * 2 ^ min shift ceiling) limit
      ≡ min (base_retry_delay_ms * 2 ^ shift) limit
clamped_shift shift limit =
    let ceiling = bit_length (limit / base_retry_delay_ms) in
    elim (Bool-cases (leb shift ceiling)) [
      | inl e ↦ rw (min_left shift ceiling (ground arith))
      | inr e ↦
          rw (min_right shift ceiling (ground arith))
            (omega (arith, cap-le limit, pow_mono ceiling shift (ground arith)))
    ]

-- For every attempt and cap, negative ones included, the delay is the specified
-- min(10000 * 2^(attempt - 1), cap), an attempt below 1 counting as 1 and a cap below 0 as 0.
pub backoff_delay_ms_lem :
    (attempt limit : ℤ)
    → backoff_delay_ms attempt limit
      ≡ min (base_retry_delay_ms * 2 ^ (max (pos_part attempt) 1 - 1)) (pos_part limit)
unfolding backoff_delay_ms
backoff_delay_ms_lem attempt limit = clamped_shift (max (pos_part attempt) 1 - 1) (pos_part limit)

-- A later attempt waits at least as long, and no attempt waits longer than the cap.
pub backoff_delay_ms_mono :
    (a b : ℕ) (limit : ℤ)
    → a ≤ b
    → (backoff_delay_ms (ℤ.pos a) limit ≤ backoff_delay_ms (ℤ.pos b) limit)
      × (backoff_delay_ms (ℤ.pos b) limit ≤ pos_part limit)
backoff_delay_ms_mono a b limit h =
    rw (backoff_delay_ms_lem (ℤ.pos a) limit, backoff_delay_ms_lem (ℤ.pos b) limit)
      (omega (arith, pow_mono (max a 1 - 1) (max b 1 - 1) (omega arith)), omega arith)
