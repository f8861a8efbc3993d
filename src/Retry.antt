-- ===== src/Retry.antt =====
-- orchestrator/retry.py: the delays, and the queue of retries with its timers (child `Queue`).
pub mod Queue
pub mod Backoff
pub mod Timers
use symphony_python.Prelude.{
  ℕ, zero, suc, ◌+◌, ◌-◌, ◌*◌, ◌/◌, ◌^◌, min, max, ℤ, pos_part, Option, none, some, ltb, ◌==◌,
  if◌then◌else◌,
}

abbrev pub continuation_delay_ms : ℕ
continuation_delay_ms = 1000

abbrev pub base_retry_delay_ms : ℕ
base_retry_delay_ms = 10000

abbrev pub default_max_retry_backoff_ms : ℕ
default_max_retry_backoff_ms = 300000

-- `int.bit_length`: the halvings until nothing is left, on fuel
unfoldable pub bit_length_fuel : ℕ → ℕ → ℕ
bit_length_fuel zero n = 0
bit_length_fuel (suc fuel) n =
    let more = suc (bit_length_fuel fuel (n / 2)) in if n == 0 then 0 else more

unfoldable pub bit_length : ℕ → ℕ
unfolding bit_length_fuel
bit_length n = bit_length_fuel n n

-- `max(i, j)` and `min(i, j)` on integers, where the other side is not negative
abbrev max_zero : ℤ → ℕ
max_zero i = pos_part i

-- `max(0, min(delay, limit))` for a delay that is not negative
abbrev clamp : ℕ → ℤ → ℕ
clamp delay limit = min delay (max_zero limit)

unfoldable pub backoff_delay_ms : ℤ → ℤ → ℕ
backoff_delay_ms attempt max_backoff_ms =
    let shift = max (max_zero attempt) 1 - 1 in
    let ceiling_shift = bit_length (max_zero max_backoff_ms / base_retry_delay_ms) in
    clamp (base_retry_delay_ms * 2 ^ min shift ceiling_shift) max_backoff_ms

-- `next_attempt` of retry.py
unfoldable pub next_attempt : Option ℤ → ℕ
next_attempt none = 1
next_attempt (some attempt) = if ltb (max_zero attempt) 1 then 1 else max_zero attempt + 1
