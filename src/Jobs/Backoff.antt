-- ===== src/Jobs/Backoff.antt =====
-- The delay before a retry, `backoff_delay` of src/services/jobs.rs.
use kick_channel_role.Prelude.{ℕ, ◌^◌, ◌≤◌, ◌<◌, arith}
use kick_channel_role.Jobs.{capped, backoff_delay}
use native.Mathlib.Nat.{pow-le-pow_right}

-- The exponent is one of 1 to 8.
capped_bounds : (a : ℕ) → (1 ≤ capped a) × (capped a ≤ 8)
unfolding capped
capped_bounds a = ground arith

capped_monotone : (a b : ℕ) → a ≤ b → capped a ≤ capped b
unfolding capped
capped_monotone a b h = ground arith

powers : (m n : ℕ) → m ≤ n → 2 ^ m ≤ 2 ^ n
powers m n h = pow-le-pow_right (omega arith) h

-- A retry waits for at least 2 and less than 257 seconds, in milliseconds, whatever the attempt
-- is; and with the same jitter, which is below one second, a later attempt does not wait for less.
pub backoff_delay_bounds :
    (attempt later jitter_ms : ℕ)
    → jitter_ms < 1000
    → attempt ≤ later
    → (2000 ≤ backoff_delay attempt jitter_ms)
      × (backoff_delay attempt jitter_ms < 257000)
      × (backoff_delay attempt jitter_ms ≤ backoff_delay later jitter_ms)
unfolding backoff_delay
backoff_delay_bounds attempt later jitter_ms h l =
    let (low, high) = capped_bounds attempt in
    let least : 2 ≤ 2 ^ capped attempt = powers 1 (capped attempt) low in
    let most : 2 ^ capped attempt ≤ 256 = powers (capped attempt) 8 high in
    let grows = powers (capped attempt) (capped later) (capped_monotone attempt later l) in
    (omega arith, omega arith, omega arith)
