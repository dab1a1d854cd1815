-- ===== src/Jobs/Backoff.antt =====
-- The retry delays of `backoff_seconds` in server/src/jobs.rs.
use native.Mathlib.Nat.{pow-le-pow_right}
use legal_genie_agent.Prelude.{
  ℕ, zero, suc, ◌+◌, ◌*◌, ◌/◌, ◌%◌, ◌^◌, ◌≤◌, ◌<◌, ◌≡◌, refl, min, max, arith,
}
use legal_genie_agent.Jobs.{backoff_base, backoff_seconds, fast_rand}

shift_mono : (a b : ℕ) → a ≤ b → 2 ^ min a 8 ≤ 2 ^ min b 8
shift_mono a b h = pow-le-pow_right {n = 2} (omega arith) {i = min a 8} {j = min b 8} (omega arith)

-- The delay before the jitter never shrinks from one attempt to the next.
pub backoff_base_mono : (a b : ℕ) → a ≤ b → backoff_base a ≤ backoff_base b
unfolding backoff_base
backoff_base_mono a b h = omega (arith, shift_mono a b h)

backoff_base-ge-ten : (attempt : ℕ) → 1 ≤ attempt → 10 ≤ backoff_base attempt
unfolding backoff_base
backoff_base-ge-ten attempt h = omega (arith, shift_mono 1 attempt h)

backoff_base-le : (attempt : ℕ) → backoff_base attempt ≤ 600
unfolding backoff_base
backoff_base-le attempt = omega arith

jitter_bounds :
    (base r : ℕ)
    → 10 ≤ base
    → base ≤ 600
    → (10 ≤ base + r % max (base / 3) 1)
      × (base + r % max (base / 3) 1 < 800)
      × (base ≤ base + r % max (base / 3) 1)
      × (3 * (base + r % max (base / 3) 1) ≤ 4 * base)
jitter_bounds base r low high = omega arith

-- From the first retry on every delay is at least ten seconds and below 800, and it is the base
-- delay with at most a third of it on top.
pub backoff_seconds_bounds :
    (attempt nanos : ℕ)
    → 1 ≤ attempt
    → (10 ≤ backoff_seconds attempt nanos)
      × (backoff_seconds attempt nanos < 800)
      × (backoff_base attempt ≤ backoff_seconds attempt nanos)
      × (3 * backoff_seconds attempt nanos ≤ 4 * backoff_base attempt)
unfolding backoff_seconds
backoff_seconds_bounds attempt nanos h =
    jitter_bounds (backoff_base attempt) (fast_rand nanos) (backoff_base-ge-ten attempt h)
      (backoff_base-le attempt)

-- Up to the sixth attempt each base delay is twice the one before.
pub backoff_base_doubles :
    (attempt : ℕ) → attempt ≤ 5 → backoff_base (suc attempt) ≡ 2 * backoff_base attempt
unfolding backoff_base
backoff_base_doubles zero h = refl
backoff_base_doubles (suc zero) h = refl
backoff_base_doubles (suc (suc zero)) h = refl
backoff_base_doubles (suc (suc (suc zero))) h = refl
backoff_base_doubles (suc (suc (suc (suc zero)))) h = refl
backoff_base_doubles (suc (suc (suc (suc (suc zero))))) h = refl
backoff_base_doubles (suc (suc (suc (suc (suc (suc n)))))) h = absurd (omega arith)

-- From the seventh attempt on the base delay is ten minutes.
pub backoff_base_cap : (attempt : ℕ) → 7 ≤ attempt → backoff_base attempt ≡ 600
unfolding backoff_base
backoff_base_cap attempt h = omega (arith, shift_mono 7 attempt h)
