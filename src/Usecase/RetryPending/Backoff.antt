-- ===== src/Usecase/RetryPending/Backoff.antt =====
-- nextDelay: the delay between two attempts.
use native.Mathlib.Nat.{pow-le-pow_right}
use go_challenge_fc.Base.{ℕ, ◌≡◌, ◌<◌, ◌*◌, ◌^◌, ltb, if◌then◌else◌, arith}
use go_challenge_fc.Base.Int.{pos, wrap64}
use go_challenge_fc.Usecase.RetryPending.Defs.{next_delay}
use go_challenge_fc.Base.Time.{second, shift_left}

-- What the delay means: 2^n seconds, at most 60.
abbrev pub backoff : ℕ → ℕ
backoff n = if ltb (60 * second) (2 ^ n * second) then 60 * second else 2 ^ n * second

-- Below 34 attempts the int64 arithmetic does not wrap, and the delay doubles from one second up to
-- 60 seconds.
pub next_delay-eq-backoff : (n : ℕ) → n < 34 → next_delay n ≡ pos (backoff n)
unfolding next_delay shift_left wrap64
next_delay-eq-backoff n h = ground (arith, pow-le-pow_right {n = 2} (ground arith) {i = n} {j = 33})
