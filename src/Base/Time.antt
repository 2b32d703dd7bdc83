-- ===== src/Base/Time.antt =====
-- time.Time and time.Duration in nanoseconds, and Go's `1 << n`.
use go_challenge_fc.Base.Int.{ℤ, pos, negsuc, pos_part, neg_part, sub_ℕ, wrap64}
use Prim.Native.Nat.{ℕ, suc, ◌+◌, ◌*◌, ◌^◌}

abbrev pub second : ℕ
second = 1000000000

abbrev pub times : ℤ → ℕ → ℤ
times (pos n) k = pos (n * k)
times (negsuc n) k = sub_ℕ 0 (suc n * k)

-- `1 << n` as an int64
unfoldable pub shift_left : ℕ → ℤ
shift_left n = wrap64 (pos (2 ^ n))

-- t.Add(d); no earlier than time 0.
abbrev pub after_delay : ℕ → ℤ → ℕ
after_delay now d = pos_part (sub_ℕ (now + pos_part d) (neg_part d))
