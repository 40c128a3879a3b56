-- ===== src/Go/Int.antt =====
-- Go's `int`, `time.Time` and `time.Duration`. An `int` is an integer; the program compares it,
-- takes it for a number of seconds, and counts with it. A duration is an `int64` of nanoseconds, and
-- a time is the number of nanoseconds since the zero time, so that `time.Time{}` is 0 (no time of
-- the program lies before it).
use dreon_notification.Prelude.{
  ℕ, suc, ◌+◌, ◌-◌, ◌*◌, ◌^◌, ◌%◌, ◌≤◌, ◌<◌, ◌≡◌, Bool, true, false, arith, ltb, leb, if◌then◌else◌,
}

-- `negsuc n` is -(n + 1).
pub data ℤ : Type 0 where
  pos : ℕ → ℤ
  negsuc : ℕ → ℤ

-- a ≤ 0
abbrev pub is_nonpositive : ℤ → Bool
is_nonpositive (pos n) = leb n 0
is_nonpositive (negsuc n) = true

-- n < b and n ≥ b, for a count n
abbrev pub nat_lt_int : ℕ → ℤ → Bool
nat_lt_int n (pos m) = ltb n m
nat_lt_int n (negsuc m) = false

abbrev pub int_lt : ℤ → ℤ → Bool
int_lt (pos a) (pos b) = ltb a b
int_lt (pos a) (negsuc b) = false
int_lt (negsuc a) (pos b) = true
int_lt (negsuc a) (negsuc b) = ltb b a

-- The number that a positive integer is.
abbrev pub to_ℕ : ℤ → ℕ
to_ℕ (pos n) = n
to_ℕ (negsuc n) = 0

abbrev pub second : ℕ
second = 1000000000

-- The `int64` with the bits of n.
abbrev signed64 : ℕ → ℤ
signed64 n = if ltb n (2 ^ 63) then pos n else negsuc (2 ^ 64 - n - 1)

-- `time.Duration(sec) * time.Second`: the product wraps around.
unfoldable pub seconds : ℕ → ℤ
seconds sec = signed64 (sec * second % 2 ^ 64)

-- `t.Add(d)`
unfoldable pub add_duration : ℕ → ℤ → ℕ
add_duration t (pos d) = t + d
add_duration t (negsuc d) = t - suc d

-- Up to 9223372036 seconds, some 292 years, the duration is exact.
pub add_duration-seconds :
    (t sec : ℕ) → sec ≤ 9223372036 → add_duration t (seconds sec) ≡ t + sec * second
unfolding add_duration seconds
add_duration-seconds t sec h = ground arith

-- a < 0
abbrev pub is_negative : ℤ → Bool
is_negative (pos n) = false
is_negative (negsuc n) = true

-- The bits of an `int64`, and its sums and differences, which wrap around.
abbrev bits64 : ℤ → ℕ
bits64 (pos n) = n % 2 ^ 64
bits64 (negsuc n) = 2 ^ 64 - suc n

unfoldable pub add_int64 : ℤ → ℤ → ℤ
add_int64 a b = signed64 ((bits64 a + bits64 b) % 2 ^ 64)

unfoldable pub sub_int64 : ℤ → ℤ → ℤ
sub_int64 a b = signed64 ((bits64 a + 2 ^ 64 - bits64 b) % 2 ^ 64)

pub sub_int64-one : (n : ℕ) → suc n < 2 ^ 63 → sub_int64 (pos (suc n)) (pos 1) ≡ pos n
unfolding sub_int64
sub_int64-one n h = ground arith
