-- ===== src/Convert/Units.antt =====
-- The arithmetic of src/common/datum_convert.cc on times and dates: `int64_t` and `int32_t` wrap around, as
-- they do on the machines that PostgreSQL runs on.
use pgiceberg.Common.{
  ◌<◌, Bool-cases, inl, inr, ℕ, suc, ◌-◌, ◌*◌, ◌/◌, ◌%◌, ◌^◌, ◌≡◌, Bool, false, not, arith, ltb,
  ◌==◌, if◌then◌else◌,
}
use pgiceberg.Common.Int.{ℤ, pos, negsuc, sub_ℕ, ◌+ℤ◌, InSigned, int64_min, int32_min}
use pgiceberg.Convert.{TimeUnit, second, milli, micro, nano}

-- The signed integer of a word of 64, 32 or 16 bits.
abbrev pub of_word64 : ℕ → ℤ
of_word64 m = if ltb m (2 ^ 63) then pos m else negsuc (2 ^ 64 - 1 - m)

abbrev pub of_word32 : ℕ → ℤ
of_word32 m = if ltb m (2 ^ 31) then pos m else negsuc (2 ^ 32 - 1 - m)

abbrev pub of_word16 : ℕ → ℤ
of_word16 m = if ltb m (2 ^ 15) then pos m else negsuc (2 ^ 16 - 1 - m)

unfoldable pub wrap64 : ℤ → ℤ
wrap64 (pos n) = of_word64 (n % 2 ^ 64)
wrap64 (negsuc n) = of_word64 (2 ^ 64 - 1 - n % 2 ^ 64)

unfoldable pub wrap32 : ℤ → ℤ
wrap32 (pos n) = of_word32 (n % 2 ^ 32)
wrap32 (negsuc n) = of_word32 (2 ^ 32 - 1 - n % 2 ^ 32)

unfoldable pub wrap16 : ℤ → ℤ
wrap16 (pos n) = of_word16 (n % 2 ^ 16)
wrap16 (negsuc n) = of_word16 (2 ^ 16 - 1 - n % 2 ^ 16)

-- `value * k`, `value / k`, and whether `value % k` is negative, for a positive `k`.
unfoldable pub times : ℤ → ℕ → ℤ
times (pos n) k = pos (n * k)
times (negsuc n) k = sub_ℕ 0 (suc n * k)

unfoldable pub quotient : ℤ → ℕ → ℤ
quotient (pos n) k = pos (n / k)
quotient (negsuc n) k = sub_ℕ 0 (suc n / k)

unfoldable pub has_negative_remainder : ℤ → ℕ → Bool
has_negative_remainder (pos n) k = false
has_negative_remainder (negsuc n) k = not (suc n % k == 0)

-- `FloorDiv`, for a positive divisor.
unfoldable pub floor_div : ℤ → ℕ → ℤ
floor_div value divisor =
    if has_negative_remainder value divisor
    then quotient value divisor +ℤ negsuc 0
    else quotient value divisor

unfoldable pub scale_to_micros : ℤ → TimeUnit → ℤ
scale_to_micros value second = wrap64 (times value 1000000)
scale_to_micros value milli = wrap64 (times value 1000)
scale_to_micros value micro = value
scale_to_micros value nano = floor_div value 1000

unfoldable pub scale_from_micros : ℤ → TimeUnit → ℤ
scale_from_micros value second = quotient value 1000000
scale_from_micros value milli = quotient value 1000
scale_from_micros value micro = value
scale_from_micros value nano = wrap64 (times value 1000)

-- `kPostgresUnixEpochOffsetMicros`, and what it takes away.
abbrev pub add_epoch : ℤ → ℤ
add_epoch t = wrap64 (t +ℤ pos 946684800000000)

abbrev pub drop_epoch : ℤ → ℤ
drop_epoch t = wrap64 (t +ℤ negsuc 946684799999999)

-- `POSTGRES_EPOCH_JDATE - UNIX_EPOCH_JDATE` is 10957.
abbrev pub add_epoch_days : ℤ → ℤ
add_epoch_days d = wrap32 (d +ℤ pos 10957)

abbrev pub drop_epoch_days : ℤ → ℤ
drop_epoch_days d = wrap32 (d +ℤ negsuc 10956)

-- What was added is taken away again, over the whole range of the type: the wrap-around cancels.
pub drop_epoch-add_epoch : (t : ℤ) → InSigned int64_min t → drop_epoch (add_epoch t) ≡ t
unfolding wrap64 ◌+ℤ◌
drop_epoch-add_epoch (pos n) h = ground arith
drop_epoch-add_epoch (negsuc n) h = ground arith

pub drop_epoch_days-add_epoch_days :
    (d : ℤ) → InSigned int32_min d → drop_epoch_days (add_epoch_days d) ≡ d
unfolding wrap32 ◌+ℤ◌
drop_epoch_days-add_epoch_days (pos n) h = ground arith
drop_epoch_days-add_epoch_days (negsuc n) h = ground arith

pub wrap16_lem : (n : ℤ) → InSigned (2 ^ 15) n → wrap16 n ≡ n
unfolding wrap16
wrap16_lem (pos n) h = ground arith
wrap16_lem (negsuc n) h = ground arith

pub wrap32_lem : (n : ℤ) → InSigned int32_min n → wrap32 n ≡ n
unfolding wrap32
wrap32_lem (pos n) h = ground arith
wrap32_lem (negsuc n) h = ground arith

pub wrap64_lem : (n : ℤ) → InSigned int64_min n → wrap64 n ≡ n
unfolding wrap64
wrap64_lem (pos n) h = ground arith
wrap64_lem (negsuc n) h = ground arith

-- Nanoseconds that are a number of microseconds give that number back.
pub floor_div-times : (t : ℤ) → floor_div (times t 1000) 1000 ≡ t
unfolding floor_div times quotient has_negative_remainder ◌+ℤ◌
floor_div-times (pos n) = ground arith
floor_div-times (negsuc n) = ground arith

-- Nanoseconds are read as the last microsecond that is not after them, also before 1970: less than
-- 1000 nanoseconds are left over, and none are missing.
pub scale_to_micros_floor :
    (n : ℤ) → (rest : ℕ) × (rest < 1000) × (n ≡ times (scale_to_micros n nano) 1000 +ℤ pos rest)
unfolding scale_to_micros floor_div times quotient has_negative_remainder ◌+ℤ◌
scale_to_micros_floor (pos n) = (n % 1000, ground arith, ground arith)
scale_to_micros_floor (negsuc n) = elim (Bool-cases (suc n % 1000 == 0)) [
  | inl e ↦ (0, omega arith, ground arith)
  | inr e ↦ (1000 - suc n % 1000, ground arith, ground arith)
]
