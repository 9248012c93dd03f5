-- ===== src/Pushdown/Timestamp.antt =====
-- `TimestampLiteral` of src/fdw/qual_pushdown.cc. The sum of `int64_t` wraps around, as it does on the
-- machines that PostgreSQL runs on.
use pgiceberg.Common.{
  ℕ, ◌+◌, ◌-◌, ◌^◌, ◌≤◌, ◌<◌, ◌≡◌, refl, Bool, false, ◌&&◌, ◌||◌, Option, none, some, arith, ltb,
  if◌then◌else◌,
}
use pgiceberg.Common.Int.{ℤ, pos, negsuc, ◌+ℤ◌, ltb_ℤ, eq_ℤ, InSigned, int64_min}

-- The value of 64 bits that an integer between -2^64 and 2^64 has.
unfoldable pub wrap_int64 : ℤ → ℤ
wrap_int64 (pos n) = if ltb n (2 ^ 63) then pos n else negsuc (2 ^ 64 - 1 - n)
wrap_int64 (negsuc n) = if ltb n (2 ^ 63) then negsuc n else pos (2 ^ 64 - 1 - n)

-- `kPostgresUnixEpochOffsetMicros`.
abbrev pub epoch_offset : ℕ
epoch_offset = 946684800000000

-- `TIMESTAMP_NOT_FINITE`: the least and the greatest value.
unfoldable pub is_not_finite : ℤ → Bool
is_not_finite t = eq_ℤ t (negsuc (2 ^ 63 - 1)) || eq_ℤ t (pos (2 ^ 63 - 1))

unfoldable pub microseconds : ℤ → ℤ
microseconds t = wrap_int64 (t +ℤ pos epoch_offset)

-- `max() / 1000` is 9223372036854775, and `min() / 1000` its negative.
unfoldable pub out_of_nanos : ℤ → Bool
out_of_nanos micros = ltb_ℤ (pos 9223372036854775) micros || ltb_ℤ micros (negsuc 9223372036854774)

-- The flag of the result is that of a timestamp with a time zone.
unfoldable pub timestamp_literal : Bool → Bool → ℤ → Option (Bool × ℤ)
timestamp_literal with_timezone target_is_nanos t =
    if is_not_finite t
    then none
    else if target_is_nanos && out_of_nanos (microseconds t)
    then none
    else some (with_timezone, microseconds t)

microseconds_exact :
    (t : ℤ) → InSigned int64_min (t +ℤ pos epoch_offset) → microseconds t ≡ t +ℤ pos epoch_offset
unfolding microseconds wrap_int64 ◌+ℤ◌
microseconds_exact (pos n) h = ground arith
microseconds_exact (negsuc n) h = ground arith

microseconds_wraps :
    (n : ℕ)
    → 2 ^ 63 ≤ n + epoch_offset
    → n < 2 ^ 63
    → microseconds (pos n) ≡ negsuc (2 ^ 64 - 1 - (n + epoch_offset))
unfolding microseconds wrap_int64 ◌+ℤ◌
microseconds_wraps n low high = ground arith

-- For a column of microseconds the literal of a finite timestamp is its number of microseconds since
-- 1970, where that number is an `int64_t`.
pub timestamp_literal-exact :
    (with_timezone : Bool) (t : ℤ)
    → is_not_finite t ≡ false
    → InSigned int64_min (t +ℤ pos epoch_offset)
    → timestamp_literal with_timezone false t ≡ some (with_timezone, t +ℤ pos epoch_offset)
unfolding timestamp_literal
timestamp_literal-exact with_timezone t finite h =
    rw (finite, timestamp_literal) (rw (microseconds_exact t h) refl)

-- Where that number is too large, the literal is a negative one: a finite timestamp in the far future
-- is pushed down as a time before 1970.
pub timestamp_literal-wraps :
    (with_timezone : Bool) (n : ℕ)
    → is_not_finite (pos n) ≡ false
    → n < 2 ^ 63
    → 2 ^ 63 ≤ n + epoch_offset
    → timestamp_literal with_timezone false (pos n)
      ≡ some (with_timezone, negsuc (2 ^ 64 - 1 - (n + epoch_offset)))
unfolding timestamp_literal
timestamp_literal-wraps with_timezone n finite range late =
    rw (finite, timestamp_literal) (rw (microseconds_wraps n late range) refl)
