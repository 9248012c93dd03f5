-- ===== src/Convert/Ranges.antt =====
-- The ranges of the numbers that `ConvertValue` of src/common/datum_convert.cc reads and gives.
use pgiceberg.Common.{
  none_not_some, some-injective, ℕ, ◌^◌, ◌-◌, ◌<◌, ◌≤◌, ltb, ◌≡◌, subst, length, true, some,
  Bool-cases, inl, inr, arith,
}
use pgiceberg.Common.Int.{ℤ, pos, negsuc, ◌+ℤ◌, InSigned, in_signed, int32_min, int64_min}
use pgiceberg.Status.{err_not_ok, ok, ok_injective}
use pgiceberg.Convert.{
  TimeUnit, second, milli, micro, nano, ArrowValue, int8, int16, int32, int64, uint8, uint16,
  uint32, uint64, date32, time32, time64, timestamp, extension, Datum, int2_datum, int4_datum,
  int8_datum, uuid_datum, date_datum, time_datum, timestamp_datum, timestamptz_datum,
}
use pgiceberg.Convert.Read.{integer_value, time_micros, timestamp_micros, date_value}
use pgiceberg.Convert.Units.{
  wrap32, wrap64, scale_to_micros, floor_div, quotient, has_negative_remainder,
}

-- A number is one of its Arrow type.
abbrev pub IsArrow : {F : Type 0} → ArrowValue F → Type 0
IsArrow (int8 n) = InSigned (2 ^ 7) n
IsArrow (int16 n) = InSigned (2 ^ 15) n
IsArrow (int32 n) = InSigned int32_min n
IsArrow (int64 n) = InSigned int64_min n
IsArrow (date32 n) = InSigned int32_min n
IsArrow (uint8 n) = n < 2 ^ 8
IsArrow (uint16 n) = n < 2 ^ 16
IsArrow (uint32 n) = n < 2 ^ 32
IsArrow (uint64 n) = n < 2 ^ 64
IsArrow (time32 unit n) = InSigned int32_min n
IsArrow (time64 unit n) = InSigned int64_min n
IsArrow (timestamp unit n) = InSigned int64_min n
IsArrow (extension storage) = IsArrow storage
IsArrow other = Unit {0}

-- An integer, a date or a time is one of the machine integer that the type is passed in, and a UUID has
-- sixteen bytes.
abbrev pub InRange : {F : Type 0} → Datum F → Type 0
InRange (int2_datum n) = InSigned (2 ^ 15) n
InRange (int4_datum n) = InSigned int32_min n
InRange (int8_datum n) = InSigned int64_min n
InRange (time_datum t) = InSigned int64_min t
InRange (date_datum d) = InSigned int32_min d
InRange (timestamp_datum t) = InSigned int64_min t
InRange (timestamptz_datum t) = InSigned int64_min t
InRange (uuid_datum s) = length s ≡ 16
InRange other = Unit {0}

wrap32-InSigned : (n : ℤ) → InSigned int32_min (wrap32 n)
unfolding wrap32
wrap32-InSigned (pos n) = ground arith
wrap32-InSigned (negsuc n) = ground arith

wrap64-InSigned : (n : ℤ) → InSigned int64_min (wrap64 n)
unfolding wrap64
wrap64-InSigned (pos n) = ground arith
wrap64-InSigned (negsuc n) = ground arith

pub InSigned-in_signed : (m : ℕ) (n : ℤ) → in_signed m n ≡ true → InSigned m n
InSigned-in_signed m (pos n) h = ground arith
InSigned-in_signed m (negsuc n) h = ground arith

scale_to_micros-InSigned :
    (n : ℤ) (unit : TimeUnit) → InSigned int64_min n → InSigned int64_min (scale_to_micros n unit)
unfolding scale_to_micros floor_div quotient has_negative_remainder ◌+ℤ◌
scale_to_micros-InSigned n second h = wrap64-InSigned _
scale_to_micros-InSigned n milli h = wrap64-InSigned _
scale_to_micros-InSigned n micro h = h
scale_to_micros-InSigned (pos n) nano h = ground arith
scale_to_micros-InSigned (negsuc n) nano h = ground arith

InSigned-weaken : (m k : ℕ) (n : ℤ) → m ≤ k → InSigned m n → InSigned k n
InSigned-weaken m k n h (above, below) = (omega arith, omega arith)

InSigned-pos : (m n : ℕ) → n < m → InSigned m (pos n)
InSigned-pos m n h = ground arith

module _ {F : Type 0} where
  pub date_value-InSigned :
      (value : ArrowValue F) (d : ℤ) → date_value value ≡ some d → InSigned int32_min d
  unfolding date_value
  date_value-InSigned (date32 n) d h =
      subst (InSigned int32_min) (some-injective h) (wrap32-InSigned _)
  date_value-InSigned other d h = absurd (none_not_some _ h)

  pub timestamp_micros-InSigned :
      (value : ArrowValue F) (t : ℤ) → timestamp_micros value ≡ some t → InSigned int64_min t
  unfolding timestamp_micros
  timestamp_micros-InSigned (timestamp unit n) t h =
      subst (InSigned int64_min) (some-injective h) (wrap64-InSigned _)
  timestamp_micros-InSigned other t h = absurd (none_not_some _ h)

  pub integer_value-InSigned :
      (value : ArrowValue F) (n : ℤ)
      → IsArrow value
      → integer_value value ≡ ok (some n)
      → InSigned int64_min n
  unfolding integer_value
  integer_value-InSigned (int8 n) m r h =
      subst (InSigned int64_min) (some-injective (ok_injective h))
        (InSigned-weaken _ _ n (omega arith) r)
  integer_value-InSigned (int16 n) m r h =
      subst (InSigned int64_min) (some-injective (ok_injective h))
        (InSigned-weaken _ _ n (omega arith) r)
  integer_value-InSigned (int32 n) m r h =
      subst (InSigned int64_min) (some-injective (ok_injective h))
        (InSigned-weaken _ _ n (omega arith) r)
  integer_value-InSigned (int64 n) m r h =
      subst (InSigned int64_min) (some-injective (ok_injective h)) r
  integer_value-InSigned (uint8 n) m r h =
      subst (InSigned int64_min) (some-injective (ok_injective h)) (InSigned-pos _ n (omega arith))
  integer_value-InSigned (uint16 n) m r h =
      subst (InSigned int64_min) (some-injective (ok_injective h)) (InSigned-pos _ n (omega arith))
  integer_value-InSigned (uint32 n) m r h =
      subst (InSigned int64_min) (some-injective (ok_injective h)) (InSigned-pos _ n (omega arith))
  integer_value-InSigned (uint64 n) m r h = elim (Bool-cases (ltb (2 ^ 63 - 1) n)) [
    | inl over ↦ absurd (err_not_ok _ _ (rw (over, integer_value) at h))
    | inr within ↦
        subst (InSigned int64_min) (some-injective (ok_injective (rw (within, integer_value) at h)))
          (InSigned-pos _ n (ground arith))
  ]
  integer_value-InSigned other m r h = absurd (none_not_some _ (ok_injective h))

  pub time_micros-InSigned :
      (value : ArrowValue F) (t : ℤ)
      → IsArrow value
      → time_micros value ≡ some t
      → InSigned int64_min t
  unfolding time_micros
  time_micros-InSigned (time32 unit n) t r h =
      subst (InSigned int64_min) (some-injective h)
        (scale_to_micros-InSigned n unit (InSigned-weaken _ _ n (omega arith) r))
  time_micros-InSigned (time64 unit n) t r h =
      subst (InSigned int64_min) (some-injective h) (scale_to_micros-InSigned n unit r)
  time_micros-InSigned other t r h = absurd (none_not_some _ h)
