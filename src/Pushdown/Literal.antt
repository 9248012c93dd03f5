-- ===== src/Pushdown/Literal.antt =====
-- `DecimalLiteralFromNumeric` and `TimestampLiteral` of src/fdw/qual_pushdown.cc. `int128_t` is ℕ with
-- a sign: the magnitudes stay below 10^38, as shown below, so nothing wraps. The scale of a column is
-- not negative. `repr` is what `numeric_out` prints.
use native.Mathlib.Nat.{pow-succ'}
use pgiceberg.Common.{
  ℕ, zero, suc, ◌+◌, ◌-◌, ◌*◌, ◌/◌, ◌%◌, ◌^◌, ◌≡◌, refl, sym, ap, ◌∙◌, Bool, true, false, ◌&&◌,
  ◌||◌, not, [], ◌∷◌, Option, none, some, arith, leb, ◌==◌, Bool-cases, inl, inr, if◌then◌else◌,
}
use pgiceberg.Common.Bytes.{Bytes, text, eqb}
use pgiceberg.Common.Decimal.{is_digit}

abbrev pub max_iceberg_decimal_precision : ℕ
max_iceberg_decimal_precision = 38

-- `fractional_digits` is `none` before the point.
pub record Scan : Type 0 where
  pub unscaled : ℕ
  pub digits : ℕ
  pub fractional_digits : Option ℕ
  pub leading_zero_run : Bool

abbrev pub start : Scan
start = record { unscaled = 0; digits = 0; fractional_digits = none; leading_zero_run = true }

abbrev pub is_none : Option ℕ → Bool
is_none none = true
is_none (some n) = false

abbrev next : Option ℕ → Option ℕ
next none = none
next (some n) = some (suc n)

-- One character.
unfoldable pub scan_char : ℕ → Scan → Option Scan
scan_char c s =
    if c == 46
    then (if is_none s.fractional_digits
        then some (record s { fractional_digits = some 0 })
        else none)
    else if not (is_digit c)
    then none
    else if s.leading_zero_run && (c == 48 && is_none s.fractional_digits)
    then some s
    else if leb max_iceberg_decimal_precision s.digits
    then none
    else some (record {
      unscaled = s.unscaled * 10 + (c - 48);
      digits = suc s.digits;
      fractional_digits = next s.fractional_digits;
      leading_zero_run = false;
    })

unfoldable pub scan_from : Option Scan → Bytes → Option Scan
scan_from none cs = none
scan_from (some s) [] = some s
scan_from (some s) (c ∷ cs) = scan_from (scan_char c s) cs

-- The two rescaling loops, by their number of rounds.
unfoldable pub scale_up : ℕ → ℕ → ℕ → Option ℕ
scale_up zero unscaled digits = some unscaled
scale_up (suc n) unscaled digits =
    let rest = scale_up n (unscaled * 10) (if unscaled * 10 == 0 then digits else suc digits) in
    if leb max_iceberg_decimal_precision digits then none else rest

unfoldable pub scale_down : ℕ → ℕ → Option ℕ
scale_down zero unscaled = some unscaled
scale_down (suc n) unscaled =
    let rest = scale_down n (unscaled / 10) in if unscaled % 10 == 0 then rest else none

abbrev pub down_from : ℕ → Option ℕ → Option ℕ
down_from n none = none
down_from n (some unscaled) = scale_down n unscaled

-- From `fractional` digits behind the point to `scale`.
unfoldable pub rescale : ℕ → ℕ → ℕ → ℕ → Option ℕ
rescale scale fractional unscaled digits =
    down_from (fractional - scale) (scale_up (scale - fractional) unscaled digits)

abbrev pub fractional_of : Option ℕ → ℕ
fractional_of none = 0
fractional_of (some n) = n

unfoldable pub ends_with : Bytes → Bytes → Bool
ends_with [] suffix = eqb [] suffix
ends_with (c ∷ cs) suffix = eqb (c ∷ cs) suffix || ends_with cs suffix

-- Whether the number is negative, and what follows its sign.
unfoldable pub split_sign : Bytes → Bool × Bytes
split_sign [] = (false, [])
split_sign (c ∷ cs) =
    if c == 45 then (true, cs) else if c == 43 then (false, cs) else (false, c ∷ cs)

unfoldable pub rescale_scan : ℕ → Option Scan → Option ℕ
rescale_scan scale none = none
rescale_scan scale (some s) = rescale scale (fractional_of s.fractional_digits) s.unscaled s.digits

abbrev pub with_sign : Bool → Option ℕ → Option (Bool × ℕ)
with_sign negative none = none
with_sign negative (some n) = some (negative, n)

-- The sign and the magnitude of the literal's unscaled value.
unfoldable pub decimal_literal_from_numeric : Bytes → ℕ → Option (Bool × ℕ)
decimal_literal_from_numeric repr scale =
    if eqb repr (text "NaN") || ends_with repr (text "Infinity")
    then none
    else (let (negative, body) = split_sign repr in
        with_sign negative (rescale_scan scale (scan_from (some start) body)))

regroup_up : (u p : ℕ) → u * 10 * p ≡ u * (10 * p)
regroup_up u p = omega arith

regroup_down : (v p u : ℕ) → v * p ≡ u / 10 → u % 10 ≡ 0 → v * (10 * p) ≡ u
regroup_down v p u h r = omega arith

scale_up_exact : (n u d v : ℕ) → scale_up n u d ≡ some v → v ≡ u * 10 ^ n
unfolding scale_up
scale_up_exact zero u d v h = ground arith
scale_up_exact (suc n) u d v h = elim (Bool-cases (leb max_iceberg_decimal_precision d)) [
  | inl e ↦ absurd (ground arith)
  | inr e ↦
      scale_up_exact n (u * 10) (if u * 10 == 0 then d else suc d) v (ground arith)
      ∙ regroup_up u (10 ^ n)
      ∙ ap (λ p. u * p) (sym (pow-succ' 10 n))
]

scale_down_exact : (n u v : ℕ) → scale_down n u ≡ some v → v * 10 ^ n ≡ u
unfolding scale_down
scale_down_exact zero u v h = ground arith
scale_down_exact (suc n) u v h = elim (Bool-cases (u % 10 == 0)) [
  | inl e ↦
      ap (λ p. v * p) (pow-succ' 10 n)
      ∙ regroup_down v (10 ^ n) u (scale_down_exact n (u / 10) v (ground arith)) (ground arith)
  | inr e ↦ absurd (ground arith)
]

rescaled :
    (up down u : ℕ) (x : Option ℕ) (v : ℕ)
    → ((w : ℕ) → x ≡ some w → w ≡ u * 10 ^ up)
    → down_from down x ≡ some v
    → v * 10 ^ down ≡ u * 10 ^ up
rescaled up down u none v exact h = absurd (cc)
rescaled up down u (some w) v exact h = scale_down_exact down w v h ∙ exact w refl

-- Rescaling a literal to the scale of its column does not change its value: the result at the new
-- scale and the digits at the old one are the same number. (One of the two exponents is 0.)
pub rescale_exact :
    (scale fractional unscaled digits v : ℕ)
    → rescale scale fractional unscaled digits ≡ some v
    → v * 10 ^ (fractional - scale) ≡ unscaled * 10 ^ (scale - fractional)
unfolding rescale
rescale_exact scale fractional unscaled digits v h =
    rescaled (scale - fractional) (fractional - scale) unscaled
      (scale_up (scale - fractional) unscaled digits) v
      (λ w. scale_up_exact (scale - fractional) unscaled digits w) h
