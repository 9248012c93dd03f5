-- ===== src/Pushdown/Bounds.antt =====
-- The digits of a decimal literal of src/fdw/qual_pushdown.cc fit `int128_t`.
use native.Mathlib.Nat.{pow-succ', pow-le-pow_right}
use pgiceberg.Common.{
  ℕ, zero, suc, ◌+◌, ◌-◌, ◌*◌, ◌/◌, ◌%◌, ◌^◌, ◌≤◌, ◌<◌, ◌≡◌, sym, subst, Bool, ◌&&◌, ◌||◌, [], ◌∷◌,
  Option, none, some, arith, leb, ◌==◌, Bool-cases, inl, inr,
}
use pgiceberg.Common.Bytes.{Bytes, text, eqb}
use pgiceberg.Common.Decimal.{is_digit}
use pgiceberg.Pushdown.Literal.{
  Scan, scan_char, scan_from, start, scale_up, scale_down, down_from, rescale, rescale_scan,
  fractional_of, with_sign, split_sign, ends_with, decimal_literal_from_numeric, is_none,
  max_iceberg_decimal_precision,
}

-- No more digits than were counted, and no more than 38.
abbrev Within : Scan → Type 0
Within s = (s.unscaled < 10 ^ s.digits) × (s.digits ≤ 38)

abbrev WithinAny : Option Scan → Type 0
WithinAny none = Unit
WithinAny (some s) = Within s

abbrev Below : Option ℕ → Type 0
Below none = Unit
Below (some u) = u < 10 ^ 38

one_more : (u d x : ℕ) → u < 10 ^ d → x < 10 → u * 10 + x < 10 ^ suc d
one_more u d x h k = subst (λ p. u * 10 + x < p) (sym (pow-succ' 10 d)) (omega arith)

scan_char-Within : (c : ℕ) (s : Scan) → Within s → WithinAny (scan_char c s)
unfolding scan_char
scan_char-Within c s h = elim (Bool-cases (c == 46)) [
  | inl dot ↦ (elim (Bool-cases (is_none s.fractional_digits)) [
    | inl e ↦ rw (dot, scan_char) (rw e h)
    | inr e ↦ rw (dot, scan_char) (rw e tt)
  ])
  | inr dot ↦ (elim (Bool-cases (is_digit c)) [
    | inr d ↦ rw (dot, scan_char) (rw d tt)
    | inl d ↦ (elim (Bool-cases (s.leading_zero_run && (c == 48 && is_none s.fractional_digits))) [
      | inl z ↦ rw (dot, scan_char) (rw d (rw z h))
      | inr z ↦ (elim (Bool-cases (leb max_iceberg_decimal_precision s.digits)) [
        | inl f ↦ rw (dot, scan_char) (rw d (rw z (rw f tt)))
        | inr f ↦
            rw (dot, scan_char)
              (rw d (
                rw z
                  (rw f (one_more s.unscaled s.digits (c - 48) h.0 (ground arith), ground arith))))
      ])
    ])
  ])
]

scan_from-Within : (x : Option Scan) (cs : Bytes) → WithinAny x → WithinAny (scan_from x cs)
unfolding scan_from
scan_from-Within none cs h = tt
scan_from-Within (some s) [] h = h
scan_from-Within (some s) (c ∷ cs) h = scan_from-Within (scan_char c s) cs (scan_char-Within c s h)

up_to : (u d : ℕ) → u < 10 ^ d → d ≤ 38 → u < 10 ^ 38
up_to u d h k = let p : 10 ^ d ≤ 10 ^ 38 = pow-le-pow_right (omega arith) k in omega arith

scale_up-Below : (n u d : ℕ) → u < 10 ^ d → d ≤ 38 → Below (scale_up n u d)
unfolding scale_up
scale_up-Below zero u d h k = up_to u d h k
scale_up-Below (suc n) u d h k = elim (Bool-cases (leb max_iceberg_decimal_precision d)) [
  | inl e ↦ rw (e, scale_up) tt
  | inr e ↦ (elim (Bool-cases (u * 10 == 0)) [
    | inl z ↦ rw (e, scale_up) (rw z (scale_up-Below n (u * 10) d (ground arith) k))
    | inr z ↦
        rw (e, scale_up)
          (rw z (
            scale_up-Below n (u * 10) (suc d)
              (let p = one_more u d 0 h (omega arith) in omega arith) (ground arith)))
  ])
]

scale_down-Below : (n u : ℕ) → u < 10 ^ 38 → Below (scale_down n u)
unfolding scale_down
scale_down-Below zero u h = h
scale_down-Below (suc n) u h = elim (Bool-cases (u % 10 == 0)) [
  | inl e ↦ rw (e, scale_down) (scale_down-Below n (u / 10) (omega arith))
  | inr e ↦ rw (e, scale_down) tt
]

down_from-Below : (n : ℕ) (x : Option ℕ) → Below x → Below (down_from n x)
down_from-Below n none h = tt
down_from-Below n (some u) h = scale_down-Below n u h

rescale_scan-Below : (scale : ℕ) (x : Option Scan) → WithinAny x → Below (rescale_scan scale x)
unfolding rescale_scan rescale
rescale_scan-Below scale none h = tt
rescale_scan-Below scale (some s) h =
    down_from-Below (fractional_of s.fractional_digits - scale)
      (scale_up (scale - fractional_of s.fractional_digits) s.unscaled s.digits)
      (scale_up-Below (scale - fractional_of s.fractional_digits) s.unscaled s.digits h.0 h.1)

magnitude_bounded :
    (negative sign : Bool) (x : Option ℕ) (m : ℕ)
    → Below x
    → with_sign sign x ≡ some (negative, m)
    → m < 10 ^ 38
magnitude_bounded negative sign none m h e = absurd (cc)
magnitude_bounded negative sign (some u) m h e = subst (λ n. n < 10 ^ 38) (cc) h

-- A decimal literal that is pushed down is below 10^38 in magnitude, however the number is printed and
-- whatever the column's scale: `int128_t` holds it.
pub decimal_literal_bounded :
    (repr : Bytes) (scale : ℕ) (negative : Bool) (m : ℕ)
    → decimal_literal_from_numeric repr scale ≡ some (negative, m)
    → m < 10 ^ 38
unfolding decimal_literal_from_numeric
decimal_literal_bounded repr scale negative m h =
    elim (Bool-cases (eqb repr (text "NaN") || ends_with repr (text "Infinity"))) [
      | inl e ↦ absurd (let q = rw (e, decimal_literal_from_numeric) at h in cc)
      | inr e ↦
          magnitude_bounded negative (split_sign repr).0
            (rescale_scan scale (scan_from (some start) (split_sign repr).1)) m
            (rescale_scan-Below scale (scan_from (some start) (split_sign repr).1)
              (scan_from-Within (some start) (split_sign repr).1 (omega arith)))
            (rw (e, decimal_literal_from_numeric) at h)
    ]
