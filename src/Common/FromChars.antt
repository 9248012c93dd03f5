-- ===== src/Common/FromChars.antt =====
-- `std::from_chars` for integers, in base 10: the longest run of digits, after a '-' for a signed
-- type. `none` is an error code, for no digits or a value out of range.
use mathlib.Core.List.{append-nil}
use pgiceberg.Common.{
  ℕ, zero, suc, ◌<◌, ◌≡◌, refl, sym, ap, subst, ◌∙◌, Bool, true, false, [], ◌∷◌, Option, none, some,
  arith, ltb, ◌==◌, if◌then◌else◌,
}
use pgiceberg.Common.Bytes.{Bytes}
use pgiceberg.Common.Decimal.{
  is_digit, scan_digits, print_nat, print_int, DigitFirst, print_nat-DigitFirst,
  scan_digits-print_nat,
}
use pgiceberg.Common.Int.{ℤ, pos, negsuc, InSigned, in_signed}

unfoldable pub from_digits : Bytes → Option (ℕ × Bytes)
from_digits [] = none
from_digits (c ∷ cs) = if is_digit c then some (scan_digits 0 (c ∷ cs)) else none

abbrev pub signed_number : Bool → ℕ → ℤ
signed_number false n = pos n
signed_number true zero = pos 0
signed_number true (suc n) = negsuc n

unfoldable pub in_signed_range : ℕ → Bool → Option (ℕ × Bytes) → Option (ℤ × Bytes)
in_signed_range m negative none = none
in_signed_range m negative (some (n, rest)) =
    if in_signed m (signed_number negative n) then some (signed_number negative n, rest) else none

unfoldable pub in_unsigned_range : ℕ → Option (ℕ × Bytes) → Option (ℕ × Bytes)
in_unsigned_range bound none = none
in_unsigned_range bound (some (n, rest)) = if ltb n bound then some (n, rest) else none

-- For a signed type of least value -m.
unfoldable pub from_chars : ℕ → Bytes → Option (ℤ × Bytes)
unfolding from_digits in_signed_range
from_chars m [] = none
from_chars m (c ∷ cs) =
    if c == 45
    then in_signed_range m true (from_digits cs)
    else in_signed_range m false (from_digits (c ∷ cs))

-- For an unsigned type of values below `bound`.
unfoldable pub from_chars_unsigned : ℕ → Bytes → Option (ℕ × Bytes)
unfolding from_digits in_unsigned_range
from_chars_unsigned bound cs = in_unsigned_range bound (from_digits cs)

-- `ptr` is the end of the text.
abbrev pub whole {ℓ} : {A : Type ℓ} → Option (A × Bytes) → Option A
whole none = none
whole (some (a, [])) = some a
whole (some (a, c ∷ cs)) = none

scan_digits-print : (n : ℕ) → scan_digits 0 (print_nat n) ≡ (n, [])
scan_digits-print n =
    ap (scan_digits 0) (sym (append-nil (print_nat n))) ∙ scan_digits-print_nat n [] tt

from_digits-first : (cs : Bytes) → DigitFirst cs → from_digits cs ≡ some (scan_digits 0 cs)
unfolding from_digits
from_digits-first [] d = absurd d
from_digits-first (c ∷ cs) d = rw (d, from_digits) refl

from_digits-print : (n : ℕ) → from_digits (print_nat n) ≡ some (n, [])
from_digits-print n =
    from_digits-first (print_nat n)
      (subst DigitFirst (append-nil (print_nat n)) (print_nat-DigitFirst n []))
    ∙ ap some (scan_digits-print n)

from_chars-digits :
    (m : ℕ) (cs : Bytes)
    → DigitFirst cs
    → from_chars m cs ≡ in_signed_range m false (from_digits cs)
unfolding from_chars
from_chars-digits m [] d = absurd d
from_chars-digits m (c ∷ cs) d = ground arith

in_range : (m : ℕ) (a : ℤ) → InSigned m a → in_signed m a ≡ true
in_range m a h = ground arith

-- A printed number in the type's range is read back whole.
pub from_chars-print_int :
    (m : ℕ) (a : ℤ) → InSigned m a → from_chars m (print_int a) ≡ some (a, [])
unfolding print_int in_signed_range
from_chars-print_int m (pos n) h =
    from_chars-digits m (print_nat n)
      (subst DigitFirst (append-nil (print_nat n)) (print_nat-DigitFirst n []))
    ∙ rw (from_digits-print n) (rw (in_range m (pos n) h) refl)
from_chars-print_int m (negsuc n) h =
    unfold from_chars in rw (from_digits-print (suc n)) (rw (in_range m (negsuc n) h) refl)

pub from_chars_unsigned-print_nat :
    (bound n : ℕ) → n < bound → from_chars_unsigned bound (print_nat n) ≡ some (n, [])
unfolding from_chars_unsigned in_unsigned_range
from_chars_unsigned-print_nat bound n h = rw (from_digits-print n) (ground arith)
