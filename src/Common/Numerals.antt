-- ===== src/Common/Numerals.antt =====
-- Which texts `std::from_chars` reads to their end, and as which integer.
use pgiceberg.Common.{
  ℕ, ◌+◌, ◌-◌, ◌*◌, ◌≡◌, ◌≢◌, refl, sym, ap, ◌∙◌, subst, Bool, true, false, [], ◌∷◌, Option, none,
  some, arith, ◌==◌, ==_iff, All, Bool-cases, ◌⊎◌, inl, inr, ◌↔◌, none_not_some, some-injective,
}
use pgiceberg.Common.Bytes.{Bytes}
use pgiceberg.Common.Decimal.{is_digit, scan_digits}
use pgiceberg.Common.FromChars.{from_chars, from_digits, in_signed_range, signed_number}
use pgiceberg.Common.Int.{ℤ, InSigned, in_signed}

abbrev pub AllDigits : Bytes → Type 0
AllDigits cs = All (λ c. is_digit c ≡ true) cs

-- The number that digits stand for in base 10, behind those that stand for `acc`.
abbrev pub value_of : ℕ → Bytes → ℕ
value_of acc [] = acc
value_of acc (c ∷ cs) = value_of (acc * 10 + (c - 48)) cs

-- The text is one digit or more, behind a '-' or not, and they stand for an integer of the signed type
-- of least value -m.
abbrev pub IsNumeral : ℕ → Bytes → ℤ → Type 0
IsNumeral m s a =
    (digits : Bytes) × (digits ≢ [])
    × AllDigits digits
    × InSigned m a
    × (((s ≡ digits) × (signed_number false (value_of 0 digits) ≡ a))
        ⊎ ((s ≡ 45 ∷ digits) × (signed_number true (value_of 0 digits) ≡ a)))

scan_digits-AllDigits :
    (acc n : ℕ) (cs : Bytes) → scan_digits acc cs ≡ (n, []) → AllDigits cs × (value_of acc cs ≡ n)
unfolding scan_digits
scan_digits-AllDigits acc n [] h = (tt, ap (λ r. r.0) h)
scan_digits-AllDigits acc n (c ∷ cs) h = elim (Bool-cases (is_digit c)) [
  | inl d ↦
      let (digits, value) =
        scan_digits-AllDigits (acc * 10 + (c - 48)) n cs (rw (d, scan_digits) at h) in
      ((d, digits), value)
  | inr d ↦
      let stopped : ◌≡◌ {A = ℕ × Bytes} (acc, c ∷ cs) (n, []) = rw (d, scan_digits) at h in
      let rest : ◌≡◌ {A = Bytes} (c ∷ cs) [] = ap {B = Bytes} (λ (r : ℕ × Bytes). r.1) stopped in
      absurd (cc)
]

AllDigits-scan_digits :
    (acc : ℕ) (cs : Bytes) → AllDigits cs → scan_digits acc cs ≡ (value_of acc cs, [])
unfolding scan_digits
AllDigits-scan_digits acc [] h = refl
AllDigits-scan_digits acc (c ∷ cs) (d, ds) =
    rw (d, scan_digits) (AllDigits-scan_digits (acc * 10 + (c - 48)) cs ds)

from_digits-AllDigits :
    (n : ℕ) (cs : Bytes)
    → from_digits cs ≡ some (n, [])
    → (cs ≢ []) × AllDigits cs × (value_of 0 cs ≡ n)
unfolding from_digits
from_digits-AllDigits n [] h = absurd (none_not_some _ h)
from_digits-AllDigits n (c ∷ cs) h = elim (Bool-cases (is_digit c)) [
  | inl d ↦
      let scanned : scan_digits 0 (c ∷ cs) ≡ (n, []) = some-injective (rw (d, from_digits) at h) in
      let (digits, value) = scan_digits-AllDigits 0 n (c ∷ cs) scanned in
      (λ e. absurd (cc), digits, value)
  | inr d ↦ absurd (none_not_some _ (rw (d, from_digits) at h))
]

AllDigits-from_digits :
    (cs : Bytes) → cs ≢ [] → AllDigits cs → from_digits cs ≡ some (value_of 0 cs, [])
unfolding from_digits
AllDigits-from_digits [] n h = absurd (n refl)
AllDigits-from_digits (c ∷ cs) n (d, ds) =
    rw (d, from_digits) (ap some (AllDigits-scan_digits 0 (c ∷ cs) (d, ds)))

in_signed-InSigned : (m : ℕ) (a : ℤ) → in_signed m a ≡ true → InSigned m a
in_signed-InSigned m a h = ground arith

InSigned-in_signed : (m : ℕ) (a : ℤ) → InSigned m a → in_signed m a ≡ true
InSigned-in_signed m a h = ground arith

in_signed_range_inversion :
    (m : ℕ) (negative : Bool) (o : Option (ℕ × Bytes)) (a : ℤ)
    → in_signed_range m negative o ≡ some (a, [])
    → (n : ℕ) × (o ≡ some (n, [])) × InSigned m a × (signed_number negative n ≡ a)
unfolding in_signed_range
in_signed_range_inversion m negative none a h = absurd (none_not_some _ h)
in_signed_range_inversion m negative (some (n, rest)) a h =
    elim (Bool-cases (in_signed m (signed_number negative n))) [
      | inl r ↦
          let same : (signed_number negative n, rest) ≡ (a, []) =
            some-injective (rw (r, in_signed_range) at h) in
          let value : signed_number negative n ≡ a = ap (λ p. p.0) same in
          (
            n,
            ap (λ p. some (n, p.1)) same,
            subst (InSigned m) value (in_signed-InSigned m _ r),
            value,
          )
      | inr r ↦ absurd (none_not_some _ (rw (r, in_signed_range) at h))
    ]

in_signed_range_in :
    (m : ℕ) (negative : Bool) (n : ℕ) (a : ℤ)
    → InSigned m a
    → signed_number negative n ≡ a
    → in_signed_range m negative (some (n, [])) ≡ some (a, [])
unfolding in_signed_range
in_signed_range_in m negative n a fits e =
    let inside : in_signed m (signed_number negative n) ≡ true =
      InSigned-in_signed m _ (subst (InSigned m) (sym e) fits) in
    rw (inside, in_signed_range) (ap (λ b. some (b, [])) e)

from_chars-IsNumeral : (m : ℕ) (s : Bytes) (a : ℤ) → from_chars m s ≡ some (a, []) → IsNumeral m s a
unfolding from_chars
from_chars-IsNumeral m [] a h = absurd (none_not_some _ h)
from_chars-IsNumeral m (c ∷ cs) a h = elim (Bool-cases (c == 45)) [
  | inl e ↦
      let (n, o, fits, value) =
        in_signed_range_inversion m true (from_digits cs) a (rw (e, from_chars) at h) in
      let (some_digit, digits, number) = from_digits-AllDigits n cs o in
      (
        cs,
        some_digit,
        digits,
        fits,
        inr (ap (λ d. d ∷ cs) ((==_iff c 45).0 e), ap (signed_number true) number ∙ value),
      )
  | inr e ↦
      let (n, o, fits, value) =
        in_signed_range_inversion m false (from_digits (c ∷ cs)) a (rw (e, from_chars) at h) in
      let (some_digit, digits, number) = from_digits-AllDigits n (c ∷ cs) o in
      (c ∷ cs, some_digit, digits, fits, inl (refl, ap (signed_number false) number ∙ value))
]

digit_no_minus : (c : ℕ) → is_digit c ≡ true → (c == 45) ≡ false
digit_no_minus c d = ground arith

IsNumeral-from_chars : (m : ℕ) (s : Bytes) (a : ℤ) → IsNumeral m s a → from_chars m s ≡ some (a, [])
unfolding from_chars
IsNumeral-from_chars m s a ([], n, ds, fits, _) = absurd (n refl)
IsNumeral-from_chars m s a (c ∷ cs, n, (d, ds), fits, inl (e, value)) = rw e (
    rw (digit_no_minus c d, from_chars)
      (rw (AllDigits-from_digits (c ∷ cs) n (d, ds))
        (in_signed_range_in m false (value_of 0 (c ∷ cs)) a fits value)))
IsNumeral-from_chars m s a (c ∷ cs, n, ds, fits, inr (e, value)) = rw e (
    rw (AllDigits-from_digits (c ∷ cs) n ds)
      (in_signed_range_in m true (value_of 0 (c ∷ cs)) a fits value))

-- Exactly the numerals are read to their end.
pub from_chars_iff : (m : ℕ) (s : Bytes) (a : ℤ) → (from_chars m s ≡ some (a, [])) ↔ IsNumeral m s a
from_chars_iff m s a = (from_chars-IsNumeral m s a, IsNumeral-from_chars m s a)
