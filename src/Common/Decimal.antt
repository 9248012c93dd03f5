-- ===== src/Common/Decimal.antt =====
-- Decimal numerals: what `<<` and `std::to_string` print.
use pgiceberg.Common.{
  ℕ, zero, suc, ◌+◌, ◌-◌, ◌*◌, ◌/◌, ◌%◌, ◌<◌, ◌≡◌, refl, Bool, true, false, ◌&&◌, [], ◌∷◌, ◌++◌,
  ◌∙◌, arith, ltb, leb, Bool-cases, inl, inr,
}
use pgiceberg.Common.Bytes.{Bytes}
use pgiceberg.Common.Int.{ℤ, pos, negsuc}

-- '0' to '9'.
abbrev pub is_digit : ℕ → Bool
is_digit c = leb 48 c && leb c 57

-- The digits of `n` in front of `rest`; the fuel bounds their number.
print_fuel : ℕ → ℕ → Bytes → Bytes
print_fuel zero n rest = rest
print_fuel (suc fuel) n rest = elim (ltb n 10) [
  | true ↦ (48 + n) ∷ rest
  | false ↦ print_fuel fuel (n / 10) ((48 + n % 10) ∷ rest)
]

unfoldable pub print_nat : ℕ → Bytes
unfolding print_fuel
print_nat n = print_fuel (suc n) n []

pub print_nat-zero : print_nat 0 ≡ 48 ∷ []
unfolding print_nat print_fuel
print_nat-zero = refl

-- The value of the longest run of digits at the front, onto `acc`, and what follows it.
unfoldable pub scan_digits : ℕ → Bytes → ℕ × Bytes
scan_digits acc [] = (acc, [])
scan_digits acc (c ∷ cs) = elim (is_digit c) [
  | true ↦ scan_digits (acc * 10 + (c - 48)) cs
  | false ↦ (acc, c ∷ cs)
]

-- What may follow a numeral without being read as a part of it.
abbrev pub NoDigitFirst : Bytes → Type 0
NoDigitFirst [] = Unit
NoDigitFirst (c ∷ cs) = is_digit c ≡ false

abbrev pub DigitFirst : Bytes → Type 0
DigitFirst [] = ⊥
DigitFirst (c ∷ cs) = is_digit c ≡ true

print_fuel-append :
    (fuel n : ℕ) (xs ys : Bytes) → print_fuel fuel n (xs ++ ys) ≡ print_fuel fuel n xs ++ ys
unfolding print_fuel
print_fuel-append zero n xs ys = refl
print_fuel-append (suc fuel) n xs ys = elim (Bool-cases (ltb n 10)) [
  | inl e ↦ rw (e, print_fuel) refl
  | inr e ↦ rw (e, print_fuel) (print_fuel-append fuel (n / 10) ((48 + n % 10) ∷ xs) ys)
]

scan_digits-print_fuel :
    (fuel n : ℕ) (rest : Bytes)
    → n < fuel
    → scan_digits 0 (print_fuel fuel n rest) ≡ scan_digits n rest
unfolding print_fuel scan_digits
scan_digits-print_fuel zero n rest h = absurd (omega arith)
scan_digits-print_fuel (suc fuel) n rest h = elim (Bool-cases (ltb n 10)) [
  | inl e ↦ rw (e, print_fuel) (ground arith)
  | inr e ↦
      rw (e, print_fuel)
        (scan_digits-print_fuel fuel (n / 10) ((48 + n % 10) ∷ rest) (ground arith) ∙ ground arith)
]

scan_digits-stop : (n : ℕ) (rest : Bytes) → NoDigitFirst rest → scan_digits n rest ≡ (n, rest)
unfolding scan_digits
scan_digits-stop n [] h = refl
scan_digits-stop n (c ∷ cs) h = rw (h, scan_digits)

-- Reading gives back the number that was printed, and stops behind it.
pub scan_digits-print_nat :
    (n : ℕ) (rest : Bytes) → NoDigitFirst rest → scan_digits 0 (print_nat n ++ rest) ≡ (n, rest)
unfolding print_nat
scan_digits-print_nat n rest h =
    rw (← print_fuel-append (suc n) n [] rest)
      (scan_digits-print_fuel (suc n) n rest (omega arith) ∙ scan_digits-stop n rest h)

print_fuel-DigitFirst : (fuel n : ℕ) (rest : Bytes) → n < fuel → DigitFirst (print_fuel fuel n rest)
unfolding print_fuel
print_fuel-DigitFirst zero n rest h = absurd (omega arith)
print_fuel-DigitFirst (suc fuel) n rest h = elim (Bool-cases (ltb n 10)) [
  | inl e ↦ rw (e, print_fuel) (ground arith)
  | inr e ↦
      rw (e, print_fuel) (print_fuel-DigitFirst fuel (n / 10) ((48 + n % 10) ∷ rest) (ground arith))
]

-- A printed number has a digit, and nothing stands before its first.
pub print_nat-DigitFirst : (n : ℕ) (rest : Bytes) → DigitFirst (print_nat n ++ rest)
unfolding print_nat
print_nat-DigitFirst n rest =
    rw (← print_fuel-append (suc n) n [] rest) (print_fuel-DigitFirst (suc n) n rest (omega arith))

-- `<<` of an `int64_t`.
unfoldable pub print_int : ℤ → Bytes
print_int (pos n) = print_nat n
print_int (negsuc n) = 45 ∷ print_nat (suc n)

-- The bytes of a printed number are digits.
abbrev pub all_digits : Bytes → Bool
all_digits [] = true
all_digits (c ∷ cs) = is_digit c && all_digits cs

print_fuel-all_digits :
    (fuel n : ℕ) (rest : Bytes)
    → all_digits rest ≡ true
    → all_digits (print_fuel fuel n rest) ≡ true
unfolding print_fuel
print_fuel-all_digits zero n rest h = h
print_fuel-all_digits (suc fuel) n rest h = elim (Bool-cases (ltb n 10)) [
  | inl e ↦ rw (e, print_fuel) (ground arith)
  | inr e ↦
      rw (e, print_fuel) (print_fuel-all_digits fuel (n / 10) ((48 + n % 10) ∷ rest) (ground arith))
]

pub print_nat-all_digits : (n : ℕ) → all_digits (print_nat n) ≡ true
unfolding print_nat
print_nat-all_digits n = print_fuel-all_digits (suc n) n [] refl
