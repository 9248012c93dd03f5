-- ===== src/Recovery/Stream.antt =====
-- The reads of `std::istream` that `ParseRecord` makes, in the C locale: `>>` skips white space in
-- front, then takes the longest token or numeral; `get` and `read` take bytes as they come.
use pgiceberg.Common.{
  ℕ, zero, suc, ◌-◌, ◌%◌, ◌^◌, Bool, true, false, ◌||◌, ◌&&◌, [], ◌∷◌, Option, none, some, leb, ltb,
  length, take, drop, is_empty, ◌==◌, if◌then◌else◌,
}
use pgiceberg.Common.Bytes.{Bytes}
use pgiceberg.Common.Decimal.{is_digit, scan_digits}
use pgiceberg.Common.Int.{ℤ, pos, negsuc, in_signed}

abbrev pub is_space : ℕ → Bool
is_space c = c == 32 || (leb 9 c && leb c 13)

unfoldable pub skip_space : Bytes → Bytes
skip_space [] = []
skip_space (c ∷ cs) = elim (is_space c) [ true ↦ skip_space cs | false ↦ c ∷ cs ]

-- The bytes up to the next white space, and the rest.
unfoldable pub split_token : Bytes → Bytes × Bytes
split_token [] = ([], [])
split_token (c ∷ cs) = elim (is_space c) [
  | true ↦ ([], c ∷ cs)
  | false ↦ let (token, rest) = split_token cs in (c ∷ token, rest)
]

-- `in >> std::string`; `none` is a stream that has failed.
unfoldable pub read_token : Bytes → Option (Bytes × Bytes)
unfolding skip_space split_token
read_token input =
    let (token, rest) = split_token (skip_space input) in
    if is_empty token then none else some (token, rest)

-- An optional sign and a non-empty run of digits: whether the sign is '-', the magnitude, the rest.
digits_after : Bool → Bytes → Option (Bool × ℕ × Bytes)
digits_after negative [] = none
digits_after negative (c ∷ cs) =
    if is_digit c
    then (let (n, rest) = scan_digits 0 (c ∷ cs) in some (negative, n, rest))
    else none

unfoldable pub read_numeral : Bytes → Option (Bool × ℕ × Bytes)
unfolding digits_after
read_numeral [] = none
read_numeral (c ∷ cs) =
    if c == 45
    then digits_after true cs
    else if c == 43
    then digits_after false cs
    else digits_after false (c ∷ cs)

abbrev pub signed : Bool → ℕ → ℤ
signed false n = pos n
signed true zero = pos 0
signed true (suc n) = negsuc n

-- `in >> x` for a signed type of least value -m; a value out of range fails.
unfoldable pub read_signed : ℕ → Bytes → Option (ℤ × Bytes)
unfolding read_numeral
read_signed m input = elim (read_numeral (skip_space input)) [
  | none ↦ none
  | some (negative, n, rest) ↦
      if in_signed m (signed negative n) then some (signed negative n, rest) else none
]

-- `in >> x` for a `std::size_t`: a sign is read, and the value is then negated modulo 2^64.
unfoldable pub read_size : Bytes → Option (ℕ × Bytes)
unfolding read_numeral
read_size input = elim (read_numeral (skip_space input)) [
  | none ↦ none
  | some (negative, n, rest) ↦
      if ltb n (2 ^ 64) then some (if negative then (2 ^ 64 - n) % 2 ^ 64 else n, rest) else none
]

-- `std::stoll`: `none` is an exception; what follows the digits is ignored.
unfoldable pub stoll : Bytes → Option ℤ
unfolding read_numeral
stoll token = elim (read_numeral (skip_space token)) [
  | none ↦ none
  | some (negative, n, rest) ↦
      if in_signed (2 ^ 63) (signed negative n) then some (signed negative n) else none
]

-- `in.read(_, n)`: all `n` bytes, or a failure.
unfoldable pub read_bytes : ℕ → Bytes → Option (Bytes × Bytes)
read_bytes n input = if leb n (length input) then some (take n input, drop n input) else none
