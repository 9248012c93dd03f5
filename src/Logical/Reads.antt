-- ===== src/Logical/Reads.antt =====
-- Lemmas about the reads of `ParseDecodedChange` on text that the output plugin writes.
use mathlib.Core.List.{append_assoc, append-nil}
use pgiceberg.Common.{
  ℕ, ◌+◌, ◌-◌, ◌%◌, ◌^◌, ◌<◌, ◌≡◌, refl, sym, ap, subst, ◌∙◌, Bool, true, false, [], ◌∷◌, ◌++◌,
  some, arith, ltb, ◌==◌, length, drop, length-append, take-length-append, drop-length-append, none,
}
use pgiceberg.Common.Bytes.{Bytes}
use pgiceberg.Common.Decimal.{
  is_digit, all_digits, print_nat, print_int, print_nat-all_digits, DigitFirst,
  print_nat-DigitFirst,
}
use pgiceberg.Common.FromChars.{
  from_chars, from_chars_unsigned, whole, from_chars-print_int, from_chars_unsigned-print_nat,
}
use pgiceberg.Common.Int.{pos, int32_min}
use pgiceberg.Status.{ok}
use pgiceberg.Recovery.Reads.{bind-ok}
use pgiceberg.Logical.Decode.{
  split_at, token_of_split, read_token, parse_integer, read_integer, length_of_split, read_length,
  read_value, of_result,
}

-- A run of digits ends at a byte that is none.
pub split_at-digits :
    (delimiter : ℕ) (xs rest : Bytes)
    → is_digit delimiter ≡ false
    → all_digits xs ≡ true
    → split_at delimiter (xs ++ delimiter ∷ rest) ≡ (xs, some rest)
unfolding split_at
split_at-digits d [] rest h a = ground arith
split_at-digits d (c ∷ cs) rest h a =
    let e : (c == d) ≡ false = ground arith in
    rw (e, split_at) (rw (split_at-digits d cs rest h (ground arith)))

pub read_token-nat :
    (n : ℕ) (rest : Bytes) (eof : Bool)
    → read_token 9 eof (print_nat n ++ 9 ∷ rest) ≡ ok (print_nat n, rest)
unfolding read_token token_of_split
read_token-nat n rest eof =
    rw (split_at-digits 9 (print_nat n) rest refl (print_nat-all_digits n)) refl

from_chars-digits : (n : ℕ) → n < 2 ^ 31 → from_chars int32_min (print_nat n) ≡ some (pos n, [])
from_chars-digits n h =
    let printed : print_int (pos n) ≡ print_nat n = unfold print_int in refl in
    ap (from_chars int32_min) (sym printed) ∙ from_chars-print_int int32_min (pos n) (ground arith)

pub read_integer-signed :
    (n : ℕ) (rest : Bytes) (eof : Bool)
    → n < 2 ^ 31
    → read_integer (from_chars int32_min) eof (print_nat n ++ 9 ∷ rest) ≡ ok (pos n, rest)
unfolding read_integer parse_integer
read_integer-signed n rest eof h =
    bind-ok (read_token 9 eof)
      (λ token. of_result (parse_integer (whole (from_chars int32_min token))))
      (read_token-nat n rest eof) (rw (from_chars-digits n h, parse_integer))

pub read_integer-unsigned :
    (n : ℕ) (rest : Bytes) (eof : Bool)
    → n < 2 ^ 32
    → read_integer (from_chars_unsigned (2 ^ 32)) eof (print_nat n ++ (9 ∷ rest)) ≡ ok (n, rest)
unfolding read_integer parse_integer
read_integer-unsigned n rest eof h =
    bind-ok (read_token 9 eof)
      (λ token. of_result (parse_integer (whole (from_chars_unsigned (2 ^ 32) token))))
      (read_token-nat n rest eof) (rw (from_chars_unsigned-print_nat (2 ^ 32) n h, parse_integer))

-- Digits that the input ends with.
split_at-end :
    (delimiter : ℕ) (xs : Bytes)
    → is_digit delimiter ≡ false
    → all_digits xs ≡ true
    → split_at delimiter xs ≡ (xs, none)
unfolding split_at
split_at-end d [] h a = refl
split_at-end d (c ∷ cs) h a =
    let e : (c == d) ≡ false = ground arith in
    rw (e, split_at) (rw (split_at-end d cs h (ground arith)))

token_of_split-end : (xs : Bytes) → DigitFirst xs → token_of_split true xs (xs, none) ≡ ok (xs, [])
unfolding token_of_split
token_of_split-end [] h = absurd h
token_of_split-end (c ∷ cs) h = refl

pub read_integer-end :
    (n : ℕ)
    → n < 2 ^ 32
    → read_integer (from_chars_unsigned (2 ^ 32)) true (print_nat n) ≡ ok (n, [])
unfolding read_integer parse_integer read_token
read_integer-end n h =
    bind-ok (read_token 9 true)
      (λ token. of_result (parse_integer (whole (from_chars_unsigned (2 ^ 32) token)))) {rest = []}
      {a = print_nat n}
      (rw (split_at-end 9 (print_nat n) refl (print_nat-all_digits n)) (
        token_of_split-end (print_nat n)
          (subst DigitFirst (append-nil (print_nat n)) (print_nat-DigitFirst n []))))
      (rw (from_chars_unsigned-print_nat (2 ^ 32) n h, parse_integer))

pub read_length-nat :
    (n : ℕ) (rest : Bytes) → n < 2 ^ 64 → read_length (print_nat n ++ 58 ∷ rest) ≡ ok (n, rest)
unfolding read_length length_of_split parse_integer
read_length-nat n rest h =
    rw (split_at-digits 58 (print_nat n) rest refl (print_nat-all_digits n))
      (rw (from_chars_unsigned-print_nat (2 ^ 64) n h) refl)

drop-two :
    (pre shown rest : Bytes) → drop (length pre + length shown) (pre ++ (shown ++ rest)) ≡ rest
drop-two pre shown rest =
    subst (λ n. drop n (pre ++ (shown ++ rest)) ≡ rest) (length-append pre shown)
      (ap (drop (length (pre ++ shown))) (sym (append_assoc pre shown rest))
        ∙ drop-length-append (pre ++ shown) rest)

-- A value that stands in the input is read whole, and the position moves behind it.
pub read_value-append :
    (pre shown rest : Bytes)
    → length (pre ++ (shown ++ rest)) < 2 ^ 64
    → read_value (pre ++ (shown ++ rest)) (length shown) (shown ++ rest) ≡ ok (shown, rest)
unfolding read_value
read_value-append pre shown rest h =
    let total : length (pre ++ (shown ++ rest)) ≡ length pre + (length shown + length rest) =
      length-append pre (shown ++ rest) ∙ ap (λ n. length pre + n) (length-append shown rest) in
    let tail : length (shown ++ rest) ≡ length shown + length rest = length-append shown rest in
    let after : (length (pre ++ (shown ++ rest)) - length (shown ++ rest) + length shown) % 2 ^ 64
        ≡ length pre + length shown =
      omega arith in
    let fits : ltb (length (pre ++ (shown ++ rest))) (length pre + length shown) ≡ false =
      ground arith in
    rw (after) (rw (fits) (rw (take-length-append shown rest, drop-two pre shown rest)))
