-- ===== src/Recovery/Reads.antt =====
-- Lemmas about the stream reads of the recovery log: words, numerals and the two chaining rules.
use pgiceberg.Common.{
  ℕ, suc, ◌^◌, ◌<◌, ◌≡◌, Bool, true, false, ◌&&◌, [], ◌∷◌, ◌++◌, Option, some, arith, if◌then◌else◌,
}
use pgiceberg.Common.Bytes.{Bytes, eqb_refl}
use pgiceberg.Common.Decimal.{
  scan_digits, print_nat, print_int, DigitFirst, NoDigitFirst, print_nat-DigitFirst,
  scan_digits-print_nat,
}
use pgiceberg.Common.Int.{ℤ, pos, negsuc, InSigned, in_signed}
use pgiceberg.Status.{Result, ok}
use pgiceberg.Recovery.Stream.{
  is_space, skip_space, split_token, read_token, read_numeral, read_signed, read_size,
}
use pgiceberg.Recovery.Parse.{Reader, ◌>>=◌, or_fail, expect_token}

-- One step of a reader that succeeds, then the rest.
pub bind-ok :
    {A B : Type 0} (m : Reader A) (f : A → Reader B) {input rest : Bytes} {a : A}
    {r : Result (B × Bytes)}
    → m input ≡ ok (a, rest)
    → f a rest ≡ r
    → (m >>= f) input ≡ r
unfolding ◌>>=◌
bind-ok m f p q = rw (p, ◌>>=◌) q

pub or_fail-ok :
    {A : Type 0} (read : Bytes → Option (A × Bytes)) (message : Bytes) {input rest : Bytes} {a : A}
    → read input ≡ some (a, rest)
    → or_fail read message input ≡ ok (a, rest)
unfolding or_fail
or_fail-ok read message p = rw (p, or_fail)

-- A word that `>>` reads whole.
abbrev pub no_space : Bytes → Bool
no_space [] = true
no_space (c ∷ cs) = (if is_space c then false else true) && no_space cs

abbrev pub is_word : Bytes → Bool
is_word [] = false
is_word (c ∷ cs) = no_space (c ∷ cs)

pub split_token-append :
    (w rest : Bytes) (c : ℕ)
    → no_space w ≡ true
    → is_space c ≡ true
    → split_token (w ++ c ∷ rest) ≡ (w, c ∷ rest)
unfolding split_token
split_token-append [] rest c h s = rw (s, split_token)
split_token-append (d ∷ w) rest c h s =
    let ih : split_token (w ++ c ∷ rest) ≡ (w, c ∷ rest) =
      split_token-append w rest c (ground arith) s in
    let e : is_space d ≡ false = ground arith in rw (e, split_token) (rw ih)

pub read_token-word :
    (w rest : Bytes) (c : ℕ)
    → is_word w ≡ true
    → is_space c ≡ true
    → read_token (w ++ c ∷ rest) ≡ some (w, c ∷ rest)
unfolding read_token
read_token-word [] rest c h s = cc
read_token-word (d ∷ w) rest c h s =
    let e : is_space d ≡ false = ground arith in
    rw (e, skip_space) (rw (split_token-append (d ∷ w) rest c h s))

pub read_token-space :
    (input : Bytes) (c : ℕ) → is_space c ≡ true → read_token (c ∷ input) ≡ read_token input
unfolding read_token
read_token-space input c s = rw (s, skip_space)

pub expect_token-word :
    (w rest : Bytes) (c : ℕ)
    → is_word w ≡ true
    → is_space c ≡ true
    → expect_token w (w ++ c ∷ rest) ≡ ok (tt, c ∷ rest)
unfolding expect_token
expect_token-word w rest c h s = rw (read_token-word w rest c h s, expect_token) (rw (eqb_refl w))

pub expect_token-space :
    (w input : Bytes) (c : ℕ)
    → is_space c ≡ true
    → expect_token w (c ∷ input) ≡ expect_token w input
unfolding expect_token
expect_token-space w input c s = rw (read_token-space input c s, expect_token)

-- Numerals.
pub read_numeral-digits :
    (n : ℕ) (rest : Bytes)
    → NoDigitFirst rest
    → read_numeral (skip_space (print_nat n ++ rest)) ≡ some (false, n, rest)
unfolding read_numeral skip_space
read_numeral-digits n rest h =
    go (print_nat n ++ rest) (print_nat-DigitFirst n rest) (scan_digits-print_nat n rest h)
  where
    go :
        (xs : Bytes)
        → DigitFirst xs
        → scan_digits 0 xs ≡ (n, rest)
        → read_numeral (skip_space xs) ≡ some (false, n, rest)
    go [] d e = absurd d
    go (c ∷ cs) d e =
        let not_space : is_space c ≡ false = ground arith in
        rw (not_space, skip_space) (ground (arith, e))

pub read_numeral-minus :
    (n : ℕ) (rest : Bytes)
    → NoDigitFirst rest
    → read_numeral (skip_space (45 ∷ print_nat n ++ rest)) ≡ some (true, n, rest)
unfolding read_numeral skip_space
read_numeral-minus n rest h =
    go (print_nat n ++ rest) (print_nat-DigitFirst n rest) (scan_digits-print_nat n rest h)
  where
    go :
        (xs : Bytes)
        → DigitFirst xs
        → scan_digits 0 xs ≡ (n, rest)
        → read_numeral (skip_space (45 ∷ xs)) ≡ some (true, n, rest)
    go [] d e = absurd d
    go (c ∷ cs) d e = ground (arith, e)

pub in_signed-InSigned : (m : ℕ) (a : ℤ) → InSigned m a → in_signed m a ≡ true
in_signed-InSigned m (pos n) h = ground arith
in_signed-InSigned m (negsuc n) h = ground arith

pub read_signed-print_int :
    (m : ℕ) (a : ℤ) (rest : Bytes)
    → InSigned m a
    → NoDigitFirst rest
    → read_signed m (print_int a ++ rest) ≡ some (a, rest)
unfolding read_signed print_int
read_signed-print_int m (pos n) rest r h =
    rw (read_numeral-digits n rest h, read_signed) (rw (in_signed-InSigned m (pos n) r))
read_signed-print_int m (negsuc n) rest r h =
    rw (read_numeral-minus (suc n) rest h, read_signed) (rw (in_signed-InSigned m (negsuc n) r))

pub read_size-print_nat :
    (n : ℕ) (rest : Bytes)
    → n < 2 ^ 64
    → NoDigitFirst rest
    → read_size (print_nat n ++ rest) ≡ some (n, rest)
unfolding read_size
read_size-print_nat n rest r h = rw (read_numeral-digits n rest h, read_size) (ground arith)
