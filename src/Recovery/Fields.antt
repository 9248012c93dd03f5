-- ===== src/Recovery/Fields.antt =====
-- Reading one line of the recovery log gives back what was written on it.
use mathlib.Core.List.{append_assoc, append-nil}
use pgiceberg.Common.{
  ℕ, suc, ◌≤◌, ◌≡◌, refl, sym, ap, ◌∙◌, subst, true, false, [], ◌∷◌, ◌++◌, Option, none, some,
  arith, length, take-length-append, drop-length-append, length-append, le→leb,
}
use pgiceberg.Common.Bytes.{Bytes, text, eqb, eqb_refl}
use pgiceberg.Common.Decimal.{
  print_nat, print_int, DigitFirst, print_nat-DigitFirst, all_digits, print_nat-all_digits,
}
use pgiceberg.Common.Int.{ℤ, pos, negsuc, InSigned, int64_min}
use pgiceberg.Status.{ok}
use pgiceberg.Recovery.Stream.{
  skip_space, read_token, read_numeral, read_signed, read_size, stoll, read_bytes,
}
use pgiceberg.Recovery.Format.{encode_field, line, format_snapshot_id}
use pgiceberg.Recovery.Parse.{
  get_space, check_size, decode_field, expect_token, snapshot_id_of_token,
  read_optional_snapshot_id, read_field, read_snapshot_field, max_log_field_bytes,
}
-- One step of a reader that succeeds, then the rest.
use pgiceberg.Recovery.Reads.{
  bind-ok, or_fail-ok, no_space, is_word, read_token-word, read_token-space, expect_token-word,
  expect_token-space, read_numeral-digits, read_numeral-minus, in_signed-InSigned,
  read_size-print_nat,
}

-- The blank that stands in front of a payload is skipped.
pub read_signed-space : (m : ℕ) (input : Bytes) → read_signed m (32 ∷ input) ≡ read_signed m input
unfolding read_signed skip_space
read_signed-space m input = refl

pub read_size-space : (input : Bytes) → read_size (32 ∷ input) ≡ read_size input
unfolding read_size skip_space
read_size-space input = refl

-- A key at the start of a line, behind the newline that the line before it left.
pub key_line :
    (key rest : Bytes)
    → is_word key ≡ true
    → expect_token key (10 ∷ key ++ 32 ∷ rest) ≡ ok (tt, 32 ∷ rest)
key_line key rest w =
    expect_token-space key (key ++ 32 ∷ rest) 10 refl ∙ expect_token-word key rest 32 w refl

pub read_bytes-append : (v rest : Bytes) → read_bytes (length v) (v ++ rest) ≡ some (v, rest)
unfolding read_bytes
read_bytes-append v rest =
    rw (le→leb (length v) (length (v ++ rest)) (omega (arith, length-append v rest)))
      (rw (take-length-append v rest, drop-length-append v rest))

abbrev pub FitsField : Bytes → Type 0
FitsField v = length v ≤ max_log_field_bytes

pub size_of_field :
    (v rest : Bytes)
    → FitsField v
    → read_size (32 ∷ encode_field v ++ rest) ≡ some (length v, 32 ∷ v ++ rest)
unfolding encode_field
size_of_field v rest h =
    read_size-space _
    ∙ ap read_size (append_assoc (print_nat (length v)) (32 ∷ v) rest)
    ∙ read_size-print_nat (length v) (32 ∷ v ++ rest) (omega arith) refl

pub decode_field-encode_field :
    (v rest : Bytes) → FitsField v → decode_field (32 ∷ encode_field v ++ rest) ≡ ok (v, rest)
unfolding decode_field check_size get_space
decode_field-encode_field v rest h = bind-ok _ _ (or_fail-ok _ _ (size_of_field v rest h)) (
    bind-ok _ _ {rest = 32 ∷ v ++ rest} {a = tt} (ground arith)
      (bind-ok _ _ {rest = v ++ rest} {a = tt} refl (or_fail-ok _ _ (read_bytes-append v rest))))

pub read_field-line :
    (key v rest : Bytes)
    → is_word key ≡ true
    → FitsField v
    → read_field key (10 ∷ line key (encode_field v) rest) ≡ ok (v, 10 ∷ rest)
unfolding read_field
read_field-line key v rest w h =
    bind-ok _ _ (key_line key _ w) (decode_field-encode_field v (10 ∷ rest) h)

-- Snapshot ids.
pub all_digits-no_space : (xs : Bytes) → all_digits xs ≡ true → no_space xs ≡ true
all_digits-no_space [] h = refl
all_digits-no_space (c ∷ cs) h = ground (arith, all_digits-no_space cs)

pub DigitFirst-print_nat : (n : ℕ) → DigitFirst (print_nat n)
DigitFirst-print_nat n = subst DigitFirst (append-nil (print_nat n)) (print_nat-DigitFirst n [])

pub DigitFirst-is_word : (xs : Bytes) → DigitFirst xs → no_space xs ≡ true → is_word xs ≡ true
DigitFirst-is_word [] d h = absurd d
DigitFirst-is_word (c ∷ cs) d h = h

pub print_int-is_word : (a : ℤ) → is_word (print_int a) ≡ true
unfolding print_int
print_int-is_word (pos n) =
    DigitFirst-is_word (print_nat n) (DigitFirst-print_nat n)
      (all_digits-no_space (print_nat n) (print_nat-all_digits n))
print_int-is_word (negsuc n) =
    all_digits-no_space (print_nat (suc n)) (print_nat-all_digits (suc n))

pub DigitFirst-ne_none : (xs : Bytes) → DigitFirst xs → eqb xs (text "none") ≡ false
unfolding eqb text
DigitFirst-ne_none [] d = absurd d
DigitFirst-ne_none (c ∷ cs) d = ground arith

pub print_int-ne_none : (a : ℤ) → eqb (print_int a) (text "none") ≡ false
unfolding print_int eqb text
print_int-ne_none (pos n) = DigitFirst-ne_none (print_nat n) (DigitFirst-print_nat n)
print_int-ne_none (negsuc n) = refl

pub stoll-print_int : (a : ℤ) → InSigned int64_min a → stoll (print_int a) ≡ some a
unfolding stoll print_int
stoll-print_int (pos n) r =
    let e = ap (λ xs. read_numeral (skip_space xs)) (append-nil (print_nat n)) in
    rw (sym e ∙ read_numeral-digits n [] tt, stoll) (rw (in_signed-InSigned int64_min (pos n) r))
stoll-print_int (negsuc n) r =
    let e =
      ap (λ (xs : Bytes). read_numeral (skip_space (45 ∷ xs))) (append-nil (print_nat (suc n))) in
    rw (sym e ∙ read_numeral-minus (suc n) [] tt, stoll)
      (rw (in_signed-InSigned int64_min (negsuc n) r))

abbrev pub FitsSnapshotId : Option ℤ → Type 0
FitsSnapshotId none = Unit {0}
FitsSnapshotId (some id) = InSigned int64_min id

pub snapshot_id_of_token-format :
    (o : Option ℤ) (rest : Bytes)
    → FitsSnapshotId o
    → snapshot_id_of_token (format_snapshot_id o) rest ≡ ok (o, rest)
unfolding snapshot_id_of_token format_snapshot_id
snapshot_id_of_token-format none rest h = rw (eqb_refl (text "none"))
snapshot_id_of_token-format (some id) rest h = rw (print_int-ne_none id) (rw (stoll-print_int id h))

pub format_snapshot_id-is_word : (o : Option ℤ) → is_word (format_snapshot_id o) ≡ true
unfolding format_snapshot_id text
format_snapshot_id-is_word none = refl
format_snapshot_id-is_word (some id) = print_int-is_word id

pub read_snapshot_field-line :
    (key : Bytes) (o : Option ℤ) (rest : Bytes)
    → is_word key ≡ true
    → FitsSnapshotId o
    → read_snapshot_field key (10 ∷ line key (format_snapshot_id o) rest) ≡ ok (o, 10 ∷ rest)
unfolding read_snapshot_field read_optional_snapshot_id
read_snapshot_field-line key o rest w h = bind-ok _ _ (key_line key _ w) (
    bind-ok _ _
      (or_fail-ok read_token _ (
        read_token-space _ 32 refl
        ∙ read_token-word (format_snapshot_id o) rest 10 (format_snapshot_id-is_word o) refl))
      (snapshot_id_of_token-format o (10 ∷ rest) h))
