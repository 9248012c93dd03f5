-- ===== src/Logical/Decode.antt =====
-- `ParseDecodedChange` of src/logical/logical.cc. A position in the input is what follows it.
use pgiceberg.Common.{
  ℕ, zero, suc, ◌+◌, ◌-◌, ◌%◌, ◌^◌, Bool, true, false, ◌||◌, not, List, [], ◌∷◌, Option, none, some,
  ltb, leb, ◌==◌, length, take, drop, is_empty, if◌then◌else◌,
}
use pgiceberg.Common.Bytes.{Bytes, text, eqb}
use pgiceberg.Common.FromChars.{from_chars, from_chars_unsigned, whole}
use pgiceberg.Common.Int.{ℤ, pos, negsuc, int32_min}
use pgiceberg.Status.{Result, ok, err, make_error, internal_error}
use pgiceberg.Recovery.Parse.{Reader, ◌>>=◌, ◌>>◌, pure}
use pgiceberg.Logical.{DecodedChange}

abbrev pub invalid_record : Bytes
invalid_record = text "invalid pgiceberg logical decoding record"

-- Every error of the decoder is an internal error.
abbrev pub reject {ℓ} : {A : Type ℓ} → Bytes → Result A
reject message = err (make_error internal_error message [])

unfoldable pub consume_char : ℕ → Bytes → Reader (Unit {0})
consume_char expected message [] = reject message
consume_char expected message (c ∷ cs) = if c == expected then ok (tt, cs) else reject message

-- The bytes in front of the first `delimiter`, and those behind it, if there is one.
unfoldable pub split_at : ℕ → Bytes → Bytes × Option Bytes
split_at delimiter [] = ([], none)
split_at delimiter (c ∷ cs) = elim (c == delimiter) [
  | true ↦ ([], some cs)
  | false ↦ let (token, rest) = split_at delimiter cs in (c ∷ token, rest)
]

-- `ReadToken`, once the token is found.
unfoldable pub token_of_split : Bool → Bytes → Bytes × Option Bytes → Result (Bytes × Bytes)
token_of_split allow_eof input (token, some rest) = ok (token, rest)
token_of_split allow_eof input (token, none) =
    if not allow_eof || is_empty input then reject invalid_record else ok (input, [])

unfoldable pub read_token : ℕ → Bool → Reader Bytes
read_token delimiter allow_eof input = token_of_split allow_eof input (split_at delimiter input)

unfoldable pub parse_integer {ℓ} : {A : Type ℓ} → Option A → Result A
parse_integer (some value) = ok value
parse_integer none = reject (text "invalid integer in pgiceberg logical decoding record")

abbrev pub of_result : {A : Type 0} → Result A → Reader A
of_result (ok a) rest = ok (a, rest)
of_result (err e) rest = err e

-- A token that is an integer of the type that `parse` reads.
unfoldable pub read_integer : {A : Type 0} → (Bytes → Option (A × Bytes)) → Bool → Reader A
read_integer parse allow_eof = do
  token ← read_token 9 allow_eof
  of_result (parse_integer (whole (parse token)))

-- The marker of a column: whether it has a value.
unfoldable pub parse_marker : Bytes → Result Bool
parse_marker token =
    if eqb token (text "v")
    then ok true
    else if eqb token (text "n")
    then ok false
    else reject (text "invalid NULL marker in logical decoding record")

-- The length in front of a value: the bytes up to ':', which must be there.
unfoldable pub length_of_split : Bytes × Option Bytes → Result (ℕ × Bytes)
length_of_split (token, none) = reject (text "invalid value length in logical decoding record")
length_of_split (token, some rest) =
    of_result (parse_integer (whole (from_chars_unsigned (2 ^ 64) token))) rest

unfoldable pub read_length : Reader ℕ
read_length input = length_of_split (split_at 58 input)

-- `len` bytes at the position of `rest` in `input`. The sum of the position and the length is one of
-- 64 bits, and the value ends with the input.
unfoldable pub read_value : Bytes → ℕ → Reader Bytes
read_value input len rest =
    let after = (length input - length rest + len) % 2 ^ 64 in
    if ltb (length input) after
    then reject (text "truncated value in logical decoding record")
    else ok (take len rest, drop after input)

-- `vector::resize`, and the assignment to an element.
unfoldable pub resize : ℕ → List (Option Bytes) → List (Option Bytes)
resize zero values = []
resize (suc n) [] = none ∷ resize n []
resize (suc n) (v ∷ values) = v ∷ resize n values

unfoldable pub set_at : ℕ → Option Bytes → List (Option Bytes) → List (Option Bytes)
set_at n value [] = []
set_at zero value (v ∷ values) = value ∷ values
set_at (suc n) value (v ∷ values) = v ∷ set_at n value values

-- The value goes to the place of its attribute, in a vector that grows to hold it.
unfoldable pub put_attribute : ℤ → Option Bytes → List (Option Bytes) → Result (List (Option Bytes))
put_attribute (negsuc n) value values =
    reject (text "invalid attribute number in logical decoding record")
put_attribute (pos zero) value values =
    reject (text "invalid attribute number in logical decoding record")
put_attribute (pos (suc n)) value values = ok (
    set_at (suc n) value
      (if leb (length values) (suc n) then resize (suc n + 1) values else values))

-- A value between two columns is followed by a tab; `left` is the number of columns to come.
unfoldable pub read_separator : ℕ → Reader (Unit {0})
read_separator zero = pure tt
read_separator (suc left) = consume_char 9 (text "invalid logical decoding record separator")

abbrev pub value_of : Bool → Bytes → Option Bytes
value_of true value = some value
value_of false value = none

-- The loop over the columns, with `n` to come.
unfoldable pub parse_columns : Bytes → ℕ → List (Option Bytes) → Reader (List (Option Bytes))
parse_columns input zero values = pure values
parse_columns input (suc n) values = do
  attnum ← read_integer (from_chars int32_min) false
  token ← read_token 9 false
  has_value ← of_result (parse_marker token)
  len ← read_length
  value ← read_value input len
  read_separator n
  values' ← of_result (put_attribute attnum (value_of has_value value) values)
  parse_columns input n values'

-- `values_by_attnum` for a number of columns: a negative one makes the size wrap around, and
-- `too_long` is the error of a vector that cannot be that long.
unfoldable pub initial_values : Result (List (Option Bytes)) → ℤ → Result (List (Option Bytes))
initial_values too_long (pos n) = ok (resize (n + 1) [])
initial_values too_long (negsuc zero) = ok []
initial_values too_long (negsuc (suc n)) = too_long

abbrev pub column_count : ℤ → ℕ
column_count (pos n) = n
column_count (negsuc n) = 0

-- What follows the action: a tab, and the relation, which the input may end with.
unfoldable pub parse_relid : Reader ℕ
parse_relid = do consume_char 9 invalid_record; read_integer (from_chars_unsigned (2 ^ 32)) true

module _ (too_long : Result (List (Option Bytes))) where
  unfoldable pub parse_insert : Bytes → Reader (List (Option Bytes))
  parse_insert input = do
    ncols ← read_integer (from_chars int32_min) false
    values ← of_result (initial_values too_long ncols)
    parse_columns input (column_count ncols) values

  abbrev pub change_of : ℕ → ℕ → Result (List (Option Bytes) × Bytes) → Result DecodedChange
  change_of action relid (ok (values, rest)) =
      ok (record { action = action; relid = relid; values_by_attnum = values })
  change_of action relid (err e) = err e

  unfoldable pub parse_body : Bytes → ℕ → Result (ℕ × Bytes) → Result DecodedChange
  parse_body input action (err e) = err e
  parse_body input action (ok (relid, rest)) =
      if action == 73
      then change_of action relid (parse_insert input rest)
      else ok (record { action = action; relid = relid; values_by_attnum = [] })

  unfoldable pub parse_decoded_change : Bytes → Result DecodedChange
  parse_decoded_change [] = reject invalid_record
  parse_decoded_change (action ∷ rest) =
      if ltb (length (action ∷ rest)) 3
      then reject invalid_record
      else parse_body (action ∷ rest) action (parse_relid rest)
