-- ===== src/Logical/Columns.antt =====
-- The columns of an insert that the output plugin of src/logical/logical.cc writes, read back.
use mathlib.Core.List.{append_assoc}
use mathlib.Core.Path.{subst₂}
use pgiceberg.Common.{
  ℕ, suc, ◌+◌, ◌^◌, ◌<◌, ◌≡◌, refl, sym, ap, subst, ◌∙◌, Bool, true, false, List, [], ◌∷◌, ◌++◌,
  Option, none, some, arith, leb, length, length-append, if◌then◌else◌,
}
use pgiceberg.Common.Bytes.{Bytes, text, eqb}
use pgiceberg.Common.Decimal.{print_nat, print_nat-zero}
use pgiceberg.Common.Int.{pos}
use pgiceberg.Status.{Result, PgError, ok, err, and_then}
use pgiceberg.Recovery.Reads.{bind-ok}
use pgiceberg.Logical.Decode.{
  consume_char, split_at, token_of_split, read_token, parse_marker, read_value, of_result, resize,
  set_at, put_attribute, read_separator, value_of, parse_columns,
}
use pgiceberg.Logical.Output.{
  Attribute, column_text, null_column, value_column, output_column, output_columns, max_text,
}
use pgiceberg.Logical.Reads.{read_integer-signed, read_length-nat, read_value-append}

-- `rest` is what follows a position of `input`.
abbrev pub EndsWith : Bytes → Bytes → Type 0
EndsWith input rest = (pre : Bytes) × (input ≡ pre ++ rest)

pub EndsWith-drop : (input xs rest : Bytes) → EndsWith input (xs ++ rest) → EndsWith input rest
EndsWith-drop input xs rest (pre, e) = (pre ++ xs, e ∙ sym (append_assoc pre xs rest))

read_value-EndsWith :
    (input shown rest : Bytes)
    → EndsWith input (shown ++ rest)
    → length input < 2 ^ 64
    → read_value input (length shown) (shown ++ rest) ≡ ok (shown, rest)
read_value-EndsWith input shown rest (pre, e) h =
    subst (λ i. read_value i (length shown) (shown ++ rest) ≡ ok (shown, rest)) (sym e)
      (read_value-append pre shown rest (subst (λ i. length i < 2 ^ 64) e h))

EndsWith-length :
    (input xs rest : Bytes)
    → EndsWith input (xs ++ rest)
    → length input < 2 ^ 64
    → length xs < 2 ^ 64
EndsWith-length input xs rest (pre, e) h =
    let e1 : length input ≡ length pre + length (xs ++ rest) =
      ap length e ∙ length-append pre (xs ++ rest) in
    let e2 : length (xs ++ rest) ≡ length xs + length rest = length-append xs rest in omega arith

abbrev marker : Bool → ℕ
marker true = 118
marker false = 110

parse_marker-marker : (b : Bool) → parse_marker (marker b ∷ []) ≡ ok b
unfolding parse_marker eqb text
parse_marker-marker true = refl
parse_marker-marker false = refl

read_token-marker :
    (b : Bool) (rest : Bytes) → read_token 9 false (marker b ∷ 9 ∷ rest) ≡ ok (marker b ∷ [], rest)
unfolding read_token token_of_split split_at
read_token-marker true rest = refl
read_token-marker false rest = refl

set_at-append :
    (pre post : List (Option Bytes)) (u v : Option Bytes)
    → set_at (length pre) v (pre ++ (u ∷ post)) ≡ pre ++ (v ∷ post)
unfolding set_at
set_at-append [] post u v = refl
set_at-append (x ∷ pre) post u v = rw (set_at-append pre post u v)

put_attribute-next :
    (k : ℕ) (pre post : List (Option Bytes)) (u v : Option Bytes)
    → length pre ≡ suc k
    → put_attribute (pos (suc k)) v (pre ++ (u ∷ post)) ≡ ok (pre ++ (v ∷ post))
unfolding put_attribute
put_attribute-next k pre post u v h =
    let long : length (pre ++ (u ∷ post)) ≡ suc k + suc (length post) =
      length-append pre (u ∷ post) ∙ ap (λ n. n + suc (length post)) h in
    let no_resize : leb (length (pre ++ (u ∷ post))) (suc k) ≡ false = ground arith in
    rw (no_resize) (
      ap ok (
        subst (λ n. set_at n v (pre ++ (u ∷ post)) ≡ pre ++ (v ∷ post)) h
          (set_at-append pre post u v)))

-- What the decoder gives for an attribute.
abbrev pub visible : Attribute → Option Bytes
visible a = if a.is_dropped then none else a.value

-- A column that the plugin wrote has a marker, and the text of its value.
abbrev Written : Attribute → Result Bytes → Bytes → Type 0
Written a rest t =
    (r : Bytes) × (b : Bool) × (shown : Bytes) × (rest ≡ ok r)
    × (t ≡ column_text a.attnum (marker b) shown r)
    × (value_of b shown ≡ visible a)

null_column-text : (a : Attribute) (r : Bytes) → null_column a r ≡ column_text a.attnum 110 [] r
null_column-text a r = rw (print_nat-zero)

null-Written :
    (a : Attribute) (rest : Result Bytes) (t : Bytes)
    → visible a ≡ none
    → and_then rest (λ r. ok (null_column a r)) ≡ ok t
    → Written a rest t
null-Written a (err e) t n h = absurd (cc)
null-Written a (ok r) t n h = (r, false, [], refl, (cc) ∙ null_column-text a r, sym n)

value-Written :
    (too_large : PgError) (a : Attribute) (shown : Bytes) (rest : Result Bytes) (t : Bytes)
    → visible a ≡ some shown
    → (if leb max_text (length shown)
        then err too_large
        else and_then rest (λ r. ok (value_column a shown r)))
      ≡ ok t
    → Written a rest t
value-Written too_large a shown (err e) t n h = absurd (ground arith)
value-Written too_large a shown (ok r) t n h = (r, true, shown, refl, ground arith, sym n)

abbrev attribute : ℕ → Bool → Option Bytes → Attribute
attribute n d v = record { attnum = n; is_dropped = d; value = v }

attribute-Written :
    (too_large : PgError) (n : ℕ) (d : Bool) (v : Option Bytes) (rest : Result Bytes) (t : Bytes)
    → output_column too_large (attribute n d v) rest ≡ ok t
    → Written (attribute n d v) rest t
unfolding output_column
attribute-Written too_large n true v rest t h = null-Written (attribute n true v) rest t refl h
attribute-Written too_large n false none rest t h =
    null-Written (attribute n false none) rest t refl h
attribute-Written too_large n false (some shown) rest t h =
    value-Written too_large (attribute n false (some shown)) shown rest t refl h

output_column-Written :
    (too_large : PgError) (a : Attribute) (rest : Result Bytes) (t : Bytes)
    → output_column too_large a rest ≡ ok t
    → Written a rest t
output_column-Written too_large a rest t h =
    attribute-Written too_large a.attnum a.is_dropped a.value rest t h

of_result-ok :
    {A : Type 0} {m : Result A} {a : A} {rest : Bytes} → m ≡ ok a → of_result m rest ≡ ok (a, rest)
of_result-ok {rest = rest} h = ap (λ x. of_result x rest) h

column_text-EndsWith :
    (input : Bytes) (n c : ℕ) (shown tail : Bytes)
    → EndsWith input (column_text n c shown tail)
    → EndsWith input (shown ++ tail)
column_text-EndsWith input n c shown tail s = EndsWith-drop input (58 ∷ []) (shown ++ tail) (
    EndsWith-drop input (print_nat (length shown)) (58 ∷ (shown ++ tail)) (
      EndsWith-drop input (9 ∷ c ∷ 9 ∷ []) (print_nat (length shown) ++ (58 ∷ (shown ++ tail)))
        (EndsWith-drop input (print_nat n) _ s)))

-- One step of the loop over the columns, on a column that the plugin wrote.
parse_columns-column :
    (input t tail tail' : Bytes) (n k : ℕ) (b : Bool) (shown : Bytes)
    (values values' : List (Option Bytes)) {r : Result (List (Option Bytes) × Bytes)}
    → t ≡ column_text (suc k) (marker b) shown tail
    → EndsWith input t
    → length input < 2 ^ 64
    → suc k < 2 ^ 31
    → read_separator n tail ≡ ok (tt, tail')
    → put_attribute (pos (suc k)) (value_of b shown) values ≡ ok values'
    → parse_columns input n values' tail' ≡ r
    → parse_columns input (suc n) values t ≡ r
unfolding parse_columns
parse_columns-column input t tail tail' n k b shown values values' e s small h sep put next =
    let value : EndsWith input (shown ++ tail) =
      column_text-EndsWith input (suc k) (marker b) shown tail (subst (EndsWith input) e s) in
    rw (e) (
      bind-ok _ _ (read_integer-signed (suc k) _ false h) (
        bind-ok _ _ (read_token-marker b _) (
          bind-ok _ _ (of_result-ok (parse_marker-marker b)) (
            bind-ok _ _
              (read_length-nat (length shown) (shown ++ tail)
                (EndsWith-length input shown tail value small))
              (bind-ok _ _ (read_value-EndsWith input shown tail value small)
                (bind-ok _ _ sep (bind-ok _ _ (of_result-ok put) next)))))))

-- The attributes of a table have the numbers from `k` + 1 on, in order.
abbrev pub Numbered : ℕ → List Attribute → Type 0
Numbered k [] = Unit
Numbered k (a ∷ rest) = (a.attnum ≡ suc k) × Numbered (suc k) rest

abbrev pub row_of : List Attribute → List (Option Bytes)
row_of [] = []
row_of (a ∷ rest) = visible a ∷ row_of rest

-- What stands behind a column: nothing behind the last, else a tab and the next column.
pub output_columns-cons :
    (too_large : PgError) (a : Attribute) (rest : List Attribute) (t : Bytes)
    → output_columns too_large (a ∷ rest) ≡ ok t
    → (u : Bytes) × (t ≡ 9 ∷ u) × (output_column too_large a (output_columns too_large rest) ≡ ok u)
unfolding output_columns
output_columns-cons too_large a rest t h =
    step (output_column too_large a (output_columns too_large rest)) h
  where
    step :
        (c : Result Bytes)
        → and_then c (λ columns. ok (9 ∷ columns)) ≡ ok t
        → (u : Bytes) × (t ≡ 9 ∷ u) × (c ≡ ok u)
    step (err e) h = absurd (cc)
    step (ok u) h = (u, (cc), refl)

read_separator-tab : (n : ℕ) (r u : Bytes) → r ≡ 9 ∷ u → read_separator (suc n) r ≡ ok (tt, u)
unfolding read_separator consume_char
read_separator-tab n r u e = rw (e)

put_attribute-visible :
    (k : ℕ) (a : Attribute) (b : Bool) (shown : Bytes) (done post : List (Option Bytes))
    → length done ≡ suc k
    → value_of b shown ≡ visible a
    → put_attribute (pos (suc k)) (value_of b shown) (done ++ (none ∷ post))
      ≡ ok (done ++ (visible a ∷ post))
put_attribute-visible k a b shown done post d ev =
    subst
      (λ v.
        put_attribute (pos (suc k)) (value_of b shown) (done ++ (none ∷ post))
        ≡ ok (done ++ (v ∷ post)))
      ev (put_attribute-next k done post none (value_of b shown) d)

pub parse_columns-output :
    (too_large : PgError) (input t : Bytes) (k : ℕ) (a : Attribute) (rest : List Attribute)
    (done : List (Option Bytes))
    → output_column too_large a (output_columns too_large rest) ≡ ok t
    → Numbered k (a ∷ rest)
    → length done ≡ suc k
    → EndsWith input t
    → length input < 2 ^ 64
    → k + length (a ∷ rest) < 2 ^ 31
    → parse_columns input (length (a ∷ rest)) (done ++ resize (length (a ∷ rest)) []) t
      ≡ ok (done ++ row_of (a ∷ rest), [])
unfolding resize
parse_columns-output too_large input t k a [] done h (e, _) d s small fits =
    let (r, b, shown, er, et, ev) = output_column-Written too_large a _ t h in
    let end : [] ≡ r = unfold output_columns in (cc (er)) in
    parse_columns-column input t r [] 0 k b shown _ (done ++ (visible a ∷ []))
      (subst (λ n. t ≡ column_text n (marker b) shown r) e et) s small (omega (arith, fits))
      (unfold read_separator in ap (λ x. ok (tt, x)) (sym end))
      (put_attribute-visible k a b shown done [] d ev) (unfold parse_columns in refl)
parse_columns-output too_large input t k a (a' ∷ rest) done h (e, ns) d s small fits =
    let (r, b, shown, er, et, ev) = output_column-Written too_large a _ t h in
    let (u, eu, h') = output_columns-cons too_large a' rest r er in
    let here : EndsWith input (shown ++ r) =
      column_text-EndsWith input a.attnum (marker b) shown r (subst (EndsWith input) et s) in
    let ends : EndsWith input u =
      EndsWith-drop input (9 ∷ []) u
        (subst (EndsWith input) eu (EndsWith-drop input shown r here)) in
    let grown : length (done ++ (visible a ∷ [])) ≡ suc (suc k) =
      length-append done (visible a ∷ []) ∙ omega (arith, d) in
    parse_columns-column input t r u (length (a' ∷ rest)) k b shown _
      (done ++ (visible a ∷ resize (length (a' ∷ rest)) []))
      (subst (λ n. t ≡ column_text n (marker b) shown r) e et) s small (omega (arith, fits))
      (read_separator-tab (length rest) r u eu) (put_attribute-visible k a b shown done _ d ev)
      (subst₂ (λ x y. parse_columns input (length (a' ∷ rest)) x u ≡ ok (y, []))
        (append_assoc done (visible a ∷ []) _) (append_assoc done (visible a ∷ []) _)
        (parse_columns-output too_large input u (suc k) a' rest (done ++ (visible a ∷ [])) h' ns
          grown ends small (omega (arith, fits))))
