-- ===== src/Logical/RoundTrip.antt =====
-- The records that the output plugin of src/logical/logical.cc writes, read by `ParseDecodedChange`.
use mathlib.Core.List.{append_assoc, append-nil}
use pgiceberg.Common.{
  ℕ, suc, ◌+◌, ◌^◌, ◌<◌, ◌≤◌, ◌≢◌, ◌≡◌, refl, sym, ap, subst, ◌∙◌, true, false, List, [], ◌∷◌, ◌++◌,
  Option, none, arith, ltb, ◌==◌, length, length-append,
}
use pgiceberg.Common.Bytes.{Bytes}
use pgiceberg.Common.Decimal.{print_nat-zero, print_nat, DigitFirst, print_nat-DigitFirst}
use pgiceberg.Status.{ok_injective, Result, PgError, ok, err, and_then}
use pgiceberg.Recovery.Parse.{◌>>=◌}
use pgiceberg.Recovery.Reads.{bind-ok}
use pgiceberg.Logical.Decode.{
  invalid_record, reject, read_integer, read_token, split_at, token_of_split, consume_char, resize,
  parse_columns, initial_values, parse_insert, change_of, parse_body, parse_relid,
  parse_decoded_change,
}
use pgiceberg.Logical.Output.{Attribute, Source, output_columns, output_insert, short_record}
use pgiceberg.Logical.Reads.{read_integer-signed, read_integer-unsigned, read_integer-end}
use pgiceberg.Logical.Columns.{
  EndsWith, EndsWith-drop, Numbered, row_of, output_columns-cons, parse_columns-output,
}

count_suc : (n : ℕ) → suc (suc n) ≡ suc n + 1
count_suc n = omega arith

output_insert-columns :
    (too_large : PgError) (source : Source) (tuple : List Attribute) (t : Bytes)
    → output_insert too_large source tuple ≡ ok t
    → (columns : Bytes) × (output_columns too_large tuple ≡ ok columns)
      × (t ≡ 73 ∷ 9 ∷ (print_nat source.relid ++ (9 ∷ (print_nat (length tuple) ++ columns))))
unfolding output_insert
output_insert-columns too_large source tuple t h = step (output_columns too_large tuple) h
  where
    step :
        (c : Result Bytes)
        → and_then c (λ columns.
          ok (73 ∷ 9 ∷ (print_nat source.relid ++ (9 ∷ (print_nat (length tuple) ++ columns)))))
          ≡ ok t
        → (columns : Bytes) × (c ≡ ok columns)
          × (t ≡ 73 ∷ 9 ∷ (print_nat source.relid ++ (9 ∷ (print_nat (length tuple) ++ columns))))
    step (err e) h = absurd (cc)
    step (ok u) h = (u, refl, (cc))

-- Behind the action, the tab and the relation.
parse_relid-output :
    (n : ℕ) (rest : Bytes)
    → n < 2 ^ 32
    → parse_relid (9 ∷ (print_nat n ++ (9 ∷ rest))) ≡ ok (n, rest)
unfolding parse_relid consume_char
parse_relid-output n rest h =
    bind-ok _ _ {rest = print_nat n ++ (9 ∷ rest)} refl (read_integer-unsigned n rest true h)

-- A record with no more than a relation.
parse_relid-end : (n : ℕ) → n < 2 ^ 32 → parse_relid (9 ∷ print_nat n) ≡ ok (n, [])
unfolding parse_relid consume_char
parse_relid-end n h = bind-ok _ _ {rest = print_nat n} refl (read_integer-end n h)

parse_decoded_change-long :
    (too_long : Result (List (Option Bytes))) (c : ℕ) (cs : Bytes)
    → 2 ≤ length cs
    → parse_decoded_change too_long (c ∷ cs) ≡ parse_body too_long (c ∷ cs) c (parse_relid cs)
unfolding parse_decoded_change
parse_decoded_change-long too_long c cs h =
    let enough : ltb (length (c ∷ cs)) 3 ≡ false = ground arith in rw (enough)

first_long : (xs : Bytes) → DigitFirst xs → 2 ≤ length (9 ∷ xs)
first_long [] h = absurd h
first_long (c ∷ cs) h = omega arith

relid_long : (xs ys : Bytes) → 1 ≤ length ys → 2 ≤ length (9 ∷ (xs ++ ys))
relid_long xs ys h = omega (arith, length-append xs ys)

module _ (too_long : Result (List (Option Bytes))) (too_large : PgError) where
  parse_insert-output :
      (input columns : Bytes) (a : Attribute) (rest : List Attribute)
      → output_columns too_large (a ∷ rest) ≡ ok columns
      → Numbered 0 (a ∷ rest)
      → EndsWith input (print_nat (length (a ∷ rest)) ++ columns)
      → length input < 2 ^ 64
      → length (a ∷ rest) < 2 ^ 31
      → parse_insert too_long input (print_nat (length (a ∷ rest)) ++ columns)
        ≡ ok (none ∷ row_of (a ∷ rest), [])
  unfolding parse_insert initial_values resize
  parse_insert-output input columns a rest h ns s small fits =
      let (u, eu, h') = output_columns-cons too_large a rest columns h in
      let ends : EndsWith input u = EndsWith-drop input (9 ∷ []) u (
        subst (EndsWith input) eu
          (EndsWith-drop input (print_nat (length (a ∷ rest))) columns s)) in
      rw (eu) (
        bind-ok _ _ (read_integer-signed (length (a ∷ rest)) u false fits) (
          bind-ok _ _ refl (
            subst
              (λ m.
                parse_columns input (length (a ∷ rest)) (resize m []) u
                ≡ ok (none ∷ row_of (a ∷ rest), []))
              (count_suc (length rest))
              (parse_columns-output too_large input u 0 a rest (none ∷ []) h' ns refl ends small
                (omega (arith, fits))))))

  -- The decoder gives back what the plugin wrote for an insert into a table with attributes 1, 2 and
  -- so on, of which there is at least one: the relation, and at each attribute's number its text,
  -- none for a NULL or a dropped attribute, if the relation is below 2^32, there are fewer than 2^31
  -- attributes, and the record is shorter than 2^64 bytes.
  pub parse_decoded_change-output_insert :
      (source : Source) (a : Attribute) (rest : List Attribute) (record_text : Bytes)
      → output_insert too_large source (a ∷ rest) ≡ ok record_text
      → Numbered 0 (a ∷ rest)
      → source.relid < 2 ^ 32
      → length (a ∷ rest) < 2 ^ 31
      → length record_text < 2 ^ 64
      → parse_decoded_change too_long record_text
        ≡ ok (record {
          action = 73;
          relid = source.relid;
          values_by_attnum = none ∷ row_of (a ∷ rest);
        })
  unfolding parse_body
  parse_decoded_change-output_insert source a rest record_text h ns small fits short =
      let (columns, hc, hr) = output_insert-columns too_large source (a ∷ rest) record_text h in
      let insert : Bytes = print_nat (length (a ∷ rest)) ++ columns in
      let relid : parse_relid (9 ∷ (print_nat source.relid ++ (9 ∷ insert)))
          ≡ ok (source.relid, insert) =
        parse_relid-output source.relid insert small in
      let shown : parse_insert too_long record_text insert ≡ ok (none ∷ row_of (a ∷ rest), []) =
        parse_insert-output record_text columns a rest hc ns
          (
            73 ∷ 9 ∷ (print_nat source.relid ++ (9 ∷ [])),
            hr ∙ sym (append_assoc (73 ∷ 9 ∷ print_nat source.relid) (9 ∷ []) insert),
          )
          short fits in
      ap (parse_decoded_change too_long) hr
      ∙ (parse_decoded_change-long too_long 73 (9 ∷ (print_nat source.relid ++ (9 ∷ insert)))
            (relid_long (print_nat source.relid) (9 ∷ insert) (omega arith))
          ∙ (ap (parse_body too_long _ 73) relid
              ∙ ap (change_of too_long 73 source.relid)
                  (ap (λ i. parse_insert too_long i insert) (sym hr) ∙ shown)))

  -- A record of an action other than an insert gives the action and the relation, and no values.
  pub parse_decoded_change-short_record :
      (action : ℕ) (source : Source)
      → action ≢ 73
      → source.relid < 2 ^ 32
      → parse_decoded_change too_long (short_record action source)
        ≡ ok (record { action = action; relid = source.relid; values_by_attnum = [] })
  unfolding parse_body
  parse_decoded_change-short_record action source other small =
      let not_insert : (action == 73) ≡ false = ground arith in
      parse_decoded_change-long too_long action (9 ∷ print_nat source.relid) (
        first_long (print_nat source.relid) (
          subst DigitFirst (append-nil (print_nat source.relid))
            (print_nat-DigitFirst source.relid [])))
      ∙ (ap (parse_body too_long _ action) (parse_relid-end source.relid small) ∙ rw (not_insert))

parse_insert-no_columns :
    (too_long : Result (List (Option Bytes))) (input : Bytes)
    → parse_insert too_long input (print_nat 0 ++ []) ≡ reject invalid_record
unfolding parse_insert read_integer read_token split_at token_of_split ◌>>=◌
parse_insert-no_columns too_long input = rw (print_nat-zero) refl

-- An insert into a table with no attributes is written, and the decoder rejects the record: no tab
-- follows the number of columns.
pub parse_decoded_change-no_attributes :
    (too_long : Result (List (Option Bytes))) (too_large : PgError) (source : Source)
    (record_text : Bytes)
    → output_insert too_large source [] ≡ ok record_text
    → source.relid < 2 ^ 32
    → parse_decoded_change too_long record_text ≡ reject invalid_record
unfolding parse_body output_insert output_columns
parse_decoded_change-no_attributes too_long too_large source record_text h small =
    let shown : record_text ≡ 73 ∷ 9 ∷ (print_nat source.relid ++ (9 ∷ (print_nat 0 ++ []))) =
      sym (ok_injective h) in
    ap (parse_decoded_change too_long) shown
    ∙ (parse_decoded_change-long too_long 73 _
          (relid_long (print_nat source.relid) (9 ∷ (print_nat 0 ++ [])) (omega arith))
        ∙ (ap (parse_body too_long _ 73) (parse_relid-output source.relid (print_nat 0 ++ []) small)
            ∙ ap (change_of too_long 73 source.relid) (
                parse_insert-no_columns too_long
                  (73 ∷ 9 ∷ (print_nat source.relid ++ (9 ∷ (print_nat 0 ++ [])))))))
