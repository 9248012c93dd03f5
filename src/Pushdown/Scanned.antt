-- ===== src/Pushdown/Scanned.antt =====
-- The filter of src/fdw/qual_pushdown.cc on rows that src/common/datum_convert.cc reads: what
-- `ConvertValue` gives is what the cell holds.
use pgiceberg.Common.{
  ℕ, ◌≡◌, refl, sym, ap, subst, ◌∙◌, Bool, true, false, List, Option, none, some, All, arith,
}
use pgiceberg.Common.Bytes.{Bytes}
use pgiceberg.Common.Int.{ℤ, pos, negsuc, ◌+ℤ◌, InSigned, int32_min, int64_min}
use pgiceberg.Status.{Result, ok, ok_injective, and_then, and_then_inversion}
use pgiceberg.Logical.Mirror.{c_str}
use pgiceberg.Schema.{
  PgType, bool_oid, int2_oid, int4_oid, int8_oid, bytea_oid, date_oid, time_oid, timestamp_oid,
  timestamptz_oid, text_oid, varchar_oid, IcebergType,
}
use pgiceberg.Convert.{
  micro, ArrowValue, bool, int32, int64, date32, string, binary, time64, timestamp, Datum,
  bool_datum, int2_datum, int4_datum, int8_datum, text_datum, varchar_datum, bytea_datum,
  date_datum, time_datum, timestamp_datum, timestamptz_datum, Library,
}
use pgiceberg.Convert.Units.{wrap32_lem, wrap64_lem, drop_epoch, drop_epoch_days, scale_to_micros}
use pgiceberg.Convert.Read.{
  integer_value, string_value, binary_value, time_micros, timestamp_micros, boolean_value,
  date_value, checked_integer_cast, convert_switch, convert_some, convert_value,
}
use pgiceberg.Convert.Typed.{convert_some_inversion, checked_integer_cast_inversion}
use pgiceberg.Pushdown.Keys.{kind_of_type, HasKind}
use pgiceberg.Pushdown.Meaning.{
  Key, ordinal, truths, integers, dates, times, timestamps, timestamps_tz, characters, octets,
  opaque, truth_key, datum_key, in_iceberg, Row, keeps, reads_row,
}
use pgiceberg.Pushdown.Walk.{
  Clause, Planner, ColumnTarget, resolve_column, translate_quals_for_pushdown,
}
use pgiceberg.Pushdown.Compared.{Agrees}
use pgiceberg.Pushdown.Operands.{SafeClause}
use pgiceberg.Pushdown.Sound.{translate_quals_for_pushdown-keeps}

-- A cell of an Arrow array, with whether its type has a time zone.
abbrev pub Cell : Type 0 → Type 0
Cell F = Bool × ArrowValue F

-- What Iceberg compares a cell by.
unfoldable pub cell_key : {F : Type 0} → Cell F → Key
cell_key (tz, bool b) = ordinal truths (truth_key b)
cell_key (tz, int32 n) = ordinal integers n
cell_key (tz, int64 n) = ordinal integers n
cell_key (tz, date32 d) = ordinal dates d
cell_key (tz, time64 micro t) = ordinal times t
cell_key (false, timestamp micro t) = ordinal timestamps t
cell_key (true, timestamp micro t) = ordinal timestamps_tz t
cell_key (tz, string s) = characters s
cell_key (tz, binary s) = octets s
cell_key other = opaque

-- The cells that a column of a type holds in a field of a kind: a date or a timestamp that PostgreSQL's type has
-- room for, and a string without a zero byte.
pub data IsCell {F : Type 0} : ℕ → PgType → Cell F → Type 0 where
  truth : (tz b : Bool) → IsCell 0 bool_oid (tz, bool b)
  int_small : (tz : Bool) (n : ℤ) → IsCell 1 int2_oid (tz, int32 n)
  int_int : (tz : Bool) (n : ℤ) → IsCell 1 int4_oid (tz, int32 n)
  int_big : (tz : Bool) (n : ℤ) → IsCell 1 int8_oid (tz, int32 n)
  long_big : (tz : Bool) (n : ℤ) → IsCell 1 int8_oid (tz, int64 n)
  day :
      (tz : Bool) (d : ℤ)
      → InSigned int32_min (d +ℤ negsuc 10956)
      → IsCell 2 date_oid (tz, date32 d)
  clock : (tz : Bool) (t : ℤ) → IsCell 3 time_oid (tz, time64 micro t)
  instant :
      (t : ℤ)
      → InSigned int64_min (t +ℤ negsuc 946684799999999)
      → IsCell 4 timestamp_oid (false, timestamp micro t)
  instant_tz :
      (t : ℤ)
      → InSigned int64_min (t +ℤ negsuc 946684799999999)
      → IsCell 5 timestamptz_oid (true, timestamp micro t)
  words : (tz : Bool) (s : Bytes) → c_str s ≡ s → IsCell 6 text_oid (tz, string s)
  words_varying : (tz : Bool) (s : Bytes) → c_str s ≡ s → IsCell 6 varchar_oid (tz, string s)
  raw : (tz : Bool) (s : Bytes) → IsCell 7 bytea_oid (tz, binary s)

epoch_cancels : (t : ℤ) → (t +ℤ negsuc 946684799999999) +ℤ pos 946684800000000 ≡ t
unfolding ◌+ℤ◌
epoch_cancels (pos n) = ground arith
epoch_cancels (negsuc n) = ground arith

epoch_days_cancel : (d : ℤ) → (d +ℤ negsuc 10956) +ℤ pos 10957 ≡ d
unfolding ◌+ℤ◌
epoch_days_cancel (pos n) = ground arith
epoch_days_cancel (negsuc n) = ground arith

nothing_added : (n : ℤ) → n ≡ n +ℤ pos 0
unfolding ◌+ℤ◌
nothing_added n = ground arith

-- What PostgreSQL shows of a cell.
abbrev ShowsCell : {F : Type 0} → ℕ → Cell F → Datum F → Type 0
ShowsCell k cell d = HasKind k (datum_key d) × (cell_key cell ≡ in_iceberg (datum_key d))

module _ {F : Type 0} (l : Library F) where
  read_as :
      (k : ℕ) (cell : Cell F) (d' d : Datum F)
      → ShowsCell k cell d'
      → ◌≡◌ {A = Result (Datum F)} (ok d') (ok d)
      → ShowsCell k cell d
  read_as k cell d' d shows h = subst (ShowsCell k cell) (ok_injective h) shows

  -- The integers that are checked against a narrower type.
  read_checked :
      (cell : Cell F) (m : ℕ) (name : Bytes) (n : ℤ) (make : ℤ → Datum F) (d : Datum F)
      → ((c : ℤ) → n ≡ c → ShowsCell 1 cell (make c))
      → and_then (checked_integer_cast m name n) (λ c. ok (make c)) ≡ ok d
      → ShowsCell 1 cell d
  read_checked cell m name n make d shows h =
      let (c, run, made) =
        and_then_inversion (checked_integer_cast m name n) (λ c. ok (make c)) d h in
      read_as 1 cell (make c) d (shows c (checked_integer_cast_inversion m name n c run).0) made

  same_integer :
      (n c : ℤ) → n ≡ c → ◌≡◌ {A = Key} (ordinal integers n) (ordinal integers (c +ℤ pos 0))
  same_integer n c h = ap (ordinal integers) (h ∙ nothing_added c)

  convert_switch-IsCell :
      (name : Bytes) (k : ℕ) (pg_type : PgType) (tz : Bool) (value : ArrowValue F) (d : Datum F)
      → IsCell k pg_type (tz, value)
      → convert_switch l name value pg_type ≡ ok d
      → ShowsCell k (tz, value) d
  unfolding convert_switch integer_value string_value binary_value time_micros timestamp_micros
      boolean_value date_value scale_to_micros cell_key datum_key in_iceberg
  convert_switch-IsCell name _ _ _ _ d (truth tz b) h =
      read_as 0 (tz, bool b) (bool_datum b) d
        (refl, ap (ordinal truths) (nothing_added (truth_key b))) h
  convert_switch-IsCell name _ _ _ _ d (int_small tz n) h =
      read_checked (tz, int32 n) _ _ n int2_datum d (λ c e. (refl, same_integer n c e)) h
  convert_switch-IsCell name _ _ _ _ d (int_int tz n) h =
      read_checked (tz, int32 n) _ _ n int4_datum d (λ c e. (refl, same_integer n c e)) h
  convert_switch-IsCell name _ _ _ _ d (int_big tz n) h =
      read_as 1 (tz, int32 n) (int8_datum n) d (refl, same_integer n n refl) h
  convert_switch-IsCell name _ _ _ _ d (long_big tz n) h =
      read_as 1 (tz, int64 n) (int8_datum n) d (refl, same_integer n n refl) h
  convert_switch-IsCell name _ _ _ _ d (day tz n r) h =
      let e : n ≡ drop_epoch_days n +ℤ pos 10957 =
        rw (wrap32_lem (n +ℤ negsuc 10956) r) (sym (epoch_days_cancel n)) in
      read_as 2 (tz, date32 n) (date_datum (drop_epoch_days n)) d (refl, ap (ordinal dates) e) h
  convert_switch-IsCell name _ _ _ _ d (clock tz t) h =
      read_as 3 (tz, time64 micro t) (time_datum t) d (refl, ap (ordinal times) (nothing_added t)) h
  convert_switch-IsCell name _ _ _ _ d (instant t r) h =
      let e : t ≡ drop_epoch t +ℤ pos 946684800000000 =
        rw (wrap64_lem (t +ℤ negsuc 946684799999999) r) (sym (epoch_cancels t)) in
      read_as 4 (false, timestamp micro t) (timestamp_datum (drop_epoch t)) d
        (refl, ap (ordinal timestamps) e) h
  convert_switch-IsCell name _ _ _ _ d (instant_tz t r) h =
      let e : t ≡ drop_epoch t +ℤ pos 946684800000000 =
        rw (wrap64_lem (t +ℤ negsuc 946684799999999) r) (sym (epoch_cancels t)) in
      read_as 5 (true, timestamp micro t) (timestamptz_datum (drop_epoch t)) d
        (refl, ap (ordinal timestamps_tz) e) h
  convert_switch-IsCell name _ _ _ _ d (words tz s e) h =
      read_as 6 (tz, string s) (text_datum (c_str s)) d (refl, rw (e) (ap characters (sym e))) h
  convert_switch-IsCell name _ _ _ _ d (words_varying tz s e) h =
      read_as 6 (tz, string s) (varchar_datum (c_str s)) d (refl, rw (e) (ap characters (sym e))) h
  convert_switch-IsCell name _ _ _ _ d (raw tz s) h =
      read_as 7 (tz, binary s) (bytea_datum s) d (refl, refl) h

abbrev pub value_in : {F : Type 0} → Option (Cell F) → Option (ArrowValue F)
value_in none = none
value_in (some (tz, value)) = some value

module _ {F : Type 0} (x : Planner F) (row : Row F (Cell F)) (on_loss_is_error : Bool)
    (shown_at : ℤ → Bytes) (type_at : ℤ → PgType) where
  convert_value-Agrees :
      (type : IcebergType) (shown : Bytes) (pg_type : PgType) (cell : Option (Cell F))
      (d : Option (Datum F))
      → ((v : Cell F) → row.value_key v ≡ cell_key v)
      → ((v : Cell F) (k : ℕ)
          → cell ≡ some v
          → kind_of_type type.type_id ≡ some k
          → IsCell k pg_type v)
      → convert_value x.library on_loss_is_error shown (value_in cell) pg_type ≡ ok d
      → Agrees x row type d cell
  unfolding convert_value
  convert_value-Agrees type shown pg_type none d keyed stored h =
      subst (λ d. Agrees x row type d none) (ok_injective h) tt
  convert_value-Agrees type shown pg_type (some (tz, value)) d keyed stored h =
      let (d', run, e) =
        and_then_inversion (convert_some x.library on_loss_is_error shown value pg_type)
          (λ d. ok (some d)) d h in
      let switched = convert_some_inversion x.library on_loss_is_error shown value pg_type d' run in
      subst (λ d. Agrees x row type d (some (tz, value))) (ok_injective e)
        (λ k kind.
          let (has, same) =
            convert_switch-IsCell x.library shown k pg_type tz value d'
              (stored (tz, value) k refl kind) switched in
          (has, keyed (tz, value) ∙ same))

  -- Where the columns are what `ConvertValue` reads from the cells, a scan with the filter that is pushed
  -- down reads each row that the WHERE clause keeps, under these conditions: every column of the row
  -- that is resolved is read without an error; a cell of a field that is not a float, a decimal, a
  -- UUID or a timestamp of nanoseconds is one that `IsCell` names for the type of its column; and the
  -- clauses are safe, as in `translate_quals_for_pushdown-keeps`.
  pub convert_value-keeps :
      (clauses : List (Clause F))
      → ((v : Cell F) → row.value_key v ≡ cell_key v)
      → ((n : ℤ) (column : ColumnTarget) (v : Cell F) (k : ℕ)
          → resolve_column x n ≡ some column
          → row.cell column.field_name ≡ some v
          → kind_of_type column.field_type.type_id ≡ some k
          → IsCell k (type_at n) v)
      → ((n : ℤ) (column : ColumnTarget)
          → resolve_column x n ≡ some column
          → convert_value x.library on_loss_is_error
              (shown_at n)
              (value_in (row.cell column.field_name))
              (type_at n)
            ≡ ok (row.column n))
      → All (SafeClause x) clauses
      → keeps x row clauses ≡ true
      → reads_row x row (translate_quals_for_pushdown x clauses) ≡ true
  convert_value-keeps clauses keyed stored converted safe h =
      translate_quals_for_pushdown-keeps x row clauses
        (λ n column at.
          convert_value-Agrees column.field_type (shown_at n) (type_at n)
            (row.cell column.field_name) (row.column n) keyed
            (λ v k e kind. stored n column v k at e kind) (converted n column at))
        safe h
