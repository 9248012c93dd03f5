-- ===== src/Convert/Typed.antt =====
-- The types of the values that `ConvertValue` of src/common/datum_convert.cc gives.
use pgiceberg.Common.{
  some-injective, ℕ, ◌^◌, ap, ◌∙◌, ◌≡◌, refl, subst, length, ◌==◌, ==_iff, Bool, Option, none, some,
  Bool-cases, inl, inr, ◌&&◌,
}
use pgiceberg.Common.Bytes.{Bytes, text}
use pgiceberg.Common.Int.{ℤ, InSigned, in_signed, int32_min}
use pgiceberg.Status.{Result, err_not_ok, and_then, ok, ok_injective, and_then_inversion}
use pgiceberg.Logical.Mirror.{c_str}
use pgiceberg.Schema.{
  PgType, bool_oid, int2_oid, int4_oid, int8_oid, float4_oid, float8_oid, numeric_oid, bytea_oid,
  uuid_oid, date_oid, time_oid, timestamp_oid, timestamptz_oid, text_oid, varchar_oid, bpchar_oid,
  invalid_oid, other_oid,
}
use pgiceberg.Convert.{
  ArrowValue, Datum, bool_datum, int2_datum, int4_datum, int8_datum, float4_datum, float8_datum,
  numeric_datum, text_datum, varchar_datum, bpchar_datum, bytea_datum, date_datum, time_datum,
  timestamp_datum, timestamptz_datum, Library,
}
use pgiceberg.Convert.Read.{
  integer_value, binary_value, checked_integer_cast, uuid_get_datum, floating_value,
  is_nanosecond_temporal_array, of_value, convert_switch, convert_some, convert_value,
}
use pgiceberg.Convert.Write.{pg_type_of}
use pgiceberg.Convert.Ranges.{
  IsArrow, InRange, InSigned-in_signed, integer_value-InSigned, time_micros-InSigned,
  date_value-InSigned, timestamp_micros-InSigned,
}

abbrev pub IsOf : {F : Type 0} → PgType → Datum F → Type 0
IsOf pg_type d = (pg_type_of d ≡ pg_type) × InRange d

pub checked_integer_cast_inversion :
    (m : ℕ) (name : Bytes) (n c : ℤ) → checked_integer_cast m name n ≡ ok c → (n ≡ c) × InSigned m c
unfolding checked_integer_cast
checked_integer_cast_inversion m name n c h = elim (Bool-cases (in_signed m n)) [
  | inl e ↦
      let same : n ≡ c = ok_injective (rw (e, checked_integer_cast) at h) in
      (same, subst (λ k. InSigned m k) same (InSigned-in_signed m n e))
  | inr e ↦ absurd (err_not_ok _ _ (rw (e, checked_integer_cast) at h))
]

module _ {F : Type 0} (l : Library F) where
  -- A case of the switch that succeeds had a value.
  of_value_inversion :
      {A : Type 0} (name : Bytes) (f : A → Result (Datum F)) (o : Option A) (d : Datum F)
      → of_value l name f o ≡ ok d
      → (a : A) × (o ≡ some a) × (f a ≡ ok d)
  of_value_inversion name f none d h = absurd (err_not_ok _ _ h)
  of_value_inversion name f (some a) d h = (a, refl, h)

  -- A case whose constructor makes data of a type.
  plain-IsOf :
      {A : Type 0} (name : Bytes) (pg_type : PgType) (make : A → Datum F) (o : Option A)
      (d : Datum F)
      → ((a : A) → o ≡ some a → IsOf pg_type (make a))
      → of_value l name (λ a. ok (make a)) o ≡ ok d
      → IsOf pg_type d
  plain-IsOf name pg_type make o d same h =
      let (a, e, made) = of_value_inversion name (λ a. ok (make a)) o d h in
      subst (IsOf pg_type) (ok_injective made) (same a e)

  -- The same behind a step that may fail.
  after-IsOf :
      {A : Type 0} (name : Bytes) (pg_type : PgType) (make : A → Datum F) (r : Result (Option A))
      (d : Datum F)
      → ((a : A) → r ≡ ok (some a) → IsOf pg_type (make a))
      → and_then r (of_value l name λ a. ok (make a)) ≡ ok d
      → IsOf pg_type d
  after-IsOf name pg_type make r d same h =
      let (o, q, e) = and_then_inversion r (of_value l name λ a. ok (make a)) d h in
      plain-IsOf name pg_type make o d (λ a e'. same a (q ∙ ap ok e')) e

  checked-IsOf :
      (name type_name : Bytes) (m : ℕ) (pg_type : PgType) (make : ℤ → Datum F)
      (r : Result (Option ℤ)) (d : Datum F)
      → ((n : ℤ) → InSigned m n → IsOf pg_type (make n))
      → and_then r
          (of_value l name λ n. and_then (checked_integer_cast m type_name n) (λ c. ok (make c)))
        ≡ ok d
      → IsOf pg_type d
  checked-IsOf name type_name m pg_type make r d same h =
      let cast = λ (n : ℤ). and_then (checked_integer_cast m type_name n) (λ c. ok (make c)) in
      let (o, _, e) = and_then_inversion r (of_value l name cast) d h in
      let (n, _, k) = of_value_inversion name cast o d e in
      let (c, fits, made) =
        and_then_inversion (checked_integer_cast m type_name n) (λ c. ok (make c)) d k in
      subst (IsOf pg_type) (ok_injective made)
        (same c (checked_integer_cast_inversion m type_name n c fits).1)

  uuid-IsOf :
      (name : Bytes) (o : Option Bytes) (d : Datum F)
      → of_value l name uuid_get_datum o ≡ ok d
      → IsOf uuid_oid d
  unfolding uuid_get_datum pg_type_of
  uuid-IsOf name o d h =
      let (s, _, e) = of_value_inversion name uuid_get_datum o d h in
      elim (Bool-cases (length s == 16)) [
        | inl w ↦
            subst (IsOf uuid_oid) (ok_injective (rw (w, uuid_get_datum) at e))
              (refl, (==_iff _ _).0 w)
        | inr w ↦ absurd (err_not_ok _ _ (rw (w, uuid_get_datum) at e))
      ]

  convert_switch-IsOf :
      (name : Bytes) (value : ArrowValue F) (pg_type : PgType) (d : Datum F)
      → IsArrow value
      → convert_switch l name value pg_type ≡ ok d
      → IsOf pg_type d
  unfolding convert_switch pg_type_of
  convert_switch-IsOf name value int2_oid d r h =
      checked-IsOf name (text "smallint") (2 ^ 15) int2_oid int2_datum (integer_value value) d
        (λ n fits. (refl, fits)) h
  convert_switch-IsOf name value int4_oid d r h =
      checked-IsOf name (text "integer") int32_min int4_oid int4_datum (integer_value value) d
        (λ n fits. (refl, fits)) h
  convert_switch-IsOf name value int8_oid d r h =
      after-IsOf name int8_oid int8_datum (integer_value value) d
        (λ n e. (refl, integer_value-InSigned value n r e)) h
  convert_switch-IsOf name value float4_oid d r h =
      after-IsOf name float4_oid (λ f. float4_datum (l.narrow f)) (floating_value l value) d
        (λ f _. (refl, tt)) h
  convert_switch-IsOf name value float8_oid d r h =
      after-IsOf name float8_oid float8_datum (floating_value l value) d (λ f _. (refl, tt)) h
  convert_switch-IsOf name value numeric_oid d r h =
      plain-IsOf name numeric_oid (λ s. numeric_datum (l.numeric_in s)) _ d (λ s _. (refl, tt)) h
  convert_switch-IsOf name value text_oid d r h =
      plain-IsOf name text_oid (λ s. text_datum (c_str s)) _ d (λ s _. (refl, tt)) h
  convert_switch-IsOf name value varchar_oid d r h =
      plain-IsOf name varchar_oid (λ s. varchar_datum (c_str s)) _ d (λ s _. (refl, tt)) h
  convert_switch-IsOf name value bpchar_oid d r h =
      plain-IsOf name bpchar_oid (λ s. bpchar_datum (c_str s)) _ d (λ s _. (refl, tt)) h
  convert_switch-IsOf name value bytea_oid d r h =
      plain-IsOf name bytea_oid bytea_datum _ d (λ s _. (refl, tt)) h
  convert_switch-IsOf name value uuid_oid d r h = uuid-IsOf name (binary_value value) d h
  convert_switch-IsOf name value bool_oid d r h =
      plain-IsOf name bool_oid bool_datum _ d (λ b _. (refl, tt)) h
  convert_switch-IsOf name value date_oid d r h =
      plain-IsOf name date_oid date_datum _ d (λ n e. (refl, date_value-InSigned value n e)) h
  convert_switch-IsOf name value time_oid d r h =
      plain-IsOf name time_oid time_datum _ d (λ t e. (refl, time_micros-InSigned value t r e)) h
  convert_switch-IsOf name value timestamp_oid d r h =
      plain-IsOf name timestamp_oid timestamp_datum _ d
        (λ t e. (refl, timestamp_micros-InSigned value t e)) h
  convert_switch-IsOf name value timestamptz_oid d r h =
      plain-IsOf name timestamptz_oid timestamptz_datum _ d
        (λ t e. (refl, timestamp_micros-InSigned value t e)) h
  convert_switch-IsOf name value invalid_oid d r h = absurd (err_not_ok _ _ h)
  convert_switch-IsOf name value other_oid d r h = absurd (err_not_ok _ _ h)

  -- A cell that is read has passed the test of nanoseconds.
  pub convert_some_inversion :
      (on_loss_is_error : Bool) (name : Bytes) (value : ArrowValue F) (pg_type : PgType)
      (d : Datum F)
      → convert_some l on_loss_is_error name value pg_type ≡ ok d
      → convert_switch l name value pg_type ≡ ok d
  unfolding convert_some
  convert_some_inversion on_loss_is_error name value pg_type d h =
      elim (Bool-cases (on_loss_is_error && is_nanosecond_temporal_array value)) [
        | inl t ↦ absurd (err_not_ok _ _ (rw (t, convert_some) at h))
        | inr f ↦ rw (f, convert_some) at h
      ]

  -- A cell that can be read, and whose number is one of its Arrow type, gives a datum of the type of the
  -- column: an integer, a date or a time within the machine integer that the type is passed in, and a
  -- UUID of sixteen bytes.
  pub convert_value-IsOf :
      (on_loss_is_error : Bool) (name : Bytes) (value : ArrowValue F) (pg_type : PgType)
      (d : Datum F)
      → IsArrow value
      → convert_value l on_loss_is_error name (some value) pg_type ≡ ok (some d)
      → IsOf pg_type d
  unfolding convert_value
  convert_value-IsOf on_loss_is_error name value pg_type d r h =
      let (d', run, e) =
        and_then_inversion (convert_some l on_loss_is_error name value pg_type) (λ d. ok (some d))
          (some d) h in
      subst (IsOf pg_type) (some-injective (ok_injective e)) (
        convert_switch-IsOf name value pg_type d' r
          (convert_some_inversion on_loss_is_error name value pg_type d' run))
