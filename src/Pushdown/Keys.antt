-- ===== src/Pushdown/Keys.antt =====
-- The order of the keys that the constants of src/fdw/qual_pushdown.cc and the literals are compared by.
use pgiceberg.Common.{
  ℕ, zero, suc, ◌≤◌, ◌<◌, ◌≡◌, refl, sym, ap, subst, ◌∙◌, Bool, true, false, not, [], ◌∷◌, Option,
  none, some, ◌==◌, arith, none_not_some, some-injective,
}
use pgiceberg.Common.Bytes.{Bytes, eqb}
use pgiceberg.Common.Int.{ℤ, pos, ◌+ℤ◌}
use pgiceberg.Schema.{
  TypeId, boolean, int, long, date, time, timestamp, timestamp_tz, string, binary,
}
use pgiceberg.Pushdown.Comparison.{
  PgComparison, eq_to, not_eq, lt, lt_eq, gt, gt_eq, like, not_like, commute_comparison,
  commute_comparison-holds,
}
use pgiceberg.Pushdown.Meaning.{
  Family, truths, integers, dates, times, timestamps, timestamps_tz, Key, ordinal, characters,
  octets, opaque, family_code, epoch_of, in_iceberg, byte_lt, bytes_hold, integers_hold, keys_hold,
}

-- The kinds of keys that are compared, by number, and the kind that a column's type has.
abbrev pub kind_of : Key → Option ℕ
kind_of (ordinal f n) = some (family_code f)
kind_of (characters s) = some 6
kind_of (octets s) = some 7
kind_of opaque = none

unfoldable pub kind_of_type : TypeId → Option ℕ
kind_of_type boolean = some 0
kind_of_type int = some 1
kind_of_type long = some 1
kind_of_type date = some 2
kind_of_type time = some 3
kind_of_type timestamp = some 4
kind_of_type timestamp_tz = some 5
kind_of_type string = some 6
kind_of_type binary = some 7
kind_of_type other = none

abbrev pub is_like : PgComparison → Bool
is_like like = true
is_like not_like = true
is_like other = false

family_of_code : ℕ → Family
family_of_code zero = truths
family_of_code (suc zero) = integers
family_of_code (suc (suc zero)) = dates
family_of_code (suc (suc (suc zero))) = times
family_of_code (suc (suc (suc (suc zero)))) = timestamps
family_of_code other = timestamps_tz

family_of_code-family_code : (f : Family) → family_of_code (family_code f) ≡ f
unfolding family_of_code
family_of_code-family_code truths = refl
family_of_code-family_code integers = refl
family_of_code-family_code dates = refl
family_of_code-family_code times = refl
family_of_code-family_code timestamps = refl
family_of_code-family_code timestamps_tz = refl

family_code-injective : (f g : Family) → family_code f ≡ family_code g → f ≡ g
family_code-injective f g h =
    sym (family_of_code-family_code f) ∙ ap family_of_code h ∙ family_of_code-family_code g

integers_hold-shift :
    (c : PgComparison) (m n : ℤ) (k : ℕ)
    → integers_hold c (m +ℤ pos k) (n +ℤ pos k) ≡ integers_hold c m n
unfolding integers_hold ◌+ℤ◌
integers_hold-shift eq_to m n k = ground arith
integers_hold-shift not_eq m n k = ground arith
integers_hold-shift lt m n k = ground arith
integers_hold-shift lt_eq m n k = ground arith
integers_hold-shift gt m n k = ground arith
integers_hold-shift gt_eq m n k = ground arith
integers_hold-shift like m n k = refl
integers_hold-shift not_like m n k = refl

same_code : (n : ℕ) → (n == n) ≡ true
same_code n = ground arith

pub family_code_small : (f : Family) → family_code f < 6
family_code_small truths = omega arith
family_code_small integers = omega arith
family_code_small dates = omega arith
family_code_small times = omega arith
family_code_small timestamps = omega arith
family_code_small timestamps_tz = omega arith

-- Keys of one kind.
abbrev pub HasKind : ℕ → Key → Type 0
HasKind k a = kind_of a ≡ some k

not_family :
    {A : Type 0} (f : Family) (k n : ℕ)
    → 6 ≤ n
    → some (family_code f) ≡ some k
    → some n ≡ some k
    → A
not_family f k n big h e =
    let small = family_code_small f in
    let same : family_code f ≡ n = some-injective (h ∙ sym e) in absurd (omega (arith, small, same))

-- The step from PostgreSQL's epoch to that of Iceberg keeps what a comparison says.
pub keys_hold-in_iceberg :
    (o o' : Bool) (c : PgComparison) (k : ℕ) (a b : Key)
    → HasKind k a
    → HasKind k b
    → keys_hold o c a b ≡ true
    → keys_hold o' c (in_iceberg a) (in_iceberg b) ≡ true
unfolding keys_hold in_iceberg
keys_hold-in_iceberg o o' c k (ordinal f m) (ordinal g n) ha hb h =
    let e : f ≡ g = family_code-injective f g (some-injective (ha ∙ sym hb)) in
    subst
      (λ g'.
        keys_hold o c (ordinal f m) (ordinal g' n) ≡ true
        → keys_hold o' c (in_iceberg (ordinal f m)) (in_iceberg (ordinal g' n)) ≡ true)
      e
      (λ p.
        rw (same_code (family_code f))
          (integers_hold-shift c m n (epoch_of f) ∙ (rw (same_code (family_code f)) at p)))
      h
keys_hold-in_iceberg o o' c k (characters s) (characters t) ha hb h = h
keys_hold-in_iceberg o o' c k (octets s) (octets t) ha hb h = h
keys_hold-in_iceberg o o' c k (ordinal f m) (characters t) ha hb h =
    not_family f k 6 (omega arith) ha hb
keys_hold-in_iceberg o o' c k (ordinal f m) (octets t) ha hb h =
    not_family f k 7 (omega arith) ha hb
keys_hold-in_iceberg o o' c k (characters s) (ordinal g n) ha hb h =
    not_family g k 6 (omega arith) hb ha
keys_hold-in_iceberg o o' c k (octets s) (ordinal g n) ha hb h =
    not_family g k 7 (omega arith) hb ha
keys_hold-in_iceberg o o' c k (characters s) (octets t) ha hb h =
    let same : ◌≡◌ {A = ℕ} 6 7 = some-injective (ha ∙ sym hb) in absurd (omega (arith, same))
keys_hold-in_iceberg o o' c k (octets s) (characters t) ha hb h =
    let same : ◌≡◌ {A = ℕ} 7 6 = some-injective (ha ∙ sym hb) in absurd (omega (arith, same))
keys_hold-in_iceberg o o' c k opaque b ha hb h = absurd (none_not_some k ha)
keys_hold-in_iceberg o o' c k (ordinal f m) opaque ha hb h = absurd (none_not_some k hb)
keys_hold-in_iceberg o o' c k (characters s) opaque ha hb h = absurd (none_not_some k hb)
keys_hold-in_iceberg o o' c k (octets s) opaque ha hb h = absurd (none_not_some k hb)

eqb_sym : (s t : Bytes) → eqb s t ≡ eqb t s
unfolding eqb
eqb_sym [] [] = refl
eqb_sym [] (y ∷ ys) = refl
eqb_sym (x ∷ xs) [] = refl
eqb_sym (x ∷ xs) (y ∷ ys) = ground (arith, eqb_sym xs ys)

bytes_hold-commuted :
    (c d : PgComparison) (s t : Bytes)
    → commute_comparison c ≡ some d
    → bytes_hold d t s ≡ bytes_hold c s t
unfolding bytes_hold commute_comparison
bytes_hold-commuted eq_to d s t h =
    subst (λ d. bytes_hold d t s ≡ eqb s t) (some-injective h) (eqb_sym t s)
bytes_hold-commuted not_eq d s t h =
    subst (λ d. bytes_hold d t s ≡ not (eqb s t)) (some-injective h) (ap not (eqb_sym t s))
bytes_hold-commuted lt d s t h = subst (λ d. bytes_hold d t s ≡ byte_lt s t) (some-injective h) refl
bytes_hold-commuted lt_eq d s t h =
    subst (λ d. bytes_hold d t s ≡ not (byte_lt t s)) (some-injective h) refl
bytes_hold-commuted gt d s t h = subst (λ d. bytes_hold d t s ≡ byte_lt t s) (some-injective h) refl
bytes_hold-commuted gt_eq d s t h =
    subst (λ d. bytes_hold d t s ≡ not (byte_lt s t)) (some-injective h) refl
bytes_hold-commuted like d s t h = absurd (none_not_some _ h)
bytes_hold-commuted not_like d s t h = absurd (none_not_some _ h)

same_code_sym : (m n : ℕ) → (m == n) ≡ (n == m)
same_code_sym m n = ground arith

-- A commuted comparison says of the swapped keys what the first says.
pub keys_hold-commuted :
    (o : Bool) (c d : PgComparison) (a b : Key)
    → commute_comparison c ≡ some d
    → keys_hold o c a b ≡ keys_hold o d b a
unfolding keys_hold integers_hold
keys_hold-commuted o c d (ordinal f m) (ordinal g n) h =
    rw (same_code_sym (family_code f) (family_code g), commute_comparison-holds c d m n h) refl
keys_hold-commuted o c d (characters s) (characters t) h = sym (bytes_hold-commuted c d s t h)
keys_hold-commuted o c d (octets s) (octets t) h = sym (bytes_hold-commuted c d s t h)
keys_hold-commuted o c d (ordinal f m) (characters t) h = refl
keys_hold-commuted o c d (ordinal f m) (octets t) h = refl
keys_hold-commuted o c d (ordinal f m) opaque h = refl
keys_hold-commuted o c d (characters s) (ordinal g n) h = refl
keys_hold-commuted o c d (characters s) (octets t) h = refl
keys_hold-commuted o c d (characters s) opaque h = refl
keys_hold-commuted o c d (octets s) (ordinal g n) h = refl
keys_hold-commuted o c d (octets s) (characters t) h = refl
keys_hold-commuted o c d (octets s) opaque h = refl
keys_hold-commuted o c d opaque (ordinal g n) h = refl
keys_hold-commuted o c d opaque (characters t) h = refl
keys_hold-commuted o c d opaque (octets t) h = refl
keys_hold-commuted o c d opaque opaque h = refl
