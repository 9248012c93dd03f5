-- ===== src/Modify/Keys.antt =====
-- The key of a pending table tells the option tuples apart, and a generated commit id is accepted by
-- the recovery log.
use mathlib.Core.List.{append_assoc, append-nil}
use pgiceberg.Common.{
  ℕ, zero, suc, ◌+◌, ◌*◌, ◌/◌, ◌%◌, ◌≤◌, ◌<◌, ◌≡◌, refl, sym, ap, ◌∙◌, true, List, [], ◌∷◌, ◌++◌,
  some, arith, length, drop, length-append, ltb, Bool-cases, Option-cases, inl, inr,
}
use pgiceberg.Common.Bytes.{Bytes}
use pgiceberg.Common.Decimal.{scan_digits, print_nat, scan_digits-print_nat}
use pgiceberg.Options.{Options}
use pgiceberg.Outside.{Outside, History}
use pgiceberg.Recovery.Log.{is_hex_digit, all_hex_digits, is_safe_commit_id}
use pgiceberg.Modify.Identity.{
  hex_digit, hex_byte, hex_bytes, hex_fuel, hex_nat, generate_commit_id, key_part,
  pending_table_key,
}

scan-key_part : (a x : Bytes) → scan_digits 0 (key_part a ++ x) ≡ (length a, 58 ∷ a ++ x)
unfolding key_part
scan-key_part a x =
    ap (scan_digits 0) (append_assoc (print_nat (length a)) (58 ∷ a) x)
    ∙ scan_digits-print_nat (length a) (58 ∷ a ++ x) refl

same_front : (a b x y : Bytes) → length a ≡ length b → a ++ x ≡ b ++ y → (a ≡ b) × (x ≡ y)
same_front [] [] x y h e = (refl, e)
same_front [] (d ∷ b) x y h e = absurd (omega arith)
same_front (c ∷ a) [] x y h e = absurd (omega arith)
same_front (c ∷ a) (d ∷ b) x y h e =
    let ih : (a ≡ b) × (x ≡ y) = same_front a b x y (omega arith) (cc) in (cc (ih.0), ih.1)

key_part-append-injective :
    (a b x y : Bytes) → key_part a ++ x ≡ key_part b ++ y → (a ≡ b) × (x ≡ y)
key_part-append-injective a b x y e =
    let s : (length a, 58 ∷ a ++ x) ≡ (length b, 58 ∷ b ++ y) =
      sym (scan-key_part a x) ∙ ap (scan_digits 0) e ∙ scan-key_part b y in
    same_front a b x y (ap (λ (p : ℕ × Bytes). p.0) s) (ap (λ (p : ℕ × Bytes). drop 1 p.1) s)

key_part-injective : (a b : Bytes) → key_part a ≡ key_part b → a ≡ b
key_part-injective a b e =
    (key_part-append-injective a b [] []
      (rw (append-nil (key_part a)) (rw (append-nil (key_part b)) e))).0

-- Equal keys come from options that agree in all seven texts: the key splits back into its parts,
-- whatever bytes they hold. (`snapshot_id` is no part of the key.)
pub pending_table_key-injective :
    (p q : Options)
    → pending_table_key p ≡ pending_table_key q
    → record p { snapshot_id = q.snapshot_id } ≡ q
unfolding pending_table_key
pending_table_key-injective p q e =
    let (e₁, r₁) = key_part-append-injective _ _ _ _ e in
    let (e₂, r₂) = key_part-append-injective _ _ _ _ r₁ in
    let (e₃, r₃) = key_part-append-injective _ _ _ _ r₂ in
    let (e₄, r₄) = key_part-append-injective _ _ _ _ r₃ in
    let (e₅, r₅) = key_part-append-injective _ _ _ _ r₄ in
    let (e₆, r₆) = key_part-append-injective _ _ _ _ r₅ in
    let e₇ = key_part-injective _ _ r₆ in
    λ i. record {
      catalog = e₁ i;
      catalog_type = e₂ i;
      catalog_uri = e₃ i;
      warehouse = e₄ i;
      catalog_name = e₅ i;
      name_space = e₆ i;
      table = e₇ i;
      snapshot_id = q.snapshot_id;
    }

-- Commit ids.
hex_digit-is_hex : (d : ℕ) → d < 16 → is_hex_digit (hex_digit d) ≡ true
hex_digit-is_hex d h = ground arith

all_hex_digits-append :
    (xs ys : Bytes)
    → all_hex_digits xs ≡ true
    → all_hex_digits ys ≡ true
    → all_hex_digits (xs ++ ys) ≡ true
all_hex_digits-append [] ys h k = k
all_hex_digits-append (x ∷ xs) ys h k = ground (arith, all_hex_digits-append xs ys)

hex_bytes-all_hex : (bs : List ℕ) → all_hex_digits (hex_bytes bs) ≡ true
unfolding hex_bytes hex_byte
hex_bytes-all_hex [] = refl
hex_bytes-all_hex (b ∷ bs) =
    ground (arith, hex_digit-is_hex (b / 16 % 16), hex_digit-is_hex (b % 16), hex_bytes-all_hex bs)

length-hex_bytes : (bs : List ℕ) → length (hex_bytes bs) ≡ 2 * length bs
unfolding hex_bytes hex_byte
length-hex_bytes [] = omega arith
length-hex_bytes (b ∷ bs) = omega (arith, length-hex_bytes bs)

hex_fuel-all_hex :
    (fuel n : ℕ) (rest : Bytes)
    → all_hex_digits rest ≡ true
    → all_hex_digits (hex_fuel fuel n rest) ≡ true
unfolding hex_fuel
hex_fuel-all_hex zero n rest h = h
hex_fuel-all_hex (suc fuel) n rest h = elim (Bool-cases (ltb n 16)) [
  | inl e ↦ rw (e, hex_fuel) (ground (arith, hex_digit-is_hex n))
  | inr e ↦
      rw (e, hex_fuel)
        (hex_fuel-all_hex fuel (n / 16) (hex_digit (n % 16) ∷ rest)
          (ground (arith, hex_digit-is_hex (n % 16))))
]

length-hex_fuel :
    (fuel n : ℕ) (rest : Bytes)
    → (length rest ≤ length (hex_fuel fuel n rest))
      × (length (hex_fuel fuel n rest) ≤ length rest + fuel)
unfolding hex_fuel
length-hex_fuel zero n rest = omega arith
length-hex_fuel (suc fuel) n rest = elim (Bool-cases (ltb n 16)) [
  | inl e ↦ rw (e, hex_fuel) (omega arith)
  | inr e ↦
      rw (e, hex_fuel) (omega (arith, length-hex_fuel fuel (n / 16) (hex_digit (n % 16) ∷ rest)))
]

length-hex_nat : (n : ℕ) → (1 ≤ length (hex_nat n)) × (length (hex_nat n) ≤ 16)
unfolding hex_nat
length-hex_nat n = (first 15 [], omega (arith, length-hex_fuel 16 n []))
  where
    first : (fuel : ℕ) (rest : Bytes) → 1 ≤ length (hex_fuel (suc fuel) n rest)
    first fuel rest = elim (Bool-cases (ltb n 16)) [
      | inl e ↦ rw (e, hex_fuel) (omega arith)
      | inr e ↦
          rw (e, hex_fuel)
            (omega (arith, length-hex_fuel fuel (n / 16) (hex_digit (n % 16) ∷ rest)))
    ]

hex_nat-all_hex : (n : ℕ) → all_hex_digits (hex_nat n) ≡ true
unfolding hex_nat
hex_nat-all_hex n = hex_fuel-all_hex 16 n [] refl

is_safe-all_hex :
    (id : Bytes)
    → 1 ≤ length id
    → length id ≤ 128
    → all_hex_digits id ≡ true
    → is_safe_commit_id id ≡ true
unfolding is_safe_commit_id
is_safe-all_hex [] low high h = absurd (omega arith)
is_safe-all_hex (c ∷ cs) low high h = ground arith

three_numbers : (a b c : ℕ) → is_safe_commit_id (hex_nat a ++ hex_nat b ++ hex_nat c) ≡ true
three_numbers a b c =
    is_safe-all_hex _
      (omega (
        arith,
        length-append (hex_nat a ++ hex_nat b) (hex_nat c),
        length-append (hex_nat a) (hex_nat b),
        length-hex_nat a,
      ))
      (omega (
        arith,
        length-append (hex_nat a ++ hex_nat b) (hex_nat c),
        length-append (hex_nat a) (hex_nat b),
        length-hex_nat a,
        length-hex_nat b,
        length-hex_nat c,
      ))
      (all_hex_digits-append (hex_nat a ++ hex_nat b) (hex_nat c)
        (all_hex_digits-append (hex_nat a) (hex_nat b) (hex_nat-all_hex a) (hex_nat-all_hex b))
        (hex_nat-all_hex c))

module _ {Table Transaction : Type 0} (o : Outside Table Transaction) where
  -- Every commit id that is generated is one that the recovery log accepts, from random bytes (of
  -- which there are sixteen) and from the fallback alike.
  pub generate_commit_id-safe :
      (h : History)
      → ((bytes : List ℕ) → o.strong_random h ≡ some bytes → length bytes ≡ 16)
      → is_safe_commit_id (generate_commit_id o h) ≡ true
  unfolding generate_commit_id
  generate_commit_id-safe h sixteen = elim (Option-cases (o.strong_random h)) [
    | inl e ↦
        rw (e, generate_commit_id)
          (three_numbers o.top_transaction_id o.process_id (o.current_timestamp h))
    | inr (bytes, e) ↦
        rw (e, generate_commit_id)
          (is_safe-all_hex (hex_bytes bytes)
            (omega (arith, length-hex_bytes bytes, sixteen bytes e))
            (omega (arith, length-hex_bytes bytes, sixteen bytes e)) (hex_bytes-all_hex bytes))
  ]
