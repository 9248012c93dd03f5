-- ===== src/Logical/BatchNames.antt =====
-- What the name of a batch says of the batch: `LogicalBatchId` of src/logical/logical.cc.
use mathlib.Core.Path.{ap₂}
use native.Mathlib.Nat.{pow-succ'}
use pgiceberg.Common.{
  ℕ, zero, suc, ◌+◌, ◌*◌, ◌/◌, ◌%◌, ◌^◌, ◌<◌, ◌≡◌, ◌≢◌, refl, sym, ap, ◌∙◌, List, [], ◌∷◌, ◌++◌,
  arith, length, take, drop, take-length-append, drop-length-append, All,
}
use pgiceberg.Common.Bytes.{Bytes}
use pgiceberg.Logical.Slot.{SlotChange}
use pgiceberg.Logical.BatchId.{big_endian, hashed_value, hashed_rows, hashed_batch}

-- A text whose length is one of 64 bits, as every `std::string`.
abbrev pub IsShort : Bytes → Type 0
IsShort value = length value < 2 ^ 64

abbrev pub AreShort : List SlotChange → Type 0
AreShort rows = All (λ row. IsShort row.0 × IsShort row.1) rows

big_endian-injective :
    (k n n' : ℕ) (rest rest' : Bytes)
    → n < 256 ^ k
    → n' < 256 ^ k
    → big_endian k n rest ≡ big_endian k n' rest'
    → (n ≡ n') × (rest ≡ rest')
unfolding big_endian
big_endian-injective zero n n' rest rest' l l' h = (omega arith, h)
big_endian-injective (suc k) n n' rest rest' l l' h =
    let power : 256 ^ suc k ≡ 256 * 256 ^ k = pow-succ' 256 k in
    let (high, low) =
      big_endian-injective k (n / 256) (n' / 256) (n % 256 ∷ rest) (n' % 256 ∷ rest') (omega arith)
        (omega arith) h in
    let digit : n % 256 ≡ n' % 256 = ap first_byte low in (omega arith, ap (drop 1) low)
  where
    first_byte : Bytes → ℕ
    first_byte [] = 0
    first_byte (c ∷ cs) = c

hashed_value-injective :
    (value value' rest rest' : Bytes)
    → IsShort value
    → IsShort value'
    → hashed_value value rest ≡ hashed_value value' rest'
    → (value ≡ value') × (rest ≡ rest')
unfolding hashed_value
hashed_value-injective value value' rest rest' l l' h =
    let (size, bytes) =
      big_endian-injective 8 (length value % 2 ^ 64) (length value' % 2 ^ 64) _ _ (omega arith)
        (omega arith) h in
    let same : length value ≡ length value' = omega (arith, l, l') in
    (
      sym (take-length-append value rest)
          ∙ (ap (λ xs. take (length value) xs) bytes
              ∙ (ap (λ n. take n (value' ++ rest')) same ∙ take-length-append value' rest')),
      sym (drop-length-append value rest)
          ∙ (ap (λ xs. drop (length value) xs) bytes
              ∙ (ap (λ n. drop n (value' ++ rest')) same ∙ drop-length-append value' rest')),
    )

big_endian-length : (k n : ℕ) (rest : Bytes) → length (big_endian k n rest) ≡ k + length rest
unfolding big_endian
big_endian-length zero n rest = omega arith
big_endian-length (suc k) n rest = big_endian-length k (n / 256) (n % 256 ∷ rest) ∙ omega arith

hashed_rows-not_empty : (row : SlotChange) (rows : List SlotChange) → hashed_rows (row ∷ rows) ≢ []
unfolding hashed_rows hashed_value
hashed_rows-not_empty (lsn, change) rows h =
    let size =
      big_endian-length 8 (length lsn % 2 ^ 64) (lsn ++ hashed_value change (hashed_rows rows)) in
    let none : length
          (big_endian 8 (length lsn % 2 ^ 64) (lsn ++ hashed_value change (hashed_rows rows)))
        ≡ 0 =
      ap length h in
    absurd (omega arith)

hashed_rows-injective :
    (rows rows' : List SlotChange)
    → AreShort rows
    → AreShort rows'
    → hashed_rows rows ≡ hashed_rows rows'
    → rows ≡ rows'
unfolding hashed_rows
hashed_rows-injective [] [] s s' h = refl
hashed_rows-injective [] (row ∷ rows') s s' h = absurd (hashed_rows-not_empty row rows' (sym h))
hashed_rows-injective (row ∷ rows) [] s s' h = absurd (hashed_rows-not_empty row rows h)
hashed_rows-injective ((lsn, change) ∷ rows) ((lsn', change') ∷ rows') ((a, b), s) ((a', b'), s')
      h =
    let (e, h₁) = hashed_value-injective lsn lsn' _ _ a a' h in
    let (e₁, h₂) = hashed_value-injective change change' _ _ b b' h₁ in
    let ih = hashed_rows-injective rows rows' s s' h₂ in
    let head : ◌≡◌ {A = SlotChange} (lsn, change) (lsn', change') = ap₂ (λ a b. (a, b)) e e₁ in
    ap₂ (λ a b. a ∷ b) head ih

-- Two batches that give the hash the same bytes are the same, of the same slot.
pub hashed_batch-injective :
    (slot_name slot_name' : Bytes) (rows rows' : List SlotChange)
    → IsShort slot_name
    → IsShort slot_name'
    → AreShort rows
    → AreShort rows'
    → hashed_batch slot_name rows ≡ hashed_batch slot_name' rows'
    → (slot_name ≡ slot_name') × (rows ≡ rows')
unfolding hashed_batch
hashed_batch-injective slot_name slot_name' rows rows' a a' s s' h =
    let (e, h₁) = hashed_value-injective slot_name slot_name' _ _ a a' h in
    (e, hashed_rows-injective rows rows' s s' h₁)
