-- ===== src/Common/Bytes.antt =====
-- `std::string` and `std::string_view`: sequences of bytes.
use Prim.Native.Char.{code}
use Prim.Native.String.{String}
use pgiceberg.Common.{ℕ, ◌≡◌, refl, ◌↔◌, Bool, true, false, ◌&&◌, List, [], ◌∷◌, arith, ◌==◌}

abbrev pub Bytes : Type 0
Bytes = List ℕ

-- A string literal of the source.
unfoldable pub text : String → Bytes
text String.[] = []
text (String.◌∷◌ c s) = code c ∷ text s

unfoldable pub eqb : Bytes → Bytes → Bool
eqb [] [] = true
eqb [] (y ∷ ys) = false
eqb (x ∷ xs) [] = false
eqb (x ∷ xs) (y ∷ ys) = x == y && eqb xs ys

pub eqb_iff : (xs ys : Bytes) → (eqb xs ys ≡ true) ↔ (xs ≡ ys)
unfolding eqb
eqb_iff [] [] = ground arith
eqb_iff [] (y ∷ ys) = ground arith
eqb_iff (x ∷ xs) [] = ground arith
eqb_iff (x ∷ xs) (y ∷ ys) = ground (arith, eqb_iff xs ys)

pub eqb_refl : (xs : Bytes) → eqb xs xs ≡ true
eqb_refl xs = (eqb_iff xs xs).1 refl

-- A text that equals one constant is not another.
pub eqb_exclusive : (v a b : Bytes) → eqb a b ≡ false → eqb v a ≡ true → eqb v b ≡ false
eqb_exclusive v a b d h = rw ((eqb_iff v a).0 h) d
