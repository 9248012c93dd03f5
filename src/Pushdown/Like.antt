-- ===== src/Pushdown/Like.antt =====
-- `StartsWithPrefix` of src/fdw/qual_pushdown.cc, and the LIKE patterns that it stands for.
use pgiceberg.Common.{
  ℕ, ◌≡◌, refl, sym, subst, Bool, true, false, ◌&&◌, ◌||◌, not, [], ◌∷◌, ◌++◌, Option, none, some,
  arith, any_of, is_empty, ◌==◌, Bool-cases, Option-cases, inl, inr, if◌then◌else◌,
}
use pgiceberg.Common.Bytes.{Bytes}

abbrev put_front : ℕ → Option (Bytes × ℕ) → Option (Bytes × ℕ)
put_front c none = some ([], c)
put_front c (some (front, last)) = some (c ∷ front, last)

-- All but the last byte, and the last.
unfoldable pub split_last : Bytes → Option (Bytes × ℕ)
split_last [] = none
split_last (c ∷ cs) = put_front c (split_last cs)

-- '%', '_' and the backslash.
abbrev pub is_special : ℕ → Bool
is_special c = c == 37 || (c == 95 || c == 92)

unfoldable pub prefix_of_split : Option (Bytes × ℕ) → Option Bytes
prefix_of_split none = none
prefix_of_split (some (prefix, last)) =
    if not (last == 37) then none else if any_of is_special prefix then none else some prefix

unfoldable pub starts_with_prefix : Bytes → Option Bytes
starts_with_prefix pattern = prefix_of_split (split_last pattern)

-- PostgreSQL's LIKE on single-byte text. The flag says that the byte before was an escaping backslash;
-- a pattern that ends in one is an error there and ends here.
next_is : ℕ → Bytes → (Bytes → Bool) → Bool
next_is p [] k = false
next_is p (c ∷ s) k = c == p && k s

next_any : Bytes → (Bytes → Bool) → Bool
next_any [] k = false
next_any (c ∷ s) k = k s

some_suffix : (Bytes → Bool) → Bytes → Bool
some_suffix k [] = k []
some_suffix k (c ∷ s) = k (c ∷ s) || some_suffix k s

unfoldable pub like_matches : Bool → Bytes → Bytes → Bool
unfolding next_is next_any some_suffix
like_matches escaped [] s = is_empty s
like_matches true (p ∷ ps) s = next_is p s (like_matches false ps)
like_matches false (p ∷ ps) s = elim (p == 92) [
  | true ↦ like_matches true ps s
  | false ↦ elim (p == 37) [
    | true ↦ some_suffix (like_matches false ps) s
    | false ↦ elim (p == 95) [
      | true ↦ next_any s (like_matches false ps)
      | false ↦ next_is p s (like_matches false ps)
    ]
  ]
]

-- Iceberg's starts-with.
unfoldable pub starts_with : Bytes → Bytes → Bool
starts_with [] s = true
starts_with (p ∷ ps) [] = false
starts_with (p ∷ ps) (c ∷ s) = c == p && starts_with ps s

split_last-none : (pattern : Bytes) → split_last pattern ≡ none → pattern ≡ []
unfolding split_last
split_last-none [] h = refl
split_last-none (c ∷ cs) h =
    absurd (elim (Option-cases (split_last cs)) [ inl e ↦ cc | inr ((f, l), e) ↦ cc ])

split_last-append :
    (pattern front : Bytes) (last : ℕ)
    → split_last pattern ≡ some (front, last)
    → pattern ≡ front ++ last ∷ []
unfolding split_last
split_last-append [] front last h = absurd (cc)
split_last-append (c ∷ cs) front last h = elim (Option-cases (split_last cs)) [
  | inl e ↦ cc (split_last-none cs e)
  | inr ((f, l), e) ↦ cc (split_last-append cs f l e)
]

any_text : (s : Bytes) → some_suffix is_empty s ≡ true
unfolding some_suffix
any_text [] = refl
any_text (c ∷ s) = any_text s

plain-like :
    (prefix s : Bytes)
    → any_of is_special prefix ≡ false
    → like_matches false (prefix ++ 37 ∷ []) s ≡ starts_with prefix s
unfolding like_matches starts_with next_is some_suffix
plain-like [] s h = any_text s
plain-like (p ∷ ps) [] h = ground arith
plain-like (p ∷ ps) (c ∷ s) h = ground (arith, plain-like ps s)

-- What the split of the pattern was, if it gave a prefix.
prefix_of_split-some :
    (x : Option (Bytes × ℕ)) (prefix : Bytes)
    → prefix_of_split x ≡ some prefix
    → (x ≡ some (prefix, 37)) × (any_of is_special prefix ≡ false)
unfolding prefix_of_split
prefix_of_split-some none prefix h = absurd (cc)
prefix_of_split-some (some (xs, l)) prefix h = elim (Bool-cases (l == 37)) [
  | inl e ↦ (elim (Bool-cases (any_of is_special xs)) [
    | inl f ↦ absurd (ground arith)
    | inr f ↦ ground arith
  ])
  | inr e ↦ absurd (ground arith)
]

-- Where a pattern is pushed down as a prefix, LIKE and starts-with agree on every text.
pub starts_with_prefix-like :
    (pattern prefix s : Bytes)
    → starts_with_prefix pattern ≡ some prefix
    → like_matches false pattern s ≡ starts_with prefix s
unfolding starts_with_prefix
starts_with_prefix-like pattern prefix s h =
    let (split, plain) = prefix_of_split-some (split_last pattern) prefix h in
    subst (λ p. like_matches false p s ≡ starts_with prefix s)
      (sym (split_last-append pattern prefix 37 split)) (plain-like prefix s plain)
