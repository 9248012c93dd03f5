-- ===== src/Exec.antt =====
-- Functions that change what lies outside the process and may fail. What was done before a failure
-- stays done, so the state comes back beside the error too.
use pgiceberg.Common.{◌≡◌, refl, ap, Bool, true, false, if◌then◌else◌}
use pgiceberg.Status.{Result, ok, err, PgError}

abbrev pub Exec : Type 0 → Type 0 → Type 0
Exec S A = S → Result A × S

abbrev pub pure : {S A : Type 0} → A → Exec S A
pure a s = (ok a, s)

abbrev pub raise : {S A : Type 0} → PgError → Exec S A
raise e s = (err e, s)

-- A result that reads the state and leaves it.
abbrev pub read : {S A : Type 0} → (S → Result A) → Exec S A
read f s = (f s, s)

abbrev pub continue : {S A B : Type 0} → Result A → (A → Exec S B) → Exec S B
continue (ok a) f s = f a s
continue (err e) f s = (err e, s)

infixl 5 ◌>>=◌ ◌>>◌
unfoldable pub ◌>>=◌ : {S A B : Type 0} → Exec S A → (A → Exec S B) → Exec S B
◌>>=◌ m f s = let (r, s') = m s in continue r f s'

abbrev pub ◌>>◌ : {S A B : Type 0} → Exec S A → Exec S B → Exec S B
m >> k = m >>= λ _. k

abbrev pub succeeded : {A : Type 0} → Result A → Bool
succeeded (ok a) = true
succeeded (err e) = false

module _ {S A B : Type 0} where
  continue_inversion :
      (r : Result A × S) (f : A → Exec S B) (s' : S) (b : B)
      → continue r.0 f r.1 ≡ (ok b, s')
      → (a : A) × (t : S) × (r ≡ (ok a, t)) × (f a t ≡ (ok b, s'))
  continue_inversion (ok a, t) f s' b h = (a, t, refl, h)
  continue_inversion (err e, t) f s' b h =
      let differ : false ≡ true = ap (λ r. succeeded r.0) h in absurd (cc)

  -- What ran before the end of a sequence that succeeded.
  pub bind_inversion :
      (m : Exec S A) (f : A → Exec S B) (s s' : S) (b : B)
      → (m >>= f) s ≡ (ok b, s')
      → (a : A) × (t : S) × (m s ≡ (ok a, t)) × (f a t ≡ (ok b, s'))
  unfolding ◌>>=◌
  bind_inversion m f s s' b h = continue_inversion (m s) f s' b h

or_else : {A : Type 0} → A → Result A → A
or_else a (ok b) = b
or_else a (err e) = a

pub answer_injective :
    {S A : Type 0} (a b : A) (s t : S)
    → ◌≡◌ {A = Result A × S} (ok a, s) (ok b, t)
    → (a ≡ b) × (s ≡ t)
unfolding or_else
answer_injective a b s t h = (ap (λ r. or_else a r.0) h, ap (λ r. r.1) h)

-- A check that succeeded.
pub check_inversion :
    {S : Type 0} (b : Bool) (e : PgError) (s t : S)
    → ◌≡◌ {A = Result (Unit {0}) × S} ((if b then pure tt else raise e) s) (ok tt, t)
    → (b ≡ true) × (s ≡ t)
check_inversion true e s t h = (refl, ap (λ r. r.1) h)
check_inversion false e s t h = let differ : false ≡ true = ap (λ r. succeeded r.0) h in absurd (cc)

pub read_inversion :
    {S A : Type 0} (f : S → Result A) (a : A) (s t : S)
    → read f s ≡ (ok a, t)
    → (f s ≡ ok a) × (s ≡ t)
read_inversion f a s t h = (ap (λ r. r.0) h, ap (λ r. r.1) h)
