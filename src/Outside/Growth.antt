-- ===== src/Outside/Growth.antt =====
-- Histories that grow by events of a certain kind.
use pgiceberg.Common.{◌≡◌, refl, subst, sym, ◌∷◌}
use pgiceberg.Status.{Result, ok, err, PgError}
use pgiceberg.Exec.{Exec, pure, raise, read, continue, ◌>>=◌}
use pgiceberg.Outside.{Event, History}

-- `h` is `start` and then events of which each satisfies `P` at the history before it.
pub data Grown (P : Event → History → Type 0) (start : History) : History → Type 0 where
  same : Grown P start start
  grow : {h : History} (e : Event) → Grown P start h → P e h → Grown P start (e ∷ h)

module _ {P : Event → History → Type 0} where
  pub Grown-trans : {a b c : History} → Grown P a b → Grown P b c → Grown P a c
  Grown-trans p same = p
  Grown-trans p (grow e q h) = grow e (Grown-trans p q) h

  pub Grown-map :
      {Q : Event → History → Type 0}
      → ((e : Event) (h : History) → P e h → Q e h)
      → {a b : History} → Grown P a b
      → Grown Q a b
  Grown-map f same = same
  Grown-map f (grow e p h) = grow e (Grown-map f p) (f e _ h)

  pub Grown-start : {a b h : History} → a ≡ b → Grown P a h → Grown P b h
  Grown-start {h = h} e g = subst (λ x. Grown P x h) e g

-- Whatever it answers, `m` only adds such events.
pub record Grows (P : Event → History → Type 0) {A : Type 0} (m : Exec History A) : Type 0 where
  pub at : (h : History) → Grown P h (m h).1

module _ {P : Event → History → Type 0} {A : Type 0} where
  pub Grows-pure : (a : A) → Grows P (pure {S = History} a)
  Grows-pure a = record { at = λ h. same }

  pub Grows-raise : (e : PgError) → Grows P (raise {S = History} {A = A} e)
  Grows-raise e = record { at = λ h. same }

  pub Grows-read : (f : History → Result A) → Grows P (read f)
  Grows-read f = record { at = λ h. same }

module _ {P : Event → History → Type 0} {A B : Type 0} where
  Grows-continue :
      (r : Result A) (f : A → Exec History B) (h : History)
      → ((a : A) → r ≡ ok a → Grown P h (f a h).1)
      → Grown P h (continue r f h).1
  Grows-continue (ok a) f h k = k a refl
  Grows-continue (err e) f h k = same

  -- The second part may use what the first answered, and where.
  pub Grows-bind-at :
      (m : Exec History A) (f : A → Exec History B) (h : History)
      → Grown P h (m h).1
      → ((a : A) → (m h).0 ≡ ok a → Grown P (m h).1 (f a (m h).1).1)
      → Grown P h ((m >>= f) h).1
  unfolding ◌>>=◌
  Grows-bind-at m f h g k = Grown-trans g (Grows-continue (m h).0 f (m h).1 k)

  pub Grows-bind :
      (m : Exec History A) (f : A → Exec History B)
      → Grows P m
      → ((a : A) → Grows P (f a))
      → Grows P (m >>= f)
  Grows-bind m f km kf = record {
    at = λ h. Grows-bind-at m f h (km.at h) (λ a e. (kf a).at (m h).1);
  }

pub ruleset grows_rules = (Grows-pure, Grows-raise, Grows-read, Grows-bind)

-- The same for a run that fails: the failing part and the parts before it.
module _ {P : Event → History → Type 0} {A B : Type 0} where
  failed-continue :
      (r : Result A) (f : A → Exec History B) (h : History) {e : PgError}
      → (continue r f h).0 ≡ err e
      → ((a : A) → r ≡ ok a → (f a h).0 ≡ err e → Grown P h (f a h).1)
      → Grown P h (continue r f h).1
  failed-continue (ok a) f h q k = k a refl q
  failed-continue (err d) f h q k = same

  pub failed-bind :
      (m : Exec History A) (f : A → Exec History B) (h : History) {e : PgError}
      → ((m >>= f) h).0 ≡ err e
      → Grown P h (m h).1
      → ((a : A) → (m h).0 ≡ ok a → (f a (m h).1).0 ≡ err e → Grown P (m h).1 (f a (m h).1).1)
      → Grown P h ((m >>= f) h).1
  unfolding ◌>>=◌
  failed-bind m f h q g k = Grown-trans g (failed-continue (m h).0 f (m h).1 q k)

module _ {A B : Type 0} where
  failed-continue-pure :
      (r : Result A) (b : B) (h : History) {e : PgError}
      → (continue r (λ _. pure b) h).0 ≡ err e
      → r ≡ err e
  failed-continue-pure (ok a) b h q = absurd (cc)
  failed-continue-pure (err d) b h q = cc

  after-continue-pure : (r : Result A) (b : B) (h : History) → (continue r (λ _. pure b) h).1 ≡ h
  after-continue-pure (ok a) b h = refl
  after-continue-pure (err d) b h = refl

module _ {P : Event → History → Type 0} {A B : Type 0} where
  -- A last step that only names the result.
  pub failed-bind-pure :
      (m : Exec History A) (b : B) (h : History) {e : PgError}
      → ((m >>= λ _. pure b) h).0 ≡ err e
      → ((m h).0 ≡ err e → Grown P h (m h).1)
      → Grown P h ((m >>= λ _. pure b) h).1
  unfolding ◌>>=◌
  failed-bind-pure m b h q g =
      subst (Grown P h) (sym (after-continue-pure (m h).0 b (m h).1))
        (g (failed-continue-pure (m h).0 b (m h).1 q))
