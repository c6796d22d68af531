-- ===== src/Exec.antt =====
-- Methods that change an object and may raise: what was written before a raise stays written, so
-- the state comes back beside the exception too.
use pypipegraph.Prelude.{Bool, Option, arith, false, none, refl, some, true, ◌≡◌}

pub data Result {ℓ κ} (E : Type ℓ) (A : Type κ) : Type (ℓ ⊔ κ) where
  return : A → Result E A
  raise : E → Result E A

abbrev pub Exec : Type 0 → Type 0 → Type 0 → Type 0
Exec S E A = S → Result E A × S

module _ {S E : Type 0} where
  module _ {A : Type 0} where
    abbrev pub pure : A → Exec S E A
    pure a s = (return a, s)

    abbrev pub throw : E → Exec S E A
    throw e s = (raise e, s)

    abbrev pub gets : (S → A) → Exec S E A
    gets f s = (return (f s), s)

    -- v, or the exception where there is none
    abbrev pub expect : E → Option A → Exec S E A
    expect e none = throw e
    expect e (some a) = pure a

  abbrev pub modify : (S → S) → Exec S E Unit
  modify f s = (return tt, f s)

  -- if test: raise e
  abbrev pub throw_if : Bool → E → Exec S E Unit
  throw_if true e = throw e
  throw_if false e = pure tt

  module _ {A B : Type 0} where
    abbrev pub and_then : Result E A → (A → Exec S E B) → Exec S E B
    and_then (return a) f = f a
    and_then (raise e) f = throw e

    infixl 5 ◌>>=◌ ◌>>◌
    abbrev pub ◌>>=◌ : Exec S E A → (A → Exec S E B) → Exec S E B
    m >>= f = λ s. let (r, s') = m s in and_then r f s'

    abbrev pub ◌>>◌ : Exec S E A → Exec S E B → Exec S E B
    m >> n = m >>= λ _. n

-- The method keeps `P`, whether it returns or raises.
abbrev pub Keeps : {S E A : Type 0} → (S → Type 0) → Exec S E A → Type 0
Keeps {S} P m = (s : S) → P s → P (m s).1

module _ {S E A B : Type 0} {P : S → Type 0} where
  pub Keeps-and_then :
      (r : Result E A) (f : A → Exec S E B) → ((a : A) → Keeps P (f a)) → Keeps P (and_then r f)
  Keeps-and_then (return a) f h = h a
  Keeps-and_then (raise e) f h = λ s p. p

  pub Keeps-bind :
      (m : Exec S E A) (f : A → Exec S E B)
      → Keeps P m
      → ((a : A) → Keeps P (f a))
      → Keeps P (m >>= f)
  Keeps-bind m f hm hf s p = let (r, s') = m s in Keeps-and_then r f hf s' (hm s p)

module _ {S E : Type 0} (P : S → Type 0) where
  pub Keeps-throw_if : (b : Bool) (e : E) → Keeps P (throw_if b e)
  Keeps-throw_if true e s p = p
  Keeps-throw_if false e s p = p

  pub Keeps-expect : {A : Type 0} (o : Option A) (e : E) → Keeps P (expect e o)
  Keeps-expect (some a) e s p = p
  Keeps-expect none e s p = p

module _ {S E A B : Type 0} where
  -- Where the chain returns, its first part did.
  pub bind-return :
      (m : Exec S E A) (f : A → Exec S E B) (s s' : S) (b : B)
      → (m >>= f) s ≡ (return b, s')
      → (a : A) × (t : S) × (m s ≡ (return a, t)) × (f a t ≡ (return b, s'))
  bind-return m f s s' b h = split (m s) refl h
    where
      split :
          (r : Result E A × S)
          → m s ≡ r
          → and_then r.0 f r.1 ≡ (return b, s')
          → (a : A) × (t : S) × (m s ≡ (return a, t)) × (f a t ≡ (return b, s'))
      split (return a, t) e h = (a, t, e, h)
      split (raise x, t) e h = absurd (ground arith)

pub return-injective :
    {E A : Type 0} (r q : Result E A) (a b : A) → r ≡ q → r ≡ return a → q ≡ return b → a ≡ b
return-injective r q a b h e f = ground arith
