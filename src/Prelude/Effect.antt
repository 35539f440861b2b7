-- ===== src/Prelude/Effect.antt =====
-- Asynchronous code that reads and writes a world `W` and may throw an `E`. The world is all that a
-- step can see or change, so what other callers do while the code waits is part of the step waited for.
use mathlib.Core.Path.{◌≡◌, refl}
use mathlib.Core.Logic.{◌⊎◌, inl, inr}

pub data Result {ℓ} (E A : Type ℓ) : Type ℓ where
  ok : A → Result E A
  err : E → Result E A

abbrev pub M {ℓ} : Type ℓ → Type ℓ → Type ℓ → Type ℓ
M W E A = W → Result E A × W

module _ {ℓ} {W E A : Type ℓ} where
  abbrev pub pure : A → M W E A
  pure a w = (ok a, w)

  abbrev pub throw : E → M W E A
  throw e w = (err e, w)

  -- A step that does not throw.
  abbrev pub total : (W → A × W) → M W E A
  total f w = (ok (f w).0, (f w).1)

  abbrev handle : Result E A → (E → M W E A) → M W E A
  handle (ok a) h w = (ok a, w)
  handle (err e) h w = h e w

  -- `try { m } catch (e) { h(e) }`
  abbrev pub catch : M W E A → (E → M W E A) → M W E A
  catch m h w = handle (m w).0 h (m w).1

module _ {ℓ} {W E A B : Type ℓ} where
  abbrev pub continue : Result E A → (A → M W E B) → M W E B
  continue (ok a) f w = f a w
  continue (err e) f w = (err e, w)

  infixl 5 ◌>>=◌ ◌>>◌
  abbrev pub ◌>>=◌ : M W E A → (A → M W E B) → M W E B
  ◌>>=◌ m f w = continue (m w).0 f (m w).1

  abbrev pub ◌>>◌ : M W E A → M W E B → M W E B
  m >> n = m >>= λ _. n

  -- `try { a = m } catch (e) { return h(e) }; return f(a)`: `f` stands outside the handler.
  abbrev pub attempt : Result E A → (E → M W E B) → (A → M W E B) → M W E B
  attempt (ok a) h f w = f a w
  attempt (err e) h f w = h e w

  abbrev pub try_then : M W E A → (E → M W E B) → (A → M W E B) → M W E B
  try_then m h f w = attempt (m w).0 h f (m w).1

pub Result-cases {ℓ} :
    {E A : Type ℓ} (r : Result E A) → ((a : A) × (r ≡ ok a)) ⊎ ((e : E) × (r ≡ err e))
Result-cases (ok a) = inl (a, refl)
Result-cases (err e) = inr (e, refl)
